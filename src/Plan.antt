-- ===== src/Plan.antt =====
-- minitrue/src/plan.rs: the PLAN_LOCK document and the graph it describes.
pub mod Codec
pub mod Order
pub mod Live
