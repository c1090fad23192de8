-- ===== src/Channel/Presence.antt =====
-- `Option::is_some` and `Option::is_none`, for minitrue/src/channel.rs.
use distropica.Prelude.{Bool, true, false, Option, none, some}

abbrev pub presente : {A : Type 0} → Option A → Bool
presente none = false
presente (some _) = true

abbrev pub ausente : {A : Type 0} → Option A → Bool
ausente none = true
ausente (some _) = false
