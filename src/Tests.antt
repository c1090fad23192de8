-- ===== src/Tests.antt =====
-- Runs of the models on small inputs, and each theorem at one of them.
mod Boot
mod Firmware
mod Objects
mod Trust
mod Issue
mod Tree
mod Documents
mod Live
mod Entries
mod Channels
mod Catalogs
mod Snapshots
