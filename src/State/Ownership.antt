-- ===== src/State/Ownership.antt =====
-- The exactly-once invariant of the scripts of qtask_list/state.py, script by script.
pub mod Cores
pub mod Settling
pub mod Beginning
pub mod Entering
pub mod Replaying
pub mod Moving
pub mod Purging
