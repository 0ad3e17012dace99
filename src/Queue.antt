-- ===== src/Queue.antt =====
-- qtask_list/queue.py: the methods of `SmartQueue` over the scripts of qtask_list/state.py.
pub mod Config
pub mod Identity
pub mod Submit
pub mod Settling
pub mod Outcomes
pub mod Claim
pub mod Recover
pub mod Clear
pub mod Legacy
pub mod Pop
pub mod Places
pub mod Replay
pub mod Consistency
pub mod Abandoned
pub mod Stale
