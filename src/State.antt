-- ===== src/State.antt =====
-- qtask_list/state.py: each Lua script is a function from its keys, its arguments and the store
-- to its reply and the store that it leaves.
pub mod Replies
pub mod Begin
pub mod Supersede
pub mod Enqueue
pub mod Replay
pub mod Refusals
pub mod Attempts
pub mod Told
pub mod Leases
pub mod Ownership
pub mod Evolution
pub mod Attempted
pub mod Settle
pub mod Delay
pub mod Claims
pub mod Purge
