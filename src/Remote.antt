-- ===== src/Remote.antt =====
-- qtask_list/remote_storage/server.py: the server that keeps large payloads.
pub mod Scores
pub mod Disk
pub mod Requests
pub mod Retention
pub mod Cleanup
pub mod Objects
pub mod Collection
pub mod Survival
pub mod Client
