-- ===== src/Worker.antt =====
-- qtask_list/worker.py: a worker runs handlers on the claims of one queue.
pub mod Process
pub mod Emptied
pub mod Pool
