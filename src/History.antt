-- ===== src/History.antt =====
-- qtask_list/history.py: the index of a queue's task records.
pub mod Page
pub mod Clear
