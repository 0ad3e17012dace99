-- ===== src/Admin.antt =====
-- qtask_list/admin.py: what administrators see and do.
pub mod Search
pub mod Deleting
