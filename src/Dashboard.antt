-- ===== src/Dashboard.antt =====
-- qtask_list/dashboard: the web pages' session tokens.
pub mod Auth
