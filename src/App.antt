-- ===== src/App.antt =====
-- The tasks of the application: src/coms_mgr.c, src/model_iface.c, src/tstat_app.c and what they share,
-- src/task_info.c. What they log is left out, but for the hooks of task_info.c.
pub mod TaskInfo
pub mod Coms
pub mod Iface
pub mod Main
pub mod Example
