-- ===== src/Study.antt =====
-- study/: when a study item is due again.
pub mod Scheduling
pub mod Examples
