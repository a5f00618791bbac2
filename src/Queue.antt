-- ===== src/Queue.antt =====
-- queue/: the messages that bring the worker its jobs.
pub mod Consumer
pub mod Examples
