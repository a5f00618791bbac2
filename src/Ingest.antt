-- ===== src/Ingest.antt =====
-- ingest/: the pipeline that parses and chunks a stored document, and the worker that runs jobs.
pub mod Pipeline
pub mod Worker
mod Examples
