-- ===== src/Ingest/Examples.antt =====
-- The worker on a small database.
use note_rag.Base.{◌≡◌, refl, true, false, none, some, [], ◌∷◌}
use note_rag.Base.Result.{ok, raise}
use note_rag.Persistence.Models.{
  IngestionJob, IngestionJobStatus, Document, DocumentStatus, IndexingStatus, describe,
}
use note_rag.Persistence.Jobs
use note_rag.Persistence.Jobs.{claim, eligible, start_claim, reschedule}
use note_rag.Persistence.Chunks.{list_for_document}
use note_rag.Persistence.Documents
use note_rag.Ingest.Pipeline.{Collaborators, process_job, move, parse_and_chunk}
use note_rag.Embeddings.Indexing.{Provider}
use note_rag.Ingest.Worker.{
  Times, Worker, World, execute, backoff, after_claim, run_claimed, after_process, after_failure,
  handle_failure, fail_found, defer,
}
use note_rag.Ingest.Worker.Settled.{SettlesIf, execute-SettlesIf}

abbrev waiting : IngestionJob
waiting = record {
  id = 1;
  document_id = 7;
  status = IngestionJobStatus.queued;
  progress = 0;
  attempts = 0;
  error_message = none;
  started_at = none;
  finished_at = none;
  next_attempt_at = none;
  locked_at = none;
  worker_id = none;
  created_at = 3;
}

abbrev stored : Document
stored = record {
  id = 7;
  filename = b'a' ∷ [];
  media_type = "text/plain";
  storage_uri = some 1;
  content_hash = some 99;
  status = DocumentStatus.pending;
  token_count = 0;
  chunk_count = 0;
  error_message = none;
  indexing_status = IndexingStatus.pending;
  embedding_model = none;
  indexed_at = none;
  indexing_error = none;
}

-- A parser that cannot read the file.
abbrev unreadable : Collaborators
unreadable = record {
  read_and_parse =
      λ filename uri. raise (record { message = "bad file"; class_name = "ParserError" });
  chunk = λ text source. ok [];
}

abbrev model : Provider
model = record { model_name = "m"; dimension = 1; embed = λ texts. ok [] }

abbrev worker : Worker
worker = record {
  collaborators = unreadable;
  provider = model;
  batch_size = 32;
  cache = none;
  max_attempts = 3;
  retry_backoff = 2;
  lease_timeout = 300;
  worker_id = 5;
}

abbrev start : World
start = record {
  db = record { jobs = waiting ∷ []; documents = stored ∷ []; chunks = [] };
  acked = [];
  deferred = [];
}

abbrev times : Times
times = record { claimed = 100; processed = 101; indexed = 105; settled = 106 }

-- The first failure puts the message off by the plain delay.
first_failure :
    (execute worker (λ id. true) times 1 (some 40) false start).0.deferred ≡ (40, 2) ∷ []
unfolding execute after_claim claim Jobs.get eligible start_claim Jobs.assign run_claimed
    process_job move parse_and_chunk list_for_document after_process after_failure handle_failure
    Documents.get Documents.assign fail_found reschedule defer backoff describe
first_failure = refl

execute-SettlesIf_example :
    SettlesIf worker times.settled
      (some 40)
      1
      start
      (execute worker (λ id. true) times 1 (some 40) false start)
execute-SettlesIf_example = execute-SettlesIf worker (λ id. true) times 1 (some 40) false start
