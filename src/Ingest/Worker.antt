-- ===== src/Ingest/Worker.antt =====
-- ingest/worker.py: `IngestionWorker`. Every method returns what it leaves behind beside its result
-- or the exception that it lets through: the tables as committed, and the messages that were
-- acknowledged or deferred. A message is known by its id in the stream. What `datetime.now` returns
-- in one method is an argument.
pub mod Acked
pub mod Settled
use note_rag.Base.{
  ℕ, ◌+◌, ◌-◌, ◌*◌, ◌/◌, ◌^◌, Bool, true, false, Option, none, some, List, [], ◌∷◌, String, ltb,
  ◌==◌, if◌then◌else◌,
}
use note_rag.Base.Result.{Result, ok, raise}
use note_rag.Persistence.Models.{
  DocumentStatus, IngestionJobStatus, IndexingStatus, IngestionJob, Document, Db, Exception,
  describe,
}
use note_rag.Persistence.Jobs.{
  Jobs, claim, claim_next, reschedule, fail, complete_claim, recover_stale,
}
use note_rag.Persistence.Jobs
use note_rag.Persistence.Documents
use note_rag.Ingest.Pipeline.{Collaborators, lookup_error, IngestionResult, process_job}
use note_rag.Embeddings.Indexing.{Provider, Invalidator, IndexingResult, index_document}

-- `__init__`, without the checks of its arguments.
pub record Worker : Type 0 where
  pub collaborators : Collaborators
  pub provider : Provider
  pub batch_size : ℕ
  pub cache : Option Invalidator
  pub max_attempts : ℕ
  pub retry_backoff : ℕ
  pub lease_timeout : ℕ
  pub worker_id : ℕ

pub record World : Type 0 where
  pub db : Db
  pub acked : List ℕ
  pub deferred : List (ℕ × ℕ)

-- `if msg is not None and self.consumer is not None: self.consumer.ack(msg)`. A message is given
-- only where there is a consumer.
unfoldable pub ack : Option ℕ → World → World
ack none w = w
ack (some msg) w = record w { acked = msg ∷ w.acked }

unfoldable pub defer : Option ℕ → ℕ → World → World
defer none delay w = w
defer (some msg) delay w = record w { deferred = (msg, delay) ∷ w.deferred }

-- `self.retry_backoff_seconds * (2 ** (job.attempts - 1))`; `2 ** -1` is a half.
unfoldable pub backoff : ℕ → ℕ → ℕ
backoff base attempts = if attempts == 0 then base / 2 else base * 2 ^ (attempts - 1)

abbrev pub Action : Type 0 → Type 0
Action A = World × Result Exception A

-- The document of a job that is tried again, and of one that is given up.
unfoldable pub document_retried : Bool → Document → Document
document_retried true d = d
document_retried false d = record d { status = DocumentStatus.pending; error_message = none }

unfoldable pub document_failed : Bool → String → Document → Document
document_failed true m d = record d {
  indexing_status = IndexingStatus.failed;
  indexing_error = some m;
}
document_failed false m d = record d { status = DocumentStatus.failed; error_message = some m }

abbrev pub in_session :
    ℕ → (IngestionJob → IngestionJob) → ℕ → (Document → Document) → World → World
in_session job_id f document_id g w = record w {
  db = record w.db {
    jobs = Jobs.assign job_id f w.db.jobs;
    documents = Documents.assign document_id g w.db.documents;
  };
}

unfoldable pub fail_found :
    Worker → ℕ → Option ℕ → String → Bool → IngestionJob → Document → World → World
fail_found k now msg error_message indexing_failure job document w =
    let delay = backoff k.retry_backoff job.attempts in
    if ltb job.attempts k.max_attempts
    then defer msg delay (
        in_session job.id (reschedule error_message (now + delay)) document.id
          (document_retried indexing_failure) w)
    else ack msg (
        in_session job.id (fail error_message now) document.id
          (document_failed indexing_failure error_message) w)

unfoldable pub handle_failure :
    Worker → ℕ → ℕ → Option ℕ → String → Bool → World → Action (Unit {0})
handle_failure k now job_id msg error_message indexing_failure w =
    elim (Jobs.get job_id w.db.jobs) [
      | none ↦ (w, raise (lookup_error "ingestion job not found"))
      | some job ↦ elim (Documents.get job.document_id w.db.documents) [
        | none ↦ (w, raise (lookup_error "document not found"))
        | some document ↦
            (fail_found k now msg error_message indexing_failure job document w, ok tt)
      ]
    ]

-- `self._handle_failure(...); return True`
unfoldable pub after_failure : Action (Unit {0}) → Action Bool
after_failure (w, ok _) = (w, ok true)
after_failure (w, raise e) = (w, raise e)

abbrev commit : Db → World → World
commit db w = record w { db = db }

-- The block under "Success".
unfoldable pub complete : ℕ → ℕ → Option ℕ → World → Action Bool
complete now job_id msg w = elim (Jobs.get job_id w.db.jobs) [
  | none ↦ (w, raise (lookup_error "ingestion job not found"))
  | some job ↦ (
    ack msg (commit (record w.db { jobs = Jobs.assign job_id (complete_claim now) w.db.jobs }) w),
    ok true,
  )
]

unfoldable pub after_index :
    Worker → ℕ → ℕ → Option ℕ → World → Result Exception (Db × IndexingResult) → Action Bool
after_index k now job_id msg w (raise e) =
    after_failure (handle_failure k now job_id msg (describe e) true w)
after_index k now job_id msg w (ok (db, indexing)) = elim indexing.error_message [
  | some m ↦ after_failure (handle_failure k now job_id msg m true (commit db w))
  | none ↦ complete now job_id msg (commit db w)
]

-- What `datetime.now` returns to the methods that one `_execute` calls. The last is the time of the
-- failure or of the completion, of which there is one at most.
pub record Times : Type 0 where
  pub claimed : ℕ
  pub processed : ℕ
  pub indexed : ℕ
  pub settled : ℕ

unfoldable pub after_process :
    Worker → Times → ℕ → Option ℕ → World → Result Exception (Db × IngestionResult) → Action Bool
after_process k at job_id msg w (raise e) =
    after_failure (handle_failure k at.settled job_id msg (describe e) false w)
after_process k at job_id msg w (ok (db, ingestion)) =
    after_index k at.settled job_id msg (commit db w) (
      index_document k.provider k.batch_size k.cache at.indexed ingestion.document_id (some job_id)
        false db)

-- `_execute` from the first `try` on.
unfoldable pub run_claimed : Worker → Times → ℕ → Option ℕ → World → Action Bool
run_claimed k at job_id msg w =
    after_process k at job_id msg w (process_job k.collaborators job_id false at.processed w.db)

-- `current is None or current.status.value in {"completed", "failed"}`
unfoldable pub is_over : Option IngestionJob → Bool
is_over none = true
is_over (some job) = elim job.status [
  | IngestionJobStatus.completed ↦ true
  | IngestionJobStatus.failed ↦ true
  | _ ↦ false
]

-- `if job is None: ... return False`, where `current` is the row.
unfoldable pub decline : Worker → ℕ → Option ℕ → World → Action Bool
decline k job_id msg w =
    if is_over (Jobs.get job_id w.db.jobs)
    then (ack msg w, ok false)
    else (defer msg k.retry_backoff w, ok false)

unfoldable pub after_claim :
    Worker → Times → ℕ → Option ℕ → World → Option IngestionJob × Jobs → Action Bool
after_claim k at job_id msg w (none, jobs) = decline k job_id msg w
after_claim k at job_id msg w (some job, jobs) =
    run_claimed k at job_id msg (commit (record w.db { jobs = jobs }) w)

-- `_execute`
unfoldable pub execute : Worker → (ℕ → Bool) → Times → ℕ → Option ℕ → Bool → World → Action Bool
execute k free at job_id msg true w = run_claimed k at job_id msg w
execute k free at job_id msg false w =
    after_claim k at job_id msg w (claim free job_id k.worker_id at.claimed w.db.jobs)

-- `self._execute(...); return True`
unfoldable pub as_run : Action Bool → Action Bool
as_run (w, ok _) = (w, ok true)
as_run (w, raise e) = (w, raise e)

unfoldable pub after_claim_next :
    Worker → (ℕ → Bool) → Times → World → Option IngestionJob × Jobs → Action Bool
after_claim_next k free at w (none, jobs) = (w, ok false)
after_claim_next k free at w (some job, jobs) =
    as_run (execute k free at job.id none true (commit (record w.db { jobs = jobs }) w))

-- `run_once`. `polled` is what `consumer.poll` returned: nothing too where it raised, or where
-- there is no consumer.
unfoldable pub run_once : Worker → (ℕ → Bool) → Times → Option (ℕ × ℕ) → World → Action Bool
unfolding as_run
run_once k free at (some (job_id, msg)) w = as_run (execute k free at job_id (some msg) false w)
run_once k free at none w =
    after_claim_next k free at w (claim_next free k.worker_id at.claimed w.db.jobs)

unfoldable pub recover_stale_jobs : Worker → ℕ → World → World × ℕ
recover_stale_jobs k now w =
    let (n, jobs) = recover_stale (now - k.lease_timeout) now w.db.jobs in
    (commit (record w.db { jobs = jobs }) w, n)
