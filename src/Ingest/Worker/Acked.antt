-- ===== src/Ingest/Worker/Acked.antt =====
-- ingest/worker.py: what a run leaves of a job and its message.
use note_rag.Base.{
  ℕ, ◌+◌, ◌<◌, ◌≡◌, true, Option, none, some, List, ◌∷◌, arith, ap, ◌∙◌, ◌⊎◌, inl, inr,
  if◌then◌else◌,
}
use note_rag.Persistence.Models.{IngestionJob}
use note_rag.Persistence.Models.IngestionJobStatus.{queued}
use note_rag.Persistence.Jobs.{reschedule, fail, complete_claim}
use note_rag.Persistence.Jobs
use note_rag.Persistence.Documents
use note_rag.Ingest.Worker.{Worker, World, ack, defer, backoff, is_over}
use note_rag.Persistence.Jobs.{Jobs, claim}

abbrev pub with_ack : Option ℕ → List ℕ → List ℕ
with_ack none acked = acked
with_ack (some msg) acked = msg ∷ acked

abbrev pub with_defer : Option ℕ → ℕ → List (ℕ × ℕ) → List (ℕ × ℕ)
with_defer none delay deferred = deferred
with_defer (some msg) delay deferred = (msg, delay) ∷ deferred

-- The job is over and its message is acknowledged.
pub record IsOver (msg : Option ℕ) (w w' : World) (job : IngestionJob) : Type 0 where
  pub over : is_over (some job) ≡ true
  pub acked : w'.acked ≡ with_ack msg w.acked
  pub deferred : w'.deferred ≡ w.deferred

-- The job waits for its next attempt, and its message for as long.
pub record IsRetried (k : Worker) (now : ℕ) (msg : Option ℕ) (w w' : World) (job : IngestionJob)
    : Type 0 where
  pub waits : job.status ≡ queued
  pub allowed : job.attempts < k.max_attempts
  pub due : job.next_attempt_at ≡ some (now + backoff k.retry_backoff job.attempts)
  pub acked : w'.acked ≡ w.acked
  pub deferred : w'.deferred ≡ with_defer msg (backoff k.retry_backoff job.attempts) w.deferred

pub record Settles (k : Worker) (now : ℕ) (msg : Option ℕ) (job_id : ℕ) (w w' : World)
    : Type 0 where
  pub job : IngestionJob
  pub stored : Jobs.get job_id w'.db.jobs ≡ some job
  pub unlocked : (job.locked_at ≡ none) × (job.worker_id ≡ none)
  pub outcome : IsOver msg w w' job ⊎ IsRetried k now msg w w' job

-- The row of the job, or of its document, is gone.
abbrev pub IsMissing : ℕ → World → Type 0
IsMissing job_id w =
    (Jobs.get job_id w.db.jobs ≡ none)
    ⊎ ((job : IngestionJob) × (Jobs.get job_id w.db.jobs ≡ some job)
        × (Documents.get job.document_id w.db.documents ≡ none))

-- The job was not run: the tables are as they were, and the message is acknowledged if the job is
-- gone or over, and deferred if not.
pub record IsDeclined (base : ℕ) (msg : Option ℕ) (job_id : ℕ) (w w' : World) : Type 0 where
  pub untouched : w'.db ≡ w.db
  pub acked :
      w'.acked ≡ (if is_over (Jobs.get job_id w.db.jobs) then with_ack msg w.acked else w.acked)
  pub deferred :
      w'.deferred
      ≡ (if is_over (Jobs.get job_id w.db.jobs) then w.deferred else with_defer msg base w.deferred)

module _ (k : Worker) (now : ℕ) (msg : Option ℕ) where
  pub acked-ack : (w : World) → (ack msg w).acked ≡ with_ack msg w.acked
  unfolding ack
  acked-ack w = ground arith

  pub db-ack : (w : World) → (ack msg w).db ≡ w.db
  unfolding ack
  db-ack w = ground arith

  pub deferred-ack : (w : World) → (ack msg w).deferred ≡ w.deferred
  unfolding ack
  deferred-ack w = ground arith

  pub acked-defer : (delay : ℕ) (w : World) → (defer msg delay w).acked ≡ w.acked
  unfolding defer
  acked-defer delay w = ground arith

  pub db-defer : (delay : ℕ) (w : World) → (defer msg delay w).db ≡ w.db
  unfolding defer
  db-defer delay w = ground arith

  pub deferred-defer :
      (delay : ℕ) (w : World) → (defer msg delay w).deferred ≡ with_defer msg delay w.deferred
  unfolding defer
  deferred-defer delay w = ground arith

  pub ack-Settles :
      (job_id : ℕ) (w v : World) (j : IngestionJob)
      → v.acked ≡ w.acked
      → v.deferred ≡ w.deferred
      → Jobs.get job_id v.db.jobs ≡ some j
      → (j.locked_at ≡ none) × (j.worker_id ≡ none)
      → is_over (some j) ≡ true
      → Settles k now msg job_id w (ack msg v)
  ack-Settles job_id w v j a d found unlocked over = record {
    job = j;
    stored = rw (db-ack v) found;
    unlocked = unlocked;
    outcome = inl (record {
      over = over;
      acked = acked-ack v ∙ ap (with_ack msg) a;
      deferred = deferred-ack v ∙ d;
    });
  }

  pub defer-Settles :
      (job_id : ℕ) (w v : World) (j : IngestionJob)
      → v.acked ≡ w.acked
      → v.deferred ≡ w.deferred
      → Jobs.get job_id v.db.jobs ≡ some j
      → (j.locked_at ≡ none) × (j.worker_id ≡ none)
      → j.status ≡ queued
      → j.attempts < k.max_attempts
      → j.next_attempt_at ≡ some (now + backoff k.retry_backoff j.attempts)
      → Settles k now msg job_id w (defer msg (backoff k.retry_backoff j.attempts) v)
  defer-Settles job_id w v j a d found unlocked waits allowed due = record {
    job = j;
    stored = rw (db-defer _ v) found;
    unlocked = unlocked;
    outcome = inr (record {
      waits = waits;
      allowed = allowed;
      due = due;
      acked = acked-defer _ v ∙ a;
      deferred = deferred-defer _ v ∙ ap (with_defer msg (backoff k.retry_backoff j.attempts)) d;
    });
  }
