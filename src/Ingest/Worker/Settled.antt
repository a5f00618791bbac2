-- ===== src/Ingest/Worker/Settled.antt =====
-- ingest/worker.py: where a job and its message stand when the worker is through with them.
use note_rag.Base.{
  ℕ, ◌+◌, ◌≡◌, refl, Bool, true, false, Option, none, some, ltb, subst, sym, Bool-cases,
  Option-cases, ◌⊎◌, inl, inr, String, ltb→lt,
}
use note_rag.Base.Result.{Result, ok, raise}
use note_rag.Persistence.Models.{IngestionJob, Document, Db, Exception, describe}
use note_rag.Persistence.Jobs.{reschedule, fail, complete_claim}
use note_rag.Persistence.Jobs
use note_rag.Persistence.Jobs.Rows.{get-id, get-assign_self}
use note_rag.Persistence.Documents
use note_rag.Ingest.Pipeline.{lookup_error, process_job, IngestionResult}
use note_rag.Embeddings.Indexing.{IndexingResult, index_document}
use note_rag.Ingest.Worker.{
  Times, Worker, World, backoff, document_retried, document_failed, in_session, fail_found, Action,
  handle_failure, after_failure, commit, complete, after_index, after_process, run_claimed, is_over,
  decline, after_claim, execute,
}
use note_rag.Persistence.Jobs.{Jobs, claim}
use note_rag.Ingest.Worker.Acked.{
  IsOver, IsRetried, Settles, IsMissing, IsDeclined, acked-ack, db-ack, deferred-ack, acked-defer,
  db-defer, deferred-defer, ack-Settles, defer-Settles,
}

module _ (k : Worker) (now : ℕ) (msg : Option ℕ) where
  fail_found-Settles_self :
      (m : String) (indexing : Bool) (job : IngestionJob) (document : Document) (w : World)
      → Jobs.get job.id w.db.jobs ≡ some job
      → Settles k now msg job.id w (fail_found k now msg m indexing job document w)
  unfolding fail_found reschedule fail is_over
  fail_found-Settles_self m indexing job document w found =
      let at = now + backoff k.retry_backoff job.attempts in
      elim (Bool-cases (ltb job.attempts k.max_attempts)) [
        | inl more ↦ rw more (
            defer-Settles k now msg job.id w
              (in_session job.id (reschedule m at) document.id (document_retried indexing) w)
              (reschedule m at job) refl refl
              (get-assign_self job.id (reschedule m at) w.db.jobs refl found) (refl, refl) refl
              (ltb→lt _ _ more) refl)
        | inr spent ↦ rw spent (
            ack-Settles k now msg job.id w
              (in_session job.id (fail m now) document.id (document_failed indexing m) w)
              (fail m now job) refl refl (get-assign_self job.id (fail m now) w.db.jobs refl found)
              (refl, refl) refl)
      ]

  -- A failure reschedules the job, or ends it, by its attempts.
  fail_found-Settles :
      (m : String) (indexing : Bool) (job_id : ℕ) (job : IngestionJob) (document : Document)
      (w : World)
      → Jobs.get job_id w.db.jobs ≡ some job
      → Settles k now msg job_id w (fail_found k now msg m indexing job document w)
  fail_found-Settles m indexing job_id job document w found =
      let e = get-id job_id w.db.jobs found in
      subst (λ i. Settles k now msg i w (fail_found k now msg m indexing job document w)) e
        (fail_found-Settles_self m indexing job document w
          (subst (λ i. Jobs.get i w.db.jobs ≡ some job) (sym e) found))

  -- What a run of the job has settled, when it returned or raised.
  abbrev pub SettlesIf : ℕ → World → Action Bool → Type 0
  SettlesIf job_id w (w', ok true) = Settles k now msg job_id w w'
  SettlesIf job_id w (w', ok false) = IsDeclined k.retry_backoff msg job_id w w'
  SettlesIf job_id w (w', raise e) = IsMissing job_id w'

  -- A claimed job is never declined.
  abbrev pub RunSettles : ℕ → World → Action Bool → Type 0
  RunSettles job_id w (w', ok true) = Settles k now msg job_id w w'
  RunSettles job_id w (w', ok false) = ⊥
  RunSettles job_id w (w', raise e) = IsMissing job_id w'

  handle_failure-Settles :
      (m : String) (indexing : Bool) (job_id : ℕ) (w : World)
      → RunSettles job_id w (after_failure (handle_failure k now job_id msg m indexing w))
  unfolding handle_failure after_failure
  handle_failure-Settles m indexing job_id w = elim (Option-cases (Jobs.get job_id w.db.jobs)) [
    | inl absent ↦
        let e : handle_failure k now job_id msg m indexing w
            ≡ (w, raise (lookup_error "ingestion job not found")) =
          rw (absent, handle_failure) in
        subst (λ r. RunSettles job_id w (after_failure r)) (sym e) (inl absent)
    | inr (job, found) ↦ elim (Option-cases (Documents.get job.document_id w.db.documents)) [
      | inl absent ↦
          let e : handle_failure k now job_id msg m indexing w
              ≡ (w, raise (lookup_error "document not found")) =
            rw (found, handle_failure, absent) in
          subst (λ r. RunSettles job_id w (after_failure r)) (sym e) (inr (job, found, absent))
      | inr (document, found') ↦
          let e : handle_failure k now job_id msg m indexing w
              ≡ (fail_found k now msg m indexing job document w, ok tt) =
            rw (found, handle_failure, found') in
          subst (λ r. RunSettles job_id w (after_failure r)) (sym e)
            (fail_found-Settles m indexing job_id job document w found)
    ]
  ]

  complete-Settles : (job_id : ℕ) (w : World) → RunSettles job_id w (complete now job_id msg w)
  unfolding complete complete_claim is_over
  complete-Settles job_id w = elim (Option-cases (Jobs.get job_id w.db.jobs)) [
    | inl absent ↦ rw (absent, complete) (inl absent)
    | inr (job, found) ↦
        rw (found, complete)
          (ack-Settles k now msg job_id w _ (complete_claim now job) refl refl
            (get-assign_self job_id (complete_claim now) w.db.jobs refl found) (refl, refl) refl)
  ]

  Settles-commit :
      (job_id : ℕ) (db : Db) (w : World) (r : Action Bool)
      → RunSettles job_id (commit db w) r
      → RunSettles job_id w r
  Settles-commit job_id db w (w', ok true) s = record {
    job = s.job;
    stored = s.stored;
    unlocked = s.unlocked;
    outcome = again s.outcome;
  }
    where
      again :
          IsOver msg (commit db w) w' s.job ⊎ IsRetried k now msg (commit db w) w' s.job
          → IsOver msg w w' s.job ⊎ IsRetried k now msg w w' s.job
      again (inl o) = inl (record { over = o.over; acked = o.acked; deferred = o.deferred })
      again (inr r) = inr (record {
        waits = r.waits;
        allowed = r.allowed;
        due = r.due;
        acked = r.acked;
        deferred = r.deferred;
      })
  Settles-commit job_id db w (w', ok false) s = s
  Settles-commit job_id db w (w', raise e) s = s

  after_index-Settles :
      (job_id : ℕ) (w : World) (r : Result Exception (Db × IndexingResult))
      → RunSettles job_id w (after_index k now job_id msg w r)
  unfolding after_index
  after_index-Settles job_id w (raise e) = handle_failure-Settles (describe e) true job_id w
  after_index-Settles job_id w (ok (db, indexing)) = elim (Option-cases indexing.error_message) [
    | inl fine ↦
        rw (fine, after_index)
          (Settles-commit job_id db w _ (complete-Settles job_id (commit db w)))
    | inr (m, broke) ↦
        rw (broke, after_index)
          (Settles-commit job_id db w _ (handle_failure-Settles m true job_id (commit db w)))
  ]

  RunSettles-SettlesIf :
      (job_id : ℕ) (w : World) (r : Action Bool) → RunSettles job_id w r → SettlesIf job_id w r
  RunSettles-SettlesIf job_id w (w', ok true) s = s
  RunSettles-SettlesIf job_id w (w', ok false) s = absurd s
  RunSettles-SettlesIf job_id w (w', raise e) s = s

  decline-SettlesIf : (job_id : ℕ) (w : World) → SettlesIf job_id w (decline k job_id msg w)
  unfolding decline
  decline-SettlesIf job_id w = elim (Bool-cases (is_over (Jobs.get job_id w.db.jobs))) [
    | inl over ↦ rw over (record {
      untouched = db-ack k now msg w;
      acked = rw over (acked-ack k now msg w);
      deferred = rw over (deferred-ack k now msg w);
    })
    | inr waits ↦ rw waits (record {
      untouched = db-defer k now msg k.retry_backoff w;
      acked = rw waits (acked-defer k now msg k.retry_backoff w);
      deferred = rw waits (deferred-defer k now msg k.retry_backoff w);
    })
  ]

module _ (k : Worker) (at : Times) (msg : Option ℕ) where
  after_process-Settles :
      (job_id : ℕ) (w : World) (r : Result Exception (Db × IngestionResult))
      → RunSettles k at.settled msg job_id w (after_process k at job_id msg w r)
  unfolding after_process
  after_process-Settles job_id w (raise e) =
      handle_failure-Settles k at.settled msg (describe e) false job_id w
  after_process-Settles job_id w (ok (db, ingestion)) =
      Settles-commit k at.settled msg job_id db w _ (
        after_index-Settles k at.settled msg job_id (commit db w) (
          index_document k.provider k.batch_size k.cache at.indexed ingestion.document_id
            (some job_id) false db))

  run_claimed-Settles :
      (job_id : ℕ) (w : World)
      → RunSettles k at.settled msg job_id w (run_claimed k at job_id msg w)
  unfolding run_claimed
  run_claimed-Settles job_id w =
      after_process-Settles job_id w (process_job k.collaborators job_id false at.processed w.db)

  after_claim-SettlesIf :
      (job_id : ℕ) (w : World) (r : Option IngestionJob × Jobs)
      → SettlesIf k at.settled msg job_id w (after_claim k at job_id msg w r)
  unfolding after_claim
  after_claim-SettlesIf job_id w (none, jobs) = decline-SettlesIf k at.settled msg job_id w
  after_claim-SettlesIf job_id w (some job, jobs) =
      let db = record w.db { jobs = jobs } in
      RunSettles-SettlesIf k at.settled msg job_id w _
        (Settles-commit k at.settled msg job_id db w _ (run_claimed-Settles job_id (commit db w)))

-- Whatever the parser, the chunker and the embedding model do: when `_execute` returns true, the job's
-- row is unlocked, and either it is completed or failed and its message is acknowledged, or it
-- is queued for a due time by the doubling delay, with attempts below the maximum, and its message is
-- deferred by that delay. When it returns false, the job could not be claimed: the tables are as
-- they were, and the message is acknowledged exactly if the job is gone or over. It raises only if
-- the row of the job or of its document is gone.
pub execute-SettlesIf :
    (k : Worker) (free : ℕ → Bool) (at : Times) (job_id : ℕ) (msg : Option ℕ) (claimed : Bool)
    (w : World)
    → SettlesIf k at.settled msg job_id w (execute k free at job_id msg claimed w)
unfolding execute
execute-SettlesIf k free at job_id msg true w =
    RunSettles-SettlesIf k at.settled msg job_id w _ (run_claimed-Settles k at msg job_id w)
execute-SettlesIf k free at job_id msg false w =
    after_claim-SettlesIf k at msg job_id w (claim free job_id k.worker_id at.claimed w.db.jobs)
