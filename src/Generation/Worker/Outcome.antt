-- ===== src/Generation/Worker/Outcome.antt =====
-- generation/worker.py: what `run_job` leaves behind, by branches.
use note_rag.Base.{
  ℕ, ◌≤◌, ◌<◌, ◌≡◌, ◌≢◌, ◌⊎◌, refl, sym, subst, ◌∙◌, Option, none, some, ltb, if◌then◌else◌, arith,
  Bool-cases, inl, inr, Option-cases,
}
use note_rag.Base.Result.{Result, ok, raise}
use note_rag.Base.Table.{find-update_self, find-update_ne}
use note_rag.Persistence.Models.{Exception, describe}
use note_rag.Generation.Jobs.{
  GenerationJobStatus, GenerationJob, job_id, is_queued, get, assign, start, complete, fail,
}
use note_rag.Generation.Worker.{
  GenerationWorker, World, generate_for, settle, run_job, lookup_error,
}
use note_rag.Generation.Worker.Settled.{
  settle-job_id, ran, started, get-start, run_job_queued, run_job_begun,
}

module _ {M : Type 0} (w : GenerationWorker M) (now k : ℕ) where
  get-ran :
      (job : GenerationJob) (world : World M) {row : GenerationJob}
      → get k world.jobs ≡ some row
      → get k (ran w now k job world).jobs
        ≡ some (settle w.max_attempts now (generate_for w.service job world.materials).1 row)
  unfolding get assign
  get-ran job world h =
      let r = (generate_for w.service job world.materials).1 in
      find-update_self job_id k (settle w.max_attempts now r) world.jobs (settle-job_id w now k r _)
        h

  get-ran_ne :
      (job : GenerationJob) (world : World M) (j : ℕ)
      → j ≢ k
      → get j (ran w now k job world).jobs ≡ get j world.jobs
  unfolding get assign
  get-ran_ne job world j ne =
      let r = (generate_for w.service job world.materials).1 in
      find-update_ne job_id j k (settle w.max_attempts now r) world.jobs (settle-job_id w now k r)
        ne

  get-started_ne :
      (world : World M) (j : ℕ) → j ≢ k → get j (started w now k world).jobs ≡ get j world.jobs
  unfolding get assign start
  get-started_ne world j ne = find-update_ne job_id j k (start now) world.jobs (λ r. refl) ne

  -- The row `row` after a run with this outcome, of a job that has had so many attempts.
  abbrev pub IsSettled : ℕ → Result Exception (Unit {0}) → GenerationJob → Type 0
  IsSettled attempts (ok _) row =
      (row.attempts ≡ attempts)
      × (row.status ≡ GenerationJobStatus.completed)
      × (row.progress ≡ 100)
      × (row.error_message ≡ none)
      × (row.finished_at ≡ some now)
  IsSettled attempts (raise e) row =
      (row.attempts ≡ attempts)
      × (row.error_message ≡ some (describe e))
      × (((attempts < w.max_attempts)
            × (row.status ≡ GenerationJobStatus.queued)
            × (row.progress ≡ 0))
          ⊎ ((w.max_attempts ≤ attempts)
              × (row.status ≡ GenerationJobStatus.failed)
              × (row.finished_at ≡ some now)))

  settle-IsSettled :
      (r : Result Exception (Unit {0})) (job : GenerationJob)
      → IsSettled job.attempts r (settle w.max_attempts now r job)
  unfolding settle complete fail
  settle-IsSettled (ok _) job = (refl, refl, refl, refl, refl)
  settle-IsSettled (raise e) job = elim (Bool-cases (ltb job.attempts w.max_attempts)) [
    | inl more ↦ rw more (refl, refl, inl (ground arith, refl, refl))
    | inr none' ↦ rw none' (refl, refl, inr (ground arith, refl, refl))
  ]

  -- What a run that starts from `job`, in these tables, leaves behind.
  abbrev pub RunFrom : GenerationJob → World M → World M → Type 0
  RunFrom job world world' =
      (row : GenerationJob) × (get k world'.jobs ≡ some row)
      × IsSettled job.attempts (generate_for w.service job world.materials).1 row
      × (world'.materials ≡ (generate_for w.service job world.materials).0)
      × ((j : ℕ) → j ≢ k → get j world'.jobs ≡ get j world.jobs)

  -- The job of which a run generates: a queued one is claimed before.
  abbrev pub begun : GenerationJob → GenerationJob
  begun job = if is_queued job.status then start now job else job

  abbrev pub RunOf : World M → Option GenerationJob → World M × Result Exception (Unit {0}) → Type 0
  RunOf world none (world', result) = (world' ≡ world) × (result ≡ raise lookup_error)
  RunOf world (some job) (world', result) = (result ≡ ok tt) × RunFrom (begun job) world world'

  ran-RunFrom :
      (job : GenerationJob) (world : World M)
      → get k world.jobs ≡ some job
      → RunFrom job world (ran w now k job world)
  ran-RunFrom job world h =
      let r = (generate_for w.service job world.materials).1 in
      (
        settle w.max_attempts now r job,
        get-ran job world h,
        settle-IsSettled r job,
        refl,
        get-ran_ne job world,
      )

  start-RunFrom :
      (job : GenerationJob) (world : World M)
      → get k world.jobs ≡ some job
      → RunFrom (start now job) world (ran w now k (start now job) (started w now k world))
  start-RunFrom job world h =
      let (row, found, settled, same, others) =
        ran-RunFrom (start now job) (started w now k world) (get-start w now k world.jobs h) in
      (row, found, settled, same, λ j ne. others j ne ∙ get-started_ne world j ne)

  run_job-some :
      (job : GenerationJob) (world : World M)
      → get k world.jobs ≡ some job
      → RunOf world (some job) (run_job w now k world)
  run_job-some job world h = elim (Bool-cases (is_queued job.status)) [
    | inl q ↦
        subst (RunOf world (some job)) (sym (run_job_queued w now k world h q))
          (refl, rw q (start-RunFrom job world h))
    | inr q ↦
        subst (RunOf world (some job)) (sym (run_job_begun w now k world h q))
          (refl, rw q (ran-RunFrom job world h))
  ]

  run_job-none :
      (world : World M) → get k world.jobs ≡ none → RunOf world none (run_job w now k world)
  unfolding run_job
  run_job-none world h = rw (h, run_job) (refl, refl)

-- `run_job` raises, and changes nothing, exactly if the job has no row. Otherwise it claims the job if
-- it is queued, generates once, and settles the row by how that went: completed without an error; or
-- with the error, queued again from 0 per cent if it has had fewer attempts than the limit, and
-- failed if not. The error of the generation is not let through and no other row changes.
pub run_job-RunOf :
    {M : Type 0} (w : GenerationWorker M) (now k : ℕ) (world : World M)
    → RunOf w now k world (get k world.jobs) (run_job w now k world)
run_job-RunOf w now k world = elim (Option-cases (get k world.jobs)) [
  | inl gone ↦
      subst (λ o. RunOf w now k world o (run_job w now k world)) (sym gone)
        (run_job-none w now k world gone)
  | inr (job, h) ↦
      subst (λ o. RunOf w now k world o (run_job w now k world)) (sym h)
        (run_job-some w now k job world h)
]
