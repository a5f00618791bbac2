-- ===== src/Generation/Worker/Settled.antt =====
-- generation/worker.py: what a run makes of the row of its job.
use note_rag.Base.{ℕ, ◌≡◌, refl, ap, ◌∙◌, Bool, true, false, some}
use note_rag.Base.Result.{Result, ok, raise}
use note_rag.Base.Table.{find-update_self}
use note_rag.Persistence.Models.{Exception, describe}
use note_rag.Generation.Jobs.{
  GenerationJob, GenerationJobs, job_id, is_queued, get, assign, start, claim, complete, fail,
}
use note_rag.Generation.Worker.{
  GenerationWorker, World, generate_for, settle, settle_found, run_started, after_claim, run_job,
}

pub fail-job_id :
    (now : ℕ) (message : _) (retry : Bool) (job : GenerationJob)
    → (fail now message retry job).id ≡ job.id
unfolding fail
fail-job_id now message true job = refl
fail-job_id now message false job = refl

module _ {M : Type 0} (w : GenerationWorker M) (now k : ℕ) where
  pub settle-job_id :
      (r : Result Exception (Unit {0})) (job : GenerationJob)
      → (settle w.max_attempts now r job).id ≡ job.id
  unfolding settle complete
  settle-job_id (ok _) job = refl
  settle-job_id (raise e) job = fail-job_id now (describe e) _ job

  settle_found_on :
      (r : Result Exception (Unit {0})) (jobs : GenerationJobs) {job : GenerationJob}
      → get k jobs ≡ some job
      → settle_found w.max_attempts now k r jobs ≡ assign k (settle w.max_attempts now r) jobs
  unfolding settle_found
  settle_found_on r jobs h = rw (h, settle_found) refl

  -- The run of a job from its row on.
  abbrev pub ran : GenerationJob → World M → World M
  ran job world = record {
    jobs =
        assign k (settle w.max_attempts now (generate_for w.service job world.materials).1)
          world.jobs;
    materials = (generate_for w.service job world.materials).0;
  }

  run_started_on :
      (world : World M) {job : GenerationJob}
      → get k world.jobs ≡ some job
      → run_started w now k job world ≡ (ran job world, ok tt)
  unfolding run_started
  run_started_on world {job} h =
      let e = settle_found_on (generate_for w.service job world.materials).1 world.jobs h in cc e

  pub get-start :
      (jobs : GenerationJobs) {job : GenerationJob}
      → get k jobs ≡ some job
      → get k (assign k (start now) jobs) ≡ some (start now job)
  unfolding get assign start
  get-start jobs h = find-update_self job_id k (start now) jobs refl h

  claim_on :
      (jobs : GenerationJobs) {job : GenerationJob}
      → get k jobs ≡ some job
      → is_queued job.status ≡ true
      → claim k now jobs ≡ (some (start now job), assign k (start now) jobs)
  unfolding claim
  claim_on jobs h q = rw (h, q, claim) refl

  abbrev pub started : World M → World M
  started world = record world { jobs = assign k (start now) world.jobs }

  pub run_job_queued :
      (world : World M) {job : GenerationJob}
      → get k world.jobs ≡ some job
      → is_queued job.status ≡ true
      → run_job w now k world ≡ (ran (start now job) (started world), ok tt)
  unfolding run_job after_claim
  run_job_queued world {job} h q =
      rw (h, q, run_job)
        (ap (λ c. after_claim w now k c world) (claim_on world.jobs h q)
          ∙ run_started_on (started world) (get-start world.jobs h))

  pub run_job_begun :
      (world : World M) {job : GenerationJob}
      → get k world.jobs ≡ some job
      → is_queued job.status ≡ false
      → run_job w now k world ≡ (ran job world, ok tt)
  unfolding run_job
  run_job_begun world h q = rw (h, q, run_job) (run_started_on world h)
