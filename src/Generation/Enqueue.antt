-- ===== src/Generation/Enqueue.antt =====
-- api/app.py: `enqueue_generation` and `generation_job_response`. The metrics are left out. The `Response` of a
-- job is its row.
pub mod Finished
use note_rag.Base.{ℕ, zero, suc, Bool, true, false, not, ◌&&◌, Option, none, some, if◌then◌else◌}
use note_rag.Base.Result.{Result, ok, raise}
use note_rag.Persistence.Models.{Exception}
use note_rag.Generation.Jobs.{
  GenerationJobStatus, GenerationJob, GenerationJobs, is_queued, get, add,
}
use note_rag.Generation.Worker.{GenerationWorker, World, run_job}

-- `status in {COMPLETED, FAILED}`
abbrev pub is_over : GenerationJobStatus → Bool
is_over GenerationJobStatus.completed = true
is_over GenerationJobStatus.failed = true
is_over _ = false

abbrev pub http_error : Exception
http_error = record { message = "generation job not found"; class_name = "HTTPException" }

unfoldable pub generation_job_response : ℕ → GenerationJobs → Result Exception GenerationJob
generation_job_response k jobs = elim (get k jobs) [ none ↦ raise http_error | some job ↦ ok job ]

-- `GenerationJob(...)`: the columns that the call does not give have their defaults.
unfoldable pub new_job : GenerationJob → GenerationJob
new_job job = record job {
  status = GenerationJobStatus.queued;
  progress = 0;
  attempts = 0;
  error_message = none;
  started_at = none;
  finished_at = none;
}

abbrev pub Answer : Type 0 → Type 0
Answer M = World M × Result Exception GenerationJob

module _ {M : Type 0} where
  abbrev pub answer : ℕ → World M → Answer M
  answer k world = (world, generation_job_response k world.jobs)

  -- What a round of the loop does with its `result`; `rest` are the rounds that follow.
  unfoldable pub return_if_over : Answer M → Answer M → Answer M
  return_if_over rest (world, raise e) = (world, raise e)
  return_if_over rest (world, ok job) = if is_over job.status then (world, ok job) else rest

  unfoldable pub after_run :
      ℕ → (World M → Answer M) → World M × Result Exception (Unit {0}) → Answer M
  unfolding return_if_over generation_job_response
  after_run k rest (world, raise e) = (world, raise e)
  after_run k rest (world, ok _) = return_if_over (rest world) (answer k world)

  -- The loop over `range`, and the response behind it
  unfoldable pub run_rounds : GenerationWorker M → (ℕ → ℕ) → ℕ → ℕ → World M → Answer M
  unfolding after_run run_job generation_job_response
  run_rounds w clock k zero world = answer k world
  run_rounds w clock k (suc n) world =
      after_run k (run_rounds w clock k n) (run_job w (clock n) k world)

  unfoldable pub after_add :
      GenerationWorker M → Bool → (ℕ → ℕ) → GenerationJob × GenerationJobs → World M → Answer M
  unfolding run_rounds generation_job_response
  after_add w background clock (job, jobs) world =
      let world' : World M = record world { jobs = jobs } in
      if not background && is_queued job.status
      then run_rounds w clock job.id w.max_attempts world'
      else answer job.id world'

  -- `app_settings.worker_max_attempts` is the `max_attempts` of the worker; `clock` is the time of each round.
  unfoldable pub enqueue_generation :
      GenerationWorker M → Bool → (ℕ → ℕ) → GenerationJob → World M → Answer M
  unfolding after_add add new_job
  enqueue_generation w background clock job world =
      after_add w background clock (add (new_job job) world.jobs) world
