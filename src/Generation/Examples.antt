-- ===== src/Generation/Examples.antt =====
-- A worker with three attempts, whose service fails for study items of topic 7 and else succeeds.
use note_rag.Base.{ℕ, ◌-◌, false, Option, none, some, [], ◌∷◌, ◌==◌, if◌then◌else◌, arith}
use note_rag.Base.Result.{ok, raise}
use note_rag.Base.Table.{Unique}
use note_rag.Persistence.Models.{Exception}
use note_rag.Generation.Jobs.{
  GenerationKind, GenerationJobStatus, GenerationJob, GenerationJobs, job_id, get,
}
use note_rag.Generation.Worker.{MaterialService, GenerationWorker, World, run_job, run_forever}
use note_rag.Generation.Worker.Outcome.{RunOf, run_job-RunOf}
use note_rag.Generation.Worker.Drained.{anyone, IsDrained, run_forever-IsDrained}
use note_rag.Generation.Enqueue.{enqueue_generation}
use note_rag.Generation.Enqueue.Finished.{IsAnswered, enqueue_generation-IsAnswered}

abbrev refused : Exception
refused = record { message = ""; class_name = "TimeoutError" }

-- The materials are the count of calls.
abbrev service : MaterialService ℕ
service = record {
  generate_curriculum = λ c m. (m, ok tt);
  generate_study_items = λ t m. (m, if t == 7 then raise refused else ok tt);
  regenerate_item = λ i m. (m, raise refused);
}

abbrev worker : GenerationWorker ℕ
worker = record { service = service; max_attempts = 3 }

abbrev job : ℕ → GenerationKind → Option ℕ → GenerationJobStatus → GenerationJob
job n kind topic status = record {
  id = n;
  course_id = 1;
  topic_id = topic;
  item_id = none;
  kind = kind;
  status = status;
  progress = 0;
  attempts = 0;
  idempotency_key = n;
  prompt_version = "learning-materials-v1";
  model_name = "model";
  error_message = none;
  started_at = none;
  finished_at = none;
  created_at = n;
}

abbrev jobs : GenerationJobs
jobs =
    job 1 GenerationKind.study_items (some 7) GenerationJobStatus.queued
    ∷ job 2 GenerationKind.curriculum none GenerationJobStatus.queued
    ∷ []

abbrev world : World ℕ
world = record { jobs = jobs; materials = 0 }

jobs-Unique : Unique job_id jobs
jobs-Unique = (((λ e. absurd (omega (arith, e))), tt), (tt, tt))

abbrev clock : ℕ → ℕ
clock n = 100 - n

-- The failing job takes three rounds, the other one.
run_forever-IsDrained_example : IsDrained worker (run_forever worker anyone clock 6 world)
run_forever-IsDrained_example = run_forever-IsDrained worker clock 6 world jobs-Unique (omega arith)

run_job-RunOf_example :
    RunOf worker 5 1 world
      (some (job 1 GenerationKind.study_items (some 7) GenerationJobStatus.queued))
      (run_job worker 5 1 world)
unfolding get
run_job-RunOf_example = run_job-RunOf worker 5 1 world

abbrev request : GenerationJob
request = job 3 GenerationKind.study_items (some 7) GenerationJobStatus.queued

enqueue_generation-IsAnswered_example :
    IsAnswered 3 world (enqueue_generation worker false clock request world)
enqueue_generation-IsAnswered_example =
    enqueue_generation-IsAnswered worker clock request world (omega arith) jobs-Unique
