-- ===== src/Generation/Jobs.antt =====
-- persistence/models.py and repositories.py: `GenerationJob` and `GenerationJobRepository`. What
-- `datetime.now` returns is an argument, an idempotency key is a number. `free` says which rows no other
-- transaction has locked.
use note_rag.Base.{
  ℕ, ◌+◌, Bool, true, false, ◌&&◌, ◌||◌, Option, none, some, List, [], ◌∷◌, ltb, ◌==◌, String,
  if◌then◌else◌,
}
use note_rag.Base.Sorting.{first_by}
use note_rag.Base.Table.{find, update}

pub data GenerationKind : Type 0 where
  curriculum study_items study_item : GenerationKind

pub data GenerationJobStatus : Type 0 where
  queued running completed failed : GenerationJobStatus

pub record GenerationJob : Type 0 where
  pub id : ℕ
  pub course_id : ℕ
  pub topic_id : Option ℕ
  pub item_id : Option ℕ
  pub kind : GenerationKind
  pub status : GenerationJobStatus
  pub progress : ℕ
  pub attempts : ℕ
  pub idempotency_key : ℕ
  pub prompt_version : String
  pub model_name : String
  pub error_message : Option String
  pub started_at : Option ℕ
  pub finished_at : Option ℕ
  pub created_at : ℕ

abbrev pub GenerationJobs : Type 0
GenerationJobs = List GenerationJob

abbrev pub job_id : GenerationJob → ℕ
job_id job = job.id

-- `status is GenerationJobStatus.QUEUED`
abbrev pub is_queued : GenerationJobStatus → Bool
is_queued GenerationJobStatus.queued = true
is_queued _ = false

unfoldable pub with_key : ℕ → GenerationJobs → Option GenerationJob
with_key key [] = none
with_key key (job ∷ jobs) = if job.idempotency_key == key then some job else with_key key jobs

unfoldable pub add : GenerationJob → GenerationJobs → GenerationJob × GenerationJobs
add job jobs = elim (with_key job.idempotency_key jobs) [
  | none ↦ (job, job ∷ jobs)
  | some existing ↦ (existing, jobs)
]

unfoldable pub get : ℕ → GenerationJobs → Option GenerationJob
unfolding find
get k jobs = find job_id k jobs

-- What a method assigns to the object `job` is assigned to its row.
unfoldable pub assign : ℕ → (GenerationJob → GenerationJob) → GenerationJobs → GenerationJobs
unfolding update
assign k f jobs = update job_id k f jobs

-- The assignments of `claim` and of `claim_next`
unfoldable pub start : ℕ → GenerationJob → GenerationJob
start now job = record job {
  status = GenerationJobStatus.running;
  progress = 10;
  attempts = job.attempts + 1;
  started_at = some now;
}

-- `ORDER BY created_at, id`
unfoldable pub before : GenerationJob → GenerationJob → Bool
before a b = ltb a.created_at b.created_at || a.created_at == b.created_at && ltb a.id b.id

unfoldable pub claim_next : (ℕ → Bool) → ℕ → GenerationJobs → Option GenerationJob × GenerationJobs
unfolding first_by before
claim_next free now jobs =
    elim (first_by before (λ job. is_queued job.status && free job.id) jobs) [
      | none ↦ (none, jobs)
      | some job ↦ (some (start now job), assign job.id (start now) jobs)
    ]

unfoldable pub claim : ℕ → ℕ → GenerationJobs → Option GenerationJob × GenerationJobs
claim k now jobs = elim (get k jobs) [
  | none ↦ (none, jobs)
  | some job ↦
      if is_queued job.status
      then (some (start now job), assign k (start now) jobs)
      else (none, jobs)
]

unfoldable pub complete : ℕ → GenerationJob → GenerationJob
complete now job = record job {
  status = GenerationJobStatus.completed;
  progress = 100;
  error_message = none;
  finished_at = some now;
}

unfoldable pub fail : ℕ → String → Bool → GenerationJob → GenerationJob
fail now message true job = record job {
  status = GenerationJobStatus.queued;
  progress = 0;
  error_message = some message;
}
fail now message false job = record job {
  status = GenerationJobStatus.failed;
  error_message = some message;
  finished_at = some now;
}
