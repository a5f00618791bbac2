-- ===== src/Persistence/Jobs.antt =====
-- persistence/repositories.py: `IngestionJobRepository`, over the table of ingestion jobs. What
-- `datetime.now` returns is an argument. `free` says which rows no other transaction has locked,
-- for `FOR UPDATE SKIP LOCKED`; where the database has no such lock, it is true of every row.
pub mod Rows
pub mod Claimable
pub mod Earliest
pub mod Claims
pub mod Stale
pub mod Lifecycle
use note_rag.Base.{
  ℕ, ◌+◌, Bool, true, false, ◌&&◌, ◌||◌, Option, none, some, List, [], ◌∷◌, map, ltb, leb, ◌==◌,
  if◌then◌else◌, String,
}
use note_rag.Base.Result.{Result, ok, raise}
use note_rag.Base.Table.{find, update}
use note_rag.Persistence.Models.{IngestionJobStatus, IngestionJob, is_queued}
use note_rag.Persistence.Models.IngestionJobStatus.{
  queued, parsing, chunking, embedding, indexing, completed, failed,
}

abbrev pub Jobs : Type 0
Jobs = List IngestionJob

abbrev pub id : IngestionJob → ℕ
id j = j.id

-- `session.get(IngestionJob, job_id)`
unfoldable pub get : ℕ → Jobs → Option IngestionJob
unfolding find
get job_id jobs = find id job_id jobs

-- What a method assigns to the object `job` is assigned to its row.
unfoldable pub assign : ℕ → (IngestionJob → IngestionJob) → Jobs → Jobs
unfolding update
assign job_id f jobs = update id job_id f jobs

unfoldable pub set_status :
    IngestionJobStatus → Option ℕ → Option String → IngestionJob → Result String IngestionJob
set_status status none error_message job =
    ok (record job { status = status; error_message = error_message })
set_status status (some progress) error_message job =
    if leb progress 100
    then ok (record job { status = status; progress = progress; error_message = error_message })
    else raise "progress must be between 0 and 100"

-- `next_attempt_at IS NULL OR next_attempt_at <= now`
unfoldable pub is_due : ℕ → Option ℕ → Bool
is_due now none = true
is_due now (some at) = leb at now

-- The `WHERE` of `claim` and `claim_next`, and the rows that their lock can take.
unfoldable pub eligible : (ℕ → Bool) → ℕ → IngestionJob → Bool
unfolding is_due
eligible free now job = is_queued job.status && is_due now job.next_attempt_at && free job.id

-- `ORDER BY created_at, id`
unfoldable pub before : IngestionJob → IngestionJob → Bool
before a b = ltb a.created_at b.created_at || a.created_at == b.created_at && ltb a.id b.id

-- The first row, in that order, that the query lets through: `LIMIT 1`.
unfoldable pub first_eligible : (ℕ → Bool) → ℕ → Jobs → Option IngestionJob
unfolding eligible before
first_eligible free now [] = none
first_eligible free now (job ∷ jobs) =
    let rest = first_eligible free now jobs in
    if eligible free now job
    then elim rest [ none ↦ some job | some other ↦ some (if before other job then other else job) ]
    else rest

unfoldable pub or_now : ℕ → Option ℕ → Option ℕ
or_now now none = some now
or_now now (some at) = some at

-- `_claim`
unfoldable pub start_claim : ℕ → ℕ → IngestionJob → IngestionJob
unfolding or_now
start_claim worker now job = record job {
  status = parsing;
  progress = 10;
  attempts = job.attempts + 1;
  error_message = none;
  next_attempt_at = none;
  locked_at = some now;
  worker_id = some worker;
  started_at = or_now now job.started_at;
}

unfoldable pub claim : (ℕ → Bool) → ℕ → ℕ → ℕ → Jobs → Option IngestionJob × Jobs
claim free job_id worker now jobs = elim (get job_id jobs) [
  | none ↦ (none, jobs)
  | some job ↦
      if eligible free now job
      then (some (start_claim worker now job), assign job_id (start_claim worker now) jobs)
      else (none, jobs)
]

unfoldable pub claim_next : (ℕ → Bool) → ℕ → ℕ → Jobs → Option IngestionJob × Jobs
claim_next free worker now jobs = elim (first_eligible free now jobs) [
  | none ↦ (none, jobs)
  | some job ↦ (some (start_claim worker now job), assign job.id (start_claim worker now) jobs)
]

unfoldable pub is_active : IngestionJobStatus → Bool
is_active parsing = true
is_active chunking = true
is_active embedding = true
is_active indexing = true
is_active _ = false

-- `locked_at IS NULL OR locked_at < stale_before`
unfoldable pub is_expired : ℕ → Option ℕ → Bool
is_expired stale_before none = true
is_expired stale_before (some at) = ltb at stale_before

unfoldable pub is_stale : ℕ → IngestionJob → Bool
unfolding is_active is_expired
is_stale stale_before job = is_active job.status && is_expired stale_before job.locked_at

unfoldable pub requeue : ℕ → IngestionJob → IngestionJob
requeue now job = record job {
  status = queued;
  next_attempt_at = some now;
  locked_at = none;
  worker_id = none;
  error_message = some "recovered stale worker lease";
  finished_at = none;
}

-- The bulk `UPDATE`, with the count of the rows that it matched.
unfoldable pub recover_stale : ℕ → ℕ → Jobs → ℕ × Jobs
unfolding is_stale requeue
recover_stale stale_before now [] = (0, [])
recover_stale stale_before now (job ∷ jobs) =
    let rest = recover_stale stale_before now jobs in
    if is_stale stale_before job
    then (rest.0 + 1, requeue now job ∷ rest.1)
    else (rest.0, job ∷ rest.1)

unfoldable pub reschedule : String → ℕ → IngestionJob → IngestionJob
reschedule error_message next_attempt_at job = record job {
  status = queued;
  progress = 0;
  error_message = some error_message;
  next_attempt_at = some next_attempt_at;
  locked_at = none;
  worker_id = none;
  finished_at = none;
}

unfoldable pub fail : String → ℕ → IngestionJob → IngestionJob
fail error_message now job = record job {
  status = failed;
  error_message = some error_message;
  next_attempt_at = none;
  locked_at = none;
  worker_id = none;
  finished_at = some now;
}

unfoldable pub complete_claim : ℕ → IngestionJob → IngestionJob
complete_claim now job = record job {
  status = completed;
  progress = 100;
  error_message = none;
  next_attempt_at = none;
  locked_at = none;
  worker_id = none;
  finished_at = some now;
}
