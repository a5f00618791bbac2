-- ===== src/Persistence/Jobs/Claimable.antt =====
-- persistence/repositories.py: which rows `claim` and `claim_next` can take, and what a claim makes of one.
use note_rag.Base.{
  ℕ, ◌+◌, ◌≤◌, ◌≡◌, refl, ap, Bool, true, false, ◌&&◌, Option, none, some, leb→le, le→leb,
}
use note_rag.Persistence.Models.{IngestionJobStatus, IngestionJob, is_queued}
use note_rag.Persistence.Models.IngestionJobStatus.{
  queued, parsing, chunking, embedding, indexing, completed, failed,
}
use note_rag.Persistence.Jobs.{is_due, eligible, or_now, start_claim}

-- The row is queued, its next attempt is due, and no other transaction has locked it.
abbrev pub IsDue : ℕ → Option ℕ → Type 0
IsDue now none = Unit
IsDue now (some at) = at ≤ now

pub record IsClaimable (free : ℕ → Bool) (now : ℕ) (job : IngestionJob) : Type 0 where
  pub waits : job.status ≡ queued
  pub due : IsDue now job.next_attempt_at
  pub unlocked : free job.id ≡ true

-- The worker has the job: its lease, and one attempt more. It starts now unless it started before.
pub record IsStarted (worker now : ℕ) (old job : IngestionJob) : Type 0 where
  pub phase : (job.status ≡ parsing) × (job.progress ≡ 10)
  pub counted : job.attempts ≡ old.attempts + 1
  pub leased : (job.locked_at ≡ some now) × (job.worker_id ≡ some worker)
  pub cleared : (job.error_message ≡ none) × (job.next_attempt_at ≡ none)
  pub first_started : old.started_at ≡ none → job.started_at ≡ some now
  pub still_started : (at : ℕ) → old.started_at ≡ some at → job.started_at ≡ some at
  pub same_row : (job.id ≡ old.id) × (job.document_id ≡ old.document_id)
  pub same_times : (job.created_at ≡ old.created_at) × (job.finished_at ≡ old.finished_at)

queued-eq : (status : IngestionJobStatus) → is_queued status ≡ true → status ≡ queued
queued-eq queued h = refl
queued-eq parsing h = cc
queued-eq chunking h = cc
queued-eq embedding h = cc
queued-eq indexing h = cc
queued-eq completed h = cc
queued-eq failed h = cc

is_due-IsDue : (now : ℕ) (o : Option ℕ) → is_due now o ≡ true → IsDue now o
unfolding is_due
is_due-IsDue now none h = tt
is_due-IsDue now (some at) h = leb→le at now h

IsDue-due : (now : ℕ) (o : Option ℕ) → IsDue now o → is_due now o ≡ true
unfolding is_due
IsDue-due now none h = refl
IsDue-due now (some at) h = le→leb at now h

all_three : (a b c : Bool) → (a && b && c) ≡ true → (a ≡ true) × (b ≡ true) × (c ≡ true)
all_three true true true h = (refl, refl, refl)
all_three true true false h = cc
all_three true false c h = cc
all_three false b c h = cc

pub eligible-IsClaimable :
    (free : ℕ → Bool) (now : ℕ) (job : IngestionJob)
    → eligible free now job ≡ true
    → IsClaimable free now job
unfolding eligible
eligible-IsClaimable free now job h =
    let (a, b, c) =
      all_three (is_queued job.status) (is_due now job.next_attempt_at) (free job.id) h in
    record {
      waits = queued-eq job.status a;
      due = is_due-IsDue now job.next_attempt_at b;
      unlocked = c;
    }

pub not_claimable :
    (free : ℕ → Bool) (now : ℕ) (job : IngestionJob)
    → eligible free now job ≡ false
    → IsClaimable free now job
    → ⊥
unfolding eligible
not_claimable free now job h c =
    let a : is_queued job.status ≡ true = ap is_queued c.waits in
    let b = IsDue-due now job.next_attempt_at c.due in
    let d = c.unlocked in let h' : Path Bool true false = rw (a, b, d) at h in cc

or_now_first : (now : ℕ) (o : Option ℕ) → o ≡ none → or_now now o ≡ some now
unfolding or_now
or_now_first now o h = rw h refl

or_now_kept : (now at : ℕ) (o : Option ℕ) → o ≡ some at → or_now now o ≡ some at
unfolding or_now
or_now_kept now at o h = rw h refl

pub start_claim-IsStarted :
    (worker now : ℕ) (old : IngestionJob) → IsStarted worker now old (start_claim worker now old)
unfolding start_claim
start_claim-IsStarted worker now old = record {
  phase = (refl, refl);
  counted = refl;
  leased = (refl, refl);
  cleared = (refl, refl);
  first_started = or_now_first now old.started_at;
  still_started = λ at. or_now_kept now at old.started_at;
  same_row = (refl, refl);
  same_times = (refl, refl);
}
