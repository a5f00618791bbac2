-- ===== src/Persistence/Jobs/Stale.antt =====
-- persistence/repositories.py: `recover_stale`.
use note_rag.Base.{
  ℕ, ◌+◌, ◌<◌, ◌≡◌, ◌⊎◌, refl, sym, ◌∙◌, Bool, true, false, Option, none, some, [], ◌∷◌, ltb→lt,
  arith, All, Bool-cases, inl, inr,
}
use note_rag.Persistence.Models.{IngestionJobStatus, IngestionJob}
use note_rag.Persistence.Models.IngestionJobStatus.{
  queued, parsing, chunking, embedding, indexing, completed, failed,
}
use note_rag.Persistence.Jobs.{Jobs, is_active, is_expired, is_stale, requeue, recover_stale}

-- A worker has the job: it is in one of the four phases.
abbrev pub IsActive : IngestionJobStatus → Type 0
IsActive status =
    (status ≡ parsing) ⊎ (status ≡ chunking) ⊎ (status ≡ embedding) ⊎ (status ≡ indexing)

-- The lease was taken before this time, or there is none.
abbrev pub IsExpired : ℕ → Option ℕ → Type 0
IsExpired stale_before none = Unit
IsExpired stale_before (some at) = at < stale_before

pub record IsStale (stale_before : ℕ) (job : IngestionJob) : Type 0 where
  pub active : IsActive job.status
  pub expired : IsExpired stale_before job.locked_at

-- The job waits again, and can be claimed from now on. The other fields are as they were.
pub record IsRequeued (now : ℕ) (job job' : IngestionJob) : Type 0 where
  pub waits : job'.status ≡ queued
  pub due : job'.next_attempt_at ≡ some now
  pub unlocked : (job'.locked_at ≡ none) × (job'.worker_id ≡ none)
  pub marked : job'.error_message ≡ some "recovered stale worker lease"
  pub unfinished : job'.finished_at ≡ none
  pub same_row : (job'.id ≡ job.id) × (job'.document_id ≡ job.document_id)
  pub same_work : (job'.progress ≡ job.progress) × (job'.attempts ≡ job.attempts)
  pub same_times : (job'.started_at ≡ job.started_at) × (job'.created_at ≡ job.created_at)

-- The rows before and after, and how many of them were stale.
pub data Recovered (stale_before now : ℕ) : Jobs → ℕ → Jobs → Type 0 where
  nothing : Recovered stale_before now [] 0 []
  stale :
      {job job' : IngestionJob} {jobs jobs' : Jobs} {n : ℕ}
      → IsStale stale_before job
      → IsRequeued now job job'
      → Recovered stale_before now jobs n jobs'
      → Recovered stale_before now (job ∷ jobs) (n + 1) (job' ∷ jobs')
  kept :
      {job : IngestionJob} {jobs jobs' : Jobs} {n : ℕ}
      → (IsStale stale_before job → ⊥)
      → Recovered stale_before now jobs n jobs'
      → Recovered stale_before now (job ∷ jobs) n (job ∷ jobs')

is_active-IsActive : (status : IngestionJobStatus) → is_active status ≡ true → IsActive status
unfolding is_active
is_active-IsActive queued h = cc
is_active-IsActive parsing h = inl refl
is_active-IsActive chunking h = inr (inl refl)
is_active-IsActive embedding h = inr (inr (inl refl))
is_active-IsActive indexing h = inr (inr (inr refl))
is_active-IsActive completed h = cc
is_active-IsActive failed h = cc

IsActive-active : (status : IngestionJobStatus) → IsActive status → is_active status ≡ true
unfolding is_active
IsActive-active status (inl e) = rw e refl
IsActive-active status (inr (inl e)) = rw e refl
IsActive-active status (inr (inr (inl e))) = rw e refl
IsActive-active status (inr (inr (inr e))) = rw e refl

is_expired-IsExpired : (t : ℕ) (o : Option ℕ) → is_expired t o ≡ true → IsExpired t o
unfolding is_expired
is_expired-IsExpired t none h = tt
is_expired-IsExpired t (some at) h = ltb→lt at t h

IsExpired-expired : (t : ℕ) (o : Option ℕ) → IsExpired t o → is_expired t o ≡ true
unfolding is_expired
IsExpired-expired t none h = refl
IsExpired-expired t (some at) h = ground arith

is_stale-IsStale : (t : ℕ) (job : IngestionJob) → is_stale t job ≡ true → IsStale t job
unfolding is_stale
is_stale-IsStale t job h = elim (Bool-cases (is_active job.status)) [
  | inl a ↦ record {
    active = is_active-IsActive job.status a;
    expired = is_expired-IsExpired t job.locked_at (rw a at h);
  }
  | inr a ↦ let h' : Path Bool false true = rw a at h in cc
]

not_stale : (t : ℕ) (job : IngestionJob) → is_stale t job ≡ false → IsStale t job → ⊥
unfolding is_stale
not_stale t job h s =
    let a = IsActive-active job.status s.active in
    let e = IsExpired-expired t job.locked_at s.expired in
    let h' : Path Bool true false = rw (a, e) at h in cc

requeue-IsRequeued : (now : ℕ) (job : IngestionJob) → IsRequeued now job (requeue now job)
unfolding requeue
requeue-IsRequeued now job = record {
  waits = refl;
  due = refl;
  unlocked = (refl, refl);
  marked = refl;
  unfinished = refl;
  same_row = (refl, refl);
  same_work = (refl, refl);
  same_times = (refl, refl);
}

waiting_not_stale :
    (t now : ℕ) (job job' : IngestionJob) → IsRequeued now job job' → IsStale t job' → ⊥
waiting_not_stale t now job job' r s = elim s.active [
  | inl e ↦ let h : queued ≡ parsing = sym r.waits ∙ e in cc
  | inr (inl e) ↦ let h : queued ≡ chunking = sym r.waits ∙ e in cc
  | inr (inr (inl e)) ↦ let h : queued ≡ embedding = sym r.waits ∙ e in cc
  | inr (inr (inr e)) ↦ let h : queued ≡ indexing = sym r.waits ∙ e in cc
]

none-IsStale :
    (t now : ℕ) (jobs : Jobs) (n : ℕ) (jobs' : Jobs)
    → Recovered t now jobs n jobs'
    → All (λ j. IsStale t j → ⊥) jobs'
none-IsStale t now [] n [] nothing = tt
none-IsStale t now [] n (job' ∷ jobs') r = elim r [ ]
none-IsStale t now (job ∷ jobs) n [] r = elim r [ ]
none-IsStale t now (job ∷ jobs) n (job' ∷ jobs') (stale s r rest) =
    (waiting_not_stale t now job job' r, none-IsStale t now jobs _ jobs' rest)
none-IsStale t now (job ∷ jobs) n (job' ∷ jobs') (kept k rest) =
    (k, none-IsStale t now jobs _ jobs' rest)

recover_stale-Recovered :
    (t now : ℕ) (jobs : Jobs)
    → Recovered t now jobs (recover_stale t now jobs).0 (recover_stale t now jobs).1
unfolding recover_stale
recover_stale-Recovered t now [] = Recovered.nothing
recover_stale-Recovered t now (job ∷ jobs) =
    let rest = recover_stale-Recovered t now jobs in
    elim (Bool-cases (is_stale t job)) [
      | inl yes' ↦
          rw yes' (Recovered.stale (is_stale-IsStale t job yes') (requeue-IsRequeued now job) rest)
      | inr no' ↦ rw no' (Recovered.kept (not_stale t job no') rest)
    ]

-- A row is stale if its job is parsed, chunked, embedded or indexed and its lease was taken before the
-- time given, or there is no lease. `recover_stale` counts the stale rows and puts each back into
-- the queue, without a lease and due now, changes no other row, and leaves none stale.
pub recover_stale_lem :
    (stale_before now : ℕ) (jobs : Jobs)
    → Recovered stale_before now jobs
        (recover_stale stale_before now jobs).0
        (recover_stale stale_before now jobs).1
      × All (λ j. IsStale stale_before j → ⊥) (recover_stale stale_before now jobs).1
recover_stale_lem t now jobs =
    let r = recover_stale-Recovered t now jobs in
    (r, none-IsStale t now jobs (recover_stale t now jobs).0 (recover_stale t now jobs).1 r)
