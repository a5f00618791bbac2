-- ===== src/Persistence/Jobs/Lifecycle.antt =====
-- persistence/repositories.py: what holds of every row of an ingestion job through the operations on it.
use note_rag.Base.{
  ℕ, ◌≤◌, ◌≡◌, refl, ap, ◌∙◌, Bool, true, Option, none, some, arith, String, Bool-cases, inl, inr,
  leb, leb→le, subst,
}
use note_rag.Base.Result.{ok}
use note_rag.Persistence.Models.{IngestionJobStatus, IngestionJob}
use note_rag.Persistence.Models.IngestionJobStatus.{queued, completed}
use note_rag.Persistence.Jobs.{
  eligible, start_claim, is_stale, requeue, reschedule, fail, complete_claim, set_status,
}

-- The check constraint on `progress`; a lease is held by nobody while the job waits in the queue;
-- a completed job shows full progress.
pub record IsValid (job : IngestionJob) : Type 0 where
  pub bounded : job.progress ≤ 100
  pub unlocked : job.status ≡ queued → (job.locked_at ≡ none) × (job.worker_id ≡ none)
  pub finished : job.status ≡ completed → job.progress ≡ 100

-- The assignments that the repository makes. `set_status` takes any status, and leaves the lease and, unless
-- it is told, the progress: a step gives it `queued` only without a lease, and `completed` only with full
-- progress. Its callers give it neither of the two.
pub data Step (job : IngestionJob) : IngestionJob → Type 0 where
  claims :
      (free : ℕ → Bool) (worker now : ℕ)
      → eligible free now job ≡ true
      → Step job (start_claim worker now job)
  recovers : (stale_before now : ℕ) → is_stale stale_before job ≡ true → Step job (requeue now job)
  reschedules : (m : String) (at : ℕ) → Step job (reschedule m at job)
  fails : (m : String) (now : ℕ) → Step job (fail m now job)
  completes : (now : ℕ) → Step job (complete_claim now job)
  moves :
      (status : IngestionJobStatus) (p : Option ℕ) (m : Option String) (job' : IngestionJob)
      → set_status status p m job ≡ ok job'
      → (status ≡ queued → (job.locked_at ≡ none) × (job.worker_id ≡ none))
      → (status ≡ completed → job'.progress ≡ 100)
      → Step job job'

pub data Reach (job : IngestionJob) : IngestionJob → Type 0 where
  here : Reach job job
  next : {a b : IngestionJob} → Reach job a → Step a b → Reach job b

Step-IsValid : {a b : IngestionJob} → Step a b → IsValid a → IsValid b
unfolding start_claim requeue reschedule fail complete_claim set_status is_stale
Step-IsValid (claims free worker now e) v = record {
  bounded = omega arith;
  unlocked = λ h. cc;
  finished = λ h. cc;
}
Step-IsValid (recovers before now e) v = record {
  bounded = v.bounded;
  unlocked = λ h. (refl, refl);
  finished = λ h. cc;
}
Step-IsValid (reschedules m at) v = record {
  bounded = omega arith;
  unlocked = λ h. (refl, refl);
  finished = λ h. cc;
}
Step-IsValid (fails m now) v = record {
  bounded = v.bounded;
  unlocked = λ h. (refl, refl);
  finished = λ h. cc;
}
Step-IsValid (completes now) v = record {
  bounded = omega arith;
  unlocked = λ h. (refl, refl);
  finished = λ h. refl;
}
Step-IsValid {a} (moves status none m job' e q c) v =
    let e' : record a { status = status; error_message = m } ≡ job' = cc in
    subst IsValid e' (record {
      bounded = v.bounded;
      unlocked = q;
      finished = λ h. ap (λ (x : IngestionJob). x.progress) e' ∙ c h;
    })
Step-IsValid {a} (moves status (some p) m job' e q c) v = elim (Bool-cases (leb p 100)) [
  | inl fits ↦
      let moved = rw fits at e in
      let e' : record a { status = status; progress = p; error_message = m } ≡ job' = cc moved in
      subst IsValid e' (record {
        bounded = leb→le p 100 fits;
        unlocked = q;
        finished = λ h. ap (λ (x : IngestionJob). x.progress) e' ∙ c h;
      })
  | inr over ↦ let raised = rw over at e in cc raised
]

-- A valid job stays valid through any sequence of claims of it, recoveries, reschedules, failures, completions
-- and calls of `set_status` that neither queue a job with a lease nor complete one without full
-- progress: its progress is at most 100, nobody holds a lease on it while it is queued, and when completed its
-- progress is 100.
pub Reach-IsValid : {a b : IngestionJob} → Reach a b → IsValid a → IsValid b
Reach-IsValid here v = v
Reach-IsValid (next r s) v = Step-IsValid s (Reach-IsValid r v)
