-- ===== src/Persistence/Jobs/Claims.antt =====
-- persistence/repositories.py: who gets a job.
use note_rag.Base.{
  ℕ, ◌≡◌, ◌≢◌, refl, sym, subst, Bool, true, false, Option, none, some, All, Bool-cases,
  Option-cases, inl, inr,
}
use note_rag.Base.Table.{Unique, find-update_self, find-update_ne}
use note_rag.Persistence.Models.{IngestionJob}
use note_rag.Persistence.Jobs.Rows.{get-id}
use note_rag.Persistence.Jobs.{
  Jobs, id, get, assign, eligible, first_eligible, start_claim, claim, claim_next,
}
use note_rag.Persistence.Jobs.Claimable.{
  IsClaimable, IsStarted, eligible-IsClaimable, not_claimable, start_claim-IsStarted,
}
use note_rag.Persistence.Jobs.Earliest.{IsFirst, First, first_eligible-First}

-- A claim gives out the job, and leaves every other row.
pub record IsClaimed (free : ℕ → Bool) (worker now : ℕ) (jobs : Jobs) (job : IngestionJob)
    (jobs' : Jobs) : Type 0 where
  pub old : IngestionJob
  pub was_there : get job.id jobs ≡ some old
  pub was_claimable : IsClaimable free now old
  pub was_eligible : eligible free now old ≡ true
  pub started : IsStarted worker now old job
  pub claimed : job ≡ start_claim worker now old
  pub written : get job.id jobs' ≡ some job
  pub others : (j : ℕ) → j ≢ job.id → get j jobs' ≡ get j jobs

assign-IsClaimed :
    (free : ℕ → Bool) (worker now : ℕ) (jobs : Jobs) (old : IngestionJob)
    → get old.id jobs ≡ some old
    → eligible free now old ≡ true
    → IsClaimed free worker now jobs
        (start_claim worker now old)
        (assign old.id (start_claim worker now) jobs)
unfolding get assign start_claim
assign-IsClaimed free worker now jobs old found e = record {
  old = old;
  was_there = found;
  was_claimable = eligible-IsClaimable free now old e;
  was_eligible = e;
  started = start_claim-IsStarted worker now old;
  claimed = refl;
  written = find-update_self id old.id (start_claim worker now) jobs refl found;
  others = λ j ne. find-update_ne id j old.id (start_claim worker now) jobs (λ r. refl) ne;
}

same_row : {o : Option IngestionJob} {a b : IngestionJob} → o ≡ some a → o ≡ some b → b ≡ a
same_row h h' = cc

-- What `claim` comes back with.
abbrev pub Claim : (ℕ → Bool) → ℕ → ℕ → ℕ → Jobs → Option IngestionJob × Jobs → Type 0
Claim free job_id worker now jobs (none, jobs') =
    (jobs' ≡ jobs)
    × ((job : IngestionJob) → get job_id jobs ≡ some job → IsClaimable free now job → ⊥)
Claim free job_id worker now jobs (some job, jobs') =
    (job.id ≡ job_id) × IsClaimed free worker now jobs job jobs'

-- `claim` returns a job exactly if its row is queued, due and free of other locks. Then the row is the job,
-- parsed from now on by the worker, with its lease and one attempt more, and no other row changes; else
-- nothing changes.
pub claim-Claim :
    (free : ℕ → Bool) (job_id worker now : ℕ) (jobs : Jobs)
    → Claim free job_id worker now jobs (claim free job_id worker now jobs)
unfolding claim
claim-Claim free job_id worker now jobs = elim (Option-cases (get job_id jobs)) [
  | inl absent ↦ rw (absent, claim) (refl, λ job found c. cc)
  | inr (job, found) ↦
      let e = get-id job_id jobs found in
      elim (Bool-cases (eligible free now job)) [
        | inl fits ↦
            rw (found, claim, fits)
              (
                unfold start_claim in e,
                subst
                    (λ k.
                      IsClaimed free worker now jobs (start_claim worker now job)
                        (assign k (start_claim worker now) jobs))
                    e
                    (assign-IsClaimed free worker now jobs job
                      (subst (λ k. get k jobs ≡ some job) (sym e) found) fits),
              )
        | inr unfit ↦
            rw (found, claim, unfit)
              (
                refl,
                λ other found' c.
                    not_claimable free now job unfit
                      (subst (IsClaimable free now) (same_row found found') c),
              )
      ]
]

-- Of the rows that the query of `claim_next` lets through, `job` is the first.
start_claim-eligible :
    (free : ℕ → Bool) (worker now later : ℕ) (j : IngestionJob)
    → eligible free later (start_claim worker now j) ≡ false
unfolding start_claim eligible
start_claim-eligible free worker now later j = refl

-- What `claim_next` comes back with.
abbrev pub ClaimNext : (ℕ → Bool) → ℕ → ℕ → Jobs → Option IngestionJob × Jobs → Type 0
ClaimNext free worker now jobs (none, jobs') =
    (jobs' ≡ jobs) × All (λ k. eligible free now k ≡ false) jobs
ClaimNext free worker now jobs (some job, jobs') =
    (first : IngestionJob) × (job ≡ start_claim worker now first)
    × IsFirst free now jobs first
    × IsClaimed free worker now jobs job jobs'

-- Over rows with different ids, `claim_next` claims the eligible row with the least creation time,
-- and among those the least id; it returns nothing, and changes nothing, exactly if no row is
-- eligible.
pub claim_next-ClaimNext :
    (free : ℕ → Bool) (worker now : ℕ) (jobs : Jobs)
    → Unique id jobs
    → ClaimNext free worker now jobs (claim_next free worker now jobs)
unfolding claim_next
claim_next-ClaimNext free worker now jobs u =
    go (first_eligible free now jobs) refl (first_eligible-First free now jobs u)
  where
    go :
        (o : Option IngestionJob)
        → first_eligible free now jobs ≡ o
        → First free now jobs o
        → ClaimNext free worker now jobs (claim_next free worker now jobs)
    go none e first = rw (e, claim_next) (refl, first)
    go (some job) e (found, fits, first) =
        rw (e, claim_next)
          (job, refl, first, assign-IsClaimed free worker now jobs job (unfold get in found) fits)

-- Nobody can claim the job.
abbrev IsTaken : ℕ → Jobs → Type 0
IsTaken k jobs = (free : ℕ → Bool) (worker now : ℕ) → claim free k worker now jobs ≡ (none, jobs)

IsClaimed-IsTaken :
    (free : ℕ → Bool) (worker now : ℕ) (jobs jobs' : Jobs) (job : IngestionJob)
    → IsClaimed free worker now jobs job jobs'
    → IsTaken job.id jobs'
unfolding claim
IsClaimed-IsTaken free worker now jobs jobs' job c free' worker' now' =
    let unfit : eligible free' now' job ≡ false =
      rw (c.claimed) (start_claim-eligible free' worker now now' c.old) in
    rw (c.written, claim, unfit) refl

Claim-IsClaimed :
    (free : ℕ → Bool) (job_id worker now : ℕ) (jobs : Jobs) (r : Option IngestionJob × Jobs)
    (job : IngestionJob)
    → Claim free job_id worker now jobs r
    → r.0 ≡ some job
    → IsClaimed free worker now jobs job r.1
Claim-IsClaimed free job_id worker now jobs (none, jobs') job c h = cc
Claim-IsClaimed free job_id worker now jobs (some j, jobs') job (_, c) h =
    let e : j ≡ job = cc in subst (λ x. IsClaimed free worker now jobs x jobs') e c

ClaimNext-IsClaimed :
    (free : ℕ → Bool) (worker now : ℕ) (jobs : Jobs) (r : Option IngestionJob × Jobs)
    (job : IngestionJob)
    → ClaimNext free worker now jobs r
    → r.0 ≡ some job
    → IsClaimed free worker now jobs job r.1
ClaimNext-IsClaimed free worker now jobs (none, jobs') job c h = cc
ClaimNext-IsClaimed free worker now jobs (some j, jobs') job (_, _, _, c) h =
    let e : j ≡ job = cc in subst (λ x. IsClaimed free worker now jobs x jobs') e c

-- A job that `claim` gave out is not given out again while its row stays as it is: a second claim,
-- by any worker at any time and under any locks, returns nothing and changes nothing.
pub claim-IsTaken :
    (free : ℕ → Bool) (job_id worker now : ℕ) (jobs : Jobs) (job : IngestionJob)
    → (claim free job_id worker now jobs).0 ≡ some job
    → IsTaken job.id (claim free job_id worker now jobs).1
claim-IsTaken free job_id worker now jobs job h =
    IsClaimed-IsTaken free worker now jobs _ job (
      Claim-IsClaimed free job_id worker now jobs _ job (claim-Claim free job_id worker now jobs) h)

-- Nor is one that `claim_next` gave out, where ids differ.
pub claim_next-IsTaken :
    (free : ℕ → Bool) (worker now : ℕ) (jobs : Jobs) (job : IngestionJob)
    → Unique id jobs
    → (claim_next free worker now jobs).0 ≡ some job
    → IsTaken job.id (claim_next free worker now jobs).1
claim_next-IsTaken free worker now jobs job u h =
    IsClaimed-IsTaken free worker now jobs _ job (
      ClaimNext-IsClaimed free worker now jobs _ job (claim_next-ClaimNext free worker now jobs u)
        h)
