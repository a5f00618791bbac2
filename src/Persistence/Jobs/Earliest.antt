-- ===== src/Persistence/Jobs/Earliest.antt =====
-- persistence/repositories.py: the first eligible job by creation time and id.
use note_rag.Base.{
  ℕ, ◌≡◌, ◌≢◌, refl, ◌∙◌, subst, Bool, if◌then◌else◌, true, false, ◌&&◌, Option, none, some, List,
  [], ◌∷◌, arith, All, Bool-cases, inl, inr,
}
use note_rag.Base.Table.{find, Unique, find-cons_self, find-cons_ne, All-find}
use note_rag.Persistence.Models.{IngestionJob}
use note_rag.Persistence.Jobs.{Jobs, id, eligible, before, first_eligible}

abbrev pub IsFirst : (ℕ → Bool) → ℕ → Jobs → IngestionJob → Type 0
IsFirst free now jobs job = All (λ k. (eligible free now k && before k job) ≡ false) jobs

before_asymm : (a b : IngestionJob) → before a b ≡ true → before b a ≡ false
unfolding before
before_asymm a b h = ground arith

-- not `k < o` and not `o < j` give not `k < j`
before_trans : (j o k : IngestionJob) → before o j ≡ false → before k o ≡ false → before k j ≡ false
unfolding before
before_trans j o k h h' = ground arith

before_irrefl : (b : Bool) (a : IngestionJob) → (b && before a a) ≡ false
unfolding before
before_irrefl b a = ground arith

never_before :
    (b : Bool) (j o k : IngestionJob)
    → before o j ≡ false
    → (b && before k o) ≡ false
    → (b && before k j) ≡ false
never_before true j o k h h' = before_trans j o k h h'
never_before false j o k h h' = refl

abbrev pub First : (ℕ → Bool) → ℕ → Jobs → Option IngestionJob → Type 0
First free now jobs none = All (λ k. eligible free now k ≡ false) jobs
First free now jobs (some job) =
    (find id job.id jobs ≡ some job) × (eligible free now job ≡ true) × IsFirst free now jobs job

All-weaken {κ μ} :
    {A : Type 0} (P : A → Type κ) (Q : A → Type μ) (xs : List A)
    → ((a : A) → P a → Q a)
    → All P xs
    → All Q xs
All-weaken P Q [] f h = tt
All-weaken P Q (x ∷ xs) f h = (f x h.0, All-weaken P Q xs f h.1)

module _ (free : ℕ → Bool) (now : ℕ) where
  First-cons :
      (job : IngestionJob) (jobs : Jobs) (o : Option IngestionJob)
      → Unique id (job ∷ jobs)
      → First free now jobs o
      → First free now (job ∷ jobs) (
          if eligible free now job
          then elim o [ none ↦ some job | some k ↦ some (if before k job then k else job) ]
          else o)
  First-cons job jobs none u first = elim (Bool-cases (eligible free now job)) [
    | inl fits ↦ rw fits (
      find-cons_self id job jobs,
      fits,
      (before_irrefl _ job, All-weaken _ _ jobs (λ k unfit. rw unfit refl) first),
    )
    | inr unfit ↦ rw unfit (unfit, first)
  ]
  First-cons job jobs (some o) (apart, u) (found, el, first) =
      let other =
        find-cons_ne id o.id job jobs (All-find id (λ q. q.id ≢ job.id) o.id jobs apart found)
        ∙ found in
      elim (Bool-cases (eligible free now job)) [
        | inl fits ↦ elim (Bool-cases (before o job)) [
          | inl earlier ↦
              let w : o ≡ (if before o job then o else job) = rw earlier in
              rw fits (
                subst (λ j. First free now (job ∷ jobs) (some j)) w
                  (other, el, (rw (before_asymm o job earlier) (ground arith), first)))
          | inr later ↦
              let w : job ≡ (if before o job then o else job) = rw later in
              rw fits (
                subst (λ j. First free now (job ∷ jobs) (some j)) w
                  (
                    find-cons_self id job jobs,
                    fits,
                    (
                      before_irrefl _ job,
                      All-weaken _ _ jobs (λ k h. never_before _ job o k later h) first,
                    ),
                  ))
        ]
        | inr unfit ↦ rw unfit (other, el, (rw unfit refl, first))
      ]

  pub first_eligible-First :
      (jobs : Jobs) → Unique id jobs → First free now jobs (first_eligible free now jobs)
  unfolding first_eligible
  first_eligible-First [] u = tt
  first_eligible-First (job ∷ jobs) u =
      First-cons job jobs (first_eligible free now jobs) u (first_eligible-First jobs u.1)
