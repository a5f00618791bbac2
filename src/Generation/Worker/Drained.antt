-- ===== src/Generation/Worker/Drained.antt =====
-- generation/worker.py: a worker that is the only one empties the queue.
use note_rag.Base.{
  ℕ, zero, suc, ◌+◌, ◌-◌, ◌≤◌, ◌<◌, ◌≡◌, refl, sym, subst, Bool, true, false, ◌&&◌, Option, none,
  some, [], ◌∷◌, ltb, if◌then◌else◌, arith, Bool-cases, inl, inr, All,
}
use note_rag.Base.Result.{Result, ok, raise}
use note_rag.Base.Sorting.{first_by}
use note_rag.Base.Table.{Unique, Unique-update}
use note_rag.Base.Queries.{Found, first_by-Found, total, total-update}
use note_rag.Persistence.Models.{Exception}
use note_rag.Generation.Jobs.{
  GenerationJob, GenerationJobs, job_id, is_queued, before, get, assign, start, claim_next,
  complete, fail,
}
use note_rag.Generation.Worker.{
  GenerationWorker, World, generate_for, settle, run_job, as_run, after_claim_next, run_once,
  after_round, run_forever,
}
use note_rag.Generation.Worker.Settled.{settle-job_id, ran, started, get-start, run_job_begun}

-- How many runs a job can still need: none unless it is queued, and then one at least.
abbrev pub runs_left : ℕ → GenerationJob → ℕ
runs_left max_attempts job =
    if is_queued job.status then suc (max_attempts - suc job.attempts) else 0

abbrev pub all_runs_left : ℕ → GenerationJobs → ℕ
all_runs_left max_attempts jobs = total job_id (runs_left max_attempts) jobs

-- No other transaction has locked a row.
abbrev pub anyone : ℕ → Bool
anyone k = true

abbrev waits : GenerationJob → Bool
waits job = is_queued job.status && true

settle-runs_left :
    (max_attempts now : ℕ) (r : Result Exception (Unit {0})) (job : GenerationJob)
    → is_queued job.status ≡ true
    → runs_left max_attempts (settle max_attempts now r (start now job))
      < runs_left max_attempts job
unfolding settle start complete fail
settle-runs_left max_attempts now (ok _) job q = rw q (omega arith)
settle-runs_left max_attempts now (raise e) job q =
    elim (Bool-cases (ltb (job.attempts + 1) max_attempts)) [
      | inl more ↦ rw (q, more) (ground arith)
      | inr none' ↦ rw (q, none') (omega arith)
    ]

and_true : (b : Bool) → (b && true) ≡ false → b ≡ false
and_true false h = refl
and_true true h = cc

true_and : (b : Bool) → (b && true) ≡ true → b ≡ true
true_and true h = refl
true_and false h = cc

none_left :
    (max_attempts : ℕ) (jobs : GenerationJobs)
    → All (λ job. waits job ≡ false) jobs
    → all_runs_left max_attempts jobs ≡ 0
none_left max_attempts [] all = refl
none_left max_attempts (job ∷ jobs) (no', all) =
    let ih = none_left max_attempts jobs all in rw (and_true _ no') (omega arith)

left_none :
    (max_attempts : ℕ) (jobs : GenerationJobs)
    → all_runs_left max_attempts jobs ≤ 0
    → All (λ job. is_queued job.status ≡ false) jobs
left_none max_attempts [] le = tt
left_none max_attempts (job ∷ jobs) le =
    (left_none_head max_attempts job (omega arith), left_none max_attempts jobs (omega arith))
  where
    left_none_head :
        (max_attempts : ℕ) (job : GenerationJob)
        → runs_left max_attempts job ≤ 0
        → is_queued job.status ≡ false
    left_none_head max_attempts job le = elim (Bool-cases (is_queued job.status)) [
      | inl q ↦
          absurd (let le' : suc (max_attempts - suc job.attempts) ≤ 0 = rw q at le in omega arith)
      | inr q ↦ q
    ]

claim_next-none :
    (now : ℕ) (jobs : GenerationJobs)
    → first_by before waits jobs ≡ none
    → claim_next anyone now jobs ≡ (none, jobs)
unfolding claim_next
claim_next-none now jobs h = rw (h, claim_next) refl

claim_next-some :
    (now : ℕ) (jobs : GenerationJobs) {job : GenerationJob}
    → first_by before waits jobs ≡ some job
    → claim_next anyone now jobs ≡ (some (start now job), assign job.id (start now) jobs)
unfolding claim_next
claim_next-some now jobs h = rw (h, claim_next) refl

module _ {M : Type 0} (w : GenerationWorker M) where
  -- One round: it does not raise, and where a job waits, fewer runs are left.
  abbrev pub IsRound : World M → World M × Result Exception Bool → Type 0
  IsRound world (world', result) =
      (b : Bool) × (result ≡ ok b)
      × Unique job_id world'.jobs
      × (all_runs_left w.max_attempts world'.jobs ≤ all_runs_left w.max_attempts world.jobs - 1)

  module _ (now : ℕ) (world : World M) (u : Unique job_id world.jobs) where
    idle-IsRound :
        first_by before waits world.jobs ≡ none
        → All (λ job. waits job ≡ false) world.jobs
        → IsRound world (run_once w anyone now world)
    unfolding run_once after_claim_next
    idle-IsRound h all =
        subst (λ c. IsRound world (after_claim_next w now c world))
          (sym (claim_next-none now world.jobs h))
          (false, refl, u, let e = none_left w.max_attempts world.jobs all in omega arith)

    -- The tables after the run of the row `job`.
    abbrev ran_from : GenerationJob → World M
    ran_from job = ran w now job.id (start now job) (started w now job.id world)

    run_claimed :
        (job : GenerationJob)
        → get job.id world.jobs ≡ some job
        → run_job w now job.id (started w now job.id world) ≡ (ran_from job, ok tt)
    unfolding start
    run_claimed job h =
        run_job_begun w now job.id (started w now job.id world)
          (get-start w now job.id world.jobs h) refl

    started-Unique : (job : GenerationJob) → Unique job_id (started w now job.id world).jobs
    unfolding assign start
    started-Unique job = Unique-update job_id job.id (start now) (λ j. refl) world.jobs u

    runs_left-ran_from :
        (job : GenerationJob)
        → get job.id world.jobs ≡ some job
        → is_queued job.status ≡ true
        → all_runs_left w.max_attempts (ran_from job).jobs
          ≤ all_runs_left w.max_attempts world.jobs - 1
    unfolding get assign start
    runs_left-ran_from job h q =
        let r = (generate_for w.service (start now job) world.materials).1 in
        let first =
          total-update job_id (runs_left w.max_attempts) job.id (start now) world.jobs u h in
        let second =
          total-update job_id (runs_left w.max_attempts) job.id (settle w.max_attempts now r)
            (assign job.id (start now) world.jobs) (started-Unique job)
            (get-start w now job.id world.jobs h) in
        let less = settle-runs_left w.max_attempts now r job q in
        let idle : runs_left w.max_attempts (start now job) ≡ 0 = refl in omega arith

    ran_from-Unique : (job : GenerationJob) → Unique job_id (ran_from job).jobs
    unfolding assign
    ran_from-Unique job =
        let r = (generate_for w.service (start now job) world.materials).1 in
        Unique-update job_id job.id (settle w.max_attempts now r) (settle-job_id w now job.id r)
          (started w now job.id world).jobs (started-Unique job)

    claimed-IsRound :
        (job : GenerationJob)
        → first_by before waits world.jobs ≡ some job
        → get job.id world.jobs ≡ some job
        → waits job ≡ true
        → IsRound world (run_once w anyone now world)
    unfolding run_once after_claim_next as_run start
    claimed-IsRound job h found q =
        subst (λ c. IsRound world (after_claim_next w now c world))
          (sym (claim_next-some now world.jobs h))
          (subst (λ r. IsRound world (as_run r)) (sym (run_claimed job found))
            (true, refl, ran_from-Unique job, runs_left-ran_from job found (true_and _ q)))

    run_once-IsRound : IsRound world (run_once w anyone now world)
    unfolding get
    run_once-IsRound =
        go (first_by before waits world.jobs) refl (first_by-Found job_id before waits world.jobs u)
      where
        go :
            (o : Option GenerationJob)
            → first_by before waits world.jobs ≡ o
            → Found job_id before waits world.jobs o
            → IsRound world (run_once w anyone now world)
        go none h all = idle-IsRound h all
        go (some job) h (found, q) = claimed-IsRound job h found q

  -- No exception, and no job waits.
  abbrev pub IsDrained : World M × Result Exception (Unit {0}) → Type 0
  IsDrained (world, result) =
      (result ≡ ok tt) × All (λ job. is_queued job.status ≡ false) world.jobs

  after_round-IsDrained :
      (rest : World M → World M × Result Exception (Unit {0})) (world : World M)
      (r : World M × Result Exception Bool)
      → IsRound world r
      → ((world' : World M)
          → Unique job_id world'.jobs
          → all_runs_left w.max_attempts world'.jobs ≤ all_runs_left w.max_attempts world.jobs - 1
          → IsDrained (rest world'))
      → IsDrained (after_round rest r)
  unfolding after_round
  after_round-IsDrained rest world (world', ok b) (b', e, u, le) later = later world' u le
  after_round-IsDrained rest world (world', raise x) (b', e, u, le) later = cc

-- A worker that nobody else takes jobs from does not raise, and has no job queued any more once it
-- has done as many rounds as the queued jobs have attempts left in all, each at least one,
-- whatever the generation does. The ids of the rows are distinct.
pub run_forever-IsDrained :
    {M : Type 0} (w : GenerationWorker M) (clock : ℕ → ℕ) (n : ℕ) (world : World M)
    → Unique job_id world.jobs
    → all_runs_left w.max_attempts world.jobs ≤ n
    → IsDrained w (run_forever w anyone clock n world)
unfolding run_forever
run_forever-IsDrained w clock zero world u le = (refl, left_none w.max_attempts world.jobs le)
run_forever-IsDrained w clock (suc n) world u le =
    after_round-IsDrained w (run_forever w anyone clock n) world (run_once w anyone (clock n) world)
      (run_once-IsRound w (clock n) world u)
      (λ world' u' le'. run_forever-IsDrained w clock n world' u' (omega arith))
