-- ===== src/Generation/Enqueue/Finished.antt =====
-- api/app.py: what `enqueue_generation` answers where no worker runs in the background.
use note_rag.Base.{
  ℕ, String, zero, suc, ◌+◌, ◌≤◌, ◌<◌, ◌≡◌, ◌≢◌, ◌⊎◌, refl, sym, ap, ◌∙◌, subst, true, false, none,
  some, [], ◌∷◌, ltb, ◌==◌, arith, Bool-cases, inl, inr, Option-cases,
}
use note_rag.Base.Result.{Result, ok, raise}
use note_rag.Base.Table.{find, Unique, find-cons_self, find-cons_ne, All-find, find-update_self}
use note_rag.Persistence.Models.{Exception, describe}
use note_rag.Generation.Jobs.{
  GenerationJobStatus, GenerationJob, GenerationJobs, job_id, is_queued, with_key, add, get, assign,
  start, complete, fail,
}
use note_rag.Generation.Worker.{GenerationWorker, World, generate_for, settle}
use note_rag.Generation.Worker.Settled.{settle-job_id, ran, started, get-start, run_job_queued}
use note_rag.Generation.Enqueue.{
  is_over, generation_job_response, new_job, Answer, answer, return_if_over, after_run, run_rounds,
  after_add, enqueue_generation,
}

with_key-get :
    (key : ℕ) (jobs : GenerationJobs) {job : GenerationJob}
    → Unique job_id jobs
    → with_key key jobs ≡ some job
    → get job.id jobs ≡ some job
unfolding with_key get
with_key-get key [] u h = cc
with_key-get key (j ∷ jobs) {job} u h = elim (Bool-cases (j.idempotency_key == key)) [
  | inl here ↦
      let e : some j ≡ some job = rw here at h in
      let e' : j ≡ job = cc in
      subst (λ x. find job_id x.id (j ∷ jobs) ≡ some x) e' (find-cons_self job_id j jobs)
  | inr there ↦
      let found = with_key-get key jobs u.1 (rw there at h) in
      find-cons_ne job_id job.id j jobs (All-find job_id (λ q. q.id ≢ j.id) job.id jobs u.0 found)
      ∙ found
]

add_unknown :
    (job : GenerationJob) (jobs : GenerationJobs)
    → with_key job.idempotency_key jobs ≡ none
    → add job jobs ≡ (job, job ∷ jobs)
unfolding add
add_unknown job jobs h = rw (h, add) refl

add_known :
    (job : GenerationJob) (jobs : GenerationJobs) {known : GenerationJob}
    → with_key job.idempotency_key jobs ≡ some known
    → add job jobs ≡ (known, jobs)
unfolding add
add_known job jobs h = rw (h, add) refl

not_queued :
    (s : GenerationJobStatus)
    → is_queued s ≡ false
    → (is_over s ≡ true) ⊎ (s ≡ GenerationJobStatus.running)
not_queued GenerationJobStatus.queued h = cc
not_queued GenerationJobStatus.running h = inr refl
not_queued GenerationJobStatus.completed h = inl refl
not_queued GenerationJobStatus.failed h = inl refl

module _ {M : Type 0} where
  -- The answer is a job that is over.
  abbrev pub IsFinished : Answer M → Type 0
  IsFinished (world, result) =
      (job : GenerationJob) × (result ≡ ok job) × (is_over job.status ≡ true)

  answer_on :
      (k : ℕ) (world : World M) {job : GenerationJob}
      → get k world.jobs ≡ some job
      → answer k world ≡ (world, ok job)
  unfolding generation_job_response
  answer_on k world h = rw (h, generation_job_response) refl

  module _ (w : GenerationWorker M) (k : ℕ) where
    -- The answer of a round whose job is over, and of one whose job is not.
    return_over :
        (rest : Answer M) (world : World M) {job : GenerationJob}
        → get k world.jobs ≡ some job
        → is_over job.status ≡ true
        → return_if_over rest (answer k world) ≡ (world, ok job)
    unfolding return_if_over
    return_over rest world {job} h over =
        ap (return_if_over rest) (answer_on k world h) ∙ (rw over refl)

    return_rest :
        (rest : Answer M) (world : World M) {job : GenerationJob}
        → get k world.jobs ≡ some job
        → is_over job.status ≡ false
        → return_if_over rest (answer k world) ≡ rest
    unfolding return_if_over
    return_rest rest world {job} h more =
        ap (return_if_over rest) (answer_on k world h) ∙ (rw more refl)

    module _ (now : ℕ) where
      abbrev outcome : GenerationJob → World M → Result Exception (Unit {0})
      outcome job world = (generate_for w.service (start now job) world.materials).1

      abbrev after : GenerationJob → World M → World M
      after job world = ran w now k (start now job) (started w now k world)

      get-after :
          (world : World M) {job : GenerationJob} {r : Result Exception (Unit {0})}
          → get k world.jobs ≡ some job
          → outcome job world ≡ r
          → get k (after job world).jobs ≡ some (settle w.max_attempts now r (start now job))
      unfolding get assign
      get-after world {job} {r} h e =
          find-update_self job_id k (settle w.max_attempts now (outcome job world))
            (assign k (start now) world.jobs)
            (settle-job_id w now k (outcome job world) (start now job))
            (get-start w now k world.jobs h)
          ∙ ap (λ x. some (settle w.max_attempts now x (start now job))) e

      -- A run that raises, with attempts left or without.
      retried :
          (message : String) (job : GenerationJob)
          → ltb (job.attempts + 1) w.max_attempts ≡ true
          → fail now message (ltb (job.attempts + 1) w.max_attempts) (start now job)
            ≡ fail now message true (start now job)
      retried message job e = rw e refl

      given_up :
          (message : String) (job : GenerationJob)
          → ltb (job.attempts + 1) w.max_attempts ≡ false
          → fail now message (ltb (job.attempts + 1) w.max_attempts) (start now job)
            ≡ fail now message false (start now job)
      given_up message job e = rw e refl

      module _ (n : ℕ) (rest : Answer M) (world : World M) (job : GenerationJob)
          (h : get k world.jobs ≡ some job)
          (later : (job' : GenerationJob)
            → get k (after job world).jobs ≡ some job'
            → is_queued job'.status ≡ true
            → job'.attempts ≡ job.attempts + 1
            → job.attempts + 1 < w.max_attempts
            → IsFinished rest) where
        round-IsFinished :
            (r : Result Exception (Unit {0}))
            → outcome job world ≡ r
            → IsFinished (return_if_over rest (answer k (after job world)))
        unfolding settle complete fail start
        round-IsFinished (ok _) e =
            let found = get-after world h e in
            subst IsFinished (sym (return_over rest (after job world) found refl))
              (complete now (start now job), refl, refl)
        round-IsFinished (raise x) e =
            let found = get-after world h e in
            elim (Bool-cases (ltb (job.attempts + 1) w.max_attempts)) [
              | inl yes' ↦
                  let found' = found ∙ ap some (retried (describe x) job yes') in
                  subst IsFinished (sym (return_rest rest (after job world) found' refl)) (
                    later (fail now (describe x) true (start now job)) found' refl refl
                      (ground arith))
              | inr no' ↦
                  let found' = found ∙ ap some (given_up (describe x) job no') in
                  subst IsFinished (sym (return_over rest (after job world) found' refl))
                    (fail now (describe x) false (start now job), refl, refl)
            ]

    -- The first round, and the rounds that follow it.
    run_rounds-suc :
        (clock : ℕ → ℕ) (n : ℕ) (world : World M) (job : GenerationJob)
        → get k world.jobs ≡ some job
        → is_queued job.status ≡ true
        → run_rounds w clock k (suc n) world
          ≡ return_if_over
              (run_rounds w clock k n (after (clock n) job world))
              (answer k (after (clock n) job world))
    unfolding run_rounds after_run
    run_rounds-suc clock n world job h q =
        ap (after_run k (run_rounds w clock k n)) (run_job_queued w (clock n) k world h q)

    run_rounds-IsFinished :
        (clock : ℕ → ℕ) (n : ℕ) (world : World M) (job : GenerationJob)
        → get k world.jobs ≡ some job
        → is_queued job.status ≡ true
        → 0 < n
        → w.max_attempts ≤ job.attempts + n
        → IsFinished (run_rounds w clock k n world)
    run_rounds-IsFinished clock zero world job h q pos enough = absurd (omega arith)
    run_rounds-IsFinished clock (suc n) world job h q pos enough =
        let world' = after (clock n) job world in
        subst IsFinished (sym (run_rounds-suc clock n world job h q)) (
          round-IsFinished (clock n) n (run_rounds w clock k n world') world job h
            (λ job' h' q' same more.
              run_rounds-IsFinished clock n world' job' h' q' (omega arith) (omega arith))
            (outcome (clock n) job world) refl)

  -- What `enqueue_generation` answers: a job that is over, or the job with the key as it was, which
  -- another process runs.
  abbrev pub IsAnswered : ℕ → World M → Answer M → Type 0
  IsAnswered key world (world', result) =
      IsFinished (world', result)
      ⊎ ((job : GenerationJob) × (with_key key world.jobs ≡ some job)
          × (job.status ≡ GenerationJobStatus.running)
          × (result ≡ ok job)
          × (world'.jobs ≡ world.jobs))

  module _ (w : GenerationWorker M) (clock : ℕ → ℕ) (pos : 0 < w.max_attempts) where
    runs :
        (world : World M) (job : GenerationJob)
        → get job.id world.jobs ≡ some job
        → is_queued job.status ≡ true
        → IsFinished (run_rounds w clock job.id w.max_attempts world)
    runs world job h q =
        run_rounds-IsFinished w job.id clock w.max_attempts world job h q pos (omega arith)

    added :
        (world : World M) (job : GenerationJob)
        → is_queued job.status ≡ true
        → IsFinished (after_add w false clock (job, job ∷ world.jobs) world)
    unfolding after_add get
    added world job q =
        rw (q, after_add)
          (runs (record world { jobs = job ∷ world.jobs }) job
            (find-cons_self job_id job world.jobs) q)

    existing :
        (key : ℕ) (world : World M) (job : GenerationJob)
        → with_key key world.jobs ≡ some job
        → get job.id world.jobs ≡ some job
        → IsAnswered key world (after_add w false clock (job, world.jobs) world)
    unfolding after_add
    existing key world job h found = elim (Bool-cases (is_queued job.status)) [
      | inl q ↦ rw (q, after_add) (inl (runs world job found q))
      | inr q ↦
          rw (q, after_add)
            (subst (IsAnswered key world) (sym (answer_on job.id world found))
              (elim (not_queued job.status q) [
                | inl over ↦ inl (job, refl, over)
                | inr runs' ↦ inr (job, h, runs', refl, refl)
              ]))
    ]

-- Where no worker runs in the background and at least one attempt is allowed, `enqueue_generation` never
-- raises: over rows with different ids it answers with a job that is completed or failed, whatever the
-- generation does in each attempt, or else the key is that of a job that runs, and that job is
-- the answer and no row changes.
pub enqueue_generation-IsAnswered :
    {M : Type 0} (w : GenerationWorker M) (clock : ℕ → ℕ) (job : GenerationJob) (world : World M)
    → 0 < w.max_attempts
    → Unique job_id world.jobs
    → IsAnswered job.idempotency_key world (enqueue_generation w false clock job world)
unfolding enqueue_generation new_job
enqueue_generation-IsAnswered w clock job world pos u =
    elim (Option-cases (with_key job.idempotency_key world.jobs)) [
      | inl unknown ↦
          subst (λ a. IsAnswered job.idempotency_key world (after_add w false clock a world))
            (sym (add_unknown (new_job job) world.jobs unknown))
            (inl (added w clock pos world (new_job job) refl))
      | inr (known, h) ↦
          subst (λ a. IsAnswered job.idempotency_key world (after_add w false clock a world))
            (sym (add_known (new_job job) world.jobs h))
            (existing w clock pos job.idempotency_key world known h
              (with_key-get job.idempotency_key world.jobs u h))
    ]
