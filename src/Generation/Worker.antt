-- ===== src/Generation/Worker.antt =====
-- generation/worker.py: `GenerationWorker`. The service that generates is an argument: each call may
-- change the materials, and returns or raises. A method returns the tables that it leaves behind
-- beside its result or the exception that it lets through.
pub mod Settled
pub mod Outcome
pub mod Drained
use note_rag.Base.{ℕ, zero, suc, Bool, true, false, Option, none, some, ltb, if◌then◌else◌}
use note_rag.Base.Result.{Result, ok, raise}
use note_rag.Persistence.Models.{Exception, describe}
use note_rag.Generation.Jobs.{
  GenerationKind, GenerationJob, GenerationJobs, is_queued, get, assign, claim_next, claim,
  complete, fail,
}

pub record MaterialService (M : Type 0) : Type 0 where
  pub generate_curriculum : ℕ → M → M × Result Exception (Unit {0})
  pub generate_study_items : ℕ → M → M × Result Exception (Unit {0})
  pub regenerate_item : ℕ → M → M × Result Exception (Unit {0})

pub record GenerationWorker (M : Type 0) : Type 0 where
  pub service : MaterialService M
  pub max_attempts : ℕ

pub record World (M : Type 0) : Type 0 where
  pub jobs : GenerationJobs
  pub materials : M

abbrev pub lookup_error : Exception
lookup_error = record { message = "generation job not found"; class_name = "LookupError" }

abbrev pub target_error : Exception
target_error = record { message = "generation job target is invalid"; class_name = "ValueError" }

-- The assignments that follow the generation
unfoldable pub settle : ℕ → ℕ → Result Exception (Unit {0}) → GenerationJob → GenerationJob
settle max_attempts now (ok _) job = complete now job
settle max_attempts now (raise e) job = fail now (describe e) (ltb job.attempts max_attempts) job

-- `if job is not None`
unfoldable pub settle_found :
    ℕ → ℕ → ℕ → Result Exception (Unit {0}) → GenerationJobs → GenerationJobs
settle_found max_attempts now k result jobs = elim (get k jobs) [
  | none ↦ jobs
  | some job ↦ assign k (settle max_attempts now result) jobs
]

module _ {M : Type 0} where
  -- The first `try`
  unfoldable pub generate :
      MaterialService M
      → GenerationKind
      → ℕ
      → Option ℕ
      → Option ℕ
      → M
      → M × Result Exception (Unit {0})
  generate s GenerationKind.curriculum course_id topic_id item_id m =
      s.generate_curriculum course_id m
  generate s GenerationKind.study_items course_id (some topic) item_id m =
      s.generate_study_items topic m
  generate s GenerationKind.study_item course_id topic_id (some item) m = s.regenerate_item item m
  generate s GenerationKind.study_items course_id none item_id m = (m, raise target_error)
  generate s GenerationKind.study_item course_id topic_id none m = (m, raise target_error)

  abbrev pub generate_for : MaterialService M → GenerationJob → M → M × Result Exception (Unit {0})
  generate_for s job m = generate s job.kind job.course_id job.topic_id job.item_id m

  -- `run_job` behind its first session
  unfoldable pub run_started :
      GenerationWorker M → ℕ → ℕ → GenerationJob → World M → World M × Result Exception (Unit {0})
  run_started w now k job world =
      let outcome = generate_for w.service job world.materials in
      (
        record {
          jobs = settle_found w.max_attempts now k outcome.1 world.jobs;
          materials = outcome.0;
        },
        ok tt,
      )

  unfoldable pub after_claim :
      GenerationWorker M
      → ℕ
      → ℕ
      → Option GenerationJob × GenerationJobs
      → World M
      → World M × Result Exception (Unit {0})
  after_claim w now k (none, jobs) world = (record world { jobs = jobs }, ok tt)
  after_claim w now k (some job, jobs) world =
      run_started w now k job (record world { jobs = jobs })

  unfoldable pub run_job :
      GenerationWorker M → ℕ → ℕ → World M → World M × Result Exception (Unit {0})
  run_job w now k world = elim (get k world.jobs) [
    | none ↦ (world, raise lookup_error)
    | some job ↦
        if is_queued job.status
        then after_claim w now k (claim k now world.jobs) world
        else run_started w now k job world
  ]

  -- `self.run_job(job_id); return True`
  unfoldable pub as_run : World M × Result Exception (Unit {0}) → World M × Result Exception Bool
  as_run (world, ok _) = (world, ok true)
  as_run (world, raise e) = (world, raise e)

  unfoldable pub after_claim_next :
      GenerationWorker M
      → ℕ
      → Option GenerationJob × GenerationJobs
      → World M
      → World M × Result Exception Bool
  after_claim_next w now (none, jobs) world = (record world { jobs = jobs }, ok false)
  after_claim_next w now (some job, jobs) world =
      as_run (run_job w now job.id (record world { jobs = jobs }))

  unfoldable pub run_once :
      GenerationWorker M → (ℕ → Bool) → ℕ → World M → World M × Result Exception Bool
  run_once w free now world = after_claim_next w now (claim_next free now world.jobs) world

  unfoldable pub after_round :
      (World M → World M × Result Exception (Unit {0}))
      → World M × Result Exception Bool
      → World M × Result Exception (Unit {0})
  after_round rest (world, raise e) = (world, raise e)
  after_round rest (world, ok _) = rest world

  -- `run_forever`, whose event is set after as many rounds as the last number says. `clock` gives the
  -- time of each; the waits are left out.
  unfoldable pub run_forever :
      GenerationWorker M
      → (ℕ → Bool)
      → (ℕ → ℕ)
      → ℕ
      → World M
      → World M × Result Exception (Unit {0})
  unfolding after_round run_once
  run_forever w free clock zero world = (world, ok tt)
  run_forever w free clock (suc n) world =
      after_round (run_forever w free clock n) (run_once w free (clock n) world)
