-- ===== src/Study/Scheduling/Rebuilt.antt =====
-- study/scheduling.py: the state that `rebuild` makes of the attempts.
use note_rag.Base.{
  ℕ, ◌+◌, ◌≤◌, ◌≡◌, ◌∙◌, subst, ◌<◌, refl, sym, true, false, Option, none, some, List, [], ◌∷◌,
  length, All, All-map, arith,
}
use note_rag.Persistence.Models.{Float}
use note_rag.Study.Scheduling.{
  FloatMath, SchedulerConfig, StudyItem, ReviewAttempt, MemoryState, aware, interval, or_new,
  update, sort_attempts, replay, rebuild,
}
use note_rag.Study.Scheduling.Bounds.{
  IsAsymmetric, IsWithin, clamp-IsWithin, clamp-between, update-IsWithin,
}
use note_rag.Study.Scheduling.Attempts.{
  point, corrects, Sorted, sort_attempts-Sorted, corrects-sort_attempts, length-sort_attempts,
  All-sort_attempts,
}

abbrev successes : Option MemoryState → ℕ
successes none = 0
successes (some s) = s.successful_reviews

abbrev failures : Option MemoryState → ℕ
failures none = 0
failures (some s) = s.failed_reviews

module _ (fl : FloatMath) (config : SchedulerConfig) where
  -- The days until the recall falls to the threshold, by the half-life.
  abbrev pub recall_days : Float → Float
  recall_days half_life = fl.times half_life (fl.log config.recall_threshold (fl.literal "0.5"))

  -- The half-life is within the limits, and so are the days to the next review, which are those in which the
  -- recall falls to the threshold if they are between the limits.
  abbrev pub IsScheduled : MemoryState → Type 0
  IsScheduled s =
      IsWithin fl config.minimum_interval_days config.maximum_interval_days s.half_life_days
      × ((days : Float) × IsWithin fl config.minimum_interval_days config.maximum_interval_days days
          × (s.next_review_at ≡ fl.after_days s.last_review_at days)
          × (fl.less config.minimum_interval_days (recall_days s.half_life_days) ≡ true
              → fl.less (recall_days s.half_life_days) config.maximum_interval_days ≡ true
              → days ≡ recall_days s.half_life_days))

  -- What a list of attempts leaves behind.
  abbrev pub IsSummary : List ReviewAttempt → Option MemoryState → Type 0
  IsSummary as' none = length as' ≡ 0
  IsSummary as' (some s) =
      (0 < length as')
      × (s.successful_reviews ≡ corrects as')
      × (s.successful_reviews + s.failed_reviews ≡ length as')
      × All (λ (a : ReviewAttempt). aware a.reviewed_at ≤ s.last_review_at) as'
      × IsScheduled s

  module _ (asym : IsAsymmetric fl)
      (valid : fl.less config.maximum_interval_days config.minimum_interval_days ≡ false)
      (item : StudyItem) where
    update-IsScheduled :
        (a : ReviewAttempt) (s : Option MemoryState) → IsScheduled (update fl config item a s)
    unfolding update interval
    update-IsScheduled a s =
        let half_life = (update fl config item a s).half_life_days in
        (
          update-IsWithin fl asym config item a s valid,
          (
            interval fl config half_life,
            clamp-IsWithin fl asym config.minimum_interval_days config.maximum_interval_days
                (recall_days half_life) valid,
            refl,
            clamp-between fl config.minimum_interval_days config.maximum_interval_days
                (recall_days half_life),
          ),
        )

    update-last :
        (a : ReviewAttempt) (s : Option MemoryState)
        → (update fl config item a s).last_review_at ≡ aware a.reviewed_at
    unfolding update
    update-last a s = refl

    update-successes :
        (a : ReviewAttempt) (s : Option MemoryState)
        → (update fl config item a s).successful_reviews ≡ successes s + point a
    unfolding update or_new
    update-successes a none = refl
    update-successes a (some s) = refl

    update-failures :
        (a : ReviewAttempt) (s : Option MemoryState)
        → point a + (update fl config item a s).failed_reviews ≡ failures s + 1
    unfolding update or_new
    update-failures a none = ground arith
    update-failures a (some s) = ground arith

    replay-IsSummary_from :
        (s : MemoryState) (as' : List ReviewAttempt)
        → Sorted as'
        → All (λ (a : ReviewAttempt). s.last_review_at ≤ aware a.reviewed_at) as'
        → IsScheduled s
        → (s' : MemoryState) × (replay fl config item (some s) as' ≡ some s')
          × (s'.successful_reviews ≡ s.successful_reviews + corrects as')
          × (s'.successful_reviews + s'.failed_reviews
              ≡ s.successful_reviews + s.failed_reviews + length as')
          × (s.last_review_at ≤ s'.last_review_at)
          × All (λ (a : ReviewAttempt). aware a.reviewed_at ≤ s'.last_review_at) as'
          × IsScheduled s'
    unfolding replay
    replay-IsSummary_from s [] sorted past scheduled =
        (s, refl, omega arith, omega arith, omega arith, tt, scheduled)
    replay-IsSummary_from s (a ∷ as') (least, sorted) (first, past) scheduled =
        let u = update fl config item a (some s) in
        let last = update-last a (some s) in
        let won = update-successes a (some s) in
        let lost = update-failures a (some s) in
        let (s', e, succ, total, later, all, ok') =
          replay-IsSummary_from u as' sorted (All-map as' (λ x h. omega arith) least)
            (update-IsScheduled a (some s)) in
        (s', e, omega arith, omega arith, omega arith, (omega arith, all), ok')

    replay-IsSummary :
        (as' : List ReviewAttempt) → Sorted as' → IsSummary as' (replay fl config item none as')
    unfolding replay
    replay-IsSummary [] sorted = refl
    replay-IsSummary (a ∷ as') (least, sorted) =
        let u = update fl config item a none in
        let last = update-last a none in
        let won = update-successes a none in
        let lost = update-failures a none in
        let (s', e, succ, total, later, all, ok') =
          replay-IsSummary_from u as' sorted (All-map as' (λ x h. omega arith) least)
            (update-IsScheduled a none) in
        subst (IsSummary (a ∷ as')) (sym e)
          (omega arith, omega arith, omega arith, (omega arith, all), ok')

    IsSummary-sort_attempts :
        (as' : List ReviewAttempt) (r : Option MemoryState)
        → IsSummary (sort_attempts as') r
        → IsSummary as' r
    IsSummary-sort_attempts as' none h = sym (length-sort_attempts as') ∙ h
    IsSummary-sort_attempts as' (some s) (some_attempts, succ, total, all, scheduled) = (
      omega (arith, length-sort_attempts as'),
      succ ∙ corrects-sort_attempts as',
      total ∙ length-sort_attempts as',
      All-sort_attempts (λ (a : ReviewAttempt). aware a.reviewed_at ≤ s.last_review_at) as' all,
      scheduled,
    )

-- If `<` on floats never holds both ways and the greatest interval is not below the least, then
-- `rebuild` makes no state of no attempts, and otherwise one that counts the correct attempts as
-- successful and the others as failed, was last reviewed at or after each attempt, and has its
-- half-life within the limits. The days from the last review to the next one are within the limits too, and
-- where the time in which the recall falls to the threshold is between the limits they are that time.
pub rebuild-IsSummary :
    (fl : FloatMath) (config : SchedulerConfig) (item : StudyItem) (attempts : List ReviewAttempt)
    → IsAsymmetric fl
    → fl.less config.maximum_interval_days config.minimum_interval_days ≡ false
    → IsSummary fl config attempts (rebuild fl config item attempts)
unfolding rebuild
rebuild-IsSummary fl config item attempts asym valid =
    IsSummary-sort_attempts fl config asym valid item attempts (rebuild fl config item attempts) (
      replay-IsSummary fl config asym valid item (sort_attempts attempts)
        (sort_attempts-Sorted attempts))
