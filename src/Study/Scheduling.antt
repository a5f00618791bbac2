-- ===== src/Study/Scheduling.antt =====
-- study/scheduling.py. Arithmetic on floats is a parameter.
pub mod Bounds
pub mod Attempts
pub mod Rebuilt
pub mod Reordered
use note_rag.Base.{
  ℕ, ◌+◌, ◌-◌, Bool, true, false, not, ◌&&◌, ◌||◌, Option, none, some, List, [], ◌∷◌, String, ltb,
  ◌==◌, if◌then◌else◌,
}
use note_rag.Base.Sorting.{sort_by}
use note_rag.Base.Result.{Result, ok, raise_if, ◌>>=◌, ◌>>◌}
use note_rag.Persistence.Models.{Float}

pub data ReviewRating : Type 0 where
  again hard good easy : ReviewRating

-- A `datetime` without a time zone, or with one, in ticks of UTC.
pub data DateTime : Type 0 where
  naive : ℕ → DateTime
  zoned : ℕ → DateTime

pub record StudyItem : Type 0 where
  pub id : ℕ
  pub difficulty : ℕ

pub record ReviewAttempt : Type 0 where
  pub id : ℕ
  pub correct : Bool
  pub overridden_correct : Option Bool
  pub rating : ReviewRating
  pub reviewed_at : DateTime

pub record MemoryState : Type 0 where
  pub study_item_id : ℕ
  pub half_life_days : Float
  pub difficulty : ℕ
  pub last_review_at : ℕ
  pub next_review_at : ℕ
  pub predicted_recall : Float
  pub successful_reviews : ℕ
  pub failed_reviews : ℕ
  pub scheduler_version : String

-- Operators of `float`: `literal` is a number of the source, `after_days` adds a `timedelta`,
-- `seconds` is `total_seconds`, and `log` is `math.log` with its base.
pub record FloatMath : Type 0 where
  pub less : Float → Float → Bool
  pub less_eq : Float → Float → Bool
  pub minus : Float → Float → Float
  pub times : Float → Float → Float
  pub over : Float → Float → Float
  pub power : Float → Float → Float
  pub log : Float → Float → Float
  pub literal : String → Float
  pub of_int : ℕ → Float
  pub seconds : ℕ → Float
  pub after_days : ℕ → Float → ℕ

pub record SchedulerConfig : Type 0 where
  pub recall_threshold : Float
  pub minimum_interval_days : Float
  pub maximum_interval_days : Float

-- `_aware`
unfoldable pub aware : DateTime → ℕ
aware (naive t) = t
aware (zoned t) = t

unfoldable pub effective_correct : ReviewAttempt → Bool
effective_correct attempt = elim attempt.overridden_correct [ none ↦ attempt.correct | some b ↦ b ]

-- The comparison of the sort keys of `rebuild`
unfoldable pub attempt_before : ReviewAttempt → ReviewAttempt → Bool
unfolding aware
attempt_before a b =
    ltb (aware a.reviewed_at) (aware b.reviewed_at)
    || (aware a.reviewed_at == aware b.reviewed_at && ltb a.id b.id)

unfoldable pub sort_attempts : List ReviewAttempt → List ReviewAttempt
unfolding sort_by attempt_before
sort_attempts = sort_by attempt_before

module _ (fl : FloatMath) where
  -- `max` and `min` return their first argument unless the second is past it.
  unfoldable pub max_of : Float → Float → Float
  max_of a b = if fl.less a b then b else a

  unfoldable pub min_of : Float → Float → Float
  min_of a b = if fl.less b a then b else a

  unfoldable pub clamp : Float → Float → Float → Float
  unfolding max_of min_of
  clamp low high x = max_of low (min_of high x)

  -- `__post_init__`
  unfoldable pub make_config : Float → Float → Float → Result String SchedulerConfig
  make_config threshold minimum maximum = do
    raise_if (not (fl.less (fl.literal "0") threshold && fl.less threshold (fl.literal "1")))
        "recall threshold must be between zero and one"
    raise_if (fl.less_eq minimum (fl.literal "0")) "minimum interval must be positive"
    raise_if (fl.less maximum minimum) "maximum interval must not be below the minimum"
    ok (record {
      recall_threshold = threshold;
      minimum_interval_days = minimum;
      maximum_interval_days = maximum;
    })

  -- A time before the last review counts as that review.
  unfoldable pub predicted_recall : MemoryState → DateTime → Float
  unfolding clamp aware
  predicted_recall state at =
      let days = fl.over (fl.seconds (aware at - state.last_review_at)) (fl.literal "86400") in
      clamp (fl.literal "0.0") (fl.literal "1.0")
        (fl.power (fl.literal "0.5") (fl.over days state.half_life_days))

  unfoldable pub rating_multiplier : ReviewRating → Float
  rating_multiplier again = fl.literal "0.35"
  rating_multiplier hard = fl.literal "1.2"
  rating_multiplier good = fl.literal "2.0"
  rating_multiplier easy = fl.literal "3.0"

  unfoldable pub base_half_life : StudyItem → Option MemoryState → Float
  unfolding max_of
  base_half_life item none =
      max_of (fl.literal "0.25")
        (fl.minus (fl.literal "1.5") (fl.times (fl.of_int item.difficulty) (fl.literal "0.2")))
  base_half_life item (some state) = state.half_life_days

  unfoldable pub multiplier : ReviewAttempt → Float
  unfolding rating_multiplier effective_correct min_of
  multiplier attempt =
      let rated = rating_multiplier attempt.rating in
      if effective_correct attempt then rated else min_of rated (fl.literal "0.5")

module _ (fl : FloatMath) (config : SchedulerConfig) where
  unfoldable pub next_half_life : StudyItem → ReviewAttempt → Option MemoryState → Float
  unfolding clamp base_half_life multiplier
  next_half_life item attempt state =
      clamp fl config.minimum_interval_days config.maximum_interval_days
        (fl.times (base_half_life fl item state) (multiplier fl attempt))

  unfoldable pub interval : Float → Float
  unfolding clamp
  interval half_life =
      clamp fl config.minimum_interval_days config.maximum_interval_days
        (fl.times half_life (fl.log config.recall_threshold (fl.literal "0.5")))

  -- The state that is created where there is none.
  unfoldable pub or_new : StudyItem → ReviewAttempt → Float → Option MemoryState → MemoryState
  unfolding interval aware
  or_new item attempt half_life (some state) = state
  or_new item attempt half_life none = record {
    study_item_id = item.id;
    half_life_days = half_life;
    difficulty = item.difficulty;
    last_review_at = aware attempt.reviewed_at;
    next_review_at = fl.after_days (aware attempt.reviewed_at) (interval half_life);
    predicted_recall = fl.literal "1.0";
    successful_reviews = 0;
    failed_reviews = 0;
    scheduler_version = "half-life-v1";
  }

  unfoldable pub update : StudyItem → ReviewAttempt → Option MemoryState → MemoryState
  unfolding next_half_life interval or_new effective_correct aware
  update item attempt previous =
      let half_life = next_half_life item attempt previous in
      let state = or_new item attempt half_life previous in
      let success = effective_correct attempt in
      record state {
        half_life_days = half_life;
        difficulty = item.difficulty;
        last_review_at = aware attempt.reviewed_at;
        next_review_at = fl.after_days (aware attempt.reviewed_at) (interval half_life);
        predicted_recall = fl.literal "1.0";
        scheduler_version = "half-life-v1";
        successful_reviews = state.successful_reviews + (if success then 1 else 0);
        failed_reviews = state.failed_reviews + (if success then 0 else 1);
      }

  unfoldable pub replay : StudyItem → Option MemoryState → List ReviewAttempt → Option MemoryState
  unfolding update
  replay item state [] = state
  replay item state (a ∷ as') = replay item (some (update item a state)) as'

  unfoldable pub rebuild : StudyItem → List ReviewAttempt → Option MemoryState
  unfolding replay sort_attempts
  rebuild item attempts = replay item none (sort_attempts attempts)
