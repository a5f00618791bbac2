-- ===== src/Study/Scheduling/Bounds.antt =====
-- study/scheduling.py: the bounds of the half-life, the interval and the predicted recall.
use note_rag.Base.{◌≡◌, refl, true, false, ◌&&◌, Option, Bool-cases, inl, inr}
use note_rag.Persistence.Models.{Float}
use note_rag.Study.Scheduling.{
  FloatMath, SchedulerConfig, StudyItem, ReviewAttempt, MemoryState, DateTime, max_of, min_of,
  clamp, predicted_recall, next_half_life, update,
}

-- `<` never holds both ways.
abbrev pub IsAsymmetric : FloatMath → Type 0
IsAsymmetric fl = (a b : Float) → (fl.less a b && fl.less b a) ≡ false

-- Not below `low` and not above `high`.
abbrev pub IsWithin : FloatMath → Float → Float → Float → Type 0
IsWithin fl low high x = (fl.less x low ≡ false) × (fl.less high x ≡ false)

pub clamp-between :
    (fl : FloatMath) (low high x : Float)
    → fl.less low x ≡ true
    → fl.less x high ≡ true
    → clamp fl low high x ≡ x
unfolding clamp max_of min_of
clamp-between fl low high x over under = rw (under, over) refl

module _ (fl : FloatMath) (asym : IsAsymmetric fl) where
  not_back : (a b : Float) → fl.less a b ≡ true → fl.less b a ≡ false
  not_back a b h = rw h at (asym a b)

  irrefl : (a : Float) → fl.less a a ≡ false
  irrefl a = elim (Bool-cases (fl.less a a)) [ inl yes' ↦ not_back a a yes' | inr no' ↦ no' ]

  pub clamp-IsWithin :
      (low high x : Float) → fl.less high low ≡ false → IsWithin fl low high (clamp fl low high x)
  unfolding clamp max_of min_of
  clamp-IsWithin low high x h = elim (Bool-cases (fl.less x high)) [
    | inl under ↦ elim (Bool-cases (fl.less low x)) [
      | inl over ↦ rw (under, over) (not_back low x over, not_back x high under)
      | inr below ↦ rw (under, below) (irrefl low, h)
    ]
    | inr past ↦ elim (Bool-cases (fl.less low high)) [
      | inl apart ↦ rw (past, apart) (h, irrefl high)
      | inr same ↦ rw (past, same) (irrefl low, h)
    ]
  ]

  -- The predicted recall is never below 0 and never above 1, if `<` on floats never holds both ways
  -- and 1 is not below 0.
  pub predicted_recall-IsWithin :
      (state : MemoryState) (at : DateTime)
      → fl.less (fl.literal "1.0") (fl.literal "0.0") ≡ false
      → IsWithin fl (fl.literal "0.0") (fl.literal "1.0") (predicted_recall fl state at)
  unfolding predicted_recall
  predicted_recall-IsWithin state at h = clamp-IsWithin (fl.literal "0.0") (fl.literal "1.0") _ h

  pub update-IsWithin :
      (config : SchedulerConfig) (item : StudyItem) (attempt : ReviewAttempt)
      (state : Option MemoryState)
      → fl.less config.maximum_interval_days config.minimum_interval_days ≡ false
      → IsWithin fl config.minimum_interval_days config.maximum_interval_days
          (update fl config item attempt state).half_life_days
  unfolding update next_half_life
  update-IsWithin config item attempt state h =
      clamp-IsWithin config.minimum_interval_days config.maximum_interval_days _ h
