-- ===== src/Study/Scheduling/Reordered.antt =====
-- study/scheduling.py: `rebuild` and the order in which the attempts are given.
use mathlib.Core.List.{Permᴰ}
use note_rag.Base.{◌≡◌, ap, false, none, List, arith}
use note_rag.Base.Sorting.{IsOrder, sort_by-eq_of_perm}
use note_rag.Base.Table.{Unique, Unique-eq}
use note_rag.Study.Scheduling.{
  FloatMath, SchedulerConfig, StudyItem, ReviewAttempt, attempt_before, sort_attempts, replay,
  rebuild,
}

attempt_before-IsOrder : IsOrder attempt_before
unfolding attempt_before
attempt_before-IsOrder = record { asym = λ a b h. ground arith; below = λ a x b h g. ground arith }

same_id :
    (a b : ReviewAttempt) → attempt_before a b ≡ false → attempt_before b a ≡ false → a.id ≡ b.id
unfolding attempt_before
same_id a b h g = ground arith

-- The state that `rebuild` makes does not depend on the order in which the attempts are given,
-- if their ids are distinct.
pub rebuild-eq_of_perm :
    (fl : FloatMath) (config : SchedulerConfig) (item : StudyItem) (xs ys : List ReviewAttempt)
    → Permᴰ xs ys
    → Unique (λ a. a.id) xs
    → rebuild fl config item xs ≡ rebuild fl config item ys
unfolding rebuild sort_attempts
rebuild-eq_of_perm fl config item xs ys perm ids = ap (replay fl config item none) (
    sort_by-eq_of_perm attempt_before attempt_before-IsOrder perm
      (λ a b m n h g. Unique-eq (λ a. a.id) xs ids m n (same_id a b h g)))
