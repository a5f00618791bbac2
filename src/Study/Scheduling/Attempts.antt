-- ===== src/Study/Scheduling/Attempts.antt =====
-- study/scheduling.py: the attempts in the order of their times.
use note_rag.Base.{
  ℕ, ◌+◌, ◌≤◌, ◌≡◌, ◌∙◌, ap, refl, true, false, List, [], ◌∷◌, length, All, All-map, if◌then◌else◌,
  arith, Bool-cases, inl, inr,
}
use note_rag.Base.Sorting.{insert_by, length-sort_by}
use note_rag.Study.Scheduling.{
  ReviewAttempt, aware, effective_correct, attempt_before, sort_attempts,
}

abbrev pub point : ReviewAttempt → ℕ
point a = if effective_correct a then 1 else 0

-- How many attempts are correct.
abbrev pub corrects : List ReviewAttempt → ℕ
corrects [] = 0
corrects (a ∷ as') = point a + corrects as'

abbrev pub Sorted : List ReviewAttempt → Type 0
Sorted [] = Unit
Sorted (a ∷ as') =
    All (λ (b : ReviewAttempt). aware a.reviewed_at ≤ aware b.reviewed_at) as' × Sorted as'

before-le :
    (a b : ReviewAttempt) → attempt_before a b ≡ true → aware a.reviewed_at ≤ aware b.reviewed_at
unfolding attempt_before
before-le a b h = ground arith

not_before-le :
    (a b : ReviewAttempt) → attempt_before a b ≡ false → aware b.reviewed_at ≤ aware a.reviewed_at
unfolding attempt_before
not_before-le a b h = ground arith

module _ (a : ReviewAttempt) where
  insert_by-All :
      (P : ReviewAttempt → Type 0) (bs : List ReviewAttempt)
      → P a
      → All P bs
      → All P (insert_by attempt_before a bs)
  unfolding insert_by
  insert_by-All P [] one all = (one, tt)
  insert_by-All P (b ∷ bs) one all = elim (Bool-cases (attempt_before b a)) [
    | inl after ↦ rw after (all.0, insert_by-All P bs one all.1)
    | inr here ↦ rw here (one, all)
  ]

  All-insert_by :
      (P : ReviewAttempt → Type 0) (bs : List ReviewAttempt)
      → All P (insert_by attempt_before a bs)
      → P a × All P bs
  unfolding insert_by
  All-insert_by P [] all = all
  All-insert_by P (b ∷ bs) all = elim (Bool-cases (attempt_before b a)) [
    | inl after ↦
        let (one, later) = rw after at all in
        let (mine, others) = All-insert_by P bs later in (mine, (one, others))
    | inr here ↦ rw here at all
  ]

  insert_by-Sorted : (bs : List ReviewAttempt) → Sorted bs → Sorted (insert_by attempt_before a bs)
  unfolding insert_by
  insert_by-Sorted [] s = (tt, tt)
  insert_by-Sorted (b ∷ bs) (least, s) = elim (Bool-cases (attempt_before b a)) [
    | inl after ↦ rw after (
      insert_by-All (λ (x : ReviewAttempt). aware b.reviewed_at ≤ aware x.reviewed_at) bs
          (before-le b a after) least,
      insert_by-Sorted bs s,
    )
    | inr here ↦
        let le = not_before-le b a here in
        rw here ((le, All-map bs (λ x h. omega arith) least), (least, s))
  ]

  corrects-insert_by :
      (bs : List ReviewAttempt) → corrects (insert_by attempt_before a bs) ≡ point a + corrects bs
  unfolding insert_by
  corrects-insert_by [] = refl
  corrects-insert_by (b ∷ bs) = elim (Bool-cases (attempt_before b a)) [
    | inl after ↦ rw after (omega (arith, corrects-insert_by bs))
    | inr here ↦ rw here refl
  ]

pub sort_attempts-Sorted : (as' : List ReviewAttempt) → Sorted (sort_attempts as')
unfolding sort_attempts
sort_attempts-Sorted [] = tt
sort_attempts-Sorted (a ∷ as') = insert_by-Sorted a (sort_attempts as') (sort_attempts-Sorted as')

pub corrects-sort_attempts :
    (as' : List ReviewAttempt) → corrects (sort_attempts as') ≡ corrects as'
unfolding sort_attempts
corrects-sort_attempts [] = refl
corrects-sort_attempts (a ∷ as') =
    corrects-insert_by a (sort_attempts as') ∙ ap (λ n. point a + n) (corrects-sort_attempts as')

pub length-sort_attempts : (as' : List ReviewAttempt) → length (sort_attempts as') ≡ length as'
unfolding sort_attempts
length-sort_attempts as' = length-sort_by attempt_before as'

pub All-sort_attempts :
    (P : ReviewAttempt → Type 0) (as' : List ReviewAttempt) → All P (sort_attempts as') → All P as'
unfolding sort_attempts
All-sort_attempts P [] all = tt
All-sort_attempts P (a ∷ as') all =
    let (one, later) = All-insert_by a P (sort_attempts as') all in
    (one, All-sort_attempts P as' later)
