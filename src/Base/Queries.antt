-- ===== src/Base/Queries.antt =====
-- Tables of rows with a primary key: the first row that passes a test, and sums over the rows.
use mathlib.Core.Path.{◌≡◌, refl, sym, ◌∙◌, subst}
use mathlib.Core.Logic.{◌≢◌, inl, inr}
use mathlib.Core.Bool.{Bool, true, false}
use mathlib.Core.Option.{Option, none, some}
use mathlib.Core.List.{List, [], ◌∷◌}
use Prim.Native.Nat.{ℕ, ◌+◌}
use native.Mathlib.Omega.{arith}
use note_rag.Base.Tests.{◌==◌, ==_iff, Bool-cases}
use note_rag.Base.Lists.{All}
use note_rag.Base.Filters.{filter, All-filter}
use note_rag.Base.Sorting.{or_least, first_by}
use note_rag.Base.Table.{find, update, Unique, find-cons_self, find-cons_ne, All-find}

module _ {A : Type 0} (key : A → ℕ) where
  module _ (before : A → A → Bool) (keep : A → Bool) where
    -- What `first_by` finds.
    abbrev pub Found : List A → Option A → Type 0
    Found rows none = All (λ a. keep a ≡ false) rows
    Found rows (some a) = (find key (key a) rows ≡ some a) × (keep a ≡ true)

    or_least-Found :
        (a : A) (rows : List A) (rest : Option A)
        → Unique key (a ∷ rows)
        → keep a ≡ true
        → Found rows rest
        → Found (a ∷ rows) (or_least before a rest)
    unfolding or_least
    or_least-Found a rows none u yes' found = (find-cons_self key a rows, yes')
    or_least-Found a rows (some b) u yes' (found, kept) = elim (Bool-cases (before b a)) [
      | inl earlier ↦ rw earlier (
        find-cons_ne key (key b) a rows (All-find key (λ q. key q ≢ key a) (key b) rows u.0 found)
            ∙ found,
        kept,
      )
      | inr later ↦ rw later (find-cons_self key a rows, yes')
    ]

    passed-Found :
        (a : A) (rows : List A) (rest : Option A)
        → Unique key (a ∷ rows)
        → keep a ≡ false
        → Found rows rest
        → Found (a ∷ rows) rest
    passed-Found a rows none u no' all = (no', all)
    passed-Found a rows (some b) u no' (found, kept) = (
      find-cons_ne key (key b) a rows (All-find key (λ q. key q ≢ key a) (key b) rows u.0 found)
          ∙ found,
      kept,
    )

    pub first_by-Found : (rows : List A) → Unique key rows → Found rows (first_by before keep rows)
    unfolding first_by
    first_by-Found [] u = tt
    first_by-Found (a ∷ rows) u = elim (Bool-cases (keep a)) [
      | inl yes' ↦
          rw yes'
            (or_least-Found a rows (first_by before keep rows) u yes' (first_by-Found rows u.1))
      | inr no' ↦
          rw no' (passed-Found a rows (first_by before keep rows) u no' (first_by-Found rows u.1))
    ]

  module _ (weight : A → ℕ) where
    abbrev pub total : List A → ℕ
    total [] = 0
    total (a ∷ rows) = weight a + total rows

    total-update_apart :
        (k : ℕ) (f : A → A) (rows : List A)
        → All (λ q. key q ≢ k) rows
        → total (update key k f rows) ≡ total rows
    unfolding update
    total-update_apart k f [] apart = refl
    total-update_apart k f (a ∷ rows) (here, apart) =
        ground (arith, here, total-update_apart k f rows apart)

    -- A change of one row changes the sum by the change of its weight.
    pub total-update :
        (k : ℕ) (f : A → A) (rows : List A) {row : A}
        → Unique key rows
        → find key k rows ≡ some row
        → total (update key k f rows) + weight row ≡ total rows + weight (f row)
    unfolding update find
    total-update k f [] u h = cc
    total-update k f (a ∷ rows) {row} u h = elim (Bool-cases (key a == k)) [
      | inl here ↦
          let e : some a ≡ some row = rw here at h in
          let e' : a ≡ row = cc in
          let same = (==_iff (key a) k).0 here in
          let apart = subst (λ x. All (λ q. key q ≢ x) rows) same u.0 in
          rw here (
            subst
              (λ x.
                weight (f a) + total (update key k f rows) + weight x
                ≡ weight a + total rows + weight (f x))
              e' (omega (arith, total-update_apart k f rows apart)))
      | inr there ↦ rw there (omega (arith, total-update k f rows u.1 (rw there at h)))
    ]

  pub Unique-filter :
      (keep : A → Bool) (rows : List A) → Unique key rows → Unique key (filter keep rows)
  unfolding filter
  Unique-filter keep [] u = tt
  Unique-filter keep (a ∷ rows) (apart, u) = elim (Bool-cases (keep a)) [
    | inl yes' ↦
        rw yes' (All-filter (λ q. key q ≢ key a) keep rows apart, Unique-filter keep rows u)
    | inr no' ↦ rw no' (Unique-filter keep rows u)
  ]

  find-apart : (k : ℕ) (rows : List A) → All (λ q. key q ≢ k) rows → find key k rows ≡ none
  unfolding find
  find-apart k [] all = refl
  find-apart k (a ∷ rows) (ne, all) = elim (Bool-cases (key a == k)) [
    | inl here ↦ absurd (ne ((==_iff (key a) k).0 here))
    | inr there ↦ rw there (find-apart k rows all)
  ]

  module _ (keep : A → Bool) (k : ℕ) where
    pub find-filter-none :
        (rows : List A) → find key k rows ≡ none → find key k (filter keep rows) ≡ none
    unfolding find filter
    find-filter-none [] h = refl
    find-filter-none (a ∷ rows) h = elim (Bool-cases (key a == k)) [
      | inl here ↦ let h' : some a ≡ none = rw here at h in cc
      | inr there ↦
          let ih = find-filter-none rows (rw there at h) in
          elim (Bool-cases (keep a)) [ inl yes' ↦ rw (yes', there) ih | inr no' ↦ rw no' ih ]
    ]

    pub find-filter_kept :
        (rows : List A) {row : A}
        → find key k rows ≡ some row
        → keep row ≡ true
        → find key k (filter keep rows) ≡ some row
    unfolding find filter
    find-filter_kept [] h kept = cc
    find-filter_kept (a ∷ rows) {row} h kept = elim (Bool-cases (key a == k)) [
      | inl here ↦
          let e : some a ≡ some row = rw here at h in
          let e' : a ≡ row = cc in
          let kept' = subst (λ x. keep x ≡ true) (sym e') kept in rw (kept', here) e
      | inr there ↦
          let ih = find-filter_kept rows (rw there at h) kept in
          elim (Bool-cases (keep a)) [ inl yes' ↦ rw (yes', there) ih | inr no' ↦ rw no' ih ]
    ]

    pub find-filter_dropped :
        (rows : List A) {row : A}
        → Unique key rows
        → find key k rows ≡ some row
        → keep row ≡ false
        → find key k (filter keep rows) ≡ none
    unfolding find filter
    find-filter_dropped [] u h dropped = cc
    find-filter_dropped (a ∷ rows) {row} (apart, u) h dropped = elim (Bool-cases (key a == k)) [
      | inl here ↦
          let e : some a ≡ some row = rw here at h in
          let e' : a ≡ row = cc in
          let dropped' = subst (λ x. keep x ≡ false) (sym e') dropped in
          let same = (==_iff (key a) k).0 here in
          rw dropped' (
            find-filter-none rows
              (find-apart k rows (subst (λ x. All (λ q. key q ≢ x) rows) same apart)))
      | inr there ↦
          let ih = find-filter_dropped rows u (rw there at h) dropped in
          elim (Bool-cases (keep a)) [ inl yes' ↦ rw (yes', there) ih | inr no' ↦ rw no' ih ]
    ]
