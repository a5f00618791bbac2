-- ===== src/Base/Sorting.antt =====
-- `sorted` and `list.sort`: stable, by a strict order of the keys; which lists sort to the same.
use mathlib.Core.Path.{◌≡◌, refl, sym, ap, ◌∙◌}
use mathlib.Core.Logic.{inl, inr}
use mathlib.Core.Bool.{Bool, true, false}
use mathlib.Core.Option.{Option, none, some}
use mathlib.Core.List.{List, [], ◌∷◌, Permᴰ}
use mathlib.Core.List.Permᴰ
use mathlib.Core.List.{Memᴰ}
use Prim.Native.Nat.{suc}
use note_rag.Base.Tests.{if◌then◌else◌, Bool-cases}
use note_rag.Base.Lists.{length}

pub mem-perm {ℓ} : {A : Type ℓ} {a : A} {xs ys : List A} → Permᴰ xs ys → Memᴰ a xs → Memᴰ a ys
mem-perm Permᴰ.nil m = m
mem-perm (Permᴰ.cons e d) (Memᴰ.head h) = Memᴰ.head (h ∙ e)
mem-perm (Permᴰ.cons e d) (Memᴰ.tail m) = Memᴰ.tail (mem-perm d m)
mem-perm (Permᴰ.swap e d) (Memᴰ.head h) = Memᴰ.tail (Memᴰ.head (h ∙ e))
mem-perm (Permᴰ.swap e d) (Memᴰ.tail (Memᴰ.head h)) = Memᴰ.head (h ∙ d)
mem-perm (Permᴰ.swap e d) (Memᴰ.tail (Memᴰ.tail m)) = Memᴰ.tail (Memᴰ.tail m)
mem-perm (Permᴰ.trans d d') m = mem-perm d' (mem-perm d m)

-- The tests of a strict order: what is not before is not after, and an element that is not before
-- another is before whatever the other is before.
pub record IsOrder {ℓ} {A : Type ℓ} (before : A → A → Bool) : Type ℓ where
  pub asym : (a b : A) → before a b ≡ true → before b a ≡ false
  pub below : (a x b : A) → before x a ≡ true → before x b ≡ false → before b a ≡ true

module _ {ℓ} {A : Type ℓ} (before : A → A → Bool) where
  unfoldable pub insert_by : A → List A → List A
  insert_by a [] = a ∷ []
  insert_by a (b ∷ bs) = let later = b ∷ insert_by a bs in if before b a then later else a ∷ b ∷ bs

  unfoldable pub sort_by : List A → List A
  unfolding insert_by
  sort_by [] = []
  sort_by (a ∷ as') = insert_by a (sort_by as')

  unfoldable pub or_least : A → Option A → Option A
  or_least a none = some a
  or_least a (some b) = some (if before b a then b else a)

  -- The first, in this order, of the elements that pass a test: a query with `LIMIT 1`.
  unfoldable pub first_by : (A → Bool) → List A → Option A
  unfolding or_least
  first_by keep [] = none
  first_by keep (a ∷ as') = let rest = first_by keep as' in if keep a then or_least a rest else rest

  pub length-insert_by : (a : A) (bs : List A) → length (insert_by a bs) ≡ suc (length bs)
  unfolding insert_by
  length-insert_by a [] = refl
  length-insert_by a (b ∷ bs) = elim (Bool-cases (before b a)) [
    | inl after ↦ rw after (ap suc (length-insert_by a bs))
    | inr here ↦ rw here refl
  ]

  pub length-sort_by : (as' : List A) → length (sort_by as') ≡ length as'
  unfolding sort_by
  length-sort_by [] = refl
  length-sort_by (a ∷ as') = length-insert_by a (sort_by as') ∙ ap suc (length-sort_by as')

  pub insert_by-perm : (a : A) (bs : List A) → Permᴰ (insert_by a bs) (a ∷ bs)
  unfolding insert_by
  insert_by-perm a [] = Permᴰ.refl (a ∷ [])
  insert_by-perm a (b ∷ bs) = elim (Bool-cases (before b a)) [
    | inl after ↦
        rw after (Permᴰ.trans (Permᴰ.cons refl (insert_by-perm a bs)) (Permᴰ.swap refl refl))
    | inr here ↦ rw here (Permᴰ.refl (a ∷ b ∷ bs))
  ]

  pub sort_by-perm : (as' : List A) → Permᴰ (sort_by as') as'
  unfolding sort_by
  sort_by-perm [] = Permᴰ.nil
  sort_by-perm (a ∷ as') =
      Permᴰ.trans (insert_by-perm a (sort_by as')) (Permᴰ.cons refl (sort_by-perm as'))

  -- Where neither of two elements is before the other, they are one.
  abbrev pub Ties : A → A → Type ℓ
  Ties a b = before a b ≡ false → before b a ≡ false → a ≡ b

  module _ (order : IsOrder before) where
    pair :
        (a b : A) (bs : List A)
        → Ties a b
        → (if before b a then b ∷ a ∷ bs else a ∷ b ∷ bs)
          ≡ (if before a b then a ∷ b ∷ bs else b ∷ a ∷ bs)
    pair a b bs tie = elim (Bool-cases (before b a)) [
      | inl yes' ↦ rw (yes', order.asym b a yes') refl
      | inr no' ↦ elim (Bool-cases (before a b)) [
        | inl yes' ↦ rw (no', yes') refl
        | inr no'' ↦ rw (no', no'') (cc (tie no'' no'))
      ]
    ]

    after : (a x : A) (xs : List A) → before x a ≡ true → insert_by a (x ∷ xs) ≡ x ∷ insert_by a xs
    unfolding insert_by
    after a x xs h = rw h refl

    here : (a x : A) (xs : List A) → before x a ≡ false → insert_by a (x ∷ xs) ≡ a ∷ x ∷ xs
    unfolding insert_by
    here a x xs h = rw h refl

    -- One of them goes behind `x`, and so in front of it goes the other.
    split :
        (a b x : A) (xs : List A)
        → before x a ≡ true
        → before x b ≡ false
        → insert_by a (insert_by b (x ∷ xs)) ≡ insert_by b (insert_by a (x ∷ xs))
    split a b x xs xa xb =
        ap (insert_by a) (here b x xs xb)
        ∙ after a b (x ∷ xs) (order.below a x b xa xb)
        ∙ ap (◌∷◌ b) (after a x xs xa)
        ∙ sym (here b x (insert_by a xs) xb)
        ∙ sym (ap (insert_by b) (after a x xs xa))

    insert_by_comm :
        (a b : A) (bs : List A)
        → Ties a b
        → insert_by a (insert_by b bs) ≡ insert_by b (insert_by a bs)
    unfolding insert_by
    insert_by_comm a b [] tie = pair a b [] tie
    insert_by_comm a b (x ∷ xs) tie = elim (Bool-cases (before x a)) [
      | inl xa ↦ elim (Bool-cases (before x b)) [
        | inl xb ↦
            ap (insert_by a) (after b x xs xb)
            ∙ after a x (insert_by b xs) xa
            ∙ ap (◌∷◌ x) (insert_by_comm a b xs tie)
            ∙ sym (after b x (insert_by a xs) xb)
            ∙ sym (ap (insert_by b) (after a x xs xa))
        | inr xb ↦ split a b x xs xa xb
      ]
      | inr xa ↦ elim (Bool-cases (before x b)) [
        | inl xb ↦ sym (split b a x xs xb xa)
        | inr xb ↦
            ap (insert_by a) (here b x xs xb)
            ∙ front a b x xs xa xb tie
            ∙ sym (ap (insert_by b) (here a x xs xa))
      ]
    ]
      where
        front :
            (a b x : A) (xs : List A)
            → before x a ≡ false
            → before x b ≡ false
            → Ties a b
            → insert_by a (b ∷ x ∷ xs) ≡ insert_by b (a ∷ x ∷ xs)
        front a b x xs xa xb tie = rw (here a x xs xa, here b x xs xb) (pair a b (x ∷ xs) tie)

    -- Lists with the same elements sort to the same list, if in them ties are between equals.
    pub sort_by-eq_of_perm :
        {xs ys : List A}
        → Permᴰ xs ys
        → ((a b : A) → Memᴰ a xs → Memᴰ b xs → Ties a b)
        → sort_by xs ≡ sort_by ys
    unfolding sort_by
    sort_by-eq_of_perm Permᴰ.nil ties = refl
    sort_by-eq_of_perm (Permᴰ.cons {a} {b} {l₁} {l₂} e d) ties =
        ap (insert_by a) (sort_by-eq_of_perm d (λ x y m n. ties x y (Memᴰ.tail m) (Memᴰ.tail n)))
        ∙ ap (λ x. insert_by x (sort_by l₂)) e
    sort_by-eq_of_perm (Permᴰ.swap {a} {b} {a'} {b'} {l} e d) ties =
        insert_by_comm a b (sort_by l) (ties a b (Memᴰ.head refl) (Memᴰ.tail (Memᴰ.head refl)))
        ∙ ap (λ x. insert_by x (insert_by a (sort_by l))) d
        ∙ ap (λ x. insert_by a' (insert_by x (sort_by l))) e
    sort_by-eq_of_perm (Permᴰ.trans {l₁} {l₂} {l₃} d d') ties =
        sort_by-eq_of_perm d ties
        ∙ sort_by-eq_of_perm d'
            (λ x y m n. ties x y (mem-perm (Permᴰ.symm d) m) (mem-perm (Permᴰ.symm d) n))
