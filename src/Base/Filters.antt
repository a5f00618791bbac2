-- ===== src/Base/Filters.antt =====
-- Lists with the elements that pass a test, and with an element put in.
use mathlib.Core.Path.{◌≡◌, refl, ap, ◌∙◌}
use mathlib.Core.Logic.{inl, inr}
use mathlib.Core.Bool.{Bool, true, false}
use mathlib.Core.List.{List, [], ◌∷◌, map, Permᴰ, Memᴰ}
use mathlib.Core.List.Permᴰ
use mathlib.Core.List.Memᴰ
use Prim.Native.Nat.{ℕ, zero, suc}
use note_rag.Base.Tests.{if◌then◌else◌, Bool-cases}
use note_rag.Base.Lists.{All}

module _ {ℓ} {A : Type ℓ} where
  unfoldable pub filter : (A → Bool) → List A → List A
  filter keep [] = []
  filter keep (x ∷ xs) = let rest = filter keep xs in if keep x then x ∷ rest else rest

  -- `list.insert`
  unfoldable pub insert_at : ℕ → A → List A → List A
  insert_at zero a xs = a ∷ xs
  insert_at (suc n) a [] = a ∷ []
  insert_at (suc n) a (x ∷ xs) = x ∷ insert_at n a xs

  pub filter-cons_true :
      (keep : A → Bool) (x : A) (xs : List A)
      → keep x ≡ true
      → filter keep (x ∷ xs) ≡ x ∷ filter keep xs
  unfolding filter
  filter-cons_true keep x xs h = rw h refl

  pub filter-cons_false :
      (keep : A → Bool) (x : A) (xs : List A)
      → keep x ≡ false
      → filter keep (x ∷ xs) ≡ filter keep xs
  unfolding filter
  filter-cons_false keep x xs h = rw h refl

  -- A change that the test does not see commutes with the choice.
  pub filter-map :
      (keep : A → Bool) (f : A → A) (xs : List A)
      → ((x : A) → keep (f x) ≡ keep x)
      → filter keep (map f xs) ≡ map f (filter keep xs)
  unfolding filter
  filter-map keep f [] same = refl
  filter-map keep f (x ∷ xs) same = elim (Bool-cases (keep x)) [
    | inl h ↦ rw (same x, h) (ap (◌∷◌ (f x)) (filter-map keep f xs same))
    | inr h ↦ rw (same x, h) (filter-map keep f xs same)
  ]

  pub filter-eq :
      (keep keep' : A → Bool) (xs : List A)
      → ((x : A) → keep x ≡ keep' x)
      → filter keep xs ≡ filter keep' xs
  unfolding filter
  filter-eq keep keep' [] same = refl
  filter-eq keep keep' (x ∷ xs) same = elim (Bool-cases (keep' x)) [
    | inl h ↦ rw (same x, h) (ap (◌∷◌ x) (filter-eq keep keep' xs same))
    | inr h ↦ rw (same x, h) (filter-eq keep keep' xs same)
  ]

  -- What is chosen is in the list and passes the test.
  pub mem-filter :
      (keep : A → Bool) {a : A} (xs : List A)
      → Memᴰ a (filter keep xs)
      → Memᴰ a xs × (keep a ≡ true)
  unfolding filter
  mem-filter keep [] m = absurd (Memᴰ.not-nil m)
  mem-filter keep {a} (x ∷ xs) m = elim (Bool-cases (keep x)) [
    | inl h ↦ kept (λ m'. mem-filter keep xs m') h (rw h at m)
    | inr h ↦ let ih = mem-filter keep xs (rw h at m) in (Memᴰ.tail ih.0, ih.1)
  ]
    where
      kept :
          (Memᴰ a (filter keep xs) → Memᴰ a xs × (keep a ≡ true))
          → keep x ≡ true
          → Memᴰ a (x ∷ filter keep xs)
          → Memᴰ a (x ∷ xs) × (keep a ≡ true)
      kept ih h (Memᴰ.head e) = (Memᴰ.head e, ap keep e ∙ h)
      kept ih h (Memᴰ.tail m') = (Memᴰ.tail (ih m').0, (ih m').1)

  pub All-filter {κ} :
      (P : A → Type κ) (keep : A → Bool) (xs : List A) → All P xs → All P (filter keep xs)
  unfolding filter
  All-filter P keep [] all = tt
  All-filter P keep (x ∷ xs) (one, all) = elim (Bool-cases (keep x)) [
    | inl h ↦ rw h (one, All-filter P keep xs all)
    | inr h ↦ rw h (All-filter P keep xs all)
  ]

  pub All-mem_all {κ} : (P : A → Type κ) (xs : List A) → ((x : A) → Memᴰ x xs → P x) → All P xs
  All-mem_all P [] f = tt
  All-mem_all P (x ∷ xs) f = (f x (Memᴰ.head refl), All-mem_all P xs (λ y m. f y (Memᴰ.tail m)))

  pub map-map : (f g : A → A) (xs : List A) → map g (map f xs) ≡ map (λ x. g (f x)) xs
  map-map f g [] = refl
  map-map f g (x ∷ xs) = ap (◌∷◌ (g (f x))) (map-map f g xs)

  pub map-eq_of_All : (f g : A → A) (xs : List A) → All (λ x. f x ≡ g x) xs → map f xs ≡ map g xs
  map-eq_of_All f g [] all = refl
  map-eq_of_All f g (x ∷ xs) (e, all) = cc (e, map-eq_of_All f g xs all)

  pub map_id : (xs : List A) → map (λ x. x) xs ≡ xs
  map_id [] = refl
  map_id (x ∷ xs) = ap (◌∷◌ x) (map_id xs)

  pub insert_at-perm : (n : ℕ) (a : A) (xs : List A) → Permᴰ (insert_at n a xs) (a ∷ xs)
  unfolding insert_at
  insert_at-perm zero a xs = Permᴰ.refl (a ∷ xs)
  insert_at-perm (suc n) a [] = Permᴰ.refl (a ∷ [])
  insert_at-perm (suc n) a (x ∷ xs) =
      Permᴰ.trans (Permᴰ.cons refl (insert_at-perm n a xs)) (Permᴰ.swap refl refl)
