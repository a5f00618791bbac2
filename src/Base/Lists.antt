-- ===== src/Base/Lists.antt =====
-- Lists measured and indexed by native numbers, under the library's names.
use Prim.Native.Nat.{ℕ, zero, suc, ◌+◌, ◌-◌, ◌≤◌, ◌<◌, min}
use mathlib.Core.Path.{◌≡◌, refl, ap, ◌∙◌, subst}
use mathlib.Core.List.{List, [], ◌∷◌, ◌++◌, map}
use mathlib.Core.Option.{Option, none, some}
use native.Mathlib.Omega.{arith}

module _ {ℓ} {A : Type ℓ} where
  abbrev pub length : List A → ℕ
  length [] = 0
  length (x ∷ xs) = suc (length xs)

  abbrev pub get_elem? : List A → ℕ → Option A
  get_elem? [] i = none
  get_elem? (x ∷ xs) zero = some x
  get_elem? (x ∷ xs) (suc i) = get_elem? xs i

  abbrev pub take : ℕ → List A → List A
  take zero xs = []
  take (suc n) [] = []
  take (suc n) (x ∷ xs) = x ∷ take n xs

  abbrev pub drop : ℕ → List A → List A
  drop zero xs = xs
  drop (suc n) [] = []
  drop (suc n) (x ∷ xs) = drop n xs

  -- `xs[-1]`
  abbrev pub get_last? : List A → Option A
  get_last? [] = none
  get_last? (x ∷ []) = some x
  get_last? (x ∷ y ∷ xs) = get_last? (y ∷ xs)

  abbrev pub All {κ} : (A → Type κ) → List A → Type κ
  All P [] = Unit
  All P (x ∷ xs) = P x × All P xs

  pub length-append : (xs ys : List A) → length (xs ++ ys) ≡ length xs + length ys
  length-append [] ys = omega arith
  length-append (x ∷ xs) ys = omega (arith, length-append xs ys)

  pub length-take : (n : ℕ) (xs : List A) → length (take n xs) ≡ min n (length xs)
  length-take zero xs = omega arith
  length-take (suc n) [] = omega arith
  length-take (suc n) (x ∷ xs) = omega (arith, length-take n xs)

  pub length-drop : (n : ℕ) (xs : List A) → length (drop n xs) ≡ length xs - n
  length-drop zero xs = omega arith
  length-drop (suc n) [] = omega arith
  length-drop (suc n) (x ∷ xs) = omega (arith, length-drop n xs)

  pub get_elem?-drop : (n i : ℕ) (xs : List A) → get_elem? (drop n xs) i ≡ get_elem? xs (n + i)
  get_elem?-drop zero i xs = ap (get_elem? xs) (omega arith)
  get_elem?-drop (suc n) i [] = refl
  get_elem?-drop (suc n) i (x ∷ xs) =
      let e : suc n + i ≡ suc (n + i) = omega arith in rw e (get_elem?-drop n i xs)

  pub get_elem?-lt : (xs : List A) (i : ℕ) → i < length xs → (x : A) × (get_elem? xs i ≡ some x)
  get_elem?-lt [] i h = elim h [ ]
  get_elem?-lt (x ∷ xs) zero h = (x, refl)
  get_elem?-lt (x ∷ xs) (suc i) h = get_elem?-lt xs i (omega arith)

  pub All-append {κ} : (P : A → Type κ) (xs ys : List A) → All P xs → All P ys → All P (xs ++ ys)
  All-append P [] ys h k = k
  All-append P (x ∷ xs) ys h k = (h.0, All-append P xs ys h.1 k)

  pub All-get_elem? {κ} :
      (P : A → Type κ) (xs : List A) (i : ℕ) {x : A} → All P xs → get_elem? xs i ≡ some x → P x
  All-get_elem? P [] i h e = cc
  All-get_elem? P (y ∷ xs) zero h e = subst P (cc) h.0
  All-get_elem? P (y ∷ xs) (suc i) h e = All-get_elem? P xs i h.1 e

  pub All-map {κ μ} :
      {P : A → Type κ} {Q : A → Type μ} (xs : List A) → ((x : A) → P x → Q x) → All P xs → All Q xs
  All-map [] f h = tt
  All-map (x ∷ xs) f h = (f x h.0, All-map xs f h.1)

  drop-nil : (n : ℕ) → drop n [] ≡ []
  drop-nil zero = refl
  drop-nil (suc n) = refl

  -- The element at the end of a prefix.
  pub drop-suc :
      (n : ℕ) (xs : List A) {x : A} {r : List A} → drop n xs ≡ x ∷ r → drop (suc n) xs ≡ r
  drop-suc zero [] h = cc
  drop-suc zero (y ∷ xs) h = cc
  drop-suc (suc n) [] h = cc
  drop-suc (suc n) (y ∷ xs) h = drop-suc n xs h

  pub length-drop_cons :
      (n : ℕ) (xs : List A) {x : A} {r : List A} → drop n xs ≡ x ∷ r → n < length xs
  length-drop_cons zero [] h = cc
  length-drop_cons zero (y ∷ xs) h = omega arith
  length-drop_cons (suc n) [] h = cc
  length-drop_cons (suc n) (y ∷ xs) h = omega (arith, length-drop_cons n xs h)

  pub take-suc :
      (n m : ℕ) (xs : List A) {x : A} {r : List A}
      → drop (n + m) xs ≡ x ∷ r
      → take (suc m) (drop n xs) ≡ take m (drop n xs) ++ x ∷ []
  take-suc zero m xs h = take_last m xs (let e : zero + m ≡ m = omega arith in rw e at h)
    where
      take_last :
          (m : ℕ) (xs : List A) {x : A} {r : List A}
          → drop m xs ≡ x ∷ r
          → take (suc m) xs ≡ take m xs ++ x ∷ []
      take_last zero [] h = cc
      take_last zero (y ∷ xs) h = ground arith
      take_last (suc m) [] h = cc
      take_last (suc m) (y ∷ xs) h = ap (◌∷◌ y) (take_last m xs h)
  take-suc (suc n) m [] h = cc (drop-nil (suc n + m))
  take-suc (suc n) m (y ∷ xs) h =
      take-suc n m xs (let e : suc n + m ≡ suc (n + m) = omega arith in rw e at h)

  -- `xs[start:end]` for non-negative bounds
  unfoldable pub slice : List A → ℕ → ℕ → List A
  slice xs start end = take (end - start) (drop start xs)

  -- `xs[0]`
  abbrev pub head? : List A → Option A
  head? [] = none
  head? (x ∷ xs) = some x

  pub head?-take-drop : (m n : ℕ) (xs : List A) → head? (take (suc m) (drop n xs)) ≡ get_elem? xs n
  head?-take-drop m zero [] = refl
  head?-take-drop m zero (x ∷ xs) = refl
  head?-take-drop m (suc n) [] = refl
  head?-take-drop m (suc n) (x ∷ xs) = head?-take-drop m n xs

  pub get_last?-take :
      (m : ℕ) (xs : List A) → m < length xs → get_last? (take (suc m) xs) ≡ get_elem? xs m
  get_last?-take m [] h = elim h [ ]
  get_last?-take zero (x ∷ xs) h = refl
  get_last?-take (suc m) (x ∷ []) h = absurd (omega arith)
  get_last?-take (suc m) (x ∷ y ∷ xs) h = get_last?-take m (y ∷ xs) (omega arith)

  pub head?-slice : (xs : List A) (s e : ℕ) → s < e → head? (slice xs s e) ≡ get_elem? xs s
  unfolding slice
  head?-slice xs s e h =
      let p : e - s ≡ suc (e - s - 1) = omega arith in rw p (head?-take-drop (e - s - 1) s xs)

  pub get_last?-slice :
      (xs : List A) (s e : ℕ)
      → s < e
      → e ≤ length xs
      → get_last? (slice xs s e) ≡ get_elem? xs (e - 1)
  unfolding slice
  get_last?-slice xs s e h k =
      let p : e - s ≡ suc (e - s - 1) = omega arith in
      let q : s + (e - s - 1) ≡ e - 1 = omega arith in
      rw p (
        get_last?-take (e - s - 1) (drop s xs) (omega (arith, length-drop s xs))
        ∙ get_elem?-drop s (e - s - 1) xs
        ∙ ap (get_elem? xs) q)

  pub length-slice : (xs : List A) (s e : ℕ) → e ≤ length xs → length (slice xs s e) ≡ e - s
  unfolding slice
  length-slice xs s e h = omega (arith, length-take (e - s) (drop s xs), length-drop s xs)

module _ {ℓ κ} {A : Type ℓ} {B : Type κ} where
  pub length-map : (xs : List A) (f : A → B) → length (map f xs) ≡ length xs
  length-map [] f = refl
  length-map (x ∷ xs) f = ap suc (length-map xs f)
