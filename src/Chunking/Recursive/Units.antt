-- ===== src/Chunking/Recursive/Units.antt =====
-- chunking/recursive.py: the units of `_split_range` are contiguous and within the budget.
use note_rag.Base.{
  ℕ, zero, suc, ◌+◌, ◌-◌, ◌≤◌, ◌<◌, ◌≡◌, refl, List, [], ◌∷◌, ◌++◌, All, map, length, leb, ltb,
  ◌==◌, arith, Bool-cases, inl, inr, ◌&&◌, if◌then◌else◌,
}
use note_rag.Chunking.Cover.{Range}
use note_rag.Chunking.Recursive.{
  between, neighbours, extend, stride, split_range, add, bisect_left, boundaries, boundary_levels,
}
use note_rag.Chunking.Tokens.{Text, Token}
use note_rag.Chunking.Separators.{Matcher, finditer}

-- The units run from `s` to `e` without a gap or an overlap, and each has from 1 to `budget` tokens.
abbrev pub Chain : ℕ → ℕ → ℕ → List Range → Type 0
Chain budget s e [] = s ≡ e
Chain budget s e (r ∷ rs) = (r.0 ≡ s) × (s < r.1) × (r.1 ≤ s + budget) × Chain budget r.1 e rs

-- Strictly increasing, and above `lo`.
abbrev pub Increasing : ℕ → List ℕ → Type 0
Increasing lo [] = Unit
Increasing lo (x ∷ xs) = (lo < x) × Increasing x xs

abbrev IsSplit : ℕ → (ℕ → ℕ → List Range) → Type 0
IsSplit budget f = (s e : ℕ) → s < e → Chain budget s e (f s e)

Increasing-weaken : (lo hi : ℕ) (xs : List ℕ) → lo ≤ hi → Increasing hi xs → Increasing lo xs
Increasing-weaken lo hi [] h i = tt
Increasing-weaken lo hi (x ∷ xs) h (a, i) = (omega arith, i)

between-Increasing :
    (s e lo : ℕ) (bs : List ℕ)
    → Increasing lo bs
    → Increasing s (between s e bs) × Increasing lo (between s e bs)
unfolding between
between-Increasing s e lo [] i = (tt, tt)
between-Increasing s e lo (b ∷ bs) (a, i) =
    let (x, y) = between-Increasing s e b bs i in
    elim (Bool-cases (ltb s b && ltb b e)) [
      | inl inside ↦ rw inside ((ground arith, y), (a, y))
      | inr outside ↦ rw outside (x, Increasing-weaken lo b _ (omega arith) y)
    ]

module _ (budget : ℕ) (positive : 0 < budget) where
  Chain-append :
      (s m e : ℕ) (xs ys : List Range)
      → Chain budget s m xs
      → Chain budget m e ys
      → Chain budget s e (xs ++ ys)
  Chain-append s m e [] ys p q = rw p q
  Chain-append s m e (r ∷ rs) ys (a, b, c, p) q = (a, b, c, Chain-append r.1 m e rs ys p q)

  stride_done : (fuel s e : ℕ) → e ≤ s → stride fuel budget s e ≡ []
  unfolding stride
  stride_done zero s e h = refl
  stride_done (suc fuel) s e h = ground arith

  stride-Chain : (fuel s e : ℕ) → s ≤ e → e ≤ s + fuel → Chain budget s e (stride fuel budget s e)
  unfolding stride
  stride-Chain zero s e h f = omega arith
  stride-Chain (suc fuel) s e h f =
      ground (arith, stride-Chain fuel (s + budget) e, stride_done fuel (s + budget) e)

  -- The points between `s` and `e` cut the range into pieces, which `f` splits.
  extend-Chain :
      (f : ℕ → ℕ → List Range) (s e : ℕ) (points : List ℕ)
      → IsSplit budget f
      → s < e
      → Increasing s points
      → All (λ b. b < e) points
      → Chain budget s e (extend f (neighbours (s ∷ (points ++ e ∷ []))))
  unfolding extend neighbours
  extend-Chain f s e [] split h i b = Chain-append s e e (f s e) [] (split s e h) refl
  extend-Chain f s e (p ∷ ps) split h (sp, i) (pe, b) =
      Chain-append s p e (f s p) _ (split s p sp) (extend-Chain f p e ps split pe i b)

  between-lt : (s e : ℕ) (bs : List ℕ) → All (λ b. b < e) (between s e bs)
  unfolding between
  between-lt s e [] = tt
  between-lt s e (b ∷ bs) = elim (Bool-cases (ltb s b && ltb b e)) [
    | inl inside ↦ rw inside (ground arith, between-lt s e bs)
    | inr outside ↦ rw outside (between-lt s e bs)
  ]

  -- Whatever the levels hold, as long as each is sorted, the units split the range in the budget.
  pub split_range-Chain :
      (levels : List (List ℕ)) (s e : ℕ)
      → All (Increasing 0) levels
      → s < e
      → Chain budget s e (split_range budget levels s e)
  unfolding split_range
  split_range-Chain [] s e i h = elim (Bool-cases (leb (e - s) budget)) [
    | inl fits ↦ rw fits (refl, h, ground arith, refl)
    | inr wide ↦ rw wide (stride-Chain (e - s) s e (omega arith) (omega arith))
  ]
  split_range-Chain (level ∷ levels) s e (i, is') h = elim (Bool-cases (leb (e - s) budget)) [
    | inl fits ↦ rw fits (refl, h, ground arith, refl)
    | inr wide ↦ rw wide (elim (Bool-cases (length (between s e level) == 0)) [
      | inl empty ↦ rw empty (split_range-Chain levels s e is' h)
      | inr some_inside ↦ rw some_inside (
          extend-Chain (split_range budget levels) s e (between s e level)
            (λ a b lt. split_range-Chain levels a b is' lt) h (between-Increasing s e 0 level i).0
            (between-lt s e level))
    ])
  ]

add-Increasing : (lo x : ℕ) (xs : List ℕ) → lo < x → Increasing lo xs → Increasing lo (add x xs)
unfolding add
add-Increasing lo x [] h i = (h, tt)
add-Increasing lo x (y ∷ ys) h (a, i) = ground (arith, add-Increasing y x ys)

-- Each boundary set is sorted, starts above 0, and lies below the count of tokens.
boundaries-Increasing :
    (starts : List ℕ) (matches : List (ℕ × ℕ)) → Increasing 0 (boundaries starts matches)
unfolding boundaries
boundaries-Increasing starts [] = tt
boundaries-Increasing starts ((s, e) ∷ ms) =
    let at : ℕ = bisect_left starts (if s == e then s else e) in
    elim (Bool-cases (ltb 0 at && ltb at (length starts))) [
      | inl inside ↦ rw inside (
          add-Increasing 0 at (boundaries starts ms) (ground arith)
            (boundaries-Increasing starts ms))
      | inr outside ↦ rw outside (boundaries-Increasing starts ms)
    ]

pub boundary_levels-Increasing :
    (text : Text) (tokens : List Token) (separators : List Matcher)
    → All (Increasing 0) (boundary_levels text tokens separators)
unfolding boundary_levels
boundary_levels-Increasing text tokens [] = tt
boundary_levels-Increasing text tokens (m ∷ ms) = (
  boundaries-Increasing (map (λ t. t.start) tokens) (finditer m text),
  boundary_levels-Increasing text tokens ms,
)
