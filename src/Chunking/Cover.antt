-- ===== src/Chunking/Cover.antt =====
-- What a chunker promises of the token ranges of its chunks.
use note_rag.Base.{ℕ, ◌+◌, ◌-◌, ◌≤◌, ◌<◌, ◌≡◌, List, [], ◌∷◌, arith, All}

abbrev pub Range : Type 0
Range = ℕ × ℕ

-- From the token `e` on, the ranges run to `n` without a gap: each starts `overlap` tokens before
-- the end of the one before it (or at 0), adds a token at least, and has `size` tokens at most.
abbrev pub Covers : ℕ → ℕ → ℕ → ℕ → List Range → Type 0
Covers size overlap n e [] = e ≡ n
Covers size overlap n e (r ∷ rs) =
    (r.0 ≡ e - overlap) × (e < r.1) × (r.1 ≤ r.0 + size) × Covers size overlap n r.1 rs

abbrev pub Fits : ℕ → Range → Type 0
Fits n r = (r.0 < r.1) × (r.1 ≤ n)

module _ (size overlap n : ℕ) where
  pub Covers-le : (e : ℕ) (rs : List Range) → Covers size overlap n e rs → e ≤ n
  Covers-le e [] h = omega arith
  Covers-le e (r ∷ rs) (a, b, c, d) = omega (arith, Covers-le r.1 rs d)

  pub Covers-Fits : (e : ℕ) (rs : List Range) → Covers size overlap n e rs → All (Fits n) rs
  Covers-Fits e [] h = tt
  Covers-Fits e (r ∷ rs) (a, b, c, d) = ((omega arith, Covers-le r.1 rs d), Covers-Fits r.1 rs d)
