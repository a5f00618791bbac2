-- ===== src/Chunking/Recursive/Packing.antt =====
-- chunking/recursive.py: `_pack` merges contiguous units into windows that cover the same range.
use note_rag.Base.{
  ℕ, ◌+◌, ◌-◌, ◌≤◌, ◌<◌, ◌≡◌, refl, List, [], ◌∷◌, leb, arith, Bool-cases, ==_iff, inl, inr,
}
use note_rag.Base.Result.{Result, ok}
use note_rag.Chunking.Models.{Error}
use note_rag.Chunking.Cover.{Range, Covers}
use note_rag.Chunking.Recursive.{pack_from, pack}
use note_rag.Chunking.Recursive.Units.{Chain}

module _ (size overlap n : ℕ) (allowed : overlap < size) where
  abbrev Packs : ℕ → Result Error (List Range) → Type 0
  Packs e r = (ps : List Range) × (r ≡ ok ps) × Covers size overlap n e ps

  pack_from-Covers :
      (us : List Range) (e current_start current_end : ℕ)
      → Chain (size - overlap) current_end n us
      → current_start ≡ e - overlap
      → e < current_end
      → current_end ≤ current_start + size
      → Packs e (pack_from size overlap current_start current_end us)
  unfolding pack_from
  pack_from-Covers [] e cs ce chain p q r = ((cs, ce) ∷ [], refl, (p, q, r, chain))
  pack_from-Covers ((us, ue) ∷ units) e cs ce (joins, grows, fits, chain) p q r =
      rw ((==_iff us ce).1 joins) (elim (Bool-cases (leb (ue - cs) size)) [
        | inl small ↦ rw small (pack_from-Covers units e cs ue chain p (omega arith) (ground arith))
        | inr full ↦
            let (ps, packed, covers) =
              pack_from-Covers units ce (ce - overlap) ue chain refl (omega arith) (omega arith) in
            rw (full, packed) ((cs, ce) ∷ ps, refl, (p, q, r, covers))
      ])

  -- Of units that run from 0 to `n`, `_pack` never raises, and the windows cover `[0, n)`.
  pub pack-Covers :
      (us : List Range) → 0 < n → Chain (size - overlap) 0 n us → Packs 0 (pack us size overlap)
  unfolding pack
  pack-Covers [] h chain = absurd (omega arith)
  pack-Covers ((s, e) ∷ units) h (starts, grows, fits, chain) =
      rw starts (pack_from-Covers units 0 0 e chain (omega arith) grows (omega arith))
