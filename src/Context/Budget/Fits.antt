-- ===== src/Context/Budget/Fits.antt =====
-- context/service.py: what `_fit_budget` returns.
use mathlib.Core.List.{append_assoc, append-nil}
use note_rag.Base.{
  ℕ, zero, suc, ◌+◌, ◌-◌, ◌≤◌, ◌<◌, ◌≡◌, ◌≢◌, ◌⊎◌, ◌∙◌, refl, ap, sym, Bool, true, false, List, [],
  ◌∷◌, ◌++◌, ◌||◌, length, take, drop, slice, get_elem?-lt, leb, ◌==◌, leb→le, leb→lt, arith,
  Bool-cases, inl, inr,
}
use note_rag.Base.Result.{Result, ok, raise, ◌>>=◌}
use note_rag.Chunking.Tokens.{Text, CharClass, tokenize, count}
use note_rag.Chunking.Models.{Error}
use note_rag.Chunking.Build.{or_index_error}
use note_rag.Persistence.Models.{Metadata}
use note_rag.Context.Models.{ScoredHit, ContextChunk}
use note_rag.Context.Budget.{
  truncate, to_chunk, prefix, append_hit, available, fit_from, fit_budget,
}
use note_rag.Context.Budget.Counting.{count-append}
use note_rag.Context.Budget.Prefix.{count-slice-end}

-- The text begins with `t`.
abbrev pub Begins : Text → Text → Type 0
Begins t text = (rest : Text) × (t ++ rest ≡ text)

-- The chunk cites the hit under the number `n + 1`: in full, or cut at its end.
abbrev pub IsCitation : CharClass → ℕ → ContextChunk → ScoredHit → Type 0
IsCitation k n c h =
    (c.citation_id ≡ n + 1)
    × (c.chunk_id ≡ h.hit.chunk_id)
    × (c.token_count ≡ count k c.text)
    × (c.text ≢ [])
    × Begins c.text h.hit.text
    × ((c.truncated ≡ true) ⊎ (c.text ≡ h.hit.text))

-- The chunks cite the first hits in their order, and only the last may be cut.
abbrev pub Cites : CharClass → ℕ → List ContextChunk → List ScoredHit → Type 0
Cites k n [] hits = Unit
Cites k n (c ∷ cs) [] = ⊥
Cites k n (c ∷ cs) (h ∷ hs) =
    IsCitation k n c h × ((c.truncated ≡ false) ⊎ (cs ≡ [])) × Cites k (n + 1) cs hs

-- What the chunks add to the text.
abbrev pub written : (Metadata → Text) → ℕ → List ContextChunk → List ScoredHit → Text
written dumps n [] hits = []
written dumps n (c ∷ cs) [] = []
written dumps n (c ∷ cs) (h ∷ hs) = prefix dumps n h.hit ++ c.text ++ written dumps (n + 1) cs hs

module _ (k : CharClass) where
  -- `truncate` of a text, to `budget` tokens.
  abbrev IsTruncated : Text → ℕ → Text × ℕ × Bool → Type 0
  IsTruncated text budget (t, tokens, cut) =
      (tokens ≡ count k t) × (tokens ≤ budget) × Begins t text × ((cut ≡ true) ⊎ (t ≡ text))

  slice-Begins : (end : ℕ) (text : Text) → Begins (slice text 0 end) text
  unfolding slice
  slice-Begins end text = (drop (end - 0) text, take_drop (end - 0) text)
    where
      take_drop : (n : ℕ) (xs : Text) → take n xs ++ drop n xs ≡ xs
      take_drop zero xs = refl
      take_drop (suc n) [] = refl
      take_drop (suc n) (x ∷ xs) = ap (◌∷◌ x) (take_drop n xs)

  truncate-IsTruncated :
      (text : Text) (budget : ℕ)
      → 0 < budget
      → (r : Text × ℕ × Bool) × (truncate k text budget ≡ ok r) × IsTruncated text budget r
  unfolding truncate or_index_error count
  truncate-IsTruncated text budget h =
      let tokens = tokenize k text in
      elim (Bool-cases (leb (length tokens) budget)) [
        | inl fits ↦ (
          (text, length tokens, false),
          rw fits refl,
          (refl, leb→le (length tokens) budget fits, ([], append-nil _), inr refl),
        )
        | inr over ↦
            let (last, e) =
              get_elem?-lt tokens (budget - 1)
                (omega (arith, leb→lt (length tokens) budget over)) in
            let ne : (budget == 0) ≡ false = ground arith in
            let full : suc (budget - 1) ≡ budget = omega arith in
            (
              (slice text 0 last.end, budget, true),
              rw (over, ne, e) refl,
              (
                sym (count-slice-end k text (budget - 1) e ∙ full),
                omega arith,
                slice-Begins last.end text,
                inl refl,
              ),
            )
      ]

append-written : (r p t w : Text) → r ++ p ++ t ++ w ≡ r ++ (p ++ t ++ w)
append-written r p t w = simp append_assoc refl

append-last : (r p t : Text) → r ++ p ++ t ≡ r ++ (p ++ t ++ [])
append-last r p t = sym (append-nil _) ∙ append-written r p t []

module _ (k : CharClass) (dumps : Metadata → Text) (max_chunks max_context_tokens : ℕ) where
  -- The loop returns from `n` chunks and `rendered`: the chunks that follow and the whole text.
  abbrev pub IsFit : ℕ → Text → List ScoredHit → Result Error (List ContextChunk × Text) → Type 0
  IsFit n rendered hits (raise e) = ⊥
  IsFit n rendered hits (ok (chunks, text)) =
      (n + length chunks ≤ max_chunks)
      × (count k text ≤ max_context_tokens)
      × Cites k n chunks hits
      × (text ≡ rendered ++ written dumps n chunks hits)

  stop-IsFit :
      (n : ℕ) (rendered : Text) (hits : List ScoredHit)
      → n ≤ max_chunks
      → count k rendered ≤ max_context_tokens
      → IsFit n rendered hits (ok ([], rendered))
  stop-IsFit n rendered hits few small = (omega arith, small, tt, sym (append-nil _))

  append-IsFit :
      (n : ℕ) (rendered : Text) (item : ScoredHit) (items : List ScoredHit) (c : ContextChunk)
      → IsCitation k n c item
      → c.truncated ≡ false
      → (r : Result Error (List ContextChunk × Text))
      → IsFit (n + 1) (rendered ++ prefix dumps n item.hit ++ c.text) items r
      → IsFit n rendered (item ∷ items) (r >>= λ later. ok (c ∷ later.0, later.1))
  append-IsFit n rendered item items c cites whole (raise e) fit = fit
  append-IsFit n rendered item items c cites whole (ok (chunks, text)) (few, small, all, e) = (
    omega arith,
    small,
    (cites, inl whole, all),
    e
        ∙ append-written rendered (prefix dumps n item.hit) c.text
            (written dumps (n + 1) chunks items),
  )

  within_budget :
      (n : ℕ) (rendered : Text) (item : ScoredHit) (t : Text)
      → count k rendered ≤ max_context_tokens
      → 0 < available k dumps max_chunks max_context_tokens n rendered item.hit
      → count k t ≤ available k dumps max_chunks max_context_tokens n rendered item.hit
      → count k (rendered ++ prefix dumps n item.hit ++ t) ≤ max_context_tokens
  unfolding available
  within_budget n rendered item t small room within = omega (
    arith,
    count-append k (rendered ++ prefix dumps n item.hit) t,
    count-append k rendered (prefix dumps n item.hit),
  )

  append_hit-IsFit :
      (n : ℕ) (rendered : Text) (item : ScoredHit) (items : List ScoredHit)
      (next : Text → Result Error (List ContextChunk × Text)) (r : Text × ℕ × Bool)
      → n < max_chunks
      → count k rendered ≤ max_context_tokens
      → IsTruncated k item.hit.text
          (available k dumps max_chunks max_context_tokens n rendered item.hit)
          r
      → 0 < available k dumps max_chunks max_context_tokens n rendered item.hit
      → (count k (rendered ++ prefix dumps n item.hit ++ r.0) ≤ max_context_tokens
          → IsFit
              (n + 1)
              (rendered ++ prefix dumps n item.hit ++ r.0)
              items
              (next (rendered ++ prefix dumps n item.hit ++ r.0)))
      → IsFit n rendered
          (item ∷ items)
          (append_hit n rendered (prefix dumps n item.hit) item next r)
  unfolding append_hit available to_chunk
  append_hit-IsFit n rendered item items next ([], tokens, cut) few small t room later =
      stop-IsFit n rendered (item ∷ items) (omega arith) small
  append_hit-IsFit n rendered item items next (c ∷ cs, tokens, true) few small
        (counted, within, begins, whole) room later =
      (
        omega arith,
        within_budget n rendered item (c ∷ cs) small room (omega (arith, counted)),
        ((refl, refl, counted, (λ e. cc), begins, whole), inr refl, tt),
        append-last rendered (prefix dumps n item.hit) (c ∷ cs),
      )
  append_hit-IsFit n rendered item items next (c ∷ cs, tokens, false) few small
        (counted, within, begins, whole) room later =
      append-IsFit n rendered item items _ (refl, refl, counted, (λ e. cc), begins, whole) refl _
        (later (within_budget n rendered item (c ∷ cs) small room (omega (arith, counted))))

  fit_from-IsFit :
      (n : ℕ) (rendered : Text) (hits : List ScoredHit)
      → n ≤ max_chunks
      → count k rendered ≤ max_context_tokens
      → IsFit n rendered hits (fit_from k dumps max_chunks max_context_tokens n rendered hits)
  unfolding fit_from
  fit_from-IsFit n rendered [] few small = stop-IsFit n rendered [] few small
  fit_from-IsFit n rendered (item ∷ items) few small =
      let room = available k dumps max_chunks max_context_tokens n rendered item.hit in
      elim (Bool-cases (leb max_chunks n || room == 0)) [
        | inl stop ↦ rw stop (stop-IsFit n rendered (item ∷ items) few small)
        | inr go ↦
            let below : n < max_chunks = ground arith in
            let room_left : 0 < room = ground arith in
            let (r, e, t) = truncate-IsTruncated k item.hit.text room room_left in
            rw (go, e)
              (append_hit-IsFit n rendered item items
                (λ rendered'.
                  fit_from k dumps max_chunks max_context_tokens (n + 1) rendered' items)
                r below small t room_left (fit_from-IsFit (n + 1) _ items (omega arith)))
      ]

-- The loop of `_fit_budget` never raises. Its chunks number at most `max_chunks`, they cite the
-- first hits in order by the numbers from 1, each with the count of its own tokens, and only the
-- last may be cut; the text is theirs, each after its prefix, and has no more tokens than
-- `max_context_tokens`.
pub fit_budget-IsFit :
    (k : CharClass) (dumps : Metadata → Text) (max_chunks max_context_tokens : ℕ)
    (hits : List ScoredHit)
    → IsFit k dumps max_chunks max_context_tokens 0 [] hits
        (fit_budget k dumps max_chunks max_context_tokens hits)
unfolding fit_budget count
fit_budget-IsFit k dumps max_chunks max_context_tokens hits =
    fit_from-IsFit k dumps max_chunks max_context_tokens 0 [] hits (omega arith) (omega arith)
