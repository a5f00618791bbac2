-- ===== src/Chunking/Recursive.antt =====
-- chunking/recursive.py: `RecursiveChunker`.
pub mod Units
pub mod Packing
pub mod Sound
use note_rag.Base.{
  ℕ, zero, suc, ◌+◌, ◌-◌, ◌≤◌, ◌<◌, ◌≡◌, min, Bool, true, false, ◌&&◌, Option, List, [], ◌∷◌, ◌++◌,
  map, length, ltb, leb, ◌==◌, if◌then◌else◌,
}
use note_rag.Base.Result.{Result, ok, raise, ◌>>=◌}
use note_rag.Chunking.Tokens.{Text, CharClass, Token, tokenize}
use note_rag.Chunking.Models.{Error, index_error, assertion_error, Chunk, Settings}
use note_rag.Chunking.Cover.{Range}
use note_rag.Chunking.Build.{build}
use note_rag.Chunking.Separators.{Matcher, finditer, structural_separators}

-- `bisect.bisect_left` on a sorted list: how many elements lie before `x`.
unfoldable pub bisect_left : List ℕ → ℕ → ℕ
bisect_left [] x = 0
bisect_left (a ∷ as') x = if ltb a x then bisect_left as' x + 1 else 0

-- `set.add` on a set that is kept as its sorted tuple
unfoldable pub add : ℕ → List ℕ → List ℕ
add x [] = x ∷ []
add x (y ∷ ys) = if ltb x y then x ∷ y ∷ ys else if x == y then y ∷ ys else y ∷ add x ys

-- One level of `_boundary_levels`: the inner loop.
unfoldable pub boundaries : List ℕ → List (ℕ × ℕ) → List ℕ
unfolding bisect_left add
boundaries token_starts [] = []
boundaries token_starts ((start, end) ∷ rest) =
    let char_boundary = if start == end then start else end in
    let token_boundary = bisect_left token_starts char_boundary in
    let others = boundaries token_starts rest in
    if ltb 0 token_boundary && ltb token_boundary (length token_starts)
    then add token_boundary others
    else others

unfoldable pub boundary_levels : Text → List Token → List Matcher → List (List ℕ)
unfolding boundaries
boundary_levels text tokens separators =
    map (λ s. boundaries (map (λ t. t.start) tokens) (finditer s text)) separators

-- `[boundary for boundary in boundary_levels[level] if start < boundary < end]`
unfoldable pub between : ℕ → ℕ → List ℕ → List ℕ
between start end [] = []
between start end (b ∷ bs) =
    if ltb start b && ltb b end then b ∷ between start end bs else between start end bs

-- `zip(points, points[1:])`
unfoldable pub neighbours : List ℕ → List Range
neighbours [] = []
neighbours (p ∷ []) = []
neighbours (p ∷ q ∷ ps) = (p, q) ∷ neighbours (q ∷ ps)

-- `for ... in pieces: result.extend(f(piece))`
unfoldable pub extend : (ℕ → ℕ → List Range) → List Range → List Range
extend f [] = []
extend f ((s, e) ∷ rs) = f s e ++ extend f rs

-- `[(position, min(position + budget, end)) for position in range(start, end, budget)]`, by as
-- many rounds as there are tokens.
unfoldable pub stride : ℕ → ℕ → ℕ → ℕ → List Range
stride zero budget start end = []
stride (suc fuel) budget start end =
    let rest = stride fuel budget (start + budget) end in
    if ltb start end then (start, min (start + budget) end) ∷ rest else []

-- `_split_range` on the levels from `level` on
unfoldable pub split_range : ℕ → List (List ℕ) → ℕ → ℕ → List Range
unfolding between neighbours extend stride
split_range budget [] start end =
    if leb (end - start) budget then (start, end) ∷ [] else stride (end - start) budget start end
split_range budget (level ∷ levels) start end =
    let inner = between start end level in
    let next = split_range budget levels start end in
    let pieces =
      extend (λ s e. split_range budget levels s e) (neighbours (start ∷ (inner ++ end ∷ []))) in
    if leb (end - start) budget
    then (start, end) ∷ []
    else if length inner == 0
    then next
    else pieces

-- The loop of `_pack`; the current window is `[current_start, current_end)`.
unfoldable pub pack_from : ℕ → ℕ → ℕ → ℕ → List Range → Result Error (List Range)
pack_from size overlap current_start current_end [] = ok ((current_start, current_end) ∷ [])
pack_from size overlap current_start current_end ((unit_start, unit_end) ∷ units) =
    let grown = pack_from size overlap current_start unit_end units in
    let fresh = pack_from size overlap (current_end - overlap) unit_end units >>= λ packed.
    ok ((current_start, current_end) ∷ packed) in
    if unit_start == current_end
    then if leb (unit_end - current_start) size then grown else fresh
    else raise assertion_error

unfoldable pub pack : List Range → ℕ → ℕ → Result Error (List Range)
unfolding pack_from
pack [] size overlap = raise index_error
pack ((s, e) ∷ units) size overlap = pack_from size overlap s e units

unfoldable pub chunk_tokens :
    List (List ℕ) → Settings → Text → List Token → Option Text → Result Error (List Chunk)
unfolding split_range pack
chunk_tokens levels s text [] source_id = ok []
chunk_tokens levels s text (t ∷ ts) source_id = do
  let tokens = t ∷ ts
  let novel_budget = s.chunk_size - s.chunk_overlap
  let units = split_range novel_budget levels 0 (length tokens)
  ranges ← pack units s.chunk_size s.chunk_overlap
  build text tokens source_id 0 ranges

unfoldable pub chunk : CharClass → Settings → Text → Option Text → Result Error (List Chunk)
unfolding chunk_tokens boundary_levels
chunk k s text source_id =
    let tokens = tokenize k text in
    chunk_tokens (boundary_levels text tokens (structural_separators k)) s text tokens source_id
