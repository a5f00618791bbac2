-- ===== src/Chat/Citations.antt =====
-- chat/service.py: `_available_citations` and `_extract_citations`. `decimal` is the value of a code point
-- that `\d` matches, and `int` reads numbers of at most `max_digits` digits.
pub mod Scanned
pub mod Numbers
pub mod Cited
use mathlib.Core.List.{reverse}
use note_rag.Base.{
  ℕ, zero, ◌+◌, ◌*◌, Bool, true, false, ◌&&◌, Option, none, some, List, [], ◌∷◌, ◌++◌, map, length,
  ltb, leb, ◌==◌, if◌then◌else◌,
}
use note_rag.Base.Result.{Result, ok, raise}
use note_rag.Base.Table.{find}
use note_rag.Chunking.Tokens.{Text}
use note_rag.Context.Models.{ContextChunk, ContextPackage}
use note_rag.Chat.Models.{Citation, citation_key, ChatError}

unfoldable pub to_citation : ContextChunk → Citation
to_citation chunk = record {
  citation_id = chunk.citation_id;
  chunk_id = chunk.chunk_id;
  document_id = chunk.document_id;
  filename = chunk.filename;
  position = chunk.position;
  source_metadata = chunk.source_metadata;
}

unfoldable pub available_citations : ContextPackage → List Citation
unfolding to_citation
available_citations context = map to_citation context.chunks

-- The digits of a number in decimal.
unfoldable pub to_int : ℕ → List ℕ → ℕ
to_int n [] = n
to_int n (d ∷ ds) = to_int (10 * n + d) ds

-- `sorted` of a set
unfoldable pub insert_new : ℕ → List ℕ → List ℕ
insert_new n [] = n ∷ []
insert_new n (m ∷ ms) =
    let later = m ∷ insert_new n ms in
    if n == m then m ∷ ms else if ltb n m then n ∷ m ∷ ms else later

unfoldable pub sorted_set : List ℕ → List ℕ
unfolding insert_new
sorted_set [] = []
sorted_set (n ∷ ns) = insert_new n (sorted_set ns)

-- `available[citation_id]`, where it is: the last citation with a number is the one in the dict.
unfoldable pub cited : List ℕ → List Citation → List Citation
unfolding find
cited [] available = []
cited (n ∷ ns) available =
    let rest = cited ns available in
    elim (find citation_key n (reverse available)) [ none ↦ rest | some c ↦ c ∷ rest ]

unfoldable pub are_short : ℕ → List (List ℕ) → Bool
are_short max_digits [] = true
are_short max_digits (ds ∷ dss) = leb (length ds) max_digits && are_short max_digits dss

module _ (decimal : ℕ → Option ℕ) where
  -- One character of the search for `\[(\d+)]`. The state has the digits since the last bracket that opens.
  unfoldable pub next_digit : List ℕ → Option ℕ → Option (List ℕ)
  next_digit ds none = none
  next_digit ds (some d) = some (ds ++ (d ∷ []))

  unfoldable pub next : Option (List ℕ) → ℕ → Option (List ℕ)
  unfolding next_digit
  next none c = if c == 91 then some [] else none
  next (some ds) c = if c == 91 then some [] else next_digit ds (decimal c)

  unfoldable pub emit : Option (List ℕ) → ℕ → List (List ℕ) → List (List ℕ)
  emit none c rest = rest
  emit (some []) c rest = rest
  emit (some (d ∷ ds)) c rest = if c == 93 then (d ∷ ds) ∷ rest else rest

  -- The groups that `finditer` matches
  unfoldable pub groups : Option (List ℕ) → Text → List (List ℕ)
  unfolding next emit
  groups state [] = []
  groups state (c ∷ text) = emit state c (groups (next state c) text)

  unfoldable pub extract_citations : ℕ → Text → ContextPackage → Result ChatError (List Citation)
  unfolding groups are_short sorted_set to_int cited available_citations
  extract_citations max_digits answer context =
      let found = groups none answer in
      if are_short max_digits found
      then ok (cited (sorted_set (map (to_int 0) found)) (available_citations context))
      else raise ChatError.too_many_digits
