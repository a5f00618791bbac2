-- ===== src/Chunking/Separators.antt =====
-- chunking/recursive.py: `_STRUCTURAL_SEPARATORS` and their `finditer`. A matcher takes the
-- character before the position and the text from the position on, and returns the length of its
-- match there.
use note_rag.Base.{
  ℕ, ◌+◌, ◌-◌, ◌≡◌, refl, Bool, true, false, not, ◌&&◌, ◌||◌, Option, none, some, List, [], ◌∷◌,
  ◌++◌, drop, leb, ◌==◌, if◌then◌else◌,
}
use note_rag.Chunking.Tokens.{Text, CharClass}

abbrev pub Matcher : Type 0
Matcher = Option ℕ → Text → Option ℕ

abbrev newline : ℕ
newline = 10

-- `[ \t]`
is_blank : ℕ → Bool
is_blank c = c == 32 || c == 9

is_hash : ℕ → Bool
is_hash c = c == b'#'

is_newline : ℕ → Bool
is_newline c = c == newline

-- The length of the longest prefix in the class.
run_length : (ℕ → Bool) → Text → ℕ
run_length p [] = 0
run_length p (c ∷ cs) = if p c then run_length p cs + 1 else 0

-- `^` of a multi-line pattern
starts_line : Option ℕ → Bool
starts_line none = true
starts_line (some c) = is_newline c

ends_sentence : Option ℕ → Bool
ends_sentence none = false
ends_sentence (some c) = c == b'.' || c == b'!' || c == b'?'

-- `\S`
has_visible : CharClass → Text → Bool
has_visible k [] = false
has_visible k (c ∷ cs) = not (k.is_space c)

-- `(?m)(?=^#{1,6}[ \t]+\S)`
unfoldable pub heading : CharClass → Matcher
unfolding starts_line run_length is_hash is_blank is_newline has_visible
heading k before text =
    let hashes = run_length is_hash text in
    let blanks = run_length is_blank (drop hashes text) in
    if starts_line before
      && leb 1 hashes
      && leb hashes 6
      && leb 1 blanks
      && has_visible k (drop blanks (drop hashes text))
    then some 0
    else none

-- `\n[ \t]*\n+`
unfoldable pub paragraph : Matcher
unfolding run_length is_blank is_newline
paragraph before [] = none
paragraph before (c ∷ cs) =
    let blanks = run_length is_blank cs in
    let newlines = run_length is_newline (drop blanks cs) in
    if is_newline c && leb 1 newlines then some (1 + blanks + newlines) else none

-- `(?<=[.!?])(?:[ \t]+|\n+)`
unfoldable pub sentence : Matcher
unfolding run_length is_blank is_newline ends_sentence
sentence before text =
    let blanks = run_length is_blank text in
    let newlines = run_length is_newline text in
    if ends_sentence before
    then if leb 1 blanks then some blanks else if leb 1 newlines then some newlines else none
    else none

-- `\n+`
unfoldable pub line : Matcher
unfolding run_length is_newline
line before text =
    let newlines = run_length is_newline text in if leb 1 newlines then some newlines else none

abbrev pub structural_separators : CharClass → List Matcher
structural_separators k = heading k ∷ paragraph ∷ sentence ∷ line ∷ []

spans : ℕ → Option ℕ → List (ℕ × ℕ)
spans i none = []
spans i (some len) = (i, i + len) ∷ []

after : ℕ → Option ℕ → ℕ
after skip none = skip - 1
after skip (some len) = len - 1

-- The spans of `finditer`: behind a match the search goes on at its end. `skip` counts the
-- characters of the last match that are still to come.
unfoldable pub finditer_from : Matcher → Option ℕ → ℕ → ℕ → Text → List (ℕ × ℕ)
unfolding spans after
finditer_from m before i skip [] = if skip == 0 then spans i (m before []) else []
finditer_from m before i skip (c ∷ cs) =
    let found = if skip == 0 then m before (c ∷ cs) else none in
    spans i found ++ finditer_from m (some c) (i + 1) (after skip found) cs

unfoldable pub finditer : Matcher → Text → List (ℕ × ℕ)
unfolding finditer_from
finditer m text = finditer_from m none 0 0 text

-- `"# A\n\nb. c"`
headings_of_sample :
    finditer paragraph (35 ∷ 32 ∷ 65 ∷ 10 ∷ 10 ∷ 98 ∷ 46 ∷ 32 ∷ 99 ∷ []) ≡ (3, 5) ∷ []
unfolding finditer paragraph
headings_of_sample = refl

sentences_of_sample :
    finditer sentence (35 ∷ 32 ∷ 65 ∷ 10 ∷ 10 ∷ 98 ∷ 46 ∷ 32 ∷ 99 ∷ []) ≡ (7, 8) ∷ []
unfolding finditer sentence
sentences_of_sample = refl
