-- ===== src/Chunking/Tokens.antt =====
-- chunking/tokens.py. A text is its code points; which of them `\w` and `\s` match is a parameter,
-- since it is a table of the Unicode version in use.
pub mod Spans
pub mod Content
use note_rag.Base.{
  ℕ, ◌+◌, ◌≤◌, ◌<◌, Bool, Option, none, some, List, [], ◌∷◌, ◌++◌, length, slice, if◌then◌else◌,
}

abbrev pub Text : Type 0
Text = List ℕ

pub record CharClass : Type 0 where
  pub is_word : ℕ → Bool
  pub is_space : ℕ → Bool

pub record Token : Type 0 where
  pub text : Text
  pub start : ℕ
  pub end : ℕ

-- `\w+|[^\w\s]` by `finditer`: what lies open is the start of a run of word characters.
unfoldable pub opened : CharClass → ℕ → Option ℕ → ℕ → Option ℕ
opened k i none c = if k.is_word c then some i else none
opened k i (some s) c = if k.is_word c then some s else none

-- The run that `c` at `i` closes, and `c` itself where it is punctuation.
unfoldable pub closed : Text → ℕ → Option ℕ → List Token
closed text i none = []
closed text i (some s) = record { text = slice text s i; start = s; end = i } ∷ []

unfoldable pub single : CharClass → Text → ℕ → ℕ → List Token
single k text i c =
    if k.is_space c then [] else record { text = slice text i (i + 1); start = i; end = i + 1 } ∷ []

unfoldable pub matched : CharClass → Text → ℕ → Option ℕ → ℕ → List Token
unfolding closed single
matched k text i run c = if k.is_word c then [] else closed text i run ++ single k text i c

unfoldable pub scan : CharClass → Text → ℕ → Option ℕ → Text → List Token
unfolding opened matched
scan k text i run [] = closed text i run
scan k text i run (c ∷ rest) = matched k text i run c ++ scan k text (i + 1) (opened k i run c) rest

unfoldable pub tokenize : CharClass → Text → List Token
unfolding scan
tokenize k text = scan k text 0 none text

unfoldable pub count : CharClass → Text → ℕ
unfolding tokenize
count k text = length (tokenize k text)

-- The spans lie in `[lo, hi]`, none is empty, and they do not overlap.
abbrev pub Ordered : ℕ → ℕ → List Token → Type 0
Ordered lo hi [] = lo ≤ hi
Ordered lo hi (t ∷ ts) = (lo ≤ t.start) × (t.start < t.end) × Ordered t.end hi ts
