-- ===== src/Chunking/Tokens/Spans.antt =====
-- chunking/tokens.py: where the tokens lie.
use note_rag.Base.{
  ℕ, ◌+◌, ◌≤◌, ◌<◌, ◌≡◌, true, false, Option, none, some, List, [], ◌∷◌, ◌++◌, length, arith, inl,
  inr, Bool-cases,
}
use mathlib.Core.List.{append-nil, append_assoc}
use note_rag.Chunking.Tokens.{
  Text, CharClass, Token, Ordered, opened, closed, single, scan, tokenize,
}

pub Ordered-weaken :
    (lo lo' hi : ℕ) (ts : List Token) → lo ≤ lo' → Ordered lo' hi ts → Ordered lo hi ts
Ordered-weaken lo lo' hi [] h o = omega arith
Ordered-weaken lo lo' hi (t ∷ ts) h (a, b, c) = (omega arith, b, c)

-- Where the tokens still to come may start.
abbrev from : ℕ → Option ℕ → ℕ
from i none = i
from i (some s) = s

abbrev IsRun : ℕ → Option ℕ → Type 0
IsRun i none = Unit
IsRun i (some s) = s < i

opened-IsRun :
    (k : CharClass) (i : ℕ) (run : Option ℕ) (c : ℕ)
    → IsRun i run
    → IsRun (i + 1) (opened k i run c)
unfolding opened
opened-IsRun k i none c h = ground arith
opened-IsRun k i (some s) c h = ground arith

module _ (k : CharClass) (i : ℕ) (run : Option ℕ) (c : ℕ) where
  pub opened_word : k.is_word c ≡ true → from (i + 1) (opened k i run c) ≡ from i run
  unfolding opened
  opened_word h = ground arith

  pub opened_other : k.is_word c ≡ false → opened k i run c ≡ none
  unfolding opened
  opened_other h = ground arith

module _ (k : CharClass) (text : Text) where
  closed-Ordered :
      (i : ℕ) (run : Option ℕ) (lo hi : ℕ) (ts : List Token)
      → IsRun i run
      → lo ≤ from i run
      → Ordered i hi ts
      → Ordered lo hi (closed text i run ++ ts)
  unfolding closed
  closed-Ordered i none lo hi ts r h o = Ordered-weaken lo i hi ts h o
  closed-Ordered i (some s) lo hi ts r h o = (h, r, o)

  single-Ordered :
      (i c hi : ℕ) (ts : List Token)
      → Ordered (i + 1) hi ts
      → Ordered i hi (single k text i c ++ ts)
  unfolding single
  single-Ordered i c hi ts o = elim (Bool-cases (k.is_space c)) [
    | inl space ↦ rw space (Ordered-weaken i (i + 1) hi ts (omega arith) o)
    | inr visible ↦ rw visible (omega arith, omega arith, o)
  ]

  scan-Ordered :
      (rest : Text) (i : ℕ) (run : Option ℕ) (lo hi : ℕ)
      → IsRun i run
      → lo ≤ from i run
      → i + length rest ≤ hi
      → Ordered lo hi (scan k text i run rest)
  unfolding scan
  scan-Ordered [] i run lo hi r h e =
      rw (← append-nil (closed text i run)) (closed-Ordered i run lo hi [] r h (omega arith))
  scan-Ordered (c ∷ rest) i run lo hi r h e = elim (Bool-cases (k.is_word c)) [
    | inl word ↦ rw word (
        scan-Ordered rest (i + 1) (opened k i run c) lo hi (opened-IsRun k i run c r)
          (omega (arith, opened_word k i run c word)) (omega arith))
    | inr other ↦
        rw (other, opened_other k i run c other, append_assoc)
          (closed-Ordered i run lo hi _ r h (
            single-Ordered i c hi _
              (scan-Ordered rest (i + 1) none (i + 1) hi tt (omega arith) (omega arith))))
  ]

-- The tokens of a text follow one another without overlap, inside the text, and none is empty.
pub tokenize-Ordered : (k : CharClass) (text : Text) → Ordered 0 (length text) (tokenize k text)
unfolding tokenize
tokenize-Ordered k text =
    scan-Ordered k text text 0 none 0 (length text) tt (omega arith) (omega arith)
