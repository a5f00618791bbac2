-- ===== src/Chunking/Tokens/Content.antt =====
-- chunking/tokens.py: what the tokens hold.
use mathlib.Core.List.{append-nil, append_assoc}
use note_rag.Base.{
  ℕ, suc, ◌+◌, ◌-◌, ◌≤◌, ◌≡◌, refl, sym, ap, ◌∙◌, true, false, Option, none, some, List, [], ◌∷◌,
  ◌++◌, drop, slice, arith, inl, inr, Bool-cases, if◌then◌else◌, take-suc, drop-suc,
}
use note_rag.Chunking.Tokens.Spans.{opened_other}
use note_rag.Chunking.Tokens.{Text, CharClass, Token, opened, closed, single, scan, tokenize}

-- The texts of the tokens, one after another.
abbrev pub joined : List Token → Text
joined [] = []
joined (t ∷ ts) = t.text ++ joined ts

-- The characters that are no white space.
abbrev pub visible : CharClass → Text → Text
visible k [] = []
visible k (c ∷ cs) = (if k.is_space c then [] else c ∷ []) ++ visible k cs

abbrev pub IsSeparate : CharClass → Type 0
IsSeparate k = (c : ℕ) → k.is_word c ≡ true → k.is_space c ≡ false

joined-append : (xs ys : List Token) → joined (xs ++ ys) ≡ joined xs ++ joined ys
joined-append [] ys = refl
joined-append (x ∷ xs) ys = rw (joined-append xs ys, append_assoc)

-- The text of the open run.
abbrev pending : Text → ℕ → Option ℕ → Text
pending text i none = []
pending text i (some s) = slice text s i

abbrev Starts : ℕ → Option ℕ → Type 0
Starts i none = Unit
Starts i (some s) = s ≤ i

slice_snoc :
    (text : Text) (s i : ℕ) {c : ℕ} {rest : Text}
    → s ≤ i
    → drop i text ≡ c ∷ rest
    → slice text s (i + 1) ≡ slice text s i ++ c ∷ []
unfolding slice
slice_snoc text s i {c} {rest} h e =
    let p : i + 1 - s ≡ suc (i - s) = omega arith in
    let q : s + (i - s) ≡ i = omega arith in
    rw p (take-suc s (i - s) text {x = c} {r = rest} (rw q e))

slice_one :
    (text : Text) (i : ℕ) {c : ℕ} {rest : Text}
    → drop i text ≡ c ∷ rest
    → slice text i (i + 1) ≡ c ∷ []
unfolding slice
slice_one text i e = let p : i + 1 - i ≡ 1 = omega arith in rw (p, e)

drop_next :
    (i : ℕ) (text : Text) {c : ℕ} {rest : Text} → drop i text ≡ c ∷ rest → drop (i + 1) text ≡ rest
drop_next i text e = let p : i + 1 ≡ suc i = omega arith in rw p (drop-suc i text e)

module _ (k : CharClass) (text : Text) where
  joined-closed : (i : ℕ) (run : Option ℕ) → joined (closed text i run) ≡ pending text i run
  unfolding closed
  joined-closed i none = refl
  joined-closed i (some s) = append-nil _

  joined-single :
      (i c : ℕ) {rest : Text}
      → drop i text ≡ c ∷ rest
      → joined (single k text i c) ≡ (if k.is_space c then [] else c ∷ [])
  unfolding single
  joined-single i c e = elim (Bool-cases (k.is_space c)) [
    | inl space ↦ rw space
    | inr other ↦ rw other (append-nil _ ∙ slice_one text i e)
  ]

  pending-opened :
      (i : ℕ) (run : Option ℕ) (c : ℕ) {rest : Text}
      → Starts i run
      → drop i text ≡ c ∷ rest
      → k.is_word c ≡ true
      → pending text (i + 1) (opened k i run c) ≡ pending text i run ++ c ∷ []
  unfolding opened
  pending-opened i none c h e word = rw word (slice_one text i e)
  pending-opened i (some s) c h e word = rw word (slice_snoc text s i h e)

  Starts-opened :
      (i : ℕ) (run : Option ℕ) (c : ℕ) → Starts i run → Starts (i + 1) (opened k i run c)
  unfolding opened
  Starts-opened i none c h = ground arith
  Starts-opened i (some s) c h = ground arith

  joined-scan :
      (sep : IsSeparate k) (rest : Text) (i : ℕ) (run : Option ℕ)
      → Starts i run
      → drop i text ≡ rest
      → joined (scan k text i run rest) ≡ pending text i run ++ visible k rest
  unfolding scan
  joined-scan sep [] i run h e = joined-closed i run ∙ sym (append-nil _)
  joined-scan sep (c ∷ rest) i run h e = elim (Bool-cases (k.is_word c)) [
    | inl word ↦
        rw (word, sep c word)
          (joined-scan sep rest (i + 1) (opened k i run c) (Starts-opened i run c h)
              (drop_next i text e)
            ∙ ap (λ (t : Text). t ++ visible k rest) (pending-opened i run c h e word)
            ∙ append_assoc (pending text i run) (c ∷ []) (visible k rest))
    | inr other ↦
        rw (other, opened_other k i run c other)
          (joined-append (closed text i run ++ single k text i c) (scan k text (i + 1) none rest)
            ∙ simp (joined-append, joined-closed, joined-single i c e, append_assoc)
                (ap (λ t. pending text i run ++ ((if k.is_space c then [] else c ∷ []) ++ t))
                  (joined-scan sep rest (i + 1) none tt (drop_next i text e))))
  ]

-- The tokens hold every character that is no white space, in the order of the text, and no other,
-- if no word character is white space.
pub joined-tokenize :
    (k : CharClass) (text : Text) → IsSeparate k → joined (tokenize k text) ≡ visible k text
unfolding tokenize
joined-tokenize k text sep = joined-scan k text sep text 0 none tt refl
