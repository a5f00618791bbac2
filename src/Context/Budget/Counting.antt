-- ===== src/Context/Budget/Counting.antt =====
-- chunking/tokens.py: the count of tokens as a sum over the characters.
use note_rag.Base.{
  ℕ, ◌+◌, ◌≤◌, ◌≡◌, ◌∙◌, refl, Bool, true, false, Option, none, some, [], ◌∷◌, ◌++◌, length, arith,
  if◌then◌else◌, length-append,
}
use note_rag.Chunking.Tokens.{
  Text, CharClass, opened, closed, single, matched, scan, tokenize, count,
}

-- The tokens that end with one character; `run_open` says that a run of word characters is open.
abbrev pub ended : CharClass → Bool → ℕ → ℕ
ended k run_open c =
    if k.is_word c then 0 else (if run_open then 1 else 0) + (if k.is_space c then 0 else 1)

abbrev pub tally : CharClass → Bool → Text → ℕ
tally k run_open [] = if run_open then 1 else 0
tally k run_open (c ∷ cs) = ended k run_open c + tally k (k.is_word c) cs

abbrev pub is_open : Option ℕ → Bool
is_open none = false
is_open (some s) = true

module _ (k : CharClass) where
  pub is_open-opened : (i : ℕ) (run : Option ℕ) (c : ℕ) → is_open (opened k i run c) ≡ k.is_word c
  unfolding opened
  is_open-opened i none c = ground arith
  is_open-opened i (some s) c = ground arith

  pub length-matched :
      (text : Text) (i : ℕ) (run : Option ℕ) (c : ℕ)
      → length (matched k text i run c) ≡ ended k (is_open run) c
  unfolding matched closed single
  length-matched text i none c = ground arith
  length-matched text i (some s) c = ground arith

  length-scan :
      (text : Text) (i : ℕ) (run : Option ℕ) (rest : Text)
      → length (scan k text i run rest) ≡ tally k (is_open run) rest
  unfolding scan closed
  length-scan text i none [] = refl
  length-scan text i (some s) [] = refl
  length-scan text i run (c ∷ rest) =
      let later = length-scan text (i + 1) (opened k i run c) rest in
      length-append (matched k text i run c) (scan k text (i + 1) (opened k i run c) rest)
      ∙ rw (length-matched text i run c, later, is_open-opened i run c) refl

  pub count-tally : (text : Text) → count k text ≡ tally k false text
  unfolding count tokenize
  count-tally text = length-scan text 0 none text

  tally-open :
      (run_open : Bool) (text : Text)
      → tally k run_open text ≤ (if run_open then 1 else 0) + tally k false text
  tally-open true [] = omega arith
  tally-open false [] = omega arith
  tally-open run_open (c ∷ cs) = ground arith

  tally-append :
      (run_open : Bool) (xs ys : Text)
      → tally k run_open (xs ++ ys) ≤ tally k run_open xs + tally k false ys
  tally-append run_open [] ys = tally-open run_open ys
  tally-append run_open (c ∷ xs) ys = omega (arith, tally-append (k.is_word c) xs ys)

  -- Joining texts makes no token more.
  pub count-append : (xs ys : Text) → count k (xs ++ ys) ≤ count k xs + count k ys
  count-append xs ys =
      rw (count-tally (xs ++ ys), count-tally xs, count-tally ys) (tally-append false xs ys)
