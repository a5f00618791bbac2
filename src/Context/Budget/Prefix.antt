-- ===== src/Context/Budget/Prefix.antt =====
-- chunking/tokens.py: the count of tokens up to the end of one of them.
use note_rag.Base.{
  ℕ, zero, suc, ◌+◌, ◌-◌, ◌≤◌, ◌<◌, ◌≡◌, ◌∙◌, refl, ap, sym, Bool, true, false, Option, none, some,
  List, [], ◌∷◌, ◌++◌, length, take, slice, get_elem?, ltb, ltb→lt, ltb→le, arith, if◌then◌else◌,
  Bool-cases, inl, inr,
}
use note_rag.Chunking.Tokens.{
  Text, CharClass, Token, opened, closed, single, matched, scan, tokenize, count,
}
use note_rag.Context.Budget.Counting.{tally, is_open, is_open-opened, length-matched, count-tally}

get_elem?-append_lt {ℓ} :
    {A : Type ℓ} (xs ys : List A) (j : ℕ) → j < length xs → get_elem? (xs ++ ys) j ≡ get_elem? xs j
get_elem?-append_lt [] ys j h = absurd (omega arith)
get_elem?-append_lt (x ∷ xs) ys zero h = refl
get_elem?-append_lt (x ∷ xs) ys (suc j) h = get_elem?-append_lt xs ys j (omega arith)

get_elem?-append_ge {ℓ} :
    {A : Type ℓ} (xs ys : List A) (j : ℕ)
    → length xs ≤ j
    → get_elem? (xs ++ ys) j ≡ get_elem? ys (j - length xs)
get_elem?-append_ge [] ys j h = ap (get_elem? ys) (omega arith)
get_elem?-append_ge (x ∷ xs) ys zero h = absurd (omega arith)
get_elem?-append_ge (x ∷ xs) ys (suc j) h =
    get_elem?-append_ge xs ys j (omega arith) ∙ ap (get_elem? ys) (omega arith)

-- The token ends at `i` or later, and `j` others end before it.
abbrev EndsAs : CharClass → ℕ → Bool → Text → ℕ → ℕ → Type 0
EndsAs k i run_open rest j end = (i ≤ end) × (tally k run_open (take (end - i) rest) ≡ suc j)

abbrev end_of : Option Token → ℕ
end_of none = 0
end_of (some t) = t.end

module _ (k : CharClass) (i : ℕ) where
  EndsAs-closed : (rest : Text) {end : ℕ} → end ≡ i → EndsAs k i true rest 0 end
  EndsAs-closed rest {end} h = let p : end - i ≡ 0 = omega arith in (omega arith, rw p refl)

  EndsAs-single :
      (run_open : Bool) (c : ℕ) (rest : Text) {end : ℕ}
      → k.is_word c ≡ false
      → k.is_space c ≡ false
      → end ≡ i + 1
      → EndsAs k i run_open (c ∷ rest) (if run_open then 1 else 0) end
  EndsAs-single true c rest {end} word space h =
      let p : end - i ≡ 1 = omega arith in (omega arith, rw (p, word, space) refl)
  EndsAs-single false c rest {end} word space h =
      let p : end - i ≡ 1 = omega arith in (omega arith, rw (p, word, space) refl)

module _ (k : CharClass) (text : Text) where
  spaced :
      (i : ℕ) (run : Option ℕ) (c : ℕ) (rest : Text) (j : ℕ) {t : Token}
      → k.is_space c ≡ true
      → get_elem? (closed text i run ++ single k text i c) j ≡ some t
      → EndsAs k i (is_open run) (c ∷ rest) j t.end
  unfolding closed single
  spaced i none c rest j space h = cc (rw space at h)
  spaced i (some s) c rest zero space h = EndsAs-closed k i (c ∷ rest) (sym (ap end_of h))
  spaced i (some s) c rest (suc j) space h = cc (rw space at h)

  marked :
      (i : ℕ) (run : Option ℕ) (c : ℕ) (rest : Text) (j : ℕ) {t : Token}
      → k.is_word c ≡ false
      → k.is_space c ≡ false
      → get_elem? (closed text i run ++ single k text i c) j ≡ some t
      → EndsAs k i (is_open run) (c ∷ rest) j t.end
  unfolding closed single
  marked i none c rest zero word other h =
      EndsAs-single k i false c rest word other (sym (ap end_of (rw other at h)))
  marked i none c rest (suc j) word other h = cc (rw other at h)
  marked i (some s) c rest zero word other h = EndsAs-closed k i (c ∷ rest) (sym (ap end_of h))
  marked i (some s) c rest (suc zero) word other h =
      EndsAs-single k i true c rest word other (sym (ap end_of (rw other at h)))
  marked i (some s) c rest (suc (suc j)) word other h = cc (rw other at h)

  matched-EndsAs :
      (i : ℕ) (run : Option ℕ) (c : ℕ) (rest : Text) (j : ℕ) {t : Token}
      → get_elem? (matched k text i run c) j ≡ some t
      → EndsAs k i (is_open run) (c ∷ rest) j t.end
  unfolding matched
  matched-EndsAs i run c rest j {t} h = elim (Bool-cases (k.is_word c)) [
    | inl word ↦ cc (rw word at h)
    | inr word ↦ elim (Bool-cases (k.is_space c)) [
      | inl space ↦ spaced i run c rest j space (rw word at h)
      | inr other ↦ marked i run c rest j word other (rw word at h)
    ]
  ]

  scan-EndsAs :
      (i : ℕ) (run : Option ℕ) (rest : Text) (j : ℕ) {t : Token}
      → get_elem? (scan k text i run rest) j ≡ some t
      → EndsAs k i (is_open run) rest j t.end
  unfolding scan closed
  scan-EndsAs i none [] j h = cc
  scan-EndsAs i (some s) [] zero h = EndsAs-closed k i [] (sym (ap end_of h))
  scan-EndsAs i (some s) [] (suc j) h = cc
  scan-EndsAs i run (c ∷ rest) j {t} h =
      let now = matched k text i run c in
      let later = scan k text (i + 1) (opened k i run c) rest in
      elim (Bool-cases (ltb j (length now))) [
        | inl here ↦
            matched-EndsAs i run c rest j
              (sym (get_elem?-append_lt now later j (ltb→lt j (length now) here)) ∙ h)
        | inr there ↦
            let past = ltb→le j (length now) there in
            let (after, counted) =
              scan-EndsAs (i + 1) (opened k i run c) rest (j - length now)
                (sym (get_elem?-append_ge now later j past) ∙ h) in
            let p : t.end - i ≡ suc (t.end - (i + 1)) = omega arith in
            let e = length-matched k text i run c in
            let d = rw (is_open-opened k i run c) at counted in (omega arith, rw p (omega arith))
      ]

-- A text cut at the end of one of its tokens has the tokens up to that one.
pub count-slice-end :
    (k : CharClass) (text : Text) (j : ℕ) {t : Token}
    → get_elem? (tokenize k text) j ≡ some t
    → count k (slice text 0 t.end) ≡ suc j
unfolding slice tokenize
count-slice-end k text j {t} h =
    count-tally k (take (t.end - 0) text) ∙ (scan-EndsAs k text 0 none text j h).1
