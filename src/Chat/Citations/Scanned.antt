-- ===== src/Chat/Citations/Scanned.antt =====
-- chat/service.py: what `_CITATION_PATTERN.finditer` finds.
use mathlib.Core.List.{Memᴰ}
use mathlib.Core.List.Memᴰ
use mathlib.Core.List.{append_assoc, append-nil}
use note_rag.Base.{
  ℕ, ◌≡◌, ◌≢◌, ◌⊎◌, inl, inr, refl, sym, ap, ◌∙◌, subst, false, Option, none, some, List, [], ◌∷◌,
  ◌++◌, ◌==◌, ==_iff, arith, Bool-cases,
}
use note_rag.Chunking.Tokens.{Text}
use note_rag.Chat.Citations.{next_digit, next, emit, groups}

module _ (decimal : ℕ → Option ℕ) where
  -- The characters are the digits.
  abbrev pub Digits : Text → List ℕ → Type 0
  Digits [] [] = Unit
  Digits (c ∷ w) (d ∷ ds) = (decimal c ≡ some d) × Digits w ds
  Digits _ _ = ⊥

  -- The text holds the digits, of which there is one at least, in brackets.
  abbrev pub Bracketed : Text → List ℕ → Type 0
  Bracketed text ds =
      (before : Text) × (w : Text) × (after : Text) × (text ≡ before ++ 91 ∷ w ++ 93 ∷ after)
      × Digits w ds
      × (ds ≢ [])

  -- The digits in the state go on in the text up to a bracket.
  abbrev Continued : Option (List ℕ) → Text → List ℕ → Type 0
  Continued none text ds = ⊥
  Continued (some es) text ds =
      (w : Text) × (more : List ℕ) × (after : Text) × (text ≡ w ++ 93 ∷ after)
      × Digits w more
      × (ds ≡ es ++ more)
      × (ds ≢ [])

  abbrev Found : Option (List ℕ) → Text → List ℕ → Type 0
  Found state text ds = Continued state text ds ⊎ Bracketed text ds

  later : (c : ℕ) (text : Text) (ds : List ℕ) → Bracketed text ds → Bracketed (c ∷ text) ds
  later c text ds (before, w, after, e, digits, ne) =
      (c ∷ before, w, after, ap (◌∷◌ c) e, digits, ne)

  opens :
      (c : ℕ) (text : Text) (ds : List ℕ)
      → c ≡ 91
      → Found (some []) text ds
      → Bracketed (c ∷ text) ds
  opens c text ds e (inr h) = later c text ds h
  opens c text ds e (inl (w, more, after, e', digits, same, ne)) =
      ([], w, after, cc, subst (Digits w) (sym same) digits, ne)

  goes_on :
      (es : List ℕ) (c : ℕ) (text : Text) (ds : List ℕ) (o : Option ℕ)
      → decimal c ≡ o
      → Found (next_digit decimal es o) text ds
      → Found (some es) (c ∷ text) ds
  unfolding next_digit
  goes_on es c text ds none h (inr found) = inr (later c text ds found)
  goes_on es c text ds none h (inl impossible) = absurd impossible
  goes_on es c text ds (some d) h (inr found) = inr (later c text ds found)
  goes_on es c text ds (some d) h (inl (w, more, after, e, digits, same, ne)) =
      inl (
        c ∷ w,
        d ∷ more,
        after,
        ap (◌∷◌ c) e,
        (h, digits),
        same ∙ append_assoc es (d ∷ []) more,
        ne,
      )

  after-next :
      (state : Option (List ℕ)) (c : ℕ) (text : Text) (ds : List ℕ)
      → Found (next decimal state c) text ds
      → Found state (c ∷ text) ds
  unfolding next
  after-next none c text ds found = elim (Bool-cases (c == 91)) [
    | inl bracket ↦ inr (opens c text ds ((==_iff c 91).0 bracket) (rw bracket at found))
    | inr other ↦
        let found' : Found none text ds = rw other at found in
        elim found' [ inl impossible ↦ absurd impossible | inr h ↦ inr (later c text ds h) ]
  ]
  after-next (some es) c text ds found = elim (Bool-cases (c == 91)) [
    | inl bracket ↦ inr (opens c text ds ((==_iff c 91).0 bracket) (rw bracket at found))
    | inr other ↦ goes_on es c text ds (decimal c) refl (rw other at found)
  ]

  emit-Found :
      (state : Option (List ℕ)) (c : ℕ) (text : Text) (ds : List ℕ) (rest : List (List ℕ))
      → (Memᴰ ds rest → Found state (c ∷ text) ds)
      → Memᴰ ds (emit decimal state c rest)
      → Found state (c ∷ text) ds
  unfolding emit
  emit-Found none c text ds rest f m = f m
  emit-Found (some []) c text ds rest f m = f m
  emit-Found (some (e ∷ es)) c text ds rest f m = elim (Bool-cases (c == 93)) [
    | inl close ↦
        let m' : Memᴰ ds ((e ∷ es) ∷ rest) = rw close at m in
        elim m' [
          | Memᴰ.head h ↦ inl (
            [],
            [],
            text,
            ap (λ x. x ∷ text) ((==_iff c 93).0 close),
            tt,
            h ∙ sym (append-nil (e ∷ es)),
            λ none'. cc,
          )
          | Memᴰ.tail m'' ↦ f m''
        ]
    | inr other ↦ f (rw other at m)
  ]

  groups-Found :
      (state : Option (List ℕ)) (text : Text) (ds : List ℕ)
      → Memᴰ ds (groups decimal state text)
      → Found state text ds
  unfolding groups
  groups-Found state [] ds m = absurd (Memᴰ.not-nil m)
  groups-Found state (c ∷ text) ds m =
      emit-Found state c text ds (groups decimal (next decimal state c) text)
        (λ m'. after-next state c text ds (groups-Found (next decimal state c) text ds m')) m

  mem-emit :
      (state : Option (List ℕ)) (c : ℕ) (ds : List ℕ) (rest : List (List ℕ))
      → Memᴰ ds rest
      → Memᴰ ds (emit decimal state c rest)
  unfolding emit
  mem-emit none c ds rest m = m
  mem-emit (some []) c ds rest m = m
  mem-emit (some (e ∷ es)) c ds rest m = elim (Bool-cases (c == 93)) [
    | inl close ↦ rw close (Memᴰ.tail m)
    | inr other ↦ rw other m
  ]

  next-open : (state : Option (List ℕ)) → next decimal state 91 ≡ some []
  unfolding next
  next-open none = refl
  next-open (some es) = refl

  next-decimal :
      (es : List ℕ) (c d : ℕ)
      → c ≢ 91
      → decimal c ≡ some d
      → next decimal (some es) c ≡ some (es ++ (d ∷ []))
  unfolding next next_digit
  next-decimal es c d ne h = let other : (c == 91) ≡ false = ground arith in rw (other, h) refl

  module _ (apart : decimal 91 ≡ none) where
    groups-digits :
        (es : List ℕ) (w : Text) (more : List ℕ) (after : Text)
        → Digits w more
        → es ++ more ≢ []
        → Memᴰ (es ++ more) (groups decimal (some es) (w ++ 93 ∷ after))
    unfolding groups emit
    groups-digits [] [] [] after digits ne = absurd (ne refl)
    groups-digits (e ∷ es) [] [] after digits ne = Memᴰ.head (append-nil (e ∷ es))
    groups-digits es [] (d ∷ more) after digits ne = absurd digits
    groups-digits es (c ∷ w) [] after digits ne = absurd digits
    groups-digits es (c ∷ w) (d ∷ more) after (h, digits) ne =
        let apart' : c ≢ 91 = (λ e. let e' = ap decimal e in cc) in
        let grown = append_assoc es (d ∷ []) more in
        mem-emit (some es) c (es ++ (d ∷ more))
          (groups decimal (next decimal (some es) c) (w ++ 93 ∷ after))
          (subst (λ s. Memᴰ (es ++ (d ∷ more)) (groups decimal s (w ++ 93 ∷ after)))
            (sym (next-decimal es c d apart' h))
            (subst (λ x. Memᴰ x (groups decimal (some (es ++ (d ∷ []))) (w ++ 93 ∷ after))) grown
              (groups-digits (es ++ (d ∷ [])) w more after digits (λ e. ne (sym grown ∙ e)))))

    groups-Bracketed :
        (state : Option (List ℕ)) (before w after : Text) (ds : List ℕ)
        → Digits w ds
        → ds ≢ []
        → Memᴰ ds (groups decimal state (before ++ 91 ∷ w ++ 93 ∷ after))
    unfolding groups
    groups-Bracketed state [] w after ds digits ne =
        mem-emit state 91 ds (groups decimal (next decimal state 91) (w ++ 93 ∷ after)) (
          subst (λ s. Memᴰ ds (groups decimal s (w ++ 93 ∷ after))) (sym (next-open state))
            (groups-digits [] w ds after digits ne))
    groups-Bracketed state (c ∷ before) w after ds digits ne =
        mem-emit state c ds (groups decimal (next decimal state c) (before ++ 91 ∷ w ++ 93 ∷ after))
          (groups-Bracketed (next decimal state c) before w after ds digits ne)

    pub groups-complete :
        (text : Text) (ds : List ℕ) → Bracketed text ds → Memᴰ ds (groups decimal none text)
    groups-complete text ds (before, w, after, e, digits, ne) =
        subst (λ x. Memᴰ ds (groups decimal none x)) (sym e)
          (groups-Bracketed none before w after ds digits ne)

  pub groups-sound :
      (text : Text) (ds : List ℕ) → Memᴰ ds (groups decimal none text) → Bracketed text ds
  groups-sound text ds m = elim (groups-Found none text ds m) [
    | inl impossible ↦ absurd impossible
    | inr found ↦ found
  ]
