-- ===== src/Retrieval/Cache/Words.antt =====
-- retrieval/cache.py: `normalize_query`, which joins the words of the query by single spaces.
use note_rag.Base.{
  ℕ, ◌≡◌, refl, sym, ap, ◌∙◌, Bool, true, false, List, [], ◌∷◌, ◌++◌, drop, length, ◌==◌,
  if◌then◌else◌, Bool-cases, arith, inl, inr,
}
use note_rag.Chunking.Tokens.{Text, CharClass}
use note_rag.Context.Dedup.{collapse, lstrip, rstrip}
use note_rag.Retrieval.Cache.{normalize_query}

abbrev put : Text → List Text → List Text
put [] ws = ws
put (c ∷ w) ws = (c ∷ w) ∷ ws

module _ (k : CharClass) where
  -- The characters up to the next white space, and the words after that.
  unfoldable cut : Text → Text × List Text
  cut [] = ([], [])
  cut (c ∷ text) = let (w, ws) = cut text in if k.is_space c then ([], put w ws) else (c ∷ w, ws)

  -- The words of a text: its longest pieces without white space, as `str.split` gives them.
  unfoldable pub words : Text → List Text
  unfolding cut
  words text = put (cut text).0 (cut text).1

  -- Each word with a space before it.
  abbrev pub spaced : List Text → Text
  spaced [] = []
  spaced (w ∷ ws) = 32 ∷ w ++ spaced ws

  abbrev lead : Text → Text
  lead [] = []
  lead (c ∷ text) = 32 ∷ collapse k true (c ∷ text)

  words-space : (c : ℕ) (text : Text) → k.is_space c ≡ true → words (c ∷ text) ≡ words text
  unfolding words
  words-space c text h = rw h refl

  words-other :
      (c : ℕ) (text : Text)
      → k.is_space c ≡ false
      → words (c ∷ text) ≡ (c ∷ (cut text).0) ∷ (cut text).1
  unfolding words
  words-other c text h = rw h refl

  abbrev rest : Text → Text
  rest text = (cut text).0 ++ spaced (cut text).1

  rest-space : (c : ℕ) (text : Text) → k.is_space c ≡ true → rest (c ∷ text) ≡ spaced (words text)
  unfolding cut words
  rest-space c text h = rw h refl

  rest-other : (c : ℕ) (text : Text) → k.is_space c ≡ false → rest (c ∷ text) ≡ c ∷ rest text
  unfolding cut
  rest-other c text h = rw h refl

  -- White space before what is left at the right stays there only if something is left.
  abbrev keep : ℕ → Text → Text
  keep c [] = []
  keep c (x ∷ text) = c ∷ x ∷ text

  keep_space :
      (c : ℕ) (r : Text)
      → k.is_space c ≡ true
      → (if length r == 0 then (if k.is_space c then [] else c ∷ []) else c ∷ r) ≡ keep c r
  keep_space c [] h = rw h refl
  keep_space c (x ∷ r) h =
      let some_left : (length (x ∷ r) == 0) ≡ false = ground arith in rw some_left refl

  keep_other :
      (c : ℕ) (r : Text)
      → k.is_space c ≡ false
      → (if length r == 0 then (if k.is_space c then [] else c ∷ []) else c ∷ r) ≡ c ∷ r
  keep_other c [] h = rw h refl
  keep_other c (x ∷ r) h =
      let some_left : (length (x ∷ r) == 0) ≡ false = ground arith in rw some_left refl

  rstrip-space :
      (c : ℕ) (text : Text) → k.is_space c ≡ true → rstrip k (c ∷ text) ≡ keep c (rstrip k text)
  unfolding rstrip
  rstrip-space c text h = keep_space c (rstrip k text) h

  rstrip-other :
      (c : ℕ) (text : Text) → k.is_space c ≡ false → rstrip k (c ∷ text) ≡ c ∷ rstrip k text
  unfolding rstrip
  rstrip-other c text h = keep_other c (rstrip k text) h

  collapse-other :
      (b : Bool) (c : ℕ) (text : Text)
      → k.is_space c ≡ false
      → collapse k b (c ∷ text) ≡ c ∷ collapse k false text
  unfolding collapse
  collapse-other b c text h = rw h refl

  collapse-keep : (c : ℕ) (r : Text) → k.is_space c ≡ true → collapse k false (keep c r) ≡ lead r
  unfolding collapse
  collapse-keep c [] h = refl
  collapse-keep c (x ∷ r) h = rw h refl

  lead-keep : (c : ℕ) (r : Text) → k.is_space c ≡ true → lead (keep c r) ≡ lead r
  unfolding collapse
  lead-keep c [] h = refl
  lead-keep c (x ∷ r) h = rw h refl

  collapse-rstrip :
      (text : Text)
      → (collapse k false (rstrip k text) ≡ rest text)
        × (lead (rstrip k text) ≡ spaced (words text))
  unfolding collapse rstrip cut words
  collapse-rstrip [] = (refl, refl)
  collapse-rstrip (c ∷ text) =
      let (joined, led) = collapse-rstrip text in
      elim (Bool-cases (k.is_space c)) [
        | inl h ↦ (
          ap (collapse k false) (rstrip-space c text h)
              ∙ collapse-keep c (rstrip k text) h
              ∙ led
              ∙ sym (rest-space c text h),
          ap lead (rstrip-space c text h)
              ∙ lead-keep c (rstrip k text) h
              ∙ led
              ∙ sym (ap spaced (words-space c text h)),
        )
        | inr h ↦ (
          ap (collapse k false) (rstrip-other c text h)
              ∙ collapse-other false c (rstrip k text) h
              ∙ ap (◌∷◌ c) joined
              ∙ sym (rest-other c text h),
          ap lead (rstrip-other c text h)
              ∙ ap (◌∷◌ 32) (collapse-other true c (rstrip k text) h ∙ ap (◌∷◌ c) joined)
              ∙ sym (ap spaced (words-other c text h)),
        )
      ]

  lstrip-space : (c : ℕ) (text : Text) → k.is_space c ≡ true → lstrip k (c ∷ text) ≡ lstrip k text
  unfolding lstrip
  lstrip-space c text h = rw h refl

  lstrip-other : (c : ℕ) (text : Text) → k.is_space c ≡ false → lstrip k (c ∷ text) ≡ c ∷ text
  unfolding lstrip
  lstrip-other c text h = rw h refl

  -- A query is normalised to its words with single spaces between them.
  pub normalize_query-words : (text : Text) → normalize_query k text ≡ drop 1 (spaced (words text))
  unfolding normalize_query lstrip rstrip collapse cut words
  normalize_query-words [] = refl
  normalize_query-words (c ∷ text) = elim (Bool-cases (k.is_space c)) [
    | inl h ↦
        ap (λ x. collapse k false (rstrip k x)) (lstrip-space c text h)
        ∙ normalize_query-words text
        ∙ sym (ap (λ x. drop 1 (spaced x)) (words-space c text h))
    | inr h ↦
        ap (λ x. collapse k false (rstrip k x)) (lstrip-other c text h)
        ∙ (collapse-rstrip (c ∷ text)).0
        ∙ rest-other c text h
        ∙ sym (ap (λ x. drop 1 (spaced x)) (words-other c text h))
  ]
