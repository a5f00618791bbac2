-- ===== src/Context/Dedup/Unique.antt =====
-- context/service.py: what `_deduplicate` keeps.
use note_rag.Base.{
  ℕ, ◌+◌, ◌≤◌, ◌≡◌, ◌≢◌, ◌⊎◌, inl, inr, refl, sym, ap, Bool, true, false, ◌||◌, List, [], ◌∷◌,
  length, All, arith, ◌==◌, map, All-map, Bool-cases, subst,
}
use note_rag.Chunking.Tokens.{Text, CharClass}
use note_rag.Context.Models.{ScoredHit}
use note_rag.Context.Dedup.{
  text_eq, contains_id, contains_text, normalized, unique_from, deduplicate,
}

-- Where the first list is what remains of the second.
pub data Sublist : List ScoredHit → List ScoredHit → Type 0 where
  empty : Sublist [] []
  keep : {h : ScoredHit} {ks hs : List ScoredHit} → Sublist ks hs → Sublist (h ∷ ks) (h ∷ hs)
  skip : {h : ScoredHit} {ks hs : List ScoredHit} → Sublist ks hs → Sublist ks (h ∷ hs)

text_eq_refl : (t : Text) → text_eq t t ≡ true
unfolding text_eq
text_eq_refl [] = refl
text_eq_refl (c ∷ cs) = ground (arith, text_eq_refl cs)

text_eq_eq : (s t : Text) → text_eq s t ≡ true → s ≡ t
unfolding text_eq
text_eq_eq [] [] h = refl
text_eq_eq [] (d ∷ t) h = cc
text_eq_eq (c ∷ s) [] h = cc
text_eq_eq (c ∷ s) (d ∷ t) h = elim (Bool-cases (c == d)) [
  | inl same ↦ let e : c ≡ d = ground arith in cc (e, text_eq_eq s t (rw same at h))
  | inr other ↦ cc (rw other at h)
]

or-false : (a b : Bool) → (a || b) ≡ false → (a ≡ false) × (b ≡ false)
or-false true b h = cc
or-false false b h = (refl, h)

or_last : (a : Bool) → (a || true) ≡ true
or_last true = refl
or_last false = refl

or-true : (a b : Bool) → (a || b) ≡ true → (a ≡ true) ⊎ (b ≡ true)
or-true true b h = inl refl
or-true false b h = inr h

module _ (k : CharClass) (fold : ℕ → Text) where
  abbrev pub text_of : ScoredHit → Text
  text_of item = normalized k fold item.hit.text

  abbrev pub Differ : ScoredHit → ScoredHit → Type 0
  Differ g h = (g.hit.chunk_id ≢ h.hit.chunk_id) × (text_of g ≢ text_of h)

  abbrev pub Repeats : ScoredHit → ScoredHit → Type 0
  Repeats g h = (g.hit.chunk_id ≡ h.hit.chunk_id) ⊎ (text_of g ≡ text_of h)

  -- No id and no normalised text occurs twice.
  abbrev pub Distinct : List ScoredHit → Type 0
  Distinct [] = Unit
  Distinct (h ∷ hs) = All (λ g. Differ g h) hs × Distinct hs

  -- The hit has the id or the normalised text of one in the list.
  abbrev pub IsCovered : List ScoredHit → ScoredHit → Type 0
  IsCovered [] g = ⊥
  IsCovered (h ∷ hs) g = Repeats g h ⊎ IsCovered hs g

  abbrev ids : List ScoredHit → List ℕ
  ids hs = map (λ (h : ScoredHit). h.hit.chunk_id) hs

  abbrev texts : List ScoredHit → List Text
  texts hs = map text_of hs

  abbrev is_seen : List ScoredHit → ScoredHit → Bool
  is_seen seen h = contains_id h.hit.chunk_id (ids seen) || contains_text (text_of h) (texts seen)

  Differ-unseen :
      (h : ScoredHit) (seen : List ScoredHit) → is_seen seen h ≡ false → All (Differ h) seen
  unfolding contains_id contains_text
  Differ-unseen h [] new = tt
  Differ-unseen h (s ∷ seen) new =
      let (no_id, no_text) =
        or-false (contains_id h.hit.chunk_id (ids (s ∷ seen)))
          (contains_text (text_of h) (texts (s ∷ seen))) new in
      let (id_ne, no_ids) =
        or-false (s.hit.chunk_id == h.hit.chunk_id) (contains_id h.hit.chunk_id (ids seen)) no_id in
      let (text_ne, no_texts) =
        or-false (text_eq (text_of s) (text_of h)) (contains_text (text_of h) (texts seen))
          no_text in
      (
        (
          (λ e. ground arith),
          (λ e. cc (text_eq_refl (text_of h), ap (λ t. text_eq t (text_of h)) e)),
        ),
        Differ-unseen h seen (rw (no_ids, no_texts) refl),
      )

  seen-IsCovered :
      (h : ScoredHit) (seen : List ScoredHit) → is_seen seen h ≡ true → IsCovered seen h
  unfolding contains_id contains_text
  seen-IsCovered h [] old = cc
  seen-IsCovered h (s ∷ seen) old =
      elim (or-true (contains_id h.hit.chunk_id (ids (s ∷ seen)))
        (contains_text (text_of h) (texts (s ∷ seen))) old) [
          | inl by_id ↦
              elim (or-true (s.hit.chunk_id == h.hit.chunk_id)
                (contains_id h.hit.chunk_id (ids seen)) by_id) [
                  | inl here ↦
                      inl (inl (let e : h.hit.chunk_id ≡ s.hit.chunk_id = ground arith in e))
                  | inr there ↦ inr (seen-IsCovered h seen (rw there refl))
                ]
          | inr by_text ↦
              elim (or-true (text_eq (text_of s) (text_of h))
                (contains_text (text_of h) (texts seen)) by_text) [
                  | inl here ↦ inl (inr (sym (text_eq_eq (text_of s) (text_of h) here)))
                  | inr there ↦ inr (seen-IsCovered h seen (rw there (or_last _)))
                ]
        ]

  abbrev rest : List ScoredHit → List ScoredHit → List ScoredHit
  rest seen hs = unique_from k fold (ids seen) (texts seen) hs

  rest-seen :
      (seen : List ScoredHit) (h : ScoredHit) (hs : List ScoredHit)
      → is_seen seen h ≡ true
      → rest seen (h ∷ hs) ≡ rest seen hs
  unfolding unique_from
  rest-seen seen h hs old = rw old refl

  rest-new :
      (seen : List ScoredHit) (h : ScoredHit) (hs : List ScoredHit)
      → is_seen seen h ≡ false
      → rest seen (h ∷ hs) ≡ h ∷ rest (h ∷ seen) hs
  unfolding unique_from
  rest-new seen h hs new = rw new refl

  abbrev IsApart : List ScoredHit → List ScoredHit → Type 0
  IsApart seen ks = All (λ h. All (Differ h) seen) ks × Distinct ks

  rest-IsApart : (seen hs : List ScoredHit) → IsApart seen (rest seen hs)
  unfolding unique_from
  rest-IsApart seen [] = (tt, tt)
  rest-IsApart seen (h ∷ hs) = elim (Bool-cases (is_seen seen h)) [
    | inl old ↦ subst (IsApart seen) (sym (rest-seen seen h hs old)) (rest-IsApart seen hs)
    | inr new ↦
        let later = rest (h ∷ seen) hs in
        let (apart, distinct) = rest-IsApart (h ∷ seen) hs in
        subst (IsApart seen) (sym (rest-new seen h hs new)) (
          (Differ-unseen h seen new, All-map later (λ g d. d.1) apart),
          (All-map later (λ g d. d.0) apart, distinct),
        )
  ]

  rest-Sublist : (seen hs : List ScoredHit) → Sublist (rest seen hs) hs
  unfolding unique_from
  rest-Sublist seen [] = empty
  rest-Sublist seen (h ∷ hs) = elim (Bool-cases (is_seen seen h)) [
    | inl old ↦ rw old (skip (rest-Sublist seen hs))
    | inr new ↦ rw new (keep (rest-Sublist (h ∷ seen) hs))
  ]

  rest-IsCovered :
      (seen hs : List ScoredHit) → All (λ g. IsCovered seen g ⊎ IsCovered (rest seen hs) g) hs
  rest-IsCovered seen [] = tt
  rest-IsCovered seen (h ∷ hs) = elim (Bool-cases (is_seen seen h)) [
    | inl old ↦
        subst (λ ks. All (λ g. IsCovered seen g ⊎ IsCovered ks g) (h ∷ hs))
          (sym (rest-seen seen h hs old)) (inl (seen-IsCovered h seen old), rest-IsCovered seen hs)
    | inr new ↦
        let later = rest (h ∷ seen) hs in
        subst (λ ks. All (λ g. IsCovered seen g ⊎ IsCovered ks g) (h ∷ hs))
          (sym (rest-new seen h hs new))
          (inr (inl (inl refl)), All-map hs (moved later) (rest-IsCovered (h ∷ seen) hs))
  ]
    where
      moved :
          (later : List ScoredHit) (g : ScoredHit)
          → IsCovered (h ∷ seen) g ⊎ IsCovered later g
          → IsCovered seen g ⊎ IsCovered (h ∷ later) g
      moved later g (inl (inl c)) = inr (inl c)
      moved later g (inl (inr c)) = inl c
      moved later g (inr c) = inr (inr c)

pub All-Sublist :
    (P : ScoredHit → Type 0) {ks hs : List ScoredHit} → Sublist ks hs → All P hs → All P ks
All-Sublist P empty all = tt
All-Sublist P (keep s) all = (all.0, All-Sublist P s all.1)
All-Sublist P (skip s) all = All-Sublist P s all.1

length-Sublist : {ks hs : List ScoredHit} → Sublist ks hs → length ks ≤ length hs
length-Sublist empty = omega arith
length-Sublist (keep s) = omega (arith, length-Sublist s)
length-Sublist (skip s) = omega (arith, length-Sublist s)

-- `_deduplicate` keeps a part of the hits in their order, no two with one id or one normalised
-- text; each hit has the id or the normalised text of one kept; and those kept and the count
-- of those removed make up all.
pub deduplicate-Distinct :
    (k : CharClass) (fold : ℕ → Text) (hits : List ScoredHit)
    → let (unique, removed) = deduplicate k fold hits in
      Sublist unique hits
      × Distinct k fold unique
      × All (IsCovered k fold unique) hits
      × (length unique + removed ≡ length hits)
unfolding deduplicate
deduplicate-Distinct k fold hits =
    let s = rest-Sublist k fold [] hits in
    (
      s,
      (rest-IsApart k fold [] hits).1,
      All-map hits covered (rest-IsCovered k fold [] hits),
      omega (arith, length-Sublist s),
    )
  where
    covered :
        (g : ScoredHit)
        → ⊥ ⊎ IsCovered k fold (unique_from k fold [] [] hits) g
        → IsCovered k fold (unique_from k fold [] [] hits) g
    covered g (inl e) = elim e [ ]
    covered g (inr c) = c
