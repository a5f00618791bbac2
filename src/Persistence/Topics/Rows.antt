-- ===== src/Persistence/Topics/Rows.antt =====
-- persistence/repositories.py: the families of the table when one row is changed.
use mathlib.Core.List.{Permᴰ}
use mathlib.Core.List.Permᴰ
use note_rag.Base.{
  ℕ, ◌≡◌, ◌≢◌, refl, sym, ap, ◌∙◌, subst, Bool, true, false, Option, none, some, [], ◌∷◌, All, ◌==◌,
  ==_iff, arith, Bool-cases, inl, inr,
}
use note_rag.Base.Filters.{filter}
use note_rag.Base.Table.{find, update, Unique}
use note_rag.Persistence.Topics.{Topic, Topics, topic_id}
use note_rag.Persistence.Topics.Families.{chosen, chosen_kept, chosen_excluded}

other_key : (a b : ℕ) → (a == b) ≡ false → a ≢ b
other_key a b h = ground arith

update_id : (k : ℕ) (rows : Topics) → update topic_id k (λ r. r) rows ≡ rows
unfolding update
update_id k [] = refl
update_id k (r ∷ rows) = elim (Bool-cases (r.id == k)) [
  | inl e ↦ rw e (ap (◌∷◌ r) (update_id k rows))
  | inr e ↦ rw e (ap (◌∷◌ r) (update_id k rows))
]

module _ (k : ℕ) (f : Topic → Topic) (c : ℕ) (p : Option ℕ) where
  abbrev all_of : Topic → Bool
  all_of = chosen c p none

  abbrev others_of : Topic → Bool
  others_of = chosen c p (some k)

  filter-update_apart :
      (rows : Topics)
      → All (λ q. topic_id q ≢ k) rows
      → filter all_of (update topic_id k f rows) ≡ filter others_of rows
  unfolding filter update
  filter-update_apart [] apart = refl
  filter-update_apart (r ∷ rows) (ne, apart) =
      let ih = filter-update_apart rows apart in
      let same = chosen_kept c k p r ne in
      elim (Bool-cases (r.id == k)) [
        | inl e ↦ absurd (ne ((==_iff r.id k).0 e))
        | inr e ↦ elim (Bool-cases (all_of r)) [
          | inl h ↦ let h' = same ∙ h in rw (e, h, h') (ap (◌∷◌ r) ih)
          | inr h ↦ let h' = same ∙ h in rw (e, h, h') ih
        ]
      ]

  module _ (t : Topic) where
    -- The row is the first.
    here :
        (r : Topic) (rows : Topics)
        → (r.id == k) ≡ true
        → find topic_id k (r ∷ rows) ≡ some t
        → r ≡ t
    unfolding find
    here r rows e found = let s : some r ≡ some t = rw e at found in cc

    here_apart :
        (r : Topic) (rows : Topics)
        → (r.id == k) ≡ true
        → All (λ q. topic_id q ≢ topic_id r) rows
        → All (λ q. topic_id q ≢ k) rows
    here_apart r rows e apart =
        subst (λ x. All (λ q. topic_id q ≢ x) rows) ((==_iff r.id k).0 e) apart

    there :
        (r : Topic) (rows : Topics)
        → (r.id == k) ≡ false
        → find topic_id k (r ∷ rows) ≡ some t
        → find topic_id k rows ≡ some t
    unfolding find
    there r rows e found = rw e at found

    -- The row leaves the family, or is in none of them.
    pub filter-update_out :
        (rows : Topics)
        → Unique topic_id rows
        → find topic_id k rows ≡ some t
        → all_of (f t) ≡ false
        → filter all_of (update topic_id k f rows) ≡ filter others_of rows
    unfolding filter update
    filter-update_out [] u found out = refl
    filter-update_out (r ∷ rows) (apart, u) found out = elim (Bool-cases (r.id == k)) [
      | inl e ↦
          let out' : all_of (f r) ≡ false = ap (λ x. all_of (f x)) (here r rows e found) ∙ out in
          let gone = chosen_excluded c k p r ((==_iff r.id k).0 e) in
          rw (e, out', gone) (filter-update_apart rows (here_apart r rows e apart))
      | inr e ↦
          let ih = filter-update_out rows u (there r rows e found) out in
          let same = chosen_kept c k p r (other_key r.id k e) in
          elim (Bool-cases (all_of r)) [
            | inl h ↦ let h' = same ∙ h in rw (e, h, h') (ap (◌∷◌ r) ih)
            | inr h ↦ let h' = same ∙ h in rw (e, h, h') ih
          ]
    ]

    -- The row comes into the family, or stays in it.
    pub filter-update_in :
        (rows : Topics)
        → Unique topic_id rows
        → find topic_id k rows ≡ some t
        → all_of (f t) ≡ true
        → Permᴰ (f t ∷ filter others_of rows) (filter all_of (update topic_id k f rows))
    unfolding filter update find
    filter-update_in [] u found into = cc
    filter-update_in (r ∷ rows) (apart, u) found into = elim (Bool-cases (r.id == k)) [
      | inl e ↦
          let same = here r rows e found in
          let into' : all_of (f r) ≡ true = ap (λ x. all_of (f x)) same ∙ into in
          let gone = chosen_excluded c k p r ((==_iff r.id k).0 e) in
          let rest = filter-update_apart rows (here_apart r rows e apart) in
          rw (e, into', gone)
            (subst (λ x. Permᴰ (f t ∷ filter others_of rows) (f r ∷ x)) (sym rest)
              (Permᴰ.cons (ap f (sym same)) (Permᴰ.refl (filter others_of rows))))
      | inr e ↦
          let ih = filter-update_in rows u (there r rows e found) into in
          let same = chosen_kept c k p r (other_key r.id k e) in
          elim (Bool-cases (all_of r)) [
            | inl h ↦
                let h' = same ∙ h in
                rw (e, h, h') (Permᴰ.trans (Permᴰ.swap refl refl) (Permᴰ.cons refl ih))
            | inr h ↦ let h' = same ∙ h in rw (e, h, h') ih
          ]
    ]

-- A family that the row is not in.
pub filter-others :
    (k c : ℕ) (p : Option ℕ) (t : Topic) (rows : Topics)
    → Unique topic_id rows
    → find topic_id k rows ≡ some t
    → chosen c p none t ≡ false
    → filter (chosen c p (some k)) rows ≡ filter (chosen c p none) rows
filter-others k c p t rows u found out =
    sym (filter-update_out k (λ r. r) c p t rows u found out)
    ∙ ap (filter (chosen c p none)) (update_id k rows)

-- A change of the row that is left out.
pub filter-update_excluded :
    (k c : ℕ) (p : Option ℕ) (f : Topic → Topic) (rows : Topics)
    → ((r : Topic) → topic_id (f r) ≡ topic_id r)
    → filter (chosen c p (some k)) (update topic_id k f rows) ≡ filter (chosen c p (some k)) rows
unfolding filter update
filter-update_excluded k c p f [] keeps = refl
filter-update_excluded k c p f (r ∷ rows) keeps =
    let ih = filter-update_excluded k c p f rows keeps in
    elim (Bool-cases (r.id == k)) [
      | inl e ↦
          let same = (==_iff r.id k).0 e in
          let gone = chosen_excluded c k p r same in
          let gone' = chosen_excluded c k p (f r) (keeps r ∙ same) in rw (e, gone, gone') ih
      | inr e ↦ elim (Bool-cases (chosen c p (some k) r)) [
        | inl h ↦ rw (e, h) (ap (◌∷◌ r) ih)
        | inr h ↦ rw (e, h) ih
      ]
    ]
