-- ===== src/Persistence/Topics/Hierarchy/Parents.antt =====
-- persistence/repositories.py: the parent column of the table of topics, and the check of a new parent.
use note_rag.Base.{
  ℕ, suc, ◌≤◌, ◌≡◌, ◌≢◌, refl, ap, ◌∙◌, subst, Bool, true, false, Option, none, some, [], ◌∷◌, leb,
  ◌==◌, arith, Bool-cases, inl, inr,
}
use note_rag.Base.Filters.{insert_at}
use note_rag.Base.Int.{ℤ, pos, negsuc}
use note_rag.Base.Result.{Result, ok, raise}
use note_rag.Base.Table.{find, update, find-update_self, find-update_ne}
use note_rag.Persistence.Topics.{
  Topic, Topics, TopicError, topic_id, get, set_position, renumber, set_parent, walk,
  validate_parent, id_of, resolve, place,
}
use note_rag.Persistence.Topics.Hierarchy.{
  parent_in_row, parent_in, Rooted, height, IsForest, row_of, Ends, walk-root, walk-Ends,
}

pub parent_in-update :
    (k : ℕ) (f : Topic → Topic) (rows : Topics) (j : ℕ)
    → ((r : Topic) → topic_id (f r) ≡ topic_id r)
    → ((r : Topic) → (f r).parent_id ≡ r.parent_id)
    → parent_in (update topic_id k f rows) j ≡ parent_in rows j
unfolding get find update
parent_in-update k f [] j keeps same = refl
parent_in-update k f (r ∷ rows) j keeps same =
    let ih = parent_in-update k f rows j keeps same in
    elim (Bool-cases (r.id == k)) [
      | inl e ↦ elim (Bool-cases (r.id == j)) [
        | inl h ↦ let h' = ap (λ x. x == j) (keeps r) ∙ h in rw (e, h, h') (ap some (same r))
        | inr h ↦ let h' = ap (λ x. x == j) (keeps r) ∙ h in rw (e, h, h') ih
      ]
      | inr e ↦ elim (Bool-cases (r.id == j)) [ inl h ↦ rw (e, h) refl | inr h ↦ rw (e, h) ih ]
    ]

pub parent_in-renumber :
    (i : ℕ) (ts rows : Topics) (j : ℕ) → parent_in (renumber i ts rows) j ≡ parent_in rows j
unfolding renumber set_position
parent_in-renumber i [] rows j = refl
parent_in-renumber i (t ∷ ts) rows j =
    parent_in-renumber (suc i) ts (update topic_id t.id (set_position i) rows) j
    ∙ parent_in-update t.id (set_position i) rows j (λ r. refl) (λ r. refl)

module _ (t : Topic) (parent : Option ℕ) (n : ℕ) (ts rows : Topics) where
  pub parent_in-place :
      (j : ℕ) → j ≢ t.id → parent_in (place t parent n ts rows) j ≡ parent_in rows j
  unfolding place set_parent get
  parent_in-place j ne =
      parent_in-renumber 0 (insert_at n (set_parent parent t) ts)
        (update topic_id t.id (set_parent parent) rows) j
      ∙ ap parent_in_row (find-update_ne topic_id j t.id (set_parent parent) rows (λ r. refl) ne)

  pub parent_in-place_self :
      get t.id rows ≡ some t → parent_in (place t parent n ts rows) t.id ≡ some parent
  unfolding place set_parent get
  parent_in-place_self found =
      parent_in-renumber 0 (insert_at n (set_parent parent t) ts)
        (update topic_id t.id (set_parent parent) rows) t.id
      ∙ ap parent_in_row (find-update_self topic_id t.id (set_parent parent) rows refl found)

abbrev pub is_fuel : TopicError → Bool
is_fuel TopicError.out_of_fuel = true
is_fuel _ = false

abbrev pub ran_out : {A : Type 0} → Result TopicError A → Bool
ran_out (ok a) = false
ran_out (raise e) = is_fuel e

pub ran_out-resolve : (count : ℕ) (position : Option ℤ) → ran_out (resolve count position) ≡ false
unfolding resolve
ran_out-resolve count none = refl
ran_out-resolve count (some (pos k)) = elim (Bool-cases (leb k count)) [
  | inl le ↦ rw le refl
  | inr gt ↦ rw gt refl
]
ran_out-resolve count (some (negsuc k)) = refl

-- The object has its row.
abbrev pub IsRow : Topics → Option Topic → Type 0
IsRow rows none = Unit
IsRow rows (some t) = get t.id rows ≡ some t

module _ (fuel : ℕ) (rows : Topics) (forest : IsForest fuel rows) (course_id k : ℕ) where
  pub rooted :
      (parent : Option Topic)
      → IsRow rows parent
      → (r : Rooted (parent_in rows) (id_of parent)) × (height r ≤ fuel)
  rooted none row = (Rooted.root, omega arith)
  rooted (some p) row =
      let (r, lt) = forest p.id p.parent_id (ap parent_in_row row) in
      (Rooted.below p.id p.parent_id (ap parent_in_row row) r, omega arith)

  pub walk-validate :
      (parent : Option Topic)
      → IsRow rows parent
      → validate_parent fuel rows course_id parent (some k) ≡ ok tt
      → walk fuel rows (some k) (row_of rows (id_of parent)) ≡ ok tt
  unfolding validate_parent
  walk-validate none row h = walk-root fuel rows (some k)
  walk-validate (some p) row h = elim (Bool-cases (p.course_id == course_id)) [
    | inl same ↦ ap (walk fuel rows (some k)) row ∙ (rw same at h)
    | inr other ↦
        let h' : Path (Result TopicError (Unit {0})) (raise TopicError.foreign_parent) (ok tt) =
          rw other at h in
        cc
  ]

  pub ran_out-validate :
      (parent : Option Topic)
      → IsRow rows parent
      → ran_out (validate_parent fuel rows course_id parent (some k)) ≡ false
  unfolding validate_parent
  ran_out-validate none row = refl
  ran_out-validate (some p) row = elim (Bool-cases (p.course_id == course_id)) [
    | inl same ↦
        let (r, le) = rooted (some p) row in
        let ends =
          subst (λ x. Ends (walk fuel rows (some k) x)) row
            (walk-Ends fuel rows (some k) (some p.id) r le) in
        rw same (elim ends [ inl e ↦ ap ran_out e | inr e ↦ ap ran_out e ])
    | inr other ↦ rw other refl
  ]
