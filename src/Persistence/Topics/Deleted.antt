-- ===== src/Persistence/Topics/Deleted.antt =====
-- persistence/repositories.py: `TopicRepository.delete`.
pub mod Below
use mathlib.Core.List.{Permᴰ}
use note_rag.Base.{
  ℕ, suc, ◌≡◌, ◌≢◌, refl, sym, ap, ◌∙◌, subst, Bool, true, false, not, ◌||◌, Option, none, some, [],
  ◌∷◌, ◌==◌, ==_iff, arith, Bool-cases, Option-cases, inl, inr,
}
use note_rag.Base.Filters.{filter}
use note_rag.Base.Table.{find, find-key, Unique}
use note_rag.Base.Queries.{Unique-filter, find-filter-none, find-filter_kept, find-filter_dropped}
use note_rag.Persistence.Topics.{
  Topic, Topics, topic_id, get, siblings, parent_of, is_below, delete,
}
use note_rag.Persistence.Topics.Numbered.{number_from}
use note_rag.Persistence.Topics.Families.{
  chosen, chosen_kept, chosen_excluded, chosen-parent, siblings-perm, siblings-renumber,
}
use note_rag.Persistence.Topics.Deleted.Below.{Under, Answers, is_below-Answers, not-Under_self}
use note_rag.Persistence.Topics.Hierarchy.{
  parent_in_row, parent_in, Rooted, IsForest, other_key, row_of,
}
use note_rag.Persistence.Topics.Hierarchy.Parents.{parent_in-renumber}

not_either : (a b : Bool) → a ≡ false → b ≡ false → not (a || b) ≡ true
not_either true b h g = cc
not_either false b h g = ap not g

key_ne : (a b : ℕ) → a ≢ b → (a == b) ≡ false
key_ne a b ne = ground arith

-- What a deletion leaves: the topic and those below it are gone, the others stay under their parents,
-- and the siblings of the topic close up in their order.
pub record IsDeleted (rows : Topics) (t : Topic) (rows' : Topics) : Type 0 where
  pub removed : (k : ℕ) → Under (parent_in rows) t.id (some k) → parent_in rows' k ≡ none
  pub others :
      (k : ℕ) → (Under (parent_in rows) t.id (some k) → ⊥) → parent_in rows' k ≡ parent_in rows k
  pub closed :
      siblings t.course_id t.parent_id none rows'
      ≡ number_from 0 (siblings t.course_id t.parent_id (some t.id) rows)

abbrev closing : Topics → Topic → Topics
closing rows t = siblings t.course_id t.parent_id (some t.id) rows

module _ (fuel : ℕ) (rows : Topics) (forest : IsForest fuel rows) (u : Unique topic_id rows)
    (t : Topic) (found : get t.id rows ≡ some t) where
  abbrev stays : Topic → Bool
  stays r = not (is_below (suc fuel) rows t.id (some r))

  abbrev left : Topics
  left = filter stays rows

  above : (k : ℕ) (r : Topic) → get k rows ≡ some r → parent_in rows k ≡ some r.parent_id
  above k r there = ap parent_in_row there

  answer :
      (k : ℕ) (r : Topic)
      → get k rows ≡ some r
      → Answers (parent_in rows) t.id (some k) (is_below (suc fuel) rows t.id (some r))
  answer k r there =
      let (up, lt) = forest k r.parent_id (above k r there) in
      subst (λ x. Answers (parent_in rows) t.id (some k) (is_below (suc fuel) rows t.id x)) there
        (is_below-Answers rows t.id (suc fuel) (some k)
          (Rooted.below k r.parent_id (above k r there) up) (omega arith))

  apart : is_below fuel rows t.id (row_of rows t.parent_id) ≡ false
  apart =
      let (up, lt) = forest t.id t.parent_id (above t.id t found) in
      elim (is_below-Answers rows t.id fuel t.parent_id up (omega arith)) [
        | inl (yes', under) ↦
            absurd (not-Under_self (parent_in rows) t.id t.parent_id (above t.id t found) up under)
        | inr (no', not_under) ↦ no'
      ]

  left-removed : (k : ℕ) → Under (parent_in rows) t.id (some k) → parent_in left k ≡ none
  unfolding get
  left-removed k under = elim (Option-cases (get k rows)) [
    | inl none' ↦ ap parent_in_row (find-filter-none topic_id stays k rows none')
    | inr (r, there) ↦ elim (answer k r there) [
      | inl (yes', w) ↦
          ap parent_in_row (find-filter_dropped topic_id stays k rows u there (ap not yes'))
      | inr (no', not_under) ↦ absurd (not_under under)
    ]
  ]

  left-others :
      (k : ℕ) → (Under (parent_in rows) t.id (some k) → ⊥) → parent_in left k ≡ parent_in rows k
  unfolding get
  left-others k not_under = elim (Option-cases (get k rows)) [
    | inl none' ↦
        ap parent_in_row (find-filter-none topic_id stays k rows none')
        ∙ sym (ap parent_in_row none')
    | inr (r, there) ↦ elim (answer k r there) [
      | inl (yes', w) ↦ absurd (not_under w)
      | inr (no', w) ↦
          ap parent_in_row (find-filter_kept topic_id stays k rows there (ap not no'))
          ∙ sym (above k r there)
    ]
  ]

  is_below_own : (r : Topic) → r.id ≡ t.id → stays r ≡ false
  unfolding is_below
  is_below_own r e = let h = (==_iff r.id t.id).1 e in rw h refl

  stays_sibling : (r : Topic) → r.id ≢ t.id → r.parent_id ≡ t.parent_id → stays r ≡ true
  unfolding is_below parent_of
  stays_sibling r ne e =
      not_either (r.id == t.id) (is_below fuel rows t.id (parent_of r rows)) (key_ne r.id t.id ne)
        (ap (λ p. is_below fuel rows t.id (row_of rows p)) e ∙ apart)

  -- Of the family, all but the topic stay.
  filter-left :
      (rs : Topics)
      → filter (chosen t.course_id t.parent_id none) (filter stays rs)
        ≡ filter (chosen t.course_id t.parent_id (some t.id)) rs
  unfolding filter
  filter-left [] = refl
  filter-left (r ∷ rs) =
      let ih = filter-left rs in
      elim (Bool-cases (r.id == t.id)) [
        | inl own ↦
            let e = (==_iff r.id t.id).0 own in
            let gone = is_below_own r e in
            let out = chosen_excluded t.course_id t.id t.parent_id r e in rw (gone, out) ih
        | inr other ↦
            let ne = other_key r.id t.id other in
            let same = chosen_kept t.course_id t.id t.parent_id r ne in
            elim (Bool-cases (chosen t.course_id t.parent_id none r)) [
              | inl h ↦
                  let stay = stays_sibling r ne (chosen-parent t.course_id t.parent_id none r h) in
                  let h' = same ∙ h in rw (stay, h, h') (ap (◌∷◌ r) ih)
              | inr h ↦
                  let h' = same ∙ h in
                  elim (Bool-cases (stays r)) [
                    | inl stay ↦ rw (stay, h, h') ih
                    | inr gone ↦ rw (gone, h') ih
                  ]
            ]
      ]

  deleted-closed :
      siblings t.course_id t.parent_id none (delete (suc fuel) t rows)
      ≡ number_from 0 (siblings t.course_id t.parent_id (some t.id) rows)
  unfolding delete
  deleted-closed =
      siblings-renumber left (Unique-filter topic_id stays rows u) t.course_id t.parent_id none
        (siblings t.course_id t.parent_id (some t.id) rows)
        (subst (λ x. Permᴰ (siblings t.course_id t.parent_id (some t.id) rows) x)
          (sym (filter-left rows)) (siblings-perm t.course_id t.parent_id (some t.id) rows))

  pub left-IsDeleted : IsDeleted rows t (delete (suc fuel) t rows)
  unfolding delete
  left-IsDeleted = record {
    removed = λ k under. parent_in-renumber 0 (closing rows t) left k ∙ left-removed k under;
    others = λ k not_under. parent_in-renumber 0 (closing rows t) left k ∙ left-others k not_under;
    closed = deleted-closed;
  }

-- If every topic is fewer steps below the root than the fuel, and the topic has its row, then `delete` removes
-- the topic and all topics below it and no other, leaves the others under their parents, and numbers
-- the siblings of the topic from 0 in their former order.
-- (These are the rows of the session; the database can refuse them as they are flushed.)
pub delete-IsDeleted :
    (fuel : ℕ) (rows : Topics) (forest : IsForest fuel rows) (u : Unique topic_id rows) (t : Topic)
    (found : get t.id rows ≡ some t)
    → IsDeleted rows t (delete (suc fuel) t rows)
delete-IsDeleted fuel rows forest u t found = left-IsDeleted fuel rows forest u t found
