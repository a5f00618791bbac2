-- ===== src/Persistence/Topics/Families.antt =====
-- persistence/repositories.py: the rows that `_siblings` chooses, before and after a change of one row.
use mathlib.Core.List.{Permᴰ}
use note_rag.Base.{
  ℕ, ◌≡◌, ◌≢◌, refl, sym, ap, ◌∙◌, Bool, true, false, ◌&&◌, Option, none, some, ◌==◌, ==_iff, arith,
}
use note_rag.Base.Filters.{filter, mem-filter}
use note_rag.Base.Sorting.{mem-perm, sort_by, sort_by-perm}
use note_rag.Base.Table.{Unique, Unique-eq}
use note_rag.Persistence.Topics.{
  Topic, Topics, topic_id, before, set_position, renumber, same_parent, is_sibling, is_kept,
  siblings,
}
use note_rag.Persistence.Topics.Numbered.{
  number_from, IsStable, sort_by-renumber, filter-renumber_apart,
}

-- The `WHERE` of `_siblings`
abbrev pub chosen : ℕ → Option ℕ → Option ℕ → Topic → Bool
chosen c p exclude t = is_sibling c p t && is_kept exclude t

pub chosen-IsStable : (c : ℕ) (p exclude : Option ℕ) → IsStable (chosen c p exclude)
unfolding set_position is_sibling is_kept
chosen-IsStable c p none n r = refl
chosen-IsStable c p (some k) n r = refl

pub same_parent_refl : (p : Option ℕ) → same_parent p p ≡ true
unfolding same_parent
same_parent_refl none = refl
same_parent_refl (some p) = ground arith

pub same_parent_sound : (p q : Option ℕ) → same_parent p q ≡ true → p ≡ q
unfolding same_parent
same_parent_sound none none h = refl
same_parent_sound none (some q) h = cc
same_parent_sound (some p) none h = cc
same_parent_sound (some p) (some q) h = ap some ((==_iff p q).0 h)

-- The parent and the course of what is chosen.
pub chosen-course :
    (c : ℕ) (p exclude : Option ℕ) (t : Topic) → chosen c p exclude t ≡ true → t.course_id ≡ c
unfolding is_sibling
chosen-course c p exclude t h = ground arith

and_left : (a b : Bool) → (a && b) ≡ true → a ≡ true
and_left true b h = refl
and_left false b h = h

and_right : (a b : Bool) → (a && b) ≡ true → b ≡ true
and_right true b h = h
and_right false b h = cc

pub chosen-parent :
    (c : ℕ) (p exclude : Option ℕ) (t : Topic) → chosen c p exclude t ≡ true → t.parent_id ≡ p
unfolding is_sibling
chosen-parent c p exclude t h =
    same_parent_sound t.parent_id p
      (and_right (t.course_id == c) _ (and_left (is_sibling c p t) _ h))

pub chosen_self : (t : Topic) → chosen t.course_id t.parent_id none t ≡ true
unfolding is_sibling is_kept
chosen_self t = rw (same_parent_refl t.parent_id) (ground arith)

pub chosen_kept :
    (c k : ℕ) (p : Option ℕ) (t : Topic) → t.id ≢ k → chosen c p (some k) t ≡ chosen c p none t
unfolding is_kept
chosen_kept c k p t ne = ground arith

pub chosen_excluded :
    (c k : ℕ) (p : Option ℕ) (t : Topic) → t.id ≡ k → chosen c p (some k) t ≡ false
unfolding is_kept
chosen_excluded c k p t e = ground arith

-- Families are the same or have nobody in common.
abbrev pub Differ : ℕ → Option ℕ → ℕ → Option ℕ → Type 0
Differ c p c' p' = (c ≡ c') → p ≡ p' → ⊥

pub chosen-Differ :
    (c c' : ℕ) (p p' exclude exclude' : Option ℕ) (t : Topic)
    → Differ c p c' p'
    → chosen c p exclude t ≡ true
    → chosen c' p' exclude' t ≡ true
    → ⊥
chosen-Differ c c' p p' exclude exclude' t differ h h' =
    differ (sym (chosen-course c p exclude t h) ∙ chosen-course c' p' exclude' t h')
      (sym (chosen-parent c p exclude t h) ∙ chosen-parent c' p' exclude' t h')

module _ (rows : Topics) (u : Unique topic_id rows) (c : ℕ) (p exclude : Option ℕ) (ts : Topics)
    (perm : Permᴰ ts (filter (chosen c p exclude) rows)) where
  -- Renumbering a family numbers it in that order, and leaves the other families.
  pub siblings-renumber : siblings c p exclude (renumber 0 ts rows) ≡ number_from 0 ts
  unfolding siblings
  siblings-renumber =
      sort_by-renumber (chosen c p exclude) (chosen-IsStable c p exclude) 0 ts rows u perm

  pub siblings-renumber_other :
      (c' : ℕ) (p' exclude' : Option ℕ)
      → Differ c p c' p'
      → siblings c' p' exclude' (renumber 0 ts rows) ≡ siblings c' p' exclude' rows
  unfolding siblings
  siblings-renumber_other c' p' exclude' differ = ap (sort_by before) (
      filter-renumber_apart (chosen c' p' exclude') (chosen-IsStable c' p' exclude') 0 ts rows
        (λ r t m kept n same.
          let (there, kept') = mem-filter (chosen c p exclude) rows (mem-perm perm n) in
          let e : t ≡ r = Unique-eq topic_id rows u there m same in
          chosen-Differ c c' p p' exclude exclude' t differ kept'
            (ap (chosen c' p' exclude') e ∙ kept)))

pub siblings-perm :
    (c : ℕ) (p exclude : Option ℕ) (rows : Topics)
    → Permᴰ (siblings c p exclude rows) (filter (chosen c p exclude) rows)
unfolding siblings
siblings-perm c p exclude rows = sort_by-perm before (filter (chosen c p exclude) rows)
