-- ===== src/Persistence/Topics/Moved.antt =====
-- persistence/repositories.py: the families of the table when a topic is moved.
use mathlib.Core.List.{Permᴰ}
use note_rag.Base.{
  ℕ, zero, suc, ◌≡◌, ◌≢◌, ◌⊎◌, refl, sym, ap, ◌∙◌, subst, Bool, true, false, Option, none, some, [],
  ◌∷◌, All, length, Bool-cases, inl, inr,
}
use note_rag.Base.Int.{ℤ}
use note_rag.Base.Result.{Result, ok, raise, ◌>>=◌, ◌>>◌}
use note_rag.Base.Filters.{filter, insert_at, insert_at-perm, mem-filter, All-mem_all}
use note_rag.Base.Sorting.{mem-perm, sort_by}
use note_rag.Base.Table.{find, update, Unique, Unique-update, find-update_ne}
use note_rag.Persistence.Topics.{
  Topic, Topics, TopicError, topic_id, get, before, set_position, renumber, same_parent, siblings,
  set_parent, resolve, place, flush, flushed, move,
}
use note_rag.Persistence.Topics.Numbered.{number_from}
use note_rag.Persistence.Topics.Families.{
  chosen, chosen_self, chosen_excluded, chosen-Differ, same_parent_refl, same_parent_sound, Differ,
  siblings-renumber, siblings-renumber_other, siblings-perm,
}
use note_rag.Persistence.Topics.Flushed.{IsRefused, IsAccepted, IsFlush, flush-IsFlush}
use note_rag.Persistence.Topics.Rows.{filter-update_in, filter-update_out, filter-others}

-- Only the order of the topics that are numbered counts.
number_from-number_from :
    (i j : ℕ) (ts : Topics) → number_from i (number_from j ts) ≡ number_from i ts
unfolding set_position
number_from-number_from i j [] = refl
number_from-number_from i j (t ∷ ts) =
    ap (◌∷◌ (set_position i t)) (number_from-number_from (suc i) (suc j) ts)

number_from-insert_at :
    (i j n : ℕ) (t : Topic) (ts : Topics)
    → number_from i (insert_at n t (number_from j ts)) ≡ number_from i (insert_at n t ts)
unfolding insert_at set_position
number_from-insert_at i j zero t ts =
    ap (◌∷◌ (set_position i t)) (number_from-number_from (suc i) j ts)
number_from-insert_at i j (suc n) t [] = refl
number_from-insert_at i j (suc n) t (s ∷ ts) =
    ap (◌∷◌ (set_position i s)) (number_from-insert_at (suc i) (suc j) n t ts)

length-number_from : (i : ℕ) (ts : Topics) → length (number_from i ts) ≡ length ts
length-number_from i [] = refl
length-number_from i (t ∷ ts) = ap suc (length-number_from (suc i) ts)

pub Unique-renumber :
    (i : ℕ) (ts rows : Topics) → Unique topic_id rows → Unique topic_id (renumber i ts rows)
unfolding renumber set_position
Unique-renumber i [] rows u = u
Unique-renumber i (t ∷ ts) rows u =
    Unique-renumber (suc i) ts (update topic_id t.id (set_position i) rows)
      (Unique-update topic_id t.id (set_position i) (λ r. refl) rows u)

get-renumber_apart :
    (k i : ℕ) (ts rows : Topics) → All (λ t. t.id ≢ k) ts → get k (renumber i ts rows) ≡ get k rows
unfolding renumber set_position get
get-renumber_apart k i [] rows apart = refl
get-renumber_apart k i (t ∷ ts) rows (ne, apart) =
    get-renumber_apart k (suc i) ts (update topic_id t.id (set_position i) rows) apart
    ∙ find-update_ne topic_id k t.id (set_position i) rows (λ r. refl) (λ e. ne (sym e))

-- A topic is not among its siblings.
siblings_apart :
    (c k : ℕ) (p : Option ℕ) (rows : Topics) → All (λ s. s.id ≢ k) (siblings c p (some k) rows)
siblings_apart c k p rows =
    All-mem_all (λ s. s.id ≢ k) (siblings c p (some k) rows)
      (λ s m e.
        let kept =
          (mem-filter (chosen c p (some k)) rows
            (mem-perm (siblings-perm c p (some k) rows) m)).1 in
        let h : Path Bool true false = sym kept ∙ chosen_excluded c k p s e in cc)

-- What a move makes of the families: the topic stands in the new one at its position, the old one
-- closes up, and the others are as before.
pub record IsMoved (rows : Topics) (t : Topic) (parent : Option ℕ) (position : ℕ) (rows' : Topics)
    : Type 0 where
  pub joined :
      siblings t.course_id parent none rows'
      ≡ number_from 0
          (insert_at position (set_parent parent t) (siblings t.course_id parent (some t.id) rows))
  pub left :
      t.parent_id ≢ parent
      → siblings t.course_id t.parent_id none rows'
        ≡ number_from 0 (siblings t.course_id t.parent_id (some t.id) rows)
  pub others :
      (c : ℕ) (p : Option ℕ)
      → Differ t.course_id parent c p
      → Differ t.course_id t.parent_id c p
      → siblings c p none rows' ≡ siblings c p none rows

-- Between the flushes: the siblings that the topic had are numbered without it, and it is where it was.
pub record IsClosed (rows : Topics) (t : Topic) (rows' : Topics) : Type 0 where
  pub numbered :
      siblings t.course_id t.parent_id (some t.id) rows'
      ≡ number_from 0 (siblings t.course_id t.parent_id (some t.id) rows)
  pub waits : get t.id rows' ≡ some t

-- Why a topic is not moved: the position, or rows that the database refuses at one of the two flushes.
pub data Refuses (rows : Topics) (t : Topic) (parent : Option ℕ) (position : Option ℤ)
    : TopicError → Type 0 where
  outside :
      (e : TopicError)
      → resolve (length (siblings t.course_id parent (some t.id) rows)) position ≡ raise e
      → Refuses rows t parent position e
  closing :
      (mid : Topics)
      → IsClosed rows t mid
      → IsRefused rows mid
      → Refuses rows t parent position TopicError.not_unique
  placing :
      (n : ℕ) (mid after : Topics)
      → resolve (length (siblings t.course_id parent (some t.id) rows)) position ≡ ok n
      → IsClosed rows t mid
      → IsMoved rows t parent n after
      → IsRefused mid after
      → Refuses rows t parent position TopicError.not_unique

module _ (rows : Topics) (u : Unique topic_id rows) (t : Topic) (found : get t.id rows ≡ some t)
    (parent : Option ℕ) where
  abbrev pub old : Topics
  old = siblings t.course_id t.parent_id (some t.id) rows

  abbrev pub closed : Topics
  closed = renumber 0 old rows

  abbrev pub family : Topics
  family = siblings t.course_id parent (some t.id) closed

  abbrev target : Topics
  target = siblings t.course_id parent (some t.id) rows

  pub closed-found : get t.id closed ≡ some t
  closed-found =
      get-renumber_apart t.id 0 old rows (siblings_apart t.course_id t.id t.parent_id rows) ∙ found

  Differ-parents :
      (same_parent t.parent_id parent) ≡ false → Differ t.course_id t.parent_id t.course_id parent
  Differ-parents h e e' =
      let h' : Path Bool true false =
        sym (same_parent_refl t.parent_id) ∙ ap (same_parent t.parent_id) e' ∙ h in
      cc

  old-closed : siblings t.course_id t.parent_id (some t.id) closed ≡ number_from 0 old
  old-closed =
      siblings-renumber rows u t.course_id t.parent_id (some t.id) old
        (siblings-perm t.course_id t.parent_id (some t.id) rows)

  -- Closing up the old family leaves the order of the new one.
  family-target : (family ≡ number_from 0 target) ⊎ (family ≡ target)
  family-target = elim (Bool-cases (same_parent t.parent_id parent)) [
    | inl h ↦ inl (
        subst
          (λ q.
            siblings t.course_id q (some t.id) closed
            ≡ number_from 0 (siblings t.course_id q (some t.id) rows))
          (same_parent_sound t.parent_id parent h) old-closed)
    | inr h ↦ inr (
        siblings-renumber_other rows u t.course_id t.parent_id (some t.id) old
          (siblings-perm t.course_id t.parent_id (some t.id) rows) t.course_id parent (some t.id)
          (Differ-parents h))
  ]

  length-family : length family ≡ length target
  length-family = elim family-target [
    | inl e ↦ ap length e ∙ length-number_from 0 target
    | inr e ↦ ap length e
  ]

  insert_at-family :
      (n : ℕ) (s : Topic)
      → number_from 0 (insert_at n s family) ≡ number_from 0 (insert_at n s target)
  insert_at-family n s = elim family-target [
    | inl e ↦ ap (λ x. number_from 0 (insert_at n s x)) e ∙ number_from-insert_at 0 0 n s target
    | inr e ↦ ap (λ x. number_from 0 (insert_at n s x)) e
  ]

  abbrev there : Topics
  there = update topic_id t.id (set_parent parent) closed

  closed-Unique : Unique topic_id closed
  closed-Unique = Unique-renumber 0 old rows u

  there-Unique : Unique topic_id there
  unfolding set_parent
  there-Unique = Unique-update topic_id t.id (set_parent parent) (λ r. refl) closed closed-Unique

  closed-find : find topic_id t.id closed ≡ some t
  unfolding get
  closed-find = closed-found

  moved_chosen : chosen t.course_id parent none (set_parent parent t) ≡ true
  unfolding set_parent
  moved_chosen = chosen_self (set_parent parent t)

  moved_elsewhere :
      (c : ℕ) (p : Option ℕ)
      → Differ t.course_id parent c p
      → chosen c p none (set_parent parent t) ≡ false
  moved_elsewhere c p differ = elim (Bool-cases (chosen c p none (set_parent parent t))) [
    | inl h ↦
        absurd (
          chosen-Differ t.course_id c parent p none none (set_parent parent t) differ moved_chosen
            h)
    | inr h ↦ h
  ]

  inserted-perm :
      (n : ℕ)
      → Permᴰ
          (insert_at n (set_parent parent t) family)
          (filter (chosen t.course_id parent none) there)
  inserted-perm n = Permᴰ.trans (insert_at-perm n (set_parent parent t) family) (
      Permᴰ.trans (Permᴰ.cons refl (siblings-perm t.course_id parent (some t.id) closed)) (
        filter-update_in t.id (set_parent parent) t.course_id parent t closed closed-Unique
          closed-find moved_chosen))

  placed-joined :
      (n : ℕ)
      → siblings t.course_id parent none (place t parent n family closed)
        ≡ number_from 0 (insert_at n (set_parent parent t) target)
  unfolding place
  placed-joined n =
      siblings-renumber there there-Unique t.course_id parent none
        (insert_at n (set_parent parent t) family) (inserted-perm n)
      ∙ insert_at-family n (set_parent parent t)

  placed_elsewhere :
      (n c : ℕ) (p : Option ℕ)
      → Differ t.course_id parent c p
      → siblings c p none (place t parent n family closed) ≡ siblings c p (some t.id) closed
  unfolding place siblings
  placed_elsewhere n c p differ =
      siblings-renumber_other there there-Unique t.course_id parent none
        (insert_at n (set_parent parent t) family) (inserted-perm n) c p none differ
      ∙ ap (sort_by before) (
          filter-update_out t.id (set_parent parent) c p t closed closed-Unique closed-find
            (moved_elsewhere c p differ))

  elsewhere :
      (c : ℕ) (p : Option ℕ)
      → Differ t.course_id t.parent_id c p
      → siblings c p (some t.id) closed ≡ siblings c p none rows
  unfolding siblings get
  elsewhere c p differ =
      siblings-renumber_other rows u t.course_id t.parent_id (some t.id) old
        (siblings-perm t.course_id t.parent_id (some t.id) rows) c p (some t.id) differ
      ∙ ap (sort_by before) (
          filter-others t.id c p t rows u found (elim (Bool-cases (chosen c p none t)) [
            | inl h ↦
                absurd
                  (chosen-Differ t.course_id c t.parent_id p none none t differ (chosen_self t) h)
            | inr h ↦ h
          ]))

  place-IsMoved : (n : ℕ) → IsMoved rows t parent n (place t parent n family closed)
  place-IsMoved n = record {
    joined = placed-joined n;
    left = λ ne. placed_elsewhere n t.course_id t.parent_id (λ e e'. ne (sym e')) ∙ old-closed;
    others =
        λ c p new_differ old_differ. placed_elsewhere n c p new_differ ∙ elsewhere c p old_differ;
  }

  closed-IsClosed : IsClosed rows t closed
  closed-IsClosed = record { numbered = old-closed; waits = closed-found }

  -- What `move` comes back with.
  abbrev pub Moved : Option ℤ → Result TopicError Topics → Type 0
  Moved position (raise e) = Refuses rows t parent position e
  Moved position (ok rows') =
      (n : ℕ) × (resolve (length target) position ≡ ok n)
      × IsMoved rows t parent n rows'
      × ((mid : Topics) × IsClosed rows t mid × IsAccepted rows mid × IsAccepted mid rows')

  resolved :
      (position : Option ℤ) (r : Result TopicError ℕ)
      → resolve (length family) position ≡ r
      → resolve (length target) position ≡ r
  resolved position r h = ap (λ k. resolve k position) (sym length-family) ∙ h

  after_place :
      (position : Option ℤ) (n : ℕ) (f : Result TopicError (Unit {0}))
      → resolve (length family) position ≡ ok n
      → IsAccepted rows closed
      → IsFlush closed (place t parent n family closed) f
      → Moved position (f >> ok (place t parent n family closed))
  after_place position n (ok x) h accepted (IsFlush.passed accepted') = (
    n,
    resolved position (ok n) h,
    place-IsMoved n,
    (closed, closed-IsClosed, accepted, accepted'),
  )
  after_place position n (raise e) h accepted (IsFlush.refused refused') =
      Refuses.placing n closed (place t parent n family closed) (resolved position (ok n) h)
        closed-IsClosed (place-IsMoved n) refused'

  after_resolve :
      (position : Option ℤ) (r : Result TopicError ℕ)
      → resolve (length family) position ≡ r
      → IsAccepted rows closed
      → Moved position (r >>= λ n. flushed closed (place t parent n family closed))
  unfolding flushed
  after_resolve position (raise e) h accepted = Refuses.outside e (resolved position (raise e) h)
  after_resolve position (ok n) h accepted =
      after_place position n (flush closed (place t parent n family closed)) h accepted
        (flush-IsFlush closed (place t parent n family closed))

  after_flush :
      (position : Option ℤ) (f : Result TopicError (Unit {0}))
      → IsFlush rows closed f
      → Moved position (
          f
          >> (resolve (length family) position >>= λ n.
              flushed closed (place t parent n family closed)))
  after_flush position (ok x) (IsFlush.passed accepted) =
      after_resolve position (resolve (length family) position) refl accepted
  after_flush position (raise e) (IsFlush.refused refused') =
      Refuses.closing closed closed-IsClosed refused'

  pub move-Moved : (position : Option ℤ) → Moved position (move t parent position rows)
  unfolding move
  move-Moved position = after_flush position (flush rows closed) (flush-IsFlush rows closed)
