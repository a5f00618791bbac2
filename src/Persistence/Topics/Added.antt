-- ===== src/Persistence/Topics/Added.antt =====
-- persistence/repositories.py: `TopicRepository.add`.
use mathlib.Core.List.{Permᴰ, Memᴰ}
use mathlib.Core.List.Permᴰ
use note_rag.Base.{
  ℕ, ◌+◌, ◌≤◌, ◌≡◌, ◌≢◌, ◌⊎◌, refl, sym, ap, ◌∙◌, subst, true, false, Option, none, some, ◌∷◌, ◌++◌,
  map, All, length, take, drop, leb, arith, Bool-cases, inl, inr,
}
use note_rag.Base.Int.{ℤ, pos, negsuc}
use note_rag.Base.Result.{Result, ok, raise, ◌>>=◌, ◌>>◌}
use note_rag.Base.Filters.{
  filter, filter-map, insert_at, insert_at-perm, mem-filter, map_id, map-eq_of_All, All-mem_all,
  filter-cons_true, filter-cons_false,
}
use note_rag.Base.Sorting.{mem-perm, sort_by}
use note_rag.Base.Table.{Unique, All-mem, Unique-eq, Unique-perm}
use note_rag.Base.Queries.{Unique-filter}
use note_rag.Persistence.Topics.{
  Topic, Topics, TopicError, topic_id, before, set_position, shift, siblings, validate_parent,
  id_of, resolve, insert_topic, add,
}
use note_rag.Persistence.Topics.Numbered.{number_from, sort_by_numbered}
use note_rag.Persistence.Topics.Families.{
  chosen, chosen-IsStable, chosen_self, chosen-Differ, Differ, siblings-perm,
}
use note_rag.Persistence.Topics.Shifted.{
  bump, shifted, shift-map, shifted-same, shifted_apart, All-drop, shifted-drop, numbered-insert_at,
}

resolve-le : (count : ℕ) (position : Option ℤ) (n : ℕ) → resolve count position ≡ ok n → n ≤ count
unfolding resolve
resolve-le count none n h = let e : count ≡ n = cc in omega arith
resolve-le count (some (pos k)) n h = elim (Bool-cases (leb k count)) [
  | inl le ↦
      let h' : Path (Result TopicError ℕ) (ok k) (ok n) = rw le at h in
      let e : k ≡ n = cc in ground arith
  | inr gt ↦
      let h' : Path (Result TopicError ℕ) (raise TopicError.position_outside) (ok n) = rw gt at h in
      cc
]
resolve-le count (some (negsuc k)) n h = cc

-- What an addition makes of the families: the new topic stands in its family at the position, which
-- is numbered from 0 in its former order if it was so before, and the others are as before.
pub record IsAdded (rows : Topics) (new : Topic) (position : ℕ) (rows' : Topics) : Type 0 where
  pub joined :
      siblings new.course_id new.parent_id none rows
        ≡ number_from 0 (siblings new.course_id new.parent_id none rows)
      → siblings new.course_id new.parent_id none rows'
        ≡ number_from 0 (insert_at position new (siblings new.course_id new.parent_id none rows))
  pub others :
      (c : ℕ) (p : Option ℕ)
      → Differ new.course_id new.parent_id c p
      → siblings c p none rows' ≡ siblings c p none rows

module _ (rows : Topics) (u : Unique topic_id rows) (topic : Topic)
    (fresh : All (λ q. topic_id q ≢ topic.id) rows) (n : ℕ) where
  abbrev family : Topics
  family = siblings topic.course_id topic.parent_id none rows

  abbrev new : Topic
  new = set_position n topic

  abbrev tail : Topics
  tail = drop n family

  family-Unique : Unique topic_id family
  family-Unique =
      Unique-perm topic_id (Permᴰ.symm (siblings-perm topic.course_id topic.parent_id none rows))
        (Unique-filter topic_id (chosen topic.course_id topic.parent_id none) rows u)

  filter-shift :
      (c : ℕ) (p : Option ℕ)
      → filter (chosen c p none) (shift tail 1 rows)
        ≡ map (shifted tail) (filter (chosen c p none) rows)
  filter-shift c p =
      ap (filter (chosen c p none)) (shift-map tail rows)
      ∙ filter-map (chosen c p none) (shifted tail) rows
          (shifted-same (chosen c p none) (chosen-IsStable c p none) tail)

  new-chosen : chosen topic.course_id topic.parent_id none new ≡ true
  unfolding set_position
  new-chosen = chosen_self new

  family-mem :
      (t : Topic)
      → Memᴰ t family
      → Memᴰ t rows × (chosen topic.course_id topic.parent_id none t ≡ true)
  family-mem t m =
      mem-filter (chosen topic.course_id topic.parent_id none) rows
        (mem-perm (siblings-perm topic.course_id topic.parent_id none rows) m)

  inserted-Unique : Unique topic_id (insert_at n new family)
  unfolding set_position
  inserted-Unique =
      let apart =
        All-mem_all (λ q. topic_id q ≢ topic.id) family
          (λ q m. All-mem topic_id (λ r. topic_id r ≢ topic.id) rows fresh (family-mem q m).0) in
      Unique-perm topic_id (Permᴰ.symm (insert_at-perm n new family)) (apart, family-Unique)

  joined-perm :
      n ≤ length family
      → family ≡ number_from 0 family
      → Permᴰ
          (number_from 0 (insert_at n new family))
          (filter (chosen topic.course_id topic.parent_id none) (new ∷ shift tail 1 rows))
  unfolding set_position
  joined-perm le numbered =
      let front : number_from 0 (insert_at n new family) ≡ take n family ++ (new ∷ map bump tail) =
        numbered-insert_at 0 n new family le
        ∙ ap (λ f. take n f ++ (set_position (0 + n) new ∷ map bump (drop n f))) (sym numbered)
        ∙ (let z : 0 + n ≡ n = omega arith in
            ap (λ k. take n family ++ (set_position k new ∷ map bump tail)) z) in
      let shifted-rows =
        filter-cons_true (chosen topic.course_id topic.parent_id none) new (shift tail 1 rows)
          new-chosen
        ∙ ap (◌∷◌ new) (filter-shift topic.course_id topic.parent_id) in
      let moved = sym (shifted-drop n family family-Unique) in
      subst
        (λ x.
          Permᴰ x (filter (chosen topic.course_id topic.parent_id none) (new ∷ shift tail 1 rows)))
        (sym front)
        (subst (λ x. Permᴰ (take n family ++ (new ∷ map bump tail)) x) (sym shifted-rows)
          (Permᴰ.trans (Permᴰ.middle new (take n family) (map bump tail)) (
            subst
              (λ x. Permᴰ (new ∷ x) (
                new
                ∷ map (shifted tail) (filter (chosen topic.course_id topic.parent_id none) rows)))
              (sym moved)
              (Permᴰ.cons refl (
                Permᴰ.map (shifted tail)
                  (siblings-perm topic.course_id topic.parent_id none rows))))))

  other-filter :
      (c : ℕ) (p : Option ℕ)
      → Differ topic.course_id topic.parent_id c p
      → filter (chosen c p none) (new ∷ shift tail 1 rows) ≡ filter (chosen c p none) rows
  unfolding set_position
  other-filter c p differ =
      let out : chosen c p none new ≡ false = (elim (Bool-cases (chosen c p none new)) [
        | inl h ↦
            absurd
              (chosen-Differ topic.course_id c topic.parent_id p none none new differ new-chosen h)
        | inr h ↦ h
      ]) in
      filter-cons_false (chosen c p none) new (shift tail 1 rows) out
      ∙ filter-shift c p
      ∙ map-eq_of_All (shifted tail) (λ r. r) (filter (chosen c p none) rows)
          (All-mem_all (λ r. shifted tail r ≡ r) (filter (chosen c p none) rows)
            (λ r m.
              let (there, kept) = mem-filter (chosen c p none) rows m in
              shifted_apart tail r (
                All-drop (λ t. t.id ≢ r.id) n family
                  (All-mem_all (λ t. t.id ≢ r.id) family
                    (λ t m' same.
                      let (there', kept') = family-mem t m' in
                      let e : t ≡ r = Unique-eq topic_id rows u there' there same in
                      chosen-Differ topic.course_id c topic.parent_id p none none t differ kept'
                        (ap (chosen c p none) e ∙ kept))))))
      ∙ map_id (filter (chosen c p none) rows)

  insert_topic-IsAdded : n ≤ length family → IsAdded rows new n (insert_topic topic n family rows).1
  unfolding insert_topic set_position siblings
  insert_topic-IsAdded le = record {
    joined = λ numbered.
        sort_by_numbered 0 (insert_at n new family)
          (filter (chosen topic.course_id topic.parent_id none) (new ∷ shift tail 1 rows))
          inserted-Unique (joined-perm le numbered);
    others = λ c p differ. ap (sort_by before) (other-filter c p differ);
  }

module _ (rows : Topics) (u : Unique topic_id rows) (topic : Topic)
    (fresh : All (λ q. topic_id q ≢ topic.id) rows) (fuel course_id : ℕ) (parent : Option Topic)
    (position : Option ℤ) where
  abbrev pub placed : Topic
  placed = record topic { course_id = course_id; parent_id = id_of parent }

  abbrev pub count : ℕ
  count = length (siblings course_id (id_of parent) none rows)

  -- What `add` comes back with.
  abbrev pub Added : Result TopicError (Topic × Topics) → Type 0
  Added (raise e) =
      (validate_parent fuel rows course_id parent none ≡ raise e)
      ⊎ (resolve count position ≡ raise e)
  Added (ok (new, rows')) =
      (n : ℕ) × (validate_parent fuel rows course_id parent none ≡ ok tt)
      × (resolve count position ≡ ok n)
      × (new ≡ set_position n placed)
      × IsAdded rows new n rows'

  after_resolve :
      (r : Result TopicError ℕ)
      → validate_parent fuel rows course_id parent none ≡ ok tt
      → resolve count position ≡ r
      → Added
          (r >>= λ n. ok (insert_topic placed n (siblings course_id (id_of parent) none rows) rows))
  unfolding insert_topic
  after_resolve (raise e) valid h = inr h
  after_resolve (ok n) valid h = (
    n,
    valid,
    h,
    refl,
    insert_topic-IsAdded rows u placed fresh n (resolve-le count position n h),
  )

  after_check :
      (r : Result TopicError (Unit {0}))
      → validate_parent fuel rows course_id parent none ≡ r
      → Added (
          r
          >> (resolve count position >>= λ n.
              ok (insert_topic placed n (siblings course_id (id_of parent) none rows) rows)))
  after_check (raise e) h = inl h
  after_check (ok x) h = after_resolve (resolve count position) h refl

-- Over rows with different ids, of which the new topic has none: `add` raises what the check of the parent or
-- else the check of the position raises. Otherwise the new topic stands in its family at the resolved
-- position, the family is numbered from 0 in its former order if it was so before, and every other
-- family is as before.
-- (These are the rows of the session; the database can refuse them as they are flushed.)
pub add-Added :
    (rows : Topics) (u : Unique topic_id rows) (topic : Topic)
    (fresh : All (λ q. topic_id q ≢ topic.id) rows) (fuel course_id : ℕ) (parent : Option Topic)
    (position : Option ℤ)
    → Added rows u topic fresh fuel course_id parent position
        (add fuel course_id parent position topic rows)
unfolding add
add-Added rows u topic fresh fuel course_id parent position =
    after_check rows u topic fresh fuel course_id parent position
      (validate_parent fuel rows course_id parent none) refl
