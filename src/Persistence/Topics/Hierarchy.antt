-- ===== src/Persistence/Topics/Hierarchy.antt =====
-- persistence/repositories.py: `_validate_parent`, and the hierarchy that `update` makes.
pub mod Parents
pub mod Kept
use note_rag.Base.{
  ℕ, zero, suc, ◌+◌, ◌≤◌, ◌<◌, ◌≡◌, ◌≢◌, ◌⊎◌, refl, sym, ap, ◌∙◌, subst, Bool, true, false, Option,
  none, some, List, [], ◌∷◌, ◌==◌, ==_iff, arith, if◌then◌else◌, Bool-cases, Option-cases, inl, inr,
}
use note_rag.Base.Result.{Result, ok, raise}
use note_rag.Base.Table.{find, update, find-key}
use note_rag.Persistence.Topics.{
  Topic, Topics, TopicError, topic_id, get, set_position, renumber, set_parent, parent_of, is_topic,
  walk, validate_parent, id_of,
}

abbrev pub parent_in_row : Option Topic → Option (Option ℕ)
parent_in_row none = none
parent_in_row (some t) = some t.parent_id

-- The parent column of the row with this id.
abbrev pub parent_in : Topics → ℕ → Option (Option ℕ)
parent_in rows k = parent_in_row (get k rows)

-- The way up from here ends at the root.
pub data Rooted (up : ℕ → Option (Option ℕ)) : Option ℕ → Type 0 where
  root : Rooted up none
  below : (k : ℕ) (p : Option ℕ) → up k ≡ some p → Rooted up p → Rooted up (some k)

abbrev pub height : {up : ℕ → Option (Option ℕ)} {o : Option ℕ} → Rooted up o → ℕ
height Rooted.root = 0
height (Rooted.below k p e r) = suc (height r)

-- The way up from every row ends at the root in fewer steps than this: there is no cycle and no parent
-- is missing.
abbrev pub IsForest : ℕ → Topics → Type 0
IsForest n rows =
    (k : ℕ) (p : Option ℕ)
    → parent_in rows k ≡ some p
    → (r : Rooted (parent_in rows) p) × (height r < n)

abbrev pub row_of : Topics → Option ℕ → Option Topic
row_of rows none = none
row_of rows (some k) = get k rows

pub found_row :
    (rows : Topics) (k : ℕ) (p : Option ℕ)
    → parent_in rows k ≡ some p
    → (t : Topic) × (get k rows ≡ some t) × (t.parent_id ≡ p)
found_row rows k p e = elim (Option-cases (get k rows)) [
  | inl h ↦ let e' : Path (Option (Option ℕ)) none (some p) = sym (ap parent_in_row h) ∙ e in cc
  | inr (t, h) ↦ let e' : some t.parent_id ≡ some p = sym (ap parent_in_row h) ∙ e in (t, h, cc)
]

walk-next :
    (fuel : ℕ) (rows : Topics) (topic : Option ℕ) (t : Topic)
    → is_topic topic t.id ≡ false
    → walk (suc fuel) rows topic (some t) ≡ walk fuel rows topic (row_of rows t.parent_id)
unfolding walk parent_of
walk-next fuel rows topic t h = rw h refl

walk-back :
    (fuel : ℕ) (rows : Topics) (topic : Option ℕ) (t : Topic)
    → is_topic topic t.id ≡ true
    → walk (suc fuel) rows topic (some t) ≡ raise TopicError.cycle
unfolding walk
walk-back fuel rows topic t h = rw h refl

pub walk-root : (fuel : ℕ) (rows : Topics) (topic : Option ℕ) → walk fuel rows topic none ≡ ok tt
unfolding walk
walk-root zero rows topic = refl
walk-root (suc fuel) rows topic = refl

abbrev pub Ends : Result TopicError (Unit {0}) → Type 0
Ends r = (r ≡ ok tt) ⊎ (r ≡ raise TopicError.cycle)

-- With fuel for the way up, the walk ends.
pub walk-Ends :
    (fuel : ℕ) (rows : Topics) (topic o : Option ℕ) (r : Rooted (parent_in rows) o)
    → height r ≤ fuel
    → Ends (walk fuel rows topic (row_of rows o))
walk-Ends fuel rows topic none Rooted.root le = inl (walk-root fuel rows topic)
walk-Ends zero rows topic (some k) (Rooted.below k' p e r) le = absurd (omega arith)
walk-Ends (suc fuel) rows topic (some k) (Rooted.below k' p e r) le =
    let (t, found, parent) = found_row rows k p e in
    subst (λ x. Ends (walk (suc fuel) rows topic x)) (sym found)
      (elim (Bool-cases (is_topic topic t.id)) [
        | inl back ↦ inr (walk-back fuel rows topic t back)
        | inr on ↦ subst Ends (sym (walk-next fuel rows topic t on)) (
            subst (λ q. Ends (walk fuel rows topic (row_of rows q))) (sym parent)
              (walk-Ends fuel rows topic p r (omega arith)))
      ])

pub other_key : (a b : ℕ) → (a == b) ≡ false → a ≢ b
other_key a b h = ground arith

module _ (up up' : ℕ → Option (Option ℕ)) where
  module _ (topic : ℕ) (parent : Option ℕ) (others : (k : ℕ) → k ≢ topic → up' k ≡ up k)
      (moved : up' topic ≡ some parent) (new : Rooted up' parent) where
    -- A row hangs from the root after the change if the new parent of the topic does.
    pub Rooted-moved :
        (o : Option ℕ) (r : Rooted up o) → (r' : Rooted up' o) × (height r' ≤ height r + height new)
    Rooted-moved none Rooted.root = (Rooted.root, omega arith)
    Rooted-moved (some k) (Rooted.below k' p e r) = elim (Bool-cases (k == topic)) [
      | inl same ↦
          (Rooted.below k parent (ap up' ((==_iff k topic).0 same) ∙ moved) new, omega arith)
      | inr other ↦
          let (r', le) = Rooted-moved p r in
          (Rooted.below k p (others k (other_key k topic other) ∙ e) r', omega arith)
    ]

walk-empty :
    (rows : Topics) (topic : Option ℕ) (t : Topic)
    → walk zero rows topic (some t) ≡ raise TopicError.out_of_fuel
unfolding walk
walk-empty rows topic t = refl

pub get-id : (rows : Topics) (k : ℕ) {t : Topic} → get k rows ≡ some t → t.id ≡ k
unfolding get
get-id rows k h = find-key topic_id k rows h

-- A walk that ends well meets only rows that the move of the topic leaves alone.
module _ (rows : Topics) (up' : ℕ → Option (Option ℕ)) (topic : ℕ)
    (others : (k : ℕ) → k ≢ topic → up' k ≡ parent_in rows k) where
  abbrev pub Keeps : (o : Option ℕ) → Rooted (parent_in rows) o → Type 0
  Keeps o r = (r' : Rooted up' o) × (height r' ≤ height r)

  pub walk-Keeps :
      (fuel : ℕ) (o : Option ℕ) (r : Rooted (parent_in rows) o)
      → walk fuel rows (some topic) (row_of rows o) ≡ ok tt
      → Keeps o r
  unfolding is_topic
  walk-Keeps fuel none Rooted.root h = (Rooted.root, omega arith)
  walk-Keeps zero (some k) (Rooted.below k' p e r) h =
      let (t, found, parent) = found_row rows k p e in
      let h' =
        sym (walk-empty rows (some topic) t) ∙ ap (walk zero rows (some topic)) (sym found) ∙ h in
      cc
  walk-Keeps (suc fuel) (some k) (Rooted.below k' p e r) h =
      let (t, found, parent) = found_row rows k p e in
      let there = ap (walk (suc fuel) rows (some topic)) (sym found) ∙ h in
      elim (Bool-cases (t.id == topic)) [
        | inl back ↦ let h' = sym (walk-back fuel rows (some topic) t back) ∙ there in cc
        | inr on ↦
            let ne = subst (λ x. x ≢ topic) (get-id rows k found) (other_key t.id topic on) in
            let rest =
              ap (λ q. walk fuel rows (some topic) (row_of rows q)) (sym parent)
              ∙ sym (walk-next fuel rows (some topic) t on)
              ∙ there in
            let (r', le) = walk-Keeps fuel p r rest in
            (Rooted.below k p (others k ne ∙ e) r', omega arith)
      ]
