-- ===== src/Persistence/Topics/Deleted/Below.antt =====
-- `TopicRepository.delete` of persistence/repositories.py: the topics that it removes with the one that
-- it is given.
use note_rag.Base.{
  ℕ, zero, suc, ◌≤◌, ◌≡◌, ◌⊎◌, refl, sym, ap, ◌∙◌, subst, Bool, true, false, ◌||◌, Option, none,
  some, ◌==◌, ==_iff, arith, Bool-cases, inl, inr,
}
use note_rag.Persistence.Topics.{Topic, Topics, parent_of, is_below}
use note_rag.Persistence.Topics.Hierarchy.{
  parent_in, Rooted, height, other_key, row_of, found_row, get-id,
}

-- The way up from here meets the topic with the id.
pub data Under (up : ℕ → Option (Option ℕ)) (id : ℕ) : Option ℕ → Type 0 where
  here : Under up id (some id)
  above : (k : ℕ) (p : Option ℕ) → up k ≡ some p → Under up id p → Under up id (some k)

-- The test is right about the way up.
abbrev pub Answers : (ℕ → Option (Option ℕ)) → ℕ → Option ℕ → Bool → Type 0
Answers up id o b = ((b ≡ true) × Under up id o) ⊎ ((b ≡ false) × (Under up id o → ⊥))

module _ (up : ℕ → Option (Option ℕ)) (id : ℕ) where
  Under-cases :
      (o : Option ℕ)
      → Under up id o
      → (o ≡ some id) ⊎ ((k : ℕ) × (p : Option ℕ) × (o ≡ some k) × (up k ≡ some p) × Under up id p)
  Under-cases o Under.here = inl refl
  Under-cases o (Under.above k p e w) = inr (k, p, refl, e, w)

  not-Under_root : Under up id none → ⊥
  not-Under_root w = elim (Under-cases none w) [ inl h ↦ cc | inr (k, p, h, e, w') ↦ cc ]

  -- Above a row is its parent.
  Under-parent :
      (k : ℕ) (p : Option ℕ) → up k ≡ some p → Under up id (some k) → (k ≡ id) ⊎ Under up id p
  Under-parent k p e w = elim (Under-cases (some k) w) [
    | inl h ↦ inl cc
    | inr (k', p', h, e', w') ↦
        let same : k' ≡ k = cc in
        let e'' : some p' ≡ some p = sym e' ∙ ap up same ∙ e in
        let parent : p' ≡ p = cc in inr (subst (Under up id) parent w')
  ]

  Rooted-parent :
      (k : ℕ) (p : Option ℕ)
      → up k ≡ some p
      → (r : Rooted up p) → (o : Option ℕ) → o ≡ some k
      → (s : Rooted up o) → ((r' : Rooted up p) → height r' ≡ height r)
      → height s ≡ suc (height r)
  Rooted-parent k p e r o h Rooted.root eq = cc
  Rooted-parent k p e r o h (Rooted.below k' p' e' s) eq =
      let same : k' ≡ k = cc in
      let e'' : some p ≡ some p' = sym e ∙ ap up (sym same) ∙ e' in
      let parent : p ≡ p' = cc in
      ap suc (subst (λ q. (s : Rooted up q) → height s ≡ height r) parent eq s)

  -- There is one way up.
  height-eq : (o : Option ℕ) (r s : Rooted up o) → height s ≡ height r
  height-eq none Rooted.root s = rootless none refl s
    where
      rootless : (o : Option ℕ) → o ≡ none → (s : Rooted up o) → height s ≡ 0
      rootless o h Rooted.root = refl
      rootless o h (Rooted.below k p e s) = cc
  height-eq (some k) (Rooted.below k' p e r) s =
      Rooted-parent k p e r (some k) refl s (λ r'. height-eq p r r')

  Under-Rooted :
      (o : Option ℕ) (r : Rooted up o)
      → Under up id o
      → (s : Rooted up (some id)) × (height s ≤ height r)
  Under-Rooted none Rooted.root w = absurd (not-Under_root w)
  Under-Rooted (some k) (Rooted.below k' p e r) w = elim (Under-parent k p e w) [
    | inl same ↦
        subst (λ j. (s : Rooted up (some j)) × (height s ≤ suc (height r))) same
          (Rooted.below k p e r, omega arith)
    | inr w' ↦ let (s, le) = Under-Rooted p r w' in (s, omega arith)
  ]

  -- What is below the root is not above itself.
  pub not-Under_self : (p : Option ℕ) → up id ≡ some p → Rooted up p → Under up id p → ⊥
  not-Under_self p e r w =
      let (s, le) = Under-Rooted p r w in
      let one = height-eq (some id) (Rooted.below id p e r) s in omega arith

module _ (rows : Topics) (id : ℕ) where
  step :
      (fuel : ℕ) (t : Topic)
      → is_below (suc fuel) rows id (some t)
        ≡ (t.id == id || is_below fuel rows id (row_of rows t.parent_id))
  unfolding is_below parent_of
  step fuel t = refl

  or_not : (a b : Bool) → a ≡ false → (a || b) ≡ b
  or_not true b h = cc
  or_not false b h = refl

  top : (fuel : ℕ) → is_below fuel rows id none ≡ false
  unfolding is_below
  top zero = refl
  top (suc fuel) = refl

  pub is_below-Answers :
      (fuel : ℕ) (o : Option ℕ) (r : Rooted (parent_in rows) o)
      → height r ≤ fuel
      → Answers (parent_in rows) id o (is_below fuel rows id (row_of rows o))
  is_below-Answers fuel none Rooted.root le = inr (top fuel, not-Under_root (parent_in rows) id)
  is_below-Answers zero (some k) (Rooted.below k' p e r) le = absurd (omega arith)
  is_below-Answers (suc fuel) (some k) (Rooted.below k' p e r) le =
      let (t, found, parent) = found_row rows k p e in
      let same : t.id ≡ k = get-id rows k found in
      subst (λ x. Answers (parent_in rows) id (some k) (is_below (suc fuel) rows id x)) (sym found)
        (subst (Answers (parent_in rows) id (some k)) (sym (step fuel t))
          (elim (Bool-cases (t.id == id)) [
            | inl own ↦
                let e' : id ≡ k = sym ((==_iff t.id id).0 own) ∙ same in
                inl (
                  ap (λ b. b || is_below fuel rows id (row_of rows t.parent_id)) own,
                  subst (λ j. Under (parent_in rows) id (some j)) e' Under.here,
                )
            | inr other ↦
                subst (Answers (parent_in rows) id (some k))
                  (sym
                    (or_not (t.id == id) (is_below fuel rows id (row_of rows t.parent_id)) other))
                  (subst
                    (λ q.
                      Answers (parent_in rows) id (some k) (is_below fuel rows id (row_of rows q)))
                    (sym parent)
                    (lifted p e (λ h. other_key t.id id other (same ∙ h))
                      (is_below fuel rows id (row_of rows p))
                      (is_below-Answers fuel p r (omega arith))))
          ]))
    where
      lifted :
          (p : Option ℕ)
          → parent_in rows k ≡ some p
          → (k ≡ id → ⊥)
          → (b : Bool) → Answers (parent_in rows) id p b
          → Answers (parent_in rows) id (some k) b
      lifted p e ne b (inl (yes', w)) = inl (yes', Under.above k p e w)
      lifted p e ne b (inr (no', none')) = inr (
        no',
        λ w. elim (Under-parent (parent_in rows) id k p e w) [ inl h ↦ ne h | inr w' ↦ none' w' ],
      )
