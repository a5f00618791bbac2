-- ===== src/Retrieval/Cache/Upserts.antt =====
-- Tables under an upsert: what is found, and what holds of all rows.
use note_rag.Base.{
  ℕ, ◌≡◌, ◌≢◌, ◌⊎◌, inl, inr, refl, none, some, List, [], ◌∷◌, ◌++◌, ◌==◌, Bool-cases, Option-cases,
  All, All-append, arith,
}
use note_rag.Base.Table.{find, find-update_self, find-update_ne, All-update, Unique, Unique-update}
use note_rag.Retrieval.Cache.{insert_or_change, upsert}

module _ {A : Type 0} (key : A → ℕ) where
  find-append_last :
      (row : A) (rows : List A)
      → find key (key row) rows ≡ none
      → find key (key row) (rows ++ row ∷ []) ≡ some row
  unfolding find
  find-append_last row [] h = ground arith
  find-append_last row (r ∷ rows) h = ground (arith, find-append_last row rows)

  find-append_ne :
      (k : ℕ) (row : A) (rows : List A)
      → k ≢ key row
      → find key k (rows ++ row ∷ []) ≡ find key k rows
  unfolding find
  find-append_ne k row [] h = ground arith
  find-append_ne k row (r ∷ rows) h = ground (arith, find-append_ne k row rows h)

  -- The row of the key is the new one or the changed one.
  pub find-upsert_self :
      (row : A) (change : A → A) (rows : List A)
      → ((r : A) → key (change r) ≡ key r)
      → (e : A) × (find key (key row) (upsert key row change rows) ≡ some e)
        × ((e ≡ row) ⊎ ((r : A) × (e ≡ change r)))
  unfolding upsert insert_or_change
  find-upsert_self row change rows keeps = elim (Option-cases (find key (key row) rows)) [
    | inl missing ↦ (row, rw (missing, upsert) (find-append_last row rows missing), inl refl)
    | inr (old, there) ↦ (
      change old,
      rw (there, upsert) (find-update_self key (key row) change rows (keeps old) there),
      inr (old, refl),
    )
  ]

  pub find-absent : (k : ℕ) (rows : List A) → All (λ r. key r ≢ k) rows → find key k rows ≡ none
  unfolding find
  find-absent k [] h = refl
  find-absent k (r ∷ rows) (ne, h) = ground (arith, find-absent k rows h)

  pub All-upsert :
      (P : A → Type 0) (row : A) (change : A → A) (rows : List A)
      → P row
      → ((r : A) → P r → P (change r))
      → All P rows
      → All P (upsert key row change rows)
  unfolding upsert insert_or_change
  All-upsert P row change rows one keeps all = elim (Option-cases (find key (key row) rows)) [
    | inl missing ↦ rw (missing, upsert) (All-append P rows (row ∷ []) all (one, tt))
    | inr (old, there) ↦
        rw (there, upsert) (All-update key P (key row) change rows (λ r p _. keeps r p) all)
  ]

  -- Of two lists with keys apart.
  Unique-append_last :
      (row : A) (rows : List A)
      → find key (key row) rows ≡ none
      → Unique key rows
      → Unique key (rows ++ row ∷ [])
  unfolding find
  Unique-append_last row [] h u = (tt, tt)
  Unique-append_last row (r ∷ rows) h (apart, u) = elim (Bool-cases (key r == key row)) [
    | inl same ↦ cc (rw same at h)
    | inr other ↦ (
      All-append (λ q. key q ≢ key r) rows (row ∷ []) apart ((λ e. ground arith), tt),
      Unique-append_last row rows (rw other at h) u,
    )
  ]

  module _ (row : A) (change : A → A) (keeps : (r : A) → key (change r) ≡ key r) where
    pub find-insert_self :
        (rows : List A)
        → find key (key row) (upsert key row change rows)
          ≡ (elim (find key (key row) rows) [ none ↦ some row | some r ↦ some (change r) ])
    unfolding upsert insert_or_change
    find-insert_self rows = elim (Option-cases (find key (key row) rows)) [
      | inl missing ↦ rw (missing, upsert) (find-append_last row rows missing)
      | inr (old, there) ↦
          rw (there, upsert) (find-update_self key (key row) change rows (keeps old) there)
    ]

    pub find-insert_ne :
        (k : ℕ) (rows : List A)
        → k ≢ key row
        → find key k (upsert key row change rows) ≡ find key k rows
    unfolding upsert insert_or_change
    find-insert_ne k rows ne = elim (Option-cases (find key (key row) rows)) [
      | inl missing ↦ rw (missing, upsert) (find-append_ne k row rows ne)
      | inr (old, there) ↦ rw (there, upsert) (find-update_ne key k (key row) change rows keeps ne)
    ]

    pub Unique-insert : (rows : List A) → Unique key rows → Unique key (upsert key row change rows)
    unfolding upsert insert_or_change
    Unique-insert rows u = elim (Option-cases (find key (key row) rows)) [
      | inl missing ↦ rw (missing, upsert) (Unique-append_last row rows missing u)
      | inr (old, there) ↦ rw (there, upsert) (Unique-update key (key row) change keeps rows u)
    ]
