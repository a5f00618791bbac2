-- ===== src/Base/Table.antt =====
-- A table of rows with a numeric primary key, as a session reads and writes it.
use note_rag.Base.Tests.{◌==◌, ==_iff, if◌then◌else◌, Bool-cases}
use note_rag.Base.Lists.{All}
use Prim.Native.Nat.{ℕ}
use mathlib.Core.Path.{◌≡◌, refl, sym, ap, ◌∙◌, subst}
use mathlib.Core.Logic.{◌≢◌, inl, inr}
use mathlib.Core.Option.{Option, none, some}
use mathlib.Core.List.{List, [], ◌∷◌, map, Permᴰ}
use mathlib.Core.List.Memᴰ
use mathlib.Core.List.{Memᴰ}
use native.Mathlib.Omega.{arith}

module _ {A : Type 0} (key : A → ℕ) where
  -- `session.get(Model, k)`
  unfoldable pub find : ℕ → List A → Option A
  find k [] = none
  find k (r ∷ rs) = if key r == k then some r else find k rs

  -- Assignments to the fields of the row with key `k`.
  unfoldable pub update : ℕ → (A → A) → List A → List A
  update k f [] = []
  update k f (r ∷ rs) = (if key r == k then f r else r) ∷ update k f rs

  -- A primary key.
  abbrev pub Unique : List A → Type 0
  Unique [] = Unit
  Unique (r ∷ rs) = All (λ q. key q ≢ key r) rs × Unique rs

  pub All-mem {κ} : (P : A → Type κ) {a : A} (rs : List A) → All P rs → Memᴰ a rs → P a
  All-mem P [] all m = absurd (Memᴰ.not-nil m)
  All-mem P (r ∷ rs) all (Memᴰ.head e) = subst P (sym e) all.0
  All-mem P (r ∷ rs) all (Memᴰ.tail m) = All-mem P rs all.1 m

  -- Rows with one key are one row.
  pub Unique-eq :
      {a b : A} (rs : List A) → Unique rs → Memᴰ a rs → Memᴰ b rs → key a ≡ key b → a ≡ b
  Unique-eq [] u m n h = absurd (Memᴰ.not-nil m)
  Unique-eq (r ∷ rs) u (Memᴰ.head d) (Memᴰ.head e) h = d ∙ sym e
  Unique-eq (r ∷ rs) u (Memᴰ.head d) (Memᴰ.tail n) h =
      absurd (All-mem (λ q. key q ≢ key r) rs u.0 n (sym h ∙ ap key d))
  Unique-eq (r ∷ rs) u (Memᴰ.tail m) (Memᴰ.head e) h =
      absurd (All-mem (λ q. key q ≢ key r) rs u.0 m (h ∙ ap key e))
  Unique-eq (r ∷ rs) u (Memᴰ.tail m) (Memᴰ.tail n) h = Unique-eq rs u.1 m n h

  pub find-key : (k : ℕ) (rs : List A) {r : A} → find k rs ≡ some r → key r ≡ k
  unfolding find
  find-key k [] h = cc
  find-key k (x ∷ rs) {r} h = ground (arith, find-key k rs {r = r})

  pub find-cons_self : (r : A) (rs : List A) → find (key r) (r ∷ rs) ≡ some r
  unfolding find
  find-cons_self r rs = ground arith

  pub find-cons_ne : (k : ℕ) (r : A) (rs : List A) → k ≢ key r → find k (r ∷ rs) ≡ find k rs
  unfolding find
  find-cons_ne k r rs h = ground arith

  pub find-update_self :
      (k : ℕ) (f : A → A) (rs : List A) {r : A}
      → key (f r) ≡ key r
      → find k rs ≡ some r
      → find k (update k f rs) ≡ some (f r)
  unfolding find update
  find-update_self k f [] keeps h = cc
  find-update_self k f (x ∷ rs) keeps h = ground (arith, find-update_self k f rs keeps)

  pub find-update_ne :
      (j k : ℕ) (f : A → A) (rs : List A)
      → ((r : A) → key (f r) ≡ key r)
      → (j ≡ k → ⊥)
      → find j (update k f rs) ≡ find j rs
  unfolding find update
  find-update_ne j k f [] keeps h = refl
  find-update_ne j k f (x ∷ rs) keeps h = ground (arith, keeps x, find-update_ne j k f rs keeps h)

  pub All-find {κ} :
      (P : A → Type κ) (k : ℕ) (rs : List A) {r : A} → All P rs → find k rs ≡ some r → P r
  unfolding find
  All-find P k [] all h = cc
  All-find P k (x ∷ rs) {r} all h = elim (Bool-cases (key x == k)) [
    | inl here ↦ let e : x ≡ r = ground arith in subst P e all.0
    | inr there ↦ All-find P k rs all.1 (rw there at h)
  ]

  pub All-update {κ} :
      (P : A → Type κ) (k : ℕ) (f : A → A) (rs : List A)
      → ((r : A) → P r → key r ≡ k → P (f r))
      → All P rs
      → All P (update k f rs)
  unfolding update
  All-update P k f [] keeps all = tt
  All-update P k f (x ∷ rs) keeps all = elim (Bool-cases (key x == k)) [
    | inl here ↦
        rw here (keeps x all.0 ((==_iff (key x) k).0 here), All-update P k f rs keeps all.1)
    | inr there ↦ rw there (all.0, All-update P k f rs keeps all.1)
  ]

  module _ (k : ℕ) (f : A → A) (keeps : (r : A) → key (f r) ≡ key r) where
    apart-update :
        (c : ℕ) (rs : List A) → All (λ q. key q ≢ c) rs → All (λ q. key q ≢ c) (update k f rs)
    apart-update c rs apart =
        All-update (λ q. key q ≢ c) k f rs (λ q ne _ e. ne (cc (keeps q))) apart

    -- Assignments to other fields leave the primary key one.
    pub Unique-update : (rs : List A) → Unique rs → Unique (update k f rs)
    unfolding update
    Unique-update [] u = tt
    Unique-update (x ∷ rs) (apart, u) = elim (Bool-cases (key x == k)) [
      | inl here ↦ rw (here, keeps x) (apart-update (key x) rs apart, Unique-update rs u)
      | inr there ↦ rw there (apart-update (key x) rs apart, Unique-update rs u)
    ]

  pub update-map :
      (k : ℕ) (f : A → A) (rows : List A)
      → update k f rows ≡ map (λ r. if key r == k then f r else r) rows
  unfolding update
  update-map k f [] = refl
  update-map k f (r ∷ rows) = ap (◌∷◌ (if key r == k then f r else r)) (update-map k f rows)

  pub All-perm {κ} : (P : A → Type κ) {xs ys : List A} → Permᴰ xs ys → All P xs → All P ys
  All-perm P Permᴰ.nil all = tt
  All-perm P (Permᴰ.cons e d) (one, all) = (subst P e one, All-perm P d all)
  All-perm P (Permᴰ.swap e d) (one, (two, all)) = (subst P d two, (subst P e one, all))
  All-perm P (Permᴰ.trans d d') all = All-perm P d' (All-perm P d all)

  pub Unique-perm : {xs ys : List A} → Permᴰ xs ys → Unique xs → Unique ys
  Unique-perm Permᴰ.nil u = tt
  Unique-perm (Permᴰ.cons {a} {b} {l₁} {l₂} e d) (apart, u) = (
    subst (λ x. All (λ q. key q ≢ key x) l₂) e (All-perm (λ q. key q ≢ key a) d apart),
    Unique-perm d u,
  )
  Unique-perm (Permᴰ.swap {a} {b} {a'} {b'} {l} e d) ((ne, apart), (apart', u)) = (
    (
      (λ h. ne (ap key d ∙ sym h ∙ sym (ap key e))),
      subst (λ x. All (λ q. key q ≢ key x) l) d apart',
    ),
    (subst (λ x. All (λ q. key q ≢ key x) l) e apart, u),
  )
  Unique-perm (Permᴰ.trans d d') u = Unique-perm d' (Unique-perm d u)
