-- ===== src/Persistence/Topics/Numbered.antt =====
-- persistence/repositories.py: what `_renumber` makes of the topics that it is given.
use mathlib.Core.List.{Permᴰ, Memᴰ}
use mathlib.Core.List.Permᴰ
use note_rag.Base.{
  ℕ, suc, ◌≡◌, ◌≢◌, refl, sym, ap, ◌∙◌, subst, Bool, true, false, [], ◌∷◌, map, All, All-map, ◌==◌,
  if◌then◌else◌, arith,
}
use note_rag.Base.Filters.{
  filter, filter-map, mem-filter, All-mem_all, map-map, map-eq_of_All, map_id,
}
use note_rag.Base.Sorting.{IsOrder, sort_by, insert_by, sort_by-eq_of_perm}
use note_rag.Base.Table.{Unique, Unique-eq, Unique-perm, update-map}
use note_rag.Base.Queries.{Unique-filter}
use note_rag.Persistence.Topics.{Topic, Topics, topic_id, before, set_position, renumber}

-- The topics with the positions from this one on.
abbrev pub number_from : ℕ → Topics → Topics
number_from i [] = []
number_from i (t ∷ ts) = set_position i t ∷ number_from (suc i) ts

-- What `_renumber` makes of one row.
abbrev pub assigned : ℕ → Topics → Topic → Topic
assigned i [] r = r
assigned i (t ∷ ts) r = assigned (suc i) ts (if r.id == t.id then set_position i r else r)

-- A test that does not look at the position.
abbrev pub IsStable : (Topic → Bool) → Type 0
IsStable keep = (n : ℕ) (r : Topic) → keep (set_position n r) ≡ keep r

before-IsOrder : IsOrder before
unfolding before
before-IsOrder = record { asym = λ a b h. ground arith; below = λ a x b h g. ground arith }

same_id : (a b : Topic) → before a b ≡ false → before b a ≡ false → a.id ≡ b.id
unfolding before
same_id a b h g = ground arith

renumber-map : (i : ℕ) (ts rows : Topics) → renumber i ts rows ≡ map (assigned i ts) rows
unfolding renumber
renumber-map i [] rows = sym (map_id rows)
renumber-map i (t ∷ ts) rows =
    renumber-map (suc i) ts _
    ∙ ap (map (assigned (suc i) ts)) (update-map topic_id t.id (set_position i) rows)
    ∙ map-map (λ r. if r.id == t.id then set_position i r else r) (assigned (suc i) ts) rows

-- A function of a row that neither branch changes.
pub set_if :
    {B : Type 0} (f : Topic → B) (b : Bool) (n : ℕ) (r : Topic)
    → f (set_position n r) ≡ f r
    → f (if b then set_position n r else r) ≡ f r
set_if f true n r e = e
set_if f false n r e = refl

pub assigned-same :
    {B : Type 0} (f : Topic → B)
    → ((n : ℕ) (r : Topic) → f (set_position n r) ≡ f r)
    → (i : ℕ) (ts : Topics) (r : Topic) → f (assigned i ts r) ≡ f r
assigned-same f stable i [] r = refl
assigned-same f stable i (t ∷ ts) r =
    assigned-same f stable (suc i) ts _ ∙ set_if f (r.id == t.id) i r (stable i r)

pub set_position-topic_id : (n : ℕ) (r : Topic) → topic_id (set_position n r) ≡ topic_id r
unfolding set_position
set_position-topic_id n r = refl

other_id : (i : ℕ) (t r : Topic) → r.id ≢ t.id → (if r.id == t.id then set_position i r else r) ≡ r
other_id i t r ne = ground arith

own_id : (i : ℕ) (t : Topic) → (if t.id == t.id then set_position i t else t) ≡ set_position i t
own_id i t = ground arith

pub assigned_apart :
    (i : ℕ) (ts : Topics) (r : Topic) → All (λ t. t.id ≢ r.id) ts → assigned i ts r ≡ r
assigned_apart i [] r all = refl
assigned_apart i (t ∷ ts) r (ne, all) =
    ap (assigned (suc i) ts) (other_id i t r (λ e. ne (sym e))) ∙ assigned_apart (suc i) ts r all

pub assigned-number_from :
    (i : ℕ) (ts : Topics) → Unique topic_id ts → map (assigned i ts) ts ≡ number_from i ts
unfolding set_position
assigned-number_from i [] u = refl
assigned-number_from i (t ∷ ts) (apart, u) =
    let head =
      ap (assigned (suc i) ts) (own_id i t) ∙ assigned_apart (suc i) ts (set_position i t) apart in
    let tail =
      map-eq_of_All (assigned i (t ∷ ts)) (assigned (suc i) ts) ts
        (All-map ts (λ q ne. ap (assigned (suc i) ts) (other_id i t q ne)) apart)
      ∙ assigned-number_from (suc i) ts u in
    cc (head, tail)

-- Numbered topics are in their order.
head_first :
    (i : ℕ) (t : Topic) (ts : Topics)
    → insert_by before (set_position i t) (number_from (suc i) ts)
      ≡ set_position i t ∷ number_from (suc i) ts
unfolding insert_by before set_position
head_first i t [] = refl
head_first i t (s ∷ ts) = ground arith

pub sort_by-number_from :
    (i : ℕ) (ts : Topics) → sort_by before (number_from i ts) ≡ number_from i ts
unfolding sort_by
sort_by-number_from i [] = refl
sort_by-number_from i (t ∷ ts) =
    ap (insert_by before (set_position i t)) (sort_by-number_from (suc i) ts) ∙ head_first i t ts

apart-number_from :
    (k i : ℕ) (ts : Topics)
    → All (λ q. topic_id q ≢ k) ts
    → All (λ q. topic_id q ≢ k) (number_from i ts)
unfolding set_position
apart-number_from k i [] all = tt
apart-number_from k i (t ∷ ts) (ne, all) = (ne, apart-number_from k (suc i) ts all)

pub Unique-number_from :
    (i : ℕ) (ts : Topics) → Unique topic_id ts → Unique topic_id (number_from i ts)
unfolding set_position
Unique-number_from i [] u = tt
Unique-number_from i (t ∷ ts) (apart, u) =
    (apart-number_from t.id (suc i) ts apart, Unique-number_from (suc i) ts u)

-- Rows that sort to a numbering, which has their elements.
pub sort_by_numbered :
    (i : ℕ) (ts rows : Topics)
    → Unique topic_id ts
    → Permᴰ (number_from i ts) rows
    → sort_by before rows ≡ number_from i ts
sort_by_numbered i ts rows u perm =
    sym (
      sort_by-eq_of_perm before before-IsOrder perm (λ a b m n h g.
        Unique-eq topic_id (number_from i ts) (Unique-number_from i ts u) m n (same_id a b h g)))
    ∙ sort_by-number_from i ts

module _ (keep : Topic → Bool) (stable : IsStable keep) (i : ℕ) (ts rows : Topics) where
  pub filter-renumber : filter keep (renumber i ts rows) ≡ map (assigned i ts) (filter keep rows)
  filter-renumber =
      ap (filter keep) (renumber-map i ts rows)
      ∙ filter-map keep (assigned i ts) rows (assigned-same keep stable i ts)

  -- The rows that are renumbered come out in the order of the list, numbered.
  pub sort_by-renumber :
      Unique topic_id rows
      → Permᴰ ts (filter keep rows)
      → sort_by before (filter keep (renumber i ts rows)) ≡ number_from i ts
  sort_by-renumber u perm =
      let u' = Unique-perm topic_id (Permᴰ.symm perm) (Unique-filter topic_id keep rows u) in
      sort_by_numbered i ts (filter keep (renumber i ts rows)) u' (
        subst (λ x. Permᴰ (number_from i ts) x) (sym filter-renumber)
          (subst (λ x. Permᴰ x (map (assigned i ts) (filter keep rows)))
            (assigned-number_from i ts u') (Permᴰ.map (assigned i ts) perm)))

  -- Rows outside the list stay as they are.
  pub filter-renumber_apart :
      ((r t : Topic) → Memᴰ r rows → keep r ≡ true → Memᴰ t ts → t.id ≢ r.id)
      → filter keep (renumber i ts rows) ≡ filter keep rows
  filter-renumber_apart apart =
      filter-renumber
      ∙ map-eq_of_All (assigned i ts) (λ r. r) (filter keep rows)
          (All-mem_all (λ r. assigned i ts r ≡ r) (filter keep rows)
            (λ r m.
              let (there, kept) = mem-filter keep rows m in
              assigned_apart i ts r
                (All-mem_all (λ t. t.id ≢ r.id) ts (λ t n. apart r t there kept n))))
      ∙ map_id (filter keep rows)
