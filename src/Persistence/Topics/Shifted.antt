-- ===== src/Persistence/Topics/Shifted.antt =====
-- persistence/repositories.py: what `_shift` makes of the topics that it is given.
use note_rag.Base.{
  ℕ, zero, suc, ◌+◌, ◌≤◌, ◌≡◌, ◌≢◌, refl, sym, ap, ◌∙◌, subst, [], ◌∷◌, ◌++◌, map, All, All-map,
  length, take, drop, ◌==◌, arith, if◌then◌else◌,
}
use note_rag.Base.Filters.{insert_at, map-map, map_id, map-eq_of_All}
use note_rag.Base.Table.{update, update-map, Unique}
use note_rag.Persistence.Topics.{Topic, Topics, topic_id, set_position, shift}
use note_rag.Persistence.Topics.Numbered.{number_from, set_if}

abbrev pub bump : Topic → Topic
bump r = set_position (r.position + 1) r

-- What `_shift` by one makes of one row.
abbrev pub shifted : Topics → Topic → Topic
shifted [] r = r
shifted (t ∷ ts) r = let s = shifted ts r in if s.id == t.id then bump s else s

pub shift-map : (ts rows : Topics) → shift ts 1 rows ≡ map (shifted ts) rows
unfolding shift
shift-map [] rows = sym (map_id rows)
shift-map (t ∷ ts) rows =
    ap (update topic_id t.id bump) (shift-map ts rows)
    ∙ update-map topic_id t.id bump (map (shifted ts) rows)
    ∙ map-map (shifted ts) (λ r. if r.id == t.id then bump r else r) rows

pub shifted-same :
    {B : Type 0} (f : Topic → B)
    → ((n : ℕ) (r : Topic) → f (set_position n r) ≡ f r)
    → (ts : Topics) (r : Topic) → f (shifted ts r) ≡ f r
shifted-same f stable [] r = refl
shifted-same f stable (t ∷ ts) r =
    let s = shifted ts r in
    set_if f (s.id == t.id) (s.position + 1) s (stable (s.position + 1) s)
    ∙ shifted-same f stable ts r

shifted-topic_id : (ts : Topics) (r : Topic) → (shifted ts r).id ≡ r.id
unfolding set_position
shifted-topic_id ts r = shifted-same topic_id (λ n s. refl) ts r

own_bump : (s t : Topic) → s.id ≡ t.id → (if s.id == t.id then bump s else s) ≡ bump s
own_bump s t e = ground arith

other_bump : (s t : Topic) → s.id ≢ t.id → (if s.id == t.id then bump s else s) ≡ s
other_bump s t ne = ground arith

pub shifted_apart : (ts : Topics) (r : Topic) → All (λ t. t.id ≢ r.id) ts → shifted ts r ≡ r
shifted_apart [] r all = refl
shifted_apart (t ∷ ts) r (ne, all) =
    other_bump (shifted ts r) t (λ e. ne (sym e ∙ shifted-topic_id ts r)) ∙ shifted_apart ts r all

shifted-all : (ts : Topics) → Unique topic_id ts → map (shifted ts) ts ≡ map bump ts
shifted-all [] u = refl
shifted-all (t ∷ ts) (apart, u) =
    let head : shifted (t ∷ ts) t ≡ bump t =
      own_bump (shifted ts t) t (shifted-topic_id ts t) ∙ ap bump (shifted_apart ts t apart) in
    let tail =
      map-eq_of_All (shifted (t ∷ ts)) (shifted ts) ts (
        All-map ts (λ q ne. other_bump (shifted ts q) t (λ e. ne (sym (shifted-topic_id ts q) ∙ e)))
          apart)
      ∙ shifted-all ts u in
    cc (head, tail)

pub All-drop : (P : Topic → Type 0) (n : ℕ) (ts : Topics) → All P ts → All P (drop n ts)
All-drop P zero ts all = all
All-drop P (suc n) [] all = tt
All-drop P (suc n) (t ∷ ts) all = All-drop P n ts all.1

-- Only the topics behind the position move.
pub shifted-drop :
    (n : ℕ) (ts : Topics)
    → Unique topic_id ts
    → map (shifted (drop n ts)) ts ≡ take n ts ++ map bump (drop n ts)
shifted-drop zero ts u = shifted-all ts u
shifted-drop (suc n) [] u = refl
shifted-drop (suc n) (t ∷ ts) (apart, u) =
    let head = shifted_apart (drop n ts) t (All-drop (λ q. q.id ≢ t.id) n ts apart) in
    cc (head, shifted-drop n ts u)

-- Numbered from one further on, numbered topics are moved by one.
number_from-suc : (i : ℕ) (ts : Topics) → number_from (suc i) ts ≡ map bump (number_from i ts)
unfolding set_position
number_from-suc i [] = refl
number_from-suc i (t ∷ ts) =
    let e : suc i ≡ i + 1 = omega arith in cc (e, number_from-suc (suc i) ts)

pub numbered-insert_at :
    (i n : ℕ) (new : Topic) (ts : Topics)
    → n ≤ length ts
    → number_from i (insert_at n new ts)
      ≡ take n (number_from i ts)
        ++ (set_position (i + n) new ∷ map bump (drop n (number_from i ts)))
unfolding insert_at
numbered-insert_at i zero new ts le =
    let e : i ≡ i + 0 = omega arith in cc (ap (λ n. set_position n new) e, number_from-suc i ts)
numbered-insert_at i (suc n) new [] le = absurd (omega arith)
numbered-insert_at i (suc n) new (t ∷ ts) le =
    let e : suc i + n ≡ i + suc n = omega arith in
    ap (◌∷◌ (set_position i t)) (
      subst
        (λ k.
          number_from (suc i) (insert_at n new ts)
          ≡ take n (number_from (suc i) ts)
            ++ (set_position k new ∷ map bump (drop n (number_from (suc i) ts))))
        e (numbered-insert_at (suc i) n new ts (omega arith)))
