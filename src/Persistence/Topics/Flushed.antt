-- ===== src/Persistence/Topics/Flushed.antt =====
-- persistence/repositories.py and persistence/models.py: when the database refuses the rows of a flush.
use mathlib.Core.List.{Memᴰ}
use mathlib.Core.List.Memᴰ
use note_rag.Base.{
  ℕ, ◌≤◌, ◌<◌, ◌≡◌, ◌⊎◌, refl, sym, ap, ◌∙◌, subst, Bool, true, false, ◌&&◌, ◌||◌, Option, none,
  some, [], ◌∷◌, ◌++◌, leb, leb→le, leb→lt, ◌==◌, ==_iff, arith, Bool-cases, inl, inr,
}
use note_rag.Base.Result.{Result, ok, raise}
use note_rag.Persistence.Topics.{
  Topic, Topics, TopicError, below_same, clash, clashes, has_clash, written, any_clash, flush,
}

-- The rows take one place below the same topic.
pub record Clash (a b : Topic) : Type 0 where
  pub parent : ℕ
  pub course : a.course_id ≡ b.course_id
  pub below_first : a.parent_id ≡ some parent
  pub below_second : b.parent_id ≡ some parent
  pub place : a.position ≡ b.position

-- Two rows of the table do.
abbrev pub IsTwice : Topics → Type 0
IsTwice table =
    (before after : Topics) × (a b : Topic) × (table ≡ before ++ a ∷ after)
    × Memᴰ b after
    × Clash a b

-- The rows whose ids are not past `k` are the new ones, and the others the old ones.
abbrev pub HasWritten : ℕ → Topics → Topics → Topics → Type 0
HasWritten k [] rows' table = table ≡ []
HasWritten k (r ∷ rows) [] table = table ≡ r ∷ rows
HasWritten k (r ∷ rows) (r' ∷ rows') [] = ⊥
HasWritten k (r ∷ rows) (r' ∷ rows') (t ∷ table) =
    (r'.id ≤ k → t ≡ r') × (k < r'.id → t ≡ r) × HasWritten k rows rows' table

-- As the new rows are written by their ids, two rows take one place at some time, or they never do.
abbrev pub IsRefused : Topics → Topics → Type 0
IsRefused rows rows' =
    (r : Topic) × (table : Topics) × Memᴰ r rows' × HasWritten r.id rows rows' table × IsTwice table

abbrev pub IsAccepted : Topics → Topics → Type 0
IsAccepted rows rows' =
    (r : Topic) (table : Topics)
    → Memᴰ r rows'
    → HasWritten r.id rows rows' table
    → IsTwice table
    → ⊥

below_same-parent :
    (o o' : Option ℕ) → below_same o o' ≡ true → (p : ℕ) × (o ≡ some p) × (o' ≡ some p)
unfolding below_same
below_same-parent none o' h = cc
below_same-parent (some p) none h = cc
below_same-parent (some p) (some q) h = (p, refl, ap some (sym ((==_iff p q).0 h)))

parent-below_same : (o o' : Option ℕ) (p : ℕ) → o ≡ some p → o' ≡ some p → below_same o o' ≡ true
unfolding below_same
parent-below_same o o' p h h' = let own = (==_iff p p).1 refl in rw (h, h', own) refl

all_three : (a b c : Bool) → (a && b && c) ≡ true → (a ≡ true) × (b ≡ true) × (c ≡ true)
all_three true true true h = (refl, refl, refl)
all_three true true false h = cc
all_three true false c h = cc
all_three false b c h = cc

clash-Clash : (a b : Topic) → clash a b ≡ true → Clash a b
unfolding clash
clash-Clash a b h =
    let (c, d, e) =
      all_three (a.course_id == b.course_id) (below_same a.parent_id b.parent_id)
        (a.position == b.position) h in
    let (p, first, second) = below_same-parent a.parent_id b.parent_id d in
    record {
      parent = p;
      course = (==_iff a.course_id b.course_id).0 c;
      below_first = first;
      below_second = second;
      place = (==_iff a.position b.position).0 e;
    }

Clash-clash : (a b : Topic) → Clash a b → clash a b ≡ true
unfolding clash
Clash-clash a b k =
    let c = (==_iff a.course_id b.course_id).1 k.course in
    let d = parent-below_same a.parent_id b.parent_id k.parent k.below_first k.below_second in
    let e = (==_iff a.position b.position).1 k.place in rw (c, d, e) refl

either : (a b : Bool) → (a || b) ≡ true → (a ≡ true) ⊎ (b ≡ true)
either true b h = inl refl
either false b h = inr h

on_right : (a b : Bool) → b ≡ true → (a || b) ≡ true
on_right true b h = refl
on_right false b h = h

clashes-mem :
    (t : Topic) (rows : Topics) → clashes t rows ≡ true → (b : Topic) × Memᴰ b rows × Clash t b
unfolding clashes
clashes-mem t [] h = cc
clashes-mem t (r ∷ rows) h = elim (either (clash t r) (clashes t rows) h) [
  | inl here ↦ (r, Memᴰ.head refl, clash-Clash t r here)
  | inr there ↦ let (b, m, k) = clashes-mem t rows there in (b, Memᴰ.tail m, k)
]

mem-clashes : (t b : Topic) (rows : Topics) → Memᴰ b rows → Clash t b → clashes t rows ≡ true
unfolding clashes
mem-clashes t b [] m k = absurd (Memᴰ.not-nil m)
mem-clashes t b (r ∷ rows) (Memᴰ.head e) k =
    let h = subst (λ x. clash t x ≡ true) e (Clash-clash t b k) in rw h refl
mem-clashes t b (r ∷ rows) (Memᴰ.tail m) k =
    on_right (clash t r) (clashes t rows) (mem-clashes t b rows m k)

has_clash-IsTwice : (rows : Topics) → has_clash rows ≡ true → IsTwice rows
unfolding has_clash
has_clash-IsTwice [] h = cc
has_clash-IsTwice (t ∷ rows) h = elim (either (clashes t rows) (has_clash rows) h) [
  | inl here ↦ let (b, m, k) = clashes-mem t rows here in ([], rows, t, b, refl, m, k)
  | inr there ↦
      let (before, after, a, b, e, m, k) = has_clash-IsTwice rows there in
      (t ∷ before, after, a, b, ap (◌∷◌ t) e, m, k)
]

twice-has_clash :
    (before after : Topics) (a b : Topic)
    → Memᴰ b after
    → Clash a b
    → has_clash (before ++ a ∷ after) ≡ true
unfolding has_clash
twice-has_clash [] after a b m k = let h = mem-clashes a b after m k in rw h refl
twice-has_clash (t ∷ before) after a b m k =
    on_right (clashes t (before ++ a ∷ after)) (has_clash (before ++ a ∷ after))
      (twice-has_clash before after a b m k)

written-HasWritten : (k : ℕ) (rows rows' : Topics) → HasWritten k rows rows' (written k rows rows')
unfolding written
written-HasWritten k [] rows' = refl
written-HasWritten k (r ∷ rows) [] = refl
written-HasWritten k (r ∷ rows) (r' ∷ rows') = elim (Bool-cases (leb r'.id k)) [
  | inl le ↦
      let le' = leb→le r'.id k le in
      rw le ((λ h. refl), (λ gt. absurd (omega arith)), written-HasWritten k rows rows')
  | inr gt ↦
      let gt' = leb→lt r'.id k gt in
      rw gt ((λ h. absurd (omega arith)), (λ h. refl), written-HasWritten k rows rows')
]

HasWritten-written :
    (k : ℕ) (rows rows' table : Topics)
    → HasWritten k rows rows' table
    → table ≡ written k rows rows'
unfolding written
HasWritten-written k [] rows' table h = h
HasWritten-written k (r ∷ rows) [] table h = h
HasWritten-written k (r ∷ rows) (r' ∷ rows') [] h = absurd h
HasWritten-written k (r ∷ rows) (r' ∷ rows') (t ∷ table) (new, old, more) =
    let ih = HasWritten-written k rows rows' table more in
    elim (Bool-cases (leb r'.id k)) [
      | inl le ↦ let e = new (leb→le r'.id k le) in rw le (cc (e, ih))
      | inr gt ↦ let e = old (leb→lt r'.id k gt) in rw gt (cc (e, ih))
    ]

any_clash-mem :
    (rows rows' rs : Topics)
    → any_clash rows rows' rs ≡ true
    → (r : Topic) × Memᴰ r rs × (has_clash (written r.id rows rows') ≡ true)
unfolding any_clash
any_clash-mem rows rows' [] h = cc
any_clash-mem rows rows' (r ∷ rs) h =
    elim (either (has_clash (written r.id rows rows')) (any_clash rows rows' rs) h) [
      | inl here ↦ (r, Memᴰ.head refl, here)
      | inr there ↦ let (q, m, k) = any_clash-mem rows rows' rs there in (q, Memᴰ.tail m, k)
    ]

mem-any_clash :
    (rows rows' rs : Topics) (r : Topic)
    → Memᴰ r rs
    → has_clash (written r.id rows rows') ≡ true
    → any_clash rows rows' rs ≡ true
unfolding any_clash
mem-any_clash rows rows' [] r m h = absurd (Memᴰ.not-nil m)
mem-any_clash rows rows' (q ∷ rs) r (Memᴰ.head e) h =
    let h' = subst (λ x. has_clash (written x.id rows rows') ≡ true) e h in rw h' refl
mem-any_clash rows rows' (q ∷ rs) r (Memᴰ.tail m) h =
    on_right (has_clash (written q.id rows rows')) (any_clash rows rows' rs)
      (mem-any_clash rows rows' rs r m h)

raises : (rows rows' : Topics) → any_clash rows rows' rows' ≡ true → IsRefused rows rows'
raises rows rows' h =
    let (r, m, k) = any_clash-mem rows rows' rows' h in
    (
      r,
      written r.id rows rows',
      m,
      written-HasWritten r.id rows rows',
      has_clash-IsTwice (written r.id rows rows') k,
    )

passes : (rows rows' : Topics) → any_clash rows rows' rows' ≡ false → IsAccepted rows rows'
passes rows rows' h r table m has (before, after, a, b, e, m', k) =
    let clashed =
      subst (λ x. has_clash x ≡ true) (sym e ∙ HasWritten-written r.id rows rows' table has)
        (twice-has_clash before after a b m' k) in
    let h' : Path Bool true false = sym (mem-any_clash rows rows' rows' r m clashed) ∙ h in cc

-- A flush raises where the constraint is broken on the way, and else passes.
pub data IsFlush (rows rows' : Topics) : Result TopicError (Unit {0}) → Type 0 where
  passed : IsAccepted rows rows' → IsFlush rows rows' (ok tt)
  refused : IsRefused rows rows' → IsFlush rows rows' (raise TopicError.not_unique)

pub flush-IsFlush : (rows rows' : Topics) → IsFlush rows rows' (flush rows rows')
unfolding flush
flush-IsFlush rows rows' = elim (Bool-cases (any_clash rows rows' rows')) [
  | inl h ↦ rw h (IsFlush.refused (raises rows rows' h))
  | inr h ↦ rw h (IsFlush.passed (passes rows rows' h))
]
