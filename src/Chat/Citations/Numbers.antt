-- ===== src/Chat/Citations/Numbers.antt =====
-- chat/service.py: the numbers that `_extract_citations` sorts.
use mathlib.Core.List.{Memᴰ}
use mathlib.Core.List.Memᴰ
use note_rag.Base.{
  ℕ, ◌<◌, ◌≡◌, ◌⊎◌, inl, inr, ◌∙◌, List, [], ◌∷◌, All, ltb, ◌==◌, ==_iff, ltb→lt, arith, Bool-cases,
}
use note_rag.Chat.Citations.{insert_new, sorted_set}

mem-insert_new : (n m : ℕ) (ms : List ℕ) → Memᴰ m (insert_new n ms) → (m ≡ n) ⊎ Memᴰ m ms
unfolding insert_new
mem-insert_new n m [] (Memᴰ.head e) = inl e
mem-insert_new n m [] (Memᴰ.tail e) = absurd (Memᴰ.not-nil e)
mem-insert_new n m (x ∷ ms) found = elim (Bool-cases (n == x)) [
  | inl same ↦ inr (rw same at found)
  | inr other ↦ elim (Bool-cases (ltb n x)) [
    | inl less ↦
        let found' : Memᴰ m (n ∷ x ∷ ms) = rw (other, less) at found in
        elim found' [ Memᴰ.head e ↦ inl e | Memᴰ.tail t ↦ inr t ]
    | inr more ↦
        let found' : Memᴰ m (x ∷ insert_new n ms) = rw (other, more) at found in
        elim found' [
          | Memᴰ.head e ↦ inr (Memᴰ.head e)
          | Memᴰ.tail t ↦ elim (mem-insert_new n m ms t) [
            | inl e ↦ inl e
            | inr t' ↦ inr (Memᴰ.tail t')
          ]
        ]
  ]
]

insert_new-mem : (n m : ℕ) (ms : List ℕ) → (m ≡ n) ⊎ Memᴰ m ms → Memᴰ m (insert_new n ms)
unfolding insert_new
insert_new-mem n m [] (inl e) = Memᴰ.head e
insert_new-mem n m [] (inr found) = absurd (Memᴰ.not-nil found)
insert_new-mem n m (x ∷ ms) found = elim (Bool-cases (n == x)) [
  | inl same ↦ rw same (here found ((==_iff n x).0 same))
  | inr other ↦ elim (Bool-cases (ltb n x)) [
    | inl less ↦ rw (other, less) (front found)
    | inr more ↦ rw (other, more) (back (λ f. insert_new-mem n m ms f) found)
  ]
]
  where
    here : (m ≡ n) ⊎ Memᴰ m (x ∷ ms) → n ≡ x → Memᴰ m (x ∷ ms)
    here (inl e) same = Memᴰ.head (e ∙ same)
    here (inr t) same = t

    front : (m ≡ n) ⊎ Memᴰ m (x ∷ ms) → Memᴰ m (n ∷ x ∷ ms)
    front (inl e) = Memᴰ.head e
    front (inr t) = Memᴰ.tail t

    back :
        ((m ≡ n) ⊎ Memᴰ m ms → Memᴰ m (insert_new n ms))
        → (m ≡ n) ⊎ Memᴰ m (x ∷ ms)
        → Memᴰ m (x ∷ insert_new n ms)
    back ih (inl e) = Memᴰ.tail (ih (inl e))
    back ih (inr (Memᴰ.head e)) = Memᴰ.head e
    back ih (inr (Memᴰ.tail t)) = Memᴰ.tail (ih (inr t))

abbrev pub IsIncreasing : List ℕ → Type 0
IsIncreasing [] = Unit
IsIncreasing (n ∷ ns) = All (λ m. n < m) ns × IsIncreasing ns

All-below : (n x : ℕ) (ms : List ℕ) → n < x → All (λ m. x < m) ms → All (λ m. n < m) ms
All-below n x [] lt all = tt
All-below n x (m ∷ ms) lt (lt', all) = (omega arith, All-below n x ms lt all)

All-insert_new :
    (x n : ℕ) (ms : List ℕ) → x < n → All (λ m. x < m) ms → All (λ m. x < m) (insert_new n ms)
unfolding insert_new
All-insert_new x n [] lt all = (lt, tt)
All-insert_new x n (m ∷ ms) lt (lt', all) = elim (Bool-cases (n == m)) [
  | inl same ↦ rw same (lt', all)
  | inr other ↦ elim (Bool-cases (ltb n m)) [
    | inl less ↦ rw (other, less) (lt, (lt', all))
    | inr more ↦ rw (other, more) (lt', All-insert_new x n ms lt all)
  ]
]

insert_new-IsIncreasing : (n : ℕ) (ms : List ℕ) → IsIncreasing ms → IsIncreasing (insert_new n ms)
unfolding insert_new
insert_new-IsIncreasing n [] up = (tt, tt)
insert_new-IsIncreasing n (m ∷ ms) (all, up) = elim (Bool-cases (n == m)) [
  | inl same ↦ rw same (all, up)
  | inr other ↦ elim (Bool-cases (ltb n m)) [
    | inl less ↦
        let lt = ltb→lt n m less in rw (other, less) ((lt, All-below n m ms lt all), (all, up))
    | inr more ↦
        let lt : m < n = ground arith in
        rw (other, more) (All-insert_new m n ms lt all, insert_new-IsIncreasing n ms up)
  ]
]

pub sorted_set-IsIncreasing : (ns : List ℕ) → IsIncreasing (sorted_set ns)
unfolding sorted_set
sorted_set-IsIncreasing [] = tt
sorted_set-IsIncreasing (n ∷ ns) =
    insert_new-IsIncreasing n (sorted_set ns) (sorted_set-IsIncreasing ns)

pub mem-sorted_set : (m : ℕ) (ns : List ℕ) → Memᴰ m (sorted_set ns) → Memᴰ m ns
unfolding sorted_set
mem-sorted_set m [] found = found
mem-sorted_set m (n ∷ ns) found = elim (mem-insert_new n m (sorted_set ns) found) [
  | inl e ↦ Memᴰ.head e
  | inr t ↦ Memᴰ.tail (mem-sorted_set m ns t)
]

pub sorted_set-mem : (m : ℕ) (ns : List ℕ) → Memᴰ m ns → Memᴰ m (sorted_set ns)
unfolding sorted_set
sorted_set-mem m [] found = found
sorted_set-mem m (n ∷ ns) (Memᴰ.head e) = insert_new-mem n m (sorted_set ns) (inl e)
sorted_set-mem m (n ∷ ns) (Memᴰ.tail t) =
    insert_new-mem n m (sorted_set ns) (inr (sorted_set-mem m ns t))
