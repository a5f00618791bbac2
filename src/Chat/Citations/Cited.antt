-- ===== src/Chat/Citations/Cited.antt =====
-- chat/service.py: which citations `_extract_citations` gives.
use mathlib.Core.List.{Memᴰ, Permᴰ, reverse, reverse-cons, append-nil}
use mathlib.Core.List.Memᴰ
use mathlib.Core.List.Permᴰ
use note_rag.Base.{
  ℕ, ◌<◌, ◌≡◌, inl, inr, refl, sym, ap, ◌∙◌, subst, true, false, Option, none, some, List, [], ◌∷◌,
  map, length, All, leb, ◌==◌, ==_iff, leb→lt, Bool-cases, Option-cases,
}
use note_rag.Base.Result.{Result, ok, raise}
use note_rag.Base.Sorting.{mem-perm}
use note_rag.Base.Table.{find, find-key}
use note_rag.Chunking.Tokens.{Text}
use note_rag.Context.Models.{ContextPackage}
use note_rag.Chat.Models.{Citation, citation_key, ChatError}
use note_rag.Chat.Citations.{
  available_citations, to_int, sorted_set, cited, are_short, groups, extract_citations,
}
use note_rag.Chat.Citations.Scanned.{Bracketed, groups-sound, groups-complete}
use note_rag.Chat.Citations.Numbers.{
  IsIncreasing, sorted_set-IsIncreasing, mem-sorted_set, sorted_set-mem,
}

find-mem : (n : ℕ) (cs : List Citation) {c : Citation} → find citation_key n cs ≡ some c → Memᴰ c cs
unfolding find
find-mem n [] h = cc
find-mem n (x ∷ cs) {c} h = elim (Bool-cases (x.citation_id == n)) [
  | inl here ↦ let e : some x ≡ some c = rw here at h in Memᴰ.head cc
  | inr there ↦ Memᴰ.tail (find-mem n cs (rw there at h))
]

mem-find :
    (n : ℕ) (cs : List Citation) (c : Citation)
    → Memᴰ c cs
    → c.citation_id ≡ n
    → (d : Citation) × (find citation_key n cs ≡ some d)
unfolding find
mem-find n [] c m e = absurd (Memᴰ.not-nil m)
mem-find n (x ∷ cs) c (Memᴰ.head h) e =
    let own : (x.citation_id == n) ≡ true =
      (==_iff x.citation_id n).1 (sym (ap citation_key h) ∙ e) in
    (x, rw own refl)
mem-find n (x ∷ cs) c (Memᴰ.tail t) e = elim (Bool-cases (x.citation_id == n)) [
  | inl own ↦ (x, rw own refl)
  | inr other ↦ let (d, h) = mem-find n cs c t e in (d, rw other h)
]

reverse-perm : (cs : List Citation) → Permᴰ (reverse cs) cs
reverse-perm [] = Permᴰ.refl []
reverse-perm (x ∷ cs) =
    subst (λ y. Permᴰ y (x ∷ cs)) (sym (reverse-cons x cs))
      (Permᴰ.trans (Permᴰ.middle x (reverse cs) []) (
        Permᴰ.cons refl
          (subst (λ y. Permᴰ y cs) (sym (append-nil (reverse cs))) (reverse-perm cs))))

module _ (available : List Citation) where
  cited-none :
      (n : ℕ) (ns : List ℕ)
      → find citation_key n (reverse available) ≡ none
      → cited (n ∷ ns) available ≡ cited ns available
  unfolding cited
  cited-none n ns h =
      ap
        (λ o. elim o as (λ _. List Citation) [
          | none ↦ cited ns available
          | some c ↦ c ∷ cited ns available
        ])
        h

  cited-some :
      (n : ℕ) (ns : List ℕ) (c : Citation)
      → find citation_key n (reverse available) ≡ some c
      → cited (n ∷ ns) available ≡ c ∷ cited ns available
  unfolding cited
  cited-some n ns d h =
      ap
        (λ o. elim o as (λ _. List Citation) [
          | none ↦ cited ns available
          | some c ↦ c ∷ cited ns available
        ])
        h

  cited-sound :
      (ns : List ℕ) (c : Citation)
      → Memᴰ c (cited ns available)
      → Memᴰ c available × Memᴰ c.citation_id ns
  unfolding cited
  cited-sound [] c m = absurd (Memᴰ.not-nil m)
  cited-sound (n ∷ ns) c m = elim (Option-cases (find citation_key n (reverse available))) [
    | inl none' ↦
        let (there, named) = cited-sound ns c (rw (cited-none n ns none') at m) in
        (there, Memᴰ.tail named)
    | inr (d, found) ↦
        let m' : Memᴰ c (d ∷ cited ns available) = rw (cited-some n ns d found) at m in
        elim m' [
          | Memᴰ.head e ↦ (
            mem-perm (reverse-perm available) (
                subst (λ x. Memᴰ x (reverse available)) (sym e)
                  (find-mem n (reverse available) found)),
            Memᴰ.head (ap citation_key e ∙ find-key citation_key n (reverse available) found),
          )
          | Memᴰ.tail t ↦ let (there, named) = cited-sound ns c t in (there, Memᴰ.tail named)
        ]
  ]

  cited_complete :
      (ns : List ℕ) (n : ℕ) (c : Citation)
      → Memᴰ n ns
      → Memᴰ c available
      → c.citation_id ≡ n
      → (d : Citation) × Memᴰ d (cited ns available) × (d.citation_id ≡ n)
  unfolding cited
  cited_complete [] n c named there e = absurd (Memᴰ.not-nil named)
  cited_complete (m ∷ ns) n c (Memᴰ.head h) there e =
      let (d, found) =
        mem-find m (reverse available) c (mem-perm (Permᴰ.symm (reverse-perm available)) there)
          (e ∙ h) in
      (
        d,
        subst (Memᴰ d) (sym (cited-some m ns d found)) (Memᴰ.head refl),
        find-key citation_key m (reverse available) found ∙ sym h,
      )
  cited_complete (m ∷ ns) n c (Memᴰ.tail t) there e =
      let (d, in_rest, same) = cited_complete ns n c t there e in
      elim (Option-cases (find citation_key m (reverse available))) [
        | inl none' ↦ (d, subst (Memᴰ d) (sym (cited-none m ns none')) in_rest, same)
        | inr (x, found) ↦
            (d, subst (Memᴰ d) (sym (cited-some m ns x found)) (Memᴰ.tail in_rest), same)
      ]

  cited-above :
      (n : ℕ) (ns : List ℕ)
      → All (λ m. n < m) ns
      → All (λ m. n < m) (map citation_key (cited ns available))
  unfolding cited
  cited-above n [] all = tt
  cited-above n (m ∷ ns) (lt, all) = elim (Option-cases (find citation_key m (reverse available))) [
    | inl none' ↦ rw (cited-none m ns none') (cited-above n ns all)
    | inr (d, found) ↦ rw (cited-some m ns d found) (
      subst (λ x. n < x) (sym (find-key citation_key m (reverse available) found)) lt,
      cited-above n ns all,
    )
  ]

  cited-IsIncreasing :
      (ns : List ℕ) → IsIncreasing ns → IsIncreasing (map citation_key (cited ns available))
  unfolding cited
  cited-IsIncreasing [] up = tt
  cited-IsIncreasing (n ∷ ns) (all, up) =
      elim (Option-cases (find citation_key n (reverse available))) [
        | inl none' ↦ rw (cited-none n ns none') (cited-IsIncreasing ns up)
        | inr (d, found) ↦ rw (cited-some n ns d found) (
          subst (λ x. All (λ m. x < m) (map citation_key (cited ns available)))
              (sym (find-key citation_key n (reverse available) found)) (cited-above n ns all),
          cited-IsIncreasing ns up,
        )
      ]

map-mem :
    (f : List ℕ → ℕ) (ds : List ℕ) (dss : List (List ℕ)) → Memᴰ ds dss → Memᴰ (f ds) (map f dss)
map-mem f ds [] m = absurd (Memᴰ.not-nil m)
map-mem f ds (x ∷ dss) (Memᴰ.head e) = Memᴰ.head (ap f e)
map-mem f ds (x ∷ dss) (Memᴰ.tail t) = Memᴰ.tail (map-mem f ds dss t)

mem-map :
    (f : List ℕ → ℕ) (n : ℕ) (dss : List (List ℕ))
    → Memᴰ n (map f dss)
    → (ds : List ℕ) × Memᴰ ds dss × (f ds ≡ n)
mem-map f n [] m = absurd (Memᴰ.not-nil m)
mem-map f n (x ∷ dss) (Memᴰ.head e) = (x, Memᴰ.head refl, sym e)
mem-map f n (x ∷ dss) (Memᴰ.tail t) = let (ds, m, e) = mem-map f n dss t in (ds, Memᴰ.tail m, e)

are_short-long :
    (max_digits : ℕ) (dss : List (List ℕ))
    → are_short max_digits dss ≡ false
    → (ds : List ℕ) × Memᴰ ds dss × (max_digits < length ds)
unfolding are_short
are_short-long max_digits [] h = cc
are_short-long max_digits (ds ∷ dss) h = elim (Bool-cases (leb (length ds) max_digits)) [
  | inl short ↦
      let (es, m, lt) = are_short-long max_digits dss (rw short at h) in (es, Memᴰ.tail m, lt)
  | inr long ↦ (ds, Memᴰ.head refl, leb→lt (length ds) max_digits long)
]

-- The citations are those of the chunks whose numbers stand in brackets in the answer, one for each number and
-- in their order.
pub record IsCited (decimal : ℕ → Option ℕ) (answer : Text) (context : ContextPackage)
    (citations : List Citation) : Type 0 where
  pub sound :
      (c : Citation)
      → Memᴰ c citations
      → Memᴰ c (available_citations context)
        × ((ds : List ℕ) × Bracketed decimal answer ds × (to_int 0 ds ≡ c.citation_id))
  pub complete :
      (ds : List ℕ) (c : Citation)
      → Bracketed decimal answer ds
      → Memᴰ c (available_citations context)
      → c.citation_id ≡ to_int 0 ds
      → (d : Citation) × Memᴰ d citations × (d.citation_id ≡ to_int 0 ds)
  pub increasing : IsIncreasing (map citation_key citations)

-- What `_extract_citations` does: it gives these citations, or one of the numbers has too many digits.
pub data IsExtracted (decimal : ℕ → Option ℕ) (max_digits : ℕ) (answer : Text)
    (context : ContextPackage) : Result ChatError (List Citation) → Type 0 where
  given :
      {citations : List Citation}
      → IsCited decimal answer context citations
      → IsExtracted decimal max_digits answer context (ok citations)
  refused :
      (ds : List ℕ)
      → Bracketed decimal answer ds
      → max_digits < length ds
      → IsExtracted decimal max_digits answer context (raise ChatError.too_many_digits)

module _ (decimal : ℕ → Option ℕ) (apart : decimal 91 ≡ none) (answer : Text)
    (context : ContextPackage) where
  abbrev numbers : List ℕ
  numbers = map (to_int 0) (groups decimal none answer)

  cited-IsCited :
      IsCited decimal answer context (cited (sorted_set numbers) (available_citations context))
  cited-IsCited = record {
    sound = λ c m.
        let (there, named) = cited-sound (available_citations context) (sorted_set numbers) c m in
        let (ds, found, e) =
          mem-map (to_int 0) c.citation_id (groups decimal none answer)
            (mem-sorted_set c.citation_id numbers named) in
        (there, (ds, groups-sound decimal answer ds found, e));
    complete = λ ds c bracketed there e.
        cited_complete (available_citations context) (sorted_set numbers) (to_int 0 ds) c
          (sorted_set-mem (to_int 0 ds) numbers (
            map-mem (to_int 0) ds (groups decimal none answer)
              (groups-complete decimal apart answer ds bracketed)))
          there e;
    increasing =
        cited-IsIncreasing (available_citations context) (sorted_set numbers)
          (sorted_set-IsIncreasing numbers);
  }

-- Where a bracket that opens is no digit: `_extract_citations` gives in increasing order, once each, the numbers
-- that stand in brackets in the answer and that a chunk of the context has, each with such a
-- chunk, or it raises since a number in brackets is too long for `int`.
pub extract_citations-IsExtracted :
    (decimal : ℕ → Option ℕ) (max_digits : ℕ) (answer : Text) (context : ContextPackage)
    → decimal 91 ≡ none
    → IsExtracted decimal max_digits answer context
        (extract_citations decimal max_digits answer context)
unfolding extract_citations
extract_citations-IsExtracted decimal max_digits answer context apart =
    elim (Bool-cases (are_short max_digits (groups decimal none answer))) [
      | inl short ↦ rw short (IsExtracted.given (cited-IsCited decimal apart answer context))
      | inr long ↦
          let (ds, m, lt) = are_short-long max_digits (groups decimal none answer) long in
          rw long (IsExtracted.refused ds (groups-sound decimal answer ds m) lt)
    ]
