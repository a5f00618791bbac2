-- ===== src/Api/RateLimiter/Windowed.antt =====
-- api/middleware.py: how many calls of one client `RateLimiter` allows.
use note_rag.Base.{
  ℕ, ◌+◌, ◌≤◌, ◌<◌, ◌≡◌, ◌⊎◌, ==_iff, refl, sym, ap, ◌∙◌, Bool, true, false, ◌&&◌, List, [], ◌∷◌,
  ◌++◌, String, leb, ltb, ◌==◌, length, if◌then◌else◌, arith, Bool-cases, inl, inr,
}
use note_rag.Base.Result.{Result}
use note_rag.Api.RateLimiter.{RateLimiter, Requests, put, expire, answer, allow, is_allowed}

-- How many of the times are still in the window at `now`.
abbrev pub fresh : ℕ → ℕ → List ℕ → ℕ
fresh window now [] = 0
fresh window now (t ∷ ts) = (if leb (t + window) now then 0 else 1) + fresh window now ts

-- How many of the times lie in the window that begins at `start`.
abbrev pub within : ℕ → ℕ → List ℕ → ℕ
within window start [] = 0
within window start (t ∷ ts) =
    (if leb start t && ltb t (start + window) then 1 else 0) + within window start ts

fresh-append :
    (window now : ℕ) (xs ys : List ℕ)
    → fresh window now (xs ++ ys) ≡ fresh window now xs + fresh window now ys
fresh-append window now [] ys = omega arith
fresh-append window now (x ∷ xs) ys = omega (arith, fresh-append window now xs ys)

fresh-le : (window now : ℕ) (xs : List ℕ) → fresh window now xs ≤ length xs
fresh-le window now [] = omega arith
fresh-le window now (x ∷ xs) = ground (arith, fresh-le window now xs)

fresh-expire :
    (window now later : ℕ) (xs : List ℕ)
    → now ≤ later
    → fresh window later (expire window now xs) ≡ fresh window later xs
unfolding expire
fresh-expire window now later [] le = refl
fresh-expire window now later (x ∷ xs) le = ground (arith, fresh-expire window now later xs le)

within-fresh :
    (window start now : ℕ) (xs : List ℕ)
    → now < start + window
    → within window start xs ≤ fresh window now xs
within-fresh window start now [] lt = omega arith
within-fresh window start now (x ∷ xs) lt = ground (arith, within-fresh window start now xs lt)

-- Calls of clients at times that do not decrease.
abbrev pub Ordered : ℕ → List (ℕ × ℕ) → Type 0
Ordered last [] = Unit
Ordered last ((key, now) ∷ calls) = (last ≤ now) × Ordered now calls

abbrev pub note : Bool → ℕ → List ℕ → List ℕ
note true now ts = now ∷ ts
note false now ts = ts

-- The times of the calls of client `k` that are allowed, when the calls are made one after the other.
abbrev pub admitted : RateLimiter → ℕ → List (ℕ × ℕ) → Requests → List ℕ
admitted r k [] requests = []
admitted r k ((key, now) ∷ calls) requests =
    note (key == k && is_allowed (allow r key now requests).1) now
      (admitted r k calls (allow r key now requests).0)

-- An answer allows the call and keeps its time, or neither.
abbrev IsAnswer : RateLimiter → ℕ → List ℕ → List ℕ × Result String (Bool × ℕ) → Type 0
IsAnswer r now es (es', result) =
    ((es' ≡ es ++ (now ∷ [])) × (is_allowed result ≡ true) × (length es < r.limit))
    ⊎ ((es' ≡ es) × (is_allowed result ≡ false))

answer-IsAnswer : (r : RateLimiter) (now : ℕ) (es : List ℕ) → IsAnswer r now es (answer r now es)
unfolding answer
answer-IsAnswer r now [] = elim (Bool-cases (leb r.limit 0)) [
  | inl full ↦ rw full (inr (refl, refl))
  | inr free ↦ rw free (inl (refl, refl, ground arith))
]
answer-IsAnswer r now (e ∷ es) = elim (Bool-cases (leb r.limit (length (e ∷ es)))) [
  | inl full ↦ rw full (inr (refl, refl))
  | inr free ↦ rw free (inl (refl, refl, ground arith))
]

module _ (r : RateLimiter) (k : ℕ) where
  -- The entries of the client stand for the calls allowed before, from this time on.
  abbrev Stands : ℕ → List ℕ → Requests → Type 0
  Stands last old requests =
      (m : ℕ) → last ≤ m → fresh r.window m old ≡ fresh r.window m (requests k)

  module _ (now : ℕ) (requests : Requests) where
    abbrev left : ℕ → List ℕ
    left key = expire r.window now (requests key)

    allow_other : (key : ℕ) → (key == k) ≡ false → (allow r key now requests).0 k ≡ requests k
    unfolding allow put
    allow_other key h = rw (h, put) refl

    allow_same :
        (key : ℕ) → (key == k) ≡ true → (allow r key now requests).0 k ≡ (answer r now (left key)).0
    unfolding allow put
    allow_same key h = rw (h, put) refl

    allow_result : (key : ℕ) → (allow r key now requests).1 ≡ (answer r now (left key)).1
    unfolding allow
    allow_result key = refl

    left-fresh :
        (key m : ℕ)
        → (key == k) ≡ true
        → now ≤ m
        → fresh r.window m (left key) ≡ fresh r.window m (requests k)
    left-fresh key m h le =
        fresh-expire r.window now m (requests key) le
        ∙ ap (λ x. fresh r.window m (requests x)) ((==_iff key k).0 h)

    module _ (last : ℕ) (old : List ℕ) (le : last ≤ now) (stands : Stands last old requests)
        (key : ℕ) where
      other-Stands : (key == k) ≡ false → Stands now old (allow r key now requests).0
      other-Stands h m le' =
          stands m (omega arith) ∙ ap (fresh r.window m) (sym (allow_other key h))

      denied-Stands :
          (key == k) ≡ true
          → (answer r now (left key)).0 ≡ left key
          → Stands now old (allow r key now requests).0
      denied-Stands h e m le' =
          stands m (omega arith)
          ∙ sym (left-fresh key m h le')
          ∙ ap (fresh r.window m) (sym (allow_same key h ∙ e))

      allowed-Stands :
          (key == k) ≡ true
          → (answer r now (left key)).0 ≡ left key ++ (now ∷ [])
          → Stands now (now ∷ old) (allow r key now requests).0
      allowed-Stands h e m le' =
          let before = stands m (omega arith) in
          let kept = left-fresh key m h le' in
          let added = fresh-append r.window m (left key) (now ∷ []) in
          let sum : fresh r.window m (now ∷ old) ≡ fresh r.window m (left key ++ (now ∷ [])) =
            omega arith in
          sum ∙ ap (fresh r.window m) (sym (allow_same key h ∙ e))

      -- The call that is allowed leaves the window within the limit.
      allowed-within :
          (start : ℕ)
          → (key == k) ≡ true
          → length (left key) < r.limit
          → within r.window start old ≤ r.limit
          → within r.window start (now ∷ old) ≤ r.limit
      allowed-within start h lt bound = elim (Bool-cases (ltb now (start + r.window))) [
        | inl inside ↦
            let w = within-fresh r.window start now old (ground arith) in
            let before = stands now le in
            let kept = left-fresh key now h (omega arith) in
            let room = fresh-le r.window now (left key) in ground arith
        | inr outside ↦ ground arith
      ]

  bounded :
      (start : ℕ) (calls : List (ℕ × ℕ)) (requests : Requests) (last : ℕ) (old : List ℕ)
      → Stands last old requests
      → Ordered last calls
      → within r.window start old ≤ r.limit
      → within r.window start old + within r.window start (admitted r k calls requests) ≤ r.limit
  bounded start [] requests last old stands ordered bound = omega arith
  bounded start ((key, now) ∷ calls) requests last old stands (le, ordered) bound =
      elim (Bool-cases (key == k)) [
        | inr other ↦ rw other (
            bounded start calls (allow r key now requests).0 now old
              (other-Stands now requests last old le stands key other) ordered bound)
        | inl same ↦ elim (answer-IsAnswer r now (left now requests key)) [
          | inl (e, yes', lt) ↦
              let yes'' = ap is_allowed (allow_result now requests key) ∙ yes' in
              let ih =
                bounded start calls (allow r key now requests).0 now (now ∷ old)
                  (allowed-Stands now requests last old le stands key same e) ordered
                  (allowed-within now requests last old le stands key start same lt bound) in
              rw (same, yes'') (omega arith)
          | inr (e, no') ↦
              let no'' = ap is_allowed (allow_result now requests key) ∙ no' in
              rw (same, no'')
                (bounded start calls (allow r key now requests).0 now old
                  (denied-Stands now requests last old le stands key same e) ordered bound)
        ]
      ]

-- Where the times of the calls do not decrease, a limiter that starts empty allows each client at most
-- `limit` calls in every window, wherever the window begins and whatever the other clients do.
pub allow-within :
    (r : RateLimiter) (k start : ℕ) (calls : List (ℕ × ℕ))
    → Ordered 0 calls
    → within r.window start (admitted r k calls (λ key. [])) ≤ r.limit
allow-within r k start calls ordered =
    let b = bounded r k start calls (λ key. []) 0 [] (λ m le. refl) ordered (omega arith) in
    omega arith
