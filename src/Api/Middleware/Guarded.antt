-- ===== src/Api/Middleware/Guarded.antt =====
-- api/middleware.py: which requests `production_middleware` hands on.
use note_rag.Base.{
  ℕ, ◌≤◌, ◌≡◌, refl, sym, ap, ◌∙◌, subst, Bool, true, false, ◌&&◌, List, [], ◌∷◌, String, ◌==◌,
  arith, Bool-cases, inl, inr,
}
use note_rag.Base.Result.{Result, ok, raise}
use note_rag.Chunking.Tokens.{Text}
use note_rag.Api.RateLimiter.{RateLimiter, Requests, allow, is_allowed}
use note_rag.Api.RateLimiter.Windowed.{within, note, Ordered, admitted, allow-within}
use note_rag.Api.Middleware.{
  Texts, Request, ApiSettings, Outcome, is_empty, requires_authentication, rate_limited_path,
  supplied, authenticated, is_too_large, client_key, if_authenticated, after_limiter, limited,
  production_middleware, unless_large,
}

abbrev pub is_passed : Outcome → Bool
is_passed Outcome.call_next = true
is_passed _ = false

abbrev pub is_small : Result String Bool → Bool
is_small (raise e) = false
is_small (ok true) = false
is_small (ok false) = true

module _ (requests : Requests) (rest : Requests × Outcome) where
  unless_large-small :
      (large : Result String Bool) → is_small large ≡ true → unless_large large requests rest ≡ rest
  unfolding unless_large
  unless_large-small (raise e) h = cc
  unless_large-small (ok true) h = cc
  unless_large-small (ok false) h = refl

  unless_large-stopped :
      (large : Result String Bool)
      → is_small large ≡ false
      → (o : Outcome) × (unless_large large requests rest ≡ (requests, o)) × (is_passed o ≡ false)
  unfolding unless_large
  unless_large-stopped (raise e) h = (Outcome.raised e, refl, refl)
  unless_large-stopped (ok true) h = (Outcome.request_too_large, refl, refl)
  unless_large-stopped (ok false) h = cc

module _ (t : Texts) (s : ApiSettings) where
  if_authenticated-true :
      (answer : Result String Bool) → is_passed (if_authenticated answer) ≡ true → answer ≡ ok true
  if_authenticated-true (ok true) h = refl
  if_authenticated-true (ok false) h = cc
  if_authenticated-true (raise e) h = cc

  authenticated-supplied :
      (request : Request) (token : Text)
      → ((a b : Text) → t.compare_digest a b ≡ ok true → a ≡ b)
      → is_empty token ≡ false
      → authenticated t request token ≡ ok true
      → supplied t request ≡ token
  unfolding authenticated
  authenticated-supplied request token sound some_token h =
      elim (Bool-cases (is_empty (supplied t request))) [
        | inl nothing ↦
            let h' : Path (Result String Bool) (ok false) (ok true) =
              rw (some_token, nothing) at h in
            cc
        | inr given ↦ sound (supplied t request) token (rw (some_token, given) at h)
      ]

  after_limiter-passed :
      (request : Request) (answered : Result String (Bool × ℕ))
      → is_passed (after_limiter t s request answered) ≡ true
      → requires_authentication request ≡ true
      → authenticated t request s.api_auth_token ≡ ok true
  unfolding after_limiter
  after_limiter-passed request (raise e) h needs = cc
  after_limiter-passed request (ok (false, retry_after)) h needs = cc
  after_limiter-passed request (ok (true, retry_after)) h needs =
      if_authenticated-true (authenticated t request s.api_auth_token) (rw needs at h)

  after_limiter-allowed :
      (request : Request) (answered : Result String (Bool × ℕ))
      → is_passed (after_limiter t s request answered) ≡ true
      → is_allowed answered ≡ true
  unfolding after_limiter
  after_limiter-allowed request (raise e) h = cc
  after_limiter-allowed request (ok (false, retry_after)) h = cc
  after_limiter-allowed request (ok (true, retry_after)) h = refl

  module _ (r : RateLimiter) (now : ℕ) (request : Request) (requests : Requests) where
    middleware_stopped :
        is_small (is_too_large t s request.content_length) ≡ false
        → (o : Outcome) × (production_middleware t s r now request requests ≡ (requests, o))
          × (is_passed o ≡ false)
    unfolding production_middleware
    middleware_stopped h =
        unless_large-stopped requests _ (is_too_large t s request.content_length) h

    middleware_checked :
        is_small (is_too_large t s request.content_length) ≡ true
        → production_middleware t s r now request requests ≡ (
          (limited r now request requests).0,
          after_limiter t s request (limited r now request requests).1,
        )
    unfolding production_middleware
    middleware_checked h = unless_large-small requests _ (is_too_large t s request.content_length) h

    limited_free :
        rate_limited_path request ≡ false
        → limited r now request requests ≡ (requests, ok (true, 0))
    unfolding limited
    limited_free h = rw (h, limited) refl

    limited_counted :
        rate_limited_path request ≡ true
        → limited r now request requests ≡ allow r (client_key request.client) now requests
    unfolding limited
    limited_counted h = rw (h, limited) refl

-- Where a token is set and `compare_digest` answers true only of equal texts, a request that the middleware
-- hands on and whose path needs authentication has supplied that token.
pub production_middleware-supplied :
    (t : Texts) (s : ApiSettings) (r : RateLimiter) (now : ℕ) (request : Request)
    (requests : Requests)
    → ((a b : Text) → t.compare_digest a b ≡ ok true → a ≡ b)
    → is_empty s.api_auth_token ≡ false
    → requires_authentication request ≡ true
    → is_passed (production_middleware t s r now request requests).1 ≡ true
    → supplied t request ≡ s.api_auth_token
production_middleware-supplied t s r now request requests sound some_token needs passed =
    elim (Bool-cases (is_small (is_too_large t s request.content_length))) [
      | inr large ↦
          let (o, same, refused) = middleware_stopped t s r now request requests large in
          let h : Path Bool false true =
            sym refused ∙ sym (ap (λ p. is_passed p.1) same) ∙ passed in
          cc
      | inl fits ↦
          let e = ap (λ p. is_passed p.1) (middleware_checked t s r now request requests fits) in
          authenticated-supplied t s request s.api_auth_token sound some_token (
            after_limiter-passed t s request (limited r now request requests).1 (sym e ∙ passed)
              needs)
    ]

all_true : (a b c : Bool) → (a && b && c) ≡ true → (a ≡ true) × (b ≡ true) × (c ≡ true)
all_true true true true h = (refl, refl, refl)
all_true true true false h = cc
all_true true false c h = cc
all_true false b c h = cc

both_true : (a c d : Bool) → (c ≡ true → d ≡ true) → (a && true && c) ≡ true → (a && d) ≡ true
both_true true c d f h = f h
both_true false c d f h = h

-- Requests with their times, one after the other.
abbrev pub Timed : Type 0
Timed = List (Request × ℕ)

abbrev pub OrderedTimes : ℕ → Timed → Type 0
OrderedTimes last [] = Unit
OrderedTimes last ((request, now) ∷ rest) = (last ≤ now) × OrderedTimes now rest

module _ (t : Texts) (s : ApiSettings) (r : RateLimiter) where
  -- The times of the requests of a client for limited paths that the middleware hands on.
  abbrev pub times_passed : ℕ → Timed → Requests → List ℕ
  times_passed k [] requests = []
  times_passed k ((request, now) ∷ rest) requests =
      note
        (client_key request.client == k
          && rate_limited_path request
          && is_passed (production_middleware t s r now request requests).1)
        now (times_passed k rest (production_middleware t s r now request requests).0)

  abbrev counts : Request → Bool
  counts request = is_small (is_too_large t s request.content_length) && rate_limited_path request

  abbrev note_call : Bool → ℕ × ℕ → List (ℕ × ℕ) → List (ℕ × ℕ)
  note_call true call calls = call ∷ calls
  note_call false call calls = calls

  -- The calls of the limiter that the requests lead to.
  abbrev calls_of : Timed → List (ℕ × ℕ)
  calls_of [] = []
  calls_of ((request, now) ∷ rest) =
      note_call (counts request) (client_key request.client, now) (calls_of rest)

  Ordered-le : (m n : ℕ) (calls : List (ℕ × ℕ)) → m ≤ n → Ordered n calls → Ordered m calls
  Ordered-le m n [] le o = tt
  Ordered-le m n ((key, now) ∷ calls) le (here, o) = (omega arith, o)

  calls_of-Ordered :
      (last : ℕ) (reqs : Timed) → OrderedTimes last reqs → Ordered last (calls_of reqs)
  calls_of-Ordered last [] o = tt
  calls_of-Ordered last ((request, now) ∷ rest) (le, o) =
      let ih = calls_of-Ordered now rest o in
      elim (Bool-cases (counts request)) [
        | inl yes' ↦ rw yes' (le, ih)
        | inr no' ↦ rw no' (Ordered-le last now (calls_of rest) le ih)
      ]

  within-note :
      (start now : ℕ) (a b : Bool) (xs ys : List ℕ)
      → (a ≡ true → b ≡ true)
      → within r.window start xs ≤ within r.window start ys
      → within r.window start (note a now xs) ≤ within r.window start (note b now ys)
  within-note start now true true xs ys h le = omega arith
  within-note start now true false xs ys h le = absurd (let e : Path Bool false true = h refl in cc)
  within-note start now false true xs ys h le = omega arith
  within-note start now false false xs ys h le = le

  module _ (k start : ℕ) where
    abbrev Bounded : Request → ℕ → Timed → Requests → Requests × Outcome → Type 0
    Bounded request now rest requests p =
        within r.window start (
          note (client_key request.client == k && rate_limited_path request && is_passed p.1) now
            (times_passed k rest p.0))
        ≤ within r.window start (
            admitted r k
              (note_call (counts request) (client_key request.client, now) (calls_of rest))
              requests)

    passed_within :
        (reqs : Timed) (requests : Requests)
        → within r.window start (times_passed k reqs requests)
          ≤ within r.window start (admitted r k (calls_of reqs) requests)
    passed_within [] requests = omega arith
    passed_within ((request, now) ∷ rest) requests =
        elim (Bool-cases (is_small (is_too_large t s request.content_length))) [
          | inr large ↦
              let (o, same, refused) = middleware_stopped t s r now request requests large in
              subst (Bounded request now rest requests) (sym same) (
                rw large (
                  within-note start now _ false _ _
                    (λ h.
                      let passed =
                        (all_true (client_key request.client == k) (rate_limited_path request)
                          (is_passed o) h).2 in
                      sym refused ∙ passed)
                    (passed_within rest requests)))
          | inl fits ↦
              subst (Bounded request now rest requests)
                (sym (middleware_checked t s r now request requests fits))
                (elim (Bool-cases (rate_limited_path request)) [
                  | inl counted ↦
                      let a = allow r (client_key request.client) now requests in
                      subst
                        (λ l.
                          Bounded request now rest requests (l.0, after_limiter t s request l.1))
                        (sym (limited_counted t s r now request requests counted))
                        (rw (fits, counted)
                          (within-note start now _
                            (client_key request.client == k && is_allowed a.1) _ _
                            (both_true (client_key request.client == k) _ (is_allowed a.1)
                              (after_limiter-allowed t s request a.1))
                            (passed_within rest a.0)))
                  | inr free ↦
                      subst
                        (λ l.
                          Bounded request now rest requests (l.0, after_limiter t s request l.1))
                        (sym (limited_free t s r now request requests free))
                        (rw (fits, free)
                          (within-note start now _ false _ _
                            (λ h. (all_true (client_key request.client == k) false _ h).1)
                            (passed_within rest requests)))
                ])
        ]

-- Where the times of the requests do not decrease and the limiter starts empty, the middleware hands on at
-- most `limit` requests of a client for limited paths in every window, whatever the requests are.
pub production_middleware-within :
    (t : Texts) (s : ApiSettings) (r : RateLimiter) (k start : ℕ) (reqs : Timed)
    → OrderedTimes 0 reqs
    → within r.window start (times_passed t s r k reqs (λ key. [])) ≤ r.limit
production_middleware-within t s r k start reqs ordered =
    let b = passed_within t s r k start reqs (λ key. []) in
    let limit =
      allow-within r k start (calls_of t s r reqs) (calls_of-Ordered t s r 0 reqs ordered) in
    omega arith
