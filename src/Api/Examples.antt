-- ===== src/Api/Examples.antt =====
-- Two clients and a limit of two calls in ten ticks.
use note_rag.Base.{
  Bool, true, not, ◌==◌, some, String, Bool-cases, inl, inr, ℕ, ◌≤◌, ◌≡◌, refl, List, [], ◌∷◌,
  arith,
}
use note_rag.Base.Result.{Result, ok}
use note_rag.Chunking.Tokens.{Text}
use note_rag.Context.Budget.{codes}
use note_rag.Context.Dedup.{text_eq}
use note_rag.Api.Middleware.{
  Texts, Request, ApiSettings, is_empty, requires_authentication, supplied, production_middleware,
}
use note_rag.Api.Middleware.Guarded.{
  is_passed, Timed, OrderedTimes, times_passed, production_middleware-supplied,
  production_middleware-within,
}
use note_rag.Api.RateLimiter.{RateLimiter, allow}
use note_rag.Api.RateLimiter.Windowed.{Ordered, within, admitted, allow-within}

abbrev limiter : RateLimiter
limiter = record { limit = 2; window = 10; ticks = 1 }

abbrev calls : List (ℕ × ℕ)
calls = (1, 5) ∷ (1, 6) ∷ (2, 6) ∷ (1, 9) ∷ (1, 15) ∷ (1, 15) ∷ []

-- The third call of the first client is refused, and one of the two that follow.
calls-admitted : admitted limiter 1 calls (λ key. []) ≡ 5 ∷ 6 ∷ 15 ∷ []
unfolding allow
calls-admitted = refl

calls-Ordered : Ordered 0 calls
calls-Ordered =
    (omega arith, (omega arith, (omega arith, (omega arith, (omega arith, (omega arith, tt))))))

allow-within_example : within 10 6 (admitted limiter 1 calls (λ key. [])) ≤ 2
allow-within_example = allow-within limiter 1 6 calls calls-Ordered

-- Header texts in lower case, with spaces as white space.
abbrev texts : Texts
texts = record {
  chars = record { is_word = λ c. not (c == 32); is_space = λ c. c == 32 };
  lower = λ text. text;
  digits = λ text. some (ok 5);
  compare_digest = λ a b. ok (text_eq a b);
}

abbrev api_settings : ApiSettings
api_settings = record { max_request_bytes = 100; api_auth_token = codes "secret" }

abbrev request : Request
request = record {
  method = codes "GET";
  path = codes "/api/v1/courses";
  content_length = some (codes "5");
  client = some 0;
  authorization = codes "bearer secret ";
  x_api_key = [];
}

text_eq_sound : (a b : Text) → text_eq a b ≡ true → a ≡ b
unfolding text_eq
text_eq_sound [] [] h = refl
text_eq_sound [] (d ∷ b) h = cc
text_eq_sound (c ∷ a) [] h = cc
text_eq_sound (c ∷ a) (d ∷ b) h = ground (arith, text_eq_sound a b)

compare_digest_sound : (a b : Text) → texts.compare_digest a b ≡ ok true → a ≡ b
compare_digest_sound a b h = elim (Bool-cases (text_eq a b)) [
  | inl same ↦ text_eq_sound a b same
  | inr other ↦ let e : Path (Result String Bool) (ok (text_eq a b)) (ok true) = h in cc
]

request-passed :
    is_passed (production_middleware texts api_settings limiter 5 request (λ key. [])).1 ≡ true
unfolding production_middleware
request-passed = refl

production_middleware-supplied_example : supplied texts request ≡ codes "secret"
unfolding requires_authentication is_empty
production_middleware-supplied_example =
    production_middleware-supplied texts api_settings limiter 5 request (λ key. [])
      compare_digest_sound refl refl request-passed

abbrev requests : Timed
requests = (request, 5) ∷ (request, 6) ∷ (request, 7) ∷ []

requests-OrderedTimes : OrderedTimes 0 requests
requests-OrderedTimes = (omega arith, (omega arith, (omega arith, tt)))

production_middleware-within_example :
    within 10 5 (times_passed texts api_settings limiter 1 requests (λ key. [])) ≤ 2
production_middleware-within_example =
    production_middleware-within texts api_settings limiter 1 5 requests requests-OrderedTimes
