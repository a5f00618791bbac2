-- ===== src/Api/Middleware.antt =====
-- api/middleware.py: `production_middleware` up to the call of the next handler, with the checks that it
-- makes. `str.lower`, `isdigit` with `int`, and `compare_digest` are arguments. Headers that are
-- not there are empty texts, and so is no token. The metrics, the log and the headers of the response are left out.
pub mod Guarded
use note_rag.Base.{
  ℕ, suc, Bool, true, false, not, ◌&&◌, ◌||◌, Option, none, some, List, [], ◌∷◌, String, ltb, ◌==◌,
  drop, if◌then◌else◌,
}
use note_rag.Base.Result.{Result, ok, raise}
use note_rag.Chunking.Tokens.{Text, CharClass}
use note_rag.Context.Budget.{codes}
use note_rag.Context.Dedup.{text_eq, lstrip, rstrip}
use note_rag.Api.RateLimiter.{RateLimiter, Requests, allow}

pub record Texts : Type 0 where
  pub chars : CharClass
  pub lower : Text → Text
  -- `int` of a text that `isdigit`: of a superscript it is a `ValueError`
  pub digits : Text → Option (Result String ℕ)
  pub compare_digest : Text → Text → Result String Bool

pub record Request : Type 0 where
  pub method : Text
  pub path : Text
  pub content_length : Option Text
  pub client : Option ℕ
  pub authorization : Text
  pub x_api_key : Text

pub record ApiSettings : Type 0 where
  pub max_request_bytes : ℕ
  pub api_auth_token : Text

-- What the middleware does with a request: a response of its own, or the call of the next handler.
pub data Outcome : Type 0 where
  request_too_large : Outcome
  rate_limit_exceeded : ℕ → Outcome
  unauthorized : Outcome
  call_next : Outcome
  raised : String → Outcome

unfoldable pub starts_with : Text → Text → Bool
starts_with [] text = true
starts_with (c ∷ prefix) [] = false
starts_with (c ∷ prefix) (d ∷ text) = c == d && starts_with prefix text

unfoldable pub is_empty : Text → Bool
is_empty [] = true
is_empty (c ∷ text) = false

-- `_requires_authentication`
unfoldable pub requires_authentication : Request → Bool
unfolding starts_with text_eq
requires_authentication request =
    if text_eq request.method (codes "OPTIONS")
    then false
    else starts_with (codes "/api/v1") request.path

-- `_rate_limited_path`
unfoldable pub rate_limited_path : Request → Bool
unfolding starts_with text_eq
rate_limited_path request =
    starts_with (codes "/api/") request.path || text_eq request.path (codes "/health/ready")

-- `request.client.host`, where client 0 is "unknown"
abbrev pub client_key : Option ℕ → ℕ
client_key none = 0
client_key (some client) = suc client

abbrev pub if_authenticated : Result String Bool → Outcome
if_authenticated (ok true) = call_next
if_authenticated (ok false) = unauthorized
if_authenticated (raise e) = raised e

-- `limiter.allow(client) if rate_limited else (True, 0)`
unfoldable pub limited : RateLimiter → ℕ → Request → Requests → Requests × Result String (Bool × ℕ)
unfolding rate_limited_path allow
limited r now request requests =
    if rate_limited_path request
    then allow r (client_key request.client) now requests
    else (requests, ok (true, 0))

unfoldable pub exceeds : ApiSettings → Option (Result String ℕ) → Result String Bool
exceeds s none = ok false
exceeds s (some (raise e)) = raise e
exceeds s (some (ok n)) = ok (ltb s.max_request_bytes n)

-- The first `if`: the limiter is not asked where the request is too large or the test raises.
unfoldable pub unless_large :
    Result String Bool → Requests → Requests × Outcome → Requests × Outcome
unless_large (raise e) requests rest = (requests, raised e)
unless_large (ok true) requests rest = (requests, request_too_large)
unless_large (ok false) requests rest = rest

module _ (t : Texts) where
  unfoldable pub bearer : Request → Text
  unfolding starts_with lstrip rstrip
  bearer request =
      if starts_with (codes "bearer ") (t.lower request.authorization)
      then rstrip t.chars (lstrip t.chars (drop 7 request.authorization))
      else []

  unfoldable pub supplied : Request → Text
  unfolding bearer is_empty
  supplied request = if is_empty (bearer request) then request.x_api_key else bearer request

  -- `_authenticated`
  unfoldable pub authenticated : Request → Text → Result String Bool
  unfolding supplied is_empty
  authenticated request expected_token =
      if is_empty expected_token
      then ok true
      else if is_empty (supplied request)
      then ok false
      else t.compare_digest (supplied request) expected_token

  unfoldable pub is_too_large : ApiSettings → Option Text → Result String Bool
  unfolding exceeds
  is_too_large s none = ok false
  is_too_large s (some text) = exceeds s (t.digits text)

  -- The branches behind the limiter's answer
  unfoldable pub after_limiter : ApiSettings → Request → Result String (Bool × ℕ) → Outcome
  unfolding requires_authentication authenticated
  after_limiter s request (raise e) = raised e
  after_limiter s request (ok (false, retry_after)) = rate_limit_exceeded retry_after
  after_limiter s request (ok (true, retry_after)) =
      if requires_authentication request
      then if_authenticated (authenticated request s.api_auth_token)
      else call_next

  unfoldable pub production_middleware :
      ApiSettings → RateLimiter → ℕ → Request → Requests → Requests × Outcome
  unfolding is_too_large limited after_limiter unless_large
  production_middleware s r now request requests =
      let (requests', answered) = limited r now request requests in
      unless_large (is_too_large s request.content_length) requests
        (requests', after_limiter s request answered)
