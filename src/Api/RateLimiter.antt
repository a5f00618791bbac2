-- ===== src/Api/RateLimiter.antt =====
-- api/middleware.py: `RateLimiter`. A client is a number, and times and the window are in ticks of
-- `time.monotonic`, with so many `ticks` a second. The lock makes each call one step.
pub mod Windowed
use note_rag.Base.{
  ℕ, ◌+◌, ◌-◌, ◌/◌, max, Bool, true, false, Option, none, some, List, [], ◌∷◌, ◌++◌, String, leb,
  ◌==◌, length, if◌then◌else◌,
}
use note_rag.Base.Result.{Result, ok, raise}

pub record RateLimiter : Type 0 where
  pub limit : ℕ
  pub window : ℕ
  pub ticks : ℕ

-- `_requests`, a `defaultdict`
abbrev pub Requests : Type 0
Requests = ℕ → List ℕ

unfoldable pub put : ℕ → List ℕ → Requests → Requests
put key entries requests k = if key == k then entries else requests k

-- The loop that drops the entries at or before the cutoff, `current - window_seconds`.
unfoldable pub expire : ℕ → ℕ → List ℕ → List ℕ
expire window now [] = []
expire window now (e ∷ entries) =
    let rest = expire window now entries in if leb (e + window) now then rest else e ∷ entries

-- What is behind the loop: the entries that the call leaves, and its answer. `entries[0]` of an
-- empty deque raises.
unfoldable pub answer : RateLimiter → ℕ → List ℕ → List ℕ × Result String (Bool × ℕ)
answer r now [] =
    if leb r.limit 0 then ([], raise "deque index out of range") else (now ∷ [], ok (true, 0))
answer r now (e ∷ entries) =
    if leb r.limit (length (e ∷ entries))
    then (e ∷ entries, ok (false, max 1 ((e + r.window - now) / r.ticks)))
    else (e ∷ entries ++ (now ∷ []), ok (true, 0))

unfoldable pub allow : RateLimiter → ℕ → ℕ → Requests → Requests × Result String (Bool × ℕ)
unfolding put expire answer
allow r key now requests =
    let (entries, result) = answer r now (expire r.window now (requests key)) in
    (put key entries requests, result)

-- The first part of an answer
abbrev pub is_allowed : Result String (Bool × ℕ) → Bool
is_allowed (ok (allowed, retry_after)) = allowed
is_allowed (raise e) = false
