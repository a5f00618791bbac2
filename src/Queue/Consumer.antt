-- ===== src/Queue/Consumer.antt =====
-- queue/consumer.py. What the broker answers is an argument: what `recover_pending` would return,
-- and what `consume` would. `heapq` is the list in order, as its documentation has it.
pub mod Ordered
use note_rag.Base.{
  ℕ, ◌+◌, ◌-◌, Bool, true, false, ◌&&◌, ◌||◌, Option, none, some, List, [], ◌∷◌, ◌++◌, String, ltb,
  leb, ◌==◌, if◌then◌else◌,
}
use note_rag.Base.Int.{ℤ, pos, pos_part, ltb_ℤ, leb_ℤ}
use note_rag.Base.Result.{Result, ok, raise_if, ◌>>=◌, ◌>>◌}
use note_rag.Chunking.Tokens.{Text}

-- `RedisMsg`; `job_id` is `fields.get("job_id", "")`.
pub record Message : Type 0 where
  pub message_id : ℕ
  pub job_id : Text

pub record Deferred : Type 0 where
  pub ready_at : ℕ
  pub sequence : ℕ
  pub msg : Message

-- `QueueConsumer`, with times in milliseconds
pub record QueueConsumer : Type 0 where
  pub recovery_idle_ms : ℕ
  pub recovery_interval : ℕ
  pub ready : List Message
  pub deferred : List Deferred
  pub next_sequence : ℕ
  pub last_recovery_at : ℕ

-- What a call of `poll` gives: the job and its message, and the messages acknowledged.
pub record Polled : Type 0 where
  pub job : Option (ℕ × Message)
  pub acked : List Message

unfoldable pub make : ℤ → ℤ → ℕ → Result String QueueConsumer
make recovery_idle recovery_interval now = do
  raise_if (ltb_ℤ recovery_idle (pos 0)) "recovery_idle_seconds cannot be negative"
  raise_if (leb_ℤ recovery_interval (pos 0)) "recovery_interval_seconds must be greater than zero"
  ok (record {
    recovery_idle_ms = pos_part recovery_idle;
    recovery_interval = pos_part recovery_interval;
    ready = [];
    deferred = [];
    next_sequence = 0;
    last_recovery_at = now;
  })

-- `<` of the entries as tuples; the sequence numbers differ.
unfoldable pub entry_before : Deferred → Deferred → Bool
entry_before a b =
    ltb a.ready_at b.ready_at || (a.ready_at == b.ready_at && ltb a.sequence b.sequence)

unfoldable pub heappush : Deferred → List Deferred → List Deferred
unfolding entry_before
heappush d [] = d ∷ []
heappush d (e ∷ es) =
    let later = e ∷ heappush d es in if entry_before e d then later else d ∷ e ∷ es

unfoldable pub recover_pending : ℕ → List Message → QueueConsumer → List Message × QueueConsumer
recover_pending now answer c = (answer, record c { last_recovery_at = now })

unfoldable pub start : ℕ → List Message → QueueConsumer → QueueConsumer
unfolding recover_pending
start now answer c =
    let (pending, c') = recover_pending now answer c in record c' { ready = c'.ready ++ pending }

unfoldable pub defer_message : ℕ → Message → ℤ → QueueConsumer → Result String QueueConsumer
unfolding heappush
defer_message now msg delay c =
    raise_if (ltb_ℤ delay (pos 0)) "delay_seconds cannot be negative"
    >> ok (record c {
      deferred =
          heappush
            (record { ready_at = now + pos_part delay; sequence = c.next_sequence; msg = msg })
            c.deferred;
      next_sequence = c.next_sequence + 1;
    })

-- The messages promoted, and the entries that stay.
unfoldable pub promote_from : ℕ → List Deferred → List Message × List Deferred
promote_from now [] = ([], [])
promote_from now (e ∷ es) =
    let rest = promote_from now es in
    if leb e.ready_at now then (e.msg ∷ rest.0, rest.1) else ([], e ∷ es)

unfoldable pub promote_deferred : ℕ → QueueConsumer → QueueConsumer
unfolding promote_from
promote_deferred now c =
    let (promoted, rest) = promote_from now c.deferred in
    record c { ready = c.ready ++ promoted; deferred = rest }

unfoldable pub recover_if_due : ℕ → ℕ → List Message → QueueConsumer → QueueConsumer
unfolding recover_pending
recover_if_due now now' answer c =
    let (pending, c') = recover_pending now' answer c in
    if ltb (now - c.last_recovery_at) c.recovery_interval
    then c
    else record c' { ready = c'.ready ++ pending }

unfoldable pub decoded : Message → Option ℕ → Polled
decoded msg none = record { job = none; acked = msg ∷ [] }
decoded msg (some job_id) = record { job = some (job_id, msg); acked = [] }

-- `_decode`, with `uuid.UUID` as a parser of the text
unfoldable pub decode : (Text → Option ℕ) → Message → Polled
unfolding decoded
decode parse msg = decoded msg (parse msg.job_id)

unfoldable pub decode_any : (Text → Option ℕ) → Option Message → Polled
unfolding decode
decode_any parse none = record { job = none; acked = [] }
decode_any parse (some msg) = decode parse msg

unfoldable pub take_ready :
    (Text → Option ℕ) → Option Message → List Message → QueueConsumer → Polled × QueueConsumer
unfolding decode decode_any
take_ready parse consumed [] c = (decode_any parse consumed, c)
take_ready parse consumed (msg ∷ rest) c = (decode parse msg, record c { ready = rest })

-- `now`, `due` and `recovered` are the times of the three calls of the clock.
unfoldable pub poll :
    (Text → Option ℕ)
    → ℕ
    → ℕ
    → ℕ
    → List Message
    → Option Message
    → QueueConsumer
    → Polled × QueueConsumer
unfolding promote_deferred recover_if_due take_ready
poll parse now due recovered answer consumed c =
    let c' = recover_if_due due recovered answer (promote_deferred now c) in
    take_ready parse consumed c'.ready c'
