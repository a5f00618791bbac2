-- ===== src/Queue/Examples.antt =====
-- Two messages deferred in the wrong order, and one ready.
use note_rag.Base.{
  ℕ, ◌+◌, ◌≡◌, ◌⊎◌, refl, true, false, Option, none, some, List, [], ◌∷◌, ◌++◌, arith,
}
use note_rag.Base.Int.{pos, pos_part, ltb_ℤ}
use note_rag.Base.Result.{ok, raise}
use note_rag.Chunking.Tokens.{Text}
use note_rag.Queue.Consumer.{Message, Deferred, QueueConsumer, poll, defer_message}
use note_rag.Queue.Consumer.Ordered.{
  Sorted, IsSplit, Takes, served, IsPushed, poll-Takes, defer_message-IsPushed,
}

-- Ids of one letter can be read.
abbrev parse_letter : Text → Option ℕ
parse_letter (c ∷ []) = some c
parse_letter _ = none

abbrev letter : ℕ → Message
letter n = record { message_id = n; job_id = n ∷ [] }

abbrev no_id : Message
no_id = record { message_id = 9; job_id = [] }

abbrev waiting : ℕ → ℕ → Message → Deferred
waiting at sequence msg = record { ready_at = at; sequence = sequence; msg = msg }

abbrev held : QueueConsumer
held = record {
  recovery_idle_ms = 300000;
  recovery_interval = 5000;
  ready = no_id ∷ [];
  deferred = waiting 100 1 (letter 5) ∷ waiting 900 0 (letter 6) ∷ [];
  next_sequence = 2;
  last_recovery_at = 0;
}

-- The unreadable message is acknowledged, and the one that is due is ready next.
first_poll :
    ((poll parse_letter 200 200 200 [] none held).0.acked ≡ no_id ∷ [])
    × ((poll parse_letter 200 200 200 [] none held).1.ready ≡ letter 5 ∷ [])
unfolding poll
first_poll = (refl, refl)

poll-Takes_example :
    let polled = poll parse_letter 200 200 200 [] none held in
    (promoted : List Message) × IsSplit 200 held.deferred (promoted, polled.1.deferred)
    × Sorted polled.1.deferred
    × Takes parse_letter none (served 200 [] (held.ready ++ promoted) held) polled
poll-Takes_example = poll-Takes parse_letter 200 200 200 [] none held ((omega arith, tt), (tt, tt))

defer_message-IsPushed_example :
    ((ltb_ℤ (pos 300) (pos 0) ≡ true)
      × (defer_message 200 no_id (pos 300) held ≡ raise "delay_seconds cannot be negative"))
    ⊎ ((ltb_ℤ (pos 300) (pos 0) ≡ false)
        × (c' : QueueConsumer) × (defer_message 200 no_id (pos 300) held ≡ ok c')
        × (c'.ready ≡ held.ready)
        × (c'.next_sequence ≡ held.next_sequence + 1)
        × Sorted c'.deferred
        × IsPushed
            (record {
              ready_at = 200 + pos_part (pos 300);
              sequence = held.next_sequence;
              msg = no_id;
            })
            held.deferred
            c'.deferred)
defer_message-IsPushed_example =
    defer_message-IsPushed 200 no_id (pos 300) held ((omega arith, tt), (tt, tt))
