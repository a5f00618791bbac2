-- ===== src/Queue/Consumer/Ordered.antt =====
-- queue/consumer.py: the order of the deferred messages, and what a poll does with those held.
use mathlib.Core.List.{append-nil}
use note_rag.Base.{
  ℕ, ◌+◌, ◌-◌, ◌≤◌, ◌<◌, ◌≡◌, ◌⊎◌, inl, inr, refl, sym, subst, ap, ◌∙◌, true, false, Option, none,
  some, List, [], ◌∷◌, ◌++◌, map, ltb, leb, leb→le, leb→lt, if◌then◌else◌, All, All-map, arith,
  Bool-cases,
}
use note_rag.Base.Int.{ℤ, pos, pos_part, ltb_ℤ}
use note_rag.Base.Result.{ok, raise}
use note_rag.Chunking.Tokens.{Text}
use note_rag.Queue.Consumer.{
  Message, Deferred, QueueConsumer, Polled, entry_before, heappush, promote_from, promote_deferred,
  recover_if_due, decoded, decode, decode_any, take_ready, poll, defer_message,
}

-- No entry is ready before the one in front of it.
abbrev pub Sorted : List Deferred → Type 0
Sorted [] = Unit
Sorted (e ∷ es) = All (λ (d : Deferred). e.ready_at ≤ d.ready_at) es × Sorted es

heappush-All :
    (P : Deferred → Type 0) (d : Deferred) (es : List Deferred)
    → P d
    → All P es
    → All P (heappush d es)
unfolding heappush
heappush-All P d [] one all = (one, tt)
heappush-All P d (e ∷ es) one all = elim (Bool-cases (entry_before e d)) [
  | inl after ↦ rw after (all.0, heappush-All P d es one all.1)
  | inr here ↦ rw here (one, all)
]

before-le : (a b : Deferred) → entry_before a b ≡ true → a.ready_at ≤ b.ready_at
unfolding entry_before
before-le a b h = ground arith

not_before-le : (a b : Deferred) → entry_before a b ≡ false → b.ready_at ≤ a.ready_at
unfolding entry_before
not_before-le a b h = ground arith

pub heappush-Sorted : (d : Deferred) (es : List Deferred) → Sorted es → Sorted (heappush d es)
unfolding heappush
heappush-Sorted d [] s = (tt, tt)
heappush-Sorted d (e ∷ es) (least, s) = elim (Bool-cases (entry_before e d)) [
  | inl after ↦ rw after (
    heappush-All (λ x. e.ready_at ≤ x.ready_at) d es (before-le e d after) least,
    heappush-Sorted d es s,
  )
  | inr here ↦
      let le = not_before-le e d here in
      rw here ((le, All-map es (λ x h. omega arith) least), (least, s))
]

-- The entries are split where they stop being due.
abbrev pub IsSplit : ℕ → List Deferred → List Message × List Deferred → Type 0
IsSplit now es (promoted, rest) =
    (due : List Deferred) × (es ≡ due ++ rest)
    × (promoted ≡ map (λ (d : Deferred). d.msg) due)
    × All (λ (d : Deferred). d.ready_at ≤ now) due
    × All (λ (d : Deferred). now < d.ready_at) rest

promote_from-IsSplit :
    (now : ℕ) (es : List Deferred) → Sorted es → IsSplit now es (promote_from now es)
unfolding promote_from
promote_from-IsSplit now [] s = ([], refl, refl, tt, tt)
promote_from-IsSplit now (e ∷ es) (least, s) = elim (Bool-cases (leb e.ready_at now)) [
  | inl ready ↦
      let (due, split, promoted, early, late) = promote_from-IsSplit now es s in
      rw ready (
        e ∷ due,
        ap (◌∷◌ e) split,
        ap (◌∷◌ e.msg) promoted,
        (leb→le e.ready_at now ready, early),
        late,
      )
  | inr later ↦
      let lt = leb→lt e.ready_at now later in
      rw later ([], refl, refl, tt, (lt, All-map es (λ x h. omega arith) least))
]

Sorted-rest : (due rest : List Deferred) → Sorted (due ++ rest) → Sorted rest
Sorted-rest [] rest s = s
Sorted-rest (d ∷ due) rest s = Sorted-rest due rest s.1

-- The messages that a poll finds locally, in the order in which it serves them.
abbrev pub served : ℕ → List Message → List Message → QueueConsumer → List Message
served due answer held c =
    held ++ (if ltb (due - c.last_recovery_at) c.recovery_interval then [] else answer)

module _ (parse : Text → Option ℕ) where
  -- The message is handed over with its job, or acknowledged where its id cannot be read.
  abbrev pub Handles : Option Message → Polled → Type 0
  Handles none p = (p.job ≡ none) × (p.acked ≡ [])
  Handles (some m) p =
      ((parse m.job_id ≡ none) × (p.job ≡ none) × (p.acked ≡ m ∷ []))
      ⊎ ((id : ℕ) × (parse m.job_id ≡ some id) × (p.job ≡ some (id, m)) × (p.acked ≡ []))

  decoded-Handles :
      (m : Message) (o : Option ℕ) → parse m.job_id ≡ o → Handles (some m) (decoded m o)
  unfolding decoded
  decoded-Handles m none e = inl (e, refl, refl)
  decoded-Handles m (some id) e = inr (id, e, refl, refl)

  decode-Handles : (m : Message) → Handles (some m) (decode parse m)
  unfolding decode
  decode-Handles m = decoded-Handles m (parse m.job_id) refl

  decode_any-Handles : (m : Option Message) → Handles m (decode_any parse m)
  unfolding decode_any
  decode_any-Handles none = (refl, refl)
  decode_any-Handles (some m) = decode-Handles m

  -- The first of the messages held is taken, or, where there is none, what the stream gives.
  abbrev pub Takes : Option Message → List Message → Polled × QueueConsumer → Type 0
  Takes consumed held (polled, c) =
      ((held ≡ []) × (c.ready ≡ []) × Handles consumed polled)
      ⊎ ((m : Message) × (held ≡ m ∷ c.ready) × Handles (some m) polled)

  take_ready-Takes :
      (consumed : Option Message) (held : List Message) (c : QueueConsumer)
      → c.ready ≡ held
      → Takes consumed held (take_ready parse consumed held c)
        × ((take_ready parse consumed held c).1.deferred ≡ c.deferred)
  unfolding take_ready
  take_ready-Takes consumed [] c e = (inl (refl, e, decode_any-Handles consumed), refl)
  take_ready-Takes consumed (m ∷ held) c e = (inr (m, refl, decode-Handles m), refl)

recover_if_due-ready :
    (due recovered : ℕ) (answer : List Message) (c : QueueConsumer)
    → ((recover_if_due due recovered answer c).ready ≡ served due answer c.ready c)
      × ((recover_if_due due recovered answer c).deferred ≡ c.deferred)
unfolding recover_if_due
recover_if_due-ready due recovered answer c =
    elim (Bool-cases (ltb (due - c.last_recovery_at) c.recovery_interval)) [
      | inl early ↦ rw early (sym (append-nil _), refl)
      | inr time ↦ rw time (refl, refl)
    ]

-- With the deferred messages in order, a poll promotes exactly those that are due, behind the ready
-- ones, then adds the recovered ones if the interval is over; it takes the first of all these, and
-- one from the stream only if there is none; it hands it over or acknowledges it as unreadable;
-- and it keeps all others, the deferred ones in order.
pub poll-Takes :
    (parse : Text → Option ℕ) (now due recovered : ℕ) (answer : List Message)
    (consumed : Option Message) (c : QueueConsumer)
    → Sorted c.deferred
    → let polled = poll parse now due recovered answer consumed c in
      (promoted : List Message) × IsSplit now c.deferred (promoted, polled.1.deferred)
      × Sorted polled.1.deferred
      × Takes parse consumed (served due answer (c.ready ++ promoted) c) polled
unfolding poll promote_deferred
poll-Takes parse now due recovered answer consumed c s =
    let c1 = promote_deferred now c in
    let c2 = recover_if_due due recovered answer c1 in
    let (promoted, rest) = promote_from now c.deferred in
    let split = promote_from-IsSplit now c.deferred s in
    let (held, same) = recover_if_due-ready due recovered answer c1 in
    let (takes, kept) = take_ready-Takes parse consumed c2.ready c2 refl in
    let e = kept ∙ same in
    (
      promoted,
      subst (λ es. IsSplit now c.deferred (promoted, es)) (sym e) split,
      subst Sorted (sym e) (Sorted-rest split.0 rest (subst Sorted split.1 s)),
      subst (λ h. Takes parse consumed h (take_ready parse consumed c2.ready c2)) held takes,
    )

-- The entry stands behind all that are ready before it and in front of all that are ready after it.
abbrev pub IsPushed : Deferred → List Deferred → List Deferred → Type 0
IsPushed d es ds =
    (front : List Deferred) × (back : List Deferred) × (es ≡ front ++ back)
    × (ds ≡ front ++ d ∷ back)
    × All (λ (e : Deferred). e.ready_at ≤ d.ready_at) front
    × All (λ (e : Deferred). d.ready_at ≤ e.ready_at) back

heappush-IsPushed : (d : Deferred) (es : List Deferred) → Sorted es → IsPushed d es (heappush d es)
unfolding heappush
heappush-IsPushed d [] s = ([], [], refl, refl, tt, tt)
heappush-IsPushed d (e ∷ es) (least, s) = elim (Bool-cases (entry_before e d)) [
  | inl after ↦
      let (front, back, before, pushed, early, late) = heappush-IsPushed d es s in
      rw after
        (e ∷ front, back, ap (◌∷◌ e) before, ap (◌∷◌ e) pushed, (before-le e d after, early), late)
  | inr here ↦
      let le = not_before-le e d here in
      rw here ([], e ∷ es, refl, refl, tt, (le, All-map es (λ x h. omega arith) least))
]

-- `defer` puts the message among the deferred ones, which stay in order, to be ready after the
-- delay; it leaves the ready messages alone, and uses up a sequence number. It raises, if the delay
-- is negative.
pub defer_message-IsPushed :
    (now : ℕ) (msg : Message) (delay : ℤ) (c : QueueConsumer)
    → Sorted c.deferred
    → ((ltb_ℤ delay (pos 0) ≡ true)
        × (defer_message now msg delay c ≡ raise "delay_seconds cannot be negative"))
      ⊎ ((ltb_ℤ delay (pos 0) ≡ false)
          × (c' : QueueConsumer) × (defer_message now msg delay c ≡ ok c')
          × (c'.ready ≡ c.ready)
          × (c'.next_sequence ≡ c.next_sequence + 1)
          × Sorted c'.deferred
          × IsPushed
              (record { ready_at = now + pos_part delay; sequence = c.next_sequence; msg = msg })
              c.deferred
              c'.deferred)
unfolding defer_message
defer_message-IsPushed now msg delay c s =
    let d : Deferred = record {
      ready_at = now + pos_part delay;
      sequence = c.next_sequence;
      msg = msg;
    } in
    elim (Bool-cases (ltb_ℤ delay (pos 0))) [
      | inl negative ↦ inl (negative, rw negative refl)
      | inr fine ↦ inr (
        fine,
        record c { deferred = heappush d c.deferred; next_sequence = c.next_sequence + 1 },
        rw fine refl,
        refl,
        refl,
        heappush-Sorted d c.deferred s,
        heappush-IsPushed d c.deferred s,
      )
    ]
