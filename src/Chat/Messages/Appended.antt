-- ===== src/Chat/Messages/Appended.antt =====
-- persistence/repositories.py: `ChatMessageRepository.add` and the messages that the conversations list.
use mathlib.Core.List.Permᴰ
use note_rag.Base.{
  ℕ, ◌≤◌, ◌<◌, ◌≡◌, ◌≢◌, refl, ap, Bool, true, false, Option, none, some, List, [], ◌∷◌, ◌++◌, All,
  ltb, ◌==◌, ==_iff, lt→ltb, arith, Bool-cases, inl, inr,
}
use note_rag.Base.Sorting.{insert_by, sort_by, sort_by-perm}
use note_rag.Base.Table.{All-perm, find-update_self, find-cons_self}
use note_rag.Chat.Models.{Conversation, ChatMessageRecord, ChatDb}
use note_rag.Chat.History.{of_conversation, list_for_conversation}
use note_rag.Chat.Messages.{
  conversation_key, get_conversation, add_conversation, touch, or_max, last_position, next_position,
  placed, add_message,
}

abbrev pub transcript : ℕ → ChatDb → List ChatMessageRecord
transcript k db = list_for_conversation k db.messages

abbrev earlier : ChatMessageRecord → ChatMessageRecord → Bool
earlier a b = ltb a.position b.position

insert_by-last :
    (m : ChatMessageRecord) (ms : List ChatMessageRecord)
    → All (λ x. x.position < m.position) ms
    → insert_by earlier m ms ≡ ms ++ (m ∷ [])
unfolding insert_by
insert_by-last m [] all = refl
insert_by-last m (x ∷ ms) (lt, all) =
    let first = lt→ltb x.position m.position lt in rw first (ap (◌∷◌ x) (insert_by-last m ms all))

abbrev Under : ℕ → Option ℕ → Type 0
Under p none = ⊥
Under p (some q) = p ≤ q

or_max-left : (p : ℕ) (o : Option ℕ) → Under p (or_max p o)
unfolding or_max
or_max-left p none = omega arith
or_max-left p (some q) = omega arith

or_max-right : (p q : ℕ) (o : Option ℕ) → Under p o → Under p (or_max q o)
unfolding or_max
or_max-right p q none under = absurd under
or_max-right p q (some r) under = omega arith

Under-next : (p : ℕ) (o : Option ℕ) → Under p o → p < next_position o
unfolding next_position
Under-next p none under = absurd under
Under-next p (some q) under = omega arith

All-Under :
    (q : ℕ) (o : Option ℕ) (ms : List ChatMessageRecord)
    → All (λ x. Under x.position o) ms
    → All (λ x. Under x.position (or_max q o)) ms
All-Under q o [] all = tt
All-Under q o (m ∷ ms) (under, all) = (or_max-right m.position q o under, All-Under q o ms all)

last_position-Under :
    (k : ℕ) (ms : List ChatMessageRecord)
    → All (λ x. Under x.position (last_position k ms)) (of_conversation k ms)
unfolding last_position of_conversation
last_position-Under k [] = tt
last_position-Under k (m ∷ ms) = elim (Bool-cases (m.conversation_id == k)) [
  | inl own ↦ rw own (
    or_max-left m.position (last_position k ms),
    All-Under m.position (last_position k ms) (of_conversation k ms) (last_position-Under k ms),
  )
  | inr other ↦ rw other (last_position-Under k ms)
]

All-next :
    (o : Option ℕ) (ms : List ChatMessageRecord)
    → All (λ x. Under x.position o) ms
    → All (λ x. x.position < next_position o) ms
All-next o [] all = tt
All-next o (m ∷ ms) (under, all) = (Under-next m.position o under, All-next o ms all)

-- A message that is added is the last of its conversation.
pub transcript-add_message :
    (now : ℕ) (m : ChatMessageRecord) (db : ChatDb)
    → transcript m.conversation_id (add_message now m db)
      ≡ transcript m.conversation_id db ++ (placed m db ∷ [])
unfolding add_message placed list_for_conversation of_conversation sort_by
transcript-add_message now m db =
    let own : (m.conversation_id == m.conversation_id) ≡ true =
      (==_iff m.conversation_id m.conversation_id).1 refl in
    rw own (
      insert_by-last (placed m db) (sort_by earlier (of_conversation m.conversation_id db.messages))
        (All-perm (λ x. x.id)
          (λ x. x.position < next_position (last_position m.conversation_id db.messages))
          (Permᴰ.symm (sort_by-perm earlier (of_conversation m.conversation_id db.messages)))
          (All-next (last_position m.conversation_id db.messages)
            (of_conversation m.conversation_id db.messages)
            (last_position-Under m.conversation_id db.messages))))

pub transcript-add_message_ne :
    (now k : ℕ) (m : ChatMessageRecord) (db : ChatDb)
    → k ≢ m.conversation_id
    → transcript k (add_message now m db) ≡ transcript k db
unfolding add_message placed list_for_conversation of_conversation
transcript-add_message_ne now k m db ne =
    let other : (m.conversation_id == k) ≡ false = ground arith in
    let same : of_conversation k (add_message now m db).messages ≡ of_conversation k db.messages =
      rw other refl in
    ap (sort_by earlier) same

-- The conversation of a message stays, as does one that is added.
pub get_conversation-add_message :
    (now : ℕ) (m : ChatMessageRecord) (db : ChatDb) {c : Conversation}
    → get_conversation m.conversation_id db ≡ some c
    → get_conversation m.conversation_id (add_message now m db) ≡ some (touch now c)
unfolding get_conversation add_message touch
get_conversation-add_message now m db {c} found =
    find-update_self conversation_key m.conversation_id (touch now) db.conversations refl found

pub get_conversation-add_conversation :
    (c : Conversation) (db : ChatDb) → get_conversation c.id (add_conversation c db) ≡ some c
unfolding get_conversation add_conversation
get_conversation-add_conversation c db = find-cons_self conversation_key c db.conversations
