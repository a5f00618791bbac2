-- ===== src/Chat/Service/Prepared.antt =====
-- chat/service.py: what is stored with a question, and what the provider is asked.
use note_rag.Base.{ℕ, ◌≡◌, refl, ap, inl, Option, none, some, List, [], ◌∷◌, map, arith}
use note_rag.Base.Result.{Result, ok, raise, ◌>>=◌}
use note_rag.Chunking.Tokens.{Text}
use note_rag.Context.Models.{ContextPackage}
use note_rag.Chat.Models.{ChatRole, Conversation, ChatMessageRecord, ChatDb, ChatTurn, ChatError}
use note_rag.Chat.History.{load_history, selected}
use note_rag.Chat.History.Recent.{IsRecent, selected-IsRecent}
use note_rag.Chat.Messages.{touch, get_conversation, add_conversation, placed, add_message}
use note_rag.Chat.Messages.Appended.{
  transcript, get_conversation-add_message, get_conversation-add_conversation,
}
use note_rag.Chat.Service.Stored.{Extends, Extends-add_message}
use note_rag.Chat.Service.{
  ChatService, NewRows, PreparedChat, or_raise, strip, build_chat_turns, history_in,
  load_history_of, question_row, question_in, new_conversation, store_question, prepared, prepare,
}

-- The conversation that the messages go to, and its messages so far.
abbrev pub target : NewRows → Option ℕ → ℕ
target new none = new.conversation
target new (some k) = k

abbrev pub so_far : Option ℕ → ChatDb → List ChatMessageRecord
so_far none db = []
so_far (some k) db = transcript k db

abbrev pub to_turn : ChatMessageRecord → ChatTurn
to_turn m = record { role = m.role; content = m.content }

abbrev pub IsQuestion : Text → ChatMessageRecord → Type 0
IsQuestion question m = (m.role ≡ ChatRole.user) × (m.content ≡ question)

abbrev pub IsThere : ℕ → ChatDb → Type 0
IsThere k db = (c : Conversation) × (get_conversation k db ≡ some c)

module _ (s : ChatService) where
  -- The turns for the provider: the end of the conversation so far, and the question with its context.
  abbrev pub AreTurns : Text → Option ℕ → ChatDb → ContextPackage → List ChatTurn → Type 0
  AreTurns question conversation_id db context turns =
      (h : List ChatMessageRecord) × IsRecent s.history_max_messages s.history_max_tokens
        (so_far conversation_id db) h
      × (turns ≡ build_chat_turns s question context (map to_turn h))

  -- Why nothing is stored.
  pub data Refuses (question : Text) (conversation_id : Option ℕ) (db : ChatDb)
      : ChatError → Type 0 where
    blank : question ≡ [] → Refuses question conversation_id db ChatError.empty_question
    missing :
        (k : ℕ)
        → conversation_id ≡ some k
        → get_conversation k db ≡ none
        → Refuses question conversation_id db ChatError.conversation_missing
    unbuilt : (e : ChatError) → s.build question ≡ raise e → Refuses question conversation_id db e

  module _ (new : NewRows) (question : Text) (conversation_id : Option ℕ) (db : ChatDb) where
    abbrev IsPlaced : Result ChatError (ℕ × ChatDb) → Type 0
    IsPlaced (raise e) = Refuses question conversation_id db e
    IsPlaced (ok (k, db')) =
        (q : ChatMessageRecord) × IsQuestion question q
        × (k ≡ target new conversation_id)
        × Extends db (target new conversation_id) (q ∷ []) db'
        × IsThere k db'

    abbrev pub IsReady : Result ChatError (PreparedChat × ChatDb) → Type 0
    IsReady (raise e) = Refuses question conversation_id db e
    IsReady (ok (chat, db')) =
        (q : ChatMessageRecord) × IsQuestion question q
        × (chat.conversation_id ≡ target new conversation_id)
        × Extends db (target new conversation_id) (q ∷ []) db'
        × IsThere chat.conversation_id db'
        × (s.build question ≡ ok chat.context)
        × AreTurns question conversation_id db chat.context chat.turns

    with_turns :
        (context : ContextPackage) (history : List ChatTurn) (r : Result ChatError (ℕ × ChatDb))
        → IsPlaced r
        → s.build question ≡ ok context
        → AreTurns question conversation_id db context (build_chat_turns s question context history)
        → IsReady (r >>= λ stored. ok (prepared s context question history stored))
    unfolding prepared
    with_turns context history (raise e) refuses built turns = refuses
    with_turns context history (ok (k, db')) (q, is, same, ext, there) built turns =
        (q, is, same, ext, there, built, turns)

  question_in-IsPlaced :
      (new : NewRows) (question : Text) (db : ChatDb) (o : Option Conversation) (k : ℕ)
      (context : ContextPackage)
      → get_conversation k db ≡ o
      → IsPlaced new question (some k) db (question_in s o new question context k db)
  unfolding question_in question_row placed
  question_in-IsPlaced new question db none k context found = Refuses.missing k refl found
  question_in-IsPlaced new question db (some c) k context found = (
    placed (question_row s new question context k) db,
    (refl, refl),
    refl,
    Extends-add_message new.asked_at (question_row s new question context k) db,
    (
      touch new.asked_at c,
      get_conversation-add_message new.asked_at (question_row s new question context k) db found,
    ),
  )

  -- A conversation without messages leaves the messages.
  Extends-add_conversation :
      (c : Conversation) (db db' : ChatDb) (k : ℕ) (ms : List ChatMessageRecord)
      → Extends (add_conversation c db) k ms db'
      → Extends db k ms db'
  unfolding add_conversation
  Extends-add_conversation c db db' k ms ext = record { own = ext.own; others = ext.others }

  store_question-IsPlaced :
      (new : NewRows) (question : Text) (context : ContextPackage) (conversation_id : Option ℕ)
      (db : ChatDb)
      → IsPlaced new question conversation_id db
          (store_question s new question context conversation_id db)
  unfolding store_question question_in question_row placed new_conversation
  store_question-IsPlaced new question context (some k) db =
      question_in-IsPlaced new question db (get_conversation k db) k context refl
  store_question-IsPlaced new question context none db =
      let made = add_conversation (new_conversation s new question) db in
      (
        placed (question_row s new question context new.conversation) made,
        (refl, refl),
        refl,
        Extends-add_conversation (new_conversation s new question) db
            (add_message new.asked_at (question_row s new question context new.conversation) made)
            new.conversation
            (placed (question_row s new question context new.conversation) made ∷ [])
            (Extends-add_message new.asked_at (question_row s new question context new.conversation)
              made),
        (
          touch new.asked_at (new_conversation s new question),
          get_conversation-add_message new.asked_at
              (question_row s new question context new.conversation) made
              (get_conversation-add_conversation (new_conversation s new question) db),
        ),
      )

  module _ (new : NewRows) (question : Text) (conversation_id : Option ℕ) (db : ChatDb) where
    abbrev IsPast : List ChatTurn → Type 0
    IsPast history =
        (h : List ChatMessageRecord) × IsRecent s.history_max_messages s.history_max_tokens
          (so_far conversation_id db) h
        × (history ≡ map to_turn h)

    after_build :
        (history : List ChatTurn) (r : Result ChatError ContextPackage)
        → s.build question ≡ r
        → IsPast history
        → IsReady new question conversation_id db (
            r >>= λ context. store_question s new question context conversation_id db >>= λ stored.
            ok (prepared s context question history stored))
    after_build history (raise e) built past = Refuses.unbuilt e built
    after_build history (ok context) built (h, recent, same) =
        with_turns new question conversation_id db context history
          (store_question s new question context conversation_id db)
          (store_question-IsPlaced new question context conversation_id db) built
          (h, recent, ap (build_chat_turns s question context) same)

    abbrev rest : List ChatTurn × Option ℕ → Result ChatError (PreparedChat × ChatDb)
    rest (history, existing) = s.build question >>= λ context.
        store_question s new question context existing db >>= λ stored.
        ok (prepared s context question history stored)

  after_history :
      (new : NewRows) (question : Text) (db : ChatDb) (k : ℕ) (o : Option Conversation)
      → get_conversation k db ≡ o
      → IsReady new question (some k) db (history_in s o k db >>= rest new question (some k) db)
  unfolding history_in load_history
  after_history new question db k none found = Refuses.missing k refl found
  after_history new question db k (some c) found =
      after_build new question (some k) db
        (load_history s.history_max_messages s.history_max_tokens k db.messages) (s.build question)
        refl
        (
          selected s.history_max_messages s.history_max_tokens (transcript k db),
          selected-IsRecent s.history_max_messages s.history_max_tokens (transcript k db),
          refl,
        )

  load_history_of-IsReady :
      (new : NewRows) (question : Text) (conversation_id : Option ℕ) (db : ChatDb)
      → IsReady new question conversation_id db
          (load_history_of s conversation_id db >>= rest new question conversation_id db)
  unfolding load_history_of
  load_history_of-IsReady new question none db =
      after_build new question none db [] (s.build question) refl
        ([], ([], refl, omega arith, omega arith, inl (omega arith)), refl)
  load_history_of-IsReady new question (some k) db =
      after_history new question db k (get_conversation k db) refl

  after_strip_question :
      (new : NewRows) (question : Text) (conversation_id : Option ℕ) (db : ChatDb)
      → IsReady new question conversation_id db (
          or_raise question ChatError.empty_question >>= λ q.
          load_history_of s conversation_id db >>= rest new q conversation_id db)
  unfolding or_raise
  after_strip_question new [] conversation_id db = Refuses.blank refl
  after_strip_question new (c ∷ question) conversation_id db =
      load_history_of-IsReady new (c ∷ question) conversation_id db

  pub prepare-IsReady :
      (new : NewRows) (question : Text) (conversation_id : Option ℕ) (db : ChatDb)
      → IsReady new
          (strip s question)
          conversation_id
          db
          (prepare s new question conversation_id db)
  unfolding prepare
  prepare-IsReady new question conversation_id db =
      after_strip_question new (strip s question) conversation_id db
