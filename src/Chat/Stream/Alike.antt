-- ===== src/Chat/Stream/Alike.antt =====
-- chat/service.py: that `stream` does what `ask` does.
use note_rag.Base.{ℕ, ◌≡◌, refl, sym, ap, subst, Option, none, some, List, [], ◌∷◌, ◌++◌, map}
use note_rag.Base.Result.{Result, ok, raise, ◌>>=◌}
use note_rag.Chunking.Tokens.{Text}
use note_rag.Chat.Messages.{get_conversation}
use note_rag.Chat.Models.{Citation, Conversation, ChatDb, ChatTurn, ChatResult, ChatError}
use note_rag.Chat.Citations.{available_citations}
use note_rag.Chat.Service.{
  ChatService, NewRows, PreparedChat, in_session, or_raise, strip, prepare, store_answer, answer_in,
  finalize, answer, after_prepare, ask,
}
use note_rag.Chat.Stream.{
  ChatStreamEvent, Streamed, non_empty, join, done_event, ended, after_pieces, stream_chat,
  stream_prepared, stream,
}
use note_rag.Chat.Citations.{extract_citations}

-- The text of the pieces, or what broke them off.
abbrev pub whole : List Text × Option ChatError → Result ChatError Text
whole (pieces, none) = ok (join pieces)
whole (pieces, some e) = raise e

-- The provider gives in pieces the text that it gives at once.
abbrev pub IsConsistent : ChatService → Type 0
IsConsistent s =
    (prompt : Text) (turns : List ChatTurn)
    → s.generate prompt turns ≡ whole (s.stream_pieces prompt turns)

-- The events before the last one: the sources, and pieces of the text.
abbrev pub begun : ChatService → ℕ → List Citation → List Text → List ChatStreamEvent
begun s k sources texts =
    ChatStreamEvent.metadata k sources s.model_name ∷ map ChatStreamEvent.delta texts

-- A stream that is like a call: it leaves the same tables and raises what the call raises, and where the
-- call returns, its events are the sources, pieces of the text of the answer, and what the result says.
pub data IsLike (s : ChatService) : Result ChatError ChatResult × ChatDb → Streamed → Type 0 where
  refused : {e : ChatError} {db : ChatDb} → IsLike s (raise e, db) ([], some e, db)
  failed :
      {e : ChatError} {db : ChatDb} (k : ℕ) (sources : List Citation) (texts : List Text)
      → IsLike s (raise e, db) (begun s k sources texts, some e, db)
  finished :
      {r : ChatResult} {db : ChatDb} (sources : List Citation) (texts : List Text)
      → strip s (join texts) ≡ r.answer
      → IsLike s
          (ok r, db)
          (begun s r.conversation_id sources texts ++ (done_event r ∷ []), none, db)

join-non_empty : (pieces : List Text) → join (non_empty pieces) ≡ join pieces
unfolding join non_empty
join-non_empty [] = refl
join-non_empty ([] ∷ pieces) = join-non_empty pieces
join-non_empty ((c ∷ piece) ∷ pieces) = ap (λ x. (c ∷ piece) ++ x) (join-non_empty pieces)

module _ (s : ChatService) (new : NewRows) (chat : PreparedChat) (db : ChatDb) where
  -- An answer that is stored is the text without the white space around it.
  abbrev Answers : Text → Result ChatError (ChatResult × ChatDb) → Type 0
  Answers text (raise e) = Unit
  Answers text (ok (r, db')) = (text ≡ r.answer) × (r.conversation_id ≡ chat.conversation_id)

  answer_in-Answers :
      (o : Option Conversation) (text : Text) (citations : List Citation)
      → Answers text (answer_in s o new text citations chat db)
  unfolding answer_in
  answer_in-Answers none text citations = tt
  answer_in-Answers (some c) text citations = (refl, refl)

  after_extract :
      (text : Text) (r : Result ChatError (List Citation))
      → Answers text (r >>= λ citations. store_answer s new text citations chat db)
  unfolding store_answer
  after_extract text (raise e) = tt
  after_extract text (ok citations) =
      answer_in-Answers (get_conversation chat.conversation_id db) text citations

  after_strip :
      (text : Text)
      → Answers text (
          or_raise text ChatError.empty_answer >>= λ a.
          extract_citations s.decimal s.max_digits a chat.context >>= λ citations.
          store_answer s new a citations chat db)
  unfolding or_raise
  after_strip [] = tt
  after_strip (c ∷ text) =
      after_extract (c ∷ text) (extract_citations s.decimal s.max_digits (c ∷ text) chat.context)

  finalize-Answers : (text : Text) → Answers (strip s text) (finalize s new text chat db)
  unfolding finalize
  finalize-Answers text = after_strip (strip s text)

  abbrev sources : List Citation
  sources = available_citations chat.context

  ended-IsLike :
      (texts : List Text) (r : Result ChatError (ChatResult × ChatDb))
      → Answers (strip s (join texts)) r
      → IsLike s
          (in_session db r)
          (ended (begun s chat.conversation_id sources texts) (in_session db r))
  unfolding ended in_session
  ended-IsLike texts (raise e) h = IsLike.failed chat.conversation_id sources texts
  ended-IsLike texts (ok (r, db')) (h, same) =
      subst (λ k. IsLike s (ok r, db') (begun s k sources texts ++ (done_event r ∷ []), none, db'))
        same (IsLike.finished sources texts h)

  pieces-IsLike :
      (given : List Text) (broken : Option ChatError)
      → IsLike s (in_session db (whole (given, broken) >>= λ text. finalize s new text chat db)) (
          after_pieces s new chat db
            (begun s chat.conversation_id sources (non_empty given))
            (non_empty given)
            broken)
  unfolding after_pieces in_session
  pieces-IsLike given (some e) = IsLike.failed chat.conversation_id sources (non_empty given)
  pieces-IsLike given none =
      subst
        (λ text. IsLike s (in_session db (finalize s new text chat db)) (
          ended (begun s chat.conversation_id sources (non_empty given))
            (in_session db (finalize s new (join (non_empty given)) chat db))))
        (join-non_empty given)
        (ended-IsLike (non_empty given) (finalize s new (join (non_empty given)) chat db)
          (finalize-Answers (join (non_empty given))))

  stream_chat-IsLike :
      IsConsistent s → IsLike s (in_session db (answer s new chat db)) (stream_chat s new chat db)
  unfolding answer stream_chat
  stream_chat-IsLike consistent =
      subst
        (λ text.
          IsLike s (in_session db (text >>= λ t. finalize s new t chat db))
            (stream_chat s new chat db))
        (sym (consistent s.system_prompt chat.turns))
        (pieces-IsLike (s.stream_pieces s.system_prompt chat.turns).0
          (s.stream_pieces s.system_prompt chat.turns).1)

after_prepare-IsLike :
    (s : ChatService) (new : NewRows) (db : ChatDb) (r : Result ChatError (PreparedChat × ChatDb))
    → IsConsistent s
    → IsLike s (after_prepare s new db r) (stream_prepared s new db r)
unfolding after_prepare stream_prepared
after_prepare-IsLike s new db (raise e) consistent = IsLike.refused
after_prepare-IsLike s new db (ok (chat, db')) consistent =
    stream_chat-IsLike s new chat db' consistent

-- If the provider gives in pieces the text that it gives at once, or breaks off where that raises: a stream
-- that is read to its end leaves the tables that `ask` leaves. It raises what that raises, after no
-- event or after the sources and some pieces; or its events are the sources, pieces that join to the
-- answer with white space around it, and the ids and citations of the result of `ask`.
pub stream-IsLike :
    (s : ChatService) (new : NewRows) (question : Text) (conversation_id : Option ℕ) (db : ChatDb)
    → IsConsistent s
    → IsLike s (ask s new question conversation_id db) (stream s new question conversation_id db)
unfolding ask stream
stream-IsLike s new question conversation_id db consistent =
    after_prepare-IsLike s new db (prepare s new question conversation_id db) consistent
