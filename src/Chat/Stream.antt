-- ===== src/Chat/Stream.antt =====
-- chat/service.py: `stream`, as a list of events.
pub mod Alike
use note_rag.Base.{
  ℕ, zero, suc, Bool, true, false, Option, none, some, List, [], ◌∷◌, ◌++◌, map, take, leb,
  if◌then◌else◌,
}
use note_rag.Base.Int.{ℤ, pos, negsuc}
use note_rag.Base.Result.{Result, ok, raise, ◌>>=◌}
use note_rag.Chunking.Tokens.{Text, CharClass, count}
use note_rag.Context.Budget.{codes}
use note_rag.Context.Dedup.{collapse, lstrip, rstrip}
use note_rag.Context.Models.{ContextPackage}
use note_rag.Chat.Models.{
  ChatRole, Citation, Conversation, ChatMessageRecord, ChatDb, ChatTurn, ChatResult, ChatError,
}
use note_rag.Chat.Citations.{available_citations, extract_citations}
use note_rag.Chat.History.{load_history}
use note_rag.Chat.Messages.{get_conversation, add_conversation, placed, add_message}
use note_rag.Chat.Service.{ChatService, NewRows, PreparedChat, in_session, finalize, prepare}

-- The events of `stream`
pub data ChatStreamEvent : Type 0 where
  metadata : ℕ → List Citation → Text → ChatStreamEvent
  delta : Text → ChatStreamEvent
  done : ℕ → ℕ → List Citation → ChatStreamEvent

-- The pieces that are not empty
unfoldable pub non_empty : List Text → List Text
non_empty [] = []
non_empty ([] ∷ pieces) = non_empty pieces
non_empty ((c ∷ piece) ∷ pieces) = (c ∷ piece) ∷ non_empty pieces

-- `"".join(pieces)`
unfoldable pub join : List Text → Text
join [] = []
join (piece ∷ pieces) = piece ++ join pieces

-- What a generator gives that is read to its end: its events, what it raised, and the tables.
abbrev pub Streamed : Type 0
Streamed = List ChatStreamEvent × Option ChatError × ChatDb

unfoldable pub done_event : ChatResult → ChatStreamEvent
done_event r = ChatStreamEvent.done r.conversation_id r.message_id r.citations

unfoldable pub ended : List ChatStreamEvent → Result ChatError ChatResult × ChatDb → Streamed
unfolding done_event
ended events (ok r, db) = (events ++ (done_event r ∷ []), none, db)
ended events (raise e, db) = (events, some e, db)

module _ (s : ChatService) where
  -- What comes after the pieces, which the provider ended or broke off
  unfoldable pub after_pieces :
      NewRows
      → PreparedChat
      → ChatDb
      → List ChatStreamEvent
      → List Text
      → Option ChatError
      → Streamed
  unfolding ended in_session finalize join
  after_pieces new chat db events pieces (some e) = (events, some e, db)
  after_pieces new chat db events pieces none =
      ended events (in_session db (finalize s new (join pieces) chat db))

  unfoldable pub stream_chat : NewRows → PreparedChat → ChatDb → Streamed
  unfolding non_empty after_pieces available_citations
  stream_chat new chat db =
      let (given, broken) = s.stream_pieces s.system_prompt chat.turns in
      let pieces = non_empty given in
      after_pieces new chat db
        (ChatStreamEvent.metadata chat.conversation_id (available_citations chat.context)
            s.model_name
          ∷ map ChatStreamEvent.delta pieces)
        pieces broken

  unfoldable pub stream_prepared :
      NewRows → ChatDb → Result ChatError (PreparedChat × ChatDb) → Streamed
  unfolding stream_chat
  stream_prepared new db (raise e) = ([], some e, db)
  stream_prepared new db (ok (chat, db')) = stream_chat new chat db'

  unfoldable pub stream : NewRows → Text → Option ℕ → ChatDb → Streamed
  unfolding prepare stream_prepared
  stream new question conversation_id db =
      stream_prepared new db (prepare s new question conversation_id db)
