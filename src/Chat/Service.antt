-- ===== src/Chat/Service.antt =====
-- chat/service.py: `ask`, over the tables that the sessions of one request commit, with
-- `build_chat_turns` of chat/prompts.py.
pub mod Stored
pub mod Prepared
pub mod Answered
use note_rag.Base.{
  ℕ, zero, suc, Bool, true, false, Option, none, some, List, [], ◌∷◌, ◌++◌, map, take, leb,
  if◌then◌else◌,
}
use note_rag.Base.Int.{ℤ, pos, negsuc}
use note_rag.Base.Result.{Result, ok, raise, ◌>>=◌}
use note_rag.Chunking.Tokens.{Text, CharClass, count}
use note_rag.Context.Budget.{codes}
use note_rag.Context.Dedup.{collapse, lstrip, rstrip}
use note_rag.Context.Models.{ContextPackage}
use note_rag.Chat.Models.{
  ChatRole, Citation, Conversation, ChatMessageRecord, ChatDb, ChatTurn, ChatResult, ChatError,
}
use note_rag.Chat.Citations.{available_citations, extract_citations}
use note_rag.Chat.History.{load_history}
use note_rag.Chat.Messages.{get_conversation, add_conversation, placed, add_message}

-- The service with its collaborators: `build` is the context builder with the options of the request, and the
-- provider gives a text, or the pieces of a text and what ended them if it raised.
pub record ChatService : Type 0 where
  pub chars : CharClass
  pub decimal : ℕ → Option ℕ
  pub max_digits : ℕ
  pub build : Text → Result ChatError ContextPackage
  pub system_prompt : Text
  pub model_name : Text
  pub generate : Text → List ChatTurn → Result ChatError Text
  pub stream_pieces : Text → List ChatTurn → List Text × Option ChatError
  pub history_max_messages : ℕ
  pub history_max_tokens : ℕ

-- The checks of `__init__`
unfoldable pub checked_limit : ℤ → Result ChatError ℕ
checked_limit (pos zero) = raise ChatError.limit_not_positive
checked_limit (pos (suc n)) = ok (suc n)
checked_limit (negsuc n) = raise ChatError.limit_not_positive

-- The ids that `uuid4` gives the new rows, and what `datetime.now` gives as they are made.
pub record NewRows : Type 0 where
  pub conversation : ℕ
  pub question : ℕ
  pub answer : ℕ
  pub asked_at : ℕ
  pub answered_at : ℕ

pub record PreparedChat : Type 0 where
  pub conversation_id : ℕ
  pub context : ContextPackage
  pub turns : List ChatTurn

unfoldable pub or_text : Text → Text → Text
or_text [] other = other
or_text (c ∷ text) other = c ∷ text

unfoldable pub or_raise : Text → ChatError → Result ChatError Text
or_raise [] e = raise e
or_raise (c ∷ text) e = ok (c ∷ text)

-- A session commits what it returns with its result, and nothing if it raises.
unfoldable pub in_session {ℓ} :
    {A : Type ℓ} → ChatDb → Result ChatError (A × ChatDb) → Result ChatError A × ChatDb
in_session db (ok (a, db')) = (ok a, db')
in_session db (raise e) = (raise e, db)

module _ (s : ChatService) where
  unfoldable pub strip : Text → Text
  unfolding lstrip rstrip
  strip text = rstrip s.chars (lstrip s.chars text)

  unfoldable pub title : Text → Text
  unfolding collapse strip
  title question = take 80 (strip (collapse s.chars false question))

  unfoldable pub build_chat_turns : Text → ContextPackage → List ChatTurn → List ChatTurn
  unfolding or_text strip
  build_chat_turns question context history =
      history
      ++ (record {
        role = ChatRole.user;
        content =
            codes "Use the following retrieved context to answer the question.\n\nContext:\n"
            ++ or_text context.context (codes "(No relevant context was retrieved.)")
            ++ codes "\n\nQuestion:\n"
            ++ strip question;
      }
          ∷ [])

  unfoldable pub history_in :
      Option Conversation → ℕ → ChatDb → Result ChatError (List ChatTurn × Option ℕ)
  unfolding load_history
  history_in none k db = raise ChatError.conversation_missing
  history_in (some c) k db =
      ok (load_history s.history_max_messages s.history_max_tokens k db.messages, some k)

  -- `_load_history`
  unfoldable pub load_history_of : Option ℕ → ChatDb → Result ChatError (List ChatTurn × Option ℕ)
  unfolding get_conversation history_in
  load_history_of none db = ok ([], none)
  load_history_of (some k) db = history_in (get_conversation k db) k db

  unfoldable pub question_row : NewRows → Text → ContextPackage → ℕ → ChatMessageRecord
  unfolding count
  question_row new question context conversation_id = record {
    id = new.question;
    conversation_id = conversation_id;
    position = 0;
    role = ChatRole.user;
    content = question;
    citations = [];
    token_count = count s.chars question;
    context_token_count = context.token_count;
    model_name = none;
  }

  unfoldable pub new_conversation : NewRows → Text → Conversation
  unfolding title
  new_conversation new question = record {
    id = new.conversation;
    title = title question;
    updated_at = new.asked_at;
  }

  unfoldable pub question_in :
      Option Conversation
      → NewRows
      → Text
      → ContextPackage
      → ℕ
      → ChatDb
      → Result ChatError (ℕ × ChatDb)
  unfolding question_row add_message
  question_in none new question context k db = raise ChatError.conversation_missing
  question_in (some c) new question context k db =
      ok (k, add_message new.asked_at (question_row new question context k) db)

  -- The session of `_prepare`
  unfoldable pub store_question :
      NewRows → Text → ContextPackage → Option ℕ → ChatDb → Result ChatError (ℕ × ChatDb)
  unfolding get_conversation add_conversation new_conversation question_in
  store_question new question context none db =
      question_in (some (new_conversation new question)) new question context new.conversation
        (add_conversation (new_conversation new question) db)
  store_question new question context (some k) db =
      question_in (get_conversation k db) new question context k db

  unfoldable pub prepared :
      ContextPackage → Text → List ChatTurn → ℕ × ChatDb → PreparedChat × ChatDb
  unfolding build_chat_turns
  prepared context question history (k, db) = (
    record {
      conversation_id = k;
      context = context;
      turns = build_chat_turns question context history;
    },
    db,
  )

  -- `_prepare`
  unfoldable pub prepare :
      NewRows → Text → Option ℕ → ChatDb → Result ChatError (PreparedChat × ChatDb)
  unfolding strip or_raise load_history_of store_question prepared
  prepare new text conversation_id db = do
    question ← or_raise (strip text) ChatError.empty_question
    (history, existing) ← load_history_of conversation_id db
    context ← s.build question
    stored ← store_question new question context existing db
    ok (prepared context question history stored)

  unfoldable pub answer_row : NewRows → Text → List Citation → PreparedChat → ChatMessageRecord
  unfolding count
  answer_row new answer citations chat = record {
    id = new.answer;
    conversation_id = chat.conversation_id;
    position = 0;
    role = ChatRole.assistant;
    content = answer;
    citations = citations;
    token_count = count s.chars answer;
    context_token_count = chat.context.token_count;
    model_name = some s.model_name;
  }

  unfoldable pub answer_in :
      Option Conversation
      → NewRows
      → Text
      → List Citation
      → PreparedChat
      → ChatDb
      → Result ChatError (ChatResult × ChatDb)
  unfolding answer_row add_message
  answer_in none new answer citations chat db = raise ChatError.conversation_missing
  answer_in (some c) new answer citations chat db = ok (
    record {
      conversation_id = chat.conversation_id;
      message_id = new.answer;
      answer = answer;
      citations = citations;
      model_name = s.model_name;
    },
    add_message new.answered_at (answer_row new answer citations chat) db,
  )

  -- The session of `_finalize`, and its result
  unfoldable pub store_answer :
      NewRows
      → Text
      → List Citation
      → PreparedChat
      → ChatDb
      → Result ChatError (ChatResult × ChatDb)
  unfolding get_conversation answer_in
  store_answer new answer citations chat db =
      answer_in (get_conversation chat.conversation_id db) new answer citations chat db

  -- What `ask` does with the text of the provider: `strip`, its test, and `_finalize`
  unfoldable pub finalize :
      NewRows → Text → PreparedChat → ChatDb → Result ChatError (ChatResult × ChatDb)
  unfolding strip or_raise extract_citations store_answer
  finalize new text chat db = do
    answer ← or_raise (strip text) ChatError.empty_answer
    citations ← extract_citations s.decimal s.max_digits answer chat.context
    store_answer new answer citations chat db

  unfoldable pub answer : NewRows → PreparedChat → ChatDb → Result ChatError (ChatResult × ChatDb)
  unfolding finalize
  answer new chat db = do text ← s.generate s.system_prompt chat.turns; finalize new text chat db

  unfoldable pub after_prepare :
      NewRows
      → ChatDb
      → Result ChatError (PreparedChat × ChatDb)
      → Result ChatError ChatResult × ChatDb
  unfolding answer in_session
  after_prepare new db (raise e) = (raise e, db)
  after_prepare new db (ok (chat, db')) = in_session db' (answer new chat db')

  unfoldable pub ask : NewRows → Text → Option ℕ → ChatDb → Result ChatError ChatResult × ChatDb
  unfolding prepare after_prepare
  ask new question conversation_id db =
      after_prepare new db (prepare new question conversation_id db)
