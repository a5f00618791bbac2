-- ===== src/Chat/Service/Answered.antt =====
-- chat/service.py: what `ask` stores and returns.
use note_rag.Base.{ℕ, ◌≡◌, refl, ◌∙◌, subst, Option, none, some, List, [], ◌∷◌}
use note_rag.Base.Result.{Result, ok, raise, ◌>>=◌}
use note_rag.Chunking.Tokens.{Text}
use note_rag.Context.Models.{ContextPackage}
use note_rag.Chat.Models.{Conversation, ChatMessageRecord, ChatDb, ChatTurn, ChatResult, ChatError}
use note_rag.Chat.Citations.Cited.{IsCited}
use note_rag.Chat.Messages.{get_conversation}
use note_rag.Chat.Service.Stored.{
  Extends, Extends-trans, IsAnswer, Fails, IsFinal, finalize-IsFinal,
}
use note_rag.Chat.Service.Prepared.{target, IsQuestion, AreTurns, Refuses, IsReady, prepare-IsReady}
use note_rag.Chat.Service.{
  ChatService, NewRows, PreparedChat, in_session, strip, prepare, finalize, answer, after_prepare,
  ask,
}

-- Why a question stays without an answer.
pub data Unanswered (s : ChatService) (turns : List ChatTurn) : ChatError → Type 0 where
  ungiven : (e : ChatError) → s.generate s.system_prompt turns ≡ raise e → Unanswered s turns e
  unfit :
      (e : ChatError) (text : Text)
      → s.generate s.system_prompt turns ≡ ok text
      → Fails s (strip s text) e
      → Unanswered s turns e

module _ (s : ChatService) where
  -- What `ask` leads to.
  pub data IsAsked (new : NewRows) (question : Text) (conversation_id : Option ℕ) (db : ChatDb)
      : Result ChatError ChatResult × ChatDb → Type 0 where
    refused :
        (e : ChatError)
        → Refuses s (strip s question) conversation_id db e
        → IsAsked new question conversation_id db (raise e, db)
    unanswered :
        {db' : ChatDb} (e : ChatError) (q : ChatMessageRecord) (context : ContextPackage)
        (turns : List ChatTurn)
        → IsQuestion (strip s question) q
        → Extends db (target new conversation_id) (q ∷ []) db'
        → s.build (strip s question) ≡ ok context
        → AreTurns s (strip s question) conversation_id db context turns
        → Unanswered s turns e
        → IsAsked new question conversation_id db (raise e, db')
    answered :
        {db' : ChatDb} (r : ChatResult) (q a : ChatMessageRecord) (context : ContextPackage)
        (turns : List ChatTurn) (text : Text)
        → IsQuestion (strip s question) q
        → IsAnswer r a
        → r.conversation_id ≡ target new conversation_id
        → Extends db (target new conversation_id) (q ∷ a ∷ []) db'
        → s.build (strip s question) ≡ ok context
        → AreTurns s (strip s question) conversation_id db context turns
        → s.generate s.system_prompt turns ≡ ok text
        → r.answer ≡ strip s text
        → IsCited s.decimal r.answer context r.citations
        → IsAsked new question conversation_id db (ok r, db')

  module _ (new : NewRows) (question : Text) (conversation_id : Option ℕ) (db : ChatDb)
      (apart : s.decimal 91 ≡ none) where
    after_finalize :
        (chat : PreparedChat) (db' : ChatDb) (text : Text) {c : Conversation}
        (there : get_conversation chat.conversation_id db' ≡ some c)
        (r : Result ChatError (ChatResult × ChatDb))
        → IsReady s new (strip s question) conversation_id db (ok (chat, db'))
        → s.generate s.system_prompt chat.turns ≡ ok text
        → IsFinal s new chat db' apart there (strip s text) r
        → IsAsked new question conversation_id db (in_session db' r)
    unfolding in_session
    after_finalize chat db' text there (raise e) (q, is, same, ext, there', built, turns) given
          fails =
        IsAsked.unanswered e q chat.context chat.turns is ext built turns
          (Unanswered.unfit e text given fails)
    after_finalize chat db' text there (ok (r, db'')) (q, is, same, ext, there', built, turns) given
          (a, is', same', ext', e, cites) =
        IsAsked.answered r q a chat.context chat.turns text is is' (same' ∙ same)
          (Extends-trans ext (subst (λ k. Extends db' k (a ∷ []) db'') same ext')) built turns given
          e cites

    after_generate :
        (chat : PreparedChat) (db' : ChatDb) (r : Result ChatError Text)
        → s.generate s.system_prompt chat.turns ≡ r
        → IsReady s new (strip s question) conversation_id db (ok (chat, db'))
        → IsAsked new question conversation_id db
            (in_session db' (r >>= λ text. finalize s new text chat db'))
    unfolding in_session
    after_generate chat db' (raise e) given (q, is, same, ext, there, built, turns) =
        IsAsked.unanswered e q chat.context chat.turns is ext built turns
          (Unanswered.ungiven e given)
    after_generate chat db' (ok text) given (q, is, same, ext, (c, there), built, turns) =
        after_finalize chat db' text there (finalize s new text chat db')
          (q, is, same, ext, (c, there), built, turns) given
          (finalize-IsFinal s new chat db' apart there text)

    after_prepare-IsAsked :
        (r : Result ChatError (PreparedChat × ChatDb))
        → IsReady s new (strip s question) conversation_id db r
        → IsAsked new question conversation_id db (after_prepare s new db r)
    unfolding after_prepare answer
    after_prepare-IsAsked (raise e) ready = IsAsked.refused e ready
    after_prepare-IsAsked (ok (chat, db')) ready =
        after_generate chat db' (s.generate s.system_prompt chat.turns) refl ready

-- Where a bracket that opens is no digit, one of three things comes of `ask`. It raises and stores
-- nothing, if the question is blank, the conversation is not there, or no context is built. Or it
-- raises and adds the question at the end of the conversation, if the provider raises or its text is
-- blank or has a number in brackets that is too long for `int`. Or it adds the question
-- and then the answer there, which is the text of the provider without the white space around it, to the
-- question with its context and the latest messages of the conversation within the limits, and
-- cites the chunks of the context whose numbers it has in brackets. No other conversation changes.
pub ask-IsAsked :
    (s : ChatService) (new : NewRows) (question : Text) (conversation_id : Option ℕ) (db : ChatDb)
    → s.decimal 91 ≡ none
    → IsAsked s new question conversation_id db (ask s new question conversation_id db)
unfolding ask
ask-IsAsked s new question conversation_id db apart =
    after_prepare-IsAsked s new question conversation_id db apart
      (prepare s new question conversation_id db)
      (prepare-IsReady s new question conversation_id db)
