-- ===== src/Chat/Service/Stored.antt =====
-- chat/service.py: what is stored with an answer.
use mathlib.Core.List.{append_assoc}
use note_rag.Base.{
  ℕ, ◌≡◌, ◌≢◌, ◌<◌, refl, sym, ap, ◌∙◌, subst, none, some, List, [], ◌∷◌, ◌++◌, length,
}
use note_rag.Base.Result.{Result, ok, raise, ◌>>=◌}
use note_rag.Chunking.Tokens.{Text}
use note_rag.Chat.Models.{
  ChatRole, Citation, Conversation, ChatMessageRecord, ChatDb, ChatResult, ChatError,
}
use note_rag.Chat.Citations.{extract_citations}
use note_rag.Chat.Citations.Scanned.{Bracketed}
use note_rag.Chat.Citations.Cited.{IsCited, IsExtracted, extract_citations-IsExtracted}
use note_rag.Chat.Messages.{get_conversation, placed, add_message}
use note_rag.Chat.Messages.Appended.{transcript, transcript-add_message, transcript-add_message_ne}
use note_rag.Chat.Service.{
  ChatService, NewRows, PreparedChat, or_raise, strip, answer_row, answer_in, store_answer,
  finalize,
}

-- The messages are added in their order at the end of this conversation, and no other changes.
pub record Extends (db : ChatDb) (k : ℕ) (messages : List ChatMessageRecord) (db' : ChatDb)
    : Type 0 where
  pub own : transcript k db' ≡ transcript k db ++ messages
  pub others : (j : ℕ) → j ≢ k → transcript j db' ≡ transcript j db

pub Extends-trans :
    {db db' db'' : ChatDb} {k : ℕ} {m m' : ChatMessageRecord}
    → Extends db k (m ∷ []) db'
    → Extends db' k (m' ∷ []) db''
    → Extends db k (m ∷ m' ∷ []) db''
Extends-trans {db} {db'} {db''} {k} {m} {m'} first second = record {
  own =
      second.own
      ∙ ap (λ x. x ++ (m' ∷ [])) first.own
      ∙ append_assoc (transcript k db) (m ∷ []) (m' ∷ []);
  others = λ j ne. second.others j ne ∙ first.others j ne;
}

pub Extends-add_message :
    (now : ℕ) (m : ChatMessageRecord) (db : ChatDb)
    → Extends db m.conversation_id (placed m db ∷ []) (add_message now m db)
Extends-add_message now m db = record {
  own = transcript-add_message now m db;
  others = λ j ne. transcript-add_message_ne now j m db ne;
}

abbrev pub IsAnswer : ChatResult → ChatMessageRecord → Type 0
IsAnswer r m =
    (m.role ≡ ChatRole.assistant)
    × (m.content ≡ r.answer)
    × (m.citations ≡ r.citations)
    × (m.id ≡ r.message_id)

-- Why no answer is stored where the provider gave a text, of which this is left without the white space around.
pub data Fails (s : ChatService) (text : Text) : ChatError → Type 0 where
  blank : text ≡ [] → Fails s text ChatError.empty_answer
  digits :
      (ds : List ℕ)
      → Bracketed s.decimal text ds
      → s.max_digits < length ds
      → Fails s text ChatError.too_many_digits

module _ (s : ChatService) (new : NewRows) (chat : PreparedChat) (db : ChatDb)
    (apart : s.decimal 91 ≡ none) {c : Conversation}
    (there : get_conversation chat.conversation_id db ≡ some c) where
  abbrev IsStored : Text → List Citation → Result ChatError (ChatResult × ChatDb) → Type 0
  IsStored text citations (raise e) = ⊥
  IsStored text citations (ok (r, db')) =
      (a : ChatMessageRecord) × IsAnswer r a
      × (r.conversation_id ≡ chat.conversation_id)
      × Extends db chat.conversation_id (a ∷ []) db'
      × (r.answer ≡ text)
      × (r.citations ≡ citations)

  store_answer-IsStored :
      (text : Text) (citations : List Citation)
      → IsStored text citations (store_answer s new text citations chat db)
  unfolding store_answer answer_in answer_row placed
  store_answer-IsStored text citations =
      subst (λ o. IsStored text citations (answer_in s o new text citations chat db)) (sym there)
        (
          placed (answer_row s new text citations chat) db,
          (refl, refl, refl, refl),
          refl,
          Extends-add_message new.answered_at (answer_row s new text citations chat) db,
          refl,
          refl,
        )

  abbrev pub IsFinal : Text → Result ChatError (ChatResult × ChatDb) → Type 0
  IsFinal text (raise e) = Fails s text e
  IsFinal text (ok (r, db')) =
      (a : ChatMessageRecord) × IsAnswer r a
      × (r.conversation_id ≡ chat.conversation_id)
      × Extends db chat.conversation_id (a ∷ []) db'
      × (r.answer ≡ text)
      × IsCited s.decimal r.answer chat.context r.citations

  with_citations :
      (text : Text) (citations : List Citation) (r : Result ChatError (ChatResult × ChatDb))
      → IsCited s.decimal text chat.context citations
      → IsStored text citations r
      → IsFinal text r
  with_citations text citations (raise e) cites stored = absurd stored
  with_citations text citations (ok (r, db')) cites (a, is, own, ext, e, e') = (
    a,
    is,
    own,
    ext,
    e,
    subst (λ t. IsCited s.decimal t chat.context r.citations) (sym e)
        (subst (IsCited s.decimal text chat.context) (sym e') cites),
  )

  after_extract :
      (text : Text) (r : Result ChatError (List Citation))
      → IsExtracted s.decimal s.max_digits text chat.context r
      → IsFinal text (r >>= λ citations. store_answer s new text citations chat db)
  after_extract text (ok citations) (IsExtracted.given cites) =
      with_citations text citations (store_answer s new text citations chat db) cites
        (store_answer-IsStored text citations)
  after_extract text (raise e) (IsExtracted.refused ds bracketed long) =
      Fails.digits ds bracketed long

  after_strip :
      (text : Text)
      → IsFinal text (
          or_raise text ChatError.empty_answer >>= λ a.
          extract_citations s.decimal s.max_digits a chat.context >>= λ citations.
          store_answer s new a citations chat db)
  unfolding or_raise
  after_strip [] = Fails.blank refl
  after_strip (c ∷ text) =
      after_extract (c ∷ text) (extract_citations s.decimal s.max_digits (c ∷ text) chat.context)
        (extract_citations-IsExtracted s.decimal s.max_digits (c ∷ text) chat.context apart)

  pub finalize-IsFinal : (text : Text) → IsFinal (strip s text) (finalize s new text chat db)
  unfolding finalize
  finalize-IsFinal text = after_strip (strip s text)
