-- ===== src/Chat/Models.antt =====
-- chat/models.py, with the rows of persistence/models.py and the errors that the chat raises.
use note_rag.Base.{ℕ, Option, List}
use note_rag.Chunking.Tokens.{Text}
use note_rag.Persistence.Models.{Metadata}

pub data ChatRole : Type 0 where
  user assistant : ChatRole

pub record Citation : Type 0 where
  pub citation_id : ℕ
  pub chunk_id : ℕ
  pub document_id : ℕ
  pub filename : Text
  pub position : ℕ
  pub source_metadata : Metadata

abbrev pub citation_key : Citation → ℕ
citation_key c = c.citation_id

pub record Conversation : Type 0 where
  pub id : ℕ
  pub title : Text
  pub updated_at : ℕ

pub record ChatMessageRecord : Type 0 where
  pub id : ℕ
  pub conversation_id : ℕ
  pub position : ℕ
  pub role : ChatRole
  pub content : Text
  pub citations : List Citation
  pub token_count : ℕ
  pub context_token_count : ℕ
  pub model_name : Option Text

-- The tables of the chat.
pub record ChatDb : Type 0 where
  pub conversations : List Conversation
  pub messages : List ChatMessageRecord

pub record ChatTurn : Type 0 where
  pub role : ChatRole
  pub content : Text

pub record ChatResult : Type 0 where
  pub conversation_id : ℕ
  pub message_id : ℕ
  pub answer : Text
  pub citations : List Citation
  pub model_name : Text

-- What the chat raises, or what a collaborator raised with its text. `int` of a number with too many digits is
-- a `ValueError`.
pub data ChatError : Type 0 where
  limit_not_positive empty_question conversation_missing empty_answer too_many_digits : ChatError
  raised : Text → ChatError
