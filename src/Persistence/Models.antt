-- ===== src/Persistence/Models.antt =====
-- persistence/models.py: the rows that ingestion reads and writes. A UUID is a number, a time is a
-- number of ticks, a `float` is its IEEE 754 bit pattern. `created_at` is the server's default of the row.
use note_rag.Base.{
  ℕ, ◌/◌, ◌%◌, ◌^◌, Bool, true, false, not, Option, List, String, ◌==◌, if◌then◌else◌,
}
use text.Mathlib.Text.{◌==◌ as str_eq}
pub use note_rag.Base.Float.{Float}
use note_rag.Chunking.Tokens.{Text}

pub data DocumentStatus : Type 0 where
  pending ready failed : DocumentStatus

pub data IngestionJobStatus : Type 0 where
  queued parsing chunking embedding indexing completed failed : IngestionJobStatus

pub data IndexingStatus : Type 0 where
  pending indexing indexed failed : IndexingStatus

pub record IngestionJob : Type 0 where
  pub id : ℕ
  pub document_id : ℕ
  pub status : IngestionJobStatus
  pub progress : ℕ
  pub attempts : ℕ
  pub error_message : Option String
  pub started_at : Option ℕ
  pub finished_at : Option ℕ
  pub next_attempt_at : Option ℕ
  pub locked_at : Option ℕ
  pub worker_id : Option ℕ
  pub created_at : ℕ

-- `job.status == IngestionJobStatus.QUEUED`
abbrev pub is_queued : IngestionJobStatus → Bool
is_queued IngestionJobStatus.queued = true
is_queued _ = false

-- `math.isfinite`: the exponent bits are not all set.
unfoldable pub is_finite : Float → Bool
is_finite x = not ((x / 2 ^ 52) % 2048 == 2047)

pub record Document : Type 0 where
  pub id : ℕ
  pub filename : Text
  pub media_type : String
  pub storage_uri : Option ℕ
  pub content_hash : Option ℕ
  pub status : DocumentStatus
  pub token_count : ℕ
  pub chunk_count : ℕ
  pub error_message : Option String
  pub indexing_status : IndexingStatus
  pub embedding_model : Option String
  pub indexed_at : Option ℕ
  pub indexing_error : Option String

abbrev pub Metadata : Type 0
Metadata = List (String × Text)

pub record ChunkRecord : Type 0 where
  pub document_id : ℕ
  pub position : ℕ
  pub text : Text
  pub token_count : ℕ
  pub token_start : ℕ
  pub token_end : ℕ
  pub char_start : ℕ
  pub char_end : ℕ
  pub source_metadata : Metadata
  pub embedding : Option (List Float)
  pub embedding_model : Option String
  pub embedded_at : Option ℕ

-- The tables, as one session sees them.
pub record Db : Type 0 where
  pub jobs : List IngestionJob
  pub documents : List Document
  pub chunks : List ChunkRecord

-- A Python exception: `str(error)` and the name of its class.
pub record Exception : Type 0 where
  pub message : String
  pub class_name : String

-- `str(error) or error.__class__.__name__`
unfoldable pub describe : Exception → String
describe e = if str_eq e.message "" then e.class_name else e.message
