-- ===== src/Ingest/Pipeline.antt =====
-- ingest/pipeline.py: `IngestionPipeline`. A method that runs in one database session returns the
-- tables that it commits; where it raises, the session is rolled back and there are none.
use note_rag.Base.{ℕ, Bool, true, false, Option, none, some, List, [], ◌∷◌, String}
use note_rag.Base.Result.{Result, ok, raise, ◌>>=◌}
use note_rag.Chunking.Tokens.{Text}
use note_rag.Chunking.Models.{Chunk}
use note_rag.Persistence.Models.{
  DocumentStatus, IngestionJobStatus, IngestionJob, Document, ChunkRecord, Metadata, Db, Exception,
}
use note_rag.Persistence.Jobs.{set_status, complete_claim}
use note_rag.Persistence.Jobs
use note_rag.Persistence.Documents
use note_rag.Persistence.Chunks.{list_for_document, add_from_chunks}

-- What a parser makes of a file (`ParsedDocument` of ingest/parsers.py).
pub record Parsed : Type 0 where
  pub text : Text
  pub metadata_for_range : ℕ → ℕ → Metadata

-- The collaborators that the pipeline is given: storage with the parser of the file's name, and the
-- chunker. Each may raise.
pub record Collaborators : Type 0 where
  pub read_and_parse : Text → ℕ → Result Exception Parsed
  pub chunk : Text → Option Text → Result Exception (List Chunk)

abbrev pub lookup_error : String → Exception
lookup_error m = record { message = m; class_name = "LookupError" }

unfoldable pub or_lookup_error : {A : Type 0} → String → Option A → Result Exception A
or_lookup_error m none = raise (lookup_error m)
or_lookup_error m (some a) = ok a

-- `ValueError` of a repository, as an exception.
unfoldable pub or_value_error : {A : Type 0} → Result String A → Result Exception A
or_value_error (ok a) = ok a
or_value_error (raise m) = raise (record { message = m; class_name = "ValueError" })

-- An assignment to the job, or to the document, in the session.
abbrev pub with_job : Db → IngestionJob → Db
with_job db job = record db { jobs = Jobs.assign job.id (λ _. job) db.jobs }

abbrev pub with_document : Db → Document → Db
with_document db d = record db { documents = Documents.assign d.id (λ _. d) db.documents }

-- `jobs.set_status(job, status, progress=progress)`
unfoldable pub move : IngestionJobStatus → ℕ → IngestionJob → Result Exception IngestionJob
unfolding or_value_error set_status
move status progress job = or_value_error (set_status status (some progress) none job)

stored_uri : Option ℕ → Result Exception ℕ
stored_uri none =
    raise (record { message = "document has no stored source file"; class_name = "RuntimeError" })
stored_uri (some uri) = ok uri

-- The block under `if not chunks`: the job and the document behind it, and the tables.
unfoldable pub parse_and_chunk :
    Collaborators → IngestionJob → Document → Db → Result Exception (IngestionJob × Document × Db)
unfolding stored_uri
parse_and_chunk k job document db = do
  job ← move IngestionJobStatus.parsing 10 job
  uri ← stored_uri document.storage_uri
  parsed ← k.read_and_parse document.filename uri
  job ← move IngestionJobStatus.chunking 40 job
  generated ← k.chunk parsed.text (some document.filename)
  let metadata_for_chunk =
      λ (c : Chunk). parsed.metadata_for_range c.metadata.char_start c.metadata.char_end
  let (document, table) = add_from_chunks document metadata_for_chunk generated db.chunks
  ok (
    job,
    record document { status = DocumentStatus.ready; error_message = none },
    record db { chunks = table },
  )

pub record IngestionResult : Type 0 where
  pub document_id : ℕ
  pub job_id : Option ℕ
  pub status : DocumentStatus
  pub duplicate : Bool
  pub chunk_count : ℕ
  pub token_count : ℕ
  pub error_message : Option String

-- `_result`
unfoldable pub result_of : Document → Option ℕ → Bool → IngestionResult
result_of document job_id duplicate = record {
  document_id = document.id;
  job_id = job_id;
  status = document.status;
  duplicate = duplicate;
  chunk_count = document.chunk_count;
  token_count = document.token_count;
  error_message = document.error_message;
}

-- The last lines: what becomes of the job, and the result.
unfoldable pub finish :
    Bool → ℕ → IngestionJob → Document → Db → Result Exception (Db × IngestionResult)
unfolding result_of
finish true now job document db = ok (
  with_document (with_job db (complete_claim now job)) document,
  result_of document (some job.id) false,
)
finish false now job document db = do
  job ← move IngestionJobStatus.embedding 60 job
  ok (with_document (with_job db job) document, result_of document (some job.id) false)

unfoldable pub chunked :
    Collaborators
    → List ChunkRecord
    → IngestionJob
    → Document
    → Db
    → Result Exception (IngestionJob × Document × Db)
chunked k [] job document db = parse_and_chunk k job document db
chunked k (c ∷ cs) job document db = ok (job, document, db)

unfoldable pub process_job :
    Collaborators → ℕ → Bool → ℕ → Db → Result Exception (Db × IngestionResult)
unfolding or_lookup_error chunked finish
process_job k job_id complete_job now db = do
  job ← or_lookup_error "ingestion job not found" (Jobs.get job_id db.jobs)
  document ← or_lookup_error "document not found" (Documents.get job.document_id db.documents)
  (job, document, db) ← chunked k (list_for_document document.id db.chunks) job document db
  finish complete_job now job document db
