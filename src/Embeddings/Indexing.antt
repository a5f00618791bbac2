-- ===== src/Embeddings/Indexing.antt =====
-- embeddings/service.py: `IndexingService.index_document`. The `except` in it keeps what was
-- assigned before the exception, so the parts below return the state beside the exception.
use note_rag.Base.{
  ℕ, zero, suc, ◌+◌, Bool, true, false, not, ◌&&◌, Option, none, some, List, [], ◌∷◌, map, take,
  drop, length, ◌==◌, if◌then◌else◌, String,
}
use note_rag.Base.Result.{Result, ok, raise, ◌>>=◌, ◌>>◌}
use note_rag.Chunking.Tokens.{Text}
use note_rag.Persistence.Models.{
  Float, is_finite, IngestionJobStatus, IndexingStatus, IngestionJob, Document, ChunkRecord, Db,
  Exception, describe,
}
use note_rag.Persistence.Jobs.{set_status}
use note_rag.Persistence.Jobs
use note_rag.Persistence.Documents
use note_rag.Persistence.Chunks.{list_for_document}

abbrev pub Vector : Type 0
Vector = List Float

-- `EmbeddingProvider`: the model that is called may raise, and may return anything.
pub record Provider : Type 0 where
  pub model_name : String
  pub dimension : ℕ
  pub embed : List Text → Result Exception (List Vector)

-- `RetrievalCacheInvalidator`, called in the session.
abbrev pub Invalidator : Type 0
Invalidator = Db → Result Exception Db

pub record IndexingResult : Type 0 where
  pub document_id : ℕ
  pub status : IndexingStatus
  pub indexed_chunks : ℕ
  pub embedding_model : String
  pub error_message : Option String

unfoldable pub all_finite : Vector → Bool
all_finite [] = true
all_finite (x ∷ xs) = is_finite x && all_finite xs

abbrev pub value_error : {A : Type 0} → String → Result Exception A
value_error m = raise (record { message = m; class_name = "ValueError" })

-- The loop of `_validate_vectors`
unfoldable pub check_each : ℕ → List Vector → Result Exception (Unit {0})
check_each dimension [] = ok tt
check_each dimension (v ∷ vs) =
    let rest = check_each dimension vs in
    if length v == dimension
    then if all_finite v then rest else value_error "embedding vector contains a non-finite value"
    else value_error "embedding provider returned the wrong dimension"

unfoldable pub validate_vectors : ℕ → List Vector → ℕ → Result Exception (Unit {0})
unfolding check_each
validate_vectors dimension vectors expected_count =
    if length vectors == expected_count
    then check_each dimension vectors
    else value_error "embedding provider returned the wrong vector count"

-- A chunk's row is the one with its document and position.
same_row : ChunkRecord → ChunkRecord → Bool
same_row a b = a.document_id == b.document_id && a.position == b.position

unfoldable pub embed_row : String → ℕ → ChunkRecord → Vector → List ChunkRecord → List ChunkRecord
unfolding same_row
embed_row model now chunk vector [] = []
embed_row model now chunk vector (r ∷ rs) =
    (if same_row r chunk
      then record r {
        embedding = some vector;
        embedding_model = some model;
        embedded_at = some now;
      }
      else r)
    ∷ embed_row model now chunk vector rs

-- `for chunk, vector in zip(batch, vectors, strict=True)`
unfoldable pub embed_rows :
    String → ℕ → List ChunkRecord → List Vector → List ChunkRecord → List ChunkRecord
unfolding embed_row
embed_rows model now (c ∷ cs) (v ∷ vs) table =
    embed_rows model now cs vs (embed_row model now c v table)
embed_rows model now _ _ table = table

unfoldable pub embed_batch : Provider → List ChunkRecord → Result Exception (List Vector)
unfolding validate_vectors
embed_batch p batch = do
  vectors ← p.embed (map (λ c. c.text) batch)
  validate_vectors p.dimension vectors (length batch)
  ok vectors

-- The loop over the batches, by as many rounds as there are chunks: the exception that ended it, the
-- count `indexed`, and the table.
unfoldable pub embed_batches :
    ℕ
    → Provider
    → ℕ
    → ℕ
    → List ChunkRecord
    → ℕ
    → List ChunkRecord
    → Option Exception × ℕ × List ChunkRecord
embed_batches zero p batch_size now chunks indexed table = (none, indexed, table)
embed_batches (suc fuel) p batch_size now [] indexed table = (none, indexed, table)
embed_batches (suc fuel) p batch_size now (c ∷ cs) indexed table =
    let batch = take batch_size (c ∷ cs) in
    elim (embed_batch p batch) [
      | raise e ↦ (some e, indexed, table)
      | ok vectors ↦
          embed_batches fuel p batch_size now (drop batch_size (c ∷ cs)) (indexed + length batch)
            (embed_rows p.model_name now batch vectors table)
    ]

accepted : IngestionJob → Result String IngestionJob → IngestionJob
accepted job (ok job') = job'
accepted job (raise e) = job

-- `if job is not None: set_status(job, ...)`. The values that it is called with are all accepted.
unfoldable pub move_job :
    IngestionJobStatus → Option ℕ → Option String → Option IngestionJob → Db → Db
unfolding set_status accepted
move_job status progress error_message none db = db
move_job status progress error_message (some job) db = record db {
  jobs = Jobs.assign job.id (λ j. accepted j (set_status status progress error_message j)) db.jobs;
}

abbrev assign_document : Document → (Document → Document) → Db → Db
assign_document d f db = record db { documents = Documents.assign d.id f db.documents }

invalidate : Option Invalidator → Db → Result Exception Db
invalidate none db = ok db
invalidate (some f) db = f db

-- The body of the `try`: the exception that ended it, the count, and the state.
unfoldable pub try_index :
    Provider
    → ℕ
    → Option Invalidator
    → ℕ
    → List ChunkRecord
    → Document
    → Option IngestionJob
    → Db
    → Option Exception × ℕ × Db
unfolding move_job invalidate
try_index p batch_size cache now chunks document job db =
    let (failed, indexed, table) =
      embed_batches (length chunks) p batch_size now chunks 0 db.chunks in
    let embedded = record db { chunks = table } in
    elim failed [
      | some e ↦ (some e, indexed, embedded)
      | none ↦
          let db =
            assign_document document
              (λ d. record d {
                indexing_status = IndexingStatus.indexed;
                embedding_model = some p.model_name;
                indexed_at = some now;
              })
              (move_job IngestionJobStatus.indexing (some 90) none job embedded) in
          elim (invalidate cache db) [
            | raise e ↦ (some e, indexed, db)
            | ok db' ↦ (none, indexed, move_job IngestionJobStatus.indexing (some 95) none job db')
          ]
    ]

all_embedded : List ChunkRecord → Bool
all_embedded [] = true
all_embedded (c ∷ cs) = elim c.embedding [ none ↦ false | some v ↦ all_embedded cs ]

is_indexed : IndexingStatus → Bool
is_indexed IndexingStatus.indexed = true
is_indexed _ = false

abbrev result_of : Provider → ℕ → IndexingStatus → ℕ → Option String → IndexingResult
result_of p document_id status indexed error_message = record {
  document_id = document_id;
  status = status;
  indexed_chunks = indexed;
  embedding_model = p.model_name;
  error_message = error_message;
}

-- The `except` and the two results.
unfoldable pub settle :
    Provider → Document → Option IngestionJob → Option Exception × ℕ × Db → Db × IndexingResult
unfolding move_job
settle p document job (none, indexed, db) =
    (db, result_of p document.id IndexingStatus.indexed indexed none)
settle p document job (some e, indexed, db) =
    let message = describe e in
    (
      move_job IngestionJobStatus.failed none (some message) job (
          assign_document document
            (λ d. record d {
              indexing_status = IndexingStatus.failed;
              indexing_error = some message;
            })
            db),
      result_of p document.id IndexingStatus.failed 0 (some message),
    )

find_job : Option ℕ → Db → Option IngestionJob
find_job none db = none
find_job (some job_id) db = Jobs.get job_id db.jobs

-- What `index_document` does with the document that it found.
unfoldable pub index_found :
    Provider → ℕ → Option Invalidator → ℕ → Option ℕ → Bool → Document → Db → Db × IndexingResult
unfolding all_embedded is_indexed find_job try_index settle move_job
index_found p batch_size cache now job_id force document db =
    let chunks = list_for_document document.id db.chunks in
    let job = find_job job_id db in
    let started = move_job IngestionJobStatus.embedding (some 70) none job (
      assign_document document
        (λ d. record d { indexing_status = IndexingStatus.indexing; indexing_error = none }) db) in
    if not force && is_indexed document.indexing_status && all_embedded chunks
    then (
      db,
      result_of p document.id document.indexing_status (length chunks) document.indexing_error,
    )
    else settle p document job (try_index p batch_size cache now chunks document job started)

unfoldable pub index_document :
    Provider
    → ℕ
    → Option Invalidator
    → ℕ
    → ℕ
    → Option ℕ
    → Bool
    → Db
    → Result Exception (Db × IndexingResult)
index_document p batch_size cache now document_id job_id force db =
    elim (Documents.get document_id db.documents) [
      | none ↦ raise (record { message = "document not found"; class_name = "LookupError" })
      | some document ↦ ok (index_found p batch_size cache now job_id force document db)
    ]
