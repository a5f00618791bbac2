-- ===== src/Persistence/Chunks.antt =====
-- persistence/repositories.py: `ChunkRepository`.
pub mod Stored
use note_rag.Base.{
  ℕ, Bool, Option, none, some, List, [], ◌∷◌, ◌++◌, map, length, max, leb, ◌==◌, if◌then◌else◌,
  String,
}
use text.Mathlib.Text.{◌==◌ as str_eq}
use note_rag.Chunking.Tokens.{Text}
use note_rag.Chunking.Models.{Chunk}
use note_rag.Persistence.Models.{Document, ChunkRecord, Metadata}

-- `d[key] = value`
unfoldable pub put : String → Text → Metadata → Metadata
put key value [] = (key, value) ∷ []
put key value ((k, v) ∷ d) = if str_eq k key then (k, value) ∷ d else (k, v) ∷ put key value d

-- `d.update(other)`
unfoldable pub put_all : Metadata → Metadata → Metadata
unfolding put
put_all [] d = d
put_all ((k, v) ∷ other) d = put_all other (put k v d)

source_entry : Option Text → Metadata
source_entry none = []
source_entry (some s) = ("source_id", s) ∷ []

-- The row that `add_from_chunks` makes of a chunk.
unfoldable pub to_record : Document → (Chunk → Metadata) → Chunk → ChunkRecord
unfolding source_entry put_all
to_record document metadata_for_chunk chunk = record {
  document_id = document.id;
  position = chunk.metadata.index;
  text = chunk.text;
  token_count = chunk.metadata.token_count;
  token_start = chunk.metadata.token_start;
  token_end = chunk.metadata.token_end;
  char_start = chunk.metadata.char_start;
  char_end = chunk.metadata.char_end;
  source_metadata = put_all (metadata_for_chunk chunk) (source_entry chunk.metadata.source_id);
  embedding = none;
  embedding_model = none;
  embedded_at = none;
}

-- `max((record.token_end for record in records), default=0)`
unfoldable pub max_token_end : List ChunkRecord → ℕ
max_token_end [] = 0
max_token_end (r ∷ rs) = max r.token_end (max_token_end rs)

-- The document and the table of chunks behind `add_from_chunks`.
unfoldable pub add_from_chunks :
    Document → (Chunk → Metadata) → List Chunk → List ChunkRecord → Document × List ChunkRecord
unfolding to_record max_token_end
add_from_chunks document metadata_for_chunk chunks table =
    let records = map (to_record document metadata_for_chunk) chunks in
    (
      record document { chunk_count = length records; token_count = max_token_end records },
      table ++ records,
    )

-- `ORDER BY position`
unfoldable pub insert_by_position : ChunkRecord → List ChunkRecord → List ChunkRecord
insert_by_position r [] = r ∷ []
insert_by_position r (q ∷ qs) =
    if leb r.position q.position then r ∷ q ∷ qs else q ∷ insert_by_position r qs

unfoldable pub list_for_document : ℕ → List ChunkRecord → List ChunkRecord
unfolding insert_by_position
list_for_document document_id [] = []
list_for_document document_id (r ∷ rs) =
    let rest = list_for_document document_id rs in
    if r.document_id == document_id then insert_by_position r rest else rest
