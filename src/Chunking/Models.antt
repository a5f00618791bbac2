-- ===== src/Chunking/Models.antt =====
-- chunking/models.py, and the settings that both chunkers check in `__init__`.
use note_rag.Base.{ℕ, Option, if◌then◌else◌, length, ◌==◌, String, ◌<◌, ◌≡◌, arith}
use note_rag.Base.Int.{ℤ, pos, pos_part, leb_ℤ, ltb_ℤ}
use note_rag.Base.Result.{Result, ok, raise, ◌>>◌, raise_if}
use note_rag.Chunking.Tokens.{Text}

pub data Error : Type 0 where
  value_error : String → Error
  index_error assertion_error validation_error : Error

pub record ChunkMetadata : Type 0 where
  pub index : ℕ
  pub token_start : ℕ
  pub token_end : ℕ
  pub token_count : ℕ
  pub char_start : ℕ
  pub char_end : ℕ
  pub source_id : Option Text

pub record Chunk : Type 0 where
  pub text : Text
  pub metadata : ChunkMetadata

-- What pydantic checks of a `Chunk`: `min_length=1`, `ge=1`. Each `ge=0` holds of a natural number.
unfoldable pub validate : Chunk → Result Error Chunk
validate c =
    if length c.text == 0
    then raise validation_error
    else if c.metadata.token_count == 0
    then raise validation_error
    else ok c

pub validate-ok : (c : Chunk) → 0 < length c.text → 0 < c.metadata.token_count → validate c ≡ ok c
unfolding validate
validate-ok c h k = ground arith

pub record Settings : Type 0 where
  pub chunk_size : ℕ
  pub chunk_overlap : ℕ

-- `__init__` of both chunkers
unfoldable pub settings : ℤ → ℤ → Result Error Settings
settings size overlap = do
  raise_if (leb_ℤ size (pos 0)) (value_error "chunk_size must be greater than zero")
  raise_if (ltb_ℤ overlap (pos 0)) (value_error "chunk_overlap must not be negative")
  raise_if (leb_ℤ size overlap) (value_error "chunk_overlap must be smaller than chunk_size")
  ok (record { chunk_size = pos_part size; chunk_overlap = pos_part overlap })
