-- ===== src/Persistence/Chunks/Stored.antt =====
-- What is stored of a chunking: the constraints of the table of chunks hold of it.
use note_rag.Base.{
  ℕ, ◌+◌, ◌<◌, ◌≡◌, refl, Option, List, [], ◌∷◌, ◌++◌, map, length, max, arith, All, length-map,
}
use note_rag.Chunking.Tokens.{Text, Token}
use note_rag.Chunking.Models.{Chunk, Settings}
use note_rag.Chunking.Cover.{Covers}
use note_rag.Chunking.Build.Sound.{token_range, IsNumbered, IsSlice}
use note_rag.Chunking.Contract.{IsChunking}
use note_rag.Persistence.Models.{Document, ChunkRecord, Metadata}
use note_rag.Persistence.Chunks.{to_record, max_token_end, add_from_chunks}

-- `ck_chunks_token_count`, `ck_chunks_token_range`, `ck_chunks_char_range` of persistence/models.py,
-- and the foreign key.
pub record IsStorable (document : Document) (r : ChunkRecord) : Type 0 where
  pub counted : 0 < r.token_count
  pub tokens : r.token_start < r.token_end
  pub chars : r.char_start < r.char_end
  pub owner : r.document_id ≡ document.id

-- `uq_chunks_document_position`: the positions of the new rows are 0, 1, 2, ...
abbrev pub Positions : ℕ → List ChunkRecord → Type 0
Positions i [] = Unit
Positions i (r ∷ rs) = (r.position ≡ i) × Positions (i + 1) rs

module _ (document : Document) (metadata : Chunk → Metadata) where
  Positions-map :
      (i : ℕ) (cs : List Chunk)
      → IsNumbered i cs
      → Positions i (map (to_record document metadata) cs)
  unfolding to_record
  Positions-map i [] n = tt
  Positions-map i (c ∷ cs) (e, n) = (e, Positions-map (i + 1) cs n)

  max_token_end-Covers :
      (size overlap n e : ℕ) (cs : List Chunk)
      → Covers size overlap n e (map token_range cs)
      → max e (max_token_end (map (to_record document metadata) cs)) ≡ n
  unfolding to_record max_token_end
  max_token_end-Covers size overlap n e [] c = omega arith
  max_token_end-Covers size overlap n e (x ∷ cs) (a, b, d, c) =
      omega (arith, max_token_end-Covers size overlap n x.metadata.token_end cs c)

  IsStorable-map :
      (text : Text) (tokens : List Token) (source : Option Text) (size overlap n e : ℕ)
      (cs : List Chunk)
      → Covers size overlap n e (map token_range cs)
      → All (IsSlice text tokens source) cs
      → All (IsStorable document) (map (to_record document metadata) cs)
  unfolding to_record
  IsStorable-map text tokens source size overlap n e [] c s = tt
  IsStorable-map text tokens source size overlap n e (x ∷ cs) (a, b, d, c) (s, ss) = (
    record {
      counted = omega (arith, s.counted);
      tokens = omega arith;
      chars = s.nonempty;
      owner = refl;
    },
    IsStorable-map text tokens source size overlap n x.metadata.token_end cs c ss,
  )

-- For the chunks of a chunker, `add_from_chunks` appends rows that meet the constraints of the table
-- and are numbered from 0, and the document gets their count and the count of its tokens.
pub add_from_chunks-IsStorable :
    (document : Document) (metadata : Chunk → Metadata) (s : Settings) (text : Text)
    (tokens : List Token) (source : Option Text) (cs : List Chunk) (table : List ChunkRecord)
    → IsChunking s text tokens source cs
    → (rows : List ChunkRecord) × ((add_from_chunks document metadata cs table).1 ≡ table ++ rows)
      × All (IsStorable document) rows
      × Positions 0 rows
      × ((add_from_chunks document metadata cs table).0.chunk_count ≡ length cs)
      × ((add_from_chunks document metadata cs table).0.token_count ≡ length tokens)
unfolding add_from_chunks
add_from_chunks-IsStorable document metadata s text tokens source cs table c =
    let overlap = s.chunk_overlap in
    let n = length tokens in
    (
      map (to_record document metadata) cs,
      refl,
      IsStorable-map document metadata text tokens source s.chunk_size overlap n 0 cs c.covers
          c.slices,
      Positions-map document metadata 0 cs c.numbered,
      length-map cs (to_record document metadata),
      omega (arith, max_token_end-Covers document metadata s.chunk_size overlap n 0 cs c.covers),
    )
