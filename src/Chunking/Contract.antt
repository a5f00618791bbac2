-- ===== src/Chunking/Contract.antt =====
-- The contract of both chunkers, and how it follows from the ranges.
use note_rag.Base.{arith, ◌<◌, ◌≡◌, Option, List, map, length, All, subst, sym}
use note_rag.Base.Int.{ℤ, pos, negsuc}
use note_rag.Base.Result.{Result, ok}
use note_rag.Chunking.Tokens.{Text, Token, Ordered}
use note_rag.Chunking.Models.{Error, Chunk, Settings, settings}
use note_rag.Chunking.Cover.{Range, Covers, Covers-Fits}
use note_rag.Chunking.Build.{build}
use note_rag.Chunking.Build.Sound.{token_range, IsNumbered, IsSlice, build-ok}

-- What `__init__` lets pass.
abbrev pub IsAllowed : Settings → Type 0
IsAllowed s = s.chunk_overlap < s.chunk_size

pub settings-IsAllowed :
    (size overlap : ℤ) (s : Settings) → settings size overlap ≡ ok s → IsAllowed s
unfolding settings
settings-IsAllowed (pos size) (pos overlap) s h = ground arith
settings-IsAllowed (pos size) (negsuc overlap) s h = ground arith
settings-IsAllowed (negsuc size) overlap s h = ground arith

pub record IsChunking (s : Settings) (text : Text) (tokens : List Token) (source_id : Option Text)
    (cs : List Chunk) : Type 0 where
  pub covers : Covers s.chunk_size s.chunk_overlap (length tokens) 0 (map token_range cs)
  pub numbered : IsNumbered 0 cs
  pub slices : All (IsSlice text tokens source_id) cs

abbrev pub Chunks : Settings → Text → List Token → Option Text → Result Error (List Chunk) → Type 0
Chunks s text tokens source_id r =
    (cs : List Chunk) × (r ≡ ok cs) × IsChunking s text tokens source_id cs

pub build-Chunks :
    (s : Settings) (text : Text) (tokens : List Token) (source_id : Option Text) (rs : List Range)
    → Ordered 0 (length text) tokens
    → Covers s.chunk_size s.chunk_overlap (length tokens) 0 rs
    → Chunks s text tokens source_id (build text tokens source_id 0 rs)
build-Chunks s text tokens source_id rs ordered covers =
    let (cs, built, ranged, numbered, sound) =
      build-ok text tokens source_id ordered 0 rs (Covers-Fits _ _ _ 0 rs covers) in
    (
      cs,
      built,
      record {
        covers = subst (Covers s.chunk_size s.chunk_overlap (length tokens) 0) (sym ranged) covers;
        numbered = numbered;
        slices = sound;
      },
    )
