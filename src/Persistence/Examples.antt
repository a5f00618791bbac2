-- ===== src/Persistence/Examples.antt =====
-- The repositories on small tables.
use note_rag.Base.{
  ℕ, ◌≡◌, refl, Bool, true, none, some, List, [], ◌∷◌, ◌++◌, All, length, arith, leb, ◌==◌, ◌&&◌,
}
use note_rag.Base.Int.{pos}
use note_rag.Chunking.Tokens.{Text, CharClass, tokenize}
use note_rag.Chunking.Models.{Chunk, Settings, settings}
use note_rag.Chunking.Contract.{Chunks}
use note_rag.Chunking.Windows
use note_rag.Chunking.Windows.Sound.{chunk-Chunks}
use note_rag.Persistence.Models.{
  IngestionJob, Document, DocumentStatus, IndexingStatus, ChunkRecord, Metadata,
}
use note_rag.Persistence.Models.IngestionJobStatus.{queued}
use note_rag.Persistence.Jobs.{
  Jobs, get, eligible, first_eligible, start_claim, claim, claim_next, recover_stale,
  complete_claim,
}
use note_rag.Persistence.Jobs.Claims.{
  Claim, ClaimNext, claim-Claim, claim_next-ClaimNext, claim-IsTaken,
}
use note_rag.Persistence.Jobs.Stale.{IsStale, Recovered, recover_stale_lem}
use note_rag.Persistence.Jobs.Lifecycle.{IsValid, Step, Reach, Reach-IsValid}
use note_rag.Persistence.Chunks.{add_from_chunks}
use note_rag.Persistence.Chunks.Stored.{IsStorable, Positions, add_from_chunks-IsStorable}

abbrev fresh : ℕ → ℕ → IngestionJob
fresh id created_at = record {
  id = id;
  document_id = 7;
  status = queued;
  progress = 0;
  attempts = 0;
  error_message = none;
  started_at = none;
  finished_at = none;
  next_attempt_at = none;
  locked_at = none;
  worker_id = none;
  created_at = created_at;
}

abbrev two_jobs : Jobs
two_jobs = fresh 1 20 ∷ fresh 2 10 ∷ []

abbrev unlocked : ℕ → Bool
unlocked id = true

-- The older job is given out first.
next_of_two : (claim_next unlocked 5 100 two_jobs).0 ≡ some (start_claim 5 100 (fresh 2 10))
unfolding claim_next first_eligible
next_of_two = refl

claim-Claim_example : Claim unlocked 2 5 100 two_jobs (claim unlocked 2 5 100 two_jobs)
claim-Claim_example = claim-Claim unlocked 2 5 100 two_jobs

claim_next-ClaimNext_example :
    ClaimNext unlocked 5 100 two_jobs (claim_next unlocked 5 100 two_jobs)
claim_next-ClaimNext_example =
    claim_next-ClaimNext unlocked 5 100 two_jobs ((omega arith, tt), (tt, tt))

claim-IsTaken_example :
    claim unlocked 2 6 900 (claim unlocked 2 5 100 two_jobs).1
    ≡ (none, (claim unlocked 2 5 100 two_jobs).1)
unfolding claim get eligible start_claim
claim-IsTaken_example =
    claim-IsTaken unlocked 2 5 100 two_jobs (start_claim 5 100 (fresh 2 10)) refl unlocked 6 900

abbrev leased : Jobs
leased = start_claim 5 100 (fresh 2 10) ∷ start_claim 6 400 (fresh 3 11) ∷ fresh 1 20 ∷ []

one_is_stale : (recover_stale 300 600 leased).0 ≡ 1
unfolding recover_stale start_claim
one_is_stale = refl

recover_stale_example :
    Recovered 300 600 leased (recover_stale 300 600 leased).0 (recover_stale 300 600 leased).1
    × All (λ j. IsStale 300 j → ⊥) (recover_stale 300 600 leased).1
recover_stale_example = recover_stale_lem 300 600 leased

Reach-IsValid_example : IsValid (complete_claim 130 (start_claim 5 100 (fresh 1 20)))
unfolding eligible
Reach-IsValid_example =
    Reach-IsValid
      (Reach.next (Reach.next Reach.here (Step.claims unlocked 5 100 refl)) (Step.completes 130))
      (record { bounded = omega arith; unlocked = λ h. (refl, refl); finished = λ h. cc })

abbrev document : Document
document = record {
  id = 7;
  filename = b'a' ∷ [];
  media_type = "text/plain";
  storage_uri = some 1;
  content_hash = some 99;
  status = DocumentStatus.pending;
  token_count = 0;
  chunk_count = 0;
  error_message = none;
  indexing_status = IndexingStatus.pending;
  embedding_model = none;
  indexed_at = none;
  indexing_error = none;
}

abbrev letters : CharClass
letters = record { is_word = λ c. leb 97 c && leb c 122; is_space = λ c. c == 32 }

abbrev no_metadata : Chunk → Metadata
no_metadata c = []

abbrev sizes : Settings
sizes = record { chunk_size = 2; chunk_overlap = 1 }

-- `"ab c d"`
abbrev note : Text
note = 97 ∷ 98 ∷ 32 ∷ 99 ∷ 32 ∷ 100 ∷ []

note-Chunks : Chunks sizes note (tokenize letters note) none (Windows.chunk letters sizes note none)
unfolding settings
note-Chunks = chunk-Chunks letters (pos 2) (pos 1) sizes note none refl

abbrev chunks_of_note : List Chunk
chunks_of_note = note-Chunks.0

add_from_chunks_example :
    (rows : List ChunkRecord) × ((add_from_chunks document no_metadata chunks_of_note []).1
      ≡ [] ++ rows)
    × All (IsStorable document) rows
    × Positions 0 rows
    × ((add_from_chunks document no_metadata chunks_of_note []).0.chunk_count
        ≡ length chunks_of_note)
    × ((add_from_chunks document no_metadata chunks_of_note []).0.token_count
        ≡ length (tokenize letters note))
add_from_chunks_example =
    add_from_chunks-IsStorable document no_metadata sizes note (tokenize letters note) none
      chunks_of_note [] note-Chunks.2
