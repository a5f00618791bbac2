-- ===== src/Persistence/Documents.antt =====
-- persistence/repositories.py: `DocumentRepository`.
use note_rag.Base.{ℕ, Bool, false, Option, none, some, List, [], ◌∷◌, ◌==◌, if◌then◌else◌}
use note_rag.Base.Table.{find, update}
use note_rag.Persistence.Models.{Document}

abbrev pub id : Document → ℕ
id d = d.id

unfoldable pub get : ℕ → List Document → Option Document
unfolding find
get document_id documents = find id document_id documents

unfoldable pub assign : ℕ → (Document → Document) → List Document → List Document
unfolding update
assign document_id f documents = update id document_id f documents

has_hash : ℕ → Option ℕ → Bool
has_hash h none = false
has_hash h (some g) = g == h

-- `content_hash` is unique, so there is one row at most.
unfoldable pub get_by_content_hash : ℕ → List Document → Option Document
unfolding has_hash
get_by_content_hash h [] = none
get_by_content_hash h (d ∷ ds) =
    if has_hash h d.content_hash then some d else get_by_content_hash h ds
