-- ===== src/Persistence/Jobs/Rows.antt =====
-- The row of a job, before and after an assignment.
use note_rag.Base.{ℕ, ◌≡◌, some}
use note_rag.Base.Table.{find-key, find-update_self}
use note_rag.Persistence.Models.{IngestionJob}
use note_rag.Persistence.Jobs.{Jobs, id, get, assign}

pub get-id : (k : ℕ) (jobs : Jobs) {job : IngestionJob} → get k jobs ≡ some job → job.id ≡ k
unfolding get
get-id k jobs h = find-key id k jobs h

pub get-assign_self :
    (k : ℕ) (f : IngestionJob → IngestionJob) (jobs : Jobs) {job : IngestionJob}
    → (f job).id ≡ job.id
    → get k jobs ≡ some job
    → get k (assign k f jobs) ≡ some (f job)
unfolding get assign
get-assign_self k f jobs keeps h = find-update_self id k f jobs keeps h
