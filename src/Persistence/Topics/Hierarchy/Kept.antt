-- ===== src/Persistence/Topics/Hierarchy/Kept.antt =====
-- persistence/repositories.py: `update` makes no cycle, and its walk ends.
use note_rag.Base.{ℕ, ◌+◌, ◌≡◌, false, Option, some}
use note_rag.Base.Int.{ℤ}
use note_rag.Base.Result.{Result, ok, raise}
use note_rag.Base.Table.{Unique}
use note_rag.Chunking.Tokens.{Text}
use note_rag.Persistence.Topics.{
  Topic, Topics, TopicState, TopicError, ParentArgument, topic_id, get, validate_parent, id_of,
  new_parent,
}
use note_rag.Persistence.Topics.Moved.{closed, family}
use note_rag.Persistence.Topics.Updated.{named, renamed, renamed-Unique, renamed-found}
use note_rag.Persistence.Topics.Hierarchy.{IsForest}
use note_rag.Persistence.Topics.Hierarchy.Parents.{is_fuel, IsRow}

-- What an operation gives back: no walk without an end, and no cycle.
abbrev pub KeepsForest : ℕ → Result TopicError Topics → Type 0
KeepsForest fuel (raise e) = is_fuel e ≡ false
KeepsForest fuel (ok rows') = IsForest (fuel + fuel) rows'

module _ (fuel : ℕ) (rows : Topics) (forest : IsForest fuel rows) (t : Topic)
    (found : get t.id rows ≡ some t) where
  module _ (u : Unique topic_id rows) (title description : Option Text) (state : Option TopicState)
      (argument : ParentArgument) (position : Option ℤ)
      (row : IsRow rows (new_parent argument t rows)) where
    abbrev subject : Topic
    subject = named rows u t found title description state

    abbrev table : Topics
    table = renamed rows u t found title description state

    abbrev target : Option ℕ
    target = id_of (new_parent argument t rows)

    abbrev checked : Result TopicError (Unit {0})
    checked = validate_parent fuel rows t.course_id (new_parent argument t rows) (some t.id)

    table-Unique : Unique topic_id table
    table-Unique = renamed-Unique rows u t found title description state

    table-found : get subject.id table ≡ some subject
    table-found = renamed-found rows u t found title description state

    abbrev closed_table : Topics
    closed_table = closed table table-Unique subject table-found target

    abbrev new_family : Topics
    new_family = family table table-Unique subject table-found target
