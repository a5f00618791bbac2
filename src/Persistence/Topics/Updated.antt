-- ===== src/Persistence/Topics/Updated.antt =====
-- persistence/repositories.py: `TopicRepository.update`.
use note_rag.Base.{ℕ, ◌≡◌, ◌⊎◌, refl, true, false, Option, some, length}
use note_rag.Base.Int.{ℤ}
use note_rag.Base.Result.{Result, ok, raise}
use note_rag.Base.Table.{update, Unique, Unique-update, find-update_self}
use note_rag.Chunking.Tokens.{Text}
use note_rag.Persistence.Topics.{
  Topic, Topics, TopicState, TopicError, ParentArgument, topic_id, get, siblings, validate_parent,
  id_of, new_parent, is_moved, set_fields, resolve,
}
use note_rag.Persistence.Topics.Moved.{IsMoved, IsClosed, Refuses, Moved}
use note_rag.Persistence.Topics.Flushed.{IsAccepted}

module _ (rows : Topics) (u : Unique topic_id rows) (t : Topic) (found : get t.id rows ≡ some t)
    (title description : Option Text) (state : Option TopicState) where
  abbrev pub named : Topic
  named = set_fields title description state t

  abbrev pub renamed : Topics
  renamed = update topic_id t.id (set_fields title description state) rows

  pub renamed-found : get named.id renamed ≡ some named
  unfolding get set_fields
  renamed-found =
      find-update_self topic_id t.id (set_fields title description state) rows refl found

  pub renamed-Unique : Unique topic_id renamed
  unfolding set_fields
  renamed-Unique =
      Unique-update topic_id t.id (set_fields title description state) (λ r. refl) rows u

  module _ (fuel : ℕ) (argument : ParentArgument) (position : Option ℤ) where
    abbrev pub parent : Option ℕ
    parent = id_of (new_parent argument t rows)

    abbrev pub validated : Result TopicError (Unit {0})
    validated = validate_parent fuel rows t.course_id (new_parent argument t rows) (some t.id)

    abbrev pub count : ℕ
    count = length (siblings t.course_id parent (some t.id) rows)

    -- What `update` comes back with.
    abbrev pub Updated : Result TopicError Topics → Type 0
    Updated (raise e) =
        (validated ≡ raise e)
        ⊎ ((is_moved parent t.parent_id position ≡ true) × Refuses renamed named parent position e)
    Updated (ok rows') =
        (validated ≡ ok tt)
        × (((is_moved parent t.parent_id position ≡ false) × (rows' ≡ renamed))
            ⊎ ((n : ℕ) × (is_moved parent t.parent_id position ≡ true)
                × (resolve count position ≡ ok n)
                × IsMoved rows named parent n rows'
                × ((mid : Topics) × IsClosed renamed named mid
                    × IsAccepted renamed mid
                    × IsAccepted mid rows')))
