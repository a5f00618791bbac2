-- ===== src/Persistence/Topics/Examples.antt =====
-- Two topics at the root and one below the first.
use note_rag.Base.{
  Bool, true, false, ℕ, ◌≡◌, ◌≢◌, ◌⊎◌, ◌<◌, refl, subst, Option, none, some, [], ◌∷◌, All, ◌==◌,
  arith, Bool-cases, inl, inr,
}
use note_rag.Base.Filters.{filter, insert_at}
use note_rag.Base.Int.{pos}
use note_rag.Base.Result.{Result, ok, raise}
use note_rag.Base.Table.{find, Unique}
use note_rag.Persistence.Topics.{
  Topic, Topics, TopicState, TopicError, ParentArgument, topic_id, get, set_position, add,
  update_topic, delete,
}
use note_rag.Persistence.Topics.Added.{Added, add-Added}
use note_rag.Persistence.Topics.Updated.{Updated}
use note_rag.Persistence.Topics.Deleted.{IsDeleted, delete-IsDeleted}
use note_rag.Persistence.Topics.Hierarchy.{parent_in, Rooted, height, IsForest}

abbrev topic : ℕ → Option ℕ → ℕ → Topic
topic id parent_id position = record {
  id = id;
  course_id = 9;
  parent_id = parent_id;
  title = 65 ∷ [];
  description = [];
  position = position;
  state = TopicState.draft;
}

abbrev mechanics : Topic
mechanics = topic 1 none 0

abbrev optics : Topic
optics = topic 2 none 1

abbrev motion : Topic
motion = topic 3 (some 1) 0

abbrev topics : Topics
topics = mechanics ∷ optics ∷ motion ∷ []

topics-Unique : Unique topic_id topics
topics-Unique = (
  ((λ e. absurd (omega (arith, e))), ((λ e. absurd (omega (arith, e))), tt)),
  (((λ e. absurd (omega (arith, e))), tt), (tt, tt)),
)

mechanics-found : get 1 topics ≡ some mechanics
unfolding get
mechanics-found = refl

waves-fresh : All (λ q. topic_id q ≢ 4) topics
waves-fresh = (
  (λ e. absurd (omega (arith, e))),
  ((λ e. absurd (omega (arith, e))), ((λ e. absurd (omega (arith, e))), tt)),
)

add-Added_example :
    Added topics topics-Unique
      (topic 4 none 0)
      waves-fresh
      3
      9
      none
      (some (pos 1))
      (add 3 9 none (some (pos 1)) (topic 4 none 0) topics)
add-Added_example =
    add-Added topics topics-Unique (topic 4 none 0) waves-fresh 3 9 none (some (pos 1))

in_rows :
    (r : Topic) (rows : Topics) (k : ℕ) (p : Option ℕ)
    → parent_in (r ∷ rows) k ≡ some p
    → (r.parent_id ≡ p) ⊎ (parent_in rows k ≡ some p)
unfolding get find
in_rows r rows k p e = elim (Bool-cases (r.id == k)) [
  | inl here ↦ let e' : some r.parent_id ≡ some p = rw here at e in inl (cc)
  | inr there ↦ inr (rw there at e)
]

topics-IsForest : IsForest 2 topics
unfolding get
topics-IsForest k p e = elim (in_rows mechanics (optics ∷ motion ∷ []) k p e) [
  | inl top ↦ subst Short top (Rooted.root, omega arith)
  | inr e' ↦ elim (in_rows optics (motion ∷ []) k p e') [
    | inl top ↦ subst Short top (Rooted.root, omega arith)
    | inr e'' ↦ elim (in_rows motion [] k p e'') [
      | inl under ↦ subst Short under (Rooted.below 1 none refl Rooted.root, omega arith)
      | inr none' ↦ cc
    ]
  ]
]
  where
    Short : Option ℕ → Type 0
    Short q = (r : Rooted (parent_in topics) q) × (height r < 2)

delete-IsDeleted_example : IsDeleted topics mechanics (delete 3 mechanics topics)
delete-IsDeleted_example =
    delete-IsDeleted 2 topics topics-IsForest topics-Unique mechanics mechanics-found

-- The first topic goes with the one below it, and the second moves up.
after_delete : delete 3 mechanics topics ≡ topic 2 none 0 ∷ []
unfolding delete filter set_position
after_delete = refl

abbrev forces : Topic
forces = topic 4 (some 1) 1

abbrev nested : Topics
nested = forces ∷ topics

-- The first of two topics below another cannot be moved to the end: the other is flushed to its place first.
nested_move :
    update_topic 3 motion none none none ParentArgument.same (some (pos 1)) nested
    ≡ raise TopicError.not_unique
unfolding update_topic filter set_position
nested_move = refl

-- Nor can the last be moved to the front, whose place is taken until the other is written, which cannot be.
nested_move_last :
    update_topic 3 forces none none none ParentArgument.same (some (pos 0)) nested
    ≡ raise TopicError.not_unique
unfolding update_topic filter set_position insert_at
nested_move_last = refl

abbrev is_ok : Result TopicError Topics → Bool
is_ok (ok rows) = true
is_ok (raise e) = false

-- But it can be moved to another topic.
nested_move_away :
    is_ok (update_topic 3 forces none none none (ParentArgument.to (some optics)) none nested)
    ≡ true
unfolding update_topic filter set_position insert_at
nested_move_away = refl
