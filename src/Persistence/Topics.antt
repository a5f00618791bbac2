-- ===== src/Persistence/Topics.antt =====
-- persistence/repositories.py: `TopicRepository`, over the table of topics. The object of a topic is its
-- row. The walk from a topic to the root is on fuel, since it has no end where the hierarchy has a
-- cycle that the topic is not on.
pub mod Numbered
mod Examples
pub mod Families
pub mod Rows
pub mod Shifted
pub mod Added
pub mod Deleted
pub mod Hierarchy
pub mod Flushed
pub mod Moved
pub mod Updated
use note_rag.Base.{
  ℕ, zero, suc, ◌+◌, Bool, true, false, not, ◌&&◌, ◌||◌, Option, none, some, List, [], ◌∷◌, drop,
  length, String, ltb, leb, ◌==◌, if◌then◌else◌,
}
use note_rag.Base.Filters.{filter, insert_at}
use note_rag.Base.Int.{ℤ, pos, negsuc}
use note_rag.Base.Result.{Result, ok, raise, raise_if, ◌>>=◌, ◌>>◌}
use note_rag.Base.Sorting.{sort_by}
use note_rag.Base.Table.{find, update}
use note_rag.Chunking.Tokens.{Text}

pub data TopicState : Type 0 where
  draft approved : TopicState

pub record Topic : Type 0 where
  pub id : ℕ
  pub course_id : ℕ
  pub parent_id : Option ℕ
  pub title : Text
  pub description : Text
  pub position : ℕ
  pub state : TopicState

abbrev pub Topics : Type 0
Topics = List Topic

abbrev pub topic_id : Topic → ℕ
topic_id t = t.id

-- The `ValueError`s, the `IntegrityError` of a flush, and a walk that runs out of fuel.
pub data TopicError : Type 0 where
  foreign_parent cycle position_outside source_outside not_unique out_of_fuel : TopicError

unfoldable pub get : ℕ → Topics → Option Topic
unfolding find
get k topics = find topic_id k topics

unfoldable pub same_parent : Option ℕ → Option ℕ → Bool
same_parent none none = true
same_parent none (some q) = false
same_parent (some p) none = false
same_parent (some p) (some q) = p == q

unfoldable pub is_sibling : ℕ → Option ℕ → Topic → Bool
unfolding same_parent
is_sibling course_id parent_id t = t.course_id == course_id && same_parent t.parent_id parent_id

-- `Topic.id != exclude`
unfoldable pub is_kept : Option ℕ → Topic → Bool
is_kept none t = true
is_kept (some k) t = not (t.id == k)

-- `ORDER BY position, id`
unfoldable pub before : Topic → Topic → Bool
before a b = ltb a.position b.position || a.position == b.position && ltb a.id b.id

-- `_siblings`
unfoldable pub siblings : ℕ → Option ℕ → Option ℕ → Topics → Topics
unfolding sort_by before is_sibling is_kept
siblings course_id parent_id exclude topics =
    sort_by before (filter (λ t. is_sibling course_id parent_id t && is_kept exclude t) topics)

unfoldable pub set_position : ℕ → Topic → Topic
set_position position t = record t { position = position }

-- `_shift`, which begins with the last
unfoldable pub shift : Topics → ℕ → Topics → Topics
unfolding update
shift [] amount topics = topics
shift (t ∷ ts) amount topics =
    update topic_id t.id (λ r. set_position (r.position + amount) r) (shift ts amount topics)

-- `_renumber`, with the position that the first is given
unfoldable pub renumber : ℕ → Topics → Topics → Topics
unfolding update
renumber position [] topics = topics
renumber position (t ∷ ts) topics =
    renumber (suc position) ts (update topic_id t.id (set_position position) topics)

-- `topic.parent`
unfoldable pub parent_of : Topic → Topics → Option Topic
unfolding get
parent_of t topics = elim t.parent_id [ none ↦ none | some p ↦ get p topics ]

unfoldable pub is_topic : Option ℕ → ℕ → Bool
is_topic none k = false
is_topic (some j) k = k == j

-- The loop of `_validate_parent`
unfoldable pub walk : ℕ → Topics → Option ℕ → Option Topic → Result TopicError (Unit {0})
unfolding is_topic parent_of
walk fuel topics topic none = ok tt
walk zero topics topic (some current) = raise TopicError.out_of_fuel
walk (suc fuel) topics topic (some current) =
    let rest = walk fuel topics topic (parent_of current topics) in
    if is_topic topic current.id then raise TopicError.cycle else rest

-- `_validate_parent`
unfoldable pub validate_parent :
    ℕ → Topics → ℕ → Option Topic → Option ℕ → Result TopicError (Unit {0})
unfolding walk
validate_parent fuel topics course_id none topic = ok tt
validate_parent fuel topics course_id (some parent) topic =
    if parent.course_id == course_id
    then walk fuel topics topic (some parent)
    else raise TopicError.foreign_parent

-- `resolved_position`, with its check
unfoldable pub resolve : ℕ → Option ℤ → Result TopicError ℕ
resolve count none = ok count
resolve count (some (pos n)) = if leb n count then ok n else raise TopicError.position_outside
resolve count (some (negsuc n)) = raise TopicError.position_outside

abbrev pub id_of : Option Topic → Option ℕ
id_of none = none
id_of (some t) = some t.id

-- `topic` has the arguments and the id of the new row.
unfoldable pub insert_topic : Topic → ℕ → Topics → Topics → Topic × Topics
unfolding shift set_position
insert_topic topic position siblings topics =
    let new : Topic = set_position position topic in
    (new, new ∷ shift (drop position siblings) 1 topics)

unfoldable pub add :
    ℕ → ℕ → Option Topic → Option ℤ → Topic → Topics → Result TopicError (Topic × Topics)
unfolding validate_parent resolve insert_topic siblings
add fuel course_id parent position topic topics =
    let family = siblings course_id (id_of parent) none topics in
    do
      validate_parent fuel topics course_id parent none
      resolved ← resolve (length family) position
      ok (
          insert_topic (record topic { course_id = course_id; parent_id = id_of parent }) resolved
            family topics)

-- The argument `parent` of `update`, which is `...` unless it is given.
pub data ParentArgument : Type 0 where
  same : ParentArgument
  to : Option Topic → ParentArgument

unfoldable pub set_fields : Option Text → Option Text → Option TopicState → Topic → Topic
set_fields title description state t = record t {
  title = elim title [ none ↦ t.title | some x ↦ x ];
  description = elim description [ none ↦ t.description | some x ↦ x ];
  state = elim state [ none ↦ t.state | some x ↦ x ];
}

unfoldable pub new_parent : ParentArgument → Topic → Topics → Option Topic
unfolding parent_of
new_parent same t topics = parent_of t topics
new_parent (to parent) t topics = parent

unfoldable pub set_parent : Option ℕ → Topic → Topic
set_parent parent_id t = record t { parent_id = parent_id }

-- `new_parent_id != old_parent_id or position is not None`
unfoldable pub is_moved : Option ℕ → Option ℕ → Option ℤ → Bool
unfolding same_parent
is_moved new_parent_id old_parent_id none = not (same_parent new_parent_id old_parent_id)
is_moved new_parent_id old_parent_id (some position) = true

-- `topic.parent = new_parent` and what follows it: `family` are the new siblings.
unfoldable pub place : Topic → Option ℕ → ℕ → Topics → Topics → Topics
unfolding set_parent renumber update
place topic parent_id position family topics =
    renumber 0 (insert_at position (set_parent parent_id topic) family)
      (update topic_id topic.id (set_parent parent_id) topics)

unfoldable pub below_same : Option ℕ → Option ℕ → Bool
below_same none q = false
below_same (some p) none = false
below_same (some p) (some q) = p == q

unfoldable pub clash : Topic → Topic → Bool
unfolding below_same
clash a b =
    a.course_id == b.course_id && below_same a.parent_id b.parent_id && a.position == b.position

unfoldable pub clashes : Topic → Topics → Bool
unfolding clash
clashes t [] = false
clashes t (r ∷ rows) = clash t r || clashes t rows

-- Two rows break `uq_topics_sibling_position`, which passes rows without a parent.
unfoldable pub has_clash : Topics → Bool
unfolding clashes
has_clash [] = false
has_clash (t ∷ rows) = clashes t rows || has_clash rows

-- The table as a flush has written the rows up to this id: `UPDATE` statements go by primary key. A row that
-- the session has not changed is written as it is, which changes nothing.
unfoldable pub written : ℕ → Topics → Topics → Topics
written k [] rows' = []
written k (r ∷ rows) [] = r ∷ rows
written k (r ∷ rows) (r' ∷ rows') = (if leb r'.id k then r' else r) ∷ written k rows rows'

unfoldable pub any_clash : Topics → Topics → Topics → Bool
unfolding written has_clash
any_clash rows rows' [] = false
any_clash rows rows' (r ∷ rs) = has_clash (written r.id rows rows') || any_clash rows rows' rs

-- A flush of the rows of the session to the table, which checks the constraint after each statement. The
-- table has no row that the session has not, and meets the constraint before.
unfoldable pub flush : Topics → Topics → Result TopicError (Unit {0})
unfolding any_clash
flush rows rows' = raise_if (any_clash rows rows' rows') TopicError.not_unique

unfoldable pub flushed : Topics → Topics → Result TopicError Topics
unfolding flush
flushed rows rows' = flush rows rows' >> ok rows'

-- The block under the last `if` of `update`. The second query of siblings flushes the rows that are numbered
-- anew, while the topic keeps its place, and the end of `update` flushes the rest.
unfoldable pub move : Topic → Option ℕ → Option ℤ → Topics → Result TopicError Topics
unfolding siblings renumber resolve place flush flushed
move topic parent_id position topics =
    let old = siblings topic.course_id topic.parent_id (some topic.id) topics in
    let closed = renumber 0 old topics in
    let family = siblings topic.course_id parent_id (some topic.id) closed in
    do
      flush topics closed
      resolved ← resolve (length family) position
      flushed closed (place topic parent_id resolved family closed)

unfoldable pub move_if : Bool → Topic → Option ℕ → Option ℤ → Topics → Result TopicError Topics
unfolding move
move_if true topic parent_id position topics = move topic parent_id position topics
move_if false topic parent_id position topics = ok topics

unfoldable pub update_topic :
    ℕ
    → Topic
    → Option Text
    → Option Text
    → Option TopicState
    → ParentArgument
    → Option ℤ
    → Topics
    → Result TopicError Topics
unfolding new_parent validate_parent set_fields is_moved move_if
update_topic fuel topic title description state parent position topics =
    let parent' = new_parent parent topic topics in
    let named = set_fields title description state topic in
    let topics' = update topic_id topic.id (set_fields title description state) topics in
    do
      validate_parent fuel topics topic.course_id parent' (some topic.id)
      move_if (is_moved (id_of parent') topic.parent_id position) named (id_of parent') position
          topics'

-- The topic or one above it, up to the root, is the one with this id.
unfoldable pub is_below : ℕ → Topics → ℕ → Option Topic → Bool
unfolding parent_of
is_below fuel topics k none = false
is_below zero topics k (some t) = false
is_below (suc fuel) topics k (some t) =
    let rest = is_below fuel topics k (parent_of t topics) in t.id == k || rest

-- `delete`, with the children of the row and theirs, to which it cascades.
unfoldable pub delete : ℕ → Topic → Topics → Topics
unfolding is_below siblings renumber
delete fuel topic topics =
    renumber 0 (siblings topic.course_id topic.parent_id (some topic.id) topics)
      (filter (λ t. not (is_below fuel topics topic.id (some t))) topics)

-- `course_documents`: the links of courses to documents.
abbrev pub Links : Type 0
Links = List (ℕ × ℕ)

-- `session.get(CourseDocument, (course_id, document_id))`
unfoldable pub is_linked : ℕ → ℕ → Links → Bool
is_linked course_id document_id [] = false
is_linked course_id document_id ((c, d) ∷ links) =
    c == course_id && d == document_id || is_linked course_id document_id links

unfoldable pub attach_document : ℕ → ℕ → Links → Links
unfolding is_linked
attach_document course_id document_id links =
    if is_linked course_id document_id links then links else (course_id, document_id) ∷ links

unfoldable pub detach_document : ℕ → ℕ → Links → Bool × Links
unfolding is_linked filter
detach_document course_id document_id links =
    if is_linked course_id document_id links
    then (true, filter (λ (c, d). not (c == course_id && d == document_id)) links)
    else (false, links)

-- `add_source`, where a source is the ids of its topic and its chunk.
unfoldable pub add_source : Links → Topic → ℕ → ℕ → List (ℕ × ℕ) → Result TopicError (List (ℕ × ℕ))
unfolding is_linked
add_source links topic document_id chunk_id sources =
    if is_linked topic.course_id document_id links
    then ok
        (if is_linked topic.id chunk_id sources then sources else (topic.id, chunk_id) ∷ sources)
    else raise TopicError.source_outside
