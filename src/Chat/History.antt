-- ===== src/Chat/History.antt =====
-- chat/service.py: `_load_history`, over the messages that persistence/repositories.py lists. The
-- conversation is there.
pub mod Recent
use mathlib.Core.List.{reverse}
use note_rag.Base.{ℕ, ◌+◌, ◌-◌, Bool, List, [], ◌∷◌, map, length, drop, ltb, ◌==◌, if◌then◌else◌}
use note_rag.Base.Sorting.{sort_by}
use note_rag.Chat.Models.{ChatMessageRecord, ChatTurn}

unfoldable pub of_conversation : ℕ → List ChatMessageRecord → List ChatMessageRecord
of_conversation k [] = []
of_conversation k (m ∷ ms) =
    let rest = of_conversation k ms in if m.conversation_id == k then m ∷ rest else rest

unfoldable pub list_for_conversation : ℕ → List ChatMessageRecord → List ChatMessageRecord
unfolding of_conversation sort_by
list_for_conversation k rows = sort_by (λ a b. ltb a.position b.position) (of_conversation k rows)

-- The loop, over the messages from the newest on
unfoldable pub select : ℕ → ℕ → List ChatMessageRecord → List ChatMessageRecord
select max_tokens used_tokens [] = []
select max_tokens used_tokens (m ∷ ms) =
    let rest = select max_tokens (used_tokens + m.token_count) ms in
    if ltb max_tokens (used_tokens + m.token_count) then [] else m ∷ rest

-- `messages[-max_messages:]`, and the loop between the two reversals
unfoldable pub selected : ℕ → ℕ → List ChatMessageRecord → List ChatMessageRecord
unfolding select
selected max_messages max_tokens messages =
    reverse (select max_tokens 0 (reverse (drop (length messages - max_messages) messages)))

unfoldable pub load_history : ℕ → ℕ → ℕ → List ChatMessageRecord → List ChatTurn
unfolding selected list_for_conversation
load_history max_messages max_tokens k rows =
    map (λ m. record { role = m.role; content = m.content })
      (selected max_messages max_tokens (list_for_conversation k rows))
