-- ===== src/Chat/Messages.antt =====
-- persistence/repositories.py: `ConversationRepository` and `ChatMessageRepository`, over the tables of the
-- chat.
pub mod Appended
use note_rag.Base.{ℕ, suc, max, Option, none, some, List, [], ◌∷◌, ◌==◌, if◌then◌else◌}
use note_rag.Base.Table.{find, update}
use note_rag.Chat.Models.{Conversation, ChatMessageRecord, ChatDb}

abbrev pub conversation_key : Conversation → ℕ
conversation_key c = c.id

unfoldable pub get_conversation : ℕ → ChatDb → Option Conversation
unfolding find
get_conversation k db = find conversation_key k db.conversations

unfoldable pub add_conversation : Conversation → ChatDb → ChatDb
add_conversation conversation db = record db { conversations = conversation ∷ db.conversations }

unfoldable pub or_max : ℕ → Option ℕ → Option ℕ
or_max p none = some p
or_max p (some q) = some (max p q)

-- `func.max` of the positions
unfoldable pub last_position : ℕ → List ChatMessageRecord → Option ℕ
unfolding or_max
last_position k [] = none
last_position k (m ∷ ms) =
    let rest = last_position k ms in if m.conversation_id == k then or_max m.position rest else rest

unfoldable pub next_position : Option ℕ → ℕ
next_position none = 0
next_position (some p) = suc p

unfoldable pub touch : ℕ → Conversation → Conversation
touch now c = record c { updated_at = now }

-- `message` has the arguments and the id of the new row.
unfoldable pub placed : ChatMessageRecord → ChatDb → ChatMessageRecord
unfolding last_position next_position
placed message db = record message {
  position = next_position (last_position message.conversation_id db.messages);
}

unfoldable pub add_message : ℕ → ChatMessageRecord → ChatDb → ChatDb
unfolding placed touch update
add_message now message db = record {
  conversations = update conversation_key message.conversation_id (touch now) db.conversations;
  messages = placed message db ∷ db.messages;
}
