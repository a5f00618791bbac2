-- ===== src/Chat/Examples.antt =====
-- A history of four messages, of which three are looked at and two have room, and a question whose answer
-- cites the second of two chunks.
use note_rag.Base.{
  ℕ, ◌+◌, ◌-◌, ◌≡◌, refl, false, ◌&&◌, ◌||◌, Option, none, some, List, [], ◌∷◌, map, drop, leb,
  ◌==◌, if◌then◌else◌,
}
use note_rag.Base.Result.{Result, ok, raise}
use note_rag.Chunking.Tokens.{Text, CharClass}
use note_rag.Context.Budget.{codes}
use note_rag.Context.Models.{SearchMode, ContextChunk, ContextPackage}
use note_rag.Chat.Models.{
  ChatRole, Citation, Conversation, ChatMessageRecord, ChatDb, ChatResult, ChatError,
}
use note_rag.Chat.Citations.{extract_citations}
use note_rag.Chat.Citations.Cited.{IsExtracted, extract_citations-IsExtracted}
use note_rag.Chat.History.{selected, list_for_conversation}
use note_rag.Chat.History.Recent.{IsRecent, selected-IsRecent}
use note_rag.Chat.Service.{ChatService, NewRows, ask}
use note_rag.Chat.Service.Answered.{IsAsked, ask-IsAsked}
use note_rag.Chat.Stream.{join, stream}
use note_rag.Chat.Stream.Alike.{IsConsistent, IsLike, stream-IsLike}

abbrev message : ℕ → ChatRole → ℕ → ChatMessageRecord
message position role token_count = record {
  id = position;
  conversation_id = 1;
  position = position;
  role = role;
  content = 65 ∷ [];
  citations = [];
  token_count = token_count;
  context_token_count = 0;
  model_name = none;
}

abbrev messages : List ChatMessageRecord
messages =
    message 0 ChatRole.user 4
    ∷ message 1 ChatRole.assistant 7
    ∷ message 2 ChatRole.user 5
    ∷ message 3 ChatRole.assistant 4
    ∷ []

last_two : selected 3 10 messages ≡ drop 2 messages
unfolding selected
last_two = refl

selected-IsRecent_example : IsRecent 3 10 messages (selected 3 10 messages)
selected-IsRecent_example = selected-IsRecent 3 10 messages

abbrev chars : CharClass
chars = record {
  is_word = λ c. leb 48 c && leb c 57 || leb 97 c && leb c 122;
  is_space = λ c. c == 32 || leb 9 c && leb c 13;
}

abbrev decimal : ℕ → Option ℕ
decimal c = if leb 48 c && leb c 57 then some (c - 48) else none

abbrev chunk : ℕ → Text → ContextChunk
chunk n text = record {
  citation_id = n;
  chunk_id = n + 40;
  document_id = 5;
  filename = codes "a.md";
  media_type = codes "text";
  position = n;
  text = text;
  token_count = 1;
  source_metadata = [];
  retrieval_score = 0;
  rerank_score = none;
  score = 0;
  truncated = false;
}

abbrev context : ContextPackage
context = record {
  query = codes "why";
  mode = SearchMode.hybrid;
  context = codes "[1] x [2] y";
  chunks = chunk 1 (codes "x") ∷ chunk 2 (codes "y") ∷ [];
  token_count = 8;
  token_budget = 10;
  candidates_considered = 2;
  duplicates_removed = 0;
  truncated = false;
  reranker_model = none;
}

abbrev pieces : List Text
pieces = codes " so " ∷ [] ∷ codes "[2][9] [2]" ∷ []

abbrev service : ChatService
service = record {
  chars = chars;
  decimal = decimal;
  max_digits = 4300;
  build = λ question. ok context;
  system_prompt = codes "cite";
  model_name = codes "m";
  generate = λ prompt turns. ok (codes " so [2][9] [2]");
  stream_pieces = λ prompt turns. (pieces, none);
  history_max_messages = 3;
  history_max_tokens = 10;
}

abbrev new : NewRows
new = record { conversation = 1; question = 11; answer = 12; asked_at = 7; answered_at = 8 }

abbrev conversation : Conversation
conversation = record { id = 1; title = codes "t"; updated_at = 3 }

abbrev db : ChatDb
db = record { conversations = conversation ∷ []; messages = messages }

abbrev cited_ids : Result ChatError ChatResult × ChatDb → List ℕ
cited_ids (ok r, db') = map (λ (c : Citation). c.citation_id) r.citations
cited_ids (raise e, db') = []

-- The number 2 stands there twice, and no chunk has the number 9.
cites_second : cited_ids (ask service new (codes "why?") (some 1) db) ≡ 2 ∷ []
unfolding ask
cites_second = refl

added_positions :
    map
      (λ (m : ChatMessageRecord). m.position)
      (list_for_conversation 1 (ask service new (codes "why?") (some 1) db).1.messages)
    ≡ 0 ∷ 1 ∷ 2 ∷ 3 ∷ 4 ∷ 5 ∷ []
unfolding ask list_for_conversation
added_positions = refl

extract_citations-IsExtracted_example :
    IsExtracted decimal 4300
      (codes "so [2][9] [2]")
      context
      (extract_citations decimal 4300 (codes "so [2][9] [2]") context)
extract_citations-IsExtracted_example =
    extract_citations-IsExtracted decimal 4300 (codes "so [2][9] [2]") context refl

ask-IsAsked_example :
    IsAsked service new (codes "why?") (some 1) db (ask service new (codes "why?") (some 1) db)
ask-IsAsked_example = ask-IsAsked service new (codes "why?") (some 1) db refl

service-IsConsistent : IsConsistent service
unfolding join
service-IsConsistent prompt turns = refl

stream-IsLike_example :
    IsLike service
      (ask service new (codes "why?") (some 1) db)
      (stream service new (codes "why?") (some 1) db)
stream-IsLike_example = stream-IsLike service new (codes "why?") (some 1) db service-IsConsistent
