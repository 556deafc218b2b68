-- ===== src/Conversations/Examples.antt =====
-- A chat with a complete turn and a pending one (src/assistant/state/conversations.py).
use xone_assistant.Prelude.{String, ◌<◌, none, [], ◌≡◌, refl, All, length}
use xone_assistant.Sql.{row_count, order_by, update_where}
use xone_assistant.Conversations.{
  Block, ConversationTables, start_turn, complete_turn, append, load_recent, recent_turns,
}
use xone_assistant.Conversations.History.{shows, load_recent_complete}

abbrev empty : ConversationTables
empty = record { turns = []; last_turn = 0; blocks = []; last_block = 0 }

abbrev said : String → Block
said turn_id = record {
  chat_id = 7;
  turn_id = turn_id;
  role = "user";
  content_json = "[]";
  meta_json = none;
  block_type = "text";
}

abbrev first_turn : ConversationTables
first_turn = complete_turn 20 "t1" "{}" (append 11 (said "t1") (start_turn 10 7 "t1" empty).1).1

abbrev chat : ConversationTables
chat = (append 31 (said "t2") (start_turn 30 7 "t2" first_turn).1).1

shown_once : length (load_recent 7 20 chat) ≡ 1
unfolding load_recent recent_turns append start_turn complete_turn order_by row_count update_where
shown_once = refl

load_recent_complete_example :
    All (λ c. 0 < row_count (shows 7 c.turn_id) chat.turns) (load_recent 7 20 chat)
load_recent_complete_example = load_recent_complete 7 20 chat
