-- ===== src/Conversations.antt =====
-- The store of conversations: src/assistant/state/conversations.py, on the tables of the second
-- migration in src/assistant/state/db.py. The JSON of a row is its text. A turn's id comes from
-- uuid4 and is an argument.
pub mod History
pub mod Envelope
mod Examples
use xone_assistant.Prelude.{
  ℕ, ◌+◌, String, Bool, true, false, ◌&&◌, Option, none, some, List, [], ◌∷◌, ◌++◌, ◌==◌, ltb,
  if◌then◌else◌, keep, any, take, Result, ok, raise, integrity_error, str_eq,
}
use mathlib.Core.List.{reverse}
use xone_assistant.Sql.{update_where, row_count, order_by}

pub data TurnStatus : Type 0 where
  pending complete interrupted : TurnStatus

abbrev pub is_pending : TurnStatus → Bool
is_pending pending = true
is_pending _ = false

abbrev pub is_complete : TurnStatus → Bool
is_complete complete = true
is_complete _ = false

pub record TurnRow : Type 0 where
  pub id : ℕ
  pub chat_id : ℕ
  pub turn_id : String
  pub status : TurnStatus
  pub created_at : ℕ
  pub completed_at : Option ℕ
  pub meta_json : Option String

pub record BlockRow : Type 0 where
  pub id : ℕ
  pub chat_id : ℕ
  pub turn_id : String
  pub role : String
  pub content_json : String
  pub meta_json : Option String
  pub created_at : ℕ
  pub block_type : String

pub record ConversationTables : Type 0 where
  pub turns : List TurnRow
  pub last_turn : ℕ
  pub blocks : List BlockRow
  pub last_block : ℕ

abbrev pub turn_has : String → TurnRow → Bool
turn_has turn_id t = str_eq t.turn_id turn_id

abbrev pub new_turn : ℕ → ℕ → String → ℕ → TurnRow
new_turn now chat_id turn_id i = record {
  id = i;
  chat_id = chat_id;
  turn_id = turn_id;
  status = pending;
  created_at = now;
  completed_at = none;
  meta_json = none;
}

-- The id is UNIQUE.
unfoldable pub start_turn : ℕ → ℕ → String → ConversationTables → Result String × ConversationTables
unfolding row_count
start_turn now chat_id turn_id db =
    let i = db.last_turn + 1 in
    if ltb 0 (row_count (turn_has turn_id) db.turns) then (raise integrity_error, db) else (
      ok turn_id,
      record db { turns = db.turns ++ new_turn now chat_id turn_id i ∷ []; last_turn = i },
    )

abbrev pub finish : ℕ → String → TurnRow → TurnRow
finish now meta t = record t { status = complete; completed_at = some now; meta_json = some meta }

unfoldable pub complete_turn : ℕ → String → String → ConversationTables → ConversationTables
unfolding update_where
complete_turn now turn_id meta db = record db {
  turns = update_where (turn_has turn_id) (finish now meta) db.turns;
}

abbrev pub cut : ℕ → TurnRow → TurnRow
cut now t = record t { status = interrupted; completed_at = some now }

abbrev pub can_cut : String → TurnRow → Bool
can_cut turn_id t = str_eq t.turn_id turn_id && is_pending t.status

unfoldable pub interrupt_turn : ℕ → String → ConversationTables → ConversationTables
unfolding update_where
interrupt_turn now turn_id db = record db {
  turns = update_where (can_cut turn_id) (cut now) db.turns;
}

pub record Block : Type 0 where
  pub chat_id : ℕ
  pub turn_id : String
  pub role : String
  pub content_json : String
  pub meta_json : Option String
  pub block_type : String

abbrev pub new_block : ℕ → Block → ℕ → BlockRow
new_block now b i = record {
  id = i;
  chat_id = b.chat_id;
  turn_id = b.turn_id;
  role = b.role;
  content_json = b.content_json;
  meta_json = b.meta_json;
  created_at = now;
  block_type = b.block_type;
}

unfoldable pub append : ℕ → Block → ConversationTables → ℕ × ConversationTables
append now b db =
    let i = db.last_block + 1 in
    (i, record db { blocks = db.blocks ++ new_block now b i ∷ []; last_block = i })

abbrev pub is_finished : ℕ → TurnRow → Bool
is_finished chat_id t = t.chat_id == chat_id && is_complete t.status

abbrev pub completion : Option ℕ → ℕ
completion none = 0
completion (some at) = at

-- WITH recent_turns: the complete turns of the chat, the latest first
unfoldable pub recent_turns : ℕ → ℕ → List TurnRow → List TurnRow
unfolding order_by
recent_turns chat_id limit turns =
    take limit
      (reverse (order_by (λ t. completion t.completed_at) (keep (is_finished chat_id) turns)))

-- JOIN ON turn_id, which is unique among the turns
abbrev pub joins : List TurnRow → BlockRow → Bool
joins turns c = any (turn_has c.turn_id) turns

unfoldable pub load_recent : ℕ → ℕ → ConversationTables → List BlockRow
unfolding order_by recent_turns
load_recent chat_id limit db =
    order_by (λ c. c.id) (keep (joins (recent_turns chat_id limit db.turns)) db.blocks)

abbrev pub waits : TurnRow → Bool
waits t = is_pending t.status

-- How many turns were cut, and the tables.
unfoldable pub cleanup_orphan_pending_turns : ℕ → ConversationTables → ℕ × ConversationTables
unfolding update_where row_count
cleanup_orphan_pending_turns now db =
    (row_count waits db.turns, record db { turns = update_where waits (cut now) db.turns })
