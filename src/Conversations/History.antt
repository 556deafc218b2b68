-- ===== src/Conversations/History.antt =====
-- What the history of a chat shows (src/assistant/state/conversations.py).
use xone_assistant.Prelude.{
  ℕ, zero, suc, ◌+◌, ◌<◌, String, Bool, true, false, ◌&&◌, List, [], ◌∷◌, ◌++◌, ◌≡◌, refl, ap, ◌∙◌,
  arith, keep, any, take, All, All-of_keep, All-Unit, inl, inr, Bool-cases,
}
use mathlib.Core.List.{reverse, reverse_aux}
use native.Mathlib.Decide.{dec_lt}
use xone_assistant.Sql.{update_where, row_count, order_by}
use xone_assistant.Sql.Order.{All-order_by}
use xone_assistant.Conversations.{
  TurnRow, BlockRow, Block, ConversationTables, is_finished, turn_has, recent_turns, joins,
  load_recent, waits, cut, can_cut, completion, cleanup_orphan_pending_turns, interrupt_turn,
  append, new_block,
}

-- An UPDATE that turns no row that passes a test, into none that passes it.
keep-update_where :
    (q p : TurnRow → Bool) (f : TurnRow → TurnRow) (rows : List TurnRow)
    → ((r : TurnRow) → p r ≡ true → q r ≡ false)
    → ((r : TurnRow) → p r ≡ true → q (f r) ≡ false)
    → keep q (update_where p f rows) ≡ keep q rows
unfolding update_where
keep-update_where q p f [] before after = refl
keep-update_where q p f (r ∷ rows) before after =
    let rest = keep-update_where q p f rows before after in
    elim (Bool-cases (p r)) [
      | inl hit ↦ rw (hit, before r hit, after r hit) rest
      | inr miss ↦ elim (Bool-cases (q r)) [
        | inl kept ↦ rw (miss, kept) (ap (◌∷◌ r) rest)
        | inr gone ↦ rw (miss, gone) rest
      ]
    ]

-- Turns that are cut were not in the history, so it stays what it was: at a restart, and when a
-- pending turn is interrupted.
pub load_recent-interrupted :
    (now chat_id limit : ℕ) (turn_id : String) (db : ConversationTables)
    → (load_recent chat_id limit (cleanup_orphan_pending_turns now db).1
        ≡ load_recent chat_id limit db)
      × (load_recent chat_id limit (interrupt_turn now turn_id db) ≡ load_recent chat_id limit db)
unfolding load_recent recent_turns cleanup_orphan_pending_turns interrupt_turn
load_recent-interrupted now chat_id limit turn_id db =
    let at : List TurnRow → List BlockRow = λ finished.
      order_by (λ c. c.id)
        (keep (joins (take limit (reverse (order_by (λ t. completion t.completed_at) finished))))
          db.blocks) in
    (
      ap at (
          keep-update_where (is_finished chat_id) waits (cut now) db.turns
            (λ r h. ground (arith, h)) (λ r h. ground arith)),
      ap at (
          keep-update_where (is_finished chat_id) (can_cut turn_id) (cut now) db.turns
            (λ r h. ground (arith, h)) (λ r h. ground arith)),
    )

module _ (P : TurnRow → Type 0) where
  All-take : (n : ℕ) (xs : List TurnRow) → All P xs → All P (take n xs)
  All-take zero xs h = tt
  All-take (suc n) [] h = tt
  All-take (suc n) (x ∷ xs) h = (h.0, All-take n xs h.1)

  All-reverse_aux : (xs ys : List TurnRow) → All P xs → All P ys → All P (reverse_aux xs ys)
  All-reverse_aux [] ys h k = k
  All-reverse_aux (x ∷ xs) ys h k = All-reverse_aux xs (x ∷ ys) h.1 (h.0, k)

  All-reverse : (xs : List TurnRow) → All P xs → All P (reverse xs)
  All-reverse xs h = All-reverse_aux xs [] h tt

none_counted :
    (q : TurnRow → Bool) (rows : List TurnRow) → row_count q rows ≡ 0 → All (λ r. q r ≡ false) rows
unfolding row_count
none_counted q [] h = tt
none_counted q (r ∷ rows) h = (ground (arith, h), none_counted q rows (ground (arith, h)))

any-false :
    (q : TurnRow → Bool) (rows : List TurnRow) → All (λ r. q r ≡ false) rows → any q rows ≡ false
any-false q [] h = refl
any-false q (r ∷ rows) h = ground (arith, h.0, any-false q rows h.1)

-- A complete turn of the chat with this id.
abbrev pub shows : ℕ → String → TurnRow → Bool
shows chat_id turn_id t = turn_has turn_id t && is_finished chat_id t

joins-none :
    (chat_id limit : ℕ) (c : BlockRow) (turns : List TurnRow)
    → row_count (shows chat_id c.turn_id) turns ≡ 0
    → joins (recent_turns chat_id limit turns) c ≡ false
unfolding recent_turns
joins-none chat_id limit c turns absent =
    let P : TurnRow → Type 0 = λ t. turn_has c.turn_id t ≡ false in
    let finished =
      All-of_keep (λ t. shows chat_id c.turn_id t ≡ false) P (is_finished chat_id) turns
        (λ t h e. ground (arith, h, e)) (none_counted (shows chat_id c.turn_id) turns absent) in
    any-false (turn_has c.turn_id) _ (
      All-take P limit _
        (All-reverse P _ (All-order_by P (λ t. completion t.completed_at) _ finished)))

keep-append :
    (q : BlockRow → Bool) (xs ys : List BlockRow) → keep q (xs ++ ys) ≡ keep q xs ++ keep q ys
keep-append q [] ys = refl
keep-append q (x ∷ xs) ys = elim (Bool-cases (q x)) [
  | inl kept ↦ rw kept (ap (◌∷◌ x) (keep-append q xs ys))
  | inr gone ↦ rw gone (keep-append q xs ys)
]

append-nil : (xs : List BlockRow) → xs ++ [] ≡ xs
append-nil [] = refl
append-nil (x ∷ xs) = ap (◌∷◌ x) (append-nil xs)

-- A block that is appended to a turn which is no complete turn of the chat does not show in the
-- history of the chat.
pub load_recent-append :
    (now chat_id limit : ℕ) (b : Block) (db : ConversationTables)
    → row_count (shows chat_id b.turn_id) db.turns ≡ 0
    → load_recent chat_id limit (append now b db).1 ≡ load_recent chat_id limit db
unfolding load_recent append
load_recent-append now chat_id limit b db absent =
    let q = joins (recent_turns chat_id limit db.turns) in
    let new = new_block now b (db.last_block + 1) in
    let unseen = joins-none chat_id limit new db.turns absent in
    let alone : keep q (new ∷ []) ≡ [] = rw unseen refl in
    ap (order_by (λ c. c.id)) (
      keep-append q db.blocks (new ∷ [])
      ∙ ap (λ tail. keep q db.blocks ++ tail) alone
      ∙ append-nil (keep q db.blocks))

-- Every block of the history belongs to a complete turn of the chat.
pub load_recent_complete :
    (chat_id limit : ℕ) (db : ConversationTables)
    → All (λ c. 0 < row_count (shows chat_id c.turn_id) db.turns) (load_recent chat_id limit db)
unfolding load_recent
load_recent_complete chat_id limit db =
    All-order_by (λ (c : BlockRow). 0 < row_count (shows chat_id c.turn_id) db.turns) (λ c. c.id) _
      (All-of_keep (λ (c : BlockRow). Unit {0})
        (λ c. 0 < row_count (shows chat_id c.turn_id) db.turns)
        (joins (recent_turns chat_id limit db.turns)) db.blocks
        (λ c h e. elim (dec_lt 0 (row_count (shows chat_id c.turn_id) db.turns)) [
          | yes there ↦ there
          | no absent ↦
              let unseen = joins-none chat_id limit c db.turns (omega arith) in
              absurd (cc (e, unseen))
        ])
        (All-Unit db.blocks))
