-- ===== src/Memory/Tools/Errors.antt =====
-- What a call that fails leaves behind (src/assistant/tools_sdk/memory.py).
use xone_assistant.Prelude.{
  ◌≡◌, ◌≢◌, refl, Bool, true, false, not, ◌&&◌, Option, none, some, List, [], if◌then◌else◌,
  is_some, Text, text_eq,
}
use xone_assistant.Cron.Split.{strip}
use xone_assistant.Memory.Paths.{path_parts, validate_path}
use xone_assistant.Memory.Index.{Row, Reader, area_of}
use xone_assistant.Memory.Vault.{
  State, Outcome, Rename, Unlink, finished, lock_timeout, io_error, index_error, renamed,
  rename_failed, unlinked, missing, unlink_failed, write_note_tx, delete_note_tx,
  reindex_under_lock,
}
use xone_assistant.Memory.Tools.{
  Code, fts, collision, area_conflict, validation, path, not_confirmed, not_found, Reply,
  tool_error, Context, Fate, WriteArgs, join, file_at, conflicts, reply_of, rel_of_full, check_tags,
  check_title, check_body, clean_of, write_at, memory_write, delete_at, memory_delete,
  memory_reindex, u,
}

-- A call that replies with an error has not changed the index; unless it is the error of the index
-- it has changed nothing.
abbrev pub Spares : State → Reply × State → Type 0
Spares state (reply, after) =
    (code : Code)
    → reply ≡ tool_error code
    → (after.store ≡ state.store) × (code ≢ fts → after ≡ state)

nothing-Spares : (state : State) (reply : Reply) → Spares state (reply, state)
nothing-Spares state reply code e = (refl, λ h. refl)

-- A test between two replies.
if-Spares :
    (b : Bool) (state : State) (r s : Reply × State)
    → Spares state r
    → Spares state s
    → Spares state (if b then r else s)
if-Spares true state r s h k = h
if-Spares false state r s h k = k

-- What the transaction says.
abbrev pub TxSpares : State → Outcome × State → Type 0
TxSpares state (outcome, after) =
    (outcome ≢ finished → after.store ≡ state.store)
    × (outcome ≢ finished → outcome ≢ index_error → after ≡ state)

reply_of-Spares :
    (state : State) (ok : Reply) (r : Outcome × State)
    → ((code : Code) → ok ≢ tool_error code)
    → TxSpares state r
    → Spares state (reply_of ok r.0, r.1)
reply_of-Spares state ok (finished, after) h tx code e = absurd (h code e)
reply_of-Spares state ok (lock_timeout, after) h tx code e =
    (tx.0 (λ d. absurd (cc (d))), λ k. tx.1 (λ d. absurd (cc (d))) (λ d. absurd (cc (d))))
reply_of-Spares state ok (io_error, after) h tx code e =
    (tx.0 (λ d. absurd (cc (d))), λ k. tx.1 (λ d. absurd (cc (d))) (λ d. absurd (cc (d))))
reply_of-Spares state ok (index_error, after) h tx code e =
    (tx.0 (λ d. absurd (cc (d))), λ k. absurd (k (cc (e))))

same_state : (state : State) (outcome : Outcome) → TxSpares state (outcome, state)
same_state state outcome = (λ h. refl, λ h k. refl)

write_note_tx-TxSpares :
    (locked committed : Bool) (rename : Rename) (rel : Text) (row : Row) (content : Text)
    (state : State)
    → TxSpares state (write_note_tx locked committed rename rel row content state)
unfolding write_note_tx
write_note_tx-TxSpares false committed rename rel row content state = same_state state lock_timeout
write_note_tx-TxSpares true committed rename_failed rel row content state =
    same_state state io_error
write_note_tx-TxSpares true true (renamed mtime_ns) rel row content state =
    (λ h. absurd (h refl), λ h k. absurd (h refl))
write_note_tx-TxSpares true false (renamed mtime_ns) rel row content state =
    (λ h. refl, λ h k. absurd (k refl))

delete_note_tx-TxSpares :
    (locked committed : Bool) (gone : Unlink) (rel rel_path : Text) (state : State)
    → TxSpares state (delete_note_tx locked committed gone rel rel_path state)
unfolding delete_note_tx
delete_note_tx-TxSpares false committed gone rel rel_path state = same_state state lock_timeout
delete_note_tx-TxSpares true committed unlink_failed rel rel_path state = same_state state io_error
delete_note_tx-TxSpares true true unlinked rel rel_path state =
    (λ h. absurd (h refl), λ h k. absurd (h refl))
delete_note_tx-TxSpares true true missing rel rel_path state =
    (λ h. absurd (h refl), λ h k. absurd (h refl))
delete_note_tx-TxSpares true false unlinked rel rel_path state = (λ h. refl, λ h k. absurd (k refl))
delete_note_tx-TxSpares true false missing rel rel_path state = (λ h. refl, λ h k. absurd (k refl))

reindex_under_lock-TxSpares :
    (reader : Reader) (now : Text) (locked committed : Bool) (state : State)
    → TxSpares state (reindex_under_lock reader now locked committed state)
unfolding reindex_under_lock
reindex_under_lock-TxSpares reader now false committed state = same_state state lock_timeout
reindex_under_lock-TxSpares reader now true true state =
    (λ h. absurd (h refl), λ h k. absurd (h refl))
reindex_under_lock-TxSpares reader now true false state = same_state state index_error

module _ (ctx : Context) (fate : Fate) where
  check_tags-Spares :
      (file rel title : Text) (tags : Option (List Text)) (body : Text) (state : State)
      → Spares state (check_tags ctx fate file rel title tags body state)
  check_tags-Spares file rel title none body state = nothing-Spares state (tool_error validation)
  check_tags-Spares file rel title (some tags) body state =
      reply_of-Spares state _ _ (λ code e. absurd (cc (e)))
        (write_note_tx-TxSpares fate.locked fate.committed fate.rename file _ _ state)

  check_title-Spares :
      (file rel : Text) (title : Option Text) (tags : Option (List Text)) (body : Text)
      (state : State)
      → Spares state (check_title ctx fate file rel title tags body state)
  check_title-Spares file rel none tags body state = nothing-Spares state (tool_error validation)
  check_title-Spares file rel (some title) tags body state =
      if-Spares (text_eq (strip (u ctx) title) []) state _ _
        (nothing-Spares state (tool_error validation))
        (check_tags-Spares file rel (strip (u ctx) title) tags body state)

  check_body-Spares :
      (args : WriteArgs) (file : Text) (body : Option Text) (state : State)
      → Spares state (check_body ctx fate args file body state)
  check_body-Spares args file none state = nothing-Spares state (tool_error validation)
  check_body-Spares args file (some body) state =
      if-Spares (is_some (file_at file state) && not args.overwrite) state _ _
        (nothing-Spares state (tool_error collision))
        (if-Spares (conflicts (area_of (path_parts args.path)) args.area) state _ _
          (nothing-Spares state (tool_error area_conflict))
          (check_title-Spares file (join (path_parts args.path)) args.title args.tags body state))

  write_at-Spares :
      (args : WriteArgs) (full : Option (List Text)) (state : State)
      → Spares state (write_at ctx fate args full state)
  write_at-Spares args none state = nothing-Spares state (tool_error path)
  write_at-Spares args (some full) state =
      check_body-Spares args (rel_of_full ctx full) (clean_of ctx args.body) state

  delete_at-Spares :
      (rel_path : Text) (confirmed : Bool) (full : Option (List Text)) (state : State)
      → Spares state (delete_at ctx fate rel_path confirmed full state)
  delete_at-Spares rel_path confirmed none state = nothing-Spares state (tool_error path)
  delete_at-Spares rel_path confirmed (some full) state =
      if-Spares (not confirmed) state _ _ (nothing-Spares state (tool_error not_confirmed)) (
        if-Spares (not (is_some (file_at (rel_of_full ctx full) state))) state _ _
          (nothing-Spares state (tool_error not_found))
          (reply_of-Spares state _ _ (λ code e. absurd (cc (e)))
            (delete_note_tx-TxSpares fate.locked fate.committed fate.unlink (rel_of_full ctx full)
              rel_path state)))

  -- When memory_write, memory_delete or memory_reindex replies with an error, the index is what it
  -- was; and if the error is another than that of the index, the files are what they were too.
  pub memory_tools_error :
      (args : WriteArgs) (rel_path : Text) (confirmed : Bool) (state : State)
      → Spares state (memory_write ctx fate args state)
        × Spares state (memory_delete ctx fate rel_path confirmed state)
        × Spares state (memory_reindex ctx fate state)
  unfolding memory_write memory_delete memory_reindex
  memory_tools_error args rel_path confirmed state = (
    write_at-Spares args (validate_path ctx.disk args.path) state,
    delete_at-Spares rel_path confirmed (validate_path ctx.disk rel_path) state,
    reply_of-Spares state _ _ (λ code e. absurd (cc (e)))
        (reindex_under_lock-TxSpares ctx.reader ctx.now_iso fate.locked fate.committed state),
  )
