-- ===== src/Memory/Vault/InStep.antt =====
-- An index that is in step with the notes on disk stays so (src/assistant/tools_sdk/_memory_core.py).
use xone_assistant.Prelude.{◌≤◌, ◌≡◌, arith, Bool, true, false, [], Text, keep, length, ltb, ◌==◌}
use xone_assistant.Sql.{row_count}
use xone_assistant.Memory.Paths.{path_parts, vault_rel_eligible}
use xone_assistant.Memory.Index.{Row, Reader}
use xone_assistant.Memory.Vault.{
  File, State, is_eligible, last_mtime, scan_vault_stats, Rename, Unlink, write_note_tx,
  delete_note_tx, maybe_auto_reindex,
}
use xone_assistant.Memory.Vault.Counts.{length-row_count, length-keep, counts}

abbrev pub path_of : Row → Text
path_of r = r.path

abbrev pub rel_of : File → Text
rel_of f = f.rel

abbrev pub all_rows : Row → Bool
all_rows r = true

-- Each note has its row, and no row is without its note; and no note is newer than is recorded.
pub record InStep (state : State) : Type 0 where
  pub same :
      (rel : Text)
      → row_count (counts path_of all_rows rel) state.store.notes
        ≡ row_count (counts rel_of is_eligible rel) state.files
  pub count : row_count all_rows state.store.notes ≡ row_count is_eligible state.files
  pub current : last_mtime (keep is_eligible state.files) ≤ state.store.max_mtime_ns

abbrev pub no_notes : State
no_notes = record { files = []; store = record { notes = []; max_mtime_ns = 0 } }

-- An index in step is not built again at boot.
pub maybe_auto_reindex-idle :
    (reader : Reader) (now : Text) (allow_large locked : Bool) (state : State)
    → InStep state
    → maybe_auto_reindex reader now allow_large locked state ≡ state
unfolding maybe_auto_reindex scan_vault_stats
maybe_auto_reindex-idle reader now allow_large locked state h =
    let rows = length-row_count state.store.notes in
    let notes = length-keep is_eligible state.files in
    let agree : (length state.store.notes == length (keep is_eligible state.files)) ≡ true =
      ground (arith, rows, notes, h.count) in
    let old : ltb state.store.max_mtime_ns (last_mtime (keep is_eligible state.files)) ≡ false =
      ground (arith, h.current) in
    rw (agree, old)

-- Steps of the program, where no COMMIT fails: writes of notes that a reindex keeps, deletions by
-- the path that the index has, and the start of the daemon.
infix 40 ◌⟶◌
pub data ◌⟶◌ : State → State → Type 0 where
  wrote :
      (locked : Bool) (rename : Rename) (row : Row) (content : Text) {state : State}
      → vault_rel_eligible (path_parts row.path) ≡ true
      → state ⟶ (write_note_tx locked true rename row.path row content state).1
  deleted :
      (locked : Bool) (fate : Unlink) (rel : Text) {state : State}
      → state ⟶ (delete_note_tx locked true fate rel rel state).1
  booted :
      (reader : Reader) (now : Text) (allow_large locked : Bool) {state : State}
      → state ⟶ maybe_auto_reindex reader now allow_large locked state

infix 40 ◌⟶*◌
pub data ◌⟶*◌ : State → State → Type 0 where
  still : {state : State} → state ⟶* state
  further : {s t u : State} → s ⟶* t → t ⟶ u → s ⟶* u
