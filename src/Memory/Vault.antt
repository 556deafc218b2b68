-- ===== src/Memory/Vault.antt =====
-- The notes on disk and their index: the transactions of src/assistant/tools_sdk/_memory_core.py.
pub mod Counts
pub mod InStep
pub mod Repair
use xone_assistant.Prelude.{
  ℕ, ◌+◌, Bool, true, false, not, ◌&&◌, ◌||◌, Option, none, some, List, [], ◌∷◌, ◌++◌, ◌==◌,
  if◌then◌else◌, ltb, Text, text_eq, keep, length,
}
use xone_assistant.Memory.Paths.{path_parts, path_name, vault_rel_eligible}
use xone_assistant.Memory.Index.{Row, Reader, parse_note_for_index}

-- A file of the vault that rglob("*.md") finds, by its path below the vault. Its text has the line
-- ends of the file; it is none when the file is no UTF-8.
pub record File : Type 0 where
  pub rel : Text
  pub raw : Option Text
  pub mtime_ns : ℕ

-- The table `notes` in rowid order, and the row max_mtime_ns of `meta`, 0 when it is not there.
pub record Store : Type 0 where
  pub notes : List Row
  pub max_mtime_ns : ℕ

pub record State : Type 0 where
  pub files : List File
  pub store : Store

abbrev pub is_file : Text → File → Bool
is_file rel f = text_eq f.rel rel

abbrev pub is_row : Text → Row → Bool
is_row path r = text_eq r.path path

abbrev pub max : ℕ → ℕ → ℕ
max a b = if ltb a b then b else a

-- INSERT OR REPLACE: the row that had the path goes.
unfoldable pub replace_row : Row → List Row → List Row
replace_row row notes = keep (λ r. not (is_row row.path r)) notes ++ row ∷ []

-- DELETE FROM notes WHERE path = ?
unfoldable pub delete_row : Text → List Row → List Row
delete_row path notes = keep (λ r. not (is_row path r)) notes

-- os.replace onto a path, and unlink
unfoldable pub put_file : File → List File → List File
put_file file files = keep (λ f. not (is_file file.rel f)) files ++ file ∷ []

unfoldable pub remove_file : Text → List File → List File
remove_file rel files = keep (λ f. not (is_file rel f)) files

abbrev pub is_eligible : File → Bool
is_eligible f = vault_rel_eligible (path_parts f.rel)

unfoldable pub last_mtime : List File → ℕ
last_mtime [] = 0
last_mtime (f ∷ files) = max f.mtime_ns (last_mtime files)

-- The number of the notes, and the time of the last change to one.
unfoldable pub scan_vault_stats : List File → ℕ × ℕ
unfolding last_mtime
scan_vault_stats files = let notes = keep is_eligible files in (length notes, last_mtime notes)

-- How a transaction ends: done, TimeoutError for the lock, OSError, or sqlite3.OperationalError.
pub data Outcome : Type 0 where
  finished lock_timeout io_error index_error : Outcome

-- What the system does with a transaction: whether the lock is got, what becomes of the file, and
-- whether the COMMIT succeeds.
pub data Rename : Type 0 where
  renamed : (mtime_ns : ℕ) → Rename
  rename_failed : Rename

pub data Unlink : Type 0 where
  unlinked : Unlink
  missing : Unlink
  unlink_failed : Unlink

abbrev pub commit_write : (committed : Bool) → ℕ → Text → Row → Text → State → Outcome × State
commit_write committed mtime_ns rel row content state =
    let files =
      put_file (record { rel = rel; raw = some content; mtime_ns = mtime_ns }) state.files in
    if committed
    then (
      finished,
      record {
        files = files;
        store = record {
          notes = replace_row row state.store.notes;
          max_mtime_ns = max state.store.max_mtime_ns mtime_ns;
        };
      },
    )
    else (index_error, record state { files = files })

abbrev pub after_rename : (committed : Bool) → Rename → Text → Row → Text → State → Outcome × State
after_rename committed (renamed mtime_ns) rel row content state =
    commit_write committed mtime_ns rel row content state
after_rename committed rename_failed rel row content state = (io_error, state)

-- `rel` is where the file is below the vault.
unfoldable pub write_note_tx :
    (locked committed : Bool) → Rename → Text → Row → Text → State → Outcome × State
write_note_tx locked committed rename rel row content state =
    if locked then after_rename committed rename rel row content state else (lock_timeout, state)

abbrev pub commit_delete : (committed : Bool) → Text → List File → State → Outcome × State
commit_delete committed rel_path files state =
    if committed
    then (
      finished,
      record {
        files = files;
        store = record {
          notes = delete_row rel_path state.store.notes;
          max_mtime_ns = (scan_vault_stats files).1;
        };
      },
    )
    else (index_error, record state { files = files })

abbrev pub after_unlink : (committed : Bool) → Unlink → Text → Text → State → Outcome × State
after_unlink committed unlinked rel rel_path state =
    commit_delete committed rel_path (remove_file rel state.files) state
after_unlink committed missing rel rel_path state =
    commit_delete committed rel_path (remove_file rel state.files) state
after_unlink committed unlink_failed rel rel_path state = (io_error, state)

-- `rel` is where the file is below the vault, `rel_path` the text that the row is looked up by.
unfoldable pub delete_note_tx :
    (locked committed : Bool) → Unlink → Text → Text → State → Outcome × State
delete_note_tx locked committed unlink rel rel_path state =
    if locked then after_unlink committed unlink rel rel_path state else (lock_timeout, state)

module _ (reader : Reader) (now : Text) where
  abbrev pub add_row : Option Row → List Row → List Row
  add_row none notes = notes
  add_row (some row) notes = replace_row row notes

  -- INSERT OR REPLACE of the rows one by one
  unfoldable pub rows_from : List File → List Row → List Row
  rows_from [] notes = notes
  rows_from (f ∷ files) notes =
      rows_from files (add_row (parse_note_for_index reader now f.rel f.raw) notes)

  abbrev pub count_parsed : ℕ → Option Row → ℕ → ℕ
  count_parsed mtime_ns none latest = latest
  count_parsed mtime_ns (some row) latest = max mtime_ns latest

  -- The time of the last change to a note that could be parsed.
  unfoldable pub last_parsed : List File → ℕ
  last_parsed [] = 0
  last_parsed (f ∷ files) =
      count_parsed f.mtime_ns (parse_note_for_index reader now f.rel f.raw) (last_parsed files)

  unfoldable pub reindex_vault : State → State
  reindex_vault state =
      let notes = keep is_eligible state.files in
      record state {
        store = record { notes = rows_from notes []; max_mtime_ns = last_parsed notes };
      }

  -- `allow_large` is whether MEMORY_ALLOW_LARGE_REINDEX is set, `locked` whether the lock is free.
  unfoldable pub maybe_auto_reindex : (allow_large locked : Bool) → State → State
  maybe_auto_reindex allow_large locked state =
      let (disk_count, disk_max_mtime_ns) = scan_vault_stats state.files in
      if length state.store.notes == disk_count
        && not (ltb state.store.max_mtime_ns disk_max_mtime_ns)
      then state
      else if ltb 2000 disk_count && not allow_large
      then state
      else if locked
      then reindex_vault state
      else state

  unfoldable pub reindex_under_lock : (locked committed : Bool) → State → Outcome × State
  reindex_under_lock locked committed state =
      if locked
      then if committed then (finished, reindex_vault state) else (index_error, state)
      else (lock_timeout, state)
