-- ===== src/Memory/Vault/Repair.antt =====
-- What a failed COMMIT leaves behind is found at boot, and what a reindex makes of the notes
-- (src/assistant/tools_sdk/_memory_core.py).
use xone_assistant.Prelude.{
  ℕ, ◌≤◌, ◌<◌, ◌≡◌, ◌≢◌, refl, arith, Bool, true, false, not, ◌&&◌, ◌||◌, Option, none, some, List,
  [], ◌∷◌, ◌++◌, inl, inr, if◌then◌else◌, Text, text_eq, keep, keep-append, any, is_some, length,
  ltb, lt→ltb, ◌==◌, Option-cases,
}
use xone_assistant.Sql.{row_count}
use xone_assistant.Memory.Paths.{path_parts, vault_rel_eligible}
use xone_assistant.Memory.Frontmatter.{Mapping, parse_frontmatter, universal_newlines}
use xone_assistant.Memory.Index.{Row, Reader, row_of, parse_note_for_index}
use xone_assistant.Memory.Vault.{
  File, State, is_eligible, is_file, last_mtime, scan_vault_stats, replace_row, put_file,
  remove_file, add_row, rows_from, reindex_vault, renamed, unlinked, write_note_tx, delete_note_tx,
  maybe_auto_reindex,
}
use xone_assistant.Memory.Vault.Counts.{
  counts, length-keep, length-row_count, row_count-put, row_count-has_not,
}
use xone_assistant.Memory.Vault.InStep.{InStep, path_of, rel_of, all_rows}

either_one :
    (a b : Bool) (n : ℕ) → (if b then 1 else if a then 1 else n) ≡ (if a || b then 1 else n)
either_one a b n = ground arith

last_mtime-there : (xs : List File) (f : File) → f.mtime_ns ≤ last_mtime (xs ++ f ∷ [])
unfolding last_mtime
last_mtime-there [] f = ground arith
last_mtime-there (x ∷ xs) f = ground (arith, last_mtime-there xs f)

put_file-late :
    (file : File) (files : List File)
    → is_eligible file ≡ true
    → file.mtime_ns ≤ (scan_vault_stats (put_file file files)).1
unfolding scan_vault_stats put_file
put_file-late file files h =
    let others = keep (λ f. not (is_file file.rel f)) files in
    rw (keep-append is_eligible others (file ∷ []), h)
      (last_mtime-there (keep is_eligible others) file)

and_false : (b : Bool) → (b && false) ≡ false
and_false true = refl
and_false false = refl

-- A boot does not build the index of more than 2000 notes, unless the environment allows it.
abbrev pub is_too_large : (allow_large : Bool) → State → Bool
is_too_large allow_large state = ltb 2000 (scan_vault_stats state.files).0 && not allow_large

module _ (reader : Reader) (now : Text) where
  -- A boot that finds a newer note, or another number of notes than of rows, builds the index anew.
  maybe_auto_reindex-newer :
      (allow_large : Bool) (state : State)
      → is_too_large allow_large state ≡ false
      → state.store.max_mtime_ns < (scan_vault_stats state.files).1
      → maybe_auto_reindex reader now allow_large true state ≡ reindex_vault reader now state
  unfolding maybe_auto_reindex
  maybe_auto_reindex-newer allow_large state small h =
      let newer : ltb state.store.max_mtime_ns (scan_vault_stats state.files).1 ≡ true =
        lt→ltb state.store.max_mtime_ns (scan_vault_stats state.files).1 h in
      let same = length state.store.notes == (scan_vault_stats state.files).0 in
      rw (newer, and_false same, small)

  maybe_auto_reindex-unequal :
      (allow_large : Bool) (state : State)
      → is_too_large allow_large state ≡ false
      → length state.store.notes ≢ (scan_vault_stats state.files).0
      → maybe_auto_reindex reader now allow_large true state ≡ reindex_vault reader now state
  unfolding maybe_auto_reindex
  maybe_auto_reindex-unequal allow_large state small h =
      let other : (length state.store.notes == (scan_vault_stats state.files).0) ≡ false =
        ground (arith, h) in
      rw (other, small)

  -- When the COMMIT of a write fails after the rename, of a note that is newer than all that the
  -- index knew and that a reindex keeps, the index is not in step with the disk; and the next boot
  -- that gets the lock builds it anew, if the vault has at most 2000 notes or
  -- MEMORY_ALLOW_LARGE_REINDEX is set.
  pub maybe_auto_reindex-write_note_tx :
      (allow_large : Bool) (mtime_ns : ℕ) (row : Row) (content : Text) (state : State)
      → vault_rel_eligible (path_parts row.path) ≡ true
      → state.store.max_mtime_ns < mtime_ns
      → is_too_large allow_large
          (write_note_tx true false (renamed mtime_ns) row.path row content state).1
        ≡ false
      → (let (outcome, after) =
            write_note_tx true false (renamed mtime_ns) row.path row content state in
          (¬ InStep after)
          × (maybe_auto_reindex reader now allow_large true after ≡ reindex_vault reader now after))
  unfolding write_note_tx scan_vault_stats
  maybe_auto_reindex-write_note_tx allow_large mtime_ns row content state eligible later small =
      let file : File = record { rel = row.path; raw = some content; mtime_ns = mtime_ns } in
      let late = put_file-late file state.files eligible in
      (
        λ h. omega (arith, later, late, h.current),
        maybe_auto_reindex-newer allow_large _ small (omega (arith, later, late)),
      )

  -- And when the COMMIT of a deletion fails, if the index was in step and the note one that has a row.
  pub maybe_auto_reindex-delete_note_tx :
      (allow_large : Bool) (rel : Text) (state : State)
      → InStep state
      → 0 < row_count (counts path_of all_rows rel) state.store.notes
      → is_too_large allow_large (delete_note_tx true false unlinked rel rel state).1 ≡ false
      → (let (outcome, after) = delete_note_tx true false unlinked rel rel state in
          maybe_auto_reindex reader now allow_large true after ≡ reindex_vault reader now after)
  unfolding delete_note_tx remove_file scan_vault_stats
  maybe_auto_reindex-delete_note_tx allow_large rel state h there small =
      let rows = length-row_count state.store.notes in
      let notes = length-keep is_eligible (keep (λ f. not (is_file rel f)) state.files) in
      let split = row_count-has_not rel_of is_eligible rel state.files in
      let same = h.same rel in
      maybe_auto_reindex-unequal allow_large _ small
        (λ e. omega (arith, rows, notes, split, same, h.count, there, e))

  -- Whether a file gives the row of a path.
  abbrev pub gives : Text → File → Bool
  gives k f = text_eq f.rel k && is_some (parse_note_for_index reader now f.rel f.raw)

  row_of-path :
      (rel : Text) (o : Option (Mapping × Text)) (row : Row)
      → row_of reader now rel o ≡ some row
      → row.path ≡ rel
  row_of-path rel none row h = absurd (cc (h))
  row_of-path rel (some (fm, body)) row h = cc (h)

  parse_note_for_index-path :
      (rel : Text) (raw : Option Text) (row : Row)
      → parse_note_for_index reader now rel raw ≡ some row
      → row.path ≡ rel
  unfolding parse_note_for_index
  parse_note_for_index-path rel none row h = absurd (cc (h))
  parse_note_for_index-path rel (some raw) row h =
      row_of-path rel (parse_frontmatter reader.yaml (universal_newlines raw)) row h

  add_row-rows :
      (k rel : Text) (raw : Option Text) (notes : List Row)
      → row_count
          (counts path_of all_rows k)
          (add_row reader now (parse_note_for_index reader now rel raw) notes)
        ≡ (if text_eq rel k && is_some (parse_note_for_index reader now rel raw)
            then 1
            else row_count (counts path_of all_rows k) notes)
  unfolding replace_row
  add_row-rows k rel raw notes = elim (Option-cases (parse_note_for_index reader now rel raw)) [
    | inl e ↦ rw e (ground arith)
    | inr (row, e) ↦
        let path = parse_note_for_index-path rel raw row e in
        rw (e, row_count-put path_of all_rows row k notes refl, path) (ground arith)
  ]

  rows_from-rows :
      (k : Text) (files : List File) (notes : List Row)
      → row_count (counts path_of all_rows k) (rows_from reader now files notes)
        ≡ (if any (gives k) files then 1 else row_count (counts path_of all_rows k) notes)
  unfolding rows_from
  rows_from-rows k [] notes = refl
  rows_from-rows k (f ∷ files) notes =
      let row = add_row reader now (parse_note_for_index reader now f.rel f.raw) notes in
      rw (rows_from-rows k files row, add_row-rows k f.rel f.raw notes)
        (either_one (gives k f) (any (gives k) files) _)

  -- A reindex, whatever the index was before, gives a path one row when a note has it that can be
  -- read and parsed, and none otherwise.
  pub reindex_vault-rows :
      (state : State) (k : Text)
      → row_count (counts path_of all_rows k) (reindex_vault reader now state).store.notes
        ≡ (if any (gives k) (keep is_eligible state.files) then 1 else 0)
  unfolding reindex_vault row_count
  reindex_vault-rows state k = rows_from-rows k (keep is_eligible state.files) []
