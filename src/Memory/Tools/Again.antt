-- ===== src/Memory/Tools/Again.antt =====
-- A note that memory_write saves is the one that memory_read gives back
-- (src/assistant/tools_sdk/memory.py).
use xone_assistant.Prelude.{
  ℕ, ◌≡◌, refl, sym, ap, ◌∙◌, Bool, true, false, not, ◌&&◌, Bool-cases, Option, none, some, List,
  [], ◌∷◌, ◌++◌, inl, inr, if◌then◌else◌, is_some, Text, codes, text_eq, text_eq_refl,
}
use mathlib.Core.Path.{subst}
use xone_assistant.Cron.Split.{strip}
use xone_assistant.Sql.{fetch_one}
use xone_assistant.Memory.Paths.{path_parts, validate_path}
use xone_assistant.Memory.Frontmatter.{serialize_frontmatter, rstrip, universal_newlines}
use xone_assistant.Memory.Frontmatter.Roundtrip.{Writes, parse_frontmatter-universal_newlines}
use xone_assistant.Memory.Index.{Row, area_of, value_of}
use xone_assistant.Memory.Vault.{
  File, State, is_file, put_file, Outcome, finished, lock_timeout, io_error, index_error, Rename,
  renamed, rename_failed, write_note_tx,
}
use xone_assistant.Memory.Tools.{
  Code, validation, collision, area_conflict, Reply, tool_error, saved, note, Context, Fate,
  WriteArgs, join, file_at, conflicts, reply_of, rel_of_full, created_of, or_now, frontmatter,
  note_row, write_note, check_title, check_body, clean_of, write_at, memory_write, read_at,
  memory_read, shown_body, u,
}

-- The file that was put is found by its path.
file_at-put_file :
    (file : File) (files : List File)
    → fetch_one (is_file file.rel) (put_file file files) ≡ some file
unfolding fetch_one put_file
file_at-put_file file [] = rw (text_eq_refl file.rel)
file_at-put_file file (f ∷ files) = elim (Bool-cases (is_file file.rel f)) [
  | inl e ↦ rw e (file_at-put_file file files)
  | inr e ↦ rw (e, e) (file_at-put_file file files)
]

-- A transaction that is finished has put the file.
write_note_tx-finished :
    (locked committed : Bool) (rename : Rename) (rel : Text) (row : Row) (content : Text)
    (state : State)
    → (write_note_tx locked committed rename rel row content state).0 ≡ finished
    → (mtime_ns : ℕ) × ((write_note_tx locked committed rename rel row content state).1.files
        ≡ put_file (record { rel = rel; raw = some content; mtime_ns = mtime_ns }) state.files)
unfolding write_note_tx
write_note_tx-finished false committed rename rel row content state h = absurd (cc (h))
write_note_tx-finished true committed rename_failed rel row content state h = absurd (cc (h))
write_note_tx-finished true true (renamed mtime_ns) rel row content state h = (mtime_ns, refl)
write_note_tx-finished true false (renamed mtime_ns) rel row content state h = absurd (cc (h))

reply_of-saved :
    (ok : Reply) (outcome : Outcome) (rel title area : Text)
    → reply_of ok outcome ≡ saved rel title area
    → (outcome ≡ finished) × (ok ≡ saved rel title area)
reply_of-saved ok finished rel title area h = (refl, h)
reply_of-saved ok lock_timeout rel title area h = absurd (cc (h))
reply_of-saved ok io_error rel title area h = absurd (cc (h))
reply_of-saved ok index_error rel title area h = absurd (cc (h))

module _ (ctx : Context) (fate : Fate) (args : WriteArgs) (tags : List Text) (state : State) where
  -- What is written for a note at a path below the vault.
  abbrev pub content_of : (file title clean : Text) → Text
  content_of file title clean =
      serialize_frontmatter ctx.reader.yaml
        (frontmatter ctx title tags (area_of (path_parts (join (path_parts args.path))))
          (or_now ctx (created_of ctx (file_at file state))))
        clean

  -- The file is there with its content.
  abbrev pub IsThere : (file title clean : Text) → State → Type 0
  IsThere file title clean after =
      (mtime_ns : ℕ) × (file_at file after
        ≡ some
            (record { rel = file; raw = some (content_of file title clean); mtime_ns = mtime_ns }))

  module _ (file clean rel title area : Text) where
    -- If a call is saved, the file is there.
    abbrev pub Saves : Reply × State → Type 0
    Saves (reply, after) = reply ≡ saved rel title area → IsThere file title clean after

    error-Saves : (code : Code) → Saves (tool_error code, state)
    error-Saves code h = absurd (cc (h))

    if-Saves : (b : Bool) (r s : Reply × State) → Saves r → Saves s → Saves (if b then r else s)
    if-Saves true r s f g = f
    if-Saves false r s f g = g

    write_note-Saves :
        (title' : Text)
        → Saves (write_note ctx fate file (join (path_parts args.path)) title' tags clean state)
    write_note-Saves title' h =
        let parts = join (path_parts args.path) in
        let created = or_now ctx (created_of ctx (file_at file state)) in
        let row = note_row ctx parts title' tags clean created in
        let tx =
          write_note_tx fate.locked fate.committed fate.rename file row
            (content_of file title' clean) state in
        let (fin, ok) =
          reply_of-saved (saved parts title' (area_of (path_parts parts))) tx.0 rel title area h in
        let (mtime_ns, put) =
          write_note_tx-finished fate.locked fate.committed fate.rename file row
            (content_of file title' clean) state fin in
        let same : title' ≡ title = cc (ok) in
        let there = ap (fetch_one (is_file file)) put ∙ file_at-put_file _ state.files in
        subst (λ t. IsThere file t clean tx.1) same (mtime_ns, there)

    check_title-Saves :
        (title' : Option Text)
        → Saves
            (check_title ctx fate file (join (path_parts args.path)) title' (some tags) clean state)
    check_title-Saves none = error-Saves validation
    check_title-Saves (some title') =
        if-Saves (text_eq (strip (u ctx) title') []) _ _ (error-Saves validation)
          (write_note-Saves (strip (u ctx) title'))

    check_body-Saves :
        args.tags ≡ some tags → Saves (check_body ctx fate args file (some clean) state)
    check_body-Saves h =
        let titled = check_title-Saves args.title in
        let titled' =
          subst
            (λ t.
              Saves
                (check_title ctx fate file (join (path_parts args.path)) args.title t clean state))
            (sym h) titled in
        if-Saves (is_some (file_at file state) && not args.overwrite) _ _ (error-Saves collision) (
          if-Saves (conflicts (area_of (path_parts args.path)) args.area) _ _
            (error-Saves area_conflict) titled')

  -- The note as it is read again.
  abbrev pub read_again : (title clean : Text) → Reply
  read_again title clean =
      let body = codes "\n" ++ universal_newlines (rstrip ctx.reader.yaml clean ++ codes "\n") in
      note (record { title = strip (u ctx) title; body = body; shown = shown_body ctx body })

  read_at-there :
      (full : List Text) (title clean block : Text) (after : State)
      → Writes ctx.reader.yaml
          (frontmatter ctx title tags
            (area_of (path_parts (join (path_parts args.path))))
            (or_now ctx (created_of ctx (file_at (rel_of_full ctx full) state))))
          block
      → IsThere (rel_of_full ctx full) title clean after
      → read_at ctx true args.path (some full) after ≡ read_again title clean
  unfolding value_of
  read_at-there full title clean block after writes (mtime_ns, there) =
      let parsed = parse_frontmatter-universal_newlines ctx.reader.yaml _ block clean writes in
      rw (there, parsed)

  -- When memory_write saves a note, memory_read of the same path, if no other call comes between
  -- and the file can be read, gives back its title and its body: the body without the newlines at
  -- its end, between two new ones, with a newline for each carriage return or pair of both. This
  -- is for a note whose block the program's YAML loader reads as what was dumped, and which has no
  -- carriage return and no line that begins with three dashes in that block.
  pub memory_read-memory_write :
      (full : List Text) (clean rel title area block : Text)
      → validate_path ctx.disk args.path ≡ some full
      → args.tags ≡ some tags
      → clean_of ctx args.body ≡ some clean
      → Writes ctx.reader.yaml
          (frontmatter ctx title tags
            (area_of (path_parts (join (path_parts args.path))))
            (or_now ctx (created_of ctx (file_at (rel_of_full ctx full) state))))
          block
      → (memory_write ctx fate args state).0 ≡ saved rel title area
      → memory_read ctx true args.path (memory_write ctx fate args state).1 ≡ read_again title clean
  unfolding memory_write memory_read
  memory_read-memory_write full clean rel title area block valid tagged sane writes h =
      let file = rel_of_full ctx full in
      let made = check_body-Saves file clean rel title area tagged in
      let call : write_at ctx fate args (validate_path ctx.disk args.path) state
          ≡ check_body ctx fate args file (some clean) state =
        rw (valid, sane) in
      let there = made (ap (λ r. r.0) (sym call) ∙ h) in
      let after = (check_body ctx fate args file (some clean) state).1 in
      let again = read_at-there full title clean block after writes there in rw (call, valid) again
