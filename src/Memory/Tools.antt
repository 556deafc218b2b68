-- ===== src/Memory/Tools.antt =====
-- The tools of src/assistant/tools_sdk/memory.py that read and change the vault.
pub mod Errors
pub mod Again
use xone_assistant.Prelude.{
  ℕ, Bool, true, false, not, ◌&&◌, ◌||◌, Option, none, some, List, [], ◌∷◌, ◌++◌, ◌==◌,
  if◌then◌else◌, is_some, Text, codes, text_eq,
}
use xone_assistant.Cron.Split.{Unicode, strip}
use xone_assistant.Patterns.{Charset}
use xone_assistant.Sql.{fetch_one}
use xone_assistant.Memory.Paths.{Disk, path_parts, relative_to, validate_path}
use xone_assistant.Memory.Frontmatter.{
  Value, scalar, items, null, Mapping, parse_frontmatter, serialize_frontmatter, universal_newlines,
}
use xone_assistant.Memory.Index.{Row, Reader, value_of, area_of, title_of, title_from_body_or_stem}
use xone_assistant.Memory.Untrusted.{sanitize_body, wrap_untrusted}
use xone_assistant.Memory.Vault.{
  File, State, is_file, Outcome, finished, lock_timeout, io_error, index_error, Rename, Unlink,
  write_note_tx, delete_note_tx, reindex_under_lock,
}

-- The codes of the errors, by their names.
pub data Code : Type 0 where
  path not_found validation io fts collision area_conflict lock not_confirmed : Code

pub record Note : Type 0 where
  pub title : Text
  pub body : Text
  pub shown : Text

pub data Reply : Type 0 where
  tool_error : Code → Reply
  saved : (rel title area : Text) → Reply
  removed : (rel_path : Text) → Reply
  note : Note → Reply
  reindexed : Reply
  -- a UnicodeDecodeError that leaves the handler
  raised : Reply

-- What a call has at hand: the file system, the libraries, the largest body, the time as
-- isoformat() writes it, and the nonces that it would draw.
pub record Context : Type 0 where
  pub disk : Disk
  pub reader : Reader
  pub charset : Charset
  pub max_body_bytes : ℕ
  pub now_iso : Text
  pub nonces : Text × Text × Text × Text

-- What the system does with the call's transaction.
pub record Fate : Type 0 where
  pub locked : Bool
  pub committed : Bool
  pub rename : Rename
  pub unlink : Unlink

-- The arguments of memory_write; a title that is no text and tags that are no list are none.
pub record WriteArgs : Type 0 where
  pub path : Text
  pub body : Option Text
  pub overwrite : Bool
  pub area : Option Text
  pub title : Option Text
  pub tags : Option (List Text)

-- str of a path, by its parts
unfoldable pub join : List Text → Text
join [] = codes "."
join (part ∷ []) = part
join (part ∷ next ∷ parts) = part ++ (codes "/" ++ join (next ∷ parts))

-- Where a path is below the vault.
abbrev pub below_of : Option (List Text) → Text
below_of none = codes "."
below_of (some below) = join below

abbrev pub file_at : Text → State → Option File
file_at rel state = fetch_one (is_file rel) state.files

-- user_area and user_area != path_area
abbrev pub conflicts : Text → Option Text → Bool
conflicts path_area none = false
conflicts path_area (some []) = false
conflicts path_area (some (c ∷ area)) = not (text_eq (c ∷ area) path_area)

abbrev pub is_text : Text → Bool
is_text t = not (text_eq t [])

-- str(cand), if it is not None
abbrev pub created_value : Option Value → Option Text
created_value none = none
created_value (some null) = none
created_value (some (scalar shown _)) = some shown
created_value (some (items shown tags)) = some shown

abbrev pub reply_of : Reply → Outcome → Reply
reply_of reply finished = reply
reply_of reply lock_timeout = tool_error lock
reply_of reply index_error = tool_error fts
reply_of reply io_error = tool_error io

module _ (ctx : Context) where
  abbrev pub u : Unicode
  u = ctx.reader.unicode

  abbrev pub rel_of_full : List Text → Text
  rel_of_full full = below_of (relative_to ctx.disk.vault full)

  abbrev pub parse_raw : Option Text → Option (Mapping × Text)
  parse_raw none = none
  parse_raw (some raw) = parse_frontmatter ctx.reader.yaml (universal_newlines raw)

  abbrev pub created_in : Option (Mapping × Text) → Option Text
  created_in none = none
  created_in (some (fm, body)) = created_value (value_of (codes "created") fm)

  abbrev pub created_of : Option File → Option Text
  created_of none = none
  created_of (some file) = created_in (parse_raw file.raw)

  -- preserved_created or now_iso
  abbrev pub or_now : Option Text → Text
  or_now none = ctx.now_iso
  or_now (some []) = ctx.now_iso
  or_now (some (c ∷ created)) = c ∷ created

  abbrev pub frontmatter : (title : Text) → (tags : List Text) → (area created : Text) → Mapping
  frontmatter title tags area created =
      (codes "title", scalar title true)
      ∷ (codes "tags", items (ctx.reader.show_list tags) tags)
      ∷ (codes "area", scalar area (is_text area))
      ∷ (codes "created", scalar created true)
      ∷ (codes "updated", scalar ctx.now_iso true)
      ∷ []

  abbrev pub note_row : (rel title : Text) → (tags : List Text) → (body created : Text) → Row
  note_row rel title tags body created = record {
    path = rel;
    title = title;
    tags = tags;
    area = area_of (path_parts rel);
    body = body;
    created = created;
    updated = ctx.now_iso;
  }

  abbrev pub write_note :
      Fate → (file rel title : Text) → (tags : List Text) → (body : Text) → State → Reply × State
  write_note fate file rel title tags body state =
      let created = or_now (created_of (file_at file state)) in
      let area = area_of (path_parts rel) in
      let content =
        serialize_frontmatter ctx.reader.yaml (frontmatter title tags area created) body in
      let (outcome, after) =
        write_note_tx fate.locked fate.committed fate.rename file
          (note_row rel title tags body created) content state in
      (reply_of (saved rel title area) outcome, after)

  abbrev pub check_tags :
      Fate → (file rel title : Text) → Option (List Text) → (body : Text) → State → Reply × State
  check_tags fate file rel title none body state = (tool_error validation, state)
  check_tags fate file rel title (some tags) body state =
      write_note fate file rel title tags body state

  abbrev pub check_title :
      Fate
      → (file rel : Text) → Option Text
      → Option (List Text)
      → (body : Text) → State
      → Reply × State
  check_title fate file rel none tags body state = (tool_error validation, state)
  check_title fate file rel (some title) tags body state =
      let written = check_tags fate file rel (strip u title) tags body state in
      if text_eq (strip u title) [] then (tool_error validation, state) else written

  abbrev pub check_body : Fate → WriteArgs → (file : Text) → Option Text → State → Reply × State
  check_body fate args file none state = (tool_error validation, state)
  check_body fate args file (some body) state =
      let rel = join (path_parts args.path) in
      let written = check_title fate file rel args.title args.tags body state in
      if is_some (file_at file state) && not args.overwrite
      then (tool_error collision, state)
      else if conflicts (area_of (path_parts args.path)) args.area
      then (tool_error area_conflict, state)
      else written

  abbrev pub clean_of : Option Text → Option Text
  clean_of none = none
  clean_of (some body) = sanitize_body ctx.charset u body ctx.max_body_bytes

  abbrev pub write_at : Fate → WriteArgs → Option (List Text) → State → Reply × State
  write_at fate args none state = (tool_error path, state)
  write_at fate args (some full) state =
      check_body fate args (rel_of_full full) (clean_of args.body) state

  -- The handlers of a server that was configured.
  unfoldable pub memory_write : Fate → WriteArgs → State → Reply × State
  memory_write fate args state = write_at fate args (validate_path ctx.disk args.path) state

  abbrev pub delete_at : Fate → Text → Bool → Option (List Text) → State → Reply × State
  delete_at fate rel_path confirmed none state = (tool_error path, state)
  delete_at fate rel_path confirmed (some full) state =
      let file = rel_of_full full in
      let (outcome, after) =
        delete_note_tx fate.locked fate.committed fate.unlink file rel_path state in
      if not confirmed
      then (tool_error not_confirmed, state)
      else if not (is_some (file_at file state))
      then (tool_error not_found, state)
      else (reply_of (removed rel_path) outcome, after)

  unfoldable pub memory_delete : Fate → Text → (confirmed : Bool) → State → Reply × State
  memory_delete fate rel_path confirmed state =
      delete_at fate rel_path confirmed (validate_path ctx.disk rel_path) state

  abbrev pub shown_body : Text → Text
  shown_body body =
      let (first, second, third, long) = ctx.nonces in
      (wrap_untrusted ctx.charset body (codes "untrusted-note-body") first second third long).0

  abbrev pub read_parsed : Text → Option (Mapping × Text) → Reply
  read_parsed rel none = tool_error validation
  read_parsed rel (some (fm, body)) = note (record {
    title =
        title_of ctx.reader (value_of (codes "title") fm)
          (title_from_body_or_stem ctx.reader body (path_parts rel));
    body = body;
    shown = shown_body body;
  })

  abbrev pub read_raw : Text → Option Text → Reply
  read_raw rel none = raised
  read_raw rel (some raw) =
      read_parsed rel (parse_frontmatter ctx.reader.yaml (universal_newlines raw))

  -- `readable` is whether the read raises no OSError.
  abbrev pub read_file : (readable : Bool) → Text → Option File → Reply
  read_file readable rel none = tool_error not_found
  read_file readable rel (some file) = if readable then read_raw rel file.raw else tool_error io

  abbrev pub read_at : (readable : Bool) → Text → Option (List Text) → State → Reply
  read_at readable rel none state = tool_error path
  read_at readable rel (some full) state = read_file readable rel (file_at (rel_of_full full) state)

  unfoldable pub memory_read : (readable : Bool) → Text → State → Reply
  memory_read readable rel state = read_at readable rel (validate_path ctx.disk rel) state

  unfoldable pub memory_reindex : Fate → State → Reply × State
  memory_reindex fate state =
      let (outcome, after) =
        reindex_under_lock ctx.reader ctx.now_iso fate.locked fate.committed state in
      (reply_of reindexed outcome, after)
