-- ===== src/Memory/Paths.antt =====
-- Which paths name a note: validate_path and _vault_rel_eligible of
-- src/assistant/tools_sdk/_memory_core.py.
pub mod Inside
use xone_assistant.Prelude.{
  ℕ, Bool, true, false, not, ◌&&◌, ◌||◌, Option, none, some, List, [], ◌∷◌, ◌++◌, ◌==◌,
  if◌then◌else◌, ltb, any, keep, length, Text, codes, text_eq, starts_with, ends_with,
}
use xone_assistant.Cron.Split.{split_on}

-- The file system: the parts of the resolved vault, whether a path is a symbolic link, and what
-- Path.resolve makes of a path.
pub record Disk : Type 0 where
  pub vault : List Text
  pub is_symlink : List Text → Bool
  pub resolve : List Text → List Text

-- _VAULT_SCAN_EXCLUDES
abbrev pub scan_excludes : List Text
scan_excludes =
    codes ".obsidian"
    ∷ codes ".tmp"
    ∷ codes ".git"
    ∷ codes ".trash"
    ∷ codes "__pycache__"
    ∷ codes ".DS_Store"
    ∷ []

unfoldable pub is_excluded : Text → Bool
is_excluded part = any (text_eq part) scan_excludes

-- A part that pathlib keeps.
abbrev pub is_part : Text → Bool
is_part part = not (text_eq part []) && not (text_eq part (codes "."))

-- Path(rel).parts, for a relative path
unfoldable pub path_parts : Text → List Text
unfolding split_on
path_parts rel = keep is_part (split_on b'/' rel)

-- Path(rel).name
unfoldable pub path_name : List Text → Text
path_name [] = []
path_name (part ∷ []) = part
path_name (part ∷ next ∷ rest) = path_name (next ∷ rest)

-- p.suffix == ".md", by the name
unfoldable pub is_markdown : Text → Bool
unfolding ends_with
is_markdown name = ltb 3 (length name) && ends_with (codes ".md") name

-- full.relative_to(vault_resolved): what is below the vault
unfoldable pub relative_to : List Text → List Text → Option (List Text)
relative_to [] full = some full
relative_to (part ∷ vault) [] = none
relative_to (part ∷ vault) (part' ∷ full) =
    let below = relative_to vault full in if text_eq part part' then below else none

abbrev pub is_reserved : List Text → Bool
is_reserved [] = false
is_reserved (first ∷ rest) = is_excluded first || starts_with (codes ".") first

module _ (disk : Disk) where
  abbrev pub if_inside : List Text → Option (List Text) → Option (List Text)
  if_inside full none = none
  if_inside full (some below) = some full

  abbrev pub check_link : List Text → Option (List Text)
  check_link raw =
      let full = disk.resolve raw in
      if disk.is_symlink raw then none else if_inside full (relative_to disk.vault full)

  unfoldable pub check_parts : List Text → Option (List Text)
  check_parts parts =
      if any (text_eq (codes "..")) parts
      then none
      else if not (is_markdown (path_name parts))
      then none
      else if starts_with (codes "_") (path_name parts)
      then none
      else if is_reserved parts
      then none
      else check_link (disk.vault ++ parts)

  -- `none` is ValueError. A value that is no text is refused as the empty text is.
  unfoldable pub validate_path : Text → Option (List Text)
  unfolding check_parts path_parts
  validate_path [] = none
  validate_path (c ∷ rel) =
      if c == b'/' || c == b'~' then none else check_parts (path_parts (c ∷ rel))

unfoldable pub vault_rel_eligible : List Text → Bool
unfolding is_excluded path_name starts_with
vault_rel_eligible parts =
    if any is_excluded parts then false else not (starts_with (codes "_") (path_name parts))
