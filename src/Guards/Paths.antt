-- ===== src/Guards/Paths.antt =====
-- The guard of Read, Write, Edit, Glob and Grep, and the sentinel of the skills
-- (src/assistant/bridge/hooks.py).
pub mod Inside
use xone_assistant.Prelude.{
  ℕ, Bool, true, false, not, ◌&&◌, ◌||◌, Option, none, some, List, [], ◌∷◌, ◌++◌, if◌then◌else◌,
  Text, codes, text_eq, any,
}
use xone_assistant.Guards.{
  Files, Decision, allow, deny, outside_root, invalid_path, file_path_missing, is_relative_to,
}

pub data Tool : Type 0 where
  read write edit glob grep : Tool
  other : Tool

-- Whether a path is inside the root.
abbrev pub check_inside : Files → Option (List Text) → Decision
check_inside files none = deny invalid_path
check_inside files (some path) = if is_relative_to path files.root then allow else deny outside_root

-- ti.get("path") or "."
abbrev pub or_dot : Option Text → Text
or_dot none = codes "."
or_dot (some []) = codes "."
or_dot (some (c ∷ path)) = c ∷ path

module _ (files : Files) where
  -- raw = ti.get("file_path"), where an empty text is no path
  abbrev pub check_required : Option Text → Decision
  check_required none = deny file_path_missing
  check_required (some []) = deny file_path_missing
  check_required (some (c ∷ path)) = check_inside files (files.place (c ∷ path))

  -- `file_path` is what Read, Write and Edit get, `path` what Glob and Grep get.
  unfoldable pub file_hook : Tool → (file_path path : Option Text) → Decision
  unfolding is_relative_to
  file_hook read file_path path = check_required file_path
  file_hook write file_path path = check_required file_path
  file_hook edit file_path path = check_required file_path
  file_hook glob file_path path = check_inside files (files.place (or_dot path))
  file_hook grep file_path path = check_inside files (files.place (or_dot path))
  file_hook other file_path path = allow

  abbrev pub in_either : Option (List Text) → Bool
  in_either none = false
  in_either (some path) =
      is_relative_to path (files.root ++ codes "skills" ∷ [])
      || is_relative_to path (files.root ++ codes "tools" ∷ [])

  -- `parts` are those of Path(raw_path), before it is resolved.
  unfoldable pub is_inside_skills_or_tools : (parts : Text → List Text) → Text → Bool
  unfolding is_relative_to
  is_inside_skills_or_tools parts [] = false
  is_inside_skills_or_tools parts (c ∷ raw_path) =
      if any (text_eq (codes "..")) (parts (c ∷ raw_path))
      then false
      else in_either (files.place (c ∷ raw_path))
