-- ===== src/Guards/Paths/Inside.antt =====
-- The file tools stay inside the project root (src/assistant/bridge/hooks.py).
use xone_assistant.Prelude.{
  true, Option, none, some, List, [], ◌∷◌, ◌++◌, ◌≡◌, ◌≢◌, ◌↔◌, refl, ap, ◌∙◌, Text, text_eq, inl,
  inr, Bool-cases, both_true, text_eq_sound, text_eq_refl,
}
use xone_assistant.Guards.{Files, allow, deny, outside_root, is_relative_to}
use xone_assistant.Guards.Paths.{
  Tool, read, write, edit, glob, grep, other, check_inside, check_required, or_dot, file_hook,
}

-- A path is in a directory when it goes on behind the parts of that directory: being a longer text
-- is not enough.
pub is_relative_to_sound :
    (path root : List Text)
    → is_relative_to path root ≡ true
    → (below : List Text) × (path ≡ root ++ below)
unfolding is_relative_to
is_relative_to_sound path [] h = (path, refl)
is_relative_to_sound [] (part ∷ root) h = absurd (cc (h))
is_relative_to_sound (part ∷ path) (part' ∷ root) h =
    let (head, tail) = both_true (text_eq part part') _ h in
    let (below, e) = is_relative_to_sound path root tail in
    let same = text_eq_sound part part' head in (below, cc (same, e))

pub is_relative_to_complete : (root below : List Text) → is_relative_to (root ++ below) root ≡ true
unfolding is_relative_to
is_relative_to_complete [] below = refl
is_relative_to_complete (part ∷ root) below =
    rw (text_eq_refl part) (is_relative_to_complete root below)

check_inside_iff :
    (files : Files) (found : Option (List Text))
    → (check_inside files found ≡ allow)
      ↔ ((below : List Text) × (found ≡ some (files.root ++ below)))
check_inside_iff files none = (λ h. absurd (cc (h)), λ (below, e). absurd (cc (e)))
check_inside_iff files (some path) = (
  λ h. elim (Bool-cases (is_relative_to path files.root)) [
    | inl inside ↦
        let (below, e) = is_relative_to_sound path files.root inside in (below, ap some e)
    | inr outside ↦ let h' : deny outside_root ≡ allow = rw outside at h in absurd (cc (h'))
  ],
  λ (below, e).
      let path≡ : path ≡ files.root ++ below = cc (e) in
      let inside : is_relative_to path files.root ≡ true =
        rw path≡ (is_relative_to_complete files.root below) in
      rw inside,
)

-- A text that is not empty.
abbrev pub given : Option Text → Option Text
given none = none
given (some []) = none
given (some (c ∷ text)) = some (c ∷ text)

-- The path that a call of a file tool is about; none when it has to have one and has none.
abbrev pub target : Tool → Option Text → Option Text → Option Text
target glob file_path path = some (or_dot path)
target grep file_path path = some (or_dot path)
target tool file_path path = given file_path

-- The text is there, and what it stands for is the root or below it.
abbrev pub IsInside : Files → Option Text → Type 0
IsInside files wanted =
    (text : Text) × (below : List Text) × (wanted ≡ some text)
    × (files.place text ≡ some (files.root ++ below))

allowed_iff :
    (files : Files) (text : Text)
    → (check_inside files (files.place text) ≡ allow) ↔ IsInside files (some text)
allowed_iff files text =
    let at = check_inside_iff files (files.place text) in
    (
      λ h. let (below, e) = at.0 h in (text, below, refl, e),
      λ (text', below, e, found).
          let same : text ≡ text' = cc (e) in at.1 (below, ap files.place same ∙ found),
    )

required_iff :
    (files : Files) (file_path : Option Text)
    → (check_required files file_path ≡ allow) ↔ IsInside files (given file_path)
required_iff files none = (λ h. absurd (cc (h)), λ (text, below, e, found). absurd (cc (e)))
required_iff files (some []) = (λ h. absurd (cc (h)), λ (text, below, e, found). absurd (cc (e)))
required_iff files (some (c ∷ text)) = allowed_iff files (c ∷ text)

-- A call of a file tool is allowed exactly when its path resolves to the project root or to
-- something below it: the path of Read, Write and Edit is file_path, which has to be there; that of
-- Glob and Grep is path, or "." when it is missing or empty.
pub file_hook_iff :
    (files : Files) (tool : Tool) (file_path path : Option Text)
    → tool ≢ other
    → (file_hook files tool file_path path ≡ allow) ↔ IsInside files (target tool file_path path)
unfolding file_hook
file_hook_iff files read file_path path h = required_iff files file_path
file_hook_iff files write file_path path h = required_iff files file_path
file_hook_iff files edit file_path path h = required_iff files file_path
file_hook_iff files glob file_path path h = allowed_iff files (or_dot path)
file_hook_iff files grep file_path path h = allowed_iff files (or_dot path)
file_hook_iff files other file_path path h = absurd (h refl)
