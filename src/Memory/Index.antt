-- ===== src/Memory/Index.antt =====
-- The rows that the index has of the notes: _parse_note_for_index and _title_from_body_or_stem of
-- src/assistant/tools_sdk/_memory_core.py.
use xone_assistant.Prelude.{
  ℕ, Bool, true, not, Option, none, some, List, [], ◌∷◌, ◌++◌, ◌==◌, if◌then◌else◌, Text, codes,
  text_eq, any, ◌-◌, length, take,
}
use xone_assistant.Cron.Split.{Unicode, strip}
use xone_assistant.Memory.Paths.{path_parts, path_name, is_markdown}
use xone_assistant.Memory.Frontmatter.{
  Yaml, Value, Mapping, scalar, items, null, parse_frontmatter, universal_newlines,
}

-- A row of `notes`; the column `tags` has the list as JSON.
pub record Row : Type 0 where
  pub path : Text
  pub title : Text
  pub tags : List Text
  pub area : Text
  pub body : Text
  pub created : Text
  pub updated : Text

-- What the index takes from Python: its characters, str.title, str of a list, and yaml.
pub record Reader : Type 0 where
  pub unicode : Unicode
  pub title_case : Text → Text
  pub show_list : List Text → Text
  pub yaml : Yaml

-- fm.get(key)
unfoldable pub value_of : Text → Mapping → Option Value
value_of key [] = none
value_of key ((k, v) ∷ fm) = let rest = value_of key fm in if text_eq k key then some v else rest

-- str(value) if value, and else the other
abbrev pub shown_or : Text → Option Value → Text
shown_or default none = default
shown_or default (some (scalar shown is_true)) = if is_true then shown else default
shown_or default (some (items shown [])) = default
shown_or default (some (items shown (item ∷ rest))) = shown
shown_or default (some null) = default

-- The items of fm.get("tags") or []
abbrev pub tags_of : Option Value → List Text
tags_of none = []
tags_of (some (scalar shown is_true)) = if is_true then shown ∷ [] else []
tags_of (some (items shown tags)) = tags
tags_of (some null) = []

-- The area of a path: its first part, when there are others.
abbrev pub area_of : List Text → Text
area_of (first ∷ next ∷ rest) = first
area_of _ = []

-- The text up to the end of its line.
abbrev pub line_of : Text → Text
line_of [] = []
line_of (c ∷ text) = let rest = line_of text in if c == b'\n' then [] else c ∷ rest

-- Replacing "-" by " ".
abbrev pub spaced : Text → Text
spaced [] = []
spaced (c ∷ text) = (if c == b'-' then b' ' else c) ∷ spaced text

-- Path.stem, for a name that ends in .md
abbrev pub drop_last : ℕ → Text → Text
drop_last n text = take (length text - n) text

module _ (u : Unicode) where
  -- \s+(.+)$ behind a `#`: what the group takes, when white space follows to the end of the text,
  -- is the last of it that is no newline.
  abbrev pub blank_heading : Text → Option Text
  blank_heading [] = none
  blank_heading (c ∷ blanks) = if any (λ d. not (d == b'\n')) blanks then some [] else none

  abbrev pub heading_text : Text → Text → Option Text
  heading_text blanks [] = blank_heading blanks
  heading_text blanks (c ∷ text) =
      let rest = heading_text (blanks ++ c ∷ []) text in
      if u.is_space c then rest else if text_eq blanks [] then none else some (line_of (c ∷ text))

  abbrev pub heading_at : Text → Option Text
  heading_at [] = none
  heading_at (c ∷ text) = let found = heading_text [] text in if c == b'#' then found else none

  abbrev pub or_later : Option Text → Option Text → Option Text
  or_later none later = later
  or_later (some text) later = some text

  -- re.search(r"^#\s+(.+)$", body, re.MULTILINE), by whether a line begins here
  unfoldable pub find_heading : Bool → Text → Option Text
  find_heading begins [] = none
  find_heading begins (c ∷ text) =
      let later = find_heading (c == b'\n') text in
      if begins then or_later (heading_at (c ∷ text)) later else later

module _ (reader : Reader) where
  abbrev pub title_or : Option Text → Text → Text
  title_or none stem = reader.title_case (spaced stem)
  title_or (some heading) stem = strip reader.unicode heading

  unfoldable pub title_from_body_or_stem : Text → List Text → Text
  title_from_body_or_stem body parts =
      title_or (find_heading reader.unicode true body)
        (if is_markdown (path_name parts) then drop_last 3 (path_name parts) else path_name parts)

  abbrev pub title_of : Option Value → Text → Text
  title_of none fallback = fallback
  title_of (some (scalar shown is_true)) fallback =
      if is_true then strip reader.unicode shown else fallback
  title_of (some null) fallback = fallback
  title_of (some (items shown [])) fallback = fallback
  title_of (some (items shown (item ∷ rest))) fallback = strip reader.unicode shown

  -- `now` is the time as isoformat() writes it.
  abbrev pub row_of : Text → Text → Option (Mapping × Text) → Option Row
  row_of now rel none = none
  row_of now rel (some (fm, body)) =
      let created = shown_or now (value_of (codes "created") fm) in
      some (record {
        path = rel;
        title =
            title_of (value_of (codes "title") fm) (title_from_body_or_stem body (path_parts rel));
        tags = tags_of (value_of (codes "tags") fm);
        area = shown_or (area_of (path_parts rel)) (value_of (codes "area") fm);
        body = body;
        created = created;
        updated = shown_or created (value_of (codes "updated") fm);
      })

  -- `raw` is the text as it is in the file, none when it is no UTF-8; the result is none when it is skipped.
  unfoldable pub parse_note_for_index : Text → Text → Option Text → Option Row
  parse_note_for_index now rel none = none
  parse_note_for_index now rel (some raw) =
      row_of now rel (parse_frontmatter reader.yaml (universal_newlines raw))
