-- ===== src/Tables.antt =====
-- The parser of pipe tables (src/assistant/render_doc/markdown_tables.py).
pub mod Described
pub mod Header
pub mod Grammar
pub mod Examples
use xone_assistant.Prelude.{
  ℕ, zero, suc, ◌+◌, Bool, true, false, not, ◌&&◌, ◌||◌, Option, none, some, List, [], ◌∷◌, ◌++◌,
  ◌==◌, map, if◌then◌else◌, all, length, Text, codes, starts_with, ends_with, text_eq,
}
use mathlib.Core.List.{reverse}
use xone_assistant.Cron.Split.{Unicode, strip, split_on, contains}
use xone_assistant.Patterns.{
  Re, Charset, many, seq, finish, one, maybe, at_least, between, re_match,
}

-- One of "left", "right", "center" and "none".
pub data Alignment : Type 0 where
  to_left to_right centered no_alignment : Alignment

pub record Table : Type 0 where
  pub header : List Text
  pub alignments : List Alignment
  pub rows : List (List Text)

-- text.replace(old, new): `pending` characters of an occurrence are still to be passed over.
unfoldable pub replace_from : (pending : ℕ) → (old new : Text) → Text → Text
replace_from pending old new [] = []
replace_from (suc pending) old new (c ∷ text) = replace_from pending old new text
replace_from zero [] new (c ∷ text) = c ∷ text
replace_from zero (o ∷ old) new (c ∷ text) =
    let further = replace_from zero (o ∷ old) new text in
    let behind_old = replace_from (length old) (o ∷ old) new text in
    if starts_with (o ∷ old) (c ∷ text) then new ++ behind_old else c ∷ further

abbrev pub replace : (old new : Text) → Text → Text
replace old new text = replace_from zero old new text

abbrev pub sentinel : Text
sentinel = zero ∷ codes "ESC_PIPE" ++ (zero ∷ [])

abbrev pub drop_first_pipe : Text → Text
drop_first_pipe [] = []
drop_first_pipe (c ∷ line) = if c == b'|' then line else c ∷ line

abbrev pub drop_last_pipe : Text → Text
drop_last_pipe line = reverse (drop_first_pipe (reverse line))

-- The characters at which str.splitlines ends a line.
unfoldable pub ends_line : ℕ → Bool
ends_line c = between 10 13 c || between 28 30 c || c == 133 || c == 8232 || c == 8233

-- \r\n ends one line.
unfoldable pub join_breaks : Text → Text
join_breaks [] = []
join_breaks (c ∷ text) =
    let joined = join_breaks text in
    if c == b'\r' && starts_with (codes "\n") text then joined else c ∷ joined

abbrev pub line_step : ℕ → List Text → List Text
line_step c [] = if ends_line c then [] ∷ [] else (c ∷ []) ∷ []
line_step c (line ∷ lines) = if ends_line c then [] ∷ line ∷ lines else (c ∷ line) ∷ lines

unfoldable pub lines_of : Text → List Text
lines_of [] = []
lines_of (c ∷ text) = line_step c (lines_of text)

unfoldable pub split_lines : Text → List Text
split_lines text = lines_of (join_breaks text)

abbrev pub is_empty : Text → Bool
is_empty text = text_eq text []

-- What a line can be found to begin.
pub data Found : Type 0 where
  no_table : Found
  malformed : Found
  -- a table, which ends `used` lines further on
  found : (table : Table) → (used : ℕ) → Found

-- `none` is MarkdownTableError("markdown-malformed").
abbrev pub Parsed : Type 0
Parsed = Option (List Table)

-- What is behind this row or table, if nothing there is malformed.
abbrev pub add_row {ℓ} : {A : Type ℓ} → A → Option (List A) → Option (List A)
add_row row none = none
add_row row (some rows) = some (row ∷ rows)

module _ (u : Unicode) (charset : Charset) where
  -- The text of a cell is stripped before the sentinel is taken back.
  abbrev pub cell_of : Text → Text
  cell_of c = replace sentinel (codes "|") (strip u c)

  unfoldable pub split_pipes : Text → List Text
  split_pipes line =
      let escaped = replace (codes "\\|") sentinel line in
      map cell_of (split_on b'|' (drop_last_pipe (drop_first_pipe escaped)))

  unfoldable pub separator_cell_re : Re
  separator_cell_re = seq (many charset.is_space) (
      seq (maybe (one (λ c. c == b':'))) (
        seq (at_least 3 (λ c. c == b'-'))
          (seq (maybe (one (λ c. c == b':'))) (seq (many charset.is_space) finish))))

  unfoldable pub alignment_of : Text → Alignment
  alignment_of cell =
      let stripped = strip u cell in
      let at_start = starts_with (codes ":") stripped in
      let at_end = ends_with (codes ":") stripped in
      if at_start && at_end
      then centered
      else if at_end
      then to_right
      else if at_start
      then to_left
      else no_alignment

  unfoldable pub is_separator_row : Text → Bool
  is_separator_row line = all (re_match charset separator_cell_re) (split_pipes line)

  unfoldable pub is_blank : Text → Bool
  is_blank line = is_empty (strip u line)

  -- A line that a table has as one of its body.
  unfoldable pub is_body : Text → Bool
  is_body line = not (is_blank line) && contains b'|' line

  -- The rows of the body, up to a line that is none.
  unfoldable pub body_rows : (width : ℕ) → List Text → Option (List (List Text))
  body_rows width [] = some []
  body_rows width (line ∷ lines) =
      let cells = split_pipes line in
      let further = add_row cells (body_rows width lines) in
      if not (is_body line) then some [] else if length cells == width then further else none

  abbrev pub with_body :
      (header : List Text) → List Alignment → (blanks : ℕ) → Option (List (List Text)) → Found
  with_body header alignments blanks none = malformed
  with_body header alignments blanks (some rows) =
      found (record { header = header; alignments = alignments; rows = rows })
        (blanks + suc (length rows))

  abbrev pub marks : Text → Bool
  marks line = contains b'|' line && is_separator_row line

  -- The first line behind the header that is not blank, `blanks` lines further on.
  unfoldable pub at_separator : (header : List Text) → (blanks : ℕ) → Text → List Text → Found
  at_separator header blanks line lines =
      let cells = split_pipes line in
      if not (marks line)
      then no_table
      else if not (length cells == length header)
      then malformed
      else with_body header (map alignment_of cells) blanks (body_rows (length header) lines)

  unfoldable pub find_separator : (header : List Text) → (blanks : ℕ) → List Text → Found
  find_separator header blanks [] = no_table
  find_separator header blanks (line ∷ lines) =
      let further = find_separator header (suc blanks) lines in
      if is_blank line then further else at_separator header blanks line lines

  unfoldable pub table_at : Text → List Text → Found
  table_at line lines =
      let header = split_pipes line in
      if not (contains b'|' line)
      then no_table
      else if all is_empty header
      then no_table
      else find_separator header 0 lines

  abbrev pub onward : Found → (ℕ → Parsed) → Parsed
  onward no_table rest = rest 0
  onward malformed rest = none
  onward (found table used) rest = add_row table (rest used)

  -- The loop over the lines: `pending` of them are still to be passed over.
  unfoldable pub parse_lines : (pending : ℕ) → List Text → Parsed
  parse_lines pending [] = some []
  parse_lines (suc pending) (line ∷ lines) = parse_lines pending lines
  parse_lines zero (line ∷ lines) =
      onward (table_at line lines) (λ (pending : ℕ). parse_lines pending lines)

  unfoldable pub parse : Text → Parsed
  parse content_md = if is_blank content_md then some [] else parse_lines 0 (split_lines content_md)
