-- ===== src/Tables/Grammar.antt =====
-- The grammar of the texts that the parser of pipe tables reads
-- (src/assistant/render_doc/markdown_tables.py).
use xone_assistant.Prelude.{
  ℕ, zero, suc, ◌≡◌, arith, true, false, ◌⊎◌, inl, inr, Bool-cases, none, some, List, [], ◌∷◌, all,
  drop, drop-zero, Text,
}
use mathlib.Core.Path.{subst}
use xone_assistant.Cron.Split.{Unicode, contains}
use xone_assistant.Patterns.{Charset}
use xone_assistant.Tables.{
  Table, Found, no_table, malformed, found, Parsed, add_row, is_empty, split_lines, is_blank,
  table_at, onward, parse_lines, parse,
}
use xone_assistant.Tables.Described.{cells}
use xone_assistant.Tables.Header.{
  NoMark, IsTable, IsMalformed, DescribesFrom, find_separator-Describes,
}

module _ (u : Unicode) (charset : Charset) where
  -- A line that no table begins with: it has no pipe, or no cell with text, or no separator
  -- follows.
  abbrev pub IsPassed : Text → List Text → Type 0
  IsPassed line lines =
      (contains b'|' line ≡ false)
      ⊎ (all is_empty (cells u charset line) ≡ true)
      ⊎ NoMark u charset lines

  abbrev pub IsHeader : Text → Type 0
  IsHeader line = (contains b'|' line ≡ true) × (all is_empty (cells u charset line) ≡ false)

  -- The lines of a text and what is read from them; `none` if a table is malformed.
  pub data Document : List Text → Parsed → Type 0 where
    finished : Document [] (some [])
    passed :
        {line : Text} {lines : List Text} {parsed : Parsed}
        → IsPassed line lines
        → Document lines parsed
        → Document (line ∷ lines) parsed
    read :
        {line : Text} {lines behind : List Text} {table : Table} {parsed : Parsed}
        → IsHeader line
        → IsTable u charset (cells u charset line) table lines behind
        → Document behind parsed
        → Document (line ∷ lines) (add_row table parsed)
    broken :
        {line : Text} {lines : List Text}
        → IsHeader line
        → IsMalformed u charset (cells u charset line) lines
        → Document (line ∷ lines) none

  abbrev pub DescribesLine : Text → List Text → Found → Type 0
  DescribesLine line lines no_table = IsPassed line lines
  DescribesLine line lines malformed =
      IsHeader line × IsMalformed u charset (cells u charset line) lines
  DescribesLine line lines (found table used) =
      IsHeader line × IsTable u charset (cells u charset line) table lines (drop used lines)

  header-Describes :
      (line : Text) (lines : List Text) (f : Found)
      → IsHeader line
      → DescribesFrom u charset (cells u charset line) 0 lines f
      → DescribesLine line lines f
  header-Describes line lines no_table header h = inr (inr h)
  header-Describes line lines malformed header h = (header, h)
  header-Describes line lines (found table used) header (k, past, h) =
      let same : k ≡ used = omega (arith, past) in
      (
        header,
        subst (λ n. IsTable u charset (cells u charset line) table lines (drop n lines)) same h,
      )

  table_at-Describes :
      (line : Text) (lines : List Text) → DescribesLine line lines (table_at u charset line lines)
  unfolding table_at
  table_at-Describes line lines = elim (Bool-cases (contains b'|' line)) [
    | inr e ↦ rw e (inl e)
    | inl e ↦ elim (Bool-cases (all is_empty (cells u charset line))) [
      | inl none_full ↦ rw (e, none_full) (inr (inl none_full))
      | inr full ↦
          rw (e, full)
            (header-Describes line lines _ (e, full)
              (find_separator-Describes u charset (cells u charset line) 0 lines))
    ]
  ]

  onward-Document :
      (line : Text) (lines : List Text) (f : Found)
      → DescribesLine line lines f
      → ((n : ℕ) → Document (drop n lines) (parse_lines u charset n lines))
      → Document (line ∷ lines) (onward u charset f (λ n. parse_lines u charset n lines))
  onward-Document line lines no_table h further =
      passed h
        (subst (λ ls. Document ls (parse_lines u charset 0 lines)) (drop-zero lines) (further 0))
  onward-Document line lines malformed (header, h) further = broken header h
  onward-Document line lines (found table used) (header, h) further = read header h (further used)

  parse_lines-Document :
      (pending : ℕ) (lines : List Text)
      → Document (drop pending lines) (parse_lines u charset pending lines)
  unfolding parse_lines
  parse_lines-Document pending [] = finished
  parse_lines-Document (suc pending) (line ∷ lines) = parse_lines-Document pending lines
  parse_lines-Document zero (line ∷ lines) =
      onward-Document line lines (table_at u charset line lines) (table_at-Describes line lines)
        (λ n. parse_lines-Document n lines)

  -- What the parser returns for a text that is not blank is what the grammar of documents says of
  -- its lines: each is passed over, for a reason that the grammar names, or belongs to a table
  -- that is returned, in order, up to the first table with an uneven line, which is the error.
  pub parse-Document :
      (content_md : Text)
      → is_blank u charset content_md ≡ false
      → Document (split_lines content_md) (parse u charset content_md)
  unfolding parse
  parse-Document content_md full =
      let lines = split_lines content_md in
      let document =
        subst (λ ls. Document ls (parse_lines u charset 0 lines)) (drop-zero lines)
          (parse_lines-Document 0 lines) in
      rw full document
