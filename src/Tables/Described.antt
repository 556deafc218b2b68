-- ===== src/Tables/Described.antt =====
-- What the lines of a text have where the parser finds a table or a malformed one
-- (src/assistant/render_doc/markdown_tables.py).
use xone_assistant.Prelude.{
  ℕ, ◌≡◌, refl, ap, true, false, inl, inr, Bool-cases, Option, none, some, List, [], ◌∷◌, ◌++◌,
  ◌==◌, ==_iff, map, All, length, Text,
}
use xone_assistant.Cron.Split.{Unicode}
use xone_assistant.Patterns.{Charset}
use xone_assistant.Tables.{add_row, split_pipes, is_body, body_rows}

module _ (u : Unicode) (charset : Charset) where
  abbrev pub cells : Text → List Text
  cells = split_pipes u charset

  -- Lines that are the body of a table with `width` columns.
  abbrev pub IsRow : (width : ℕ) → Text → Type 0
  IsRow width line = (is_body u charset line ≡ true) × (length (cells line) ≡ width)

  -- Where a body ends: with the text, or in front of a line that is none of a body.
  abbrev pub EndsBody : List Text → Type 0
  EndsBody [] = Unit {0}
  EndsBody (line ∷ lines) = is_body u charset line ≡ false

  -- The rows of a body, and the lines behind it.
  abbrev pub Reads : (width : ℕ) → List Text → List (List Text) → List Text → Type 0
  Reads width lines rows behind =
      (body : List Text) × (lines ≡ body ++ behind)
      × (rows ≡ map cells body)
      × All (IsRow width) body
      × EndsBody behind

  -- A line of a body that has another number of cells than the header.
  abbrev pub IsUneven : (width : ℕ) → List Text → Type 0
  IsUneven width lines =
      (body : List Text) × (line : Text) × (behind : List Text) × (lines ≡ body ++ line ∷ behind)
      × All (IsRow width) body
      × (is_body u charset line ≡ true)
      × ((length (cells line) == width) ≡ false)

  abbrev pub DescribesBody : (width : ℕ) → List Text → Option (List (List Text)) → Type 0
  DescribesBody width lines none = IsUneven width lines
  DescribesBody width lines (some rows) = (behind : List Text) × Reads width lines rows behind

  add_row-Describes :
      (width : ℕ) (line : Text) (lines : List Text) (o : Option (List (List Text)))
      → IsRow width line
      → DescribesBody width lines o
      → DescribesBody width (line ∷ lines) (add_row (cells line) o)
  add_row-Describes width line lines none row (body, odd, behind, e, rows, h, k) =
      (line ∷ body, odd, behind, ap (λ ls. line ∷ ls) e, (row, rows), h, k)
  add_row-Describes width line lines (some read) row (behind, (body, e, same, rows, h)) = (
    behind,
    (line ∷ body, ap (λ ls. line ∷ ls) e, ap (λ ls. cells line ∷ ls) same, (row, rows), h),
  )

  pub body_rows-Describes :
      (width : ℕ) (lines : List Text) → DescribesBody width lines (body_rows u charset width lines)
  unfolding body_rows
  body_rows-Describes width [] = ([], ([], refl, refl, tt, tt))
  body_rows-Describes width (line ∷ lines) = elim (Bool-cases (is_body u charset line)) [
    | inr e ↦ rw e (line ∷ lines, ([], refl, refl, tt, e))
    | inl e ↦ elim (Bool-cases (length (cells line) == width)) [
      | inl same ↦
          let row : IsRow width line = (e, (==_iff (length (cells line)) width).0 same) in
          rw (e, same)
            (add_row-Describes width line lines (body_rows u charset width lines) row
              (body_rows-Describes width lines))
      | inr odd ↦ rw (e, odd) ([], line, lines, refl, tt, e, odd)
    ]
  ]
