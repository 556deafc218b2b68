-- ===== src/Tables/Header.antt =====
-- What stands behind the header of a table, as the parser of pipe tables finds it
-- (src/assistant/render_doc/markdown_tables.py).
use xone_assistant.Prelude.{
  ℕ, suc, ◌+◌, ◌≡◌, refl, sym, ap, arith, true, false, ◌⊎◌, inl, inr, Bool-cases, Option, none,
  some, List, [], ◌∷◌, ◌++◌, ◌==◌, ==_iff, map, All, length, drop, drop-zero, Text,
}
use mathlib.Core.Path.{subst}
use xone_assistant.Cron.Split.{Unicode}
use xone_assistant.Patterns.{Charset}
use xone_assistant.Tables.{
  Table, Found, no_table, malformed, found, alignment_of, is_blank, with_body, marks, at_separator,
  find_separator,
}
use xone_assistant.Tables.Described.{cells, IsUneven, Reads, DescribesBody, body_rows-Describes}

drop-body :
    (f : Text → List Text) (body behind : List Text)
    → drop (length (map f body)) (body ++ behind) ≡ behind
drop-body f [] behind = drop-zero behind
drop-body f (line ∷ body) behind = drop-body f body behind

module _ (u : Unicode) (charset : Charset) where
  -- The first line that is not blank, with the lines in front of it and behind it.
  abbrev pub IsFirst : (blanks : List Text) → Text → List Text → List Text → Type 0
  IsFirst blanks line below lines =
      (lines ≡ blanks ++ line ∷ below)
      × All (λ l. is_blank u charset l ≡ true) blanks
      × (is_blank u charset line ≡ false)

  -- No separator follows.
  abbrev pub NoMark : List Text → Type 0
  NoMark lines =
      All (λ l. is_blank u charset l ≡ true) lines
      ⊎ ((blanks : List Text) × (line : Text) × (below : List Text) × IsFirst blanks line below
            lines
          × (marks u charset line ≡ false))

  -- Behind a header stand a separator with as many cells and a body, up to the lines `behind`.
  abbrev pub IsTable : (header : List Text) → Table → List Text → List Text → Type 0
  IsTable header table lines behind =
      (blanks : List Text) × (line : Text) × (below : List Text) × IsFirst blanks line below lines
      × (marks u charset line ≡ true)
      × (length (cells u charset line) ≡ length header)
      × (table.header ≡ header)
      × (table.alignments ≡ map (alignment_of u charset) (cells u charset line))
      × Reads u charset (length header) below table.rows behind

  -- A separator or a line of the body has another number of cells.
  abbrev pub IsMalformed : (header : List Text) → List Text → Type 0
  IsMalformed header lines =
      (blanks : List Text) × (line : Text) × (below : List Text) × IsFirst blanks line below lines
      × (marks u charset line ≡ true)
      × (((length (cells u charset line) == length header) ≡ false)
          ⊎ IsUneven u charset (length header) below)

  abbrev pub DescribesFrom : (header : List Text) → ℕ → List Text → Found → Type 0
  DescribesFrom header n lines no_table = NoMark lines
  DescribesFrom header n lines malformed = IsMalformed header lines
  DescribesFrom header n lines (found table used) =
      (k : ℕ) × (used ≡ n + k) × IsTable header table lines (drop k lines)

  with_body-Describes :
      (header : List Text) (n : ℕ) (line : Text) (lines : List Text) (o : Option (List (List Text)))
      → is_blank u charset line ≡ false
      → marks u charset line ≡ true
      → length (cells u charset line) ≡ length header
      → DescribesBody u charset (length header) lines o
      → DescribesFrom header n
          (line ∷ lines)
          (with_body u charset header (map (alignment_of u charset) (cells u charset line)) n o)
  with_body-Describes header n line lines none full mark same uneven =
      ([], line, lines, (refl, tt, full), mark, inr uneven)
  with_body-Describes header n line lines (some rows) full mark same
        (behind, (body, e, same_rows, row, end)) =
      let past : drop (length rows) lines ≡ behind =
        rw (e, same_rows) (drop-body (cells u charset) body behind) in
      let reads : Reads u charset (length header) lines rows (drop (length rows) lines) =
        subst (λ ls. Reads u charset (length header) lines rows ls) (sym past)
          (body, e, same_rows, row, end) in
      (suc (length rows), refl, ([], line, lines, (refl, tt, full), mark, same, refl, refl, reads))

  at_separator-Describes :
      (header : List Text) (n : ℕ) (line : Text) (lines : List Text)
      → is_blank u charset line ≡ false
      → DescribesFrom header n (line ∷ lines) (at_separator u charset header n line lines)
  unfolding at_separator
  at_separator-Describes header n line lines full = elim (Bool-cases (marks u charset line)) [
    | inr e ↦ rw e (inr ([], line, lines, (refl, tt, full), e))
    | inl e ↦ elim (Bool-cases (length (cells u charset line) == length header)) [
      | inr odd ↦ rw (e, odd) ([], line, lines, (refl, tt, full), e, inl odd)
      | inl even ↦
          let same = (==_iff (length (cells u charset line)) (length header)).0 even in
          rw (e, even)
            (with_body-Describes header n line lines _ full e same
              (body_rows-Describes u charset (length header) lines))
    ]
  ]

  -- What is said of the lines behind a blank line holds with it.
  blank-Describes :
      (header : List Text) (n : ℕ) (line : Text) (lines : List Text) (f : Found)
      → is_blank u charset line ≡ true
      → DescribesFrom header (suc n) lines f
      → DescribesFrom header n (line ∷ lines) f
  blank-Describes header n line lines no_table b (inl blanks) = inl (b, blanks)
  blank-Describes header n line lines no_table b (inr (blanks, sep, below, (e, bs, full), h)) =
      inr (line ∷ blanks, sep, below, (ap (λ ls. line ∷ ls) e, (b, bs), full), h)
  blank-Describes header n line lines malformed b (blanks, sep, below, (e, bs, full), mark, h) =
      (line ∷ blanks, sep, below, (ap (λ ls. line ∷ ls) e, (b, bs), full), mark, h)
  blank-Describes header n line lines (found table used) b
        (k, past, (blanks, sep, below, (e, bs, full), mark, wide, head, aligned, reads)) =
      (
        suc k,
        omega (arith, past),
        (
          line ∷ blanks,
          sep,
          below,
          (ap (λ ls. line ∷ ls) e, (b, bs), full),
          mark,
          wide,
          head,
          aligned,
          reads,
        ),
      )

  pub find_separator-Describes :
      (header : List Text) (n : ℕ) (lines : List Text)
      → DescribesFrom header n lines (find_separator u charset header n lines)
  unfolding find_separator
  find_separator-Describes header n [] = inl tt
  find_separator-Describes header n (line ∷ lines) = elim (Bool-cases (is_blank u charset line)) [
    | inl e ↦
        rw e
          (blank-Describes header n line lines _ e (find_separator-Describes header (suc n) lines))
    | inr e ↦ rw e (at_separator-Describes header n line lines e)
  ]
