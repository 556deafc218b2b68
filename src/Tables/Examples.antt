-- ===== src/Tables/Examples.antt =====
-- A text with a table (src/assistant/render_doc/markdown_tables.py).
use xone_assistant.Prelude.{
  ℕ, ◌≡◌, refl, Bool, false, ◌||◌, ◌==◌, none, some, [], ◌∷◌, Text, codes, starts_with, ends_with,
}
use xone_assistant.Cron.Split.{Unicode, strip, split_on, contains}
use xone_assistant.Patterns.{Charset, between, run_many, match_at, re_match}
use xone_assistant.Tables.{
  Table, centered, no_alignment, ends_line, join_breaks, lines_of, replace_from, split_lines,
  split_pipes, separator_cell_re, alignment_of, is_separator_row, is_blank, is_body, body_rows,
  at_separator, find_separator, table_at, parse_lines, parse,
}
use xone_assistant.Tables.Grammar.{Document, parse-Document}

abbrev is_ascii_space : ℕ → Bool
is_ascii_space c = c == b' ' || between 9 13 c

abbrev ascii_unicode : Unicode
ascii_unicode = record { digit = λ c. none; is_space = is_ascii_space }

abbrev ascii : Charset
ascii = record {
  same = λ p c. p == c;
  is_word = λ c. between b'a' b'z' c || c == b'_';
  is_space = is_ascii_space;
}

abbrev content : Text
content = codes "x\n|a|b|\r\n|:---:|---|\n|1\\|| 2 |\n"

abbrev content_table : Table
content_table = record {
  header = codes "a" ∷ codes "b" ∷ [];
  alignments = centered ∷ no_alignment ∷ [];
  rows = (codes "1|" ∷ codes "2" ∷ []) ∷ [];
}

content_parsed : parse ascii_unicode ascii content ≡ some (content_table ∷ [])
unfolding parse split_lines join_breaks lines_of ends_line parse_lines table_at find_separator
    at_separator body_rows is_body is_blank is_separator_row alignment_of separator_cell_re
    split_pipes replace_from strip split_on contains starts_with ends_with re_match match_at
    run_many
content_parsed = refl

-- A header without a separator is passed over.
no_separator : parse ascii_unicode ascii (codes "|a|b|\n|1|2|") ≡ some []
unfolding parse split_lines join_breaks lines_of ends_line parse_lines table_at find_separator
    at_separator body_rows is_body is_blank is_separator_row alignment_of separator_cell_re
    split_pipes replace_from strip split_on contains starts_with ends_with re_match match_at
    run_many
no_separator = refl

content_full : is_blank ascii_unicode ascii content ≡ false
unfolding is_blank strip
content_full = refl

parse-Document_example :
    Document ascii_unicode ascii (split_lines content) (parse ascii_unicode ascii content)
parse-Document_example = parse-Document ascii_unicode ascii content content_full
