-- ===== src/Memory/Examples.antt =====
-- A vault with a note (src/assistant/tools_sdk/_memory_core.py, memory.py).
use xone_assistant.Prelude.{
  ℕ, ◌≡◌, refl, arith, Bool, true, false, ◌||◌, ◌==◌, if◌then◌else◌, none, some, List, [], ◌∷◌,
  ◌++◌, Text, codes, any, keep, starts_with, ends_with, occurs_in, utf8_length, length,
}
use xone_assistant.Sql.{row_count, fetch_one}
use xone_assistant.Cron.Split.{Unicode, strip, split_on, contains}
use xone_assistant.Patterns.{Charset, between, match_at, run_many, search_from, re_search}
use xone_assistant.Memory.Paths.{
  Disk, is_excluded, path_parts, path_name, is_markdown, relative_to, check_parts, validate_path,
  vault_rel_eligible,
}
use xone_assistant.Memory.Paths.Inside.{IsNotePath, LeadsInside, validate_path_sound}
use xone_assistant.Memory.Frontmatter.{
  Yaml, Mapping, scalar, items, mapping, parse_frontmatter, serialize_frontmatter, rstrip,
}
use xone_assistant.Memory.Frontmatter.Roundtrip.{parse_frontmatter-serialize_frontmatter}
use xone_assistant.Memory.Index.{Row, Reader, area_of}
use xone_assistant.Memory.Untrusted.{
  clean_surrogates, split_lines, ends_line, split_step, has_sentinel, cage, sanitize_body,
  wrap_untrusted,
}
use xone_assistant.Memory.Untrusted.Verbatim.{wrap_untrusted-sanitize_body}
use xone_assistant.Memory.Vault.{
  State, put_file, scan_vault_stats, is_eligible, delete_row, replace_row, renamed, unlinked,
  write_note_tx, delete_note_tx, reindex_vault, maybe_auto_reindex,
}
use xone_assistant.Memory.Vault.Counts.{counts}
use xone_assistant.Memory.Vault.InStep.{InStep, path_of, all_rows, no_notes}
use xone_assistant.Memory.Vault.Repair.{
  is_too_large, gives, maybe_auto_reindex-write_note_tx, reindex_vault-rows,
}
use xone_assistant.Memory.Tools.{
  Context, Fate, WriteArgs, saved, memory_write, memory_read, memory_delete, memory_reindex,
  frontmatter, join,
}
use xone_assistant.Memory.Tools.Errors.{Spares, memory_tools_error}
use xone_assistant.Memory.Tools.Again.{read_again, memory_read-memory_write}

abbrev is_ascii_space : ℕ → Bool
is_ascii_space c = c == b' ' || between 9 13 c

abbrev ascii_unicode : Unicode
ascii_unicode = record { digit = λ c. none; is_space = is_ascii_space }

abbrev ascii : Charset
ascii = record {
  same = λ p c. p == c;
  is_word = λ c. between b'a' b'z' c || c == b'_';
  is_space = is_ascii_space;
}

abbrev disk : Disk
disk = record {
  vault = codes "srv" ∷ codes "vault" ∷ [];
  is_symlink = λ path. false;
  resolve = λ path. path;
}

abbrev full_path : Text → Text → List Text
full_path first name = codes "srv" ∷ codes "vault" ∷ first ∷ name ∷ []

abbrev birthday : Text
birthday = codes "inbox/birthday.md"

birthday_valid :
    validate_path disk birthday ≡ some (full_path (codes "inbox") (codes "birthday.md"))
unfolding validate_path check_parts path_parts path_name is_markdown relative_to is_excluded
    starts_with ends_with split_on
birthday_valid = refl

validate_path_sound_example :
    IsNotePath (path_parts birthday)
    × LeadsInside disk (path_parts birthday) (full_path (codes "inbox") (codes "birthday.md"))
validate_path_sound_example =
    validate_path_sound disk birthday (full_path (codes "inbox") (codes "birthday.md"))
      birthday_valid

-- The second part of this path is an excluded directory.
abbrev hidden : Text
hidden = codes "inbox/.tmp/foo.md"

abbrev hidden_full : List Text
hidden_full = codes "srv" ∷ codes "vault" ∷ codes "inbox" ∷ codes ".tmp" ∷ codes "foo.md" ∷ []

hidden_valid : validate_path disk hidden ≡ some hidden_full
unfolding validate_path check_parts path_parts path_name is_markdown relative_to is_excluded
    starts_with ends_with split_on
hidden_valid = refl

hidden_dropped : vault_rel_eligible (path_parts hidden) ≡ false
unfolding vault_rel_eligible path_parts is_excluded path_name starts_with split_on
hidden_dropped = refl

abbrev fm : Mapping
fm = (codes "title", scalar (codes "a") true) ∷ []

abbrev yaml : Yaml
yaml = record { load = λ block. mapping fm; safe_dump = λ m. codes "title: a\n" }

no_return : contains b'\r' (codes "title: a") ≡ false
unfolding contains
no_return = refl

no_dashes : occurs_in (codes "\n---") (codes "title: a") ≡ false
unfolding occurs_in starts_with
no_dashes = refl

parse_frontmatter-serialize_frontmatter_example :
    parse_frontmatter yaml (serialize_frontmatter yaml fm (codes "hello"))
    ≡ some (fm, codes "\n" ++ rstrip yaml (codes "hello") ++ codes "\n")
parse_frontmatter-serialize_frontmatter_example =
    parse_frontmatter-serialize_frontmatter yaml fm (codes "title: a") (codes "hello")
      (refl, refl, no_return, no_dashes)

hello_sane : sanitize_body ascii ascii_unicode (codes "hello") 100 ≡ some (codes "hello")
unfolding sanitize_body clean_surrogates has_sentinel split_lines split_step ends_line strip
    utf8_length re_search search_from match_at run_many
hello_sane = refl

wrap_untrusted-sanitize_body_example :
    (let (wrapped, nonce) =
        wrap_untrusted ascii
          (codes "hello")
          (codes "untrusted-note-body")
          (codes "1")
          (codes "2")
          (codes "3")
          (codes "4") in
      wrapped ≡ cage (codes "untrusted-note-body") nonce (codes "hello"))
wrap_untrusted-sanitize_body_example =
    wrap_untrusted-sanitize_body ascii ascii_unicode (codes "hello") 100 (codes "hello")
      (codes "untrusted-note-body") (codes "1") (codes "2") (codes "3") (codes "4") hello_sane

abbrev row : Row
row = record {
  path = birthday;
  title = codes "a";
  tags = [];
  area = codes "inbox";
  body = codes "hello";
  created = codes "now";
  updated = codes "now";
}

abbrev reader : Reader
reader = record { unicode = ascii_unicode; title_case = λ t. t; show_list = λ ts. []; yaml = yaml }

birthday_eligible : vault_rel_eligible (path_parts birthday) ≡ true
unfolding vault_rel_eligible path_parts is_excluded path_name starts_with split_on
birthday_eligible = refl

abbrev written : State
written = (write_note_tx true true (renamed 7) birthday row (codes "hello") no_notes).1

not_too_large :
    is_too_large false
      (write_note_tx true false (renamed 7) birthday row (codes "hello") no_notes).1
    ≡ false
unfolding write_note_tx put_file scan_vault_stats vault_rel_eligible path_parts is_excluded
    path_name starts_with split_on
not_too_large = refl

maybe_auto_reindex-write_note_tx_example :
    (let (outcome, after) =
        write_note_tx true false (renamed 7) birthday row (codes "hello") no_notes in
      (¬ InStep after)
      × (maybe_auto_reindex reader (codes "now") false true after
          ≡ reindex_vault reader (codes "now") after))
maybe_auto_reindex-write_note_tx_example =
    maybe_auto_reindex-write_note_tx reader (codes "now") false 7 row (codes "hello") no_notes
      birthday_eligible (omega arith) not_too_large

reindex_vault-rows_example :
    row_count
      (counts path_of all_rows birthday)
      (reindex_vault reader (codes "now") written).store.notes
    ≡ (if any (gives reader (codes "now") birthday) (keep is_eligible written.files) then 1 else 0)
reindex_vault-rows_example = reindex_vault-rows reader (codes "now") written birthday

-- A deletion by another spelling of the path takes the file and leaves the row.
left_behind :
    length
      (delete_note_tx true true unlinked birthday
        (codes "inbox//birthday.md")
        written).1.store.notes
    ≡ 1
unfolding delete_note_tx write_note_tx delete_row replace_row
left_behind = refl

abbrev context : Context
context = record {
  disk = disk;
  reader = reader;
  charset = ascii;
  max_body_bytes = 100;
  now_iso = codes "now";
  nonces = (codes "1", codes "2", codes "3", codes "4");
}

abbrev fate : Fate
fate = record { locked = true; committed = false; rename = renamed 7; unlink = unlinked }

abbrev args : WriteArgs
args = record {
  path = birthday;
  body = some (codes "hello");
  overwrite = false;
  area = none;
  title = some (codes "a");
  tags = some [];
}

memory_tools_error_example :
    Spares no_notes (memory_write context fate args no_notes)
    × Spares no_notes (memory_delete context fate birthday true no_notes)
    × Spares no_notes (memory_reindex context fate no_notes)
memory_tools_error_example = memory_tools_error context fate args birthday true no_notes

-- A YAML library that reads what it wrote for this note.
abbrev birthday_fm : Mapping
birthday_fm =
    (codes "title", scalar (codes "a") true)
    ∷ (codes "tags", items [] [])
    ∷ (codes "area", scalar (codes "inbox") true)
    ∷ (codes "created", scalar (codes "now") true)
    ∷ (codes "updated", scalar (codes "now") true)
    ∷ []

abbrev birthday_context : Context
birthday_context = record {
  disk = disk;
  reader = record {
    unicode = ascii_unicode;
    title_case = λ t. t;
    show_list = λ ts. [];
    yaml = record { load = λ block. mapping birthday_fm; safe_dump = λ m. codes "title: a\n" };
  };
  charset = ascii;
  max_body_bytes = 100;
  now_iso = codes "now";
  nonces = (codes "1", codes "2", codes "3", codes "4");
}

abbrev good_fate : Fate
good_fate = record { locked = true; committed = true; rename = renamed 7; unlink = unlinked }

birthday_loaded :
    mapping birthday_fm
    ≡ mapping (
        frontmatter birthday_context
          (codes "a")
          []
          (area_of (path_parts (join (path_parts birthday))))
          (codes "now"))
unfolding path_parts join split_on
birthday_loaded = refl

birthday_saved :
    (memory_write birthday_context good_fate args no_notes).0
    ≡ saved birthday (codes "a") (codes "inbox")
unfolding memory_write validate_path check_parts path_parts path_name is_markdown relative_to
    is_excluded starts_with ends_with split_on join sanitize_body clean_surrogates has_sentinel
    split_lines split_step ends_line strip utf8_length re_search search_from match_at run_many
    write_note_tx serialize_frontmatter fetch_one
birthday_saved = refl

memory_read-memory_write_example :
    memory_read birthday_context true birthday
      (memory_write birthday_context good_fate args no_notes).1
    ≡ read_again birthday_context good_fate args [] no_notes (codes "a") (codes "hello")
unfolding fetch_one
memory_read-memory_write_example =
    memory_read-memory_write birthday_context good_fate args [] no_notes
      (full_path (codes "inbox") (codes "birthday.md")) (codes "hello") birthday (codes "a")
      (codes "inbox") (codes "title: a") birthday_valid refl hello_sane
      (refl, birthday_loaded, no_return, no_dashes) birthday_saved
