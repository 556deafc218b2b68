-- ===== src/Memory/Frontmatter/Roundtrip.antt =====
-- A note that is written can be read again (src/assistant/tools_sdk/_memory_core.py).
use xone_assistant.Prelude.{
  ℕ, ◌≡◌, refl, neither, ap, arith, false, Bool-cases, none, some, [], ◌∷◌, ◌++◌, inl, inr, ◌==◌,
  Text, codes, starts_with, occurs_in,
}
use xone_assistant.Cron.Split.{contains}
use xone_assistant.Memory.Frontmatter.{
  Mapping, Yaml, mapping, at_close, find_close, frontmatter_match, universal_newlines,
  parse_frontmatter, serialize_frontmatter, rstrip, drop_break, drop_newline, behind_dashes,
}

append_assoc : (a b c : Text) → a ++ b ++ c ≡ a ++ (b ++ c)
append_assoc [] b c = refl
append_assoc (x ∷ a) b c = ap (◌∷◌ x) (append_assoc a b c)

dashes-none :
    (block tail : Text)
    → starts_with (codes "---") block ≡ false
    → behind_dashes (block ++ b'\n' ∷ tail) ≡ none
unfolding starts_with
dashes-none [] [] h = refl
dashes-none [] (a ∷ []) h = refl
dashes-none [] (a ∷ b ∷ tail) h = refl
dashes-none (a ∷ []) [] h = refl
dashes-none (a ∷ []) (b ∷ tail) h = ground arith
dashes-none (a ∷ b ∷ []) tail h = ground arith
dashes-none (a ∷ b ∷ c ∷ block) tail h = ground arith

at_close-none :
    (c : ℕ) (block tail : Text)
    → (c == b'\r') ≡ false
    → starts_with (codes "\n---") (c ∷ block) ≡ false
    → at_close (c ∷ (block ++ b'\n' ∷ tail)) ≡ none
unfolding at_close starts_with
at_close-none c block tail plain h = elim (Bool-cases (c == b'\n')) [
  | inl e ↦
      let h' : starts_with (codes "---") block ≡ false = ground (arith, h, e) in
      rw (plain, e) (dashes-none block tail h')
  | inr e ↦ rw (plain, e)
]

-- The regular expression ends the block where it ends, when no line of it begins with three dashes
-- and it has no carriage return.
find_close-end :
    (block body : Text)
    → contains b'\r' block ≡ false
    → occurs_in (codes "\n---") block ≡ false
    → find_close (block ++ (codes "\n---\n" ++ body)) ≡ some (block, body)
unfolding find_close drop_break drop_newline at_close occurs_in contains
find_close-end [] body plain h = refl
find_close-end (c ∷ block) body plain h =
    let plain' : (c == b'\r') ≡ false = ground (arith, plain) in
    let plain_rest : contains b'\r' block ≡ false = ground (arith, plain) in
    let (first, rest) = neither (starts_with (codes "\n---") (c ∷ block)) _ h in
    let closed = at_close-none c block (codes "---\n" ++ body) plain' first in
    rw (closed, find_close-end block body plain_rest rest)

-- What can be said of the YAML library: the text that it writes ends in a newline, has no carriage
-- return and no line that begins with three dashes, and is read as what was written.
abbrev pub Writes : Yaml → Mapping → Text → Type 0
Writes yaml fm block =
    (yaml.safe_dump fm ≡ block ++ codes "\n")
    × (yaml.load block ≡ mapping fm)
    × (contains b'\r' block ≡ false)
    × (occurs_in (codes "\n---") block ≡ false)

-- A block between its dashes is read, and what is behind the second ones is the body.
parse_frontmatter-block :
    (yaml : Yaml) (fm : Mapping) (block body : Text)
    → Writes yaml fm block
    → parse_frontmatter yaml (codes "---\n" ++ (block ++ (codes "\n---\n" ++ body)))
      ≡ some (fm, body)
unfolding parse_frontmatter frontmatter_match
parse_frontmatter-block yaml fm block body (dumped, loaded, plain, open_block) =
    rw (find_close-end block body plain open_block, loaded)

serialize_frontmatter-block :
    (yaml : Yaml) (fm : Mapping) (block body : Text)
    → Writes yaml fm block
    → serialize_frontmatter yaml fm body
      ≡ codes "---\n" ++ (block ++ (codes "\n---\n" ++ b'\n' ∷ (rstrip yaml body ++ codes "\n")))
unfolding serialize_frontmatter
serialize_frontmatter-block yaml fm block body (dumped, loaded, plain, open_block) =
    let back = rstrip yaml body ++ codes "\n" in
    rw (dumped, append_assoc block (codes "\n") (codes "---\n\n" ++ back))

universal_newlines-append :
    (front back : Text)
    → contains b'\r' front ≡ false
    → universal_newlines (front ++ back) ≡ front ++ universal_newlines back
unfolding universal_newlines contains
universal_newlines-append [] back plain = refl
universal_newlines-append (c ∷ front) back plain =
    let plain' : (c == b'\r') ≡ false = ground (arith, plain) in
    let plain_rest : contains b'\r' front ≡ false = ground (arith, plain) in
    rw (plain', universal_newlines-append front back plain_rest)

-- For a mapping that the program's YAML loader and dumper keep, with a block that has no carriage
-- return and no line that begins with three dashes: a note that is written has the same front
-- matter when its text is parsed; its body is what it was, without the newlines at its end, between
-- two new ones.
pub parse_frontmatter-serialize_frontmatter :
    (yaml : Yaml) (fm : Mapping) (block body : Text)
    → Writes yaml fm block
    → parse_frontmatter yaml (serialize_frontmatter yaml fm body)
      ≡ some (fm, codes "\n" ++ rstrip yaml body ++ codes "\n")
parse_frontmatter-serialize_frontmatter yaml fm block body writes =
    rw (serialize_frontmatter-block yaml fm block body writes)
      (parse_frontmatter-block yaml fm block _ writes)

-- The same of the file: reading it makes newlines of the carriage returns of the body.
pub parse_frontmatter-universal_newlines :
    (yaml : Yaml) (fm : Mapping) (block body : Text)
    → Writes yaml fm block
    → parse_frontmatter yaml (universal_newlines (serialize_frontmatter yaml fm body))
      ≡ some (fm, codes "\n" ++ universal_newlines (rstrip yaml body ++ codes "\n"))
parse_frontmatter-universal_newlines yaml fm block body writes =
    let back = rstrip yaml body ++ codes "\n" in
    let kept : universal_newlines (codes "---\n" ++ (block ++ (codes "\n---\n" ++ b'\n' ∷ back)))
        ≡ codes "---\n" ++ (block ++ (codes "\n---\n" ++ b'\n' ∷ universal_newlines back)) =
      unfold universal_newlines in
      rw (universal_newlines-append block (codes "\n---\n" ++ b'\n' ∷ back) writes.2) refl in
    rw (serialize_frontmatter-block yaml fm block body writes, kept)
      (parse_frontmatter-block yaml fm block _ writes)
