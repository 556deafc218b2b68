-- ===== src/Memory/Frontmatter.antt =====
-- The YAML block in front of a note: parse_frontmatter and serialize_frontmatter of
-- src/assistant/tools_sdk/_memory_core.py.
pub mod Roundtrip
use xone_assistant.Prelude.{
  ℕ, Bool, true, false, Option, none, some, List, [], ◌∷◌, ◌++◌, ◌==◌, if◌then◌else◌, Text, codes,
  starts_with,
}

-- A value of the block, as str() and `if value` see it; of a list also the str() of its items.
pub data Value : Type 0 where
  scalar : (shown : Text) → (is_true : Bool) → Value
  items : (shown : Text) → List Text → Value
  null : Value

-- A mapping, in the order of its keys.
abbrev pub Mapping : Type 0
Mapping = List (Text × Value)

-- What yaml.load makes of a text: a mapping; a value that is none, but true; a value that is
-- false, as None is; or a YAMLError.
pub data Loaded : Type 0 where
  mapping : Mapping → Loaded
  other : Loaded
  falsy : Loaded
  yaml_error : Loaded

pub record Yaml : Type 0 where
  pub load : Text → Loaded
  pub safe_dump : Mapping → Text

-- ---\r?\n at the beginning of a text: what is behind it
abbrev pub behind_newline : Text → Option Text
behind_newline [] = none
behind_newline (c ∷ text) = if c == b'\n' then some text else none

abbrev pub behind_break : Text → Option Text
behind_break [] = none
behind_break (c ∷ text) =
    let plain = behind_newline (c ∷ text) in if c == b'\r' then behind_newline text else plain

abbrev pub behind_dashes : Text → Option Text
behind_dashes (a ∷ b ∷ c ∷ text) =
    if a == b'-' then if b == b'-' then if c == b'-' then some text else none else none else none
behind_dashes _ = none

infixl 5 ◌>>=◌
abbrev pub ◌>>=◌ {ℓ κ} : {A : Type ℓ} {B : Type κ} → Option A → (A → Option B) → Option B
none >>= f = none
some a >>= f = f a

-- How Path.read_text gives the text of a file: \r\n and \r become \n.
unfoldable pub universal_newlines : Text → Text
universal_newlines [] = []
universal_newlines (c ∷ text) =
    let rest = universal_newlines text in
    if c == b'\r' then if starts_with (codes "\n") text then rest else b'\n' ∷ rest else c ∷ rest

-- \r?\n---
unfoldable pub at_close : Text → Option Text
at_close text = behind_break text >>= behind_dashes

-- \r?\n?
unfoldable pub drop_newline : Text → Text
drop_newline [] = []
drop_newline (c ∷ text) = if c == b'\n' then text else c ∷ text

unfoldable pub drop_break : Text → Text
drop_break [] = []
drop_break (c ∷ text) =
    let plain = drop_newline (c ∷ text) in if c == b'\r' then drop_newline text else plain

abbrev pub cons_block : ℕ → Option (Text × Text) → Option (Text × Text)
cons_block c none = none
cons_block c (some (block, body)) = some (c ∷ block, body)

-- (.*?)\r?\n---\r?\n?(.*)$, under DOTALL: the first place where the block can end
abbrev pub or_closed : Option Text → Option (Text × Text) → Option (Text × Text)
or_closed none later = later
or_closed (some body) later = some ([], drop_break body)

unfoldable pub find_close : Text → Option (Text × Text)
find_close [] = none
find_close (c ∷ text) = or_closed (at_close (c ∷ text)) (cons_block c (find_close text))

-- _FRONTMATTER_RE.match: its two groups
unfoldable pub frontmatter_match : Text → Option (Text × Text)
frontmatter_match text = behind_dashes text >>= λ rest. behind_break rest >>= find_close

module _ (yaml : Yaml) where
  abbrev pub load_block : Text → Loaded → Option (Mapping × Text)
  load_block body (mapping data_) = some (data_, body)
  load_block body other = none
  load_block body falsy = some ([], body)
  load_block body yaml_error = none

  abbrev pub parse_match : Text → Option (Text × Text) → Option (Mapping × Text)
  parse_match md_text none = some ([], md_text)
  parse_match md_text (some (block, body)) = load_block body (yaml.load block)

  -- `none` is ValueError.
  unfoldable pub parse_frontmatter : Text → Option (Mapping × Text)
  parse_frontmatter md_text = parse_match md_text (frontmatter_match md_text)

  -- body.rstrip("\n")
  unfoldable pub rstrip : Text → Text
  rstrip [] = []
  rstrip (c ∷ body) = keep_front c (rstrip body)
    where
      keep_front : ℕ → Text → Text
      keep_front c [] = if c == b'\n' then [] else c ∷ []
      keep_front c (d ∷ rest) = c ∷ d ∷ rest

  unfoldable pub serialize_frontmatter : Mapping → Text → Text
  serialize_frontmatter fm body =
      codes "---\n" ++ (yaml.safe_dump fm ++ (codes "---\n\n" ++ (rstrip body ++ codes "\n")))
