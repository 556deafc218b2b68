-- ===== src/Subagent/Transcript.antt =====
-- Reading the last assistant message from a transcript: the end of
-- src/assistant/subagent/hooks.py. `json.loads` is the argument `loads` (`none` when it raises),
-- and so is `str.strip`; the file is the list of its lines and whether it ends with a newline.
use Prim.Native.String.{◌++◌}
use xone_assistant.Prelude.{
  String, Bool, true, false, Option, none, some, List, [], ◌∷◌, ◌++◌ as append, ◌≡◌, refl, sym,
  if◌then◌else◌, str_eq,
}

-- A decoded JSON value. `atom` is null, a Boolean or a number: the code tells them apart from the
-- other values and looks no further.
mutual
  pub data Json : Type 0 where
    atom : Json
    text : String → Json
    array : Items → Json
    object : Fields → Json

  pub data Items : Type 0 where
    nil : Items
    cons : Json → Items → Items

  pub data Fields : Type 0 where
    end : Fields
    field : String → Json → Fields → Fields

-- d.get(key); json.loads keeps the last of two equal keys
get : String → Fields → Option Json
get key end = none
get key (field k v rest) = elim (get key rest) [
  | some w ↦ some w
  | none ↦ if str_eq k key then some v else none
]

-- value == expected, for a text
is_text : String → Option Json → Bool
is_text expected (some (text s)) = str_eq s expected
is_text expected _ = false

-- The text of one block, if it is a text block.
text_field : Option Json → Option String
text_field (some (text s)) = some s
text_field _ = none

block_text : Json → Option String
unfolding get is_text text_field
block_text (object fields) =
    if is_text "text" (get "type" fields) then text_field (get "text" fields) else none
block_text _ = none

-- The texts that are joined: `none` when there is no part.
join : Option String → Option String → Option String
join none rest = rest
join (some s) none = some s
join (some s) (some t) = some (s ++ t)

unfoldable pub join_text_blocks : Items → Option String
unfolding block_text join
join_text_blocks nil = none
join_text_blocks (cons b rest) = join (block_text b) (join_text_blocks rest)

-- `_join_text_blocks(content)` if `content` is a list
list_text : Option Json → Option String
unfolding join_text_blocks
list_text (some (array blocks)) = join_text_blocks blocks
list_text _ = none

envelope_text : Fields → Option Json → Option String
unfolding list_text is_text get
envelope_text envelope (some (object message)) =
    if is_text "assistant" (get "role" message) then list_text (get "content" message) else none
envelope_text envelope _ =
    if is_text "assistant" (get "type" envelope) then list_text (get "content" envelope) else none

decoded_text : Option Json → Option String
unfolding envelope_text get
decoded_text (some (object envelope)) = envelope_text envelope (get "message" envelope)
decoded_text _ = none

module _ (strip : String → String) (loads : String → Option Json) where
  unfoldable pub extract_assistant_text : String → Option String
  unfolding decoded_text
  extract_assistant_text raw_line =
      let s = strip raw_line in if str_eq s "" then none else decoded_text (loads s)

  -- if candidate is not None: last_text = candidate
  abbrev keep_candidate : String → Option String → String
  keep_candidate last none = last
  keep_candidate last (some s) = s

  -- The loop over the file, one line behind: `pending` is the line that is not looked at yet.
  scan : String → Option String → List String → String × Option String
  unfolding extract_assistant_text
  scan last pending [] = (last, pending)
  scan last none (line ∷ rest) = scan last (some line) rest
  scan last (some p) (line ∷ rest) =
      scan (keep_candidate last (extract_assistant_text p)) (some line) rest

  last_line : Bool → String × Option String → String
  unfolding extract_assistant_text
  last_line true (last, some p) = keep_candidate last (extract_assistant_text p)
  last_line _ (last, _) = last

  -- `none` is a path that is no file, or an error on opening it.
  unfoldable pub read_last_assistant_from_transcript : Option (List String × Bool) → String
  unfolding scan last_line
  read_last_assistant_from_transcript none = ""
  read_last_assistant_from_transcript (some ([], ends)) = ""
  read_last_assistant_from_transcript (some (line ∷ rest, ends)) =
      last_line ends (scan "" none (line ∷ rest))

  -- The independent description: the last of the texts, read line by line.
  pub last_text : String → List String → String
  last_text last [] = last
  last_text last (line ∷ rest) = last_text (keep_candidate last (extract_assistant_text line)) rest

  last_text-append :
      (last : String) (lines : List String) (line : String)
      → last_text last (append lines (line ∷ []))
        ≡ keep_candidate (last_text last lines) (extract_assistant_text line)
  unfolding last_text
  last_text-append last [] line = refl
  last_text-append last (x ∷ lines) line =
      last_text-append (keep_candidate last (extract_assistant_text x)) lines line

  scan-append :
      (last p line : String) (lines : List String)
      → scan last (some p) (append lines (line ∷ [])) ≡ (last_text last (p ∷ lines), some line)
  unfolding scan last_text
  scan-append last p line [] = refl
  scan-append last p line (x ∷ lines) =
      scan-append (keep_candidate last (extract_assistant_text p)) x line lines

  -- The text that is read from a transcript is the last text of an assistant line among the lines
  -- that are complete: a last line without its newline counts for nothing.
  pub read_last_assistant_from_transcript_lem :
      (lines : List String) (line : String) (ends : Bool)
      → read_last_assistant_from_transcript (some (append lines (line ∷ []), ends))
        ≡ last_text "" (if ends then append lines (line ∷ []) else lines)
  unfolding read_last_assistant_from_transcript scan last_line last_text
  read_last_assistant_from_transcript_lem [] line true = refl
  read_last_assistant_from_transcript_lem [] line false = refl
  read_last_assistant_from_transcript_lem (x ∷ lines) line true =
      rw (scan-append "" x line lines) (sym (last_text-append "" (x ∷ lines) line))
  read_last_assistant_from_transcript_lem (x ∷ lines) line false = rw (scan-append "" x line lines)
