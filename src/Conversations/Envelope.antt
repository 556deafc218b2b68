-- ===== src/Conversations/Envelope.antt =====
-- The one message that the past of a chat becomes (src/assistant/bridge/history.py).
use xone_assistant.Prelude.{
  ◌≡◌, refl, ap, Bool, not, ◌&&◌, ◌||◌, Bool-cases, inl, inr, Option, none, some, List, [], ◌∷◌,
  ◌++◌, if◌then◌else◌, keep, take, Text, codes, text_eq,
}
use xone_assistant.Cron.Split.{Unicode, strip}

-- A block of the content, by its type; `other` is a type that is not known, or no dict.
pub data ContentBlock : Type 0 where
  text_block : (text : Text) → ContentBlock
  tool_use : (name : Text) → ContentBlock
  -- str(content), none for None
  tool_result : (content : Option Text) → ContentBlock
  other : ContentBlock

-- A row of the history; its content is a list of one, if it was none.
pub record HistoryRow : Type 0 where
  pub block_type : Text
  pub role : Text
  pub content : List ContentBlock

-- btype == "thinking", where the empty type is "text"
abbrev pub is_thinking : HistoryRow → Bool
is_thinking row = text_eq row.block_type (codes "thinking")

abbrev pub has_role : HistoryRow → Bool
has_role row = text_eq row.role (codes "user") || text_eq row.role (codes "assistant")

abbrev pub is_shown : HistoryRow → Bool
is_shown row = not (is_thinking row) && has_role row

abbrev pub snippet : Option Text → Text
snippet none = codes "(empty)"
snippet (some content) = take 200 content

-- "\n".join(lines)
abbrev pub join_lines : List Text → Text
join_lines [] = []
join_lines (line ∷ []) = line
join_lines (line ∷ next ∷ lines) = line ++ (codes "\n" ++ join_lines (next ∷ lines))

abbrev pub in_markers : (opening closing : Text) → List Text → Option Text
in_markers opening closing [] = none
in_markers opening closing (line ∷ lines) =
    some (opening ++ (codes "\n" ++ (join_lines (line ∷ lines) ++ (codes "\n" ++ closing))))

module _ (u : Unicode) where
  abbrev pub said : (role : Text) → Text → List Text
  said role [] = []
  said role (c ∷ text) = (role ++ (codes ": " ++ c ∷ text)) ∷ []

  unfoldable pub block_lines : (role : Text) → ContentBlock → List Text
  block_lines role (text_block text) = said role (strip u text)
  block_lines role (tool_use name) =
      (role ++ (codes ": [invoked tool " ++ (name ++ codes "]"))) ∷ []
  block_lines role (tool_result content) =
      (role ++ (codes ": [tool_result: " ++ (snippet content ++ codes "]"))) ∷ []
  block_lines role other = []

  abbrev pub content_lines : (role : Text) → List ContentBlock → List Text
  content_lines role [] = []
  content_lines role (block ∷ blocks) = block_lines role block ++ content_lines role blocks

  unfoldable pub row_lines : HistoryRow → List Text
  row_lines row =
      let lines = content_lines row.role row.content in
      if is_thinking row then [] else if has_role row then lines else []

  abbrev pub history_lines : List HistoryRow → List Text
  history_lines [] = []
  history_lines (row ∷ rows) = row_lines row ++ history_lines rows

  -- The content of the envelope, if there is one; the markers are fixed texts.
  unfoldable pub history_to_sdk_envelopes : (opening closing : Text) → List HistoryRow → Option Text
  history_to_sdk_envelopes opening closing rows = in_markers opening closing (history_lines rows)

  history_lines-keep :
      (rows : List HistoryRow) → history_lines (keep is_shown rows) ≡ history_lines rows
  unfolding row_lines
  history_lines-keep [] = refl
  history_lines-keep (row ∷ rows) = elim (Bool-cases (is_thinking row)) [
    | inl thinking ↦ rw thinking (history_lines-keep rows)
    | inr plain ↦ elim (Bool-cases (has_role row)) [
      | inl role ↦ rw (plain, role, plain, role, history_lines-keep rows) refl
      | inr role ↦ rw (plain, role) (history_lines-keep rows)
    ]
  ]

  -- What the model reads of the past does not depend on thinking, nor on rows of other roles.
  pub history_to_sdk_envelopes-keep :
      (opening closing : Text) (rows : List HistoryRow)
      → history_to_sdk_envelopes opening closing (keep is_shown rows)
        ≡ history_to_sdk_envelopes opening closing rows
  unfolding history_to_sdk_envelopes
  history_to_sdk_envelopes-keep opening closing rows =
      ap (in_markers opening closing) (history_lines-keep rows)
