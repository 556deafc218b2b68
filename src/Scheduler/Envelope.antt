-- ===== src/Scheduler/Envelope.antt =====
-- The envelope of a scheduled prompt: wrap_scheduler_prompt of
-- src/assistant/tools_sdk/_scheduler_core.py, on texts as lists of code points.
pub mod Closed
use xone_assistant.Prelude.{
  ℕ, Bool, true, false, ◌&&◌, ◌||◌, List, [], ◌∷◌, ◌++◌, ◌==◌, if◌then◌else◌, Text, codes,
}

abbrev pub tag_name : Text
tag_name = codes "scheduler-prompt"

-- The zero-width space, which follows the `<` of a tag.
abbrev pub zwsp : ℕ
zwsp = 8203

-- `same p c`: under re.IGNORECASE the letter p of a pattern matches the character c.
module _ (same : ℕ → ℕ → Bool) where
  unfoldable pub starts : Text → Text → Bool
  starts [] text = true
  starts (p ∷ pattern) [] = false
  starts (p ∷ pattern) (c ∷ text) = same p c && starts pattern text

  -- (/?)(scheduler-prompt...), behind a `<`
  unfoldable pub is_tag : Text → Bool
  unfolding starts
  is_tag [] = false
  is_tag (c ∷ text) = starts tag_name (c ∷ text) || (c == b'/' && starts tag_name text)

  -- re.sub. What a match takes behind its `<` has no `<`, so the next match begins behind it.
  unfoldable pub scrub : Text → Text
  unfolding is_tag
  scrub [] = []
  scrub (c ∷ text) =
      let rest = scrub text in if c == b'<' && is_tag text then b'<' ∷ zwsp ∷ rest else c ∷ rest

  -- re.search with the pattern of `scrub`
  unfoldable pub has_tag : Text → Bool
  unfolding is_tag
  has_tag [] = false
  has_tag (c ∷ text) = (c == b'<' && is_tag text) || has_tag text

  -- The text that the model reads. `marker` is the notice in front, `nonce` twelve digits.
  unfoldable pub wrap_scheduler_prompt : Text → Text → Text → Text
  unfolding scrub
  wrap_scheduler_prompt marker nonce body =
      marker
      ++ codes "\n<scheduler-prompt-"
      ++ nonce
      ++ codes ">\n"
      ++ scrub body
      ++ codes "\n</scheduler-prompt-"
      ++ nonce
      ++ codes ">"
