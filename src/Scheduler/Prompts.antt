-- ===== src/Scheduler/Prompts.antt =====
-- What a prompt and a zone have to be: validate_cron_prompt and validate_tz of
-- src/assistant/tools_sdk/_scheduler_core.py.
use xone_assistant.Prelude.{
  ℕ, String, Bool, ◌||◌, Option, none, some, [], ◌∷◌, ◌==◌, if◌then◌else◌, ltb, any, Text, codes,
  text_eq, starts_with, occurs_in, utf8_length,
}
use xone_assistant.Cron.Split.{Unicode, strip}
use xone_assistant.Cron.Calendar.{Zone}
use xone_assistant.Patterns.{
  Charset, Re, seq, alt, many, literal, folded, maybe, between, re_search,
}

-- _HOMOGLYPH_MAP: the letters that look like ASCII ones, and these.
abbrev pub lookalikes : Text
lookalikes = codes "авсеортухкніјѕАВСЕОРТУХКНІЈЅαορτυενΑΟΡΤΕ"

abbrev pub ascii_letters : Text
ascii_letters = codes "abceoptyxkhijsABCEOPTYXKHIJSaoptyevAOPTE"

abbrev translate_in : Text → Text → ℕ → ℕ
translate_in (from ∷ froms) (to ∷ tos) c =
    let later = translate_in froms tos c in if c == from then to else later
translate_in _ _ c = c

abbrev pub translate : Text → Text
translate [] = []
translate (c ∷ text) = translate_in lookalikes ascii_letters c ∷ translate text

-- _CTRL_CHAR_RE: the control characters but TAB, LF and CR
unfoldable pub is_control : ℕ → Bool
is_control c = between 0 8 c || c == 11 || c == 12 || between 14 31 c || c == 127

pub data PromptError : Type 0 where
  not_text empty too_large control_characters system_note sentinel_tag : PromptError

pub data Checked : Type 0 where
  accepted : String → Checked
  rejected : PromptError → Checked

-- The characters of Python, and unicodedata.normalize("NFKC", ...).
pub record Letters : Type 0 where
  pub unicode : Unicode
  pub charset : Charset
  pub nfkc : Text → Text

module _ (cs : Charset) where
  -- _SYSTEM_NOTE_RE
  abbrev pub system_note_re : Re
  system_note_re = seq (literal (codes "[")) (
      seq (alt (folded cs (codes "system-note")) (folded cs (codes "system")))
        (seq (many cs.is_space) (literal (codes ":"))))

  -- _SENTINEL_TAG_RE
  abbrev pub sentinel_tag_re : Re
  sentinel_tag_re = seq (literal (codes "<")) (
      seq (many cs.is_space) (
        seq (maybe (literal (codes "/"))) (
          seq (many cs.is_space) (
            alt (folded cs (codes "scheduler-prompt")) (
              seq (folded cs (codes "untrusted-")) (
                alt (folded cs (codes "note-body")) (
                  alt (folded cs (codes "note-snippet"))
                    (folded cs (codes "scheduler-prompt")))))))))

module _ (letters : Letters) where
  unfoldable pub fold_homoglyphs : Text → Text
  fold_homoglyphs text = translate (letters.nfkc text)

  unfoldable pub has_system_note : Text → Bool
  has_system_note text =
      re_search letters.charset (system_note_re letters.charset) (fold_homoglyphs text)

  unfoldable pub has_sentinel_tag : Text → Bool
  has_sentinel_tag text =
      re_search letters.charset (sentinel_tag_re letters.charset) (fold_homoglyphs text)

  -- `none` is a value that is no text.
  unfoldable pub validate_cron_prompt : Option String → Checked
  validate_cron_prompt none = rejected not_text
  validate_cron_prompt (some prompt) =
      if text_eq (strip letters.unicode (codes prompt)) []
      then rejected empty
      else if ltb 2048 (utf8_length (codes prompt))
      then rejected too_large
      else if any is_control (codes prompt)
      then rejected control_characters
      else if has_system_note (codes prompt)
      then rejected system_note
      else if has_sentinel_tag (codes prompt)
      then rejected sentinel_tag
      else accepted prompt

-- `zone_info` is ZoneInfo(name), none when it raises ZoneInfoNotFoundError.
unfoldable pub validate_tz : (zone_info : String → Option Zone) → Option String → Option Zone
validate_tz zone_info none = none
validate_tz zone_info (some tz_str) =
    if starts_with (codes "/") (codes tz_str) || occurs_in (codes "..") (codes tz_str)
    then none
    else zone_info tz_str
