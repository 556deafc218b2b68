-- ===== src/Memory/Untrusted.antt =====
-- What the memory does about texts that pose as its envelopes: sanitize_body and wrap_untrusted of
-- src/assistant/tools_sdk/_memory_core.py.
pub mod Verbatim
use xone_assistant.Prelude.{
  ℕ, Bool, true, false, not, ◌&&◌, ◌||◌, Option, none, some, List, [], ◌∷◌, ◌++◌, ◌==◌,
  if◌then◌else◌, ltb, any, keep, Text, codes, text_eq, occurs_in, utf8_length,
}
use xone_assistant.Cron.Split.{Unicode, strip}
use xone_assistant.Patterns.{
  Charset, Re, seq, alt, many, one, literal, folded, maybe, at_least, between, letter, match_at,
  anything, re_search,
}

-- The zero-width space.
abbrev pub zwsp : ℕ
zwsp = 8203

abbrev pub is_surrogate : ℕ → Bool
is_surrogate c = between 55296 57343 c

-- What encode with surrogatepass and decode with ignore leave of a text.
unfoldable pub clean_surrogates : Text → Text
clean_surrogates body = keep (λ c. not (is_surrogate c)) body

-- The characters at which str.splitlines ends a line. A \r\n ends one line and not two; the empty
-- line that this makes here is no bare one.
unfoldable pub ends_line : ℕ → Bool
ends_line c = between 10 13 c || between 28 30 c || c == 133 || c == 8232 || c == 8233

unfoldable pub split_step : ℕ → List Text → List Text
split_step c [] = (c ∷ []) ∷ []
split_step c (line ∷ lines) = if ends_line c then [] ∷ line ∷ lines else (c ∷ line) ∷ lines

unfoldable pub split_lines : Text → List Text
split_lines [] = [] ∷ []
split_lines (c ∷ text) = split_step c (split_lines text)

-- f"{tag_name}-{nonce}" in scrubbed
abbrev pub has_nonce : Text → Text → Text → Bool
has_nonce tag_name scrubbed nonce = occurs_in (tag_name ++ codes "-" ++ nonce) scrubbed

-- The first nonce that the text does not have; the last is longer, and is not looked at.
abbrev pub pick_nonce : Text → Text → (first second third long : Text) → Text
pick_nonce tag_name scrubbed first second third long =
    if not (has_nonce tag_name scrubbed first)
    then first
    else if not (has_nonce tag_name scrubbed second)
    then second
    else if not (has_nonce tag_name scrubbed third)
    then third
    else long

abbrev pub cage : Text → Text → Text → Text
cage tag_name nonce scrubbed =
    codes "<"
    ++ tag_name
    ++ codes "-"
    ++ nonce
    ++ codes ">\n"
    ++ scrubbed
    ++ codes "\n</"
    ++ tag_name
    ++ codes "-"
    ++ nonce
    ++ codes ">"

abbrev pub is_bare : Unicode → Text → Bool
is_bare u line = text_eq (strip u line) (codes "---")

module _ (cs : Charset) where
  -- [0-9a-f] under IGNORECASE
  abbrev is_hex : ℕ → Bool
  is_hex c = between b'0' b'9' c || letter cs 6 b'a' c

  -- _SENTINEL_RE
  abbrev pub sentinel_re : Re
  sentinel_re = seq (literal (codes "<")) (
      seq (maybe (literal (codes "/"))) (
        seq (many cs.is_space) (
          seq (folded cs (codes "untrusted-note-")) (
            seq (alt (folded cs (codes "body")) (folded cs (codes "snippet"))) (
              seq (maybe (seq (literal (codes "-")) (at_least 1 is_hex)))
                (seq (many cs.is_space) (literal (codes ">"))))))))

  -- _SENTINEL_RE.search
  unfoldable pub has_sentinel : Text → Bool
  has_sentinel text = re_search cs sentinel_re text

  -- r.sub, where a match begins with a `<` and has no other, so that the next one begins behind it:
  -- a zero-width space behind the `<`
  unfoldable pub scrub : Re → Option ℕ → Text → Text
  scrub r prev [] = []
  scrub r prev (c ∷ text) =
      let rest = scrub r (some c) text in
      if match_at cs r prev (c ∷ text) anything then c ∷ zwsp ∷ rest else c ∷ rest

  unfoldable pub wrap_untrusted : Text → Text → (first second third long : Text) → Text × Text
  wrap_untrusted body tag_name first second third long =
      let scrubbed = scrub sentinel_re none body in
      let nonce = pick_nonce tag_name scrubbed first second third long in
      (cage tag_name nonce scrubbed, nonce)

  -- `none` is ValueError.
  unfoldable pub sanitize_body : Unicode → Text → ℕ → Option Text
  sanitize_body u body max_body_bytes =
      let cleaned = clean_surrogates body in
      if has_sentinel cleaned
      then none
      else if any (is_bare u) (split_lines cleaned)
      then none
      else if ltb max_body_bytes (utf8_length cleaned)
      then none
      else some cleaned
