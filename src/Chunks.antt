-- ===== src/Chunks.antt =====
-- How a long message is cut for the chat: _split_for_telegram
-- (src/assistant/adapters/telegram.py).
pub mod Conserved
pub mod Examples
use xone_assistant.Prelude.{
  ℕ, zero, suc, Bool, true, false, Option, none, some, List, [], ◌∷◌, ltb, if◌then◌else◌, length,
  take, drop, Text, codes, starts_with,
}
use xone_assistant.Cron.Split.{Unicode}

-- TELEGRAM_MSG_LIMIT
abbrev pub telegram_msg_limit : ℕ
telegram_msg_limit = 4096

-- part is in the text behind its first character, or at it, or not.
abbrev pub rfind_step : Bool → Option ℕ → Option ℕ
rfind_step here (some i) = some (suc i)
rfind_step true none = some 0
rfind_step false none = none

-- text.rfind(part), for a part that is not empty; `none` is -1.
unfoldable pub rfind : Text → Text → Option ℕ
rfind part [] = none
rfind part (c ∷ text) = rfind_step (starts_with part (c ∷ text)) (rfind part text)

abbrev pub or_else {ℓ} : {A : Type ℓ} → Option A → A → A
or_else none a = a
or_else (some b) a = b

-- Where the next chunk ends.
unfoldable pub cut_at : (limit : ℕ) → Text → ℕ
cut_at limit remaining =
    let window = take limit remaining in
    or_else (rfind (codes "\n\n") window) (or_else (rfind (codes "\n") window) limit)

abbrev pub add_chunk : Text → Option (List Text) → Option (List Text)
add_chunk chunk none = none
add_chunk chunk (some chunks) = some (chunk ∷ chunks)

abbrev pub last_chunk : Text → List Text
last_chunk [] = []
last_chunk (c ∷ remaining) = (c ∷ remaining) ∷ []

module _ (u : Unicode) where
  -- s.lstrip()
  unfoldable pub lstrip : Text → Text
  lstrip [] = []
  lstrip (c ∷ text) = let rest = lstrip text in if u.is_space c then rest else c ∷ text

  -- The while loop; `none` if it takes more rounds than the fuel.
  unfoldable pub chunks_from : (fuel limit : ℕ) → Text → Option (List Text)
  chunks_from zero limit remaining =
      if ltb limit (length remaining) then none else some (last_chunk remaining)
  chunks_from (suc fuel) limit remaining =
      let cut = cut_at limit remaining in
      let further = chunks_from fuel limit (lstrip (drop cut remaining)) in
      if ltb limit (length remaining)
      then add_chunk (take cut remaining) further
      else some (last_chunk remaining)

  -- A round takes at least one character, so the length of the text is fuel enough.
  unfoldable pub split_for_telegram : (limit : ℕ) → Text → Option (List Text)
  split_for_telegram limit text =
      let chunks = chunks_from (length text) limit text in
      if ltb limit (length text) then chunks else some (text ∷ [])
