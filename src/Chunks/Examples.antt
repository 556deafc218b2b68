-- ===== src/Chunks/Examples.antt =====
-- Messages that are cut (src/assistant/adapters/telegram.py).
use xone_assistant.Prelude.{
  ℕ, ◌≡◌, refl, Bool, ◌||◌, ◌==◌, none, some, [], ◌∷◌, Text, codes, starts_with,
}
use xone_assistant.Cron.Split.{Unicode}
use xone_assistant.Patterns.{between}
use xone_assistant.Chunks.{rfind, cut_at, lstrip, chunks_from, split_for_telegram}
use xone_assistant.Chunks.Conserved.{Splits, split_for_telegram-Splits}

abbrev is_ascii_space : ℕ → Bool
is_ascii_space c = c == b' ' || between 9 13 c

abbrev ascii_unicode : Unicode
ascii_unicode = record { digit = λ c. none; is_space = is_ascii_space }

abbrev message : Text
message = codes "ab\ncd\n\nefghijklm"

message_split :
    split_for_telegram ascii_unicode 6 message
    ≡ some (codes "ab\ncd" ∷ codes "efghij" ∷ codes "klm" ∷ [])
unfolding split_for_telegram chunks_from cut_at rfind lstrip starts_with
message_split = refl

-- A message that begins with a newline has an empty first chunk.
first_empty :
    split_for_telegram ascii_unicode 6 (codes "\nabcdefg")
    ≡ some ([] ∷ codes "abcdef" ∷ codes "g" ∷ [])
unfolding split_for_telegram chunks_from cut_at rfind lstrip starts_with
first_empty = refl

split_for_telegram-Splits_example :
    Splits ascii_unicode 6 message (split_for_telegram ascii_unicode 6 message)
split_for_telegram-Splits_example = split_for_telegram-Splits ascii_unicode refl 5 message
