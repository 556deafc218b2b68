-- ===== src/Cron/Split.antt =====
-- The text methods that src/assistant/scheduler/cron.py calls, on lists of code points.
use xone_assistant.Prelude.{ℕ, Bool, true, false, Option, List, [], ◌∷◌, ◌==◌, if◌then◌else◌, Text}
use mathlib.Core.List.{reverse}

-- What Python's Unicode tables say of a code point: its value as a decimal digit, and whether it
-- is whitespace.
pub record Unicode : Type 0 where
  pub digit : ℕ → Option ℕ
  pub is_space : ℕ → Bool

-- s.split(sep) for a separator of one character: never empty
unfoldable pub split_step : ℕ → ℕ → List Text → List Text
split_step sep c [] = (c ∷ []) ∷ []
split_step sep c (part ∷ parts) = if c == sep then [] ∷ part ∷ parts else (c ∷ part) ∷ parts

unfoldable pub split_on : ℕ → Text → List Text
unfolding split_step
split_on sep [] = [] ∷ []
split_on sep (c ∷ s) = split_step sep c (split_on sep s)

-- sep in s
unfoldable pub contains : ℕ → Text → Bool
contains sep [] = false
contains sep (c ∷ s) = if c == sep then true else contains sep s

-- The text up to the first separator, and behind it: s.split(sep, 1), where sep is in s
unfoldable pub before : ℕ → Text → Text
before sep [] = []
before sep (c ∷ s) = let rest = before sep s in if c == sep then [] else c ∷ rest

unfoldable pub behind : ℕ → Text → Text
behind sep [] = []
behind sep (c ∷ s) = let rest = behind sep s in if c == sep then s else rest

module _ (u : Unicode) where
  drop_spaces : Text → Text
  drop_spaces [] = []
  drop_spaces (c ∷ s) = let rest = drop_spaces s in if u.is_space c then rest else c ∷ s

  -- s.strip()
  unfoldable pub strip : Text → Text
  unfolding drop_spaces
  strip s = reverse (drop_spaces (reverse (drop_spaces s)))

  -- A word that is being read, and the words behind it.
  push_word : Text → List Text → List Text
  push_word [] words = words
  push_word (c ∷ w) words = (c ∷ w) ∷ words

  words_step : ℕ → Text × List Text → Text × List Text
  unfolding push_word
  words_step c (w, words) = if u.is_space c then ([], push_word w words) else (c ∷ w, words)

  words_from : Text → Text × List Text
  unfolding words_step
  words_from [] = ([], [])
  words_from (c ∷ s) = words_step c (words_from s)

  -- s.split()
  unfoldable pub split_words : Text → List Text
  unfolding words_from push_word
  split_words s = let (w, words) = words_from s in push_word w words
