-- ===== src/Patterns.antt =====
-- Python's `re`, as far as the program's patterns use it. A position in a text is the character in
-- front of it, if there is one, and the text behind it. Only whether a pattern matches is asked, so
-- the order in which `re` tries the alternatives does not show.
pub mod Meaning
pub mod Meets
pub mod Literal
use xone_assistant.Prelude.{
  ℕ, zero, suc, ◌+◌, Bool, true, false, not, ◌&&◌, ◌||◌, Option, none, some, List, [], ◌∷◌, ◌==◌,
  leb, if◌then◌else◌, Text, any,
}

pub data Re : Type 0 where
  eps : Re
  one : (accepts : ℕ → Bool) → Re
  many : (accepts : ℕ → Bool) → Re
  seq : Re → Re → Re
  alt : Re → Re → Re
  -- \b, $ and (?!...)
  edge : Re
  finish : Re
  unless : Re → Re

-- What Python says of characters: `same p c`, that the letter p of a pattern matches c under
-- IGNORECASE, \w and \s.
pub record Charset : Type 0 where
  pub same : ℕ → ℕ → Bool
  pub is_word : ℕ → Bool
  pub is_space : ℕ → Bool

-- A literal.
abbrev pub literal : Text → Re
literal [] = eps
literal (c ∷ text) = seq (one (λ x. c == x)) (literal text)

-- r{n,} for a class
abbrev pub at_least : ℕ → (ℕ → Bool) → Re
at_least zero p = many p
at_least (suc n) p = seq (one p) (at_least n p)

-- r?
abbrev pub maybe : Re → Re
maybe r = alt r eps

abbrev pub between : ℕ → ℕ → ℕ → Bool
between low high c = leb low c && leb c high

-- $ stands at the end, or in front of a last newline.
abbrev pub is_finish : Text → Bool
is_finish [] = true
is_finish (c ∷ []) = c == b'\n'
is_finish _ = false

-- What follows a match, when nothing is asked of it.
abbrev pub anything : Option ℕ → Text → Bool
anything prev text = true

module _ (cs : Charset) where
  -- a literal under IGNORECASE
  abbrev pub folded : Text → Re
  folded [] = eps
  folded (c ∷ text) = seq (one (cs.same c)) (folded text)

  -- A class of letters under IGNORECASE: the letters from `low` on, `n` of them.
  abbrev pub letter : ℕ → ℕ → ℕ → Bool
  letter zero low c = false
  letter (suc n) low c = cs.same low c || letter n (low + 1) c

  abbrev pub word_before : Option ℕ → Bool
  word_before none = false
  word_before (some c) = cs.is_word c

  abbrev pub word_behind : Text → Bool
  word_behind [] = false
  word_behind (c ∷ text) = cs.is_word c

  abbrev pub is_edge : Option ℕ → Text → Bool
  is_edge prev text = if word_before prev then not (word_behind text) else word_behind text

  unfoldable pub run_many : (ℕ → Bool) → Option ℕ → Text → (Option ℕ → Text → Bool) → Bool
  run_many p prev [] k = k prev []
  run_many p prev (c ∷ text) k = k prev (c ∷ text) || (p c && run_many p (some c) text k)

  -- Whether r matches at a position so that what follows accepts the position behind the match.
  unfoldable pub match_at : Re → Option ℕ → Text → (Option ℕ → Text → Bool) → Bool
  unfolding run_many
  match_at eps prev text k = k prev text
  match_at (one p) prev [] k = false
  match_at (one p) prev (c ∷ text) k = p c && k (some c) text
  match_at (many p) prev text k = run_many p prev text k
  match_at (seq r s) prev text k = match_at r prev text (λ prev' text'. match_at s prev' text' k)
  match_at (alt r s) prev text k = match_at r prev text k || match_at s prev text k
  match_at edge prev text k = is_edge prev text && k prev text
  match_at finish prev text k = is_finish text && k prev text
  match_at (unless r) prev text k = not (match_at r prev text (λ _ _. true)) && k prev text

  -- re.match: at the beginning of the text
  unfoldable pub re_match : Re → Text → Bool
  unfolding match_at
  re_match r text = match_at r none text anything

  unfoldable pub search_from : Re → Option ℕ → Text → Bool
  unfolding match_at
  search_from r prev [] = match_at r prev [] anything
  search_from r prev (c ∷ text) = match_at r prev (c ∷ text) anything || search_from r (some c) text

  -- re.search: anywhere in the text
  unfoldable pub re_search : Re → Text → Bool
  unfolding search_from
  re_search r text = search_from r none text
