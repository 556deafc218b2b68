-- ===== src/Patterns/Meaning.antt =====
-- What a pattern matches, without a word on how it is found.
use xone_assistant.Prelude.{ℕ, true, Option, none, some, [], ◌∷◌, ◌++◌, ◌≡◌, ◌⊎◌, Text, All}
use xone_assistant.Patterns.{
  Charset, Re, eps, one, many, seq, alt, edge, finish, unless, is_edge, is_finish,
}

-- The character in front of a position that is `word` further.
abbrev pub last_of : Option ℕ → Text → Option ℕ
last_of prev [] = prev
last_of prev (c ∷ word) = last_of (some c) word

module _ (cs : Charset) where
  -- r matches what stands between two positions.
  abbrev pub Matches : Re → Option ℕ → Text → Option ℕ → Text → Type 0
  Matches eps prev text prev' text' = (prev ≡ prev') × (text ≡ text')
  Matches (one p) prev text prev' text' =
      (c : ℕ) × (p c ≡ true) × (text ≡ c ∷ text') × (prev' ≡ some c)
  Matches (many p) prev text prev' text' =
      (word : Text) × All (λ c. p c ≡ true) word
      × (text ≡ word ++ text')
      × (prev' ≡ last_of prev word)
  Matches (seq r s) prev text prev' text' =
      (mid : Option ℕ) × (rest : Text) × Matches r prev text mid rest
      × Matches s mid rest prev' text'
  Matches (alt r s) prev text prev' text' =
      Matches r prev text prev' text' ⊎ Matches s prev text prev' text'
  Matches edge prev text prev' text' =
      (is_edge cs prev text ≡ true) × (prev ≡ prev') × (text ≡ text')
  Matches finish prev text prev' text' = (is_finish text ≡ true) × (prev ≡ prev') × (text ≡ text')
  Matches (unless r) prev text prev' text' =
      (¬ ((end : Option ℕ) × (rest : Text) × Matches r prev text end rest))
      × (prev ≡ prev')
      × (text ≡ text')

  -- r matches at a position.
  abbrev pub MatchesAt : Re → Option ℕ → Text → Type 0
  MatchesAt r prev text = (end : Option ℕ) × (rest : Text) × Matches r prev text end rest

  -- r matches somewhere in the text.
  abbrev pub Occurs : Re → Text → Type 0
  Occurs r text =
      (front : Text) × (back : Text) × (text ≡ front ++ back)
      × MatchesAt r (last_of none front) back
