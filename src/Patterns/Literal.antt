-- ===== src/Patterns/Literal.antt =====
-- What literals match.
use xone_assistant.Prelude.{ℕ, Option, some, [], ◌∷◌, ◌++◌, ◌≡◌, refl, sym, ap, ◌∙◌, Text, ==_iff}
use xone_assistant.Patterns.{Charset, literal}
use xone_assistant.Patterns.Meaning.{last_of, Matches}

module _ (cs : Charset) where
  pub literal_text :
      (word : Text) (prev : Option ℕ) (text : Text) (end : Option ℕ) (rest : Text)
      → Matches cs (literal word) prev text end rest
      → text ≡ word ++ rest
  literal_text [] prev text end rest m = m.1
  literal_text (c ∷ word) prev text end rest (mid, tail, (x, same, e, last), m) =
      let c≡x = (==_iff c x).0 same in
      let later = literal_text word mid tail end rest m in
      e ∙ ap (λ y. y ∷ tail) (sym c≡x) ∙ ap (◌∷◌ c) later

  pub literal_there :
      (word : Text) (prev : Option ℕ) (rest : Text)
      → Matches cs (literal word) prev (word ++ rest) (last_of prev word) rest
  literal_there [] prev rest = (refl, refl)
  literal_there (c ∷ word) prev rest =
      (some c, word ++ rest, (c, (==_iff c c).1 refl, refl, refl), literal_there word (some c) rest)
