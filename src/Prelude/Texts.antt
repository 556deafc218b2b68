-- ===== src/Prelude/Texts.antt =====
-- Python's `str` as the list of its code points, where the program looks into it.
use Prim.Native.Nat.{ℕ, ◌+◌}
use Prim.Native.Char.{code}
use Prim.Native.String.{String}
use mathlib.Core.Bool.{Bool, true, false, ◌&&◌, ◌||◌}
use mathlib.Core.List.{List, [], ◌∷◌}
use xone_assistant.Prelude.Tests.{◌==◌, ltb, if◌then◌else◌, both_true, ==_iff}
use mathlib.Core.Path.{◌≡◌, refl}
use native.Mathlib.Omega.{arith}

abbrev pub Text : Type 0
Text = List ℕ

abbrev pub codes : String → Text
codes String.[] = []
codes (String.◌∷◌ c s) = code c ∷ codes s

-- `a == b`
abbrev pub text_eq : Text → Text → Bool
text_eq [] [] = true
text_eq (a ∷ s) (b ∷ t) = a == b && text_eq s t
text_eq _ _ = false

-- text.startswith(prefix)
unfoldable pub starts_with : Text → Text → Bool
starts_with [] text = true
starts_with (p ∷ prefix) [] = false
starts_with (p ∷ prefix) (c ∷ text) = p == c && starts_with prefix text

-- text.endswith(suffix)
unfoldable pub ends_with : Text → Text → Bool
ends_with suffix [] = text_eq suffix []
ends_with suffix (c ∷ text) = text_eq suffix (c ∷ text) || ends_with suffix text

-- part in text
unfoldable pub occurs_in : Text → Text → Bool
unfolding starts_with
occurs_in part [] = starts_with part []
occurs_in part (c ∷ text) = starts_with part (c ∷ text) || occurs_in part text

-- len(text.encode("utf-8")), for a text without surrogates
abbrev pub utf8_width : ℕ → ℕ
utf8_width c = if ltb c 128 then 1 else if ltb c 2048 then 2 else if ltb c 65536 then 3 else 4

unfoldable pub utf8_length : Text → ℕ
utf8_length [] = 0
utf8_length (c ∷ text) = utf8_width c + utf8_length text

pub text_eq_sound : (s t : Text) → text_eq s t ≡ true → s ≡ t
text_eq_sound [] [] h = refl
text_eq_sound [] (b ∷ t) h = absurd (cc (h))
text_eq_sound (a ∷ s) [] h = absurd (cc (h))
text_eq_sound (a ∷ s) (b ∷ t) h =
    let (head, tail) = both_true (a == b) _ h in
    let a≡b = (==_iff a b).0 head in let s≡t = text_eq_sound s t tail in cc (a≡b, s≡t)

pub text_eq_refl : (s : Text) → text_eq s s ≡ true
text_eq_refl [] = refl
text_eq_refl (a ∷ s) = ground (arith, text_eq_refl s)
