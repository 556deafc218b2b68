-- ===== src/Chunks/Conserved.antt =====
-- What the chunks of a message have of it (src/assistant/adapters/telegram.py).
use xone_assistant.Prelude.{
  ℕ, zero, suc, ◌≤◌, ◌<◌, ◌≡◌, refl, sym, ap, ◌∙◌, arith, Bool, true, false, not, Bool-cases,
  both_true, Option, none, some, List, [], ◌∷◌, ◌++◌, inl, inr, ◌==◌, ==_iff, ltb, ltb→lt, ge→ltb,
  ltb→ge, All, keep, keep-append, length, length-take, length-take-le, take, drop, take-drop,
  length-drop, Text, codes, starts_with,
}
use mathlib.Core.List.{append-nil}
use xone_assistant.Cron.Split.{Unicode}
use xone_assistant.Chunks.{
  rfind_step, rfind, or_else, cut_at, add_chunk, last_chunk, lstrip, chunks_from,
  split_for_telegram,
}

-- A text that begins with a newline.
abbrev BeginsLine : Text → Type 0
BeginsLine [] = ⊥
BeginsLine (c ∷ text) = c ≡ b'\n'

-- What can be said of the place of an occurrence of a part that begins with a newline.
abbrev IsPlace : Text → Option ℕ → Type 0
IsPlace text none = Unit {0}
IsPlace text (some zero) = BeginsLine text
IsPlace text (some (suc i)) = suc i < length text

step-IsPlace :
    (b : Bool) (c : ℕ) (text : Text) (o : Option ℕ)
    → (b ≡ true → c ≡ b'\n')
    → IsPlace text o
    → IsPlace (c ∷ text) (rfind_step b o)
step-IsPlace b c text (some zero) h place = first text place
  where
    first : (t : Text) → BeginsLine t → 1 < length (c ∷ t)
    first [] place' = absurd place'
    first (d ∷ t) place' = omega arith
step-IsPlace b c text (some (suc i)) h place = omega (arith, place)
step-IsPlace true c text none h place = h refl
step-IsPlace false c text none h place = tt

rfind-IsPlace : (part text : Text) → IsPlace text (rfind (b'\n' ∷ part) text)
unfolding rfind starts_with
rfind-IsPlace part [] = tt
rfind-IsPlace part (c ∷ text) =
    let newline : starts_with (b'\n' ∷ part) (c ∷ text) ≡ true → c ≡ b'\n' =
      λ (e : starts_with (b'\n' ∷ part) (c ∷ text) ≡ true).
        sym ((==_iff b'\n' c).0 (both_true (b'\n' == c) (starts_with part text) e).0) in
    step-IsPlace (starts_with (b'\n' ∷ part) (c ∷ text)) c text (rfind (b'\n' ∷ part) text) newline
      (rfind-IsPlace part text)

-- Where a text may be cut: inside of it or at its end, or in front of a newline that it begins with.
abbrev IsCut : Text → ℕ → Type 0
IsCut text zero = BeginsLine text
IsCut text (suc cut) = suc cut ≤ length text

or_else-IsCut :
    (text : Text) (o : Option ℕ) (cut : ℕ)
    → IsPlace text o
    → IsCut text cut
    → IsCut text (or_else o cut)
or_else-IsCut text none cut place h = h
or_else-IsCut text (some zero) cut place h = place
or_else-IsCut text (some (suc i)) cut place h = omega (arith, place)

cut_at-IsCut :
    (limit : ℕ) (remaining : Text)
    → suc limit ≤ length remaining
    → IsCut (take (suc limit) remaining) (cut_at (suc limit) remaining)
unfolding cut_at
cut_at-IsCut limit remaining long =
    let window = take (suc limit) remaining in
    let whole : IsCut window (suc limit) = omega (arith, length-take (suc limit) remaining long) in
    or_else-IsCut window (rfind (codes "\n\n") window) _ (rfind-IsPlace (codes "\n") window)
      (or_else-IsCut window (rfind (codes "\n") window) (suc limit) (rfind-IsPlace [] window) whole)

module _ (u : Unicode) where
  -- The characters that are no white space.
  abbrev pub ink : Text → Text
  ink text = keep (λ c. not (u.is_space c)) text

  ink-lstrip : (text : Text) → ink (lstrip u text) ≡ ink text
  unfolding lstrip
  ink-lstrip [] = refl
  ink-lstrip (c ∷ text) = elim (Bool-cases (u.is_space c)) [
    | inl e ↦ rw e (ink-lstrip text)
    | inr e ↦ rw (e, e) refl
  ]

  lstrip-le : (text : Text) → length (lstrip u text) ≤ length text
  unfolding lstrip
  lstrip-le [] = omega arith
  lstrip-le (c ∷ text) = elim (Bool-cases (u.is_space c)) [
    | inl e ↦ rw e (omega (arith, lstrip-le text))
    | inr e ↦ rw e (omega arith)
  ]

  -- What is left behind a cut is shorter.
  shorter :
      u.is_space b'\n' ≡ true
      → (limit cut : ℕ) (remaining : Text) → suc limit ≤ length remaining
      → IsCut (take (suc limit) remaining) cut
      → length (lstrip u (drop cut remaining)) < length remaining
  unfolding lstrip
  shorter space limit cut [] long h = absurd (omega (arith, long))
  shorter space limit zero (c ∷ remaining) long h =
      let blank : u.is_space c ≡ true = rw (h) space in
      rw blank (omega (arith, lstrip-le remaining))
  shorter space limit (suc cut) (c ∷ remaining) long h =
      let left = lstrip-le (drop cut remaining) in omega (arith, left, length-drop cut remaining)

  abbrev pub joined : List Text → Text
  joined [] = []
  joined (chunk ∷ chunks) = chunk ++ joined chunks

  -- Chunks that the chat takes, with all of the text but white space.
  abbrev pub IsSplit : (limit : ℕ) → Text → List Text → Type 0
  IsSplit limit text chunks =
      All (λ chunk. length chunk ≤ limit) chunks × (ink (joined chunks) ≡ ink text)

  abbrev pub Splits : (limit : ℕ) → Text → Option (List Text) → Type 0
  Splits limit text o = (chunks : List Text) × (o ≡ some chunks) × IsSplit limit text chunks

  one_chunk-IsSplit :
      (limit : ℕ) (text : Text) → length text ≤ limit → IsSplit limit text (text ∷ [])
  one_chunk-IsSplit limit text short = ((short, tt), ap ink (append-nil text))

  last_chunk-IsSplit :
      (limit : ℕ) (text : Text) → length text ≤ limit → IsSplit limit text (last_chunk text)
  last_chunk-IsSplit limit [] short = (tt, refl)
  last_chunk-IsSplit limit (c ∷ text) short = one_chunk-IsSplit limit (c ∷ text) short

  add_chunk-Splits :
      (limit cut : ℕ) (text : Text) (o : Option (List Text))
      → length (take cut text) ≤ limit
      → Splits limit (lstrip u (drop cut text)) o
      → Splits limit text (add_chunk (take cut text) o)
  add_chunk-Splits limit cut text o fits (chunks, e, (all_fit, same)) =
      let p : ℕ → Bool = λ (c : ℕ). not (u.is_space c) in
      let rest = same ∙ ink-lstrip (drop cut text) in
      let whole : ink (take cut text ++ joined chunks) ≡ ink text =
        keep-append p (take cut text) (joined chunks)
        ∙ ap (λ t. ink (take cut text) ++ t) rest
        ∙ sym (keep-append p (take cut text) (drop cut text))
        ∙ ap ink (take-drop cut text) in
      (take cut text ∷ chunks, ap (add_chunk (take cut text)) e, ((fits, all_fit), whole))

  cut-fits :
      (limit cut : ℕ) (text : Text)
      → suc limit ≤ length text
      → IsCut (take (suc limit) text) cut
      → length (take cut text) ≤ suc limit
  cut-fits limit zero text long h = omega arith
  cut-fits limit (suc cut) text long h =
      omega (arith, h, length-take (suc limit) text long, length-take-le (suc cut) text)

  chunks_from-Splits :
      u.is_space b'\n' ≡ true
      → (fuel limit : ℕ) (text : Text) → length text ≤ fuel
      → Splits (suc limit) text (chunks_from u fuel (suc limit) text)
  unfolding chunks_from
  chunks_from-Splits space zero limit text enough =
      let short : ltb (suc limit) (length text) ≡ false =
        ge→ltb (suc limit) (length text) (omega (arith, enough)) in
      rw short (last_chunk text, refl, last_chunk-IsSplit (suc limit) text (omega (arith, enough)))
  chunks_from-Splits space (suc fuel) limit text enough =
      elim (Bool-cases (ltb (suc limit) (length text))) [
        | inr short ↦ rw short (
          last_chunk text,
          refl,
          last_chunk-IsSplit (suc limit) text (ltb→ge (suc limit) (length text) short),
        )
        | inl long ↦
            let most : suc limit < length text = ltb→lt (suc limit) (length text) long in
            let least : suc limit ≤ length text = omega (arith, most) in
            let cut = cut_at (suc limit) text in
            let is_cut = cut_at-IsCut limit text least in
            let left = shorter space limit cut text least is_cut in
            let further =
              chunks_from-Splits space fuel limit (lstrip u (drop cut text))
                (omega (arith, left, enough)) in
            rw long (
              add_chunk-Splits (suc limit) cut text _ (cut-fits limit cut text least is_cut)
                further)
      ]

  -- With a limit of at least 1 a message is split, and not for ever: into chunks of at most that
  -- many characters, which together have the characters of the message in their order, but for
  -- white space; given that a newline is white space.
  pub split_for_telegram-Splits :
      u.is_space b'\n' ≡ true
      → (limit : ℕ) (text : Text) → Splits (suc limit) text (split_for_telegram u (suc limit) text)
  unfolding split_for_telegram
  split_for_telegram-Splits space limit text = elim (Bool-cases (ltb (suc limit) (length text))) [
    | inl long ↦ rw long (chunks_from-Splits space (length text) limit text (omega arith))
    | inr short ↦ rw short (
      text ∷ [],
      refl,
      one_chunk-IsSplit (suc limit) text (ltb→ge (suc limit) (length text) short),
    )
  ]
