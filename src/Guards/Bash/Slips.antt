-- ===== src/Guards/Bash/Slips.antt =====
-- What the second look at a Bash command stops, and what it lets pass
-- (src/assistant/bridge/hooks.py).
use xone_assistant.Prelude.{
  ℕ, Bool, true, false, Option, none, some, [], ◌∷◌, ◌++◌, ◌≡◌, refl, ap, Text, All, inl, inr,
  Bool-cases,
}
use xone_assistant.Patterns.{Charset}
use xone_assistant.Patterns.Meets.{re_search_iff}
use xone_assistant.Guards.{Files, Reason, allow, deny, slip_guard}
use xone_assistant.Guards.Bash.{
  Shell, is_separator, slip_guard_re, slips, bash_hook, guarded, bash_allowlist_check,
}

-- A character that `slips` finds by itself, somewhere in the text.
separator-slips :
    (cs : Charset) (front : Text) (c : ℕ) (back : Text)
    → is_separator c ≡ true
    → slips cs (front ++ c ∷ back) ≡ true
unfolding slips
separator-slips cs front c back h =
    (re_search_iff cs (slip_guard_re cs) (front ++ c ∷ back)).1
      (front, c ∷ back, refl, (some c, back, inl (inl (c, h, refl, refl))))

All-of_splits :
    (P : ℕ → Bool) (text : Text)
    → ((front : Text) (c : ℕ) (back : Text) → text ≡ front ++ c ∷ back → P c ≡ false)
    → All (λ c. P c ≡ false) text
All-of_splits P [] h = tt
All-of_splits P (c ∷ text) h =
    (h [] c text refl, All-of_splits P text (λ front d back e. h (c ∷ front) d back (ap (◌∷◌ c) e)))

bash_hook-slips :
    (sh : Shell) (files : Files) (cmd : Text)
    → bash_hook sh files cmd ≡ allow
    → slips sh.charset cmd ≡ false
unfolding bash_hook
bash_hook-slips sh files cmd h = go (bash_allowlist_check sh files cmd) h
  where
    go : (o : Option Reason) → guarded sh files cmd o ≡ allow → slips sh.charset cmd ≡ false
    go (some reason) e = absurd (cc (e))
    go none e = elim (Bool-cases (slips sh.charset cmd)) [
      | inl bad ↦ let e' : deny slip_guard ≡ allow = rw bad at e in absurd (cc (e'))
      | inr good ↦ good
    ]

-- A command that is allowed has no semicolon, ampersand, bar or backquote in it.
pub bash_hook-separators :
    (sh : Shell) (files : Files) (cmd : Text)
    → bash_hook sh files cmd ≡ allow
    → All (λ c. is_separator c ≡ false) cmd
bash_hook-separators sh files cmd h = All-of_splits is_separator cmd (λ front c back e.
    elim (Bool-cases (is_separator c)) [
      | inl bad ↦
          let found = separator-slips sh.charset front c back bad in
          let found' : slips sh.charset cmd ≡ true = rw e found in
          absurd (cc (found', bash_hook-slips sh files cmd h))
      | inr good ↦ good
    ])
