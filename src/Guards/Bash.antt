-- ===== src/Guards/Bash.antt =====
-- The guard of Bash commands (src/assistant/bridge/hooks.py).
pub mod Slips
use xone_assistant.Prelude.{
  starts_with, ℕ, zero, suc, ◌+◌, Bool, true, false, not, ◌&&◌, ◌||◌, Option, none, some, List, [],
  ◌∷◌, ◌++◌, ◌==◌, leb, if◌then◌else◌, Text, codes, text_eq, any,
}
use xone_assistant.Cron.Split.{Unicode, strip, split_words}
use xone_assistant.Patterns.{
  letter, Charset, Re, one, many, seq, alt, eps, edge, finish, literal, folded, maybe, at_least,
  between, re_search,
}
use xone_assistant.Guards.{
  Files, Reason, Decision, decide, deny, is_relative_to, empty_command, unparseable, empty_argv,
  not_in_allowlist, slip_guard, outside_root, invalid_path, cat_without_arguments, cat_flags,
}
use xone_assistant.Guards.Argv.{validate_gh_argv, validate_git_clone_argv, validate_uv_sync_argv}

-- BASH_ALLOWLIST_PREFIXES
abbrev pub prefixes : List Text
prefixes =
    codes "python tools/"
    ∷ codes "python3 tools/"
    ∷ codes "uv run tools/"
    ∷ codes "python skills/"
    ∷ codes "python3 skills/"
    ∷ codes "uv run skills/"
    ∷ codes "git status "
    ∷ codes "git log "
    ∷ codes "git diff "
    ∷ codes "ls "
    ∷ codes "echo "
    ∷ []

-- BASH_ALLOWLIST_EXACT
abbrev pub exact : List Text
exact = codes "ls" ∷ codes "pwd" ∷ codes "git status" ∷ codes "git log" ∷ codes "git diff" ∷ []

abbrev alts : Re → List Re → Re
alts r [] = r
alts r (s ∷ rs) = alt r (alts s rs)

-- [;&|`]
abbrev pub is_separator : ℕ → Bool
is_separator c = c == b';' || c == b'&' || c == b'|' || c == 96

module _ (cs : Charset) where
  -- [A-Za-z0-9+/]
  abbrev pub is_base64 : ℕ → Bool
  is_base64 c =
      letter cs 26 b'A' c || letter cs 26 b'a' c || between b'0' b'9' c || c == b'+' || c == b'/'

  abbrev whole_word : Text → Re
  whole_word word = seq edge (seq (folded cs word) edge)

  abbrev spaced : Text → Text → Re
  spaced first second = seq (folded cs first) (seq (at_least 1 cs.is_space) (folded cs second))

  abbrev is_octal : ℕ → Bool
  is_octal c = between b'0' b'7' c

  -- the words of BASH_SLIP_GUARD_RE
  abbrev pub secret_words : Re
  secret_words = alts (whole_word (codes "env")) (
      whole_word (codes "printenv")
      ∷ seq (whole_word (codes "set")) (seq (many cs.is_space) finish)
      ∷ folded cs (codes ".env")
      ∷ folded cs (codes ".ssh")
      ∷ folded cs (codes ".aws")
      ∷ folded cs (codes "secrets")
      ∷ seq (folded cs (codes ".db")) edge
      ∷ folded cs (codes "token")
      ∷ folded cs (codes "password")
      ∷ folded cs (codes "ANTHROPIC_API_KEY")
      ∷ [])

  -- and its encodings
  abbrev pub encodings : Re
  encodings = alts (seq (literal (codes "$'\\")) (one is_octal)) (
      spaced (codes "base64") (codes "-d")
      ∷ spaced (codes "openssl") (codes "enc")
      ∷ spaced (codes "xxd") (codes "-r")
      ∷ seq (at_least 48 is_base64)
          (seq (maybe (one (λ c. c == b'='))) (maybe (one (λ c. c == b'='))))
      ∷ seq (folded cs (codes "\\x")) (
          seq (one (λ c. letter cs 6 b'a' c || between b'0' b'9' c))
            (one (λ c. letter cs 6 b'a' c || between b'0' b'9' c)))
      ∷ seq (literal (codes "\\")) (seq (one is_octal) (seq (one is_octal) (one is_octal)))
      ∷ [])

  -- and what the shell expands
  abbrev pub expansions : Re
  expansions = alts (one is_separator) (
      literal (codes "$(")
      ∷ literal (codes "<(")
      ∷ literal (codes ">(")
      ∷ literal (codes "${")
      ∷ seq (literal (codes "$"))
          (one (λ c. letter cs 26 b'A' c || letter cs 26 b'a' c || c == b'_'))
      ∷ [])

  -- BASH_SLIP_GUARD_RE, its alternatives in another order
  abbrev pub slip_guard_re : Re
  slip_guard_re = alt expansions (alt secret_words encodings)

  -- BASH_SLIP_GUARD_RE.search
  unfoldable pub slips : Text → Bool
  unfolding re_search
  slips cmd = re_search cs slip_guard_re cmd

abbrev pub cat_places : Files → List Text → Option Reason
cat_places files [] = none
cat_places files (target ∷ targets) =
    let onward = cat_places files targets in at_place (files.place target) onward
  where
    at_place : Option (List Text) → Option Reason → Option Reason
    at_place none onward = some invalid_path
    at_place (some path) onward =
        if is_relative_to path files.root then onward else some outside_root

-- `none` is (True, None).
unfoldable pub cat_targets_ok : Files → List Text → Option Reason
unfolding starts_with is_relative_to
cat_targets_ok files [] = some cat_without_arguments
cat_targets_ok files (target ∷ targets) =
    if any (starts_with (codes "-")) (target ∷ targets)
    then some cat_flags
    else cat_places files (target ∷ targets)

-- What the guard takes from Python: its characters, str.lower and shlex.split, which is none when
-- it raises ValueError.
pub record Shell : Type 0 where
  pub unicode : Unicode
  pub charset : Charset
  pub lower : Text → Text
  pub shlex_split : Text → Option (List Text)

module _ (sh : Shell) (files : Files) where
  -- stripped[4:]
  abbrev pub behind_cat : Text → Text
  behind_cat (a ∷ b ∷ c ∷ d ∷ rest) = rest
  behind_cat _ = []

  abbrev pub is_word_two : Text → List Text → Bool
  is_word_two word [] = false
  is_word_two word (w ∷ rest) = text_eq w word

  -- The commands that are looked at word by word.
  unfoldable pub check_argv : Text → List Text → Option Reason
  unfolding validate_gh_argv validate_git_clone_argv validate_uv_sync_argv cat_targets_ok
      split_words strip
  check_argv stripped [] = some empty_argv
  check_argv stripped (word ∷ words) =
      if text_eq word (codes "gh")
      then validate_gh_argv sh.charset sh.lower (word ∷ words)
      else if text_eq word (codes "git") && is_word_two (codes "clone") words
      then validate_git_clone_argv files (word ∷ words)
      else if text_eq word (codes "uv") && is_word_two (codes "sync") words
      then validate_uv_sync_argv files (word ∷ words)
      else if starts_with (codes "cat ") stripped
      then cat_targets_ok files (split_words sh.unicode (strip sh.unicode (behind_cat stripped)))
      else some not_in_allowlist

  abbrev pub check_words : Text → Option (List Text) → Option Reason
  check_words stripped none = some unparseable
  check_words stripped (some argv) = check_argv stripped argv

  abbrev pub begins_allowed : Text → Bool
  begins_allowed stripped = any (λ p. starts_with p stripped) prefixes

  unfoldable pub check_stripped : Text → Option Reason
  unfolding check_argv starts_with
  check_stripped [] = some empty_command
  check_stripped (c ∷ cmd) =
      if any (text_eq (c ∷ cmd)) exact
      then none
      else if begins_allowed (c ∷ cmd)
      then none
      else check_words (c ∷ cmd) (sh.shlex_split (c ∷ cmd))

  -- `none` is None: the command is allowed.
  unfoldable pub bash_allowlist_check : Text → Option Reason
  unfolding check_stripped strip
  bash_allowlist_check cmd = check_stripped (strip sh.unicode cmd)

  abbrev pub guarded : Text → Option Reason → Decision
  guarded cmd (some reason) = deny reason
  guarded cmd none = if slips sh.charset cmd then deny slip_guard else decide none

  unfoldable pub bash_hook : Text → Decision
  unfolding bash_allowlist_check slips
  bash_hook cmd = guarded cmd (bash_allowlist_check cmd)
