-- ===== src/Guards/Argv.antt =====
-- The argument lists of gh, git clone and uv sync (src/assistant/bridge/hooks.py).
pub mod Gh
pub mod Clone
use xone_assistant.Prelude.{
  starts_with, ℕ, ◌+◌, Bool, true, false, not, ◌&&◌, ◌||◌, Option, none, some, List, [], ◌∷◌, ◌++◌,
  ◌==◌, leb, if◌then◌else◌, Text, codes, text_eq,
}
use xone_assistant.Cron.Split.{contains, behind}
use xone_assistant.Patterns.{
  Charset, Re, one, many, seq, alt, eps, finish, unless, literal, maybe, at_least, between,
  re_match,
}
use xone_assistant.Guards.{
  Files, Reason, is_relative_to, not_gh, only_auth_status, subcommand_not_allowed,
  several_endpoints, endpoint_not_allowed, header_missing, header_not_allowed, flag_not_allowed,
  endpoint_missing, clone_needs_url, only_depth_one, url_not_allowed, clone_needs_dest,
  outside_root, invalid_path, uv_needs_subcommand, directory_missing, directory_needs_value,
  not_tools_or_skills,
}

-- [A-Za-z0-9_.-]
abbrev pub is_name_char : ℕ → Bool
is_name_char c =
    between b'A' b'Z' c
    || between b'a' b'z' c
    || between b'0' b'9' c
    || c == b'_'
    || c == b'.'
    || c == b'-'

-- `.`
abbrev pub is_dot_char : ℕ → Bool
is_dot_char c = not (c == b'\n')

abbrev seqs : List Re → Re
seqs [] = eps
seqs (r ∷ rs) = seq r (seqs rs)

module _ (cs : Charset) where
  -- (name(/[^?\s]*)?
  abbrev pub subtree : Text → Re
  subtree name =
      seq (literal name)
        (maybe (seq (literal (codes "/")) (many (λ c. not (c == b'?') && not (cs.is_space c)))))

  -- what _GH_API_SAFE_ENDPOINT_RE asks behind /repos/
  abbrev pub endpoint_tail : Re
  endpoint_tail = seqs (
      at_least 1 is_name_char
      ∷ literal (codes "/")
      ∷ at_least 1 is_name_char
      ∷ literal (codes "/")
      ∷ alt (subtree (codes "contents")) (subtree (codes "tarball"))
      ∷ maybe (seq (literal (codes "?")) (many (λ c. not (cs.is_space c))))
      ∷ finish
      ∷ [])

  -- _GH_API_SAFE_ENDPOINT_RE
  abbrev pub endpoint : Re
  endpoint =
      seq (literal (codes "/repos/"))
        (seq (unless (seq (many is_dot_char) (literal (codes "..")))) endpoint_tail)

  -- _GH_API_SAFE_ENDPOINT_RE.match
  unfoldable pub is_endpoint : Text → Bool
  unfolding re_match
  is_endpoint tok = re_match cs endpoint tok

-- `lower` is str.lower.
module _ (cs : Charset) (lower : Text → Text) where
  -- The loop over argv[2:].
  unfoldable pub api_args : Bool → List Text → Option Reason
  unfolding is_endpoint starts_with
  api_args true [] = none
  api_args false [] = some endpoint_missing
  api_args saw (tok ∷ []) =
      if starts_with (codes "/") tok
      then if saw
        then some several_endpoints
        else if is_endpoint cs tok
        then none
        else some endpoint_not_allowed
      else if text_eq tok (codes "-H")
      then some header_missing
      else some flag_not_allowed
  api_args saw (tok ∷ next ∷ rest) =
      let onward = api_args true (next ∷ rest) in
      let behind_header = api_args saw rest in
      if starts_with (codes "/") tok
      then if saw
        then some several_endpoints
        else if is_endpoint cs tok
        then onward
        else some endpoint_not_allowed
      else if text_eq tok (codes "-H")
      then if starts_with (codes "accept:") (lower next)
        then behind_header
        else some header_not_allowed
      else some flag_not_allowed

  abbrev pub auth_args : List Text → Option Reason
  auth_args (arg ∷ []) = if text_eq arg (codes "status") then none else some only_auth_status
  auth_args _ = some only_auth_status

  unfoldable pub validate_gh_argv : List Text → Option Reason
  unfolding api_args
  validate_gh_argv (gh ∷ sub ∷ args) =
      if not (text_eq gh (codes "gh"))
      then some not_gh
      else if text_eq sub (codes "auth")
      then auth_args args
      else if not (text_eq sub (codes "api"))
      then some subcommand_not_allowed
      else api_args false args
  validate_gh_argv _ = some not_gh

-- Whether a path is below the root, or below one of its directories.
abbrev pub clone_target : Files → Option (List Text) → Option Reason
clone_target files none = some invalid_path
clone_target files (some path) = if is_relative_to path files.root then none else some outside_root

abbrev pub clone_dest : Files → Text → List Text → Option Reason
clone_dest files url rest =
    if not
      (starts_with (codes "https://github.com/") url || starts_with (codes "git@github.com:") url)
    then some url_not_allowed
    else at_dest rest
  where
    at_dest : List Text → Option Reason
    at_dest [] = some clone_needs_dest
    at_dest (dest ∷ more) = clone_target files (files.place dest)

unfoldable pub validate_git_clone_argv : Files → List Text → Option Reason
unfolding starts_with is_relative_to
validate_git_clone_argv files (git ∷ clone ∷ depth ∷ url ∷ rest) =
    if not (text_eq depth (codes "--depth=1"))
    then some only_depth_one
    else clone_dest files url rest
validate_git_clone_argv files _ = some clone_needs_url

-- The first argument that begins with --directory, and the argument behind it.
abbrev pub find_directory : List Text → Option (Text × Option Text)
find_directory [] = none
find_directory (arg ∷ []) = if starts_with (codes "--directory") arg then some (arg, none) else none
find_directory (arg ∷ next ∷ rest) =
    let later = find_directory (next ∷ rest) in
    if starts_with (codes "--directory") arg then some (arg, some next) else later

abbrev pub sync_target : Files → Option (List Text) → Option Reason
sync_target files none = some invalid_path
sync_target files (some path) =
    if is_relative_to path (files.root ++ codes "tools" ∷ [])
      || is_relative_to path (files.root ++ codes "skills" ∷ [])
    then none
    else some not_tools_or_skills

abbrev pub sync_directory : Files → Option (Text × Option Text) → Option Reason
sync_directory files none = some directory_missing
sync_directory files (some (arg, next)) =
    if contains b'=' arg then sync_target files (files.place (behind b'=' arg)) else valued next
  where
    valued : Option Text → Option Reason
    valued none = some directory_needs_value
    valued (some path) = sync_target files (files.place path)

unfoldable pub validate_uv_sync_argv : Files → List Text → Option Reason
unfolding starts_with is_relative_to contains behind
validate_uv_sync_argv files (uv ∷ sub ∷ args) =
    if not (text_eq sub (codes "sync")) then none else sync_directory files (find_directory args)
validate_uv_sync_argv files _ = some uv_needs_subcommand
