-- ===== src/Guards/Examples.antt =====
-- Calls that the hooks allow (src/assistant/bridge/hooks.py).
use xone_assistant.Prelude.{
  ℕ, ◌+◌, ◌≡◌, ◌↔◌, ◌⊎◌, refl, Bool, false, ◌||◌, ◌==◌, if◌then◌else◌, Option, none, some, [], ◌∷◌,
  Text, codes, All, text_eq, starts_with, ends_with,
}
use xone_assistant.Cron.Split.{Unicode, strip}
use xone_assistant.Patterns.{Charset, between, match_at, run_many, search_from, re_search}
use xone_assistant.Guards.{Files, allow, is_relative_to}
use xone_assistant.Guards.Paths.{read, file_hook}
use xone_assistant.Guards.Paths.Inside.{IsInside, file_hook_iff}
use xone_assistant.Guards.Argv.{validate_gh_argv, validate_git_clone_argv}
use xone_assistant.Guards.Argv.Gh.{GhCall, validate_gh_argv_iff}
use xone_assistant.Guards.Bash.{
  Shell, is_separator, slips, bash_allowlist_check, check_stripped, bash_hook,
}
use xone_assistant.Guards.Bash.Slips.{bash_hook-separators}
use xone_assistant.Guards.Web.{
  Ip, found, Net, or_empty, webfetch_hook, check_infos, layer1_block, ip_is_blocked, category,
  hostname_block,
}
use xone_assistant.Guards.Web.Public.{IsOpen, webfetch_hook_iff}

abbrev lower : ℕ → ℕ
lower c = if between b'A' b'Z' c then c + 32 else c

abbrev is_ascii_space : ℕ → Bool
is_ascii_space c = c == b' ' || between 9 13 c

abbrev ascii_unicode : Unicode
ascii_unicode = record { digit = λ c. none; is_space = is_ascii_space }

abbrev ascii : Charset
ascii = record {
  same = λ p c. lower p == lower c;
  is_word = λ c. between b'a' b'z' (lower c) || between b'0' b'9' c || c == b'_';
  is_space = is_ascii_space;
}

-- A project whose files are given by their names.
abbrev project : Files
project = record {
  root = codes "srv" ∷ codes "bot" ∷ [];
  place = λ text. some (codes "srv" ∷ codes "bot" ∷ text ∷ []);
}

abbrev shell : Shell
shell = record {
  unicode = ascii_unicode;
  charset = ascii;
  lower = λ t. t;
  shlex_split = λ t. some (t ∷ []);
}

abbrev listing : Text
listing = codes "ls tools"

listing_allowed : bash_hook shell project listing ≡ allow
unfolding bash_hook bash_allowlist_check check_stripped strip slips re_search search_from match_at
    run_many starts_with
listing_allowed = refl

bash_hook-separators_example : All (λ c. is_separator c ≡ false) listing
bash_hook-separators_example = bash_hook-separators shell project listing listing_allowed

-- A newline is no separator for the guard, but one for the shell.
abbrev two_lines : Text
two_lines = codes "ls \nrm -rf x"

two_lines_allowed : bash_hook shell project two_lines ≡ allow
unfolding bash_hook bash_allowlist_check check_stripped strip slips re_search search_from match_at
    run_many starts_with
two_lines_allowed = refl

file_hook_iff_example :
    (file_hook project read (some (codes "a.txt")) none ≡ allow)
    ↔ IsInside project (some (codes "a.txt"))
file_hook_iff_example =
    file_hook_iff project read (some (codes "a.txt")) none (λ e. absurd (cc (e)))

validate_gh_argv_iff_example :
    (validate_gh_argv ascii (λ t. t) (codes "gh" ∷ codes "auth" ∷ codes "status" ∷ []) ≡ none)
    ↔ GhCall ascii (λ t. t) (codes "gh" ∷ codes "auth" ∷ codes "status" ∷ [])
validate_gh_argv_iff_example =
    validate_gh_argv_iff ascii (λ t. t) (codes "gh" ∷ codes "auth" ∷ codes "status" ∷ [])

-- What follows the directory of a clone is not looked at.
clone_with_option :
    validate_git_clone_argv project (
      codes "git"
      ∷ codes "clone"
      ∷ codes "--depth=1"
      ∷ codes "https://github.com/a/b"
      ∷ codes "skills"
      ∷ codes "--upload-pack=x"
      ∷ [])
    ≡ none
unfolding validate_git_clone_argv starts_with is_relative_to
clone_with_option = refl

abbrev public_ip : Ip
public_ip = record {
  is_loopback = false;
  is_private = false;
  is_link_local = false;
  is_reserved = false;
  is_multicast = false;
  is_unspecified = false;
}

-- A net with one host, which has one public address.
abbrev net : Net
net = record {
  unicode = ascii_unicode;
  lower = λ t. t;
  ip_address = λ t. if text_eq t (codes "9.9.9.9") then some public_ip else none;
  hostname = λ url. some (some (codes "example.org"));
  getaddrinfo = λ host. found (codes "9.9.9.9" ∷ []);
}

abbrev url : Option Text
url = some (codes "https://example.org/")

webfetch_hook_iff_example : (webfetch_hook net url ≡ some allow) ↔ (
    (strip ascii_unicode (or_empty url) ≡ [])
    ⊎ IsOpen net (net.hostname (strip ascii_unicode (or_empty url))))
webfetch_hook_iff_example = webfetch_hook_iff net url

fetch_allowed : webfetch_hook net url ≡ some allow
unfolding webfetch_hook check_infos layer1_block ip_is_blocked category hostname_block ends_with
    strip
fetch_allowed = refl
