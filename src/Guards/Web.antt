-- ===== src/Guards/Web.antt =====
-- The guard of WebFetch (src/assistant/bridge/hooks.py): what a fetch is about, by its literal host
-- and by the addresses that the name resolves to.
pub mod Public
use xone_assistant.Prelude.{
  Bool, true, false, ◌||◌, Option, none, some, List, [], ◌∷◌, ◌++◌, Text, codes, text_eq, ends_with,
  if◌then◌else◌,
}
use xone_assistant.Cron.Split.{Unicode, strip}
use xone_assistant.Guards.{
  Decision, allow, deny, malformed_url, empty_host, literal_blocked, resolved_to_blocked,
}

-- What ipaddress says of an address.
pub record Ip : Type 0 where
  pub is_loopback : Bool
  pub is_private : Bool
  pub is_link_local : Bool
  pub is_reserved : Bool
  pub is_multicast : Bool
  pub is_unspecified : Bool

-- What getaddrinfo comes to: the addresses of its answers; gaierror, OSError or TimeoutError; or
-- another exception, as the UnicodeError of a label that is too long.
pub data Lookup : Type 0 where
  found : List Text → Lookup
  unresolved : Lookup
  raised : Lookup

-- What the guard takes from Python: the characters of str.strip, str.lower, ipaddress.ip_address,
-- which is none when it raises ValueError, urlparse(url).hostname, which is none when urlparse does
-- and some none when it is None, and getaddrinfo.
pub record Net : Type 0 where
  pub unicode : Unicode
  pub lower : Text → Text
  pub ip_address : Text → Option Ip
  pub hostname : Text → Option (Option Text)
  pub getaddrinfo : Text → Lookup

-- WEBFETCH_BLOCKED_HOSTNAMES
abbrev pub blocked_hostnames : List Text
blocked_hostnames = codes "localhost" ∷ codes "metadata.google.internal" ∷ codes "metadata" ∷ []

-- The reasons of the two layers, which the hook tells the model.
pub data Block : Type 0 where
  invalid_ip loopback private link_local reserved multicast unspecified : Block
  no_host : Block
  literal_ip : Block → Block
  forbidden_hostname : Text → Block

-- The categories, in the order in which they are asked for.
unfoldable pub category : Ip → Option Block
category ip =
    if ip.is_loopback
    then some loopback
    else if ip.is_private
    then some private
    else if ip.is_link_local
    then some link_local
    else if ip.is_reserved
    then some reserved
    else if ip.is_multicast
    then some multicast
    else if ip.is_unspecified
    then some unspecified
    else none

abbrev pub category_of : Option Ip → Option Block
category_of none = some invalid_ip
category_of (some ip) = category ip

abbrev pub names_host : Text → Text → Bool
names_host host forbidden = text_eq host forbidden || ends_with (codes "." ++ forbidden) host

unfoldable pub hostname_block : Text → List Text → Option Block
hostname_block host [] = none
hostname_block host (forbidden ∷ names) =
    if names_host host forbidden
    then some (forbidden_hostname forbidden)
    else hostname_block host names

-- (ti.get("url") or "")
abbrev pub or_empty : Option Text → Text
or_empty none = []
or_empty (some url) = url

module _ (net : Net) where
  unfoldable pub ip_is_blocked : Text → Option Block
  ip_is_blocked ip_str = category_of (net.ip_address ip_str)

  abbrev pub literal : Option Block → Option Block
  literal none = none
  literal (some reason) = some (literal_ip reason)

  abbrev pub layer1_host : Text → Option Ip → Option Block
  layer1_host host (some ip) = literal (ip_is_blocked host)
  layer1_host host none = hostname_block host blocked_hostnames

  unfoldable pub layer1_block : Text → Option Block
  layer1_block [] = some no_host
  layer1_block (c ∷ host) = layer1_host (c ∷ host) (net.ip_address (c ∷ host))

  -- the loop over the answers
  unfoldable pub check_infos : List Text → Decision
  check_infos [] = allow
  check_infos (ip_str ∷ infos) = let onward = check_infos infos in at (ip_is_blocked ip_str) onward
    where
      at : Option Block → Decision → Decision
      at none onward = onward
      at (some reason) onward = deny resolved_to_blocked

  abbrev pub check_lookup : Lookup → Option Decision
  check_lookup (found infos) = some (check_infos infos)
  check_lookup unresolved = some allow
  check_lookup raised = none

  abbrev pub layer2 : Text → Option Block → Option Decision
  layer2 host (some reason) = some (deny literal_blocked)
  layer2 host none = check_lookup (net.getaddrinfo host)

  abbrev pub check_host : Text → Option Decision
  check_host [] = some (deny empty_host)
  check_host (c ∷ host) = layer2 (c ∷ host) (layer1_block (c ∷ host))

  abbrev pub check_parsed : Option (Option Text) → Option Decision
  check_parsed none = some (deny malformed_url)
  check_parsed (some host) = check_host (net.lower (or_empty host))

  abbrev pub check_url : Text → Option Decision
  check_url [] = some allow
  check_url (c ∷ url) = check_parsed (net.hostname (c ∷ url))

  -- `none` is an exception that leaves the hook.
  unfoldable pub webfetch_hook : Option Text → Option Decision
  webfetch_hook url = check_url (strip net.unicode (or_empty url))
