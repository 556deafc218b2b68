-- ===== src/Guards/Web/Public.antt =====
-- A fetch that is allowed goes to public addresses (src/assistant/bridge/hooks.py).
use xone_assistant.Prelude.{
  ◌≡◌, ◌≢◌, ◌↔◌, ◌⊎◌, inl, inr, refl, ap, ◌∙◌, Option-cases, arith, false, Bool-cases, Option, none,
  some, List, [], ◌∷◌, Text, All,
}
use xone_assistant.Cron.Split.{strip}
use xone_assistant.Guards.{allow, deny, resolved_to_blocked}
use xone_assistant.Guards.Web.{
  Ip, Lookup, found, unresolved, raised, Net, blocked_hostnames, Block, category, category_of,
  hostname_block, names_host, or_empty, ip_is_blocked, literal, layer1_host, layer1_block,
  check_infos, check_lookup, layer2, check_host, check_parsed, check_url, webfetch_hook,
  forbidden_hostname,
}

-- An address in none of the categories.
abbrev pub IsPublic : Ip → Type 0
IsPublic ip =
    (ip.is_loopback ≡ false)
    × (ip.is_private ≡ false)
    × (ip.is_link_local ≡ false)
    × (ip.is_reserved ≡ false)
    × (ip.is_multicast ≡ false)
    × (ip.is_unspecified ≡ false)

-- A text that is such an address.
abbrev pub IsPublicText : Net → Text → Type 0
IsPublicText net text = (ip : Ip) × (net.ip_address text ≡ some ip) × IsPublic ip

-- A host that is a public address, or a name that is not on the list and not below one that is.
abbrev pub IsOpenHost : Net → Text → Type 0
IsOpenHost net host =
    IsPublicText net host
    ⊎ ((net.ip_address host ≡ none) × All (λ name. names_host host name ≡ false) blocked_hostnames)

-- A host that does not resolve, or resolves to public addresses only.
abbrev pub ResolvesOpenly : Net → Text → Type 0
ResolvesOpenly net host =
    (net.getaddrinfo host ≡ unresolved)
    ⊎ ((infos : List Text) × (net.getaddrinfo host ≡ found infos) × All (IsPublicText net) infos)

category_iff : (ip : Ip) → (category ip ≡ none) ↔ IsPublic ip
unfolding category
category_iff ip = ground arith

category_of_iff :
    (o : Option Ip) → (category_of o ≡ none) ↔ ((ip : Ip) × (o ≡ some ip) × IsPublic ip)
category_of_iff none = (λ h. absurd (cc (h)), λ (ip, e, p). absurd (cc (e)))
category_of_iff (some ip) = (
  λ h. (ip, refl, (category_iff ip).0 h),
  λ (ip', e, p). let same : ip ≡ ip' = cc (e) in rw same ((category_iff ip').1 p),
)

ip_is_blocked_iff :
    (net : Net) (text : Text) → (ip_is_blocked net text ≡ none) ↔ IsPublicText net text
unfolding ip_is_blocked
ip_is_blocked_iff net text = category_of_iff (net.ip_address text)

hostname_block_iff :
    (host : Text) (names : List Text)
    → (hostname_block host names ≡ none) ↔ All (λ name. names_host host name ≡ false) names
unfolding hostname_block
hostname_block_iff host [] = (λ h. tt, λ h. refl)
hostname_block_iff host (name ∷ names) = elim (Bool-cases (names_host host name)) [
  | inl bad ↦ (
    λ h. let h' : some (forbidden_hostname name) ≡ none = rw bad at h in absurd (cc (h')),
    λ h. absurd (cc (bad, h.0)),
  )
  | inr good ↦ (
    λ h. (good, (hostname_block_iff host names).0 (rw good at h)),
    λ h. rw good ((hostname_block_iff host names).1 h.1),
  )
]

module _ (net : Net) where
  literal_iff : (o : Option Block) → (literal net o ≡ none) ↔ (o ≡ none)
  literal_iff none = (λ h. refl, λ h. refl)
  literal_iff (some reason) = (λ h. absurd (cc (h)), λ h. absurd (cc (h)))

  layer1_host_iff :
      (host : Text) (o : Option Ip)
      → net.ip_address host ≡ o
      → (layer1_host net host o ≡ none) ↔ IsOpenHost net host
  layer1_host_iff host (some ip) e = (
    λ h. inl ((ip_is_blocked_iff net host).0 ((literal_iff (ip_is_blocked net host)).0 h)),
    λ h. elim h [
      | inl public ↦
          (literal_iff (ip_is_blocked net host)).1 ((ip_is_blocked_iff net host).1 public)
      | inr (name, _) ↦ absurd (cc (e, name))
    ],
  )
  layer1_host_iff host none e = (
    λ h. inr (e, (hostname_block_iff host blocked_hostnames).0 h),
    λ h. elim h [
      | inl (ip, e', _) ↦ absurd (cc (e, e'))
      | inr (_, named) ↦ (hostname_block_iff host blocked_hostnames).1 named
    ],
  )

  check_infos_iff :
      (infos : List Text) → (check_infos net infos ≡ allow) ↔ All (IsPublicText net) infos
  unfolding check_infos
  check_infos_iff [] = (λ h. tt, λ h. refl)
  check_infos_iff (ip_str ∷ infos) = elim (Option-cases (ip_is_blocked net ip_str)) [
    | inl clean ↦ (
      λ h. ((ip_is_blocked_iff net ip_str).0 clean, (check_infos_iff infos).0 (rw clean at h)),
      λ h. rw clean ((check_infos_iff infos).1 h.1),
    )
    | inr (reason, bad) ↦ (
      λ h. let h' : deny resolved_to_blocked ≡ allow = rw bad at h in absurd (cc (h')),
      λ h.
          let clean : ip_is_blocked net ip_str ≡ none = (ip_is_blocked_iff net ip_str).1 h.0 in
          absurd (cc (bad, clean)),
    )
  ]

  check_lookup_iff :
      (host : Text) (lookup : Lookup)
      → net.getaddrinfo host ≡ lookup
      → (check_lookup net lookup ≡ some allow) ↔ ResolvesOpenly net host
  check_lookup_iff host (found infos) e = (
    λ h.
        let h' : check_infos net infos ≡ allow = cc (h) in
        inr (infos, e, (check_infos_iff infos).0 h'),
    λ h. elim h [
      | inl e' ↦ absurd (cc (e, e'))
      | inr (infos', e', clean) ↦
          let same : infos ≡ infos' = cc (e, e') in
          ap some (rw same ((check_infos_iff infos').1 clean))
    ],
  )
  check_lookup_iff host unresolved e = (λ h. inl e, λ h. refl)
  check_lookup_iff host raised e = (
    λ h. absurd (cc (h)),
    λ h. elim h [ inl e' ↦ absurd (cc (e, e')) | inr (infos, e', _) ↦ absurd (cc (e, e')) ],
  )

  layer2_iff :
      (host : Text) (o : Option Block)
      → (layer2 net host o ≡ some allow) ↔ ((o ≡ none) × ResolvesOpenly net host)
  layer2_iff host (some reason) = (λ h. absurd (cc (h)), λ h. absurd (cc (h.0)))
  layer2_iff host none =
      let at = check_lookup_iff host (net.getaddrinfo host) refl in
      (λ h. (refl, at.0 h), λ h. at.1 h.1)

  check_host_iff :
      (host : Text)
      → (check_host net host ≡ some allow)
        ↔ ((host ≢ []) × IsOpenHost net host × ResolvesOpenly net host)
  unfolding layer1_block
  check_host_iff [] = (λ h. absurd (cc (h)), λ h. absurd (h.0 refl))
  check_host_iff (c ∷ host) =
      let at = layer2_iff (c ∷ host) (layer1_block net (c ∷ host)) in
      let first = layer1_host_iff (c ∷ host) (net.ip_address (c ∷ host)) refl in
      (
        λ h. let (clean, resolves) = at.0 h in (λ e. absurd (cc (e)), first.0 clean, resolves),
        λ (_, clean, resolves). at.1 (first.1 clean, resolves),
      )

  -- What the URL has for a host, in small letters.
  abbrev pub HasHost : Option (Option Text) → Text → Type 0
  HasHost parsed host =
      (given : Option Text) × (parsed ≡ some given) × (net.lower (or_empty given) ≡ host)

  -- The URL names a host that is open and resolves openly.
  abbrev pub IsOpen : Option (Option Text) → Type 0
  IsOpen parsed =
      (host : Text) × HasHost parsed host
      × (host ≢ [])
      × IsOpenHost net host
      × ResolvesOpenly net host

  check_parsed_iff :
      (parsed : Option (Option Text)) → (check_parsed net parsed ≡ some allow) ↔ IsOpen parsed
  check_parsed_iff none =
      (λ h. absurd (cc (h)), λ (host, (given, e, same), _, _, _). absurd (cc (e)))
  check_parsed_iff (some given) =
      let host = net.lower (or_empty given) in
      (
        λ h.
            let (wanted, open_host, resolves) = (check_host_iff host).0 h in
            (host, (given, refl, refl), wanted, open_host, resolves),
        λ (host', (given', e, same), wanted, open_host, resolves).
            let given≡ : given ≡ given' = cc (e) in
            let host≡ : host ≡ host' = ap (λ g. net.lower (or_empty g)) given≡ ∙ same in
            rw host≡ ((check_host_iff host').1 (wanted, open_host, resolves)),
      )

-- A fetch is allowed exactly when its URL is blank, or has a host that is no blocked literal
-- and no blocked name, and that either does not resolve or resolves to public addresses only. This
-- holds of literal addresses too: the code looks them up like the names, although a comment of it
-- says that a public one is allowed without a lookup.
pub webfetch_hook_iff :
    (net : Net) (url : Option Text)
    → (webfetch_hook net url ≡ some allow) ↔ (
        (strip net.unicode (or_empty url) ≡ [])
        ⊎ IsOpen net (net.hostname (strip net.unicode (or_empty url))))
unfolding webfetch_hook
webfetch_hook_iff net url = at (strip net.unicode (or_empty url))
  where
    at :
        (text : Text)
        → (check_url net text ≡ some allow) ↔ ((text ≡ []) ⊎ IsOpen net (net.hostname text))
    at [] = (λ h. inl refl, λ h. refl)
    at (c ∷ text) =
        let parsed = check_parsed_iff net (net.hostname (c ∷ text)) in
        (
          λ h. inr (parsed.0 h),
          λ h. elim h [ inl e ↦ absurd (cc (e)) | inr reached ↦ parsed.1 reached ],
        )
