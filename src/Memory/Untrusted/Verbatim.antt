-- ===== src/Memory/Untrusted/Verbatim.antt =====
-- What was let into the vault is shown as it is (src/assistant/tools_sdk/_memory_core.py).
use xone_assistant.Prelude.{
  ℕ, ◌≤◌, ◌≡◌, refl, arith, false, Option, none, some, [], ◌∷◌, ltb, Text, any, neither, guard-some,
  utf8_length,
}
use xone_assistant.Cron.Split.{Unicode}
use xone_assistant.Patterns.{Charset, Re, match_at, anything, re_search, search_from}
use xone_assistant.Memory.Untrusted.{
  clean_surrogates, split_lines, sentinel_re, scrub, has_sentinel, cage, wrap_untrusted, is_bare,
  sanitize_body,
}

scrub-clean :
    (cs : Charset) (r : Re) (prev : Option ℕ) (text : Text)
    → search_from cs r prev text ≡ false
    → scrub cs r prev text ≡ text
unfolding scrub search_from
scrub-clean cs r prev [] h = refl
scrub-clean cs r prev (c ∷ text) h =
    let (here, later) = neither (match_at cs r prev (c ∷ text) anything) _ h in
    rw (here, scrub-clean cs r (some c) text later)

-- A body that the vault takes: what was written without its surrogates, within the size, without a
-- line of three dashes, and without anything that the search for the tags finds.
abbrev pub IsSane : Charset → Unicode → ℕ → Text → Text → Type 0
IsSane cs u max_body_bytes body clean =
    (clean ≡ clean_surrogates body)
    × (utf8_length clean ≤ max_body_bytes)
    × (any (is_bare u) (split_lines clean) ≡ false)
    × (has_sentinel cs clean ≡ false)

sanitize_body_sound :
    (cs : Charset) (u : Unicode) (body : Text) (max_body_bytes : ℕ) (clean : Text)
    → sanitize_body cs u body max_body_bytes ≡ some clean
    → IsSane cs u max_body_bytes body clean
unfolding sanitize_body
sanitize_body_sound cs u body max_body_bytes clean h =
    let cleaned = clean_surrogates body in
    let (tags, h1) = guard-some (has_sentinel cs cleaned) _ clean h in
    let (bare, h2) = guard-some (any (is_bare u) (split_lines cleaned)) _ clean h1 in
    let (long, h3) = guard-some (ltb max_body_bytes (utf8_length cleaned)) _ clean h2 in
    let same : clean ≡ cleaned = cc (h3) in
    let fits : utf8_length cleaned ≤ max_body_bytes = ground (arith, long) in
    (same, rw same fits, rw same bare, rw same tags)

scrub-sane :
    (cs : Charset) (clean : Text)
    → has_sentinel cs clean ≡ false
    → scrub cs (sentinel_re cs) none clean ≡ clean
unfolding has_sentinel re_search
scrub-sane cs clean h = scrub-clean cs (sentinel_re cs) none clean h

-- A body that the vault takes stands in its envelope as it is: nothing of it is scrubbed.
pub wrap_untrusted-sanitize_body :
    (cs : Charset) (u : Unicode) (body : Text) (max_body_bytes : ℕ) (clean tag_name : Text)
    (first second third long : Text)
    → sanitize_body cs u body max_body_bytes ≡ some clean
    → (let (wrapped, nonce) = wrap_untrusted cs clean tag_name first second third long in
        wrapped ≡ cage tag_name nonce clean)
unfolding wrap_untrusted
wrap_untrusted-sanitize_body cs u body max_body_bytes clean tag_name first second third long h =
    let (_, _, _, tags) = sanitize_body_sound cs u body max_body_bytes clean h in
    let same = scrub-sane cs clean tags in rw same
