-- ===== src/Guards/Audit.antt =====
-- What the hooks write to the audit logs (src/assistant/bridge/hooks.py).
use xone_assistant.Prelude.{
  ℕ, ◌+◌, ◌≤◌, leb, Bool, ◌++◌, ◌≡◌, ◌⊎◌, inl, inr, refl, arith, Text, codes, length, take,
  if◌then◌else◌, Bool-cases, length-append, length-take, leb→le,
}

mutual
  -- A value that json.loads returns; a dict is the sequence of its entries.
  pub data Json : Type 0 where
    text : Text → Json
    dict : Entries → Json
    items : Items → Json
    number : ℕ → Json
    boolean : Bool → Json
    null : Json

  pub data Entries : Type 0 where
    no_entry : Entries
    entry : Text → Json → Entries → Entries

  pub data Items : Type 0 where
    no_item : Items
    item : Json → Items → Items

-- ...<truncated>
abbrev pub suffix : Text
suffix = codes "...<truncated>"

module _ (max_len : ℕ) where
  unfoldable pub truncate : Text → Text
  truncate s = if leb (length s) max_len then s else take max_len s ++ suffix

  unfoldable mutual
    pub truncate_strings : Json → Json
    truncate_strings (text s) = text (truncate s)
    truncate_strings (dict entries) = dict (truncate_entries entries)
    truncate_strings (items values) = items (truncate_items values)
    truncate_strings (number n) = number n
    truncate_strings (boolean b) = boolean b
    truncate_strings null = null

    pub truncate_entries : Entries → Entries
    truncate_entries no_entry = no_entry
    truncate_entries (entry key value rest) =
        entry key (truncate_strings value) (truncate_entries rest)

    pub truncate_items : Items → Items
    truncate_items no_item = no_item
    truncate_items (item value rest) = item (truncate_strings value) (truncate_items rest)

  -- One text for another: the same when it is short, and else its beginning with the mark.
  abbrev pub Abridged : Text → Text → Type 0
  Abridged s t =
      ((length s ≤ max_len) × (t ≡ s))
      ⊎ ((max_len + 1 ≤ length s) × (length t ≡ max_len + 14) × (t ≡ take max_len s ++ suffix))

  -- Two values of one shape, whose texts are related so.
  abbrev mutual
    pub Abridges : Json → Json → Type 0
    Abridges (text s) (text t) = Abridged s t
    Abridges (dict entries) (dict entries') = AbridgesEntries entries entries'
    Abridges (items values) (items values') = AbridgesItems values values'
    Abridges (number n) (number n') = n ≡ n'
    Abridges (boolean b) (boolean b') = b ≡ b'
    Abridges null null = Unit
    Abridges _ _ = ⊥

    pub AbridgesEntries : Entries → Entries → Type 0
    AbridgesEntries no_entry no_entry = Unit
    AbridgesEntries (entry key value rest) (entry key' value' rest') =
        (key ≡ key') × Abridges value value' × AbridgesEntries rest rest'
    AbridgesEntries _ _ = ⊥

    pub AbridgesItems : Items → Items → Type 0
    AbridgesItems no_item no_item = Unit
    AbridgesItems (item value rest) (item value' rest') =
        Abridges value value' × AbridgesItems rest rest'
    AbridgesItems _ _ = ⊥

  truncate-Abridged : (s : Text) → Abridged s (truncate s)
  unfolding truncate
  truncate-Abridged s = elim (Bool-cases (leb (length s) max_len)) [
    | inl short ↦ inl (leb→le (length s) max_len short, rw short)
    | inr long ↦
        let longer : max_len + 1 ≤ length s = ground arith in
        let cut : length (take max_len s) ≡ max_len =
          length-take max_len s (omega (arith, longer)) in
        let e : truncate s ≡ take max_len s ++ suffix = rw long in
        let count : length (truncate s) ≡ max_len + 14 =
          rw (e, length-append (take max_len s) suffix, cut) in
        inr (longer, count, e)
  ]

  mutual
    unfolding truncate_strings

    value-Abridges : (value : Json) → Abridges value (truncate_strings value)
    value-Abridges (text s) = truncate-Abridged s
    value-Abridges (dict entries) = entries-Abridges entries
    value-Abridges (items values) = items-Abridges values
    value-Abridges (number n) = refl
    value-Abridges (boolean b) = refl
    value-Abridges null = tt

    entries-Abridges : (entries : Entries) → AbridgesEntries entries (truncate_entries entries)
    entries-Abridges no_entry = tt
    entries-Abridges (entry key value rest) = (refl, value-Abridges value, entries-Abridges rest)

    items-Abridges : (values : Items) → AbridgesItems values (truncate_items values)
    items-Abridges no_item = tt
    items-Abridges (item value rest) = (value-Abridges value, items-Abridges rest)

  -- What is logged has the shape of what was given, and every text in it, the keys aside, that is
  -- longer than `max_len` is its first `max_len` characters and the mark of 14; the others are as
  -- they were.
  pub truncate_strings-Abridges : (value : Json) → Abridges value (truncate_strings value)
  truncate_strings-Abridges value = value-Abridges value
