-- ===== src/Scheduler/Envelope/Closed.antt =====
-- No prompt closes its envelope (src/assistant/tools_sdk/_scheduler_core.py).
use xone_assistant.Prelude.{
  ℕ, Bool, true, false, ◌&&◌, [], ◌∷◌, ◌≡◌, All-map, refl, arith, ◌==◌, Text, All, inl, inr,
  Bool-cases,
}
use xone_assistant.Scheduler.Envelope.{starts, is_tag, scrub, has_tag, tag_name, zwsp}

module _ (same : ℕ → ℕ → Bool) where
  scrub-nil : scrub same [] ≡ []
  unfolding scrub
  scrub-nil = refl

  -- The two forms of a step of `scrub`.
  scrub-tag :
      (c : ℕ) (text : Text)
      → (c == b'<' && is_tag same text) ≡ true
      → scrub same (c ∷ text) ≡ b'<' ∷ zwsp ∷ scrub same text
  unfolding scrub
  scrub-tag c text h = rw h

  scrub-other :
      (c : ℕ) (text : Text)
      → (c == b'<' && is_tag same text) ≡ false
      → scrub same (c ∷ text) ≡ c ∷ scrub same text
  unfolding scrub
  scrub-other c text h = rw h

  starts-scrub :
      (pattern text : Text)
      → All (λ p. same p b'<' ≡ false) pattern
      → starts same pattern (scrub same text) ≡ true
      → starts same pattern text ≡ true
  unfolding starts scrub
  starts-scrub [] text plain h = refl
  starts-scrub (p ∷ pattern) [] plain h = h
  starts-scrub (p ∷ pattern) (c ∷ text) plain h =
      elim (Bool-cases (c == b'<' && is_tag same text)) [
        | inl tag ↦
            let h' : starts same (p ∷ pattern) (b'<' ∷ zwsp ∷ scrub same text) ≡ true =
              rw (scrub-tag c text tag) at h in
            absurd (ground (arith, h', plain.0))
        | inr other ↦
            let h' : starts same (p ∷ pattern) (c ∷ scrub same text) ≡ true =
              rw (scrub-other c text other) at h in
            elim (Bool-cases (starts same pattern (scrub same text))) [
              | inl rest ↦ ground (arith, h', starts-scrub pattern text plain.1 rest)
              | inr stop ↦ absurd (ground (arith, h', stop))
            ]
      ]

-- The letters of the pattern match neither `<` nor the zero-width space.
abbrev pub IsPlain : (ℕ → ℕ → Bool) → Type 0
IsPlain same = All (λ p. (same p b'<' ≡ false) × (same p zwsp ≡ false)) tag_name

module _ (same : ℕ → ℕ → Bool) (plain : IsPlain same) where
  no_bracket : All (λ p. same p b'<' ≡ false) tag_name
  no_bracket =
      All-map (λ p. (same p b'<' ≡ false) × (same p zwsp ≡ false)) (λ p. same p b'<' ≡ false)
        tag_name (λ p h. h.0) plain

  is_tag-scrub : (text : Text) → is_tag same (scrub same text) ≡ true → is_tag same text ≡ true
  unfolding is_tag
  is_tag-scrub [] h = rw (scrub-nil same) at h
  is_tag-scrub (c ∷ text) h = elim (Bool-cases (c == b'<' && is_tag same text)) [
    | inl tag ↦
        let h' : is_tag same (b'<' ∷ zwsp ∷ scrub same text) ≡ true =
          rw (scrub-tag same c text tag) at h in
        absurd (cc (h', bracket-is_tag (zwsp ∷ scrub same text)))
    | inr other ↦
        let h' : is_tag same (c ∷ scrub same text) ≡ true =
          rw (scrub-other same c text other) at h in
        let same_text = scrub-other same c text other in
        elim (Bool-cases (starts same tag_name (scrub same (c ∷ text)))) [
          | inl open_tag ↦
              let found = starts-scrub same tag_name (c ∷ text) no_bracket open_tag in
              ground (arith, found)
          | inr closed ↦
              let closed' : starts same tag_name (c ∷ scrub same text) ≡ false =
                rw same_text at closed in
              elim (Bool-cases (starts same tag_name (scrub same text))) [
                | inl after_slash ↦
                    let found = starts-scrub same tag_name text no_bracket after_slash in
                    ground (arith, h', found, closed')
                | inr none_there ↦ absurd (ground (arith, h', closed', none_there))
              ]
        ]
  ]
    where
      bracket-is_tag : (text : Text) → is_tag same (b'<' ∷ text) ≡ false
      bracket-is_tag text = rw no_bracket.0

  zwsp-is_tag : (text : Text) → is_tag same (zwsp ∷ text) ≡ false
  unfolding is_tag starts
  zwsp-is_tag text = rw plain.0.1

  -- A body that was scrubbed has no tag of the envelope, opening or closing, in either case, if
  -- the letters of the pattern match neither `<` nor the zero-width space.
  pub has_tag-scrub : (body : Text) → has_tag same (scrub same body) ≡ false
  unfolding has_tag scrub
  has_tag-scrub [] = refl
  has_tag-scrub (c ∷ body) = elim (Bool-cases (c == b'<' && is_tag same body)) [
    | inl tag ↦
        rw (scrub-tag same c body tag)
          (ground (arith, zwsp-is_tag (scrub same body), has_tag-scrub body))
    | inr other ↦
        rw (scrub-other same c body other) (elim (Bool-cases (is_tag same (scrub same body))) [
          | inl again ↦
              let tag = is_tag-scrub body again in ground (arith, other, tag, has_tag-scrub body)
          | inr clean ↦ ground (arith, clean, has_tag-scrub body)
        ])
  ]
