-- ===== src/Patterns/Meets.antt =====
-- The matcher finds a match exactly when there is one.
use xone_assistant.Prelude.{
  ℕ, Bool, true, not, ◌||◌, Option, none, some, [], ◌∷◌, ◌++◌, ◌≡◌, ◌↔◌, refl, ap, arith, Text, All,
  inl, inr, Bool-cases, both_true, either_true,
}
use xone_assistant.Patterns.{
  Charset, Re, eps, one, many, seq, alt, edge, finish, unless, is_edge, is_finish, run_many,
  match_at, anything, re_match, search_from, re_search,
}
use xone_assistant.Patterns.Meaning.{last_of, Matches, MatchesAt, Occurs}

module _ (cs : Charset) where
  -- A match behind which `k` accepts.
  abbrev Accepts : Re → Option ℕ → Text → (Option ℕ → Text → Bool) → Type 0
  Accepts r prev text k =
      (end : Option ℕ) × (rest : Text) × Matches cs r prev text end rest × (k end rest ≡ true)

  run_many_sound :
      (p : ℕ → Bool) (prev : Option ℕ) (text : Text) (k : Option ℕ → Text → Bool)
      → run_many cs p prev text k ≡ true
      → Accepts (many p) prev text k
  unfolding run_many
  run_many_sound p prev [] k h = (prev, [], ([], tt, refl, refl), h)
  run_many_sound p prev (c ∷ text) k h = elim (either_true (k prev (c ∷ text)) _ h) [
    | inl here ↦ (prev, c ∷ text, ([], tt, refl, refl), here)
    | inr more ↦
        let (pc, later) = both_true (p c) _ more in
        let (end, rest, (word, all, e, last), accepted) = run_many_sound p (some c) text k later in
        (end, rest, (c ∷ word, (pc, all), ap (◌∷◌ c) e, last), accepted)
  ]

  run_many_complete :
      (p : ℕ → Bool) (word text : Text) (prev : Option ℕ) (k : Option ℕ → Text → Bool)
      → All (λ c. p c ≡ true) word
      → k (last_of prev word) text ≡ true
      → run_many cs p prev (word ++ text) k ≡ true
  unfolding run_many
  run_many_complete p [] [] prev k all h = h
  run_many_complete p [] (c ∷ text) prev k all h = rw h refl
  run_many_complete p (c ∷ word) text prev k all h =
      rw (all.0, run_many_complete p word text (some c) k all.1 h) (ground arith)

  pub match_at_iff :
      (r : Re) (prev : Option ℕ) (text : Text) (k : Option ℕ → Text → Bool)
      → (match_at cs r prev text k ≡ true) ↔ Accepts r prev text k
  unfolding match_at
  match_at_iff eps prev text k =
      (λ h. (prev, text, (refl, refl), h), λ (end, rest, m, h). cc (m.0, m.1, h))
  match_at_iff (one p) prev [] k = (λ h. absurd (cc (h)), λ (end, rest, m, h). absurd (cc (m.2)))
  match_at_iff (one p) prev (c ∷ text) k = (
    λ h. let (pc, later) = both_true (p c) _ h in (some c, text, (c, pc, refl, refl), later),
    λ (end, rest, (x, px, e, pe), h).
        let pc : p c ≡ true = cc (e, px) in
        let later : k (some c) text ≡ true = cc (e, pe, h) in rw pc later,
  )
  match_at_iff (many p) prev text k = (
    run_many_sound p prev text k,
    λ (end, rest, (word, all, e, last), h).
        let h' : k (last_of prev word) rest ≡ true = rw last at h in
        rw e (run_many_complete p word rest prev k all h'),
  )
  match_at_iff (seq r s) prev text k = (
    λ h.
        let (mid, rest, first, later) = (match_at_iff r prev text _).0 h in
        let (end, rest', second, accepted) = (match_at_iff s mid rest k).0 later in
        (end, rest', (mid, rest, first, second), accepted),
    λ (end, rest, (mid, rest', first, second), h).
        (match_at_iff r prev text _).1
          (mid, rest', first, (match_at_iff s mid rest' k).1 (end, rest, second, h)),
  )
  match_at_iff (alt r s) prev text k = (
    λ h. elim (either_true (match_at cs r prev text k) _ h) [
      | inl left ↦
          let (end, rest, m, accepted) = (match_at_iff r prev text k).0 left in
          (end, rest, inl m, accepted)
      | inr right ↦
          let (end, rest, m, accepted) = (match_at_iff s prev text k).0 right in
          (end, rest, inr m, accepted)
    ],
    λ (end, rest, m, h). elim m [
      | inl left ↦ let found = (match_at_iff r prev text k).1 (end, rest, left, h) in rw found refl
      | inr right ↦
          let found = (match_at_iff s prev text k).1 (end, rest, right, h) in
          rw found (ground arith)
    ],
  )
  match_at_iff edge prev text k = (
    λ h.
        let (e, later) = both_true (is_edge cs prev text) _ h in
        (prev, text, (e, refl, refl), later),
    λ (end, rest, (e, pe, te), h). let later : k prev text ≡ true = cc (pe, te, h) in rw e later,
  )
  match_at_iff finish prev text k = (
    λ h. let (e, later) = both_true (is_finish text) _ h in (prev, text, (e, refl, refl), later),
    λ (end, rest, (e, pe, te), h). let later : k prev text ≡ true = cc (pe, te, h) in rw e later,
  )
  match_at_iff (unless r) prev text k =
      let inner = match_at_iff r prev text anything in
      (
        λ h.
            let (absent, later) = both_true (not (match_at cs r prev text anything)) _ h in
            (
              prev,
              text,
              (
                λ (end, rest, m).
                    let found = inner.1 (end, rest, m, refl) in
                    absurd (ground (arith, found, absent)),
                refl,
                refl,
              ),
              later,
            ),
        λ (end, rest, (none_there, pe, te), h).
            let later : k prev text ≡ true = cc (pe, te, h) in
            elim (Bool-cases (match_at cs r prev text anything)) [
              | inl found ↦
                  let (e, rest', m, t) = inner.0 found in absurd (none_there (e, rest', m))
              | inr absent ↦ rw absent later
            ],
      )

  -- `re_match` finds a match exactly when the pattern matches the beginning of the text.
  pub re_match_iff : (r : Re) (text : Text) → (re_match cs r text ≡ true) ↔ MatchesAt cs r none text
  unfolding re_match
  re_match_iff r text =
      let at = match_at_iff r none text anything in
      (
        λ h. let (end, rest, m, t) = at.0 h in (end, rest, m),
        λ (end, rest, m). at.1 (end, rest, m, refl),
      )

  -- A match somewhere behind a position.
  abbrev OccursFrom : Re → Option ℕ → Text → Type 0
  OccursFrom r prev text =
      (front : Text) × (back : Text) × (text ≡ front ++ back)
      × MatchesAt cs r (last_of prev front) back

  search_from_iff :
      (r : Re) (prev : Option ℕ) (text : Text)
      → (search_from cs r prev text ≡ true) ↔ OccursFrom r prev text
  unfolding search_from
  search_from_iff r prev [] =
      let at = match_at_iff r prev [] anything in
      (
        λ h. let (end, rest, m, t) = at.0 h in ([], [], refl, (end, rest, m)),
        λ (front, back, e, m). at_end front back e m,
      )
    where
      at_end :
          (front back : Text)
          → [] ≡ front ++ back
          → MatchesAt cs r (last_of prev front) back
          → match_at cs r prev [] anything ≡ true
      at_end [] back e (end, rest, m) =
          (match_at_iff r prev [] anything).1 (end, rest, rw (← e) at m, refl)
      at_end (x ∷ front) back e m = absurd (cc (e))
  search_from_iff r prev (c ∷ text) = (
    λ h. elim (either_true (match_at cs r prev (c ∷ text) anything) _ h) [
      | inl here ↦
          let (end, rest, m, t) = (match_at_iff r prev (c ∷ text) anything).0 here in
          ([], c ∷ text, refl, (end, rest, m))
      | inr later ↦
          let (front, back, e, m) = (search_from_iff r (some c) text).0 later in
          (c ∷ front, back, ap (◌∷◌ c) e, m)
    ],
    λ (front, back, e, m). found (search_from_iff r (some c) text).1 front back e m,
  )
    where
      found :
          (OccursFrom r (some c) text → search_from cs r (some c) text ≡ true)
          → (front back : Text) → c ∷ text ≡ front ++ back
          → MatchesAt cs r (last_of prev front) back
          → (match_at cs r prev (c ∷ text) anything || search_from cs r (some c) text) ≡ true
      found again [] back e (end, rest, m) =
          rw ((match_at_iff r prev (c ∷ text) anything).1 (end, rest, rw (← e) at m, refl)) refl
      found again (x ∷ front) back e m =
          let c≡x : c ≡ x = cc (e) in
          let tail : text ≡ front ++ back = cc (e) in
          rw (again (front, back, tail, rw (← c≡x) at m)) (ground arith)

  -- `re_search` finds a match exactly when the pattern matches somewhere in the text.
  pub re_search_iff : (r : Re) (text : Text) → (re_search cs r text ≡ true) ↔ Occurs cs r text
  unfolding re_search
  re_search_iff r text = search_from_iff r none text
