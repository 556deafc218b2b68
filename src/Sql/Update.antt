-- ===== src/Sql/Update.antt =====
-- What an UPDATE keeps, row by row, and what it counts.
use xone_assistant.Prelude.{
  ◌+◌, ◌≤◌, ◌<◌, List, [], ◌∷◌, ◌++◌, Bool, true, false, inl, inr, ◌≡◌, refl, ap, arith, All-Unit,
  Bool-cases, if◌then◌else◌, All, none, some, keep,
}
use mathlib.Core.Path.{subst}
use xone_assistant.Sql.{update_where, row_count, fetch_one}

module _ {ℓ κ μ} {A : Type ℓ} (P : A → Type κ) (Q : A → Type μ) where
  pub All-update_where :
      (p : A → Bool) (f : A → A) (rows : List A)
      → ((r : A) → P r → p r ≡ true → Q (f r))
      → ((r : A) → P r → p r ≡ false → Q r)
      → All P rows
      → All Q (update_where p f rows)
  unfolding update_where
  All-update_where p f [] hit miss h = tt
  All-update_where p f (r ∷ rows) hit miss h = elim (Bool-cases (p r)) [
    | inl e ↦ rw e (hit r h.0 e, All-update_where p f rows hit miss h.1)
    | inr e ↦ rw e (miss r h.0 e, All-update_where p f rows hit miss h.1)
  ]

module _ {ℓ κ} {A : Type ℓ} (P : A → Type κ) where
  -- What a fetched row inherits from its table.
  pub fetch_one_sound :
      (p : A → Bool) (rows : List A) (r : A)
      → All P rows
      → fetch_one p rows ≡ some r
      → P r × (p r ≡ true)
  unfolding fetch_one
  fetch_one_sound p [] r h e = cc
  fetch_one_sound p (x ∷ rows) r h e = elim (Bool-cases (p x)) [
    | inl t ↦
        let same : some x ≡ some r = rw t at e in
        let x≡r : x ≡ r = cc in (subst P x≡r h.0, subst (λ y. p y ≡ true) x≡r t)
    | inr t ↦ fetch_one_sound p rows r h.1 (rw t at e)
  ]

module _ {ℓ} {A : Type ℓ} where
  pub fetch_one-cons :
      (p : A → Bool) (x : A) (rows : List A)
      → fetch_one p (x ∷ rows) ≡ (if p x then some x else fetch_one p rows)
  unfolding fetch_one
  fetch_one-cons p x rows = elim (Bool-cases (p x)) [ inl t ↦ rw t | inr t ↦ rw t ]

  pub fetch_one-nil : (p : A → Bool) → fetch_one p [] ≡ none
  unfolding fetch_one
  fetch_one-nil p = refl

  pub fetch_one_hit :
      (p : A → Bool) (rows : List A) (r : A) → fetch_one p rows ≡ some r → p r ≡ true
  fetch_one_hit p rows r e = (fetch_one_sound (λ (_ : A). Unit {0}) p rows r (All-Unit rows) e).1

  pub fetch_one-none :
      (p : A → Bool) (rows : List A) → row_count p rows ≡ 0 → fetch_one p rows ≡ none
  unfolding fetch_one row_count
  fetch_one-none p [] h = refl
  fetch_one-none p (x ∷ rows) h = elim (Bool-cases (p x)) [
    | inl t ↦ absurd (omega (arith, rw t at h))
    | inr t ↦ rw t (fetch_one-none p rows (omega (arith, rw t at h)))
  ]

  -- An UPDATE that touches no row, and one that keeps what a test sees.
  pub update_where-eq_of_none :
      (p : A → Bool) (f : A → A) (rows : List A)
      → row_count p rows ≡ 0
      → update_where p f rows ≡ rows
  unfolding update_where row_count
  update_where-eq_of_none p f [] h = refl
  update_where-eq_of_none p f (x ∷ rows) h = elim (Bool-cases (p x)) [
    | inl t ↦ absurd (omega (arith, rw t at h))
    | inr t ↦ rw t (ap (◌∷◌ x) (update_where-eq_of_none p f rows (omega (arith, rw t at h))))
  ]

  pub row_count-update_where :
      (q p : A → Bool) (f : A → A) (rows : List A)
      → ((r : A) → p r ≡ true → q (f r) ≡ q r)
      → row_count q (update_where p f rows) ≡ row_count q rows
  unfolding update_where row_count
  row_count-update_where q p f [] h = refl
  row_count-update_where q p f (x ∷ rows) h = elim (Bool-cases (p x)) [
    | inl t ↦
        rw (t, h x t) (ap (λ n. (if q x then 1 else 0) + n) (row_count-update_where q p f rows h))
    | inr t ↦ rw t (ap (λ n. (if q x then 1 else 0) + n) (row_count-update_where q p f rows h))
  ]

  pub row_count-append :
      (q : A → Bool) (xs ys : List A) → row_count q (xs ++ ys) ≡ row_count q xs + row_count q ys
  unfolding row_count
  row_count-append q [] ys = omega arith
  row_count-append q (x ∷ xs) ys = omega (arith, row_count-append q xs ys)

  pub row_count-eq_zero :
      (q : A → Bool) (rows : List A) → All (λ r. q r ≡ false) rows → row_count q rows ≡ 0
  unfolding row_count
  row_count-eq_zero q [] h = refl
  row_count-eq_zero q (x ∷ rows) h = rw h.0 (omega (arith, row_count-eq_zero q rows h.1))

  -- Without a word on what is written, an UPDATE adds at most the rows that it touches.
  pub row_count-update_where-le :
      (q p : A → Bool) (f : A → A) (rows : List A)
      → row_count q (update_where p f rows) ≤ row_count q rows + row_count p rows
  unfolding update_where row_count
  row_count-update_where-le q p f [] = omega arith
  row_count-update_where-le q p f (x ∷ rows) = ground (arith, row_count-update_where-le q p f rows)

  touched-key :
      (k p : A → Bool) (f : A → A)
      → ((x : A) → k (f x) ≡ k x)
      → (x : A) → k (if p x then f x else x) ≡ k x
  touched-key k p f same x = elim (Bool-cases (p x)) [ inl t ↦ rw t (same x) | inr t ↦ rw t ]

  -- A row that is fetched by what the UPDATE keeps is the same row, after the UPDATE.
  pub fetch_one-update_where :
      (k p : A → Bool) (f : A → A) (rows : List A) (r : A)
      → ((x : A) → k (f x) ≡ k x)
      → fetch_one k rows ≡ some r
      → fetch_one k (update_where p f rows) ≡ some (if p r then f r else r)
  unfolding update_where
  fetch_one-update_where k p f [] r same e = cc (fetch_one-nil k)
  fetch_one-update_where k p f (x ∷ rows) r same e =
      let after = fetch_one-cons k (if p x then f x else x) (update_where p f rows) in
      let key = touched-key k p f same x in
      elim (Bool-cases (k x)) [
        | inl t ↦
            let at : some x ≡ some r = rw (fetch_one-cons k x rows, t) at e in
            let x≡r : x ≡ r = cc in
            rw (after, key, t) (ap (λ (y : A). some (if p y then f y else y)) x≡r)
        | inr t ↦
            rw (after, key, t)
              (fetch_one-update_where k p f rows r same (rw (fetch_one-cons k x rows, t) at e))
      ]

  -- Counts from below: a row that passes is counted, and an UPDATE may make rows pass.
  pub row_count_pos :
      (k p : A → Bool) (rows : List A) (r : A)
      → fetch_one k rows ≡ some r
      → p r ≡ true
      → 0 < row_count p rows
  unfolding row_count
  row_count_pos k p [] r e t = absurd (cc (fetch_one-nil k))
  row_count_pos k p (x ∷ rows) r e t = elim (Bool-cases (k x)) [
    | inl hit ↦
        let at : some x ≡ some r = rw (fetch_one-cons k x rows, hit) at e in
        let x≡r : x ≡ r = cc in ground (arith, x≡r, t)
    | inr miss ↦ omega (arith, row_count_pos k p rows r (rw (fetch_one-cons k x rows, miss) at e) t)
  ]

  pub row_count-update_where-ge :
      (q p : A → Bool) (f : A → A) (rows : List A)
      → ((r : A) → p r ≡ true → q (f r) ≡ true)
      → row_count p rows ≤ row_count q (update_where p f rows)
  unfolding update_where row_count
  row_count-update_where-ge q p f [] h = omega arith
  row_count-update_where-ge q p f (x ∷ rows) h = elim (Bool-cases (p x)) [
    | inl t ↦ rw (t, h x t) (omega (arith, row_count-update_where-ge q p f rows h))
    | inr t ↦ rw t (omega (arith, row_count-update_where-ge q p f rows h))
  ]

  -- Rows that are kept by one test, counted by another.
  pub row_count-keep-le :
      (q p : A → Bool) (rows : List A) → row_count q (keep p rows) ≤ row_count q rows
  unfolding row_count
  row_count-keep-le q p [] = omega arith
  row_count-keep-le q p (x ∷ rows) = elim (Bool-cases (p x)) [
    | inl t ↦ rw t (omega (arith, row_count-keep-le q p rows))
    | inr t ↦ rw t (omega (arith, row_count-keep-le q p rows))
  ]

  pub row_count-keep-none :
      (q p : A → Bool) (rows : List A)
      → ((r : A) → p r ≡ true → q r ≡ false)
      → row_count q (keep p rows) ≡ 0
  unfolding row_count
  row_count-keep-none q p [] h = refl
  row_count-keep-none q p (x ∷ rows) h = elim (Bool-cases (p x)) [
    | inl t ↦ rw (t, h x t) (omega (arith, row_count-keep-none q p rows h))
    | inr t ↦ rw t (row_count-keep-none q p rows h)
  ]

  -- A row that a SELECT by key finds, among those that pass another test.
  pub fetch_one-keep :
      (k p : A → Bool) (rows : List A) (r : A)
      → fetch_one k rows ≡ some r
      → p r ≡ true
      → fetch_one k (keep p rows) ≡ some r
  fetch_one-keep k p [] r e t = absurd (cc (fetch_one-nil k))
  fetch_one-keep k p (x ∷ rows) r e t = elim (Bool-cases (k x)) [
    | inl hit ↦
        let at : some x ≡ some r = rw (fetch_one-cons k x rows, hit) at e in
        let x≡r : x ≡ r = cc in
        let t' : p x ≡ true = rw x≡r t in rw (t', fetch_one-cons k x (keep p rows), hit) at
    | inr miss ↦
        let later : fetch_one k rows ≡ some r = rw (fetch_one-cons k x rows, miss) at e in
        elim (Bool-cases (p x)) [
          | inl kept ↦
              rw (kept, fetch_one-cons k x (keep p rows), miss) (fetch_one-keep k p rows r later t)
          | inr gone ↦ rw gone (fetch_one-keep k p rows r later t)
        ]
  ]
