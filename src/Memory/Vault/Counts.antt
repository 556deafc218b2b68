-- ===== src/Memory/Vault/Counts.antt =====
-- How many entries of a table have a key, when the entries with one key are taken out
-- (src/assistant/tools_sdk/_memory_core.py).
use xone_assistant.Prelude.{
  ◌+◌, ◌≡◌, refl, arith, Bool, true, false, not, ◌&&◌, Bool-cases, List, [], ◌∷◌, ◌++◌, inl, inr,
  if◌then◌else◌, Text, text_eq, text_eq_sound, text_eq_refl, keep, length,
}
use xone_assistant.Sql.{row_count}
use xone_assistant.Sql.Update.{row_count-append}

pub length-row_count {ℓ} : {A : Type ℓ} (rows : List A) → length rows ≡ row_count (λ _. true) rows
unfolding row_count
length-row_count [] = refl
length-row_count (x ∷ rows) = omega (arith, length-row_count rows)

pub length-keep {ℓ} :
    {A : Type ℓ} (p : A → Bool) (rows : List A) → length (keep p rows) ≡ row_count p rows
unfolding row_count
length-keep p [] = refl
length-keep p (x ∷ rows) = ground (arith, length-keep p rows)

module _ {ℓ} {A : Type ℓ} (key : A → Text) (counted : A → Bool) where
  abbrev pub has : Text → A → Bool
  has k x = text_eq (key x) k

  abbrev pub has_not : Text → A → Bool
  has_not k x = not (has k x)

  abbrev pub counts : Text → A → Bool
  counts k x = counted x && has k x

  -- What is left, and what was taken out.
  pub row_count-has_not :
      (k : Text) (rows : List A)
      → row_count counted (keep (has_not k) rows) + row_count (counts k) rows
        ≡ row_count counted rows
  unfolding row_count
  row_count-has_not k [] = refl
  row_count-has_not k (x ∷ rows) = ground (arith, row_count-has_not k rows)

  pub row_count-counts-same :
      (k : Text) (rows : List A) → row_count (counts k) (keep (has_not k) rows) ≡ 0
  unfolding row_count
  row_count-counts-same k [] = refl
  row_count-counts-same k (x ∷ rows) = ground (arith, row_count-counts-same k rows)

  pub row_count-counts-other :
      (k k' : Text) (rows : List A)
      → text_eq k k' ≡ false
      → row_count (counts k') (keep (has_not k) rows) ≡ row_count (counts k') rows
  unfolding row_count
  row_count-counts-other k k' [] h = refl
  row_count-counts-other k k' (x ∷ rows) h = elim (Bool-cases (has k x)) [
    | inl e ↦
        let same : key x ≡ k = text_eq_sound (key x) k e in
        let away : has k' x ≡ false = rw same h in
        ground (arith, e, away, row_count-counts-other k k' rows h)
    | inr e ↦ ground (arith, e, row_count-counts-other k k' rows h)
  ]

  pub row_count-removed :
      (k k' : Text) (rows : List A)
      → row_count (counts k') (keep (has_not k) rows)
        ≡ (if text_eq k k' then 0 else row_count (counts k') rows)
  row_count-removed k k' rows = elim (Bool-cases (text_eq k k')) [
    | inl e ↦
        let same : k ≡ k' = text_eq_sound k k' e in
        rw (same, text_eq_refl k') (row_count-counts-same k' rows)
    | inr e ↦ rw e (row_count-counts-other k k' rows e)
  ]

  pub row_count-put :
      (x : A) (k' : Text) (rows : List A)
      → counted x ≡ true
      → row_count (counts k') (keep (has_not (key x)) rows ++ x ∷ [])
        ≡ (if text_eq (key x) k' then 1 else row_count (counts k') rows)
  unfolding row_count
  row_count-put x k' rows h =
      let split = row_count-append (counts k') (keep (has_not (key x)) rows) (x ∷ []) in
      ground (arith, split, row_count-removed (key x) k' rows, h)

  pub row_count-put_all :
      (x : A) (rows : List A)
      → counted x ≡ true
      → row_count counted (keep (has_not (key x)) rows ++ x ∷ []) + row_count (counts (key x)) rows
        ≡ row_count counted rows + 1
  unfolding row_count
  row_count-put_all x rows h =
      let split = row_count-append counted (keep (has_not (key x)) rows) (x ∷ []) in
      ground (arith, split, row_count-has_not (key x) rows, h)
