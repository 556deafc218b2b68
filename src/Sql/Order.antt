-- ===== src/Sql/Order.antt =====
-- ORDER BY returns the rows that it was given, with the least key first.
use xone_assistant.Prelude.{
  ℕ, ◌≤◌, List, [], ◌∷◌, inl, inr, arith, leb, leb→le, Bool-cases, All, All-map,
}
use native.Mathlib.Nat.{le_trans}
use mathlib.Core.List.{Perm}
use mathlib.Core.List.Perm
use xone_assistant.Sql.{insert_by, order_by}

-- Keys never fall along the list.
abbrev pub Ascends {ℓ} : {A : Type ℓ} → (A → ℕ) → List A → Type ℓ
Ascends k [] = Unit
Ascends k (r ∷ rows) = All (λ s. k r ≤ k s) rows × Ascends k rows

module _ {ℓ κ} {A : Type ℓ} (P : A → Type κ) where
  All-insert_by :
      (k : A → ℕ) (x : A) (rows : List A) → P x → All P rows → All P (insert_by k x rows)
  unfolding insert_by
  All-insert_by k x [] h t = (h, t)
  All-insert_by k x (r ∷ rows) h t = elim (Bool-cases (leb (k x) (k r))) [
    | inl e ↦ rw e (h, t)
    | inr e ↦ rw e (t.0, All-insert_by k x rows h t.1)
  ]

  pub All-order_by : (k : A → ℕ) (rows : List A) → All P rows → All P (order_by k rows)
  unfolding order_by
  All-order_by k [] h = tt
  All-order_by k (r ∷ rows) h = All-insert_by k r (order_by k rows) h.0 (All-order_by k rows h.1)

module _ {ℓ κ} {A : Type ℓ} (P : A → Type κ) where
  All-of_insert_by :
      (k : A → ℕ) (x : A) (rows : List A) → All P (insert_by k x rows) → P x × All P rows
  unfolding insert_by
  All-of_insert_by k x [] h = (h.0, tt)
  All-of_insert_by k x (r ∷ rows) h = elim (Bool-cases (leb (k x) (k r))) [
    | inl e ↦ rw e at h
    | inr e ↦ let (a, b) = rw e at h in let (c, d) = All-of_insert_by k x rows b in (c, (a, d))
  ]

  pub All-of_order_by : (k : A → ℕ) (rows : List A) → All P (order_by k rows) → All P rows
  unfolding order_by
  All-of_order_by k [] h = tt
  All-of_order_by k (r ∷ rows) h =
      let (a, b) = All-of_insert_by k r (order_by k rows) h in (a, All-of_order_by k rows b)

module _ {ℓ} {A : Type ℓ} (k : A → ℕ) where
  insert_by-Ascends : (x : A) (rows : List A) → Ascends k rows → Ascends k (insert_by k x rows)
  unfolding insert_by
  insert_by-Ascends x [] h = (tt, tt)
  insert_by-Ascends x (r ∷ rows) h = elim (Bool-cases (leb (k x) (k r))) [
    | inl e ↦
        let x≤r = leb→le (k x) (k r) e in
        rw e ((x≤r, All-map _ _ rows (λ s r≤s. le_trans x≤r r≤s) h.0), h)
    | inr e ↦
        rw e
          (All-insert_by (λ s. k r ≤ k s) k x rows (ground arith) h.0, insert_by-Ascends x rows h.1)
  ]

  pub order_by-Ascends : (rows : List A) → Ascends k (order_by k rows)
  unfolding order_by
  order_by-Ascends [] = tt
  order_by-Ascends (r ∷ rows) = insert_by-Ascends r (order_by k rows) (order_by-Ascends rows)

  insert_by-perm : (x : A) (rows : List A) → Perm (insert_by k x rows) (x ∷ rows)
  unfolding insert_by
  insert_by-perm x [] = Perm.refl _
  insert_by-perm x (r ∷ rows) = elim (Bool-cases (leb (k x) (k r))) [
    | inl e ↦ rw e (Perm.refl _)
    | inr e ↦ rw e (Perm.trans (Perm.cons r (insert_by-perm x rows)) (Perm.swap _ _ _))
  ]

  -- The rows that come back are the rows given.
  pub order_by-perm : (rows : List A) → Perm (order_by k rows) rows
  unfolding order_by
  order_by-perm [] = Perm.refl _
  order_by-perm (r ∷ rows) =
      Perm.trans (insert_by-perm r (order_by k rows)) (Perm.cons r (order_by-perm rows))
