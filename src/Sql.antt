-- ===== src/Sql.antt =====
-- The SQL statements that the stores issue, over a table as the list of its rows in rowid order.
-- A statement's WHERE clause is a Boolean test on a row, its SET clause a function on rows.
pub mod Update
pub mod Order
use xone_assistant.Prelude.{
  ℕ, zero, suc, ◌+◌, List, [], ◌∷◌, Bool, if◌then◌else◌, ltb, leb, keep, head?, take, Option,
}

module _ {ℓ} {A : Type ℓ} where
  -- UPDATE t SET f WHERE p
  unfoldable pub update_where : (A → Bool) → (A → A) → List A → List A
  update_where p f [] = []
  update_where p f (r ∷ rows) = (if p r then f r else r) ∷ update_where p f rows

  -- SELECT COUNT(*) FROM t WHERE p, also the rowcount of an UPDATE
  unfoldable pub row_count : (A → Bool) → List A → ℕ
  row_count p [] = 0
  row_count p (r ∷ rows) = (if p r then 1 else 0) + row_count p rows

  -- the first row of SELECT * FROM t WHERE p
  unfoldable pub fetch_one : (A → Bool) → List A → Option A
  fetch_one p rows = head? (keep p rows)

  -- One step of ORDER BY k: rows with equal keys stay in rowid order.
  insert_by : (A → ℕ) → A → List A → List A
  insert_by k x [] = x ∷ []
  insert_by k x (r ∷ rows) =
      let rest = insert_by k x rows in if leb (k x) (k r) then x ∷ r ∷ rows else r ∷ rest

  -- ORDER BY k ASC
  unfoldable pub order_by : (A → ℕ) → List A → List A
  unfolding insert_by
  order_by k [] = []
  order_by k (r ∷ rows) = insert_by k r (order_by k rows)

-- julianday('now') - julianday(at) > seconds/86400.0, on timestamps in seconds
abbrev pub older_than : ℕ → ℕ → ℕ → Bool
older_than seconds now at = ltb (at + seconds) now
