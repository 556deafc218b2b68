-- ===== src/Subagent/Pending.antt =====
-- The order in which requests are picked up (src/assistant/subagent/store.py).
use xone_assistant.Prelude.{
  ℕ, ◌≤◌, Bool, true, false, List, [], ◌∷◌, ◌≡◌, arith, inl, inr, All, All-keep, keep, take,
  Bool-cases,
}
use xone_assistant.Sql.{order_by}
use xone_assistant.Sql.Order.{Ascends, order_by-Ascends, All-order_by}
use xone_assistant.Subagent.Job.{SubagentJob}
use xone_assistant.Subagent.Ledger.{Ledger}
use xone_assistant.Subagent.Store.Queries.{list_pending_requests, is_pending_request}
use xone_assistant.Subagent.Invariant.{IsSound, IsValid}
use xone_assistant.Sql.Order.{All-of_order_by}

keep-passes :
    (p : SubagentJob → Bool) (rows : List SubagentJob) → All (λ r. p r ≡ true) (keep p rows)
keep-passes p [] = tt
keep-passes p (r ∷ rows) = elim (Bool-cases (p r)) [
  | inl e ↦ rw e (e, keep-passes p rows)
  | inr e ↦ rw e (keep-passes p rows)
]

All-of_keep :
    (p : SubagentJob → Bool) (P : SubagentJob → Type 0) (rows : List SubagentJob)
    → All P (keep p rows)
    → All (λ r. p r ≡ true → P r) rows
All-of_keep p P [] h = tt
All-of_keep p P (r ∷ rows) h = elim (Bool-cases (p r)) [
  | inl e ↦ let (a, b) = (rw e at h) in ((λ _. a), All-of_keep p P rows b)
  | inr e ↦ ((λ t. absurd (cc)), All-of_keep p P rows (rw e at h))
]

Ascends-head :
    (k : SubagentJob → ℕ) (r : SubagentJob) (rows : List SubagentJob)
    → Ascends k (r ∷ rows)
    → All (λ s. k r ≤ k s) (r ∷ rows)
Ascends-head k r rows h = (omega arith, h.0)

take_one :
    (xs : List SubagentJob) (r : SubagentJob) (rest : List SubagentJob)
    → take 1 xs ≡ r ∷ rest
    → (later : List SubagentJob) × (xs ≡ r ∷ later)
take_one [] r rest e = absurd (ground arith)
take_one (x ∷ xs) r rest e = (xs, cc)

-- The job that the picker takes is a request that no agent runs and that nobody cancelled, and no
-- such request in the table was made before it.
pub list_pending_requests-oldest :
    (led : Ledger) (r : SubagentJob) (rest : List SubagentJob)
    → IsValid led
    → list_pending_requests 1 led ≡ r ∷ rest
    → (is_pending_request r ≡ true)
      × (r.cancel_requested ≡ false)
      × All (λ s. is_pending_request s ≡ true → r.created_at ≤ s.created_at) led.rows
unfolding list_pending_requests
list_pending_requests-oldest led r rest v e =
    let k = λ (s : SubagentJob). s.created_at in
    let (later, whole) = take_one (order_by k (keep is_pending_request led.rows)) r rest e in
    let front = λ (P : SubagentJob → Type 0) (h : All P (keep is_pending_request led.rows)).
      let all : All P (r ∷ later) =
        rw whole at (All-order_by P k (keep is_pending_request led.rows) h) in
      all.0 in
    let pending =
      front (λ s. is_pending_request s ≡ true) (keep-passes is_pending_request led.rows) in
    let sound = front IsSound (All-keep IsSound is_pending_request led.rows v.sound) in
    let least =
      Ascends-head k r later
        (rw whole at (order_by-Ascends k (keep is_pending_request led.rows))) in
    (
      pending,
      ground (arith, sound.requested_kept),
      All-of_keep is_pending_request (λ s. r.created_at ≤ s.created_at) led.rows
          (All-of_order_by (λ s. r.created_at ≤ s.created_at) k (keep is_pending_request led.rows)
            (rw whole least)),
    )
