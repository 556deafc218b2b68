-- ===== src/Subagent/Machine/Forever.antt =====
-- What a history of calls of src/assistant/subagent/store.py can do to one job.
use xone_assistant.Prelude.{
  ℕ, true, false, some, List, [], ◌∷◌, ◌≡◌, refl, ◌⊎◌, inl, inr, Bool-cases, ◌==◌, ◌≤◌,
}
use native.Mathlib.Nat.{le_refl, le_trans}
use mathlib.Core.Path.{subst, ap}
use xone_assistant.Sql.{fetch_one}
use xone_assistant.Subagent.Job.{Status, SubagentJob, is_terminal}
use xone_assistant.Subagent.Ledger.{Ledger}
use xone_assistant.Subagent.Store.Cancel.{has_id}
use xone_assistant.Subagent.Store.Queries.{get_by_id}
use xone_assistant.Subagent.Operations.{Operation, apply, run}
use xone_assistant.Subagent.Invariant.{IsValid}
use xone_assistant.Subagent.Invariant.Preserved.{apply-IsValid}
use xone_assistant.Subagent.Machine.{
  ◌⟶◌, claimed, cancelled, gave_up, expired, ended, Progress, Evolves,
}
use xone_assistant.Subagent.Machine.Table.{apply-Evolves}

fetch_one-Evolves :
    (job_id : ℕ) (rows rows' : List SubagentJob) (r : SubagentJob)
    → Evolves rows rows'
    → fetch_one (has_id job_id) rows ≡ some r
    → (r' : SubagentJob) × (fetch_one (has_id job_id) rows' ≡ some r') × Progress r r'
unfolding fetch_one
fetch_one-Evolves job_id [] rows' r h e = cc
fetch_one-Evolves job_id (x ∷ rows) [] r h e = absurd h
fetch_one-Evolves job_id (x ∷ rows) (y ∷ rows') r h e = elim (Bool-cases (x.id == job_id)) [
  | inl same ↦
      let at : some x ≡ some r = rw same at e in
      let x≡r : x ≡ r = cc in (y, rw (h.0.same_id, same), rw (← x≡r) h.0)
  | inr other ↦
      let (r', e', p) = fetch_one-Evolves job_id rows rows' r h.1 (rw other at e) in
      (r', rw (h.0.same_id, other) e', p)
]

-- After any call on a valid table, a job that was there is still there under its id, and has
-- moved one step of the status machine at most.
pub get_by_id-apply :
    (now : ℕ) (op : Operation) (led : Ledger) (job_id : ℕ) (r : SubagentJob)
    → IsValid led
    → get_by_id job_id led ≡ some r
    → (r' : SubagentJob) × (get_by_id job_id (apply now op led) ≡ some r') × Progress r r'
unfolding get_by_id
get_by_id-apply now op led job_id r v e =
    fetch_one-Evolves job_id led.rows (apply now op led).rows r (apply-Evolves now op led v) e

⟶-live : {s t : Status} → s ⟶ t → is_terminal s ≡ false
⟶-live claimed = refl
⟶-live cancelled = refl
⟶-live gave_up = refl
⟶-live expired = refl
⟶-live (ended _) = refl

stays : (r r' : SubagentJob) → Progress r r' → is_terminal r.status ≡ true → r' ≡ r
stays r r' p t = elim p.moves [
  | inl same ↦ same
  | inr (inl (live, _)) ↦ cc
  | inr (inr step) ↦ cc (⟶-live step)
]

-- A job in a terminal status is never changed again: whatever calls follow, its row reads as it
-- read when it ended, in every column.
pub get_by_id-run_terminal :
    (history : List (ℕ × Operation)) (led : Ledger) (job_id : ℕ) (r : SubagentJob)
    → IsValid led
    → is_terminal r.status ≡ true
    → get_by_id job_id led ≡ some r
    → get_by_id job_id (run history led) ≡ some r
unfolding run
get_by_id-run_terminal [] led job_id r v t e = e
get_by_id-run_terminal ((now, op) ∷ rest) led job_id r v t e =
    let (r', e', p) = get_by_id-apply now op led job_id r v e in
    get_by_id-run_terminal rest (apply now op led) job_id r (apply-IsValid now op led v) t
      (rw (stays r r' p t) at e')

infix 40 ◌⟶*◌
pub data ◌⟶*◌ : Status → Status → Type 0 where
  here : {s : Status} → s ⟶* s
  then : {s t u : Status} → s ⟶ t → t ⟶* u → s ⟶* u

-- What a history may do to a row, where one call does `Progress`.
pub record Outcome (r r' : SubagentJob) : Type 0 where
  pub path : r.status ⟶* r'.status
  pub attempts_grow : r.attempts ≤ r'.attempts
  pub cancel_kept : r.cancel_requested ≡ true → r'.cancel_requested ≡ true

path-cons : {s t u : Status} → (t ≡ s) ⊎ (s ⟶ t) → t ⟶* u → s ⟶* u
path-cons {u = u} (inl same) rest = subst (λ x. x ⟶* u) same rest
path-cons (inr step) rest = then step rest

status_step : (r r' : SubagentJob) → Progress r r' → (r'.status ≡ r.status) ⊎ (r.status ⟶ r'.status)
status_step r r' p = elim p.moves [
  | inl same ↦ inl (ap (λ (s : SubagentJob). s.status) same)
  | inr (inl (_, same)) ↦ inl same
  | inr (inr step) ↦ inr step
]

-- Through any sequence of calls on a valid table a job is never lost, its status follows the
-- machine, its dispatch attempts never fall, and a cancel request is never taken back.
pub get_by_id-run :
    (history : List (ℕ × Operation)) (led : Ledger) (job_id : ℕ) (r : SubagentJob)
    → IsValid led
    → get_by_id job_id led ≡ some r
    → (r' : SubagentJob) × (get_by_id job_id (run history led) ≡ some r') × Outcome r r'
unfolding run
get_by_id-run [] led job_id r v e =
    (r, e, record { path = here; attempts_grow = le_refl _; cancel_kept = λ h. h })
get_by_id-run ((now, op) ∷ rest) led job_id r v e =
    let (r', e', p) = get_by_id-apply now op led job_id r v e in
    let (r'', e'', o) =
      get_by_id-run rest (apply now op led) job_id r' (apply-IsValid now op led v) e' in
    (
      r'',
      e'',
      record {
        path = path-cons (status_step r r' p) o.path;
        attempts_grow = le_trans p.attempts_grow o.attempts_grow;
        cancel_kept = λ h. o.cancel_kept (p.cancel_kept h);
      },
    )
