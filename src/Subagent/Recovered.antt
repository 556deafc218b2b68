-- ===== src/Subagent/Recovered.antt =====
-- What the ledger looks like after the recovery at boot (src/assistant/subagent/store.py).
use xone_assistant.Prelude.{ℕ, true, false, ◌≡◌, refl, All-map, arith, List, [], ◌∷◌, All}
use xone_assistant.Sql.{update_where, row_count, older_than}
use xone_assistant.Sql.Update.{row_count-eq_zero, update_where-eq_of_none}
use xone_assistant.Subagent.Job.{SubagentJob, is_requested, is_started, dropped, interrupted}
use xone_assistant.Subagent.Ledger.{Ledger}
use xone_assistant.Subagent.Store.Recovery.{
  recover_orphans, total, never_delivered, was_running, is_stale, close_as,
}
use xone_assistant.Subagent.Invariant.{IsSound, IsValid}

never_delivered-of_IsSound : (r : SubagentJob) → IsSound r → never_delivered r ≡ false
never_delivered-of_IsSound r h = ground (arith, h.started_bound)

-- On a valid table the first branch of `recover_orphans` drops no row.
pub recover_orphans-dropped_no_sdk :
    (now stale_after : ℕ) (led : Ledger)
    → IsValid led
    → (recover_orphans now stale_after led).0.dropped_no_sdk ≡ 0
unfolding recover_orphans
recover_orphans-dropped_no_sdk now stale_after led v =
    row_count-eq_zero never_delivered led.rows
      (All-map IsSound _ led.rows never_delivered-of_IsSound v.sound)

-- What is left open after the recovery.
abbrev pub Settled : ℕ → ℕ → SubagentJob → Type 0
Settled now stale_after r =
    (is_started r.status ≡ false)
    × (is_requested r.status ≡ true → older_than stale_after now r.created_at ≡ false)

settle :
    (now stale_after : ℕ) (rows : List SubagentJob)
    → All IsSound rows
    → All (Settled now stale_after) (
        update_where (is_stale stale_after now) (close_as dropped now) (
          update_where was_running
            (close_as interrupted now)
            (update_where never_delivered (close_as dropped now) rows)))
unfolding update_where
settle now stale_after [] h = tt
settle now stale_after (r ∷ rows) h = (
  (ground (arith, h.0.finished_exactly), ground (arith, h.0.finished_exactly)),
  settle now stale_after rows h.1,
)

-- After the recovery of a valid table no job is started, and every job that is still requested is
-- younger than the limit or as old as it.
pub recover_orphans-Settled :
    (now stale_after : ℕ) (led : Ledger)
    → IsValid led
    → All (Settled now stale_after) (recover_orphans now stale_after led).1.rows
unfolding recover_orphans
recover_orphans-Settled now stale_after led v = settle now stale_after led.rows v.sound

counts_zero :
    (now stale_after : ℕ) (rows : List SubagentJob)
    → All (Settled now stale_after) rows
    → (row_count never_delivered rows ≡ 0)
      × (row_count was_running rows ≡ 0)
      × (row_count (is_stale stale_after now) rows ≡ 0)
unfolding row_count
counts_zero now stale_after [] h = (refl, refl, refl)
counts_zero now stale_after (r ∷ rows) h =
    ground (arith, h.0.0, h.0.1, counts_zero now stale_after rows h.1)

recover_orphans_quiet :
    (now stale_after : ℕ) (led : Ledger)
    → All (Settled now stale_after) led.rows
    → (total (recover_orphans now stale_after led).0 ≡ 0)
      × ((recover_orphans now stale_after led).1 ≡ led)
unfolding recover_orphans total
recover_orphans_quiet now stale_after led h =
    let (c₀, c₁, c₂) = counts_zero now stale_after led.rows h in
    let u₀ = update_where-eq_of_none never_delivered (close_as dropped now) led.rows c₀ in
    let u₁ = update_where-eq_of_none was_running (close_as interrupted now) led.rows c₁ in
    let u₂ =
      update_where-eq_of_none (is_stale stale_after now) (close_as dropped now) led.rows c₂ in
    (simp (u₀, u₁, c₀, c₁, c₂), simp (u₀, u₁, u₂))

-- Running the recovery again at the same time finds nothing and changes nothing.
pub recover_orphans_idem :
    (now stale_after : ℕ) (led : Ledger)
    → IsValid led
    → let led' = (recover_orphans now stale_after led).1 in
      (total (recover_orphans now stale_after led').0 ≡ 0)
      × ((recover_orphans now stale_after led').1 ≡ led')
recover_orphans_idem now stale_after led v =
    recover_orphans_quiet now stale_after _ (recover_orphans-Settled now stale_after led v)
