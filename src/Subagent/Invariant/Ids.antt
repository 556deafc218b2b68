-- ===== src/Subagent/Invariant/Ids.antt =====
-- The ids of the table rise, and no statement of src/assistant/subagent/store.py changes one.
use xone_assistant.Prelude.{ℕ, ◌+◌, Bool, inl, inr, List, [], ◌∷◌, ◌++◌, ◌≡◌, arith, Bool-cases}
use xone_assistant.Sql.{update_where}
use xone_assistant.Subagent.Job.{SubagentJob}
use xone_assistant.Subagent.Invariant.{Rising}

pub Rising-update_where :
    (p : SubagentJob → Bool) (f : SubagentJob → SubagentJob) (low high : ℕ)
    (rows : List SubagentJob)
    → ((r : SubagentJob) → (f r).id ≡ r.id)
    → Rising low rows high
    → Rising low (update_where p f rows) high
unfolding update_where
Rising-update_where p f low high [] same h = h
Rising-update_where p f low high (r ∷ rows) same h = elim (Bool-cases (p r)) [
  | inl e ↦ rw (e, same r) (h.0, Rising-update_where p f r.id high rows same h.1)
  | inr e ↦ rw e (h.0, Rising-update_where p f r.id high rows same h.1)
]

pub Rising-append :
    (low high : ℕ) (rows : List SubagentJob) (r : SubagentJob)
    → r.id ≡ high + 1
    → Rising low rows high
    → Rising low (rows ++ r ∷ []) (high + 1)
Rising-append low high [] r e h = (omega arith, omega arith)
Rising-append low high (s ∷ rows) r e h = (h.0, Rising-append s.id high rows r e h.1)
