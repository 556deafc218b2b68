-- ===== src/Subagent/Throttle.antt =====
-- `_throttle` of src/assistant/subagent/hooks.py, in whole milliseconds of the monotonic clock.
-- The dict in order of last use is a list with the newest entry last.
use xone_assistant.Prelude.{
  ℕ, ◌+◌, ◌-◌, ◌≤◌, ◌<◌, false, List, [], ◌∷◌, ◌++◌, ◌≡◌, arith, inl, inr, ltb, ◌==◌, if◌then◌else◌,
  length, All, Bool-cases,
}

-- _THROTTLE_MAX
abbrev pub throttle_max : ℕ
throttle_max = 64

abbrev pub Sent : Type 0
Sent = List (ℕ × ℕ)

-- last_notify_at.get(chat_id, 0.0)
unfoldable pub last_sent : ℕ → Sent → ℕ
last_sent chat [] = 0
last_sent chat ((c, t) ∷ rest) = if c == chat then t else last_sent chat rest

forget : ℕ → Sent → Sent
forget chat [] = []
forget chat ((c, t) ∷ rest) =
    let rest' = forget chat rest in if c == chat then rest' else (c, t) ∷ rest'

-- while len(d) > bound: d.popitem(last=False)
pop_oldest : ℕ → Sent → Sent
pop_oldest bound [] = []
pop_oldest bound (e ∷ rest) =
    let shorter = pop_oldest bound rest in
    if ltb bound (length (e ∷ rest)) then shorter else e ∷ rest

-- How long the caller sleeps at the time `now`.
unfoldable pub wait_ms : ℕ → ℕ → ℕ → Sent → ℕ
unfolding last_sent
wait_ms chat interval now sent =
    let delta = now - last_sent chat sent in if ltb delta interval then interval - delta else 0

-- What is remembered when the caller goes on at the time `awake`.
unfoldable pub throttle : ℕ → ℕ → Sent → Sent
unfolding forget pop_oldest
throttle chat awake sent = pop_oldest throttle_max (forget chat sent ++ (chat, awake) ∷ [])

le→ltb_false : (a b : ℕ) → b ≤ a → ltb a b ≡ false
le→ltb_false a b h = ground arith

abbrev Without : ℕ → Sent → Type 0
Without chat = All (λ (e : ℕ × ℕ). (e.0 == chat) ≡ false)

forget-Without : (chat : ℕ) (sent : Sent) → Without chat (forget chat sent)
unfolding forget
forget-Without chat [] = tt
forget-Without chat ((c, t) ∷ rest) = elim (Bool-cases (c == chat)) [
  | inl same ↦ rw same (forget-Without chat rest)
  | inr other ↦ rw other (other, forget-Without chat rest)
]

last_sent-append :
    (chat t : ℕ) (before : Sent)
    → Without chat before
    → last_sent chat (before ++ (chat, t) ∷ []) ≡ t
unfolding last_sent
last_sent-append chat t [] h = ground arith
last_sent-append chat t ((c, u) ∷ before) h = rw h.0 (last_sent-append chat t before h.1)

last_sent-pop_oldest :
    (bound chat t : ℕ) (before : Sent)
    → 0 < bound
    → Without chat before
    → last_sent chat (pop_oldest bound (before ++ (chat, t) ∷ [])) ≡ t
unfolding pop_oldest
last_sent-pop_oldest bound chat t [] h w =
    rw (le→ltb_false bound 1 h) (last_sent-append chat t [] tt)
last_sent-pop_oldest bound chat t ((c, u) ∷ before) h w =
    elim (Bool-cases (ltb bound (length ((c, u) ∷ (before ++ (chat, t) ∷ []))))) [
      | inl over ↦ rw over (last_sent-pop_oldest bound chat t before h w.1)
      | inr fits ↦ rw fits (last_sent-append chat t ((c, u) ∷ before) w)
    ]

-- Two notifications to one chat are at least the interval apart: whoever comes after a caller that
-- went on at `awake`, at a time that is not earlier, sleeps until `awake + interval` at least.
pub wait_ms-throttle :
    (chat interval awake now : ℕ) (sent : Sent)
    → awake ≤ now
    → awake + interval ≤ now + wait_ms chat interval now (throttle chat awake sent)
unfolding wait_ms throttle
wait_ms-throttle chat interval awake now sent h = ground (
  arith,
  last_sent-pop_oldest throttle_max chat awake (forget chat sent) (omega arith)
      (forget-Without chat sent),
)
