-- ===== src/Scheduler/Queue/Recent.antt =====
-- The memory of src/assistant/scheduler/dispatcher.py for the triggers that it has seen.
use xone_assistant.Prelude.{
  ℕ, ◌+◌, ◌≤◌, ◌<◌, true, List, [], ◌∷◌, ◌++◌, ◌≡◌, arith, ◌==◌, ltb, elem, inl, inr, Bool-cases,
  length, length-append,
}
use xone_assistant.Scheduler.Process.{discard}
use xone_assistant.Scheduler.Dispatcher.{lru_seen, drop_oldest}

pub length-discard : (i : ℕ) (xs : List ℕ) → length (discard i xs) ≤ length xs
length-discard i [] = omega arith
length-discard i (x ∷ xs) = ground (arith, length-discard i xs)

length-discard-lt : (i : ℕ) (xs : List ℕ) → elem i xs ≡ true → length (discard i xs) < length xs
length-discard-lt i [] h = absurd (cc)
length-discard-lt i (x ∷ xs) h = elim (Bool-cases (x == i)) [
  | inl here ↦ rw here (let le = length-discard i xs in omega arith)
  | inr there ↦ rw there (let lt = length-discard-lt i xs (rw there at h) in omega arith)
]

length-drop_oldest : (xs : List ℕ) → 0 < length xs → length (drop_oldest xs) + 1 ≡ length xs
length-drop_oldest [] h = absurd (omega arith)
length-drop_oldest (x ∷ xs) h = omega arith

pub lru_seen-le : (i : ℕ) (lru : List ℕ) → length lru ≤ 256 → length (lru_seen i lru).1 ≤ 256
unfolding lru_seen
lru_seen-le i lru h = elim (Bool-cases (elem i lru)) [
  | inl seen ↦
      let less = length-discard-lt i lru seen in
      let whole = length-append (discard i lru) (i ∷ []) in rw seen (omega arith)
  | inr new ↦
      let more = lru ++ i ∷ [] in
      let whole = length-append lru (i ∷ []) in
      elim (Bool-cases (ltb 256 (length more))) [
        | inl over ↦
            let less = length-drop_oldest more (omega arith) in rw (new, over) (omega arith)
        | inr under ↦ rw (new, under) (ground arith)
      ]
]
