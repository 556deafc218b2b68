-- ===== src/Scheduler/Queue/Dedup.antt =====
-- What the dispatcher remembers (src/assistant/scheduler/dispatcher.py).
use xone_assistant.Prelude.{
  ℕ, ◌+◌, ◌≤◌, ◌<◌, true, false, List, [], ◌∷◌, ◌++◌, ◌≡◌, refl, ap, ◌∙◌, arith, ◌==◌, ltb, All,
  elem, elem-append, length, length-append, inl, inr, Bool-cases,
}
use xone_assistant.Scheduler.Process.{discard}
use xone_assistant.Scheduler.Dispatcher.{lru_seen, drop_oldest}
use xone_assistant.Scheduler.Queue.Recent.{length-discard}

-- The entry i, with at most n younger ones.
record Remembers (i n : ℕ) (lru : List ℕ) : Type 0 where
  older : List ℕ
  younger : List ℕ
  shape : lru ≡ older ++ i ∷ younger
  few : length younger ≤ n

append_assoc : (xs ys zs : List ℕ) → (xs ++ ys) ++ zs ≡ xs ++ (ys ++ zs)
append_assoc [] ys zs = refl
append_assoc (x ∷ xs) ys zs = ap (◌∷◌ x) (append_assoc xs ys zs)

discard-append : (j : ℕ) (xs ys : List ℕ) → discard j (xs ++ ys) ≡ discard j xs ++ discard j ys
discard-append j [] ys = refl
discard-append j (x ∷ xs) ys = elim (Bool-cases (x == j)) [
  | inl same ↦ rw same (discard-append j xs ys)
  | inr other ↦ rw other (ap (◌∷◌ x) (discard-append j xs ys))
]

Remembers-elem : (i n : ℕ) (lru : List ℕ) → Remembers i n lru → elem i lru ≡ true
Remembers-elem i n lru r = rw (r.shape, elem-append i r.older (i ∷ r.younger)) (ground arith)

-- At most 256 entries are left when the oldest goes, so it is not i.
drop_oldest-Remembers :
    (i n : ℕ) (lru : List ℕ)
    → n ≤ 255
    → 256 < length lru
    → Remembers i n lru
    → Remembers i n (drop_oldest lru)
drop_oldest-Remembers i n lru small long r = go r.older r.shape
  where
    go : (older : List ℕ) → lru ≡ older ++ i ∷ r.younger → Remembers i n (drop_oldest lru)
    go [] e =
        let few = r.few in
        let long' : 256 < length (i ∷ r.younger) = rw e at long in absurd (omega arith)
    go (x ∷ older) e = record {
      older = older;
      younger = r.younger;
      shape = ap drop_oldest e;
      few = r.few;
    }

lru_seen-Remembers :
    (i j n : ℕ) (lru : List ℕ)
    → n < 255
    → (i == j) ≡ false
    → Remembers i n lru
    → Remembers i (n + 1) (lru_seen j lru).1
unfolding lru_seen
lru_seen-Remembers i j n lru small other r = elim (Bool-cases (elem j lru)) [
  | inl seen ↦ rw seen (record {
    older = discard j r.older;
    younger = discard j r.younger ++ j ∷ [];
    shape = moved;
    few =
        let le = length-discard j r.younger in
        let few = r.few in rw (length-append (discard j r.younger) (j ∷ [])) (omega arith);
  })
  | inr new ↦ elim (Bool-cases (ltb 256 (length (lru ++ j ∷ [])))) [
    | inl over ↦
        rw (new, over)
          (drop_oldest-Remembers i (n + 1) (lru ++ j ∷ []) (omega arith) (ground (arith, over))
            added)
    | inr under ↦ rw (new, under) added
  ]
]
  where
    moved : discard j lru ++ j ∷ [] ≡ discard j r.older ++ i ∷ (discard j r.younger ++ j ∷ [])
    moved =
        ap (λ xs. discard j xs ++ j ∷ []) r.shape
        ∙ ap (λ xs. xs ++ j ∷ []) (discard-append j r.older (i ∷ r.younger))
        ∙ rw other (append_assoc (discard j r.older) (i ∷ discard j r.younger) (j ∷ []))

    added : Remembers i (n + 1) (lru ++ j ∷ [])
    added = record {
      older = r.older;
      younger = r.younger ++ j ∷ [];
      shape = ap (λ xs. xs ++ j ∷ []) r.shape ∙ append_assoc r.older (i ∷ r.younger) (j ∷ []);
      few = let few = r.few in rw (length-append r.younger (j ∷ [])) (omega arith);
    }

-- The memory after the triggers `ids` have come by.
unfoldable pub see_all : List ℕ → List ℕ → List ℕ
unfolding lru_seen
see_all [] lru = lru
see_all (j ∷ ids) lru = see_all ids (lru_seen j lru).1

see_all-Remembers :
    (i n : ℕ) (ids lru : List ℕ)
    → length ids + n ≤ 255
    → All (λ j. (i == j) ≡ false) ids
    → Remembers i n lru
    → elem i (see_all ids lru) ≡ true
unfolding see_all
see_all-Remembers i n [] lru few others r = Remembers-elem i n lru r
see_all-Remembers i n (j ∷ ids) lru few others r =
    see_all-Remembers i (n + 1) ids (lru_seen j lru).1 (omega (arith, few)) others.1
      (lru_seen-Remembers i j n lru (omega (arith, few)) others.0 r)

first-Remembers : (i : ℕ) (lru : List ℕ) → length lru ≤ 256 → Remembers i 0 (lru_seen i lru).1
unfolding lru_seen
first-Remembers i lru le = elim (Bool-cases (elem i lru)) [
  | inl seen ↦
      rw seen (record { older = discard i lru; younger = []; shape = refl; few = omega arith })
  | inr new ↦
      let added : Remembers i 0 (lru ++ i ∷ []) = record {
        older = lru;
        younger = [];
        shape = refl;
        few = omega arith;
      } in
      elim (Bool-cases (ltb 256 (length (lru ++ i ∷ [])))) [
        | inl over ↦
            rw (new, over)
              (drop_oldest-Remembers i 0 (lru ++ i ∷ []) (omega arith) (ground (arith, over)) added)
        | inr under ↦ rw (new, under) added
      ]
]

-- A trigger that the dispatcher has looked at is recognised when it comes again, as long as at
-- most 255 triggers came between, none of them the same, and the memory held at most 256 before.
pub lru_seen_again :
    (i : ℕ) (others lru : List ℕ)
    → length lru ≤ 256
    → length others ≤ 255
    → All (λ j. (i == j) ≡ false) others
    → (lru_seen i (see_all others (lru_seen i lru).1)).0 ≡ true
unfolding lru_seen
lru_seen_again i others lru le few apart = rw (
  see_all-Remembers i 0 others (lru_seen i lru).1 (omega (arith, few)) apart
      (first-Remembers i lru le),
  lru_seen,
)
