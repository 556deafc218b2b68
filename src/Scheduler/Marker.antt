-- ===== src/Scheduler/Marker.antt =====
-- The marker of a clean exit, by which a start of the daemon is classified
-- (src/assistant/scheduler/store.py, and its use in src/assistant/main.py). Times are whole seconds.
mod Examples
use xone_assistant.Prelude.{
  ℕ, ◌+◌, ◌≤◌, ◌≡◌, refl, sym, ap, ◌∙◌, arith, Bool, true, false, Bool-cases, Option, none, some,
  List, [], ◌∷◌, ◌++◌, inl, inr, leb, leb→le, if◌then◌else◌,
}

pub data BootClass : Type 0 where
  first_boot clean_deploy suspend_or_crash : BootClass

-- The file, if there is one: when it was written, and the time in its text.
pub record ExitFile : Type 0 where
  pub mtime : ℕ
  pub ts : ℕ

-- What the system does at a start: whether stat succeeds, whether the text can be read, and whether
-- the file is removed.
pub record Start : Type 0 where
  pub stat_ok : Bool
  pub read_ok : Bool
  pub removed : Bool

-- age <= max_age_s, where a time in the future has an age below 0
abbrev pub by_age : (max_age_s now written : ℕ) → BootClass
by_age max_age_s now written =
    if leb now (written + max_age_s) then clean_deploy else suspend_or_crash

unfoldable pub classify_boot : (max_age_s now : ℕ) → Start → Option ExitFile → BootClass
classify_boot max_age_s now start none = first_boot
classify_boot max_age_s now start (some file) =
    if start.stat_ok
    then by_age max_age_s now file.mtime
    else if start.read_ok
    then by_age max_age_s now file.ts
    else first_boot

unfoldable pub write_clean_exit_marker : (now : ℕ) → Option ExitFile → Option ExitFile
write_clean_exit_marker now marker = some (record { mtime = now; ts = now })

unfoldable pub unlink_clean_exit_marker : Start → Option ExitFile → Option ExitFile
unlink_clean_exit_marker start marker = if start.removed then none else marker

-- What happens to a daemon: it is started, stops in order, or is gone without a word.
pub data Event : Type 0 where
  boot : (now : ℕ) → Start → Event
  stop : (now : ℕ) → Event
  crash : Event

unfoldable pub live : Event → Option ExitFile → Option ExitFile
live (boot now start) marker = unlink_clean_exit_marker start marker
live (stop now) marker = write_clean_exit_marker now marker
live crash marker = marker

-- The events, the latest first.
unfoldable pub marker_after : List Event → Option ExitFile
marker_after [] = none
marker_after (event ∷ before) = live event (marker_after before)

-- The last orderly stop, if the daemon was not started since, or the file was not removed then.
abbrev pub last_stop : List Event → Option ℕ
last_stop [] = none
last_stop (boot now start ∷ before) = if start.removed then none else last_stop before
last_stop (stop now ∷ before) = some now
last_stop (crash ∷ before) = last_stop before

abbrev file_of : Option ℕ → Option ExitFile
file_of none = none
file_of (some now) = some (record { mtime = now; ts = now })

marker_after-last_stop : (events : List Event) → marker_after events ≡ file_of (last_stop events)
unfolding marker_after live unlink_clean_exit_marker write_clean_exit_marker
marker_after-last_stop [] = refl
marker_after-last_stop (boot now start ∷ before) = elim (Bool-cases start.removed) [
  | inl e ↦ rw e refl
  | inr e ↦ rw e (marker_after-last_stop before)
]
marker_after-last_stop (stop now ∷ before) = refl
marker_after-last_stop (crash ∷ before) = marker_after-last_stop before

by_age-clean :
    (max_age_s now written : ℕ)
    → by_age max_age_s now written ≡ clean_deploy
    → now ≤ written + max_age_s
by_age-clean max_age_s now written h = elim (Bool-cases (leb now (written + max_age_s))) [
  | inl e ↦ leb→le now (written + max_age_s) e
  | inr e ↦ absurd (cc (h, e))
]

classify-clean :
    (max_age_s now : ℕ) (start : Start) (stopped : Option ℕ)
    → classify_boot max_age_s now start (file_of stopped) ≡ clean_deploy
    → (at_time : ℕ) × (stopped ≡ some at_time) × (now ≤ at_time + max_age_s)
unfolding classify_boot
classify-clean max_age_s now start none h = absurd (cc (h))
classify-clean max_age_s now start (some at_time) h = elim (Bool-cases start.stat_ok) [
  | inl e ↦ (at_time, refl, by_age-clean max_age_s now at_time (rw e at h))
  | inr e ↦ elim (Bool-cases start.read_ok) [
    | inl r ↦ (at_time, refl, by_age-clean max_age_s now at_time (rw (e, r) at h))
    | inr r ↦ absurd (cc (rw (e, r) at h))
  ]
]

-- After any events, a start is taken for a clean deployment only if the daemon stopped in order at
-- most max_age_s seconds before, and behind that stop was not started with the file removed.
pub classify_boot-marker_after :
    (max_age_s now : ℕ) (start : Start) (events : List Event)
    → classify_boot max_age_s now start (marker_after events) ≡ clean_deploy
    → (at_time : ℕ) × (last_stop events ≡ some at_time) × (now ≤ at_time + max_age_s)
classify_boot-marker_after max_age_s now start events h =
    let same = ap (classify_boot max_age_s now start) (marker_after-last_stop events) in
    classify-clean max_age_s now start (last_stop events) (sym same ∙ h)
