-- ===== src/Scheduler/Dispatcher.antt =====
-- The consumer: src/assistant/scheduler/dispatcher.py. What the handler's turn and the adapter's
-- send came to are arguments; what the dispatcher asks of them is the log that it returns.
use xone_assistant.Prelude.{
  ℕ, String, Bool, true, false, Option, none, some, List, [], ◌∷◌, ◌++◌, ltb, leb, if◌then◌else◌,
  elem, length, Text,
}
use Prim.Native.String.{◌++◌ as str_append}
use xone_assistant.Cron.Split.{strip}
use xone_assistant.Scheduler.Rows.{Schedule, Tables}
use xone_assistant.Scheduler.Schedules.{get_schedule}
use xone_assistant.Scheduler.Triggers.{mark_acked, mark_dropped, mark_dead, revert_to_pending}
use xone_assistant.Scheduler.Process.{Process, ScheduledTrigger, Settings, System, discard}

-- The chunks of a turn, or the repr of what it raised.
pub data Turn : Type 0 where
  emitted : List Text → Turn
  failed : (error : String) → Turn

-- How a send ended: delivered, or the repr of what it raised.
pub data Send : Type 0 where
  delivered : Send
  undelivered : (error : String) → Send

-- What the dispatcher asks for: a turn on a prompt, a reply, the notice of a dead letter.
pub data Request : Type 0 where
  ask : (prompt : String) → Request
  reply : Text → Request
  notify : (trigger_id attempts : ℕ) → Request

-- OrderedDict, oldest first: popitem(last=False)
abbrev pub drop_oldest : List ℕ → List ℕ
drop_oldest [] = []
drop_oldest (x ∷ xs) = xs

unfoldable pub lru_seen : ℕ → List ℕ → Bool × List ℕ
lru_seen i lru =
    if elem i lru
    then (true, discard i lru ++ i ∷ [])
    else let more = lru ++ i ∷ [] in
      (false, if ltb 256 (length more) then drop_oldest more else more)

abbrev pub is_active : Option Schedule → Bool
is_active none = false
is_active (some s) = s.enabled

-- "".join(chunks)
abbrev pub join : List Text → Text
join [] = []
join (t ∷ ts) = t ++ join ts

abbrev pub empty_error : String
empty_error = "empty handler output; no text emitted"

module _ (sys : System) (settings : Settings) where
  -- The retry, and the dead letter at the threshold. `cause` is what the dead letter names.
  unfoldable pub retry : ℕ → String → String → Tables → Tables × List Request
  unfolding revert_to_pending mark_dead
  retry i error cause db =
      let (attempts, db') = revert_to_pending i error db in
      if leb settings.dead_attempts_threshold attempts
      then (
        mark_dead i
            (str_append "dead after "
              (str_append (sys.str attempts) (str_append " attempts: " cause)))
            db',
        notify i attempts ∷ [],
      )
      else (db', [])

  -- The final text, once the turn is over.
  unfoldable pub deliver : ℕ → Text → Send → ℕ → Tables → Tables × List Request
  unfolding retry revert_to_pending mark_acked
  deliver i [] sent now db = retry i empty_error "empty output" db
  deliver i (c ∷ final) delivered now db = (mark_acked now i db, reply (c ∷ final) ∷ [])
  deliver i (c ∷ final) (undelivered error) now db = (
    (revert_to_pending i (str_append "adapter.send_text failed: " error) db).1,
    reply (c ∷ final) ∷ [],
  )

  unfoldable pub finish_turn : ℕ → Turn → Send → ℕ → Tables → Tables × List Request
  unfolding deliver retry strip
  finish_turn i (failed error) sent now db = retry i error error db
  finish_turn i (emitted chunks) sent now db =
      deliver i (strip sys.unicode (join chunks)) sent now db

  unfoldable pub process : ScheduledTrigger → Turn → Send → ℕ → Process → Process × List Request
  unfolding lru_seen get_schedule mark_dropped finish_turn
  process trig turn sent now p =
      let i = trig.trigger_id in
      let (seen, lru) = lru_seen i p.lru in
      elim seen [
        | true ↦ (record p { lru = lru; tables = mark_dropped i p.tables }, [])
        | false ↦ elim (is_active (get_schedule trig.schedule_id p.tables)) [
          | false ↦ (record p { lru = lru; tables = mark_dropped i p.tables }, [])
          | true ↦
              let (tables, requests) = finish_turn i turn sent now p.tables in
              (record p { lru = lru; tables = tables }, ask trig.prompt ∷ requests)
        ]
      ]

  -- One round of `run`, on the queue.
  unfoldable pub dispatch_head :
      Turn → Send → ℕ → Process → List ScheduledTrigger → Process × List Request
  unfolding process
  dispatch_head turn sent now p [] = (p, [])
  dispatch_head turn sent now p (trig ∷ queue) =
      let (p', requests) = process trig turn sent now (record p { queue = queue }) in
      (record p' { inflight = discard trig.trigger_id p'.inflight }, requests)

  unfoldable pub dispatch : Turn → Send → ℕ → Process → Process × List Request
  unfolding dispatch_head
  dispatch turn sent now p = dispatch_head turn sent now p p.queue
