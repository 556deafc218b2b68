-- ===== src/Subagent/Tools/Queued.antt =====
-- A job that is queued is the one that is looked at later (src/assistant/tools_sdk/subagent.py).
use xone_assistant.Prelude.{
  ℕ, ◌+◌, ◌≤◌, ◌≡◌, refl, ap, arith, String, Bool, true, false, Bool-cases, Option, none, some,
  List, [], ◌∷◌, ◌++◌, inl, inr, ◌==◌, ==_iff, any, str_eq, ltb, ltb→ge, codes, utf8_length,
}
use xone_assistant.Sql.{fetch_one}
use xone_assistant.Cron.Split.{Unicode}
use xone_assistant.Subagent.Job.{SubagentJob, requested}
use xone_assistant.Subagent.Ledger.{Ledger, insert}
use xone_assistant.Subagent.Store.{Request, requested_row, record_pending_request}
use xone_assistant.Subagent.Store.Cancel.{has_id}
use xone_assistant.Subagent.Store.Queries.{get_by_id}
use xone_assistant.Subagent.Invariant.{Rising, IsValid}
use xone_assistant.Subagent.Invariant.Preserved.{record_pending_request-IsValid}
use xone_assistant.Subagent.Tools.{
  JobDict, job_to_dict, Reply, tool_error, queued, shown, Argument, given, validate_kind,
  validate_task_text, lstrip, rstrip, is_empty, subagent_kinds, spawned_by, callback_or, queue,
  spawn_task, spawn_kind, subagent_spawn, subagent_status, shown_or,
}

Rising-le : (low : ℕ) (rows : List SubagentJob) (high : ℕ) → Rising low rows high → low ≤ high
Rising-le low [] high h = h
Rising-le low (r ∷ rows) high (first, rest) =
    let last = Rising-le r.id rows high rest in omega (arith, first, last)

-- A row with an id above all others is found by its id.
fetch_one-fresh :
    (low high : ℕ) (rows : List SubagentJob) (row : SubagentJob)
    → row.id ≡ high + 1
    → Rising low rows high
    → fetch_one (has_id (high + 1)) (rows ++ row ∷ []) ≡ some row
unfolding fetch_one
fetch_one-fresh low high [] row same rising = rw ((==_iff row.id (high + 1)).1 same) refl
fetch_one-fresh low high (r ∷ rows) row same (first, rest) =
    let below = Rising-le r.id rows high rest in
    let other : (r.id == high + 1) ≡ false = ground (arith, below) in
    rw other (fetch_one-fresh r.id high rows row same rest)

get_by_id-record_pending_request :
    (now : ℕ) (q : Request) (led : Ledger)
    → IsValid led
    → get_by_id (led.last_id + 1) (record_pending_request now q led).1
      ≡ some (requested_row now q (led.last_id + 1))
unfolding get_by_id record_pending_request requested_row insert
get_by_id-record_pending_request now q led v =
    fetch_one-fresh 0 led.last_id led.rows _ refl v.rising

subagent_status-record_pending_request :
    (now : ℕ) (q : Request) (led : Ledger)
    → IsValid led
    → subagent_status (given (led.last_id + 1)) (record_pending_request now q led).1
      ≡ shown (job_to_dict (requested_row now q (led.last_id + 1)))
unfolding subagent_status
subagent_status-record_pending_request now q led v =
    let positive : (led.last_id + 1 == 0) ≡ false = ground arith in
    rw positive (ap shown_or (get_by_id-record_pending_request now q led v))

module _ (u : Unicode) (now owner_chat_id : ℕ) (from_scheduler : Bool) where
  -- The job that the arguments ask for.
  abbrev pub asked_job : (job_id : ℕ) → (kind task : String) → (callback_chat_id : ℕ) → JobDict
  asked_job job_id kind task callback_chat_id = record {
    id = job_id;
    status = requested;
    kind = kind;
    task_text = some task;
    result_summary = none;
    spawned_by_kind = spawned_by u from_scheduler;
    callback_chat_id = callback_chat_id;
    cancel_requested = false;
    created_at = now;
    started_at = none;
    finished_at = none;
  }

  -- One of the kinds, as it was asked for.
  abbrev pub IsKind : Option String → String → Type 0
  IsKind kind name = (kind ≡ some name) × (any (str_eq name) subagent_kinds ≡ true)

  -- A task that was given, trimmed; it is not empty and has at most 4096 bytes.
  abbrev pub IsTask : Option String → String → Type 0
  IsTask task text =
      (raw : String) × (task ≡ some raw)
      × (text ≡ rstrip u (lstrip u raw))
      × (is_empty text ≡ false)
      × (utf8_length (codes text) ≤ 4096)

  -- If a value was accepted, it is a good one.
  abbrev Accepts : (String → Type 0) → Option String → Type 0
  Accepts P none = Unit {0}
  Accepts P (some s) = P s

  validate_kind-IsKind : (kind : Option String) → Accepts (IsKind kind) (validate_kind kind)
  unfolding validate_kind
  validate_kind-IsKind none = tt
  validate_kind-IsKind (some raw) = elim (Bool-cases (any (str_eq raw) subagent_kinds)) [
    | inl e ↦ rw e (refl, e)
    | inr e ↦ rw e tt
  ]

  validate_task_text-IsTask :
      (task : Option String) → Accepts (IsTask task) (validate_task_text u task)
  unfolding validate_task_text
  validate_task_text-IsTask none = tt
  validate_task_text-IsTask (some raw) =
      let stripped = rstrip u (lstrip u raw) in
      let bytes = utf8_length (codes stripped) in
      elim (Bool-cases (is_empty stripped)) [
        | inl e ↦ rw e tt
        | inr e ↦ elim (Bool-cases (ltb 4096 bytes)) [
          | inl large ↦ rw (e, large) tt
          | inr small ↦ rw (e, small) (raw, refl, refl, e, ltb→ge 4096 bytes small)
        ]
      ]

  -- What a call came to: an error that leaves the ledger as it is, or a job that can be looked at.
  abbrev pub IsSpawned : (kind task : Option String) → Argument ℕ → Ledger → Reply × Ledger → Type 0
  IsSpawned kind task callback led (tool_error code, after) = after ≡ led
  IsSpawned kind task callback led (queued job_id name, after) =
      IsValid after
      × IsKind kind name
      × ((text : String) × (chat_id : ℕ) × IsTask task text
          × (callback_or u owner_chat_id callback ≡ some chat_id)
          × (subagent_status (given job_id) after ≡ shown (asked_job job_id name text chat_id)))
  IsSpawned kind task callback led (_, after) = ⊥

  status-queue :
      (kind : Option String) (name : String) (task : Option String) (text : String)
      (callback : Argument ℕ) (o : Option ℕ) (led : Ledger)
      → IsValid led
      → IsKind kind name
      → IsTask task text
      → callback_or u owner_chat_id callback ≡ o
      → IsSpawned kind task callback led (queue u now from_scheduler name text o led)
  unfolding record_pending_request job_to_dict requested_row
  status-queue kind name task text callback none led v k t c = refl
  status-queue kind name task text callback (some chat_id) led v k t c =
      let q : Request = record {
        agent_type = name;
        task_text = text;
        callback_chat_id = chat_id;
        spawned_by_kind = spawned_by u from_scheduler;
        spawned_by_ref = none;
      } in
      let there = subagent_status-record_pending_request now q led v in
      (record_pending_request-IsValid now q led v, k, (text, chat_id, t, c, there))

  status-spawn_task :
      (kind : Option String) (name : String) (task : Option String) (callback : Argument ℕ)
      (o : Option String) (led : Ledger)
      → IsValid led
      → IsKind kind name
      → Accepts (IsTask task) o
      → IsSpawned kind task callback led
          (spawn_task u now owner_chat_id from_scheduler name o callback led)
  status-spawn_task kind name task callback none led v k t = refl
  status-spawn_task kind name task callback (some text) led v k t =
      status-queue kind name task text callback (callback_or u owner_chat_id callback) led v k t
        refl

  status-spawn_kind :
      (kind task : Option String) (callback : Argument ℕ) (o : Option String) (led : Ledger)
      → IsValid led
      → Accepts (IsKind kind) o
      → IsSpawned kind task callback led
          (spawn_kind u now owner_chat_id from_scheduler o task callback led)
  status-spawn_kind kind task callback none led v h = refl
  status-spawn_kind kind task callback (some name) led v h =
      status-spawn_task kind name task callback (validate_task_text u task) led v h
        (validate_task_text-IsTask task)

  -- On a valid ledger a call of subagent_spawn either is an error and leaves the ledger as it is,
  -- or queues a job: the kind is the one asked for and one of the three, the task was given and,
  -- trimmed, is not empty and has at most 4096 bytes, the chat is readable, the ledger stays valid,
  -- and subagent_status of the job's id shows a requested job with that kind, the trimmed task,
  -- that chat and the time of the call.
  pub subagent_spawn-IsSpawned :
      (kind task : Option String) (callback : Argument ℕ) (led : Ledger)
      → IsValid led
      → IsSpawned kind task callback led
          (subagent_spawn u now owner_chat_id from_scheduler kind task callback led)
  unfolding subagent_spawn
  subagent_spawn-IsSpawned kind task callback led v =
      status-spawn_kind kind task callback (validate_kind kind) led v (validate_kind-IsKind kind)
