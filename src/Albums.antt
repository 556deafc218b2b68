-- ===== src/Albums.antt =====
-- The aggregator of photo albums: src/assistant/adapters/media_group.py. No method awaits while it
-- holds a lock, so an `add` is one step of the event loop, and a flush is one up to its callback.
pub mod Photos
pub mod Sizes
pub mod Preempted
mod Examples
use xone_assistant.Prelude.{
  ℕ, zero, suc, ◌+◌, Bool, true, false, not, ◌&&◌, ◌||◌, Option, none, some, List, [], ◌∷◌, ◌++◌,
  ◌==◌, if◌then◌else◌, leb, String, str_eq, keep, length,
}

-- A photo stands for the path of its file.
pub record Bucket : Type 0 where
  pub chat_id : ℕ
  pub group_id : String
  pub photos : List ℕ
  pub caption : String
  pub first_message_id : ℕ
  pub flush_task : Option ℕ
  pub overflow_notified : Bool

-- What flush_cb is called with, and whether it raises.
pub record Batch : Type 0 where
  pub chat_id : ℕ
  pub group_id : String
  pub paths : List ℕ
  pub caption : String
  pub first_message_id : ℕ
  pub failed : Bool

abbrev pub Key : Type 0
Key = ℕ × String

-- A _delayed_flush that sleeps.
pub record Timer : Type 0 where
  pub task : ℕ
  pub key : Key

-- The registry with the tasks that sleep, and what was done: the calls of flush_cb, the photos that
-- were refused, those that cancel_all dropped, and the chats of the calls of overflow_cb.
pub record Aggregator : Type 0 where
  pub buckets : List Bucket
  pub timers : List Timer
  pub next_task : ℕ
  pub flushed : List Batch
  pub refused : List ℕ
  pub cancelled : List ℕ
  pub notices : List ℕ

abbrev pub empty : Aggregator
empty = record {
  buckets = [];
  timers = [];
  next_task = 0;
  flushed = [];
  refused = [];
  cancelled = [];
  notices = [];
}

abbrev pub is_key : Key → Bucket → Bool
is_key (chat_id, group_id) b = b.chat_id == chat_id && str_eq b.group_id group_id

abbrev pub key_of : Bucket → Key
key_of b = (b.chat_id, b.group_id)

abbrev pub new_bucket : Key → Bucket
new_bucket (chat_id, group_id) = record {
  chat_id = chat_id;
  group_id = group_id;
  photos = [];
  caption = "";
  first_message_id = 0;
  flush_task = none;
  overflow_notified = false;
}

-- self._buckets.get(key), or a new bucket
unfoldable pub bucket_at : Key → List Bucket → Bucket
bucket_at key [] = new_bucket key
bucket_at key (b ∷ buckets) = let later = bucket_at key buckets in if is_key key b then b else later

-- The registry with the bucket of a key changed.
unfoldable pub set_bucket : Key → Bucket → List Bucket → List Bucket
set_bucket key b [] = b ∷ []
set_bucket key b (x ∷ buckets) =
    let later = set_bucket key b buckets in if is_key key x then b ∷ buckets else x ∷ later

-- self._buckets.pop(key, None): the bucket
unfoldable pub popped : Key → List Bucket → Option Bucket
popped key [] = none
popped key (b ∷ buckets) = let later = popped key buckets in if is_key key b then some b else later

-- and what it leaves
unfoldable pub pop_bucket : Key → List Bucket → List Bucket
pop_bucket key [] = []
pop_bucket key (b ∷ buckets) =
    let later = pop_bucket key buckets in if is_key key b then buckets else b ∷ later

-- task.cancel() of a task that sleeps: it returns.
abbrev pub cancel_task : Option ℕ → List Timer → List Timer
cancel_task none timers = timers
cancel_task (some task) timers = keep (λ t. not (t.task == task)) timers

abbrev pub first_id : ℕ → ℕ → ℕ
first_id zero message_id = message_id
first_id (suc n) message_id = suc n

abbrev pub first_caption : String → String → String
first_caption old caption = if str_eq old "" then caption else old

abbrev pub overflow : ℕ → Key → ℕ → Bucket → Aggregator → Aggregator
overflow chat_id key photo b agg = record agg {
  buckets = set_bucket key (record b { overflow_notified = true }) agg.buckets;
  refused = agg.refused ++ photo ∷ [];
  notices = if b.overflow_notified then agg.notices else agg.notices ++ chat_id ∷ [];
}

-- A photo in its bucket, with a new task to flush it.
abbrev pub appended : (photo : ℕ) → (caption : String) → (message_id task : ℕ) → Bucket → Bucket
appended photo caption message_id task b = record b {
  photos = b.photos ++ photo ∷ [];
  caption = first_caption b.caption caption;
  first_message_id = first_id b.first_message_id message_id;
  flush_task = some task;
}

abbrev pub append_photo : Key → ℕ → String → ℕ → Bucket → Aggregator → Aggregator
append_photo key photo caption message_id b agg =
    let task = agg.next_task in
    record agg {
      buckets = set_bucket key (appended photo caption message_id task b) agg.buckets;
      timers = cancel_task b.flush_task agg.timers ++ record { task = task; key = key } ∷ [];
      next_task = task + 1;
    }

unfoldable pub add :
    (max_photos : ℕ)
    → (chat_id : ℕ) → (group_id : String) → (photo : ℕ) → (caption : String) → (message_id : ℕ)
    → Aggregator
    → Aggregator
add max_photos chat_id group_id photo caption message_id agg =
    let key : Key = (chat_id, group_id) in
    let b = bucket_at key agg.buckets in
    if leb max_photos (length b.photos)
    then overflow chat_id key photo b agg
    else append_photo key photo caption message_id b agg

-- A pending task that is not the one that runs is cancelled.
abbrev pub cancel_other : Option ℕ → Option ℕ → List Timer → List Timer
cancel_other current none timers = timers
cancel_other none (some pending) timers = cancel_task (some pending) timers
cancel_other (some current) (some pending) timers =
    let others = cancel_task (some pending) timers in if pending == current then timers else others

abbrev pub batch_of : (failed : Bool) → Bucket → Batch
batch_of failed b = record {
  chat_id = b.chat_id;
  group_id = b.group_id;
  paths = b.photos;
  caption = b.caption;
  first_message_id = b.first_message_id;
  failed = failed;
}

abbrev pub flush_bucket :
    (failed : Bool) → Option ℕ → Key → Option Bucket → List ℕ → Aggregator → Aggregator
flush_bucket failed current key none photos agg = agg
flush_bucket failed current key (some b) [] agg = record agg {
  buckets = pop_bucket key agg.buckets;
}
flush_bucket failed current key (some b) (photo ∷ photos) agg = record agg {
  buckets = pop_bucket key agg.buckets;
  timers = cancel_other current b.flush_task agg.timers;
  flushed = agg.flushed ++ batch_of failed b ∷ [];
}

abbrev pub photos_in : Option Bucket → List ℕ
photos_in none = []
photos_in (some b) = b.photos

-- `current` is the task of a _delayed_flush that calls; `failed` is whether flush_cb raises, upon
-- which the files of the batch are removed.
unfoldable pub do_flush : (failed : Bool) → (current : Option ℕ) → Key → Aggregator → Aggregator
do_flush failed current key agg =
    let found = popped key agg.buckets in
    flush_bucket failed current key found (photos_in found) agg

-- The timer of a task runs out, when it was not cancelled.
unfoldable pub delayed_flush : (failed : Bool) → Timer → Aggregator → Aggregator
delayed_flush failed timer agg =
    do_flush failed (some timer.task) timer.key
      (record agg { timers = cancel_task (some timer.task) agg.timers })

unfoldable pub flush_keys : (failed : Key → Bool) → List Key → Aggregator → Aggregator
flush_keys failed [] agg = agg
flush_keys failed (key ∷ keys) agg = flush_keys failed keys (do_flush (failed key) none key agg)

-- The keys of a chat, when its text arrives.
abbrev pub keys_of : ℕ → List Bucket → List Key
keys_of chat_id [] = []
keys_of chat_id (b ∷ buckets) =
    let later = keys_of chat_id buckets in if b.chat_id == chat_id then key_of b ∷ later else later

unfoldable pub flush_for_chat : (failed : Key → Bool) → ℕ → Aggregator → Aggregator
flush_for_chat failed chat_id agg = flush_keys failed (keys_of chat_id agg.buckets) agg

abbrev pub all_photos : List Bucket → List ℕ
all_photos [] = []
all_photos (b ∷ buckets) = b.photos ++ all_photos buckets

abbrev pub cancel_buckets : List Bucket → List Timer → List Timer
cancel_buckets [] timers = timers
cancel_buckets (b ∷ buckets) timers = cancel_buckets buckets (cancel_task b.flush_task timers)

-- The tasks of overflow notices that did not run yet are cancelled as well.
unfoldable pub cancel_all : Aggregator → Aggregator
cancel_all agg = record agg {
  buckets = [];
  timers = cancel_buckets agg.buckets agg.timers;
  cancelled = agg.cancelled ++ all_photos agg.buckets;
}
