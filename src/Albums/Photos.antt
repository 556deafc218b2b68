-- ===== src/Albums/Photos.antt =====
-- Where the photos of an album go (src/assistant/adapters/media_group.py).
use xone_assistant.Prelude.{
  ℕ, ◌+◌, ◌≡◌, refl, arith, Bool, true, false, Bool-cases, Option, none, some, List, [], ◌∷◌, ◌++◌,
  inl, inr, if◌then◌else◌, ◌==◌, leb, String, length,
}
use xone_assistant.Sql.{row_count}
use xone_assistant.Sql.Update.{row_count-append}
use xone_assistant.Albums.{
  Bucket, Batch, Key, Timer, Aggregator, empty, is_key, bucket_at, overflow, append_photo, appended,
  set_bucket, popped, pop_bucket, add, batch_of, flush_bucket, photos_in, do_flush, delayed_flush,
  all_photos, cancel_all, cancel_task,
}

abbrev is_photo : ℕ → ℕ → Bool
is_photo p x = x == p

-- How often a photo is in a list.
abbrev pub times : ℕ → List ℕ → ℕ
times p photos = row_count (is_photo p) photos

abbrev pub times_held : ℕ → List Bucket → ℕ
times_held p [] = 0
times_held p (b ∷ buckets) = times p b.photos + times_held p buckets

abbrev pub times_flushed : ℕ → List Batch → ℕ
times_flushed p [] = 0
times_flushed p (b ∷ batches) = times p b.paths + times_flushed p batches

-- How often a photo is anywhere.
abbrev pub times_seen : ℕ → Aggregator → ℕ
times_seen p agg =
    times_held p agg.buckets
    + times_flushed p agg.flushed
    + times p agg.refused
    + times p agg.cancelled

times_held-set_bucket :
    (p : ℕ) (key : Key) (b : Bucket) (buckets : List Bucket)
    → times_held p (set_bucket key b buckets) + times p (bucket_at key buckets).photos
      ≡ times_held p buckets + times p b.photos
unfolding set_bucket bucket_at row_count
times_held-set_bucket p key b [] = omega arith
times_held-set_bucket p key b (x ∷ buckets) = elim (Bool-cases (is_key key x)) [
  | inl e ↦ rw e (omega arith)
  | inr e ↦ rw e (omega (arith, times_held-set_bucket p key b buckets))
]

times_held-pop_bucket :
    (p : ℕ) (key : Key) (buckets : List Bucket)
    → times_held p (pop_bucket key buckets) + times p (photos_in (popped key buckets))
      ≡ times_held p buckets
unfolding pop_bucket popped row_count
times_held-pop_bucket p key [] = omega arith
times_held-pop_bucket p key (x ∷ buckets) = elim (Bool-cases (is_key key x)) [
  | inl e ↦ rw e (omega arith)
  | inr e ↦ rw e (omega (arith, times_held-pop_bucket p key buckets))
]

times_flushed-append :
    (p : ℕ) (batches : List Batch) (b : Batch)
    → times_flushed p (batches ++ b ∷ []) ≡ times_flushed p batches + times p b.paths
times_flushed-append p [] b = omega arith
times_flushed-append p (x ∷ batches) b = omega (arith, times_flushed-append p batches b)

times-all_photos :
    (p : ℕ) (buckets : List Bucket) → times p (all_photos buckets) ≡ times_held p buckets
unfolding row_count
times-all_photos p [] = refl
times-all_photos p (b ∷ buckets) =
    omega (
      arith,
      row_count-append (is_photo p) b.photos (all_photos buckets),
      times-all_photos p buckets,
    )

-- What holds of both of two values.
either {ℓ κ} :
    {A : Type ℓ} (P : A → Type κ) (b : Bool) (x y : A) → P x → P y → P (if b then x else y)
either P true x y h k = h
either P false x y h k = k

module _ (p : ℕ) (agg : Aggregator) where
  times_seen-overflow :
      (chat_id : ℕ) (key : Key) (photo : ℕ)
      → times_seen p (overflow chat_id key photo (bucket_at key agg.buckets) agg)
        ≡ times_seen p agg + times p (photo ∷ [])
  times_seen-overflow chat_id key photo =
      let b = bucket_at key agg.buckets in
      omega (
        arith,
        times_held-set_bucket p key (record b { overflow_notified = true }) agg.buckets,
        row_count-append (is_photo p) agg.refused (photo ∷ []),
      )

  times_seen-append_photo :
      (key : Key) (photo : ℕ) (caption : String) (message_id : ℕ)
      → times_seen p (append_photo key photo caption message_id (bucket_at key agg.buckets) agg)
        ≡ times_seen p agg + times p (photo ∷ [])
  times_seen-append_photo key photo caption message_id =
      let b = bucket_at key agg.buckets in
      omega (
        arith,
        times_held-set_bucket p key (appended photo caption message_id agg.next_task b) agg.buckets,
        row_count-append (is_photo p) b.photos (photo ∷ []),
      )

  -- A photo that is added is in one place more than before: the bucket, or the refused ones.
  times_seen-add :
      (max_photos chat_id : ℕ) (group_id : String) (photo : ℕ) (caption : String) (message_id : ℕ)
      → times_seen p (add max_photos chat_id group_id photo caption message_id agg)
        ≡ times_seen p agg + times p (photo ∷ [])
  unfolding add
  times_seen-add max_photos chat_id group_id photo caption message_id =
      let key : Key = (chat_id, group_id) in
      either (λ a. times_seen p a ≡ times_seen p agg + times p (photo ∷ []))
        (leb max_photos (length (bucket_at key agg.buckets).photos)) _ _
        (times_seen-overflow chat_id key photo)
        (times_seen-append_photo key photo caption message_id)

  times_seen-flush_bucket :
      (failed : Bool) (current : Option ℕ) (key : Key) (found : Option Bucket) (photos : List ℕ)
      → popped key agg.buckets ≡ found
      → photos_in found ≡ photos
      → times_seen p (flush_bucket failed current key found photos agg) ≡ times_seen p agg
  unfolding row_count
  times_seen-flush_bucket failed current key none photos e f = refl
  times_seen-flush_bucket failed current key (some b) [] e f =
      let none_there : times p (photos_in (popped key agg.buckets)) ≡ 0 = rw (e, f) in
      omega (arith, times_held-pop_bucket p key agg.buckets, none_there)
  times_seen-flush_bucket failed current key (some b) (photo ∷ photos) e f =
      let there : photos_in (popped key agg.buckets) ≡ b.photos = rw e in
      let same : times p (photos_in (popped key agg.buckets)) ≡ times p b.photos = rw there in
      omega (
        arith,
        times_held-pop_bucket p key agg.buckets,
        times_flushed-append p agg.flushed (batch_of failed b),
        same,
      )

  times_seen-do_flush :
      (failed : Bool) (current : Option ℕ) (key : Key)
      → times_seen p (do_flush failed current key agg) ≡ times_seen p agg
  unfolding do_flush
  times_seen-do_flush failed current key =
      times_seen-flush_bucket failed current key (popped key agg.buckets)
        (photos_in (popped key agg.buckets)) refl refl

  times_seen-cancel_all : times_seen p (cancel_all agg) ≡ times_seen p agg
  unfolding cancel_all row_count
  times_seen-cancel_all = omega (
    arith,
    row_count-append (is_photo p) agg.cancelled (all_photos agg.buckets),
    times-all_photos p agg.buckets,
  )

module _ (max_photos : ℕ) where
  -- What happens to the aggregator of an adapter, one step of the event loop after the other, with
  -- the photos that arrived. The flushes of flush_for_chat are steps of their own, since each
  -- awaits its callback.
  pub data Reaches : List ℕ → Aggregator → Type 0 where
    started : Reaches [] empty
    added :
        (chat_id : ℕ) (group_id : String) (photo : ℕ) (caption : String) (message_id : ℕ)
        {arrived : List ℕ} {agg : Aggregator}
        → Reaches arrived agg
        → Reaches (photo ∷ arrived) (add max_photos chat_id group_id photo caption message_id agg)
    ran_out :
        (failed : Bool) (timer : Timer) {arrived : List ℕ} {agg : Aggregator}
        → Reaches arrived agg
        → Reaches arrived (delayed_flush failed timer agg)
    text_came :
        (failed : Bool) (key : Key) {arrived : List ℕ} {agg : Aggregator}
        → Reaches arrived agg
        → Reaches arrived (do_flush failed none key agg)
    stopped :
        {arrived : List ℕ} {agg : Aggregator}
        → Reaches arrived agg
        → Reaches arrived (cancel_all agg)

  -- No photo is lost and none is handled twice: each is, as often as it arrived, in a bucket, in a
  -- batch that was handed to the adapter, among those refused, or among those that a stop dropped.
  pub Reaches-times_seen :
      {arrived : List ℕ} {agg : Aggregator} (p : ℕ)
      → Reaches arrived agg
      → times_seen p agg ≡ times p arrived
  unfolding row_count delayed_flush
  Reaches-times_seen p started = refl
  Reaches-times_seen p (added chat_id group_id photo caption message_id {arrived} {agg} r) =
      let one = times_seen-add p agg max_photos chat_id group_id photo caption message_id in
      omega (arith, one, Reaches-times_seen p r)
  Reaches-times_seen p (ran_out failed timer {arrived} {agg} r) =
      let woken = record agg { timers = cancel_task (some timer.task) agg.timers } in
      omega (
        arith,
        times_seen-do_flush p woken failed (some timer.task) timer.key,
        Reaches-times_seen p r,
      )
  Reaches-times_seen p (text_came failed key {arrived} {agg} r) =
      omega (arith, times_seen-do_flush p agg failed none key, Reaches-times_seen p r)
  Reaches-times_seen p (stopped {arrived} {agg} r) =
      omega (arith, times_seen-cancel_all p agg, Reaches-times_seen p r)
