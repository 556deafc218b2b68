-- ===== src/Albums/Sizes.antt =====
-- How large the batches of photos are (src/assistant/adapters/media_group.py).
use xone_assistant.Prelude.{
  ℕ, ◌≤◌, ◌≡◌, refl, sym, arith, Bool, Bool-cases, Option, none, some, List, [], ◌∷◌, ◌++◌, inl,
  inr, leb, String, All, All-append, length, length-append,
}
use xone_assistant.Albums.{
  Bucket, Batch, Key, Aggregator, is_key, bucket_at, set_bucket, popped, pop_bucket, add, batch_of,
  flush_bucket, photos_in, do_flush, delayed_flush, cancel_all, cancel_task,
}
use xone_assistant.Albums.Photos.{Reaches, started, added, ran_out, text_came, stopped}

module _ (max_photos : ℕ) where
  abbrev pub Fits : Bucket → Type 0
  Fits b = length b.photos ≤ max_photos

  abbrev pub IsBatch : Batch → Type 0
  IsBatch b = (1 ≤ length b.paths) × (length b.paths ≤ max_photos)

  abbrev pub FitsAll : Aggregator → Type 0
  FitsAll agg = All Fits agg.buckets × All IsBatch agg.flushed

  bucket_at-Fits :
      (key : Key) (buckets : List Bucket) → All Fits buckets → Fits (bucket_at key buckets)
  unfolding bucket_at
  bucket_at-Fits key [] h = omega arith
  bucket_at-Fits key (b ∷ buckets) (h, later) = elim (Bool-cases (is_key key b)) [
    | inl e ↦ rw e h
    | inr e ↦ rw e (bucket_at-Fits key buckets later)
  ]

  set_bucket-Fits :
      (key : Key) (b : Bucket) (buckets : List Bucket)
      → Fits b
      → All Fits buckets
      → All Fits (set_bucket key b buckets)
  unfolding set_bucket
  set_bucket-Fits key b [] h hs = (h, tt)
  set_bucket-Fits key b (x ∷ buckets) h (k, later) = elim (Bool-cases (is_key key x)) [
    | inl e ↦ rw e (h, later)
    | inr e ↦ rw e (k, set_bucket-Fits key b buckets h later)
  ]

  pop_bucket-Fits :
      (key : Key) (buckets : List Bucket) → All Fits buckets → All Fits (pop_bucket key buckets)
  unfolding pop_bucket
  pop_bucket-Fits key [] h = tt
  pop_bucket-Fits key (b ∷ buckets) (h, later) = elim (Bool-cases (is_key key b)) [
    | inl e ↦ rw e later
    | inr e ↦ rw e (h, pop_bucket-Fits key buckets later)
  ]

  popped-Fits :
      (key : Key) (buckets : List Bucket) (b : Bucket)
      → All Fits buckets
      → popped key buckets ≡ some b
      → Fits b
  unfolding popped
  popped-Fits key [] b h e = absurd (cc (e))
  popped-Fits key (x ∷ buckets) b (h, later) e = elim (Bool-cases (is_key key x)) [
    | inl t ↦ let e' : some x ≡ some b = rw t at e in let same : x ≡ b = cc (e') in rw (sym same) h
    | inr t ↦ popped-Fits key buckets b later (rw t at e)
  ]

  add-FitsAll :
      (chat_id : ℕ) (group_id : String) (photo : ℕ) (caption : String) (message_id : ℕ)
      (agg : Aggregator)
      → FitsAll agg
      → FitsAll (add max_photos chat_id group_id photo caption message_id agg)
  unfolding add
  add-FitsAll chat_id group_id photo caption message_id agg (buckets, batches) =
      let key : Key = (chat_id, group_id) in
      let b = bucket_at key agg.buckets in
      elim (Bool-cases (leb max_photos (length b.photos))) [
        | inl e ↦ rw e (
          set_bucket-Fits key _ agg.buckets (bucket_at-Fits key agg.buckets buckets) buckets,
          batches,
        )
        | inr e ↦
            let room : length (b.photos ++ photo ∷ []) ≤ max_photos =
              ground (arith, e, length-append b.photos (photo ∷ [])) in
            rw e (set_bucket-Fits key _ agg.buckets room buckets, batches)
      ]

  flush_bucket-FitsAll :
      (failed : Bool) (current : Option ℕ) (key : Key) (found : Option Bucket) (photos : List ℕ)
      (agg : Aggregator)
      → popped key agg.buckets ≡ found
      → photos_in found ≡ photos
      → FitsAll agg
      → FitsAll (flush_bucket failed current key found photos agg)
  flush_bucket-FitsAll failed current key none photos agg e f h = h
  flush_bucket-FitsAll failed current key (some b) [] agg e f h =
      (pop_bucket-Fits key agg.buckets h.0, h.1)
  flush_bucket-FitsAll failed current key (some b) (photo ∷ photos) agg e f h =
      let fits = popped-Fits key agg.buckets b h.0 e in
      let some_there : 1 ≤ length b.photos = rw f (omega arith) in
      (
        pop_bucket-Fits key agg.buckets h.0,
        All-append IsBatch agg.flushed (batch_of failed b ∷ []) h.1 ((some_there, fits), tt),
      )

  do_flush-FitsAll :
      (failed : Bool) (current : Option ℕ) (key : Key) (agg : Aggregator)
      → FitsAll agg
      → FitsAll (do_flush failed current key agg)
  unfolding do_flush
  do_flush-FitsAll failed current key agg h =
      flush_bucket-FitsAll failed current key (popped key agg.buckets)
        (photos_in (popped key agg.buckets)) agg refl refl h

  -- Every batch that the adapter is handed has at least one photo and at most max_photos, and no
  -- bucket holds more.
  pub Reaches-FitsAll :
      {arrived : List ℕ} {agg : Aggregator} → Reaches max_photos arrived agg → FitsAll agg
  unfolding delayed_flush cancel_all
  Reaches-FitsAll started = (tt, tt)
  Reaches-FitsAll (added chat_id group_id photo caption message_id {arrived} {agg} r) =
      add-FitsAll chat_id group_id photo caption message_id agg (Reaches-FitsAll r)
  Reaches-FitsAll (ran_out failed timer {arrived} {agg} r) =
      let woken = record agg { timers = cancel_task (some timer.task) agg.timers } in
      do_flush-FitsAll failed (some timer.task) timer.key woken (Reaches-FitsAll r)
  Reaches-FitsAll (text_came failed key {arrived} {agg} r) =
      do_flush-FitsAll failed none key agg (Reaches-FitsAll r)
  Reaches-FitsAll (stopped {arrived} {agg} r) = (tt, (Reaches-FitsAll r).1)
