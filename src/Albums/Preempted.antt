-- ===== src/Albums/Preempted.antt =====
-- What a text does to the albums of its chat (src/assistant/adapters/media_group.py).
use xone_assistant.Prelude.{
  ℕ, ◌≡◌, refl, ap, sym, ◌∙◌, arith, Bool, true, false, Bool-cases, Option, none, some, List, [],
  ◌∷◌, inl, inr, ◌==◌, str_eq_iff, All, ==_iff,
}
use xone_assistant.Albums.{
  Bucket, Key, Aggregator, is_key, key_of, popped, pop_bucket, flush_bucket, photos_in, do_flush,
  flush_keys, keys_of, flush_for_chat,
}

abbrev pops : List Key → List Bucket → List Bucket
pops [] buckets = buckets
pops (key ∷ keys) buckets = pops keys (pop_bucket key buckets)

pop_bucket-none :
    (key : Key) (buckets : List Bucket)
    → popped key buckets ≡ none
    → pop_bucket key buckets ≡ buckets
unfolding pop_bucket popped
pop_bucket-none key [] h = refl
pop_bucket-none key (b ∷ buckets) h = elim (Bool-cases (is_key key b)) [
  | inl e ↦ let h' : some b ≡ none = rw e at h in absurd (cc (h'))
  | inr e ↦ rw e (ap (◌∷◌ b) (pop_bucket-none key buckets (rw e at h)))
]

flush_bucket-buckets :
    (failed : Bool) (current : Option ℕ) (key : Key) (found : Option Bucket) (photos : List ℕ)
    (agg : Aggregator)
    → popped key agg.buckets ≡ found
    → (flush_bucket failed current key found photos agg).buckets ≡ pop_bucket key agg.buckets
flush_bucket-buckets failed current key none photos agg e = sym (pop_bucket-none key agg.buckets e)
flush_bucket-buckets failed current key (some b) [] agg e = refl
flush_bucket-buckets failed current key (some b) (photo ∷ photos) agg e = refl

flush_keys-buckets :
    (failed : Key → Bool) (keys : List Key) (agg : Aggregator)
    → (flush_keys failed keys agg).buckets ≡ pops keys agg.buckets
unfolding flush_keys do_flush
flush_keys-buckets failed [] agg = refl
flush_keys-buckets failed (key ∷ keys) agg =
    let one =
      flush_bucket-buckets (failed key) none key (popped key agg.buckets)
        (photos_in (popped key agg.buckets)) agg refl in
    flush_keys-buckets failed keys (do_flush (failed key) none key agg) ∙ ap (pops keys) one

key_of-is_key : (b : Bucket) → is_key (key_of b) b ≡ true
key_of-is_key b = ground (arith, str_eq_iff b.group_id b.group_id)

abbrev Of : ℕ → Key → Type 0
Of chat_id key = key.0 ≡ chat_id

keys_of-Of : (chat_id : ℕ) (buckets : List Bucket) → All (Of chat_id) (keys_of chat_id buckets)
keys_of-Of chat_id [] = tt
keys_of-Of chat_id (b ∷ buckets) = elim (Bool-cases (b.chat_id == chat_id)) [
  | inl e ↦ rw e ((==_iff b.chat_id chat_id).0 e, keys_of-Of chat_id buckets)
  | inr e ↦ rw e (keys_of-Of chat_id buckets)
]

-- A bucket of another chat stays in front.
pops-other :
    (chat_id : ℕ) (keys : List Key) (b : Bucket) (buckets : List Bucket)
    → (b.chat_id == chat_id) ≡ false
    → All (Of chat_id) keys
    → pops keys (b ∷ buckets) ≡ b ∷ pops keys buckets
unfolding pop_bucket
pops-other chat_id [] b buckets h hs = refl
pops-other chat_id ((chat, group_id) ∷ keys) b buckets h (k, hs) =
    let away : is_key (chat, group_id) b ≡ false = rw k (ground (arith, h)) in
    rw away (pops-other chat_id keys b (pop_bucket (chat, group_id) buckets) h hs)

pops-keys_of :
    (chat_id : ℕ) (buckets : List Bucket)
    → keys_of chat_id (pops (keys_of chat_id buckets) buckets) ≡ []
unfolding pop_bucket
pops-keys_of chat_id [] = refl
pops-keys_of chat_id (b ∷ buckets) = elim (Bool-cases (b.chat_id == chat_id)) [
  | inl e ↦
      let keys : keys_of chat_id (b ∷ buckets) ≡ key_of b ∷ keys_of chat_id buckets = rw e in
      let gone : pop_bucket (key_of b) (b ∷ buckets) ≡ buckets = rw (key_of-is_key b) in
      ap (λ ks. keys_of chat_id (pops ks (b ∷ buckets))) keys
      ∙ ap (λ bs. keys_of chat_id (pops (keys_of chat_id buckets) bs)) gone
      ∙ pops-keys_of chat_id buckets
  | inr e ↦
      let front =
        pops-other chat_id (keys_of chat_id buckets) b buckets e (keys_of-Of chat_id buckets) in
      rw (e, front, e) (pops-keys_of chat_id buckets)
]

-- When a text arrives, no album of its chat is left waiting: all are handed over in its place.
pub flush_for_chat-keys_of :
    (failed : Key → Bool) (chat_id : ℕ) (agg : Aggregator)
    → keys_of chat_id (flush_for_chat failed chat_id agg).buckets ≡ []
unfolding flush_for_chat
flush_for_chat-keys_of failed chat_id agg =
    ap (keys_of chat_id) (flush_keys-buckets failed (keys_of chat_id agg.buckets) agg)
    ∙ pops-keys_of chat_id agg.buckets
