-- ===== src/Albums/Examples.antt =====
-- An album of three photos, where two are allowed (src/assistant/adapters/media_group.py).
use xone_assistant.Prelude.{◌≡◌, refl, false, none, [], ◌∷◌}
use xone_assistant.Albums.{
  Aggregator, empty, add, do_flush, bucket_at, set_bucket, popped, pop_bucket,
}
use xone_assistant.Albums.Photos.{
  times, times_seen, Reaches, started, added, text_came, Reaches-times_seen,
}
use xone_assistant.Albums.Sizes.{FitsAll, Reaches-FitsAll}

abbrev three : Aggregator
three = add 2 7 "g" 13 "" 103 (add 2 7 "g" 12 "sea" 102 (add 2 7 "g" 11 "" 101 empty))

abbrev after_text : Aggregator
after_text = do_flush false none (7, "g") three

reached : Reaches 2 (13 ∷ 12 ∷ 11 ∷ []) after_text
reached =
    text_came false (7, "g")
      (added 7 "g" 13 "" 103 (added 7 "g" 12 "sea" 102 (added 7 "g" 11 "" 101 started)))

Reaches-times_seen_example : times_seen 12 after_text ≡ times 12 (13 ∷ 12 ∷ 11 ∷ [])
Reaches-times_seen_example = Reaches-times_seen 2 12 reached

Reaches-FitsAll_example : FitsAll 2 after_text
Reaches-FitsAll_example = Reaches-FitsAll 2 reached

-- The third photo is refused with one notice, and the batch has the caption and the first id.
flushed_once :
    (after_text.flushed
      ≡ record {
        chat_id = 7;
        group_id = "g";
        paths = 11 ∷ 12 ∷ [];
        caption = "sea";
        first_message_id = 101;
        failed = false;
      }
        ∷ [])
    × (after_text.refused ≡ 13 ∷ [])
    × (after_text.notices ≡ 7 ∷ [])
    × (after_text.timers ≡ [])
unfolding do_flush add bucket_at set_bucket popped pop_bucket
flushed_once = (refl, refl, refl, refl)
