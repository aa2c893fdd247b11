-- ===== src/Tests/Caches.antt =====
-- Frames that are parsed, and merged into a table of caches.
use orca_cde.Prelude.{
  true, List, [], ◌≡◌, ◌≢◌, inl, inr, refl, arith, replicate, none, some, Bytes, codes,
  All-replicate, length-replicate, starts_with, split, clip, equal,
}
use orca_cde.Runtime.Buffer.{Buffer, null}
use orca_cde.Runtime.Cache.Overlay.{Holds, Holds-null, merged, merge_contents-Holds}
use orca_cde.Runtime.Cache.Slots.{
  IsEntry, cache_of, has_room, held_or_null, merge_topic_cache-cache_of,
}
use orca_cde.Runtime.Cache.Valid.{IsTable, merge_topic_cache-IsTable}
use orca_cde.Runtime.Cache.{TopicCache, unused, topic_cache_max, merge_contents, merge_topic_cache}
use orca_cde.Runtime.Frame.Metadata.{
  IsBounded, parse_frame_metadata-IsBounded, IsTopic, is_body, state_text, parse-state_text,
}
use orca_cde.Runtime.Frame.{Frame, snapshot, state, empty_frame, parse_frame_metadata, strip_cr}
use orca_cde.Runtime.Subscription.Merging.{handed, deliver-merged}
use orca_cde.Runtime.Subscription.{Subscription, framed, deliver}
use orca_cde.Tests.{plenty, plenty-Grants}

-- A snapshot of the topic `desk`, and its text.
abbrev news : Bytes
news = codes "TYPE=snapshot\nTOPIC=desk\nname=one"

abbrev frame : Frame
frame = record empty_frame {
  type = snapshot;
  topic = codes "desk";
  unset = codes "old";
  contents = some news;
}

abbrev table : List TopicCache
table = replicate topic_cache_max unused

table-IsTable : IsTable table
table-IsTable = record {
  full_size = length-replicate topic_cache_max unused;
  entries =
      All-replicate IsEntry topic_cache_max unused
        (record { idle = λ h. refl; short = omega arith; fits = inl (refl, refl) });
}

merge_contents-Holds_example :
    Holds (merge_contents plenty frame news null) (merged frame news (λ key. none))
merge_contents-Holds_example =
    merge_contents-Holds plenty plenty-Grants frame news {b = null} {m = λ key. none}
      (refl, (refl, (refl, tt))) Holds-null

merge_topic_cache-cache_of_example :
    (cache_of (codes "desk") (merge_topic_cache plenty table frame)
      ≡ some (merge_contents plenty frame news (held_or_null (cache_of (codes "desk") table))))
    × ((other : Bytes)
        → other ≢ codes "desk"
        → cache_of other (merge_topic_cache plenty table frame) ≡ cache_of other table)
unfolding has_room
merge_topic_cache-cache_of_example =
    merge_topic_cache-cache_of plenty table frame news refl refl (omega arith) table-IsTable.entries
      (inr refl)

-- Every entry is taken by the topic `a`.
abbrev crowded : List TopicCache
crowded = replicate topic_cache_max (record { topic = codes "a"; contents = null; active = true })

merge_topic_cache-IsTable_example : IsTable (merge_topic_cache plenty table frame)
merge_topic_cache-IsTable_example = merge_topic_cache-IsTable plenty table frame table-IsTable

empty_frame-IsBounded : IsBounded empty_frame
empty_frame-IsBounded = omega arith

parse_frame_metadata-IsBounded_example : IsBounded (parse_frame_metadata news empty_frame)
parse_frame_metadata-IsBounded_example =
    parse_frame_metadata-IsBounded news empty_frame empty_frame-IsBounded

desk-IsTopic : IsTopic (codes "desk")
unfolding strip_cr
desk-IsTopic = record {
  no_newline = (refl, (refl, (refl, (refl, tt))));
  no_return = refl;
  something = refl;
  short = omega arith;
}

parse-state_text_example :
    parse_frame_metadata (state_text (codes "desk") (codes "name=one\n")) empty_frame
    ≡ record empty_frame { type = state; topic = codes "desk" }
unfolding is_body split starts_with
parse-state_text_example =
    parse-state_text (codes "desk") (codes "name=one\n") empty_frame desk-IsTopic (refl, (refl, tt))

abbrev waiting : Subscription
waiting = record { fd = some 3; buffer = null; topic_caches = table }

deliver-merged_example :
    (b : Buffer) × Holds b (merged (framed news) news (λ key. none))
    × (cache_of (framed news).topic (deliver plenty news waiting []).sub.topic_caches ≡ some b)
    × ((deliver plenty news waiting []).frame.contents ≡ handed b)
unfolding parse_frame_metadata has_room split equal starts_with clip cache_of
deliver-merged_example =
    deliver-merged plenty plenty-Grants news waiting [] {m = λ key. none} refl refl tt table-IsTable
      (inr refl) Holds-null
