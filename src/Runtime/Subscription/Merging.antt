-- ===== src/Runtime/Subscription/Merging.antt =====
-- The frames that `nscde_runtime_subscription_read` of src/nscde_wayland_common/runtime-client.c
-- hands over, with their caches.
use orca_cde.Prelude.{
  ℕ, ◌+◌, ◌<◌, Bool, true, false, Option, none, some, List, ◌++◌, ◌≡◌, ◌≢◌, refl, ap, ◌∙◌, ◌⊎◌,
  arith, if◌then◌else◌, length, get_elem?, Bytes, is_nil, Lacks,
}
use orca_cde.Runtime.Buffer.Bounds.{Grants}
use orca_cde.Runtime.Buffer.{Buffer}
use orca_cde.Runtime.Cache.Overlay.{Holds, merged, merge_contents-Holds}
use orca_cde.Runtime.Cache.Slots.{
  cache_of, has_room, held_or_null, find_active-get, merge_topic_cache-cache_of,
}
use orca_cde.Runtime.Cache.Valid.{IsTable}
use orca_cde.Runtime.Cache.{
  TopicCache, find_active, find_topic_cache, merge_topic_cache, merge_contents,
}
use orca_cde.Runtime.Frame.Metadata.{parse_frame_metadata-contents, parse_frame_metadata-IsBounded}
use orca_cde.Runtime.Frame.{Frame, field_len, empty_frame}
use orca_cde.Runtime.Subscription.Framing.{delim, IsFrameText}
use orca_cde.Runtime.Subscription.Reads.{read-buffered, extract_frame-first}
use orca_cde.Runtime.Subscription.{
  Socket, Subscription, read_frame, is_merged, framed, recall, deliver, subscription_read,
}

find-cache_of :
    (caches : List TopicCache) (topic : Bytes) {b : Buffer}
    → is_nil topic ≡ false
    → cache_of topic caches ≡ some b
    → (i : ℕ) × (find_topic_cache caches topic false ≡ (some i, caches))
      × (c : TopicCache) × (get_elem? caches i ≡ some c)
      × (c.contents ≡ b)
find-cache_of caches topic {b} n h =
    let (k, found, c, at, holds) = find_active-get topic 0 caches {b = b} h in
    (k, eq (found ∙ ap some (omega arith)), c, at, holds)
  where
    eq :
        {k : ℕ}
        → find_active 0 topic caches ≡ some k
        → find_topic_cache caches topic false ≡ (some k, caches)
    eq e = unfold find_topic_cache in rw (n, e)

abbrev pub handed : Buffer → Option Bytes
handed b = if is_nil b.text then none else some b.text

abbrev start : Bytes → Frame
start text = record empty_frame { contents = some text }

short : (text : Bytes) → length (framed text).topic < field_len
short text = (parse_frame_metadata-IsBounded text (start text) (omega arith)).topic_fits

deliver-recall :
    (alloc : ℕ → Bool) (text : Bytes) (sub : Subscription) (socket : Socket)
    → is_merged (framed text).type ≡ true
    → deliver alloc text sub socket
      ≡ recall alloc
          (framed text)
          (record sub { topic_caches = merge_topic_cache alloc sub.topic_caches (framed text) })
          socket
unfolding deliver
deliver-recall alloc text sub socket t = rw t

module _ (alloc : ℕ → Bool) (grants : Grants alloc) where
  -- With its topic's cache there, a frame is handed over with the cache's text.
  recall-handed :
      (frame : Frame) (sub : Subscription) (socket : Socket) {b : Buffer}
      → is_nil frame.topic ≡ false
      → cache_of frame.topic sub.topic_caches ≡ some b
      → ((recall alloc frame sub socket).frame.contents ≡ handed b)
        × ((recall alloc frame sub socket).sub ≡ sub)
  unfolding recall
  recall-handed frame sub socket {b} n h =
      let (i, found, c, at, holds) = find-cache_of sub.topic_caches frame.topic {b = b} n h in
      ground (arith, found, at, holds, grants (length c.contents.text + 1))

  -- A snapshot or event that a read completes, with a topic that has an entry or finds room for
  -- one, with no equals sign in its unset list, a valid table and memory granted, is merged
  -- into its topic's cache, which then stands for the map of the specification, and is handed
  -- over with the text of the whole cache.
  pub deliver-merged :
      (text : Bytes) (sub : Subscription) (socket : Socket) {m : Bytes → Option Bytes}
      → is_merged (framed text).type ≡ true
      → is_nil (framed text).topic ≡ false
      → Lacks b'=' (framed text).unset
      → IsTable sub.topic_caches
      → (cache_of (framed text).topic sub.topic_caches ≢ none) ⊎ (has_room sub.topic_caches ≡ true)
      → Holds (held_or_null (cache_of (framed text).topic sub.topic_caches)) m
      → (b : Buffer) × Holds b (merged (framed text) text m)
        × (cache_of (framed text).topic (deliver alloc text sub socket).sub.topic_caches ≡ some b)
        × ((deliver alloc text sub socket).frame.contents ≡ handed b)
  deliver-merged text sub socket {m} t n u valid room h =
      let frame = framed text in
      let sub' : Subscription = record sub {
        topic_caches = merge_topic_cache alloc sub.topic_caches frame;
      } in
      let contents-is = parse_frame_metadata-contents text (start text) in
      let (cached, _) =
        merge_topic_cache-cache_of alloc sub.topic_caches frame text contents-is n (short text)
          valid.entries room in
      let (contents, same) = recall-handed frame sub' socket n cached in
      (
        merge_contents alloc frame text (held_or_null (cache_of frame.topic sub.topic_caches)),
        merge_contents-Holds alloc grants frame text u h,
        rw (deliver-recall alloc text sub socket t) (rw same cached),
        rw (deliver-recall alloc text sub socket t) (contents),
      )

  -- Where memory is granted, a connected subscription whose buffer begins with a complete frame
  -- hands this frame over with its bare text, without reading the socket, and leaves the topic
  -- caches as they are, whatever the frame's type.
  pub buffered_unmerged :
      (sub : Subscription) (socket : Socket) (text : Bytes) {fd : ℕ} {rest : Bytes}
      → sub.fd ≡ some fd
      → IsFrameText text
      → sub.buffer.text ≡ text ++ (delim ++ rest)
      → ((subscription_read alloc sub socket).result ≡ read_frame)
        × ((subscription_read alloc sub socket).frame.contents ≡ some text)
        × ((subscription_read alloc sub socket).sub.topic_caches ≡ sub.topic_caches)
        × ((subscription_read alloc sub socket).sub.buffer.text ≡ rest)
        × ((subscription_read alloc sub socket).socket ≡ socket)
  buffered_unmerged sub socket text {fd} {rest} f first e =
      let (b, found, b-is) = extract_frame-first alloc grants sub.buffer text rest first e in
      rw (read-buffered alloc sub socket {text = text} {rest = b} f found)
        (refl, parse_frame_metadata-contents text (start text), refl, b-is, refl)
