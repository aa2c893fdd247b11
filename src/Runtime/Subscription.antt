-- ===== src/Runtime/Subscription.antt =====
-- A subscription to runtime topics: `extract_frame_from_buffer`, `nscde_runtime_subscription_read`,
-- `..._drain`, `..._init` and `..._close` of src/nscde_wayland_common/runtime-client.c.
-- The kernel's answers to `read` are a list: the schedule of the socket.
pub mod Framing
pub mod Reads
pub mod Merging
pub mod Drain
pub mod Closing
use orca_cde.Prelude.{
  ℕ, zero, suc, ◌+◌, Bool, true, false, ◌&&◌, Option, none, some, List, [], ◌∷◌, ltb, ◌==◌,
  if◌then◌else◌, length, get_elem?, take, drop, replicate, Bytes, is_nil, starts_with,
}
use orca_cde.Runtime.Buffer.{Buffer, null, append_bytes}
use orca_cde.Runtime.Cache.{
  TopicCache, unused, topic_cache_max, find_topic_cache, merge_topic_cache, duplicates,
}
use orca_cde.Runtime.Frame.{
  Frame, FrameType, untyped, state, snapshot, event, ack, error, empty_frame, parse_frame_metadata,
}

-- What `read` returns: some bytes, nothing yet (EAGAIN), the end, or another error.
pub data Received : Type 0 where
  chunk : ℕ → Bytes → Received
  again : Received
  ended : Received
  broken : Received

pub data Outcome : Type 0 where
  interrupted : Outcome
  returns : Received → Outcome

abbrev pub Socket : Type 0
Socket = List Outcome

-- A call that a signal interrupts is made again. With no answer left there is nothing yet.
unfoldable pub read_retry : Socket → Received × Socket
read_retry [] = (again, [])
read_retry (interrupted ∷ s) = read_retry s
read_retry (returns r ∷ s) = (r, s)

-- `enum nscde_runtime_read_result`
pub data ReadResult : Type 0 where
  read_error read_none read_frame read_closed : ReadResult

-- `struct nscde_runtime_subscription`; `none` is the descriptor -1.
pub record Subscription : Type 0 where
  pub fd : Option ℕ
  pub buffer : Buffer
  pub topic_caches : List TopicCache

-- `nscde_runtime_subscription_init`
unfoldable pub subscription_init : Subscription
subscription_init = record {
  fd = none;
  buffer = null;
  topic_caches = replicate topic_cache_max unused;
}

-- The fields of an entry that `nscde_runtime_subscription_close` frees and clears.
abbrev cleared : TopicCache → TopicCache
cleared c = record c { topic = []; contents = null; active = false }

clear_all : List TopicCache → List TopicCache
clear_all [] = []
clear_all (c ∷ cs) = cleared c ∷ clear_all cs

-- `nscde_runtime_subscription_close`, the `close` of the descriptor aside.
unfoldable pub subscription_close : Subscription → Subscription
unfolding clear_all
subscription_close sub = record sub {
  fd = none;
  buffer = null;
  topic_caches = clear_all sub.topic_caches;
}

-- `strstr(text, "\n\n")`, which stops at a zero byte: the offset of the delimiter.
abbrev raise : Option ℕ → Option ℕ
raise none = none
raise (some i) = some (suc i)

unfoldable pub find_frame_delim : Bytes → Option ℕ
find_frame_delim [] = none
find_frame_delim (x ∷ s) =
    let later = raise (find_frame_delim s) in
    if x == 0 then none else if x == b'\n' && starts_with (b'\n' ∷ []) s then some 0 else later

abbrev is_merged : FrameType → Bool
is_merged snapshot = true
is_merged event = true
is_merged _ = false

pub record ReadStep : Type 0 where
  pub result : ReadResult
  pub frame : Frame
  pub sub : Subscription
  pub socket : Socket

abbrev pub framed : Bytes → Frame
framed text = parse_frame_metadata text (record empty_frame { contents = some text })

module _ (alloc : ℕ → Bool) where
  -- `extract_frame_from_buffer`
  pub extract_frame : Buffer → Option (Bytes × Buffer)
  extract_frame b = if is_nil b.text then none else elim (find_frame_delim b.text) [
    | none ↦ none
    | some i ↦
        if alloc (i + 1)
        then some (take i b.text, record b { text = drop (i + 2) b.text })
        else none
  ]

  -- The contents that a merged frame is handed over with: the topic's cache, copied.
  pub recall : Frame → Subscription → Socket → ReadStep
  recall frame sub socket =
      let (found, caches) = find_topic_cache sub.topic_caches frame.topic false in
      let bare = record frame { contents = none } in
      let nothing : ReadStep = record {
        result = read_frame;
        frame = bare;
        sub = sub;
        socket = socket;
      } in
      elim found [
        | none ↦ nothing
        | some i ↦ elim (get_elem? caches i) [
          | none ↦ nothing
          | some c ↦
              if is_nil c.contents.text
              then nothing
              else if duplicates alloc c.contents.text
              then record nothing { frame = record frame { contents = some c.contents.text } }
              else record nothing { result = read_error }
        ]
      ]

  -- A frame that has just been completed by what was received.
  pub deliver : Bytes → Subscription → Socket → ReadStep
  deliver text sub socket =
      let frame = framed text in
      let merged = record sub { topic_caches = merge_topic_cache alloc sub.topic_caches frame } in
      if is_merged frame.type
      then recall frame merged socket
      else record { result = read_frame; frame = frame; sub = sub; socket = socket }

  -- Bytes were received.
  pub receive : Bytes → Subscription → Socket → ReadStep
  receive bytes sub socket =
      let (done, buffer) = append_bytes alloc sub.buffer bytes in
      let stop = λ (r : ReadResult) (b : Buffer).
        let s : ReadStep = record {
          result = r;
          frame = empty_frame;
          sub = record sub { buffer = b };
          socket = socket;
        } in
        s in
      if done
      then elim (extract_frame buffer) [
        | none ↦ stop read_none buffer
        | some (text, rest) ↦ deliver text (record sub { buffer = rest }) socket
      ]
      else stop read_error buffer

  pub receive_any : Received → Subscription → Socket → ReadStep
  receive_any (chunk b bytes) sub socket = receive (b ∷ bytes) sub socket
  receive_any again sub socket = record {
    result = read_none;
    frame = empty_frame;
    sub = sub;
    socket = socket;
  }
  receive_any ended sub socket = record {
    result = read_closed;
    frame = empty_frame;
    sub = sub;
    socket = socket;
  }
  receive_any broken sub socket = record {
    result = read_error;
    frame = empty_frame;
    sub = sub;
    socket = socket;
  }

  -- The body of the read, on the descriptor.
  pub read_from : Option ℕ → Subscription → Socket → ReadStep
  read_from none sub socket = record {
    result = read_error;
    frame = empty_frame;
    sub = sub;
    socket = socket;
  }
  read_from (some fd) sub socket = elim (extract_frame sub.buffer) [
    | some (text, rest) ↦ record {
      result = read_frame;
      frame = framed text;
      sub = record sub { buffer = rest };
      socket = socket;
    }
    | none ↦ let (received, later) = read_retry socket in receive_any received sub later
  ]

  -- `nscde_runtime_subscription_read` into a cleared frame
  unfoldable pub subscription_read : Subscription → Socket → ReadStep
  unfolding read_from extract_frame receive_any receive deliver recall
  subscription_read sub socket = read_from sub.fd sub socket
