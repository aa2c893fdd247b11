-- ===== src/Runtime/Request.antt =====
-- The requests of src/nscde_wayland_common/runtime-client.c: `nscde_runtime_query_topic`,
-- `..._ctl_workspace_switch`, `..._publish_topic`, `..._publisher_open`, `..._publisher_send`,
-- `..._publisher_close` and `..._subscribe_topics`. Beside its result each operation gives the
-- bytes that the socket took.
pub mod Queries
pub mod Publishing
pub mod Subscribing
use orca_cde.Prelude.{
  ℕ, ◌+◌, ◌*◌, Bool, true, false, ◌&&◌, ◌||◌, Option, none, some, List, [], ◌∷◌, ◌++◌,
  if◌then◌else◌, length, Bytes, codes, is_nil, equal, clip,
}
use orca_cde.Runtime.Frame.{
  Frame, FrameType, untyped, state, snapshot, event, ack, error, empty_frame, field_len,
  parse_frame_metadata,
}
use orca_cde.Runtime.Subscription.{Subscription, subscription_close, framed}
use orca_cde.Runtime.Transport.{
  path_max, Environment, Peer, connect_runtime_socket, send_frame_request, read_response_frame,
}

-- `struct nscde_runtime_publisher`; `none` is the descriptor -1.
pub record Publisher : Type 0 where
  pub fd : Option ℕ

abbrev pub is_ack : FrameType → Bool
is_ack ack = true
is_ack _ = false

abbrev pub is_state : FrameType → Bool
is_state state = true
is_state _ = false

abbrev pub query_text : Bytes → Bytes
query_text topic = codes "TYPE=query\nTOPIC=" ++ (topic ++ codes "\n\n")

abbrev pub switch_text : Bytes → Bytes
switch_text name = codes "TYPE=command\nNAME=workspace-switch\nWORKSPACE=" ++ (name ++ codes "\n\n")

abbrev pub publish_text : Bytes → Bytes → Bytes
publish_text topic contents =
    codes "TYPE=command\nNAME=publish-state\nTOPIC="
    ++ (topic ++ (codes "\n" ++ (contents ++ codes "\n")))

abbrev pub stream_text : Bytes → Bytes → Bytes
stream_text role topics =
    codes "TYPE=publish-stream\nROLE=" ++ (role ++ (codes "\nTOPICS=" ++ (topics ++ codes "\n\n")))

abbrev pub send_text : Bytes → Bytes → Bytes
send_text topic contents =
    codes "TYPE=state\nTOPIC=" ++ (topic ++ (codes "\n" ++ (contents ++ codes "\n")))

abbrev pub subscribe_text : Bytes → Bytes
subscribe_text topics =
    codes "TYPE=subscribe-events\nTOPICS=" ++ (topics ++ codes "\nBOOTSTRAP=1\n\n")

-- `contents ? contents : ""`
abbrev pub or_empty : Option Bytes → Bytes
or_empty none = []
or_empty (some s) = s

-- Whether there is a response, and it is an acknowledgement.
abbrev pub acknowledged : Option Bytes → Bool
acknowledged none = false
acknowledged (some text) = is_ack (framed text).type

-- The topic of the response, where it names one, is the one asked for.
unfoldable pub answer_of : Bytes → Option Bytes → Option Bytes
answer_of topic none = none
answer_of topic (some text) =
    let frame = framed text in
    if is_state frame.type
    then if is_nil frame.topic || equal frame.topic topic then some text else none
    else none

-- The sizes that `nscde_runtime_publish_topic` and `..._publisher_send` allocate for a request.
abbrev pub publish_len : Bytes → Bytes → ℕ
publish_len topic contents = length topic + length contents + 32

abbrev pub send_len : Bytes → Bytes → ℕ
send_len topic contents = length topic + length contents + 24

module _ (alloc : ℕ → Bool) (env : Environment) (peer : Peer) where
  -- The request is written, and the response read where all of it went out.
  pub exchange : Bytes → Option Bytes × Bytes
  exchange request =
      let (done, sent) = send_frame_request request peer.accepts in
      (if done then read_response_frame alloc peer.answers else none, sent)

  -- Connect, exchange, close.
  pub ask : Bytes → Option Bytes × Bytes
  ask request = elim (connect_runtime_socket env peer) [
    | none ↦ (none, [])
    | some fd ↦ exchange request
  ]

  -- The contents, into a buffer for the request of 2 * NSCDE_RUNTIME_FIELD_LEN bytes.
  unfoldable pub query_topic : Bytes → Option Bytes × Bytes
  unfolding ask exchange
  query_topic topic =
      let (response, sent) = ask (clip (field_len * 2) (query_text topic)) in
      if is_nil topic then (none, []) else (answer_of topic response, sent)

  unfoldable pub ctl_workspace_switch : Bytes → Bool × Bytes
  unfolding ask exchange
  ctl_workspace_switch name =
      let (response, sent) = ask (clip path_max (switch_text name)) in
      if is_nil name then (false, []) else (acknowledged response, sent)

  unfoldable pub publish_topic : Bytes → Option Bytes → Bool × Bytes
  unfolding ask exchange
  publish_topic topic contents =
      let size = publish_len topic (or_empty contents) in
      let (response, sent) = ask (clip size (publish_text topic (or_empty contents))) in
      if is_nil topic
      then (false, [])
      else if alloc size
      then (acknowledged response, sent)
      else (false, [])

  -- The publisher's old descriptor is closed when it gets the new one.
  unfoldable pub publisher_open : Bytes → Bytes → Publisher → Bool × Publisher × Bytes
  unfolding exchange
  publisher_open role topics publisher =
      let (response, sent) = exchange (clip path_max (stream_text role topics)) in
      if is_nil role || is_nil topics
      then (false, publisher, [])
      else elim (connect_runtime_socket env peer) [
        | none ↦ (false, publisher, [])
        | some fd ↦
            if acknowledged response
            then (true, record { fd = some fd }, sent)
            else (false, publisher, sent)
      ]

  unfoldable pub publisher_send : Publisher → Bytes → Option Bytes → Bool × Bytes
  publisher_send publisher topic contents =
      let size = send_len topic (or_empty contents) in
      let sent =
        send_frame_request (clip size (send_text topic (or_empty contents))) peer.accepts in
      elim publisher.fd [
        | none ↦ (false, [])
        | some fd ↦ if is_nil topic then (false, []) else if alloc size then sent else (false, [])
      ]

  -- The subscription's state is closed and cleared when it gets the new descriptor.
  unfoldable pub subscribe_topics : Bytes → Subscription → Bool × Subscription × Bytes
  subscribe_topics topics sub =
      let (done, sent) = send_frame_request (clip path_max (subscribe_text topics)) peer.accepts in
      if is_nil topics then (false, sub, []) else elim (connect_runtime_socket env peer) [
        | none ↦ (false, sub, [])
        | some fd ↦
            if done && peer.nonblock
            then (true, record (subscription_close sub) { fd = some fd }, sent)
            else (false, sub, sent)
      ]

-- `nscde_runtime_publisher_close`, the `close` of the descriptor aside.
unfoldable pub publisher_close : Publisher → Publisher
publisher_close publisher = record { fd = none }
