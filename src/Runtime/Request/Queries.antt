-- ===== src/Runtime/Request/Queries.antt =====
-- The results of `nscde_runtime_query_topic` of src/nscde_wayland_common/runtime-client.c.
use orca_cde.Prelude.{
  ℕ, ◌*◌, ◌≤◌, Bool, true, false, ◌||◌, Option, none, some, [], ◌∷◌, ◌≡◌, ◌⊎◌, inl, inr, refl, ap,
  ◌∙◌, arith, length, take, Bytes, is_nil, equal, equal_iff, clip, Bool-cases, Option-cases,
  clip_of_length-lt, subst, ◌<◌,
}
use orca_cde.Runtime.Buffer.Bounds.{Grants}
use orca_cde.Runtime.Frame.{field_len, FrameType, state}
use orca_cde.Runtime.Request.{is_state, answer_of, query_text, exchange, ask, query_topic}
use orca_cde.Runtime.Subscription.{find_frame_delim, framed}
use orca_cde.Runtime.Transport.Responses.{
  IsResponse, sent_back, read_response_frame-IsResponse, read_response_frame-first,
}
use orca_cde.Runtime.Transport.Sending.{
  Willing, taken, send_frame_request-sent, send_frame_request-sends,
}
use orca_cde.Runtime.Transport.{Environment, Peer, connect_runtime_socket, send_frame_request}

is_state-state : (t : FrameType) → is_state t ≡ true → t ≡ state
is_state-state state h = refl
is_state-state _ h = cc

is_nil-nil : (s : Bytes) → is_nil s ≡ true → s ≡ []
is_nil-nil [] h = refl
is_nil-nil (x ∷ s) h = cc

-- The answer is the response; its frame is a state of the topic asked for, or of none.
abbrev pub IsAnswer : Bytes → Bytes → Type 0
IsAnswer topic text =
    ((framed text).type ≡ state) × (((framed text).topic ≡ []) ⊎ ((framed text).topic ≡ topic))

answer_of_sound :
    (topic : Bytes) (response : Option Bytes) {text : Bytes}
    → answer_of topic response ≡ some text
    → (response ≡ some text) × IsAnswer topic text
unfolding answer_of
answer_of_sound topic none h = cc
answer_of_sound topic (some text) {text = answer} h =
    elim (Bool-cases (is_state (framed text).type)) [
      | inr e ↦ ground arith
      | inl e ↦ elim (Bool-cases (is_nil (framed text).topic || equal (framed text).topic topic)) [
        | inr d ↦ ground arith
        | inl d ↦
            let same : text ≡ answer = ground arith in
            (
              ap some same,
              subst (IsAnswer topic) same
                  (is_state-state (framed text).type e, named (framed text).topic d),
            )
      ]
    ]
  where
    named : (t : Bytes) → (is_nil t || equal t topic) ≡ true → (t ≡ []) ⊎ (t ≡ topic)
    named [] d = inl refl
    named (x ∷ t) d = inr ((equal_iff (x ∷ t) topic).0 d)

answer_of_complete :
    (topic text : Bytes)
    → (framed text).type ≡ state
    → (framed text).topic ≡ topic
    → answer_of topic (some text) ≡ some text
unfolding answer_of
answer_of_complete topic text t e = ground (arith, equal_iff (framed text).topic topic)

module _ (alloc : ℕ → Bool) (env : Environment) (peer : Peer) where
  -- A response is read only behind a request that went out whole.
  pub exchange-IsResponse :
      (request : Bytes) {text : Bytes}
      → (exchange alloc env peer request).0 ≡ some text
      → ((exchange alloc env peer request).1 ≡ request) × IsResponse text (sent_back peer.answers)
  unfolding exchange
  exchange-IsResponse request {text} h =
      elim (Bool-cases (send_frame_request request peer.accepts).0) [
        | inl done ↦ (
          send_frame_request-sent request peer.accepts done,
          read_response_frame-IsResponse alloc peer.answers (rw (done, exchange) at h),
        )
        | inr stopped ↦ cc (stopped, h)
      ]

  pub exchange-answered :
      (request : Bytes) {i : ℕ}
      → Grants alloc
      → Willing peer.accepts
      → length request ≤ taken peer.accepts
      → find_frame_delim (sent_back peer.answers) ≡ some i
      → exchange alloc env peer request ≡ (some (take i (sent_back peer.answers)), request)
  unfolding exchange
  exchange-answered request g w l h =
      rw (send_frame_request-sends request peer.accepts w l)
        (rw (read_response_frame-first alloc g peer.answers h) refl)

  pub ask-IsResponse :
      (request : Bytes) {text : Bytes}
      → (ask alloc env peer request).0 ≡ some text
      → ((ask alloc env peer request).1 ≡ request) × IsResponse text (sent_back peer.answers)
  unfolding ask
  ask-IsResponse request {text} h = elim (Option-cases (connect_runtime_socket env peer)) [
    | inl e ↦ ground arith
    | inr (fd, e) ↦ rw (e, ask) (exchange-IsResponse request (rw (e, ask) at h))
  ]

  -- A text that a query gives back is the first frame of what the runtime sent back, or the
  -- bytes before the first zero byte of it where there is no frame; its type is a state, its
  -- topic the one asked for or none, and the request, cut to its buffer, went out whole.
  pub query_topic_sound :
      (topic : Bytes) {text : Bytes}
      → (query_topic alloc env peer topic).0 ≡ some text
      → ((query_topic alloc env peer topic).1 ≡ clip (field_len * 2) (query_text topic))
        × IsResponse text (sent_back peer.answers)
        × IsAnswer topic text
  unfolding query_topic
  query_topic_sound topic {text} h = elim (Bool-cases (is_nil topic)) [
    | inl e ↦ ground arith
    | inr e ↦
        let request = clip (field_len * 2) (query_text topic) in
        let (came, answers) =
          answer_of_sound topic (ask alloc env peer request).0 (rw (e, query_topic) at h) in
        let (sent, responds) = ask-IsResponse request came in
        rw (e, query_topic) (sent, responds, answers)
  ]

  -- A query for a topic succeeds and gives back the first frame of the response, having sent
  -- the whole request, where memory is granted, the topic is not empty, the request fits its
  -- buffer, the client connects, the socket takes the request without an error, and the first
  -- frame sent back is a state of that topic.
  pub query_topic-answered :
      (topic : Bytes) {fd i : ℕ}
      → Grants alloc
      → is_nil topic ≡ false
      → length (query_text topic) < field_len * 2
      → connect_runtime_socket env peer ≡ some fd
      → Willing peer.accepts
      → length (query_text topic) ≤ taken peer.accepts
      → find_frame_delim (sent_back peer.answers) ≡ some i
      → (framed (take i (sent_back peer.answers))).type ≡ state
      → (framed (take i (sent_back peer.answers))).topic ≡ topic
      → query_topic alloc env peer topic
        ≡ (some (take i (sent_back peer.answers)), query_text topic)
  unfolding query_topic
  query_topic-answered topic g n short c w l h t e =
      rw (n, query_topic)
        (rw (clip_of_length-lt (field_len * 2) (query_text topic) short) (
          rw (c, ask)
            (ap (λ r. (answer_of topic r.0, r.1)) (exchange-answered (query_text topic) g w l h)
              ∙ ap (λ r. (r, query_text topic)) (answer_of_complete topic _ t e))))
