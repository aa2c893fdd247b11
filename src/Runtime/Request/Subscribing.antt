-- ===== src/Runtime/Request/Subscribing.antt =====
-- The results of `nscde_runtime_subscribe_topics` and `nscde_runtime_publisher_open` of
-- src/nscde_wayland_common/runtime-client.c.
use orca_cde.Prelude.{
  ℕ, Bool, true, false, ◌&&◌, ◌||◌, Option, none, some, ◌≡◌, ◌≢◌, ◌⊎◌, inl, inr, refl, arith, Bytes,
  is_nil, clip, Bool-cases, Option-cases,
}
use orca_cde.Runtime.Frame.{FrameType, ack}
use orca_cde.Runtime.Request.Queries.{exchange-IsResponse}
use orca_cde.Runtime.Request.{
  Publisher, exchange, is_ack, acknowledged, stream_text, publisher_open, subscribe_text,
  subscribe_topics,
}
use orca_cde.Runtime.Subscription.Closing.{IsCleared, subscription_close-IsCleared}
use orca_cde.Runtime.Subscription.{Subscription, subscription_close, framed}
use orca_cde.Runtime.Transport.Responses.{IsResponse, sent_back}
use orca_cde.Runtime.Transport.Sending.{send_frame_request-sent}
use orca_cde.Runtime.Transport.{
  path_max, Environment, Peer, connect_runtime_socket, send_frame_request,
}

-- A subscription on a new descriptor, with nothing of an earlier one in it.
pub record IsFresh (fd : Option ℕ) (sub : Subscription) : Type 0 where
  pub connected : fd ≢ none
  pub on_socket : sub.fd ≡ fd
  pub cleared : IsCleared sub

reopened-IsFresh :
    (fd : ℕ) (sub : Subscription)
    → IsFresh (some fd) (record (subscription_close sub) { fd = some fd })
reopened-IsFresh fd sub =
    let closed = subscription_close-IsCleared sub in
    record {
      connected = λ e. cc e;
      on_socket = refl;
      cleared = record { no_bytes = closed.no_bytes; no_topics = closed.no_topics };
    }

&&-left : (a b : Bool) → (a && b) ≡ true → a ≡ true
&&-left a b h = ground arith

-- `framed` of a response that is an acknowledgement.
acknowledged-ack :
    (response : Option Bytes)
    → acknowledged response ≡ true
    → (text : Bytes) × (response ≡ some text) × ((framed text).type ≡ ack)
acknowledged-ack none h = cc
acknowledged-ack (some text) h = (text, refl, is_ack-ack (framed text).type h)
  where
    is_ack-ack : (t : FrameType) → is_ack t ≡ true → t ≡ ack
    is_ack-ack ack e = refl
    is_ack-ack _ e = cc

-- True with a fresh subscription on the connected descriptor and the request sent whole, or false
-- with the subscription as it was.
abbrev pub Subscribes : Option ℕ → Bytes → Subscription → Bool × Subscription × Bytes → Type 0
Subscribes fd topics sub (done, sub', sent) =
    ((done ≡ true) × IsFresh fd sub' × (sent ≡ clip path_max (subscribe_text topics)))
    ⊎ ((done ≡ false) × (sub' ≡ sub))

-- True with the connected descriptor, where the request was sent whole and the response to it is an
-- acknowledgement, or false with the publisher as it was.
abbrev pub Opens : Option ℕ → Bytes → Bytes → Bytes → Publisher → Bool × Publisher × Bytes → Type 0
Opens fd came role topics publisher (done, publisher', sent) =
    ((done ≡ true)
      × (publisher'.fd ≡ fd)
      × (sent ≡ clip path_max (stream_text role topics))
      × ((text : Bytes) × IsResponse text came × ((framed text).type ≡ ack)))
    ⊎ ((done ≡ false) × (publisher' ≡ publisher))

module _ (alloc : ℕ → Bool) (env : Environment) (peer : Peer) where
  -- Subscribing returns true with the subscription on the connected descriptor, its buffer and
  -- topic caches cleared, and the whole request, cut to PATH_MAX_LEN bytes, sent; or it returns
  -- false with the subscription as it was.
  pub subscribe_topics-Subscribes :
      (topics : Bytes) (sub : Subscription)
      → Subscribes
          (connect_runtime_socket env peer)
          topics
          sub
          (subscribe_topics alloc env peer topics sub)
  unfolding subscribe_topics
  subscribe_topics-Subscribes topics sub = elim (Bool-cases (is_nil topics)) [
    | inl n ↦ rw (n, subscribe_topics) (inr (refl, refl))
    | inr n ↦ elim (Option-cases (connect_runtime_socket env peer)) [
      | inl c ↦ rw (n, subscribe_topics) (rw c (inr (refl, refl)))
      | inr (fd, c) ↦
          let request = clip path_max (subscribe_text topics) in
          elim (Bool-cases ((send_frame_request request peer.accepts).0 && peer.nonblock)) [
            | inr d ↦ rw (n, subscribe_topics) (rw c (rw d (inr (refl, refl))))
            | inl d ↦
                let sent = send_frame_request-sent request peer.accepts (&&-left _ _ d) in
                rw (n, subscribe_topics) (rw c (rw d (inl (refl, reopened-IsFresh fd sub, sent))))
          ]
    ]
  ]

  -- Opening a publisher returns true with the connected descriptor, where the whole request,
  -- cut to PATH_MAX_LEN bytes, was sent and the response, the first frame of what came back or
  -- the bytes before its first zero byte where there is no frame, is an acknowledgement; or it
  -- returns false with the publisher as it was.
  pub publisher_open-Opens :
      (role topics : Bytes) (publisher : Publisher)
      → Opens
          (connect_runtime_socket env peer)
          (sent_back peer.answers)
          role
          topics
          publisher
          (publisher_open alloc env peer role topics publisher)
  unfolding publisher_open
  publisher_open-Opens role topics publisher =
      let request = clip path_max (stream_text role topics) in
      elim (Bool-cases (is_nil role || is_nil topics)) [
        | inl n ↦ rw (n, publisher_open) (inr (refl, refl))
        | inr n ↦ elim (Option-cases (connect_runtime_socket env peer)) [
          | inl c ↦ rw (n, publisher_open) (rw c (inr (refl, refl)))
          | inr (fd, c) ↦ elim (Bool-cases (acknowledged (exchange alloc env peer request).0)) [
            | inr a ↦ rw (n, publisher_open) (rw c (rw a (inr (refl, refl))))
            | inl a ↦
                let (text, came, is-ack) = acknowledged-ack _ a in
                let (sent, responds) = exchange-IsResponse alloc env peer request came in
                rw (n, publisher_open)
                  (rw c (rw a (inl (refl, refl, sent, (text, responds, is-ack)))))
          ]
        ]
      ]
