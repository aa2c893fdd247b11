-- ===== src/Runtime/Request/Publishing.antt =====
-- The requests of `nscde_runtime_publish_topic` and `nscde_runtime_publisher_send` of
-- src/nscde_wayland_common/runtime-client.c.
use orca_cde.Prelude.{
  ℕ, ◌+◌, ◌-◌, ◌≤◌, Bool, true, Option, [], ◌++◌, ◌≡◌, subst, inl, inr, refl, sym, ap, ◌∙◌, arith,
  length, length-append, length-drop, take, drop, Bytes, codes, is_nil, clip, Bool-cases,
  Option-cases, append_assoc, clip_of_length-lt,
}
use orca_cde.Runtime.Request.{
  Publisher, exchange, ask, publish_text, publish_len, publish_topic, send_text, send_len,
  publisher_send, or_empty,
}
use orca_cde.Runtime.Transport.Sending.{
  send_frame_request-whole, send_frame_request-sent, take-drop,
}
use orca_cde.Runtime.Transport.{Environment, Peer, connect_runtime_socket, send_frame_request}

length-send_text :
    (topic contents : Bytes)
    → length (send_text topic contents) ≡ length topic + length contents + 19
length-send_text topic contents = omega (
  arith,
  length-append topic (codes "\n" ++ (contents ++ codes "\n")),
  length-append contents (codes "\n"),
)

length-publish_text :
    (topic contents : Bytes)
    → length (publish_text topic contents) ≡ length topic + length contents + 40
length-publish_text topic contents = omega (
  arith,
  length-append topic (codes "\n" ++ (contents ++ codes "\n")),
  length-append contents (codes "\n"),
)

-- A publisher's send that returns true has put the whole state message on the wire, type,
-- topic, contents and last newline: the allocated buffer cuts nothing off.
pub publisher_send-whole :
    (alloc : ℕ → Bool) (env : Environment) (peer : Peer) (publisher : Publisher) (topic : Bytes)
    (contents : Option Bytes)
    → (publisher_send alloc env peer publisher topic contents).0 ≡ true
    → (publisher_send alloc env peer publisher topic contents).1
      ≡ send_text topic (or_empty contents)
unfolding publisher_send
publisher_send-whole alloc env peer publisher topic contents h = elim (Option-cases publisher.fd) [
  | inl e ↦ ground arith
  | inr (fd, e) ↦
      let text = send_text topic (or_empty contents) in
      let size = send_len topic (or_empty contents) in
      let fits =
        clip_of_length-lt size text (omega (arith, length-send_text topic (or_empty contents))) in
      elim (Bool-cases (is_nil topic)) [
        | inl n ↦ ground arith
        | inr n ↦ elim (Bool-cases (alloc size)) [
          | inr a ↦ ground arith
          | inl a ↦
              rw (e, n, publisher_send)
                (rw a (
                  rw fits (
                    send_frame_request-sent text peer.accepts (
                      subst (λ r. (send_frame_request r peer.accepts).0 ≡ true) fits
                        (rw (e, n, a, publisher_send) at h)))))
        ]
      ]
]

clip_long : (size : ℕ) (s : Bytes) → size ≤ length s → clip size s ≡ take (size - 1) s
unfolding clip
clip_long size s h = ground arith

module _ (alloc : ℕ → Bool) (env : Environment) (peer : Peer) where
  -- The bytes that an exchange puts on the wire are how its request begins.
  ask-sent :
      (request : Bytes) → (unsent : Bytes) × (request ≡ (ask alloc env peer request).1 ++ unsent)
  unfolding ask exchange
  ask-sent request = elim (Option-cases (connect_runtime_socket env peer)) [
    | inl e ↦ rw (e, ask) (request, refl)
    | inr (fd, e) ↦
        let (unsent, whole, all) = send_frame_request-whole request peer.accepts in
        rw (e, ask) (unsent, whole)
  ]

  abbrev Misses : Bytes → Bytes → Type 0
  Misses whole sent = (lost : Bytes) × (whole ≡ sent ++ lost) × (9 ≤ length lost)

  ask-Misses :
      (topic contents : Bytes)
      → Misses
          (publish_text topic contents)
          (ask alloc env peer (clip (publish_len topic contents) (publish_text topic contents))).1
  ask-Misses topic contents =
      let whole = publish_text topic contents in
      let n = publish_len topic contents - 1 in
      let long = length-publish_text topic contents in
      let size = publish_len topic contents in
      let clipped : clip size whole ≡ take n whole = clip_long size whole (omega (arith, long)) in
      let (unsent, e) = ask-sent (clip size whole) in
      (
        unsent ++ drop n whole,
        take-drop n whole
            ∙ ap (◌++ drop n whole) (sym clipped ∙ e)
            ∙ append_assoc _ unsent (drop n whole),
        omega (arith, long, length-drop n whole, length-append unsent (drop n whole)),
      )

  -- What a request to publish a topic's state puts on the wire is how the request begins, and
  -- at least the last nine bytes of the request are never sent.
  pub publish_topic-cut :
      (topic : Bytes) (contents : Option Bytes)
      → (lost : Bytes) × (publish_text topic (or_empty contents)
          ≡ (publish_topic alloc env peer topic contents).1 ++ lost)
        × (9 ≤ length lost)
  unfolding publish_topic
  publish_topic-cut topic contents = elim (Bool-cases (is_nil topic)) [
    | inl n ↦ rw (n, publish_topic) all_lost
    | inr n ↦ elim (Bool-cases (alloc (publish_len topic (or_empty contents)))) [
      | inr a ↦ rw (n, publish_topic) (rw a all_lost)
      | inl a ↦ rw (n, publish_topic) (rw a (ask-Misses topic (or_empty contents)))
    ]
  ]
    where
      all_lost : Misses (publish_text topic (or_empty contents)) []
      all_lost = (
        publish_text topic (or_empty contents),
        refl,
        omega (arith, length-publish_text topic (or_empty contents)),
      )
