-- ===== src/Runtime/Subscription/Drain/Endings.antt =====
-- How `nscde_runtime_subscription_read` and `nscde_runtime_subscription_drain` of
-- src/nscde_wayland_common/runtime-client.c end.
use orca_cde.Prelude.{
  ℕ, zero, suc, ◌+◌, ◌<◌, Bool, true, false, none, some, List, [], ◌∷◌, ◌++◌, ◌≡◌, ◌≢◌, ◌⊎◌, All,
  refl, sym, ap, ◌∙◌, inl, inr, arith, length, length-append, subst, get_elem?, Bytes, Bool-cases,
  Option-cases, append_assoc,
}
use orca_cde.Runtime.Buffer.Bounds.{Grants}
use orca_cde.Runtime.Cache.{find_topic_cache, merge_topic_cache}
use orca_cde.Runtime.Frame.{Frame, FrameType, error}
use orca_cde.Runtime.Subscription.Drain.Progress.{stream, drain-step, drain_error, drain_stop}
use orca_cde.Runtime.Subscription.Drain.{Drained, is_frame, is_error, drain}
use orca_cde.Runtime.Subscription.Framing.{delim, IsFrameText}
use orca_cde.Runtime.Subscription.Reads.{
  bytes_in, bytes_of, pending, read_retry-bytes_of, received_regrouped, extract_frame-splits,
  received, receive_stops, receive-deliver, deliver-Handed, read-buffered, read-receives,
  read-closed,
}
use orca_cde.Runtime.Subscription.{
  Received, chunk, again, ended, broken, interrupted, returns, Socket, read_retry, ReadResult,
  read_error, read_none, read_frame, read_closed, Subscription, ReadStep, extract_frame, framed,
  recall, deliver, receive_any, receive, subscription_read,
}

-- How often a schedule ends the stream or fails.
abbrev pub endings : Socket → ℕ
endings [] = 0
endings (interrupted ∷ s) = endings s
endings (returns (chunk b bytes) ∷ s) = endings s
endings (returns again ∷ s) = endings s
endings (returns ended ∷ s) = suc (endings s)
endings (returns broken ∷ s) = suc (endings s)

abbrev endings_in : Received → ℕ
endings_in ended = 1
endings_in broken = 1
endings_in _ = 0

read_retry-endings :
    (s : Socket) → endings s ≡ endings_in (read_retry s).0 + endings (read_retry s).1
unfolding read_retry
read_retry-endings [] = refl
read_retry-endings (interrupted ∷ s) = read_retry-endings s
read_retry-endings (returns (chunk b bytes) ∷ s) = omega arith
read_retry-endings (returns again ∷ s) = omega arith
read_retry-endings (returns ended ∷ s) = omega arith
read_retry-endings (returns broken ∷ s) = omega arith

module _ (alloc : ℕ → Bool) (grants : Grants alloc) where
  -- The frame's type and the descriptor are kept while its contents are looked up.
  recall-keeps :
      (frame : Frame) (sub : Subscription) (socket : Socket)
      → ((recall alloc frame sub socket).frame.type ≡ frame.type)
        × ((recall alloc frame sub socket).sub.fd ≡ sub.fd)
  unfolding recall
  recall-keeps frame sub socket =
      elim (Option-cases (find_topic_cache sub.topic_caches frame.topic false).0) [
        | inl e ↦ ground arith
        | inr (i, e) ↦
            elim (Option-cases
              (get_elem? (find_topic_cache sub.topic_caches frame.topic false).1 i)) [
                | inl f ↦ ground arith
                | inr (c, f) ↦ ground (arith, grants (length c.contents.text + 1))
              ]
      ]

  deliver-keeps :
      (text : Bytes) (sub : Subscription) (socket : Socket)
      → ((deliver alloc text sub socket).frame.type ≡ (framed text).type)
        × ((deliver alloc text sub socket).sub.fd ≡ sub.fd)
  unfolding deliver
  deliver-keeps text sub socket =
      let merged : Subscription = record sub {
        topic_caches = merge_topic_cache alloc sub.topic_caches (framed text);
      } in
      ground (arith, recall-keeps (framed text) merged socket)

  -- One read: a frame is cut off the front of the pending bytes, and has the type of its text; it
  -- fails or ends only without a descriptor or at an end or a failure of the stream.
  abbrev Reads : ReadResult → FrameType → Subscription → Socket → Subscription → Socket → Type 0
  Reads read_frame type sub s sub' s' =
      (text : Bytes) × (pending sub s ≡ text ++ (delim ++ pending sub' s'))
      × IsFrameText text
      × (type ≡ (framed text).type)
      × (sub'.fd ≡ sub.fd)
      × (endings s' ≡ endings s)
  Reads read_none type sub s sub' s' =
      (sub.fd ≢ none)
      × (sub'.fd ≡ sub.fd)
      × (endings s' ≡ endings s)
      × (pending sub s ≡ pending sub' s')
  Reads _ type sub s sub' s' = (sub'.fd ≡ sub.fd) × ((sub.fd ≡ none) ⊎ (endings s' < endings s))

  abbrev StepReads : ReadStep → Subscription → Socket → Type 0
  StepReads step sub s = Reads step.result step.frame.type sub s step.sub step.socket

  receive-Reads :
      (bytes : Bytes) (sub : Subscription) (socket later : Socket)
      → sub.fd ≢ none
      → pending sub socket ≡ sub.buffer.text ++ (bytes ++ bytes_of later)
      → endings later ≡ endings socket
      → StepReads (receive alloc bytes sub later) sub socket
  receive-Reads bytes sub socket later n p e =
      elim (Option-cases (extract_frame alloc (received alloc grants bytes sub))) [
        | inl x ↦
            rw (receive_stops alloc grants bytes sub later x)
              (n, refl, e, p ∙ received_regrouped alloc grants bytes sub later)
        | inr ((text, rest), x) ↦
            let cut = record sub { buffer = rest } in
            let (splits, first, _) =
              extract_frame-splits alloc grants (received alloc grants bytes sub) x in
            let handed = deliver-Handed alloc grants text cut later in
            let (type, same) = deliver-keeps text cut later in
            rw (receive-deliver alloc grants bytes sub later {text = text} {rest = rest} x) (
              rw (handed.is_read, handed.same_buffer, handed.same_socket)
                (
                  text,
                  p
                      ∙ received_regrouped alloc grants bytes sub later
                      ∙ ap (λ (s : Bytes). s ++ bytes_of later) splits
                      ∙ rw (append_assoc, append_assoc),
                  first,
                  type,
                  same,
                  e,
                ))
      ]

  receive_any-Reads :
      (r : Received) (sub : Subscription) (socket later : Socket)
      → sub.fd ≢ none
      → pending sub socket ≡ sub.buffer.text ++ (bytes_in r ++ bytes_of later)
      → endings socket ≡ endings_in r + endings later
      → StepReads (receive_any alloc r sub later) sub socket
  unfolding receive_any
  receive_any-Reads (chunk b bytes) sub socket later n p e =
      receive-Reads (b ∷ bytes) sub socket later n p (omega arith)
  receive_any-Reads again sub socket later n p e = (n, refl, omega arith, p)
  receive_any-Reads ended sub socket later n p e = (refl, inr (omega arith))
  receive_any-Reads broken sub socket later n p e = (refl, inr (omega arith))

  subscription_read-Reads :
      (sub : Subscription) (socket : Socket)
      → StepReads (subscription_read alloc sub socket) sub socket
  subscription_read-Reads sub socket = elim (Option-cases sub.fd) [
    | inl f ↦ rw (read-closed alloc sub socket f) (refl, inl f)
    | inr (fd, f) ↦ elim (Option-cases (extract_frame alloc sub.buffer)) [
      | inr ((text, rest), x) ↦
          let (splits, first, _) = extract_frame-splits alloc grants sub.buffer x in
          rw (read-buffered alloc sub socket {text = text} {rest = rest} f x) (
            text,
            ap (λ (s : Bytes). s ++ bytes_of socket) splits ∙ rw (append_assoc, append_assoc),
            first,
            refl,
            refl,
            refl,
          )
      | inl x ↦
          let (r, later) = read_retry socket in
          rw (read-receives alloc sub socket f x) (
            receive_any-Reads r sub socket later (λ z. cc (f, z))
              (ap (λ (s : Bytes). sub.buffer.text ++ s) (read_retry-bytes_of socket))
              (read_retry-endings socket))
    ]
  ]

-- A frame's text that is no error.
abbrev pub IsPlain : Bytes → Type 0
IsPlain text = IsFrameText text × ((framed text).type ≢ error)

-- The connection goes on: there is a descriptor, the stream has not ended or failed, and the
-- frames that were read are no errors.
abbrev pub GoesOn : Subscription → Socket → Subscription → Socket → Type 0
GoesOn sub s sub' s' =
    (sub.fd ≢ none)
    × (sub'.fd ≡ sub.fd)
    × (endings s' ≡ endings s)
    × ((texts : List Bytes) × All IsPlain texts × (pending sub s ≡ stream texts (pending sub' s')))

-- It is over: there is no descriptor, the stream has ended or failed, or the first frame that is
-- not plain is an error.
abbrev pub Breaks : Subscription → Socket → Socket → Type 0
Breaks sub s s' =
    (sub.fd ≡ none)
    ⊎ ((endings s' < endings s)
        ⊎ ((texts : List Bytes) × All IsPlain texts
            × (text : Bytes) × (rest : Bytes) × IsFrameText text
            × ((framed text).type ≡ error)
            × (pending sub s ≡ stream texts (text ++ (delim ++ rest)))))

abbrev pub IsOver : ReadResult → Type 0
IsOver r = (r ≡ read_error) ⊎ (r ≡ read_closed)

is_error-error : (t : FrameType) → is_error t ≡ true → t ≡ error
is_error-error error h = refl
is_error-error _ h = cc

abbrev Ends {ℓ} : {U : Type ℓ} → Subscription → Socket → Drained U → Type 0
Ends sub s d =
    ((d.result ≡ read_none) × GoesOn sub s d.sub d.socket)
    ⊎ (IsOver d.result × Breaks sub s d.socket)

Breaks-of :
    (sub : Subscription) (s s' : Socket)
    → (sub.fd ≡ none) ⊎ (endings s' < endings s)
    → Breaks sub s s'
Breaks-of sub s s' (inl f) = inl f
Breaks-of sub s s' (inr e) = inr (inl e)

-- A plain frame that was read comes before what the rest of the drain reads.
Ends-cons {ℓ} :
    {U : Type ℓ} (sub sub' : Subscription) (s s' : Socket) (d : Drained U) (text : Bytes)
    → IsPlain text
    → pending sub s ≡ text ++ (delim ++ pending sub' s')
    → sub'.fd ≡ sub.fd
    → endings s' ≡ endings s
    → Ends sub' s' d
    → Ends sub s d
Ends-cons sub sub' s s' d text plain splits same e
      (inl (none_left, (n, fd, e', (texts, are, cuts)))) =
    inl (
      none_left,
      (
        (λ z. n (same ∙ z)),
        fd ∙ same,
        e' ∙ e,
        (text ∷ texts, (plain, are), splits ∙ ap (λ (b : Bytes). text ++ (delim ++ b)) cuts),
      ),
    )
Ends-cons sub sub' s s' d text plain splits same e (inr (over, inl f)) =
    inr (over, inl (sym same ∙ f))
Ends-cons sub sub' s s' d text plain splits same e (inr (over, inr (inl less))) =
    inr (over, inr (inl (omega arith)))
Ends-cons sub sub' s s' d text plain splits same e
      (inr (over, inr (inr (texts, are, bad, rest, first, is_bad, cuts)))) =
    inr (
      over,
      inr (
          inr (
            text ∷ texts,
            (plain, are),
            bad,
            rest,
            first,
            is_bad,
            splits ∙ ap (λ (b : Bytes). text ++ (delim ++ b)) cuts,
          )),
    )

module _ {ℓ} {U : Type ℓ} (alloc : ℕ → Bool) (grants : Grants alloc) (handler : Frame → U → U)
    (message_size : ℕ) where
  abbrev Returns : ℕ → Subscription → Socket → U → Type ℓ
  Returns fuel sub socket user =
      (d : Drained U) × (drain alloc handler message_size fuel sub socket user ≡ some d)
      × Ends sub socket d

  module _ (fuel : ℕ) (sub : Subscription) (socket : Socket) (user : U) where
    -- One round of the loop, by what the read gives.
    round :
        (r : ReadResult)
        → (subscription_read alloc sub socket).result ≡ r
        → Reads alloc grants r
            (subscription_read alloc sub socket).frame.type
            sub
            socket
            (subscription_read alloc sub socket).sub
            (subscription_read alloc sub socket).socket
        → length (pending sub socket) < suc fuel
        → (length (
                pending
                  (subscription_read alloc sub socket).sub
                  (subscription_read alloc sub socket).socket)
              < fuel
            → Returns fuel
                (subscription_read alloc sub socket).sub
                (subscription_read alloc sub socket).socket
                (handler (subscription_read alloc sub socket).frame user))
        → Returns (suc fuel) sub socket user
    round read_none e (n, same, ends, kept) h rest = (
      _,
      drain_stop alloc handler message_size fuel sub socket user (ap is_frame e),
      inl (e, (n, same, ends, ([], tt, kept))),
    )
    round read_error e (_, why) h rest = (
      _,
      drain_stop alloc handler message_size fuel sub socket user (ap is_frame e),
      inr (inl e, Breaks-of sub socket (subscription_read alloc sub socket).socket why),
    )
    round read_closed e (_, why) h rest = (
      _,
      drain_stop alloc handler message_size fuel sub socket user (ap is_frame e),
      inr (inr e, Breaks-of sub socket (subscription_read alloc sub socket).socket why),
    )
    round read_frame e (text, splits, first, type, same, ends) h rest =
        let step = subscription_read alloc sub socket in
        elim (Bool-cases (is_error step.frame.type)) [
          | inl bad ↦ (
            _,
            drain_error alloc handler message_size fuel sub socket user (ap is_frame e) bad,
            inr (
              inl refl,
              inr (
                  inr (
                    [],
                    tt,
                    text,
                    _,
                    first,
                    sym type ∙ is_error-error step.frame.type bad,
                    splits,
                  )),
            ),
          )
          | inr good ↦
              let shorter : length (pending step.sub step.socket) < fuel = omega (
                arith,
                h,
                ap (length {0}) splits,
                length-append text (delim ++ pending step.sub step.socket),
              ) in
              let (d, returns_d, how) = rest shorter in
              (
                d,
                drain-step alloc handler message_size fuel sub socket user (ap is_frame e) good
                    ∙ returns_d,
                Ends-cons sub step.sub socket step.socket d text (first, λ z. cc (type, z, good))
                    splits same ends how,
              )
        ]

  -- With memory and more fuel than pending bytes a drain returns, with no frame where the
  -- connection goes on, and closed or in error where it is over.
  pub drain-Ends :
      (fuel : ℕ) (sub : Subscription) (socket : Socket) (user : U)
      → length (pending sub socket) < fuel
      → Returns fuel sub socket user
  drain-Ends zero sub socket user h = absurd (omega arith)
  drain-Ends (suc fuel) sub socket user h =
      let step = subscription_read alloc sub socket in
      round fuel sub socket user step.result refl (subscription_read-Reads alloc grants sub socket)
        h (drain-Ends fuel step.sub step.socket (handler step.frame user))

module _ {ℓ κ} {U : Type ℓ} (alloc : ℕ → Bool) (handler : Frame → U → U) (message_size : ℕ)
    (Keeps : U → Type κ) (keep : (frame : Frame) (u : U) → Keeps u → Keeps (handler frame u)) where
  -- What every call of the handler keeps, a drain keeps.
  pub drain-Keeps :
      (fuel : ℕ) (sub : Subscription) (socket : Socket) (user : U) {d : Drained U}
      → drain alloc handler message_size fuel sub socket user ≡ some d
      → Keeps user
      → Keeps d.user
  unfolding drain
  drain-Keeps zero sub socket user h k = cc
  drain-Keeps (suc fuel) sub socket user {d} h k =
      let step = subscription_read alloc sub socket in
      elim (Bool-cases (is_frame step.result)) [
        | inr f ↦ subst Keeps (ground (arith, f)) k
        | inl f ↦ elim (Bool-cases (is_error step.frame.type)) [
          | inl e ↦ subst Keeps (ground (arith, f, e)) k
          | inr e ↦
              drain-Keeps fuel step.sub step.socket (handler step.frame user) {d = d}
                (ground (arith, f, e)) (keep step.frame user k)
        ]
      ]
