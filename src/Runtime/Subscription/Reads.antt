-- ===== src/Runtime/Subscription/Reads.antt =====
-- The pending bytes in one call of `nscde_runtime_subscription_read` of
-- src/nscde_wayland_common/runtime-client.c.
use orca_cde.Prelude.{
  ℕ, suc, ◌+◌, Bool, true, false, Option, none, some, [], ◌∷◌, ◌++◌, ◌≡◌, refl, sym, ap, ◌∙◌, inl,
  inr, arith, length, get_elem?, take-append, drop-append, take, drop, append_assoc, Bytes, is_nil,
  Bool-cases, Option-cases,
}
use orca_cde.Runtime.Buffer.Bounds.{Grants, append_bytes_granted}
use orca_cde.Runtime.Buffer.{Buffer, append_bytes}
use orca_cde.Runtime.Cache.{find_topic_cache, merge_topic_cache}
use orca_cde.Runtime.Frame.{Frame, empty_frame}
use orca_cde.Runtime.Subscription.{
  Received, chunk, again, ended, broken, interrupted, returns, Socket, read_retry, ReadResult,
  read_error, read_none, read_frame, Subscription, find_frame_delim, extract_frame, read_from,
  recall, deliver, receive, receive_any, subscription_read, ReadStep, framed,
}
use orca_cde.Runtime.Subscription.Framing.{delim, IsFrameText, find-nil, find-append, find-Splits}

-- The bytes that a schedule will hand out, and those not yet cut into frames.
abbrev pub bytes_of : Socket → Bytes
bytes_of [] = []
bytes_of (interrupted ∷ s) = bytes_of s
bytes_of (returns (chunk b bytes) ∷ s) = (b ∷ bytes) ++ bytes_of s
bytes_of (returns again ∷ s) = bytes_of s
bytes_of (returns ended ∷ s) = bytes_of s
bytes_of (returns broken ∷ s) = bytes_of s

abbrev pub pending : Subscription → Socket → Bytes
pending sub socket = sub.buffer.text ++ bytes_of socket

abbrev pub bytes_in : Received → Bytes
bytes_in (chunk b bytes) = b ∷ bytes
bytes_in _ = []

pub read_retry-bytes_of :
    (s : Socket) → bytes_of s ≡ bytes_in (read_retry s).0 ++ bytes_of (read_retry s).1
unfolding read_retry
read_retry-bytes_of [] = refl
read_retry-bytes_of (interrupted ∷ s) = read_retry-bytes_of s
read_retry-bytes_of (returns (chunk b bytes) ∷ s) = refl
read_retry-bytes_of (returns again ∷ s) = refl
read_retry-bytes_of (returns ended ∷ s) = refl
read_retry-bytes_of (returns broken ∷ s) = refl

-- What a call makes of the bytes that were pending: a frame is one piece of them, cut off with its
-- delimiter, and any other result leaves them all.
abbrev pub Accounted : ReadResult → Bytes → Bytes → Type 0
Accounted read_frame before after =
    (text : Bytes) × (before ≡ text ++ (delim ++ after)) × IsFrameText text
Accounted _ before after = before ≡ after

module _ (alloc : ℕ → Bool) (grants : Grants alloc) where
  -- What is cut out and what stays make up what was there.
  pub extract_frame-splits :
      (b : Buffer) {text : Bytes} {rest : Buffer}
      → extract_frame alloc b ≡ some (text, rest)
      → (b.text ≡ text ++ (delim ++ rest.text)) × IsFrameText text × (rest.cap ≡ b.cap)
  unfolding extract_frame
  extract_frame-splits b {text} {rest} h = elim (Option-cases (find_frame_delim b.text)) [
    | inl e ↦ ground arith
    | inr (i, e) ↦
        let two : i + 2 ≡ suc (suc i) = omega arith in
        ground (arith, two, grants (i + 1), find-Splits b.text e)
  ]

  -- The first frame of the buffer is the one that is cut out.
  pub extract_frame-first :
      (b : Buffer) (text rest : Bytes)
      → IsFrameText text
      → b.text ≡ text ++ (delim ++ rest)
      → (b' : Buffer) × (extract_frame alloc b ≡ some (text, b')) × (b'.text ≡ rest)
  unfolding extract_frame
  extract_frame-first b text rest first e =
      let whole : b.text ≡ (text ++ delim) ++ rest = e ∙ sym (append_assoc text delim rest) in
      let found : find_frame_delim b.text ≡ some (length text) =
        ap find_frame_delim whole ∙ find-append (text ++ delim) rest first in
      let taken : take (length text) b.text ≡ text =
        ap (take (length text)) e ∙ take-append text (delim ++ rest) in
      let dropped : drop (length text + 2) b.text ≡ rest =
        ap (drop (length text + 2)) e ∙ drop-append 2 text (delim ++ rest) in
      (
        record b { text = drop (length text + 2) b.text },
        ground (arith, not_nil b.text found, found, grants (length text + 1), taken),
        dropped,
      )
    where
      not_nil : (s : Bytes) {i : ℕ} → find_frame_delim s ≡ some i → is_nil s ≡ false
      not_nil [] h = cc (find-nil, h)
      not_nil (x ∷ s) h = refl

  -- Where memory is granted and nothing is cut out, the buffer holds no complete frame.
  pub extract_frame-none :
      (b : Buffer) → extract_frame alloc b ≡ none → find_frame_delim b.text ≡ none
  unfolding extract_frame
  extract_frame-none b h = elim (Option-cases (find_frame_delim b.text)) [
    | inl e ↦ e
    | inr (i, e) ↦ elim (Bool-cases (is_nil b.text)) [
      | inl n ↦ nil_none b.text n
      | inr n ↦ ground (arith, grants (i + 1))
    ]
  ]
    where
      nil_none : (s : Bytes) → is_nil s ≡ true → find_frame_delim s ≡ none
      nil_none [] n = find-nil
      nil_none (x ∷ s) n = cc

  -- The frame handed over keeps the header; the buffer and the socket are not touched.
  pub record Handed (step : ReadStep) (sub : Subscription) (socket : Socket) : Type 0 where
    pub is_read : step.result ≡ read_frame
    pub same_buffer : step.sub.buffer ≡ sub.buffer
    pub same_socket : step.socket ≡ socket

  recall-Handed :
      (frame : Frame) (sub : Subscription) (socket : Socket)
      → Handed (recall alloc frame sub socket) sub socket
  unfolding recall
  recall-Handed frame sub socket =
      elim (Option-cases (find_topic_cache sub.topic_caches frame.topic false).0) [
        | inl e ↦ ground arith
        | inr (i, e) ↦
            elim (Option-cases
              (get_elem? (find_topic_cache sub.topic_caches frame.topic false).1 i)) [
                | inl f ↦ ground arith
                | inr (c, f) ↦ ground (arith, grants (length c.contents.text + 1))
              ]
      ]

  pub deliver-Handed :
      (text : Bytes) (sub : Subscription) (socket : Socket)
      → Handed (deliver alloc text sub socket) sub socket
  unfolding deliver
  deliver-Handed text sub socket =
      let merged : Subscription = record sub {
        topic_caches = merge_topic_cache alloc sub.topic_caches (framed text);
      } in
      ground (arith, recall-Handed (framed text) merged socket)

  Handed-Accounted :
      (step : ReadStep) (sub : Subscription) (socket : Socket) (before text : Bytes)
      → Handed step sub socket
      → before ≡ text ++ (delim ++ pending sub socket)
      → IsFrameText text
      → Accounted step.result before (pending step.sub step.socket)
  Handed-Accounted step sub socket before text h e f =
      rw (h.is_read, h.same_buffer, h.same_socket) (text, e, f)

  pub received : Bytes → Subscription → Buffer
  received bytes sub = (append_bytes alloc sub.buffer bytes).1

  pub receive_stops :
      (bytes : Bytes) (sub : Subscription) (socket : Socket)
      → extract_frame alloc (received bytes sub) ≡ none
      → receive alloc bytes sub socket ≡ record {
        result = read_none;
        frame = empty_frame;
        sub = record sub { buffer = received bytes sub };
        socket = socket;
      }
  unfolding receive received
  receive_stops bytes sub socket e =
      let done = (append_bytes_granted alloc grants sub.buffer bytes).0 in rw (done, receive) (rw e)

  pub receive-deliver :
      (bytes : Bytes) (sub : Subscription) (socket : Socket) {text : Bytes} {rest : Buffer}
      → extract_frame alloc (received bytes sub) ≡ some (text, rest)
      → receive alloc bytes sub socket ≡ deliver alloc text (record sub { buffer = rest }) socket
  unfolding receive received
  receive-deliver bytes sub socket e =
      let done = (append_bytes_granted alloc grants sub.buffer bytes).0 in rw (done, receive) (rw e)

  pub received_regrouped :
      (bytes : Bytes) (sub : Subscription) (socket : Socket)
      → sub.buffer.text ++ (bytes ++ bytes_of socket) ≡ (received bytes sub).text ++ bytes_of socket
  unfolding received
  received_regrouped bytes sub socket =
      sym (append_assoc sub.buffer.text bytes (bytes_of socket))
      ∙ ap (λ (s : Bytes). s ++ bytes_of socket)
          (sym (append_bytes_granted alloc grants sub.buffer bytes).1)

  receive-Accounted :
      (bytes : Bytes) (sub : Subscription) (socket : Socket)
      → Accounted
          (receive alloc bytes sub socket).result
          (sub.buffer.text ++ (bytes ++ bytes_of socket))
          (pending (receive alloc bytes sub socket).sub (receive alloc bytes sub socket).socket)
  receive-Accounted bytes sub socket =
      elim (Option-cases (extract_frame alloc (received bytes sub))) [
        | inl e ↦ rw (receive_stops bytes sub socket e) (received_regrouped bytes sub socket)
        | inr ((text, rest), e) ↦
            let (splits, first, _) = extract_frame-splits (received bytes sub) e in
            rw (receive-deliver bytes sub socket {text = text} {rest = rest} e) (
              Handed-Accounted _ (record sub { buffer = rest }) socket _ text
                (deliver-Handed text (record sub { buffer = rest }) socket)
                (received_regrouped bytes sub socket
                  ∙ ap (λ (s : Bytes). s ++ bytes_of socket) splits
                  ∙ rw (append_assoc, append_assoc))
                first)
      ]

  receive_any-Accounted :
      (r : Received) (sub : Subscription) (socket : Socket)
      → Accounted
          (receive_any alloc r sub socket).result
          (sub.buffer.text ++ (bytes_in r ++ bytes_of socket))
          (pending (receive_any alloc r sub socket).sub (receive_any alloc r sub socket).socket)
  unfolding receive_any
  receive_any-Accounted (chunk b bytes) sub socket = receive-Accounted (b ∷ bytes) sub socket
  receive_any-Accounted again sub socket = refl
  receive_any-Accounted ended sub socket = refl
  receive_any-Accounted broken sub socket = refl

module _ (alloc : ℕ → Bool) where
  subscription_read_lem :
      (sub : Subscription) (socket : Socket)
      → subscription_read alloc sub socket ≡ read_from alloc sub.fd sub socket
  unfolding subscription_read
  subscription_read_lem sub socket = refl

  -- A frame that is complete in the buffer is handed over as it stands.
  pub read-buffered :
      (sub : Subscription) (socket : Socket) {fd : ℕ} {text : Bytes} {rest : Buffer}
      → sub.fd ≡ some fd
      → extract_frame alloc sub.buffer ≡ some (text, rest)
      → subscription_read alloc sub socket ≡ record {
        result = read_frame;
        frame = framed text;
        sub = record sub { buffer = rest };
        socket = socket;
      }
  read-buffered sub socket {fd} f e =
      subscription_read_lem sub socket
      ∙ ap (λ (d : Option ℕ). read_from alloc d sub socket) f
      ∙ unfold read_from in rw (e, read_from)

  -- With no complete frame there the socket is read.
  pub read-receives :
      (sub : Subscription) (socket : Socket) {fd : ℕ}
      → sub.fd ≡ some fd
      → extract_frame alloc sub.buffer ≡ none
      → subscription_read alloc sub socket
        ≡ receive_any alloc (read_retry socket).0 sub (read_retry socket).1
  read-receives sub socket {fd} f e =
      subscription_read_lem sub socket
      ∙ ap (λ (d : Option ℕ). read_from alloc d sub socket) f
      ∙ unfold read_from in rw (e, read_from)

  pub read-closed :
      (sub : Subscription) (socket : Socket)
      → sub.fd ≡ none
      → subscription_read alloc sub socket
        ≡ record { result = read_error; frame = empty_frame; sub = sub; socket = socket }
  read-closed sub socket f =
      subscription_read_lem sub socket
      ∙ ap (λ (d : Option ℕ). read_from alloc d sub socket) f
      ∙ unfold read_from in refl

  -- Where memory is granted, one read of a subscription accounts for every pending byte: if it
  -- gives a frame, one frame's text and the blank line behind it are cut off the front of the
  -- pending bytes, and with any other result all of them are still pending.
  pub subscription_read-Accounted :
      Grants alloc
      → (sub : Subscription) (socket : Socket)
      → Accounted (subscription_read alloc sub socket).result (pending sub socket) (
          pending
            (subscription_read alloc sub socket).sub
            (subscription_read alloc sub socket).socket)
  subscription_read-Accounted grants sub socket = elim (Option-cases sub.fd) [
    | inl f ↦ rw (read-closed sub socket f) refl
    | inr (fd, f) ↦ elim (Option-cases (extract_frame alloc sub.buffer)) [
      | inr ((text, rest), e) ↦
          let (splits, first, _) = extract_frame-splits alloc grants sub.buffer e in
          rw (read-buffered sub socket {text = text} {rest = rest} f e) (
            text,
            ap (λ (s : Bytes). s ++ bytes_of socket) splits ∙ rw (append_assoc, append_assoc),
            first,
          )
      | inl e ↦
          rw (read-receives sub socket f e, read_retry-bytes_of socket)
            (receive_any-Accounted alloc grants (read_retry socket).0 sub (read_retry socket).1)
    ]
  ]
