-- ===== src/Runtime/Transport/Responses.antt =====
-- The text that `read_response_frame` of src/nscde_wayland_common/runtime-client.c returns, and the
-- bytes that came.
use orca_cde.Prelude.{
  ℕ, suc, ◌*◌, Bool, none, some, [], ◌∷◌, ◌++◌, ◌≡◌, ◌⊎◌, inl, inr, sym, ap, ◌∙◌, arith, take, drop,
  Bytes, append-nil, append_assoc, Option-cases, Bool-cases, take-append, subst, until_zero,
}
use orca_cde.Runtime.Buffer.{Buffer, chunk_size}
use orca_cde.Runtime.Buffer.Bounds.{Grants}
use orca_cde.Runtime.Subscription.{
  chunk, again, ended, broken, interrupted, returns, Socket, find_frame_delim,
}
use orca_cde.Runtime.Subscription.Framing.{delim, IsFrameText, find-nil, find-Splits, find-append}
use orca_cde.Runtime.Transport.{make_room, at_end, respond, read_response_frame}

-- The bytes that come before the schedule's end, and whether it ends the stream.
abbrev pub sent_back : Socket → Bytes
sent_back [] = []
sent_back (interrupted ∷ s) = sent_back s
sent_back (returns (chunk b bytes) ∷ s) = (b ∷ bytes) ++ sent_back s
sent_back (returns _ ∷ s) = []

-- The text is the first frame of what came, or what came before its first zero byte where there is
-- no frame in it.
abbrev pub IsResponse : Bytes → Bytes → Type 0
IsResponse text came =
    ((rest : Bytes) × (came ≡ text ++ (delim ++ rest)) × IsFrameText text)
    ⊎ ((text ≡ until_zero came) × (find_frame_delim came ≡ none))

module _ (alloc : ℕ → Bool) where
  make_room-text :
      (b : Buffer) {roomy : Buffer} → make_room alloc b ≡ some roomy → roomy.text ≡ b.text
  make_room-text b h = ground arith

  at_end-some : (s : Bytes) {text : Bytes} → at_end s ≡ some text → text ≡ until_zero s
  at_end-some [] h = cc
  at_end-some (x ∷ s) h = ground arith

  found_or_none :
      (s more : Bytes) {i : ℕ} → find_frame_delim s ≡ some i → IsResponse (take i s) (s ++ more)
  found_or_none s more {i} h =
      let (splits, long, first) = find-Splits s h in
      inl
        (drop (suc (suc i)) s ++ more, ap (◌++ more) splits ∙ append_assoc (take i s) _ more, first)

  respond-IsResponse :
      (b : Buffer) (socket : Socket) {text : Bytes}
      → find_frame_delim b.text ≡ none
      → respond alloc b socket ≡ some text
      → IsResponse text (b.text ++ sent_back socket)
  unfolding respond
  respond-IsResponse b [] n h = cc
  respond-IsResponse b (interrupted ∷ socket) {text} n h = elim (Option-cases (make_room alloc b)) [
    | inl e ↦ cc (e, h)
    | inr (roomy, e) ↦
        let same = make_room-text b e in
        subst (λ s. IsResponse text (s ++ sent_back socket)) same
          (respond-IsResponse roomy socket (rw same n) (rw (e, respond) at h))
  ]
  respond-IsResponse b (returns again ∷ socket) n h = cc
  respond-IsResponse b (returns broken ∷ socket) n h = cc
  respond-IsResponse b (returns ended ∷ socket) {text} n h =
      elim (Option-cases (make_room alloc b)) [
        | inl e ↦ cc (e, h)
        | inr (roomy, e) ↦
            let all = at_end-some b.text (rw (e, respond) at h) in
            rw (append-nil b.text) (inr (all, n))
      ]
  respond-IsResponse b (returns (chunk c bytes) ∷ socket) {text} n h =
      elim (Option-cases (make_room alloc b)) [
        | inl e ↦ cc (e, h)
        | inr (roomy, e) ↦
            let now = b.text ++ (c ∷ bytes) in
            let joined = append_assoc b.text (c ∷ bytes) (sent_back socket) in
            elim (Option-cases (find_frame_delim now)) [
              | inr (i, found) ↦
                  subst (λ t. IsResponse t (b.text ++ sent_back (returns (chunk c bytes) ∷ socket)))
                    (ground (arith, e, found))
                    (subst (IsResponse (take i now)) joined
                      (found_or_none now (sent_back socket) found))
              | inl none_yet ↦ subst (IsResponse text) joined (
                  respond-IsResponse (record roomy { text = now }) socket none_yet
                    (rw (e, none_yet, respond) at h))
            ]
      ]

  -- Whatever the reads and the allocator answer, a text that reading the response gives is the
  -- first frame of the bytes sent back before the end of the stream or an error, or, where they
  -- hold no frame, those of them before the first zero byte.
  pub read_response_frame-IsResponse :
      (socket : Socket) {text : Bytes}
      → read_response_frame alloc socket ≡ some text
      → IsResponse text (sent_back socket)
  unfolding read_response_frame
  read_response_frame-IsResponse socket h = elim (Bool-cases (alloc chunk_size)) [
    | inl e ↦ respond-IsResponse start socket find-nil (rw (e, read_response_frame) at h)
    | inr e ↦ ground arith
  ]
    where
      start : Buffer
      start = record { text = []; cap = chunk_size }

  take_found :
      (s more : Bytes) {i : ℕ} → find_frame_delim s ≡ some i → take i (s ++ more) ≡ take i s
  take_found s more {i} h =
      let (splits, long, first) = find-Splits s h in
      let later = delim ++ drop (suc (suc i)) s in
      ap (λ t. take i (t ++ more)) splits
      ∙ ap (take i) (append_assoc (take i s) later more)
      ∙ ap (λ n. take n (take i s ++ (later ++ more))) (sym long)
      ∙ take-append (take i s) (later ++ more)

  module _ (grants : Grants alloc) where
    make_room_granted :
        (b : Buffer) → (roomy : Buffer) × (make_room alloc b ≡ some roomy) × (roomy.text ≡ b.text)
    make_room_granted b = elim (Option-cases (make_room alloc b)) [
      | inl e ↦ ground (arith, grants (b.cap * 2))
      | inr (roomy, e) ↦ (roomy, e, make_room-text b e)
    ]

    respond-first :
        (b : Buffer) (socket : Socket) {i : ℕ}
        → find_frame_delim b.text ≡ none
        → find_frame_delim (b.text ++ sent_back socket) ≡ some i
        → respond alloc b socket ≡ some (take i (b.text ++ sent_back socket))
    unfolding respond
    respond-first b [] n h = cc (append-nil b.text, n, h)
    respond-first b (returns again ∷ socket) n h = cc (append-nil b.text, n, h)
    respond-first b (returns broken ∷ socket) n h = cc (append-nil b.text, n, h)
    respond-first b (returns ended ∷ socket) n h = cc (append-nil b.text, n, h)
    respond-first b (interrupted ∷ socket) {i} n h =
        let (roomy, e, same) = make_room_granted b in
        rw (e, respond)
          (subst (λ s. respond alloc roomy socket ≡ some (take i (s ++ sent_back socket))) same
            (respond-first roomy socket (rw same n) (rw same h)))
    respond-first b (returns (chunk c bytes) ∷ socket) {i} n h =
        let (roomy, e, same) = make_room_granted b in
        let now = b.text ++ (c ∷ bytes) in
        let joined = append_assoc b.text (c ∷ bytes) (sent_back socket) in
        elim (Option-cases (find_frame_delim now)) [
          | inr (j, found) ↦
              let same_end : j ≡ i = cc (find-append now (sent_back socket) found, joined, h) in
              ground (arith, e, found, same_end, joined, take_found now (sent_back socket) found)
          | inl none_yet ↦
              subst (λ s. respond alloc b (returns (chunk c bytes) ∷ socket) ≡ some (take i s))
                joined
                (rw (e, none_yet, respond)
                  (respond-first (record roomy { text = now }) socket none_yet (rw joined h)))
        ]

    -- Where memory is granted and the bytes sent back before the end of the stream or an error
    -- hold a frame, reading the response gives the text of the first frame, however the bytes
    -- are cut into chunks and whatever calls are interrupted.
    pub read_response_frame-first :
        (socket : Socket) {i : ℕ}
        → find_frame_delim (sent_back socket) ≡ some i
        → read_response_frame alloc socket ≡ some (take i (sent_back socket))
    unfolding read_response_frame
    read_response_frame-first socket h =
        rw (grants chunk_size, read_response_frame)
          (respond-first (record { text = []; cap = chunk_size }) socket find-nil h)
