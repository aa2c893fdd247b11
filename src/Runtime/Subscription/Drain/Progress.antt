-- ===== src/Runtime/Subscription/Drain/Progress.antt =====
-- The fuel and the bytes of `nscde_runtime_subscription_drain` of
-- src/nscde_wayland_common/runtime-client.c.
use orca_cde.Prelude.{
  ℕ, zero, suc, ◌<◌, Bool, true, false, some, List, [], ◌∷◌, ◌++◌, ◌≡◌, ap, ◌∙◌, inl, inr, arith,
  length, length-append, All, Bytes, Bool-cases,
}
use orca_cde.Runtime.Buffer.Bounds.{Grants}
use orca_cde.Runtime.Frame.{Frame}
use orca_cde.Runtime.Subscription.Drain.{Drained, is_frame, is_error, write_text, drain}
use orca_cde.Runtime.Subscription.Framing.{delim, IsFrameText}
use orca_cde.Runtime.Subscription.Reads.{pending, Accounted, subscription_read-Accounted}
use orca_cde.Runtime.Subscription.{
  ReadResult, read_error, read_none, read_frame, read_closed, Subscription, Socket,
  subscription_read,
}

-- The texts, each with its delimiter, and what follows them.
abbrev pub stream : List Bytes → Bytes → Bytes
stream [] rest = rest
stream (t ∷ ts) rest = t ++ (delim ++ stream ts rest)

stops : (r : ReadResult) (b a : Bytes) → is_frame r ≡ false → Accounted r b a → b ≡ a
stops read_error b a h e = e
stops read_none b a h e = e
stops read_frame b a h e = cc
stops read_closed b a h e = e

goes_on :
    (r : ReadResult) (b a : Bytes)
    → is_frame r ≡ true
    → Accounted r b a
    → (text : Bytes) × (b ≡ text ++ (delim ++ a)) × IsFrameText text
goes_on read_frame b a h e = e
goes_on read_error b a h e = cc
goes_on read_none b a h e = cc
goes_on read_closed b a h e = cc

module _ {ℓ} {U : Type ℓ} (alloc : ℕ → Bool) (handler : Frame → U → U) (message_size : ℕ) where
  pub drain-step :
      (fuel : ℕ) (sub : Subscription) (socket : Socket) (user : U)
      → is_frame (subscription_read alloc sub socket).result ≡ true
      → is_error (subscription_read alloc sub socket).frame.type ≡ false
      → drain alloc handler message_size (suc fuel) sub socket user
        ≡ drain alloc handler message_size fuel
            (subscription_read alloc sub socket).sub
            (subscription_read alloc sub socket).socket
            (handler (subscription_read alloc sub socket).frame user)
  unfolding drain
  drain-step fuel sub socket user f e = rw (f, e)

  pub drain_error :
      (fuel : ℕ) (sub : Subscription) (socket : Socket) (user : U)
      → is_frame (subscription_read alloc sub socket).result ≡ true
      → is_error (subscription_read alloc sub socket).frame.type ≡ true
      → drain alloc handler message_size (suc fuel) sub socket user
        ≡ some (record {
          result = read_error;
          error_message =
              write_text message_size (subscription_read alloc sub socket).frame.message;
          sub = (subscription_read alloc sub socket).sub;
          socket = (subscription_read alloc sub socket).socket;
          user = user;
        })
  unfolding drain
  drain_error fuel sub socket user f e = rw (f, e)

  pub drain_stop :
      (fuel : ℕ) (sub : Subscription) (socket : Socket) (user : U)
      → is_frame (subscription_read alloc sub socket).result ≡ false
      → drain alloc handler message_size (suc fuel) sub socket user
        ≡ some (record {
          result = (subscription_read alloc sub socket).result;
          error_message = [];
          sub = (subscription_read alloc sub socket).sub;
          socket = (subscription_read alloc sub socket).socket;
          user = user;
        })
  unfolding drain
  drain_stop fuel sub socket user f = rw f

  -- Where every request for memory is granted and the fuel exceeds the number of pending bytes,
  -- the bytes buffered and those the socket will deliver, a drain returns; the pending bytes
  -- from before are then frame texts, each cut off with the blank line behind it, followed by
  -- the bytes still pending.
  pub drain-stream :
      Grants alloc
      → (fuel : ℕ) (sub : Subscription) (socket : Socket) (user : U)
      → length (pending sub socket) < fuel
      → (d : Drained U) × (drain alloc handler message_size fuel sub socket user ≡ some d)
        × (texts : List Bytes) × All IsFrameText texts
        × (pending sub socket ≡ stream texts (pending d.sub d.socket))
  drain-stream grants zero sub socket user h = absurd (omega arith)
  drain-stream grants (suc fuel) sub socket user h =
      let step = subscription_read alloc sub socket in
      let accounted = subscription_read-Accounted alloc grants sub socket in
      elim (Bool-cases (is_frame step.result)) [
        | inr f ↦ (_, drain_stop fuel sub socket user f, [], tt, stops step.result _ _ f accounted)
        | inl f ↦
            let (text, splits, first) = goes_on step.result _ _ f accounted in
            elim (Bool-cases (is_error step.frame.type)) [
              | inl e ↦ (_, drain_error fuel sub socket user f e, text ∷ [], (first, tt), splits)
              | inr e ↦
                  let shorter : length (pending step.sub step.socket) < fuel = omega (
                    arith,
                    h,
                    ap (length {0}) splits,
                    length-append text (delim ++ pending step.sub step.socket),
                  ) in
                  let (d, ends, texts, are, cuts) =
                    drain-stream grants fuel step.sub step.socket (handler step.frame user)
                      shorter in
                  (
                    d,
                    drain-step fuel sub socket user f e ∙ ends,
                    text ∷ texts,
                    (first, are),
                    splits ∙ ap (λ (s : Bytes). text ++ (delim ++ s)) cuts,
                  )
            ]
      ]
