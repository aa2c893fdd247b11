-- ===== src/Runtime/Subscription/Drain.antt =====
-- `nscde_runtime_subscription_drain` of src/nscde_wayland_common/runtime-client.c.
pub mod Progress
pub mod Endings
use orca_cde.Prelude.{
  ℕ, zero, suc, Bool, Option, none, some, List, [], ltb, if◌then◌else◌, length, Bytes, is_nil,
}
use orca_cde.Runtime.Frame.{Frame, FrameType, error}
use orca_cde.Runtime.Subscription.{
  ReadResult, read_error, read_frame, Subscription, Socket, ReadStep, subscription_read,
}

pub record Drained {ℓ} (U : Type ℓ) : Type ℓ where
  pub result : ReadResult
  pub error_message : Bytes
  pub sub : Subscription
  pub socket : Socket
  pub user : U

abbrev pub is_frame : ReadResult → Bool
is_frame read_frame = Bool.true
is_frame _ = Bool.false

abbrev pub is_error : FrameType → Bool
is_error error = Bool.true
is_error _ = Bool.false

-- `write_text` into an empty message of `size` bytes: what does not fit is not written.
abbrev write_text : ℕ → Bytes → Bytes
write_text size text = if ltb (length text) size then text else []

module _ {ℓ} {U : Type ℓ} (alloc : ℕ → Bool) (handler : Frame → U → U) (message_size : ℕ) where
  -- The loop, on fuel; `user` is what the handler's calls have made of `userdata`.
  unfoldable pub drain : ℕ → Subscription → Socket → U → Option (Drained U)
  drain zero sub socket user = none
  drain (suc fuel) sub socket user =
      let step = subscription_read alloc sub socket in
      let rest = drain fuel step.sub step.socket (handler step.frame user) in
      let stop = λ (r : ReadResult) (message : Bytes).
        let d : Drained U = record {
          result = r;
          error_message = message;
          sub = step.sub;
          socket = step.socket;
          user = user;
        } in
        some d in
      if is_frame step.result
      then if is_error step.frame.type
        then stop read_error (write_text message_size step.frame.message)
        else rest
      else stop step.result []
