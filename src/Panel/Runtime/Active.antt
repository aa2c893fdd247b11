-- ===== src/Panel/Runtime/Active.antt =====
-- `handle_runtime_ready` and `handle_runtime_subscription` of src/nscde_paneld/nscde_paneld.c.
use orca_cde.Layout.{parse_contents}
use orca_cde.Panel.Frames.{render_and_commit, request_render, redraw}
use orca_cde.Panel.Geometry.Buttons.{compute_panel_layout_model}
use orca_cde.Panel.Runtime.{
  is_over, teardown_runtime_subscription, handle_runtime_subscription, handle_runtime_ready,
}
use orca_cde.Panel.State.{Panel}
use orca_cde.Panel.Theme.{Color}
use orca_cde.Panel.Updates.{
  recompute_panel_dimensions, rebuilt, is_update, with_env, with_workspaces, with_subpanels,
  parse_layout_env_contents, parse_env_contents, parse_workspaces_env_contents,
  parse_subpanel_env_contents, apply_contents, apply_runtime_frame,
}
use orca_cde.Prelude.{
  ℕ, ◌+◌, ◌<◌, Bool, true, false, ◌&&◌, Option, none, some, ◌≡◌, ◌⊎◌, refl, sym, ap, subst, inl,
  inr, arith, if◌then◌else◌, length, Bytes, codes, equal, Option-cases, if_either,
}
use orca_cde.Runtime.Buffer.Bounds.{Grants}
use orca_cde.Runtime.Frame.{Frame, field_len}
use orca_cde.Runtime.Subscription.Closing.{IsCleared, subscription_close-IsCleared}
use orca_cde.Runtime.Subscription.Drain.Endings.{GoesOn, Breaks, IsOver, drain-Ends, drain-Keeps}
use orca_cde.Runtime.Subscription.Reads.{pending}
use orca_cde.Runtime.Subscription.{ReadResult, read_none, Socket, subscription_close}

-- A panel that runs and is subscribed as another is.
abbrev SameRun : Panel → Panel → Type 0
SameRun p q = (q.running ≡ p.running) × (q.runtime_active ≡ p.runtime_active)

redraw-SameRun : (buffer : Bool) (p q : Panel) → SameRun p q → SameRun p (redraw buffer q)
unfolding request_render render_and_commit compute_panel_layout_model
redraw-SameRun buffer p q h = ground (arith, h)

module _ (alloc : ℕ → Bool) (scan : Bytes → Option Color) (buffer : Bool) (p : Panel) where
  contents-SameRun :
      (topic contents : Bytes) (q : Panel)
      → SameRun p q
      → SameRun p (apply_contents alloc scan buffer topic contents q)
  unfolding apply_contents parse_layout_env_contents parse_env_contents
      parse_workspaces_env_contents parse_subpanel_env_contents recompute_panel_dimensions rebuilt
      with_subpanels
  contents-SameRun topic contents q h =
      let layout = (parse_contents alloc contents q.layout).1 in
      let copied = alloc (length contents + 1) in
      if_either (SameRun p) (equal topic (codes "panel-layout"))
        (if_either (SameRun p) (parse_contents alloc contents q.layout).0
          (redraw-SameRun buffer p
            (recompute_panel_dimensions (rebuilt (record q { layout = layout }))) h)
          h)
        (if_either (SameRun p) (equal topic (codes "panel"))
          (if_either (SameRun p) copied
            (redraw-SameRun buffer p (with_env alloc scan buffer contents q) h) h)
          (if_either (SameRun p) (equal topic (codes "workspaces"))
            (if_either (SameRun p) copied
              (redraw-SameRun buffer p (with_workspaces alloc scan buffer contents q) h) h)
            (if_either (SameRun p) (equal topic (codes "subpanels"))
              (if_either (SameRun p) copied (redraw-SameRun buffer p (with_subpanels contents q) h)
                h)
              h)))

  frame-SameRun :
      (frame : Frame) (q : Panel)
      → SameRun p q
      → SameRun p (apply_runtime_frame alloc scan buffer frame q)
  unfolding apply_runtime_frame
  frame-SameRun frame q h = elim (Option-cases frame.contents) [
    | inl e ↦ rw (e, apply_runtime_frame) h
    | inr (contents, e) ↦
        rw (e, apply_runtime_frame)
          (if_either (SameRun p) (is_update frame.type) (contents-SameRun frame.topic contents q h)
            h)
  ]

-- The subscription is closed and cleared, and the panel stops.
pub record IsTornDown (p : Panel) : Type 0 where
  pub closed : p.runtime_subscription.fd ≡ none
  pub cleared : IsCleared p.runtime_subscription
  pub inactive : p.runtime_active ≡ false
  pub stops : p.running ≡ false

-- The connection goes on, and the panel runs on if it was subscribed; or it is over, and the panel
-- is torn down.
abbrev pub Handled : Panel → Socket → Panel → Socket → Type 0
Handled p s q rest =
    (GoesOn p.runtime_subscription s q.runtime_subscription rest
      × (q.runtime_active ≡ p.runtime_active)
      × (q.running ≡ (p.running && p.runtime_active)))
    ⊎ (Breaks p.runtime_subscription s rest × IsTornDown q)

-- What is left of a panel behind a drain with a result.
abbrev left : ReadResult → Panel → Panel
left r q =
    let t = if is_over r then teardown_runtime_subscription q else q in
    record t { running = t.running && t.runtime_active }

over-IsTornDown : (r : ReadResult) (q : Panel) → is_over r ≡ true → IsTornDown (left r q)
unfolding teardown_runtime_subscription subscription_close
over-IsTornDown r q h =
    subst
      (λ (b : Bool). IsTornDown (
        let t = if b then teardown_runtime_subscription q else q in
        record t { running = t.running && t.runtime_active }))
      (sym h)
      (record {
        closed = refl;
        cleared = subscription_close-IsCleared q.runtime_subscription;
        inactive = refl;
        stops = ground arith;
      })

left-Handled :
    (p q : Panel) (s rest : Socket) (r : ReadResult)
    → SameRun p q
    → ((r ≡ read_none) × GoesOn p.runtime_subscription s q.runtime_subscription rest)
      ⊎ (IsOver r × Breaks p.runtime_subscription s rest)
    → Handled p s (left r q) rest
left-Handled p q s rest r (running, active) (inl (e, on)) =
    subst (λ r. Handled p s (left r q) rest) (sym e) (inl (on, active, rw (running, active) refl))
left-Handled p q s rest r same (inr (inl e, why)) = inr (why, over-IsTornDown r q (ap is_over e))
left-Handled p q s rest r same (inr (inr e, why)) = inr (why, over-IsTornDown r q (ap is_over e))

module _ (alloc : ℕ → Bool) (scan : Bytes → Option Color) (buffer : Bool) where
  -- Where every request for memory is granted and the fuel exceeds the number of pending bytes,
  -- the handling of the runtime's frames returns a panel: either the subscription had a
  -- descriptor and keeps it, the stream neither ended nor failed, only frames that are no
  -- errors were cut off the pending bytes, and the panel is as active as before and runs if it
  -- ran and was active; or there was no descriptor, the stream ended or failed, or an error
  -- came behind such frames, and then the subscription is closed and cleared, inactive, and the
  -- panel stops.
  pub handle_runtime_ready-Handled :
      Grants alloc
      → (fuel : ℕ) (socket : Socket) (p : Panel)
      → length (pending p.runtime_subscription socket) < fuel
      → (q : Panel) × (rest : Socket) × (handle_runtime_ready alloc scan buffer fuel socket p
          ≡ some (q, rest))
        × Handled p socket q rest
  unfolding handle_runtime_ready handle_runtime_subscription
  handle_runtime_ready-Handled grants fuel socket p h =
      let handler = apply_runtime_frame alloc scan buffer in
      let (d, e, how) =
        drain-Ends alloc grants handler field_len fuel p.runtime_subscription socket p h in
      let same =
        drain-Keeps alloc handler field_len (SameRun p) (frame-SameRun alloc scan buffer p) fuel
          p.runtime_subscription socket p {d = d} e (refl, refl) in
      let u = d.user in
      let q = record u { runtime_subscription = d.sub } in
      (
        left d.result q,
        d.socket,
        rw (e, handle_runtime_subscription) refl,
        left-Handled p q socket d.socket d.result same how,
      )
