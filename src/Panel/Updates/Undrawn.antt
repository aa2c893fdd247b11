-- ===== src/Panel/Updates/Undrawn.antt =====
-- What `request_render` and `apply_runtime_frame` of src/nscde_paneld/nscde_paneld.c do where
-- `get_next_buffer` gives no buffer.
use orca_cde.Layout.{parse_contents}
use orca_cde.Panel.Frames.{render_and_commit, request_render, redraw, surface_frame_callback}
use orca_cde.Panel.Events.{frame_done, on_event, run}
use orca_cde.Panel.State.{Panel, picture}
use orca_cde.Panel.Theme.{Color}
use orca_cde.Panel.Updates.{
  recompute_panel_dimensions, rebuilt, is_update, with_env, with_workspaces, with_subpanels,
  parse_layout_env_contents, parse_env_contents, parse_workspaces_env_contents,
  parse_subpanel_env_contents, apply_contents, apply_runtime_frame,
}
use orca_cde.Prelude.{
  ℕ, zero, suc, ◌+◌, Bool, true, Option, replicate, ◌≡◌, refl, sym, ap, ◌∙◌, inl, inr, arith,
  length, Bytes, codes, equal, Option-cases, if_either, if◌then◌else◌, false,
}
use orca_cde.Runtime.Frame.{Frame}

-- The panel is configured and running, but neither dirty nor waiting for a frame.
abbrev pub IsIdle : Panel → Type 0
IsIdle p =
    (p.configured ≡ true) × (p.running ≡ true) × (p.dirty ≡ false) × (p.frame_pending ≡ false)

-- Idle, and the buffer committed last is still the one of `p`.
abbrev IsUndrawn : Panel → Panel → Type 0
IsUndrawn p p' = IsIdle p' × (p'.committed ≡ p.committed)

redraw-IsUndrawn :
    (p q : Panel)
    → IsIdle p
    → q.configured ≡ p.configured
    → q.running ≡ p.running
    → q.frame_pending ≡ p.frame_pending
    → q.committed ≡ p.committed
    → IsUndrawn p (redraw false q)
unfolding request_render render_and_commit
redraw-IsUndrawn p q h c r f m = ground (arith, h)

module _ (alloc : ℕ → Bool) (scan : Bytes → Option Color) (p : Panel) (idle : IsIdle p) where
  contents-IsUndrawn :
      (topic contents : Bytes) → IsUndrawn p (apply_contents alloc scan false topic contents p)
  unfolding apply_contents parse_layout_env_contents parse_env_contents
      parse_workspaces_env_contents parse_subpanel_env_contents recompute_panel_dimensions rebuilt
      with_subpanels
  contents-IsUndrawn topic contents =
      let layout = (parse_contents alloc contents p.layout).1 in
      let copied = alloc (length contents + 1) in
      let same : IsUndrawn p p = (idle, refl) in
      if_either (IsUndrawn p) (equal topic (codes "panel-layout"))
        (if_either (IsUndrawn p) (parse_contents alloc contents p.layout).0
          (redraw-IsUndrawn p (recompute_panel_dimensions (rebuilt (record p { layout = layout })))
            idle refl refl refl refl)
          same)
        (if_either (IsUndrawn p) (equal topic (codes "panel"))
          (if_either (IsUndrawn p) copied
            (redraw-IsUndrawn p (with_env alloc scan false contents p) idle refl refl refl refl)
            same)
          (if_either (IsUndrawn p) (equal topic (codes "workspaces"))
            (if_either (IsUndrawn p) copied
              (redraw-IsUndrawn p (with_workspaces alloc scan false contents p) idle refl refl refl
                refl)
              same)
            (if_either (IsUndrawn p) (equal topic (codes "subpanels"))
              (if_either (IsUndrawn p) copied
                (redraw-IsUndrawn p (with_subpanels contents p) idle refl refl refl refl) same)
              same)))

  update-IsUndrawn : (frame : Frame) → IsUndrawn p (apply_runtime_frame alloc scan false frame p)
  unfolding apply_runtime_frame
  update-IsUndrawn frame = elim (Option-cases frame.contents) [
    | inl e ↦ rw (e, apply_runtime_frame) (idle, refl)
    | inr (contents, e) ↦
        rw (e, apply_runtime_frame)
          (if_either (IsUndrawn p) (is_update frame.type) (contents-IsUndrawn frame.topic contents)
            (idle, refl))
  ]

module _ (alloc : ℕ → Bool) (scan : Bytes → Option Color) where
  -- The surface's callback, `n` times, where there is a buffer again.
  abbrev pub callbacks : ℕ → Panel → Panel
  callbacks n p = run alloc scan true (replicate n frame_done) p

  callback-same : (p : Panel) → IsIdle p → surface_frame_callback true p ≡ p
  unfolding surface_frame_callback
  callback-same p h =
      let ready = record p { frame_pending = false } in
      ap (λ d. if d then record (render_and_commit true ready) { dirty = false } else ready) h.2
      ∙ ap (λ f. record p { frame_pending = f }) (sym h.3)

  callbacks-same : (n : ℕ) (p : Panel) → IsIdle p → callbacks n p ≡ p
  unfolding run on_event
  callbacks-same zero p h = refl
  callbacks-same (suc n) p h = ap (callbacks n) (callback-same p h) ∙ callbacks-same n p h

  -- Where a frame of the runtime is applied to a configured and running panel that is not dirty
  -- and has no frame pending, and no buffer is given to draw into, any number of frame
  -- callbacks that come later, with buffers given again, leave the buffer committed last the
  -- one from before the frame, and the panel's picture, what a buffer would be drawn from, the
  -- one that the frame has made.
  pub apply_runtime_frame_undrawn :
      (frame : Frame) (n : ℕ) (p : Panel)
      → IsIdle p
      → ((callbacks n (apply_runtime_frame alloc scan false frame p)).committed ≡ p.committed)
        × (picture (callbacks n (apply_runtime_frame alloc scan false frame p))
            ≡ picture (apply_runtime_frame alloc scan false frame p))
  apply_runtime_frame_undrawn frame n p h =
      let (idle, same) = update-IsUndrawn alloc scan p h frame in
      rw (callbacks-same n (apply_runtime_frame alloc scan false frame p) idle) (same, refl)
