-- ===== src/Panel/Updates/Drawn.antt =====
-- What `request_render` and `surface_frame_callback` of src/nscde_paneld/nscde_paneld.c draw over
-- the panel's events.
use orca_cde.Layout.{parse_contents}
use orca_cde.Panel.Frames.{
  render_and_commit, request_render, redraw, surface_frame_callback, layer_surface_configure,
  layer_surface_closed,
}
use orca_cde.Panel.Events.{Event, updated, frame_done, configured, closed, on_event, run}
use orca_cde.Panel.State.{Panel, picture}
use orca_cde.Panel.Theme.{Color}
use orca_cde.Panel.Updates.{
  recompute_panel_dimensions, rebuilt, is_update, on_copy, with_env, with_workspaces,
  with_subpanels, parse_layout_env_contents, parse_env_contents, parse_workspaces_env_contents,
  parse_subpanel_env_contents, apply_contents, apply_runtime_frame,
}
use orca_cde.Prelude.{
  ℕ, ◌+◌, Bool, true, false, some, ◌&&◌, Option, List, [], ◌∷◌, ◌≡◌, inl, inr, arith, length, Bytes,
  codes, equal, Option-cases, if_either,
}
use orca_cde.Runtime.Frame.{Frame}

-- A change that is not drawn waits for the configuration or for the pending frame's callback.
abbrev pub IsScheduled : Panel → Type 0
IsScheduled p = (p.dirty && p.configured && p.running) ≡ true → p.frame_pending ≡ true

-- The buffer committed last was drawn from what the panel holds now.
abbrev pub IsCurrent : Panel → Type 0
IsCurrent p = (p.configured && p.running) ≡ true → p.committed ≡ some (picture p)

abbrev pub IsDrawn : Panel → Type 0
IsDrawn p = IsScheduled p × (p.dirty ≡ false → IsCurrent p)

redraw-IsDrawn : (p : Panel) → IsDrawn (redraw true p)
unfolding request_render render_and_commit
redraw-IsDrawn p = ground arith

callback-IsDrawn : (p : Panel) → IsDrawn p → IsDrawn (surface_frame_callback true p)
unfolding surface_frame_callback render_and_commit
callback-IsDrawn p h = ground arith

callback-IsCurrent : (p : Panel) → IsDrawn p → IsCurrent (surface_frame_callback true p)
unfolding surface_frame_callback render_and_commit
callback-IsCurrent p h = ground (arith, h)

configure-IsDrawn :
    (width height : ℕ) (p : Panel) → IsDrawn (layer_surface_configure true width height p)
unfolding layer_surface_configure render_and_commit
configure-IsDrawn width height p = ground arith

closed-IsDrawn : (p : Panel) → IsDrawn (layer_surface_closed p)
unfolding layer_surface_closed
closed-IsDrawn p = ground arith

module _ (alloc : ℕ → Bool) (scan : Bytes → Option Color) where
  on_copy-IsDrawn :
      (contents : Bytes) (parse : Panel → Panel) (p : Panel)
      → IsDrawn p
      → IsDrawn (on_copy alloc scan true contents parse p)
  on_copy-IsDrawn contents parse p h =
      if_either IsDrawn (alloc (length contents + 1)) (redraw-IsDrawn (parse p)) h

  layout-IsDrawn :
      (contents : Bytes) (p : Panel)
      → IsDrawn p
      → IsDrawn (parse_layout_env_contents alloc scan true contents p)
  unfolding parse_layout_env_contents
  layout-IsDrawn contents p h =
      let layout = (parse_contents alloc contents p.layout).1 in
      if_either IsDrawn (parse_contents alloc contents p.layout).0
        (redraw-IsDrawn (recompute_panel_dimensions (rebuilt (record p { layout = layout })))) h

  contents-IsDrawn :
      (topic contents : Bytes) (p : Panel)
      → IsDrawn p
      → IsDrawn (apply_contents alloc scan true topic contents p)
  unfolding apply_contents parse_env_contents parse_workspaces_env_contents
      parse_subpanel_env_contents
  contents-IsDrawn topic contents p h =
      if_either IsDrawn (equal topic (codes "panel-layout")) (layout-IsDrawn contents p h) (
        if_either IsDrawn (equal topic (codes "panel"))
          (on_copy-IsDrawn contents (with_env alloc scan true contents) p h)
          (if_either IsDrawn (equal topic (codes "workspaces"))
            (on_copy-IsDrawn contents (with_workspaces alloc scan true contents) p h)
            (if_either IsDrawn (equal topic (codes "subpanels"))
              (on_copy-IsDrawn contents (with_subpanels contents) p h) h)))

  pub apply_runtime_frame-IsDrawn :
      (frame : Frame) (p : Panel)
      → IsDrawn p
      → IsDrawn (apply_runtime_frame alloc scan true frame p)
  unfolding apply_runtime_frame
  apply_runtime_frame-IsDrawn frame p h = elim (Option-cases frame.contents) [
    | inl e ↦ rw (e, apply_runtime_frame) h
    | inr (contents, e) ↦
        rw (e, apply_runtime_frame)
          (if_either IsDrawn (is_update frame.type) (contents-IsDrawn frame.topic contents p h) h)
  ]

  on_event-IsDrawn : (e : Event) (p : Panel) → IsDrawn p → IsDrawn (on_event alloc scan true e p)
  unfolding on_event
  on_event-IsDrawn (updated frame) p h = apply_runtime_frame-IsDrawn frame p h
  on_event-IsDrawn frame_done p h = callback-IsDrawn p h
  on_event-IsDrawn (configured width height) p h = configure-IsDrawn width height p
  on_event-IsDrawn closed p h = closed-IsDrawn p

  -- Where a buffer to draw into is always given, after any sequence of frames from the runtime,
  -- frame callbacks, configurations and closings, a panel that is dirty, configured and running
  -- has a frame pending, and where one that is configured and running is not dirty, the buffer
  -- committed last was drawn from what it holds, if that was so before; and the next frame
  -- callback leaves a configured and running panel with a buffer drawn from what it holds.
  pub run-IsDrawn :
      (es : List Event) (p : Panel)
      → IsDrawn p
      → IsDrawn (run alloc scan true es p)
        × IsCurrent (surface_frame_callback true (run alloc scan true es p))
  unfolding run
  run-IsDrawn [] p h = (h, callback-IsCurrent p h)
  run-IsDrawn (e ∷ es) p h = run-IsDrawn es (on_event alloc scan true e p) (on_event-IsDrawn e p h)
