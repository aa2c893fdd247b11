-- ===== src/Panel/Events.antt =====
-- The events that redraw the panel: frames of the runtime, and the surface's callbacks in
-- src/nscde_paneld/nscde_paneld.c.
use orca_cde.Panel.Frames.{surface_frame_callback, layer_surface_configure, layer_surface_closed}
use orca_cde.Panel.State.{Panel}
use orca_cde.Panel.Theme.{Color}
use orca_cde.Panel.Updates.{apply_runtime_frame}
use orca_cde.Prelude.{ℕ, Bool, Option, List, [], ◌∷◌, Bytes}
use orca_cde.Runtime.Frame.{Frame}

pub data Event : Type 0 where
  updated : Frame → Event
  frame_done : Event
  configured : ℕ → ℕ → Event
  closed : Event

module _ (alloc : ℕ → Bool) (scan : Bytes → Option Color) (buffer : Bool) where
  unfoldable pub on_event : Event → Panel → Panel
  on_event (updated frame) p = apply_runtime_frame alloc scan buffer frame p
  on_event frame_done p = surface_frame_callback buffer p
  on_event (configured width height) p = layer_surface_configure buffer width height p
  on_event closed p = layer_surface_closed p

  unfoldable pub run : List Event → Panel → Panel
  run [] p = p
  run (e ∷ es) p = run es (on_event e p)
