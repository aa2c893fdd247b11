-- ===== src/Panel/Frames.antt =====
-- Drawing the panel: `request_render`, `render_and_commit`, `surface_frame_callback`,
-- `layer_surface_configure` and `layer_surface_closed` of src/nscde_paneld/nscde_paneld.c, without
-- the pixels.
use orca_cde.Panel.Geometry.Buttons.{compute_panel_layout_model}
use orca_cde.Panel.State.{Panel, picture}
use orca_cde.Prelude.Int.{pos}
use orca_cde.Prelude.{ℕ, Bool, true, false, some, ◌||◌, not, ltb, if◌then◌else◌}

-- `buffer` says whether `get_next_buffer` gives a buffer to draw into.
unfoldable pub render_and_commit : Bool → Panel → Panel
render_and_commit buffer p =
    let placed = compute_panel_layout_model p in
    if not p.configured || not p.running || not buffer
    then p
    else record placed { frame_pending = true; committed = some (picture placed) }

unfoldable pub request_render : Bool → Panel → Panel
request_render buffer p =
    let drawn = render_and_commit buffer p in
    if not p.dirty || not p.configured || not p.running || p.frame_pending
    then p
    else record drawn { dirty = false }

-- `panel.dirty = true; request_render()`
abbrev pub redraw : Bool → Panel → Panel
redraw buffer p = request_render buffer (record p { dirty = true })

unfoldable pub surface_frame_callback : Bool → Panel → Panel
surface_frame_callback buffer p =
    let ready = record p { frame_pending = false } in
    let drawn = render_and_commit buffer ready in
    if p.dirty then record drawn { dirty = false } else ready

-- The compositor's size, where it gives one.
unfoldable pub layer_surface_configure : Bool → ℕ → ℕ → Panel → Panel
layer_surface_configure buffer width height p = render_and_commit buffer (record p {
  width = if ltb 0 width then pos width else p.width;
  height = if ltb 0 height then pos height else p.height;
  configured = true;
  dirty = true;
})

unfoldable pub layer_surface_closed : Panel → Panel
layer_surface_closed p = record p { running = false }
