-- ===== src/Panel/Geometry.antt =====
-- The positions of the panel's parts: `scale_metric` and `compute_panel_layout_model` of
-- src/nscde_paneld/nscde_paneld.c.
pub mod Buttons
pub mod Tiling
use orca_cde.Layout.{Entry}
use orca_cde.Panel.Metrics.{metric}
use orca_cde.Panel.State.{Rect, Sections, Handles, Wsm, Model, Panel}
use orca_cde.Prelude.Int.{ℤ, pos, ltb_ℤ, ◌+ℤ◌, ◌-ℤ◌, ◌*ℤ◌, quotient}
use orca_cde.Prelude.{ℕ, List, if◌then◌else◌}

abbrev pub rect : ℤ → ℤ → ℤ → ℤ → Rect
rect x y w h = record { x = x; y = y; w = w; h = h }

-- The scale in percent.
abbrev pub scale_pct : List Entry → ℤ
scale_pct layout =
    let scale = metric "NSCDE_PANEL_SCALE" layout in if ltb_ℤ (pos 0) scale then scale else pos 100

unfoldable pub scale_metric : ℕ → List Entry → ℤ
scale_metric value layout = quotient (pos value *ℤ scale_pct layout +ℤ pos 50) 100

-- What lies around the sections.
abbrev pub inset : List Entry → ℤ
inset layout = metric "NSCDE_PANEL_MARGIN" layout +ℤ metric "NSCDE_PANEL_BORDER_WIDTH" layout

unfoldable pub sections_of : Panel → Sections
sections_of p =
    let at = inset p.layout in
    let lh = metric "NSCDE_PANEL_LEFT_HANDLE_WIDTH" p.layout in
    let rh = metric "NSCDE_PANEL_RIGHT_HANDLE_WIDTH" p.layout in
    let lbw = metric "NSCDE_PANEL_LEFT_BANK_WIDTH" p.layout in
    let rbw = metric "NSCDE_PANEL_RIGHT_BANK_WIDTH" p.layout in
    let csw = metric "NSCDE_PANEL_CENTER_SECTION_WIDTH" p.layout in
    let csx = metric "NSCDE_PANEL_CENTER_SECTION_X" p.layout in
    let trigger_h = metric "NSCDE_PANEL_TRIGGER_HEIGHT" p.layout in
    let body_h = metric "NSCDE_PANEL_BODY_HEIGHT" p.layout in
    let strip_h = metric "NSCDE_PANEL_BOTTOM_STRIP_HEIGHT" p.layout in
    let tall = p.height -ℤ at -ℤ at in
    let right_handle_x = p.width -ℤ at -ℤ rh in
    let right_bank_x = right_handle_x -ℤ rbw in
    record {
      left_handle = rect at at lh tall;
      left_bank = rect (at +ℤ lh) (at +ℤ trigger_h) lbw body_h;
      center = rect (at +ℤ csx) at csw tall;
      right_bank = rect right_bank_x (at +ℤ trigger_h) rbw body_h;
      right_handle = rect right_handle_x at rh tall;
      bottom_strip =
          rect (at +ℤ lh) (at +ℤ trigger_h +ℤ body_h) (right_bank_x -ℤ (at +ℤ lh) +ℤ rbw) strip_h;
    }

unfoldable pub handles_of : List Entry → Sections → Handles
handles_of layout s =
    let scaled = λ (n : ℕ). scale_metric n layout in
    record {
      left_handle_button =
          rect (s.left_handle.x +ℤ scaled 1) (s.left_handle.y +ℤ scaled 1) (scaled 19) (scaled 14);
      left_handle_grip =
          rect (s.left_handle.x +ℤ scaled 1) (s.left_handle.y +ℤ scaled 16) (scaled 19) (scaled 63);
      right_handle_button =
          rect (s.right_handle.x) (s.right_handle.y +ℤ scaled 1) (scaled 20) (scaled 14);
      right_handle_grip =
          rect (s.right_handle.x) (s.right_handle.y +ℤ scaled 16) (scaled 20) (scaled 63);
    }

-- The frame of the workspace manager within the centre: the locals of the C function.
pub record WsmFrame : Type 0 where
  pub inner_x : ℤ
  pub inner_y : ℤ
  pub inner_h : ℤ
  pub grid_x : ℤ
  pub grid_y : ℤ
  pub grid_w : ℤ
  pub grid_h : ℤ
  pub util_x : ℤ
  pub row_h : ℤ
  pub bottom_row_y : ℤ

unfoldable pub frame_of : List Entry → Sections → WsmFrame
frame_of layout s =
    let pad = metric "NSCDE_PANEL_WSM_INNER_PAD" layout in
    let side_w = metric "NSCDE_PANEL_WSM_SIDE_WIDTH" layout in
    let util_w = metric "NSCDE_PANEL_WSM_UTILITY_WIDTH" layout in
    let gap = metric "NSCDE_PANEL_WSM_SECTION_GAP" layout in
    let vpad = metric "NSCDE_PANEL_WSM_GRID_VPAD" layout in
    let strip_h = metric "NSCDE_PANEL_BOTTOM_STRIP_HEIGHT" layout in
    let x = s.center.x +ℤ pad in
    let y = s.center.y +ℤ pad in
    let w = s.center.w -ℤ pos 2 *ℤ pad in
    let h = s.center.h -ℤ pos 2 *ℤ pad -ℤ strip_h in
    let free = w -ℤ side_w -ℤ util_w -ℤ pos 2 *ℤ gap in
    let left = x +ℤ side_w +ℤ gap in
    let half = quotient h 2 in
    record {
      inner_x = x;
      inner_y = y;
      inner_h = h;
      grid_x = left;
      grid_y = y +ℤ vpad;
      grid_w = if ltb_ℤ free (pos 1) then pos 1 else free;
      grid_h = h -ℤ pos 2 *ℤ vpad;
      util_x = left +ℤ free +ℤ gap;
      row_h = half;
      bottom_row_y = y +ℤ h -ℤ half;
    }

unfoldable pub wsm_of : List Entry → WsmFrame → Wsm
wsm_of layout f =
    let side_w = metric "NSCDE_PANEL_WSM_SIDE_WIDTH" layout in
    let util_w = metric "NSCDE_PANEL_WSM_UTILITY_WIDTH" layout in
    let lock_h = metric "NSCDE_PANEL_WSM_LOCK_HEIGHT" layout in
    let exit_h = metric "NSCDE_PANEL_WSM_EXIT_HEIGHT" layout in
    let load_side = metric "NSCDE_PANEL_WSM_LOAD_INSET_SIDE" layout in
    let load_top = metric "NSCDE_PANEL_WSM_LOAD_INSET_TOP" layout in
    let exit_bottom = metric "NSCDE_PANEL_WSM_EXIT_INSET_BOTTOM" layout in
    let util_side = metric "NSCDE_PANEL_WSM_UTILITY_INSET_SIDE" layout in
    let icon = scale_metric 24 layout in
    let pgm_w = scale_metric 22 layout in
    let pgm_h = scale_metric 20 layout in
    record {
      wsm_lock_slot = rect f.inner_x (f.inner_y +ℤ quotient (f.row_h -ℤ lock_h) 2) side_w lock_h;
      wsm_pgm_slot =
          rect f.inner_x (f.bottom_row_y +ℤ quotient (f.row_h -ℤ lock_h) 2) side_w lock_h;
      wsm_grid = rect f.grid_x f.grid_y f.grid_w f.grid_h;
      wsm_load_slot =
          rect (f.util_x +ℤ load_side) (f.inner_y +ℤ load_top) (util_w -ℤ load_side *ℤ pos 2)
            (metric "NSCDE_PANEL_WSM_LOAD_HEIGHT" layout);
      wsm_exit_slot =
          rect (f.util_x +ℤ util_side) (f.bottom_row_y +ℤ f.row_h -ℤ exit_h -ℤ exit_bottom)
            (util_w -ℤ util_side *ℤ pos 2) exit_h;
      wsm_lock_icon =
          rect (f.inner_x +ℤ quotient (side_w -ℤ icon) 2)
            (f.inner_y +ℤ quotient (f.row_h -ℤ icon) 2) icon icon;
      wsm_pgm_icon =
          rect (f.inner_x +ℤ quotient (side_w -ℤ pgm_w) 2)
            (f.bottom_row_y +ℤ quotient (f.row_h -ℤ pgm_h) 2) pgm_w pgm_h;
      wsm_exit_icon =
          rect (f.util_x +ℤ quotient (util_w -ℤ icon) 2)
            (f.bottom_row_y +ℤ quotient (f.row_h -ℤ icon) 2) icon icon;
    }
