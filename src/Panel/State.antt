-- ===== src/Panel/State.antt =====
-- The state of src/nscde_paneld/nscde_paneld.c and the parts of its layout.
use orca_cde.Layout.{Entry}
use orca_cde.Panel.Applets.{Applets}
use orca_cde.Panel.Launchers.{Launchers}
use orca_cde.Panel.Subpanels.{Seen}
use orca_cde.Panel.Theme.{Theme}
use orca_cde.Panel.Workspaces.{Workspaces}
use orca_cde.Prelude.Int.{ℤ}
use orca_cde.Runtime.Subscription.{Subscription}
use orca_cde.Prelude.{ℕ, Bool, Option, List}

-- `struct section_rect`
pub record Rect : Type 0 where
  pub x : ℤ
  pub y : ℤ
  pub w : ℤ
  pub h : ℤ

-- `struct panel_layout_model`: the sections, the handles' parts and the workspace manager's.
pub record Sections : Type 0 where
  pub left_handle : Rect
  pub left_bank : Rect
  pub center : Rect
  pub right_bank : Rect
  pub right_handle : Rect
  pub bottom_strip : Rect

pub record Handles : Type 0 where
  pub left_handle_button : Rect
  pub left_handle_grip : Rect
  pub right_handle_button : Rect
  pub right_handle_grip : Rect

pub record Wsm : Type 0 where
  pub wsm_lock_slot : Rect
  pub wsm_pgm_slot : Rect
  pub wsm_grid : Rect
  pub wsm_load_slot : Rect
  pub wsm_exit_slot : Rect
  pub wsm_lock_icon : Rect
  pub wsm_pgm_icon : Rect
  pub wsm_exit_icon : Rect

pub record Model : Type 0 where
  pub sections : Sections
  pub handles : Handles
  pub wsm : Wsm

-- The surface of the open subpanel, null as `has_surface` and `has_layer_surface` false.
pub record Surface : Type 0 where
  pub subpanel_idx : Option ℕ
  pub has_surface : Bool
  pub has_layer_surface : Bool
  pub width : ℤ
  pub height : ℤ
  pub configured : Bool
  pub is_open : Bool

-- What `render_panel` draws a buffer from, without the output's scale, the time, the
-- mail and the load.
pub record Picture : Type 0 where
  pub width : ℤ
  pub height : ℤ
  pub theme : Theme
  pub workspaces : Workspaces
  pub launchers : Launchers
  pub applets : Applets
  pub layout_model : Model
  pub layout : List Entry

-- The panel; `subpanels` holds their count too, and `active_subpanel` is -1 as `none`. `committed` is what
-- the compositor was given: the picture in the buffer that was committed last.
pub record Panel : Type 0 where
  pub width : ℤ
  pub height : ℤ
  pub theme : Theme
  pub workspaces : Workspaces
  pub launchers : Launchers
  pub subpanels : Seen
  pub active_subpanel : Option ℕ
  pub sp_surface : Surface
  pub applets : Applets
  pub layout_model : Model
  pub layout : List Entry
  pub runtime_subscription : Subscription
  pub runtime_active : Bool
  pub running : Bool
  pub configured : Bool
  pub dirty : Bool
  pub frame_pending : Bool
  pub committed : Option Picture

abbrev pub picture : Panel → Picture
picture p = record {
  width = p.width;
  height = p.height;
  theme = p.theme;
  workspaces = p.workspaces;
  launchers = p.launchers;
  applets = p.applets;
  layout_model = p.layout_model;
  layout = p.layout;
}
