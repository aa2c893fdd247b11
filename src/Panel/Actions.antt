-- ===== src/Panel/Actions.antt =====
-- What a press of a button does: `open_subpanel`, `close_subpanel`, `dispatch_wsm_slot_action` and
-- `execute_launcher_command` of src/nscde_paneld/nscde_paneld.c.
pub mod Dispatch
pub mod Pressed
use orca_cde.Panel.Applets.{Applet}
use orca_cde.Panel.Hits.{
  Role, nowhere, subpanel_entry, left_menu_button, left_handle, right_iconify_button, right_handle,
  wsm_lock, wsm_pgm, wsm_load, wsm_exit, launcher_trigger, launcher_body, right_launcher_trigger,
  right_launcher_body, applet, workspace, Hit, hit_test_panel, hit_test_subpanel,
}
use orca_cde.Panel.Launchers.{Launcher}
use orca_cde.Panel.Metrics.{metric}
use orca_cde.Panel.State.{Panel, Surface}
use orca_cde.Panel.Subpanels.{Entry, Subpanel, max_subpanels, is_usable}
use orca_cde.Panel.Workspaces.{Button}
use orca_cde.Prelude.Int.{ℤ, pos, ltb_ℤ, ◌+ℤ◌, ◌*ℤ◌}
use orca_cde.Prelude.{
  ℕ, Bool, true, false, ◌&&◌, ◌||◌, not, Option, none, some, List, [], ◌∷◌, ltb, ◌==◌,
  if◌then◌else◌, get_elem?, Bytes, codes, equal,
}

-- BTN_LEFT and BTN_MIDDLE
abbrev pub btn_left : ℕ
btn_left = 272

abbrev pub btn_middle : ℕ
btn_middle = 274

-- What is asked of others: a shell command, or the runtime's switch to a workspace.
pub data Action : Type 0 where
  execute : Bytes → Action
  switch_workspace : Bytes → Action

-- An empty command is not run.
unfoldable pub execute_launcher_command : Bytes → List Action
execute_launcher_command [] = []
execute_launcher_command (c ∷ command) = execute (c ∷ command) ∷ []

unfoldable pub close_subpanel : Panel → Panel
close_subpanel p =
    let s = p.sp_surface in
    let closed = record s {
      has_layer_surface = false;
      has_surface = false;
      is_open = false;
      configured = false;
    } in
    if s.is_open then record p { sp_surface = closed; active_subpanel = none } else p

-- What the compositor does: whether it creates the surfaces, and what the callbacks that it calls
-- during the round trip make of the panel.
pub record Screen : Type 0 where
  pub surface : Bool
  pub layer_surface : Bool
  pub round_trip : Panel → Panel

abbrev pub is_index : ℕ → Option ℕ → Bool
is_index i none = false
is_index i (some j) = j == i

-- A subpanel that can be opened, while none is open.
unfoldable pub shown : Screen → ℕ → Subpanel → Panel → Panel
shown screen i spd p =
    let s = p.sp_surface in
    let sized = record s {
      subpanel_idx = some i;
      width = spd.width;
      height =
          metric "NSCDE_PANEL_SUBPANEL_TITLE_HEIGHT" p.layout
          +ℤ spd.entry_count *ℤ metric "NSCDE_PANEL_SUBPANEL_ENTRY_HEIGHT" p.layout
          +ℤ metric "NSCDE_PANEL_SUBPANEL_PADDING" p.layout *ℤ pos 2;
    } in
    let without = record sized { has_surface = false } in
    let neither = record without { has_layer_surface = false } in
    let both = record sized { has_surface = true; has_layer_surface = true } in
    let later = screen.round_trip (record p { sp_surface = both }) in
    let s' = later.sp_surface in
    if not screen.surface
    then record p { sp_surface = without }
    else if not screen.layer_surface
    then record p { sp_surface = neither }
    else record later {
      sp_surface = record s' { is_open = true; configured = true };
      active_subpanel = some i;
    }

abbrev pub open_usable : Screen → ℕ → Option Subpanel → Panel → Panel
open_usable screen i none p = p
open_usable screen i (some spd) p =
    if ltb i max_subpanels && is_usable spd then shown screen i spd p else p

-- The subpanel that is open already is closed instead.
unfoldable pub open_subpanel : Screen → ℕ → Panel → Panel
open_subpanel screen i p =
    let alone = close_subpanel p in
    if p.sp_surface.is_open && is_index i p.active_subpanel
    then alone
    else open_usable screen i (get_elem? alone.subpanels.0 i) alone

-- The compositor's size for the subpanel's surface, where it gives one.
unfoldable pub subpanel_layer_surface_configure : ℕ → ℕ → Panel → Panel
subpanel_layer_surface_configure width height p =
    let s = p.sp_surface in
    record p {
      sp_surface = record s {
        width = if ltb 0 width then pos width else s.width;
        height = if ltb 0 height then pos height else s.height;
        configured = true;
      };
    }

-- The surfaces stay as they are.
unfoldable pub subpanel_layer_surface_closed : Panel → Panel
subpanel_layer_surface_closed p =
    let s = p.sp_surface in
    record p { sp_surface = record s { is_open = false }; active_subpanel = none }

unfoldable pub dispatch_wsm_slot_action : Role → ℕ → List Action
dispatch_wsm_slot_action wsm_lock button =
    if button == btn_left
    then execute_launcher_command (codes "xscreensaver-command -lock")
    else if button == btn_middle
    then execute_launcher_command (codes "xscreensaver-demo")
    else []
dispatch_wsm_slot_action wsm_pgm button =
    if button == btn_left
    then execute_launcher_command
        (codes "QT_QPA_PLATFORM=wayland ${NSCDE_TOOLSDIR}/nscde_labwc_wsm")
    else if button == btn_middle
    then execute_launcher_command
        (codes "QT_QPA_PLATFORM=wayland ${NSCDE_TOOLSDIR}/nscde_stylemgr wsm")
    else []
dispatch_wsm_slot_action wsm_load button =
    if button == btn_left
    then execute_launcher_command
        (codes "QT_QPA_PLATFORM=wayland ${NSCDE_TOOLSDIR}/nscde_labwc_sysinfo")
    else []
dispatch_wsm_slot_action wsm_exit button =
    if button == btn_left
    then execute_launcher_command
        (codes "QT_QPA_PLATFORM=wayland ${NSCDE_TOOLSDIR}/nscde_labwc_sysaction")
    else []
dispatch_wsm_slot_action role button = []
