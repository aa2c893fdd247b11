-- ===== src/Panel/Actions/Dispatch.antt =====
-- What a hit leads to: `dispatch_panel_hit` and `pointer_button` of
-- src/nscde_paneld/nscde_paneld.c.
use orca_cde.Panel.Actions.{
  btn_left, btn_middle, Action, switch_workspace, execute_launcher_command, close_subpanel, Screen,
  open_subpanel, dispatch_wsm_slot_action,
}
use orca_cde.Panel.Applets.{Applet}
use orca_cde.Panel.Hits.{
  Role, nowhere, subpanel_entry, left_menu_button, left_handle, right_iconify_button, right_handle,
  wsm_lock, wsm_pgm, wsm_load, wsm_exit, launcher_trigger, launcher_body, right_launcher_trigger,
  right_launcher_body, applet, workspace, Hit, hit_test_panel, hit_test_subpanel,
}
use orca_cde.Panel.Launchers.{Launcher}
use orca_cde.Panel.State.{Panel}
use orca_cde.Panel.Subpanels.{Entry, Subpanel, is_usable}
use orca_cde.Panel.Workspaces.{Button}
use orca_cde.Prelude.Int.{ℤ, pos, ltb_ℤ}
use orca_cde.Prelude.{
  ℕ, Bool, true, false, ◌&&◌, Option, none, some, List, [], ◌∷◌, ltb, ◌==◌, if◌then◌else◌,
  get_elem?, Bytes, codes, equal,
}

-- An entry of an array below a count.
abbrev pub entry_below {ℓ} : {A : Type ℓ} → Option ℕ → ℕ → List A → Option A
entry_below none count entries = none
entry_below (some i) count entries = if ltb i count then get_elem? entries i else none

-- A hit on these leaves the open subpanel to what it leads to.
abbrev pub keeps_open : Role → Bool
keeps_open subpanel_entry = true
keeps_open launcher_trigger = true
keeps_open right_launcher_trigger = true
keeps_open _ = false

-- The command that opens the backdrops of the style manager.
abbrev pub backdrop_command : Bytes
backdrop_command = codes "QT_QPA_PLATFORM=wayland ${NSCDE_TOOLSDIR}/nscde_stylemgr backdrop"

-- A command on the left button, the backdrops for the style manager's name on the middle one.
abbrev pub on_body : ℕ → Bytes → Bytes → List Action
on_body button command name =
    if button == btn_left
    then execute_launcher_command command
    else if (button == btn_middle) && equal name (codes "style")
    then execute_launcher_command backdrop_command
    else []

abbrev pub entry_in : Option Subpanel → Option ℕ → Option Entry
entry_in none index = none
entry_in (some sp) none = none
entry_in (some sp) (some i) = if ltb_ℤ (pos i) sp.entry_count then get_elem? sp.entries i else none

abbrev pub run_entry : Option Entry → Panel → List Action × Panel
run_entry none p = ([], p)
run_entry (some entry) p = (execute_launcher_command entry.command, close_subpanel p)

abbrev pub launcher_action : ℕ → Option Launcher → List Action
launcher_action button none = []
launcher_action button (some lb) = on_body button lb.command lb.module_name

abbrev pub right_launcher_action : ℕ → Option Applet → List Action
right_launcher_action button none = []
right_launcher_action button (some slot) = on_body button slot.command slot.name

abbrev pub applet_action : ℕ → Option Applet → List Action
applet_action button none = []
applet_action button (some slot) =
    if button == btn_left then execute_launcher_command slot.command else []

abbrev pub workspace_action : ℕ → Option Button → List Action
workspace_action button none = []
workspace_action button (some b) = if button == btn_left then switch_workspace b.name ∷ [] else []

abbrev pub launcher_opens : Option Launcher → Option ℕ
launcher_opens none = none
launcher_opens (some lb) = lb.subpanel_idx

abbrev pub usable_at : ℕ → Option Subpanel → Option ℕ
usable_at i none = none
usable_at i (some sp) = if is_usable sp then some i else none

-- A launcher on the right has its index whether or not there is such a subpanel.
abbrev pub applet_opens : Panel → Option Applet → Option ℕ
applet_opens p none = none
applet_opens p (some slot) = elim slot.subpanel_idx [
  | none ↦ none
  | some i ↦ usable_at i (entry_below (some i) p.subpanels.1 p.subpanels.0)
]

abbrev pub toggle : Screen → ℕ → Option ℕ → Panel → Panel
toggle screen button none p = p
toggle screen button (some i) p = if button == btn_left then open_subpanel screen i p else p

-- What the role of a hit leads to.
unfoldable pub acted : Screen → Hit → ℕ → Panel → List Action × Panel
acted screen hit button p =
    let launcher = entry_below hit.index p.launchers.launcher_count p.launchers.launchers in
    let slot = entry_below hit.index p.applets.applet_count p.applets.applets in
    let desk = entry_below hit.index p.workspaces.workspace_count p.workspaces.workspaces in
    elim hit.role [
      | subpanel_entry ↦
          run_entry
            (if button == btn_left
              then entry_in (entry_below hit.sub_index p.subpanels.1 p.subpanels.0) hit.index
              else none)
            p
      | wsm_lock ↦ (dispatch_wsm_slot_action wsm_lock button, p)
      | wsm_pgm ↦ (dispatch_wsm_slot_action wsm_pgm button, p)
      | wsm_load ↦ (dispatch_wsm_slot_action wsm_load button, p)
      | wsm_exit ↦ (dispatch_wsm_slot_action wsm_exit button, p)
      | launcher_trigger ↦ ([], toggle screen button (launcher_opens launcher) p)
      | launcher_body ↦ (launcher_action button launcher, p)
      | right_launcher_trigger ↦ ([], toggle screen button (applet_opens p slot) p)
      | right_launcher_body ↦ (right_launcher_action button slot, p)
      | applet ↦ (applet_action button slot, p)
      | workspace ↦ (workspace_action button desk, p)
      | left_menu_button ↦ ([], p)
      | left_handle ↦ ([], p)
      | right_iconify_button ↦ ([], p)
      | right_handle ↦ ([], p)
      | nowhere ↦ ([], p)
    ]

abbrev pub is_active : Option ℕ → Bool
is_active none = false
is_active (some i) = true

-- A hit elsewhere closes the open subpanel first.
unfoldable pub dispatch_panel_hit : Screen → Hit → ℕ → Panel → List Action × Panel
dispatch_panel_hit screen hit button p =
    let kept = keeps_open hit.role in
    let closing = if kept then false else (p.sp_surface.is_open && is_active p.active_subpanel) in
    acted screen hit button (if closing then close_subpanel p else p)

-- `on_subpanel` says whether the surface under the pointer is the subpanel's.
unfoldable pub pointer_button : Screen → Bool → ℤ → ℤ → ℕ → Bool → Panel → List Action × Panel
pointer_button screen on_subpanel x y button pressed p =
    let (hit, placed) = hit_test_panel x y p in
    if pressed
    then if on_subpanel
      then dispatch_panel_hit screen (hit_test_subpanel x y p) button p
      else dispatch_panel_hit screen hit button placed
    else ([], p)
