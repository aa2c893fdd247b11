-- ===== src/Panel/Geometry/Buttons.antt =====
-- The positions of launchers, applets and workspace buttons: the loops of
-- `compute_panel_layout_model` in src/nscde_paneld/nscde_paneld.c.
use orca_cde.Layout.{Entry}
use orca_cde.Panel.Applets.{Applet}
use orca_cde.Panel.Geometry.{WsmFrame, sections_of, handles_of, frame_of, wsm_of}
use orca_cde.Panel.Launchers.{Launcher}
use orca_cde.Panel.Metrics.{metric}
use orca_cde.Panel.State.{Rect, Panel}
use orca_cde.Panel.Workspaces.{Button}
use orca_cde.Prelude.Int.{ℤ, pos, ltb_ℤ, ◌+ℤ◌, ◌-ℤ◌, ◌*ℤ◌, quotient}
use orca_cde.Prelude.{
  ℕ, zero, suc, ◌-◌, ◌/◌, ◌%◌, List, [], ◌∷◌, ltb, ◌==◌, if◌then◌else◌, Bytes, equal,
}

-- The first `n` launchers from the left, `launcher_x` the next one's position.
unfoldable pub place_launchers : List Entry → Rect → ℤ → ℕ → List Launcher → List Launcher
place_launchers layout bank launcher_x zero lbs = lbs
place_launchers layout bank launcher_x (suc n) [] = []
place_launchers layout bank launcher_x (suc n) (lb ∷ lbs) =
    let trigger_height = metric "NSCDE_PANEL_TRIGGER_HEIGHT" layout in
    let next = launcher_x +ℤ (lb.width +ℤ metric "NSCDE_PANEL_LAUNCHER_GAP" layout) in
    record lb {
      x = launcher_x;
      trigger_y = bank.y -ℤ trigger_height;
      trigger_h = trigger_height;
      body_y = bank.y;
      body_h = bank.h;
    }
    ∷ place_launchers layout bank next n lbs

-- The position that an applet leaves for the one before it.
abbrev pub before : ℤ → ℤ → Applet → ℤ
before gap applet_x slot = applet_x -ℤ slot.width -ℤ (if slot.is_launcher then pos 0 else gap)

-- The first `n` applets from the right: those behind are placed first, and the position that they
-- leave comes with them.
unfoldable pub place_applets : List Entry → Rect → ℤ → ℕ → List Applet → List Applet × ℤ
place_applets layout bank applet_x zero slots = (slots, applet_x)
place_applets layout bank applet_x (suc n) [] = ([], applet_x)
place_applets layout bank applet_x (suc n) (slot ∷ slots) =
    let trigger_height = metric "NSCDE_PANEL_TRIGGER_HEIGHT" layout in
    let gap = metric "NSCDE_PANEL_RIGHT_APPLET_GAP" layout in
    let (placed, right) = place_applets layout bank applet_x n slots in
    let here = record slot {
      x = right -ℤ slot.width;
      trigger_y = bank.y -ℤ trigger_height;
      trigger_h = trigger_height;
      body_y = bank.y;
      body_h = bank.h;
    } in
    (here ∷ placed, before gap right slot)

abbrev pub rows_of : ℕ → ℕ
rows_of count = if ltb 2 count then 2 else 1

abbrev pub cols_of : ℕ → ℕ
cols_of count = if ltb 2 count then 2 else (if ltb 0 count then count else 1)

-- The size of the workspace buttons.
unfoldable pub button_size : List Entry → WsmFrame → ℕ → ℤ × ℤ
button_size layout f count =
    let gap = metric "NSCDE_PANEL_WORKSPACE_BUTTON_GAP" layout in
    let least = metric "NSCDE_PANEL_WORKSPACE_MIN_BUTTON_WIDTH" layout in
    let w = quotient (f.grid_w -ℤ pos (cols_of count - 1) *ℤ gap) (cols_of count) in
    let h = quotient (f.grid_h -ℤ pos (rows_of count - 1) *ℤ gap) (rows_of count) in
    (if ltb_ℤ w least then least else w, h)

-- The workspace button in slot `i` of `count`.
unfoldable pub placed_button : List Entry → WsmFrame → ℕ → Bytes → ℕ → Button → Button
placed_button layout f count current i b =
    let gap = metric "NSCDE_PANEL_WORKSPACE_BUTTON_GAP" layout in
    let (w, h) = button_size layout f count in
    let row = if rows_of count == 1 then 0 else i / 2 in
    let col = if rows_of count == 1 then i else i % 2 in
    record b {
      x = f.grid_x +ℤ pos col *ℤ (w +ℤ gap);
      y = f.grid_y +ℤ pos row *ℤ (h +ℤ gap);
      width = w;
      height = h;
      active = equal b.name current;
    }

-- The first `n` buttons from slot `i` on.
unfoldable pub place_buttons : (ℕ → Button → Button) → ℕ → ℕ → List Button → List Button
place_buttons place i zero bs = bs
place_buttons place i (suc n) [] = []
place_buttons place i (suc n) (b ∷ bs) = place i b ∷ place_buttons place (suc i) n bs

-- The panel with its model computed and its parts placed.
unfoldable pub compute_panel_layout_model : Panel → Panel
compute_panel_layout_model p =
    let s = sections_of p in
    let f = frame_of p.layout s in
    let l = p.launchers in
    let a = p.applets in
    let ws = p.workspaces in
    let bank = s.right_bank in
    let place = placed_button p.layout f ws.workspace_count ws.current_workspace in
    record p {
      layout_model = record {
        sections = s;
        handles = handles_of p.layout s;
        wsm = wsm_of p.layout f;
      };
      launchers = record l {
        launchers = place_launchers p.layout s.left_bank s.left_bank.x l.launcher_count l.launchers;
      };
      applets = record a {
        applets = (place_applets p.layout bank (bank.x +ℤ bank.w) a.applet_count a.applets).0;
      };
      workspaces = record ws {
        workspaces = place_buttons place 0 ws.workspace_count ws.workspaces;
      };
    }
