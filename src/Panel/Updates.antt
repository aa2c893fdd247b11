-- ===== src/Panel/Updates.antt =====
-- What the runtime's topics change: `recompute_panel_dimensions`, `parse_layout_env_contents`, the
-- other parsers' effect on the panel and `apply_runtime_frame` of src/nscde_paneld/nscde_paneld.c.
pub mod Drawn
pub mod Undrawn
use orca_cde.Layout.{Entry, parse_contents}
use orca_cde.Panel.Applets.{rebuild_applets}
use orca_cde.Panel.Frames.{redraw}
use orca_cde.Panel.Launchers.{Launcher, Launchers, rebuild_launchers}
use orca_cde.Panel.Metrics.{metric}
use orca_cde.Panel.State.{Panel}
use orca_cde.Panel.Subpanels.{Seen, parse_subpanels, launcher_subpanel}
use orca_cde.Panel.Theme.{Color, parse_env}
use orca_cde.Panel.Workspaces.{parse_workspaces}
use orca_cde.Prelude.Int.{ℤ, pos, ◌+ℤ◌, ◌*ℤ◌}
use orca_cde.Prelude.{
  ℕ, zero, suc, ◌+◌, Bool, true, false, Option, none, some, List, [], ◌∷◌, if◌then◌else◌, length,
  Bytes, codes, equal,
}
use orca_cde.Runtime.Frame.{Frame, FrameType, state, snapshot, event}

unfoldable pub recompute_panel_dimensions : Panel → Panel
recompute_panel_dimensions p =
    let around =
      metric "NSCDE_PANEL_MARGIN" p.layout *ℤ pos 2
      +ℤ metric "NSCDE_PANEL_BORDER_WIDTH" p.layout *ℤ pos 2 in
    record p {
      height = around +ℤ metric "NSCDE_PANEL_HEIGHT" p.layout;
      width =
          around
          +ℤ metric "NSCDE_PANEL_LEFT_HANDLE_WIDTH" p.layout
          +ℤ metric "NSCDE_PANEL_LEFT_BANK_WIDTH" p.layout
          +ℤ metric "NSCDE_PANEL_CENTER_SECTION_WIDTH" p.layout
          +ℤ metric "NSCDE_PANEL_RIGHT_BANK_WIDTH" p.layout
          +ℤ metric "NSCDE_PANEL_RIGHT_HANDLE_WIDTH" p.layout;
    }

-- The launchers and the applets for the panel's layout.
unfoldable pub rebuilt : Panel → Panel
rebuilt p =
    let (launchers, layout) = rebuild_launchers p.layout p.launchers in
    let (applets, layout') = rebuild_applets layout p.applets in
    record p { launchers = launchers; applets = applets; layout = layout' }

-- The first `n` launchers from index `i` on get their subpanels.
unfoldable pub map_subpanels : Seen → ℕ → ℕ → List Launcher → List Launcher
map_subpanels s i zero lbs = lbs
map_subpanels s i (suc n) [] = []
map_subpanels s i (suc n) (lb ∷ lbs) =
    record lb { subpanel_idx = launcher_subpanel i s } ∷ map_subpanels s (suc i) n lbs

unfoldable pub with_subpanels : Bytes → Panel → Panel
with_subpanels contents p =
    let l = p.launchers in
    let seen = parse_subpanels contents p.subpanels.0 in
    record p {
      subpanels = seen;
      launchers = record l { launchers = map_subpanels seen 0 l.launcher_count l.launchers };
    }

abbrev pub is_update : FrameType → Bool
is_update state = true
is_update snapshot = true
is_update event = true
is_update _ = false

-- `scan` is `sscanf` with the format "%02x%02x%02x"; `buffer` as in `render_and_commit`.
module _ (alloc : ℕ → Bool) (scan : Bytes → Option Color) (buffer : Bool) where
  unfoldable pub parse_layout_env_contents : Bytes → Panel → Panel
  parse_layout_env_contents contents p =
      let (parsed, layout) = parse_contents alloc contents p.layout in
      if parsed
      then redraw buffer (recompute_panel_dimensions (rebuilt (record p { layout = layout })))
      else p

  -- The other parsers work on what `duplicate_text` gives.
  abbrev pub on_copy : Bytes → (Panel → Panel) → Panel → Panel
  on_copy contents parse p = if alloc (length contents + 1) then redraw buffer (parse p) else p

  abbrev pub with_env : Bytes → Panel → Panel
  with_env contents p =
      let (theme, workspaces) = parse_env scan contents (p.theme, p.workspaces) in
      record p { theme = theme; workspaces = workspaces }

  unfoldable pub parse_env_contents : Bytes → Panel → Panel
  parse_env_contents contents p = on_copy contents (with_env contents) p

  abbrev pub with_workspaces : Bytes → Panel → Panel
  with_workspaces contents p = record p { workspaces = parse_workspaces contents p.workspaces }

  unfoldable pub parse_workspaces_env_contents : Bytes → Panel → Panel
  parse_workspaces_env_contents contents p = on_copy contents (with_workspaces contents) p

  unfoldable pub parse_subpanel_env_contents : Bytes → Panel → Panel
  parse_subpanel_env_contents contents p = on_copy contents (with_subpanels contents) p

  -- The parser for a topic, where there is one.
  unfoldable pub apply_contents : Bytes → Bytes → Panel → Panel
  apply_contents topic contents p =
      if equal topic (codes "panel-layout")
      then parse_layout_env_contents contents p
      else if equal topic (codes "panel")
      then parse_env_contents contents p
      else if equal topic (codes "workspaces")
      then parse_workspaces_env_contents contents p
      else if equal topic (codes "subpanels")
      then parse_subpanel_env_contents contents p
      else p

  unfoldable pub apply_runtime_frame : Frame → Panel → Panel
  apply_runtime_frame frame p = elim frame.contents [
    | none ↦ p
    | some contents ↦ if is_update frame.type then apply_contents frame.topic contents p else p
  ]
