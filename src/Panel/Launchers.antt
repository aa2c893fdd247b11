-- ===== src/Panel/Launchers.antt =====
-- The launchers on the panel's left: `rebuild_launchers` of src/nscde_paneld/nscde_paneld.c.
use orca_cde.Layout.{Entry}
use orca_cde.Panel.Metrics.{metric, label_text, set_metric}
use orca_cde.Panel.Modules.{AppletType, unknown, Module, lookup_panel_module}
use orca_cde.Panel.Subpanels.{path_max_len}
use orca_cde.Panel.Workspaces.{max_name_len, skip_spaces, comma_parts}
use orca_cde.Prelude.Int.{ℤ, pos, ◌+ℤ◌, ◌*ℤ◌}
use orca_cde.Prelude.{
  ℕ, ◌-◌, Bool, false, ◌&&◌, Option, none, some, List, [], ◌∷◌, leb, if◌then◌else◌, length, take,
  Bytes, clip,
}

-- MAX_LAUNCHERS
abbrev pub max_launchers : ℕ
max_launchers = 16

-- `struct launcher_button`; the subpanel -1 is `none`.
pub record Launcher : Type 0 where
  pub module_name : Bytes
  pub label : Bytes
  pub command : Bytes
  pub content_type : AppletType
  pub show_label : Bool
  pub x : ℤ
  pub width : ℤ
  pub icon_size : ℤ
  pub trigger_y : ℤ
  pub trigger_h : ℤ
  pub body_y : ℤ
  pub body_h : ℤ
  pub subpanel_idx : Option ℕ

pub record Launchers : Type 0 where
  pub launchers : List Launcher
  pub launcher_count : ℕ
  pub left_area_width : ℤ

abbrev pub capitalized : Bytes → Bytes
capitalized [] = []
capitalized (c ∷ s) = (if leb b'a' c && leb c b'z' then c - 32 else c) ∷ s

abbrev pub with_module : Bytes → Option Module → Launcher → Launcher
with_module tok (some m) lb = record lb {
  label = clip max_name_len m.label;
  command = clip path_max_len m.command;
  content_type = m.content_type;
  show_label = m.show_label;
}
with_module tok none lb = record lb {
  label = capitalized (clip max_name_len tok);
  command = [];
  content_type = unknown;
  show_label = false;
}

-- The launcher for a part of the list of modules.
unfoldable pub launcher_of : List Entry → Bytes → Launcher → Launcher
launcher_of layout part lb =
    let tok = skip_spaces part in
    with_module tok (lookup_panel_module tok) (record lb {
      module_name = clip max_name_len tok;
      x = pos 0;
      width = metric "NSCDE_PANEL_LAUNCHER_UNIT_WIDTH" layout;
      icon_size = metric "NSCDE_PANEL_LAUNCHER_ICON_SIZE" layout;
      subpanel_idx = none;
    })

unfoldable pub launchers_of : List Entry → List Bytes → List Launcher → List Launcher
launchers_of layout [] lbs = lbs
launchers_of layout (tok ∷ toks) [] = []
launchers_of layout (tok ∷ toks) (lb ∷ lbs) =
    launcher_of layout tok lb ∷ launchers_of layout toks lbs

unfoldable pub rebuild_launchers : List Entry → Launchers → Launchers × List Entry
rebuild_launchers layout l =
    let toks =
      take max_launchers
        (comma_parts max_name_len (label_text "NSCDE_PANEL_LEFT_MODULES" layout)) in
    let handle = metric "NSCDE_PANEL_LEFT_HANDLE_WIDTH" layout in
    let bank = pos (length toks) *ℤ metric "NSCDE_PANEL_LAUNCHER_UNIT_WIDTH" layout in
    (
      record {
        launchers = launchers_of layout toks l.launchers;
        launcher_count = length toks;
        left_area_width = handle +ℤ bank;
      },
      set_metric "NSCDE_PANEL_CENTER_SECTION_X" (handle +ℤ bank) (
          set_metric "NSCDE_PANEL_LEFT_BANK_WIDTH" bank
            (set_metric "NSCDE_PANEL_LEFT_LAUNCHER_COUNT" (pos (length toks)) layout)),
    )
