-- ===== src/Tests/Panels.antt =====
-- A panel with a launcher, an applet and the workspaces of a pager.
use orca_cde.Daemon.Slots.Removal.{erase}
use orca_cde.Layout.{Entry, text, text_value}
use orca_cde.Pager.Removal.{workspaces_of, remove_workspace-erase}
use orca_cde.Pager.State.{write_workspaces_state}
use orca_cde.Pager.{remove_workspace}
use orca_cde.Pager.Validity.{IsNamed, IsPager}
use orca_cde.Panel.Applets.Stale.{Shows, rebuild_applets_stale}
use orca_cde.Panel.Applets.{Applet, Applets, rebuild_applets}
use orca_cde.Panel.Metrics.{field_of, label_text}
use orca_cde.Panel.Modules.{
  unknown, date, mail, applet_type_from_name, module_map, find_module, lookup_panel_module,
}
use orca_cde.Panel.Subpanels.{
  Entry as SubpanelEntry, Subpanel, max_subpanels, max_subpanel_entries, parse_subpanels,
  launcher_subpanel,
}
use orca_cde.Panel.Subpanels.Usable.{
  HasEntries, IsSeen, openable, parse_subpanels-IsSeen, launcher_subpanel-openable,
}
use orca_cde.Panel.Settings.{Setting, env_settings}
use orca_cde.Panel.Settings.Lines.{lines_text, env_settings-lines_text}
use orca_cde.Panel.Theme.{Color, Theme, IsTheme, parse_env, parse_env-IsTheme}
use orca_cde.Panel.Workspaces.{
  Button, Workspaces, max_workspaces, parse_workspaces, skip_spaces, comma_parts,
}
use orca_cde.Panel.Workspaces.Names.{IsReadable, shown, shown-names_of}
use orca_cde.Prelude.Int.{pos}
use orca_cde.Prelude.{
  true, false, Option, none, some, List, [], ◌∷◌, ◌≡◌, refl, arith, replicate, length-replicate,
  get_elem?, All-replicate, Bytes, codes, equal, split, clip,
}
use orca_cde.Pager.State.{names_text}
use orca_cde.Tests.Pagers.{second, vacant, two}

two-IsPager : IsPager two
two-IsPager = record {
  slots = refl;
  counted = omega arith;
  live = (refl, (refl, tt));
  names = (omega arith, (omega arith, All-replicate IsNamed 30 vacant (omega arith)));
  current = omega arith;
}

remove_workspace-erase_example : workspaces_of (remove_workspace 10 two) ≡ second ∷ []
unfolding erase
remove_workspace-erase_example = remove_workspace-erase 10 two (refl, (refl, tt))

two-IsReadable : IsReadable two
unfolding names_text
two-IsReadable = record {
  names = (ground arith, (ground arith, tt));
  fits = omega arith;
  current = (tt, tt);
  fifo = (ground arith, ground arith);
}

abbrev pub button : Button
button = record {
  name = codes "Old";
  x = pos 0;
  y = pos 0;
  width = pos 0;
  height = pos 0;
  active = true;
}

abbrev pub old_workspaces : Workspaces
old_workspaces = record {
  workspaces = replicate max_workspaces button;
  workspace_count = 4;
  current_workspace = codes "Old";
}

shown-names_of_example :
    (shown (parse_workspaces (write_workspaces_state two) old_workspaces)
      ≡ codes "One" ∷ codes "Two" ∷ [])
    × ((parse_workspaces (write_workspaces_state two) old_workspaces).current_workspace ≡ [])
shown-names_of_example =
    shown-names_of two old_workspaces two-IsPager two-IsReadable
      (length-replicate max_workspaces button)

abbrev no_entry : SubpanelEntry
no_entry = record { title = []; type = []; icon = []; command = [] }

abbrev blank : Subpanel
blank = record {
  name = [];
  width = pos 160;
  enabled = false;
  entry_count = pos 0;
  entries = replicate max_subpanel_entries no_entry;
}

blank-HasEntries : HasEntries blank
blank-HasEntries = length-replicate max_subpanel_entries no_entry

-- The second subpanel can be opened.
abbrev subpanel_text : Bytes
subpanel_text =
    codes "NSCDE_SUBPANEL_COUNT=1\nNSCDE_SUBPANEL_2_ENABLED=1\nNSCDE_SUBPANEL_2_ENTRY_COUNT=40\n"

parse_subpanels-IsSeen_example :
    IsSeen (parse_subpanels subpanel_text (replicate max_subpanels blank))
parse_subpanels-IsSeen_example =
    parse_subpanels-IsSeen subpanel_text (replicate max_subpanels blank)
      (All-replicate HasEntries max_subpanels blank blank-HasEntries)

launcher_subpanel-openable_example :
    launcher_subpanel 2 (parse_subpanels subpanel_text (replicate max_subpanels blank))
    ≡ openable 1 (get_elem? (parse_subpanels subpanel_text (replicate max_subpanels blank)).0 1)
launcher_subpanel-openable_example =
    launcher_subpanel-openable 1 subpanel_text (replicate max_subpanels blank)
      (All-replicate HasEntries max_subpanels blank blank-HasEntries)

abbrev pub grey : Color
grey = record { red = 128; green = 128; blue = 128 }

abbrev pub theme : Theme
theme = record { right_label = []; palette_slots = replicate 8 grey; fp_variant = pos 8 }

abbrev pub unread : Bytes → Option Color
unread s = none

parse_env-IsTheme_example :
    IsTheme
      (parse_env unread
        (codes "NSCDE_THEME_NAME=Broica\nNSCDE_PALETTE_9=#102030\n")
        (theme, old_workspaces)).0
parse_env-IsTheme_example =
    parse_env-IsTheme unread (codes "NSCDE_THEME_NAME=Broica\nNSCDE_PALETTE_9=#102030\n") theme
      old_workspaces (length-replicate 8 grey)

-- A slot that held a launcher.
abbrev pub styled : Applet
styled = record {
  type = unknown;
  is_launcher = true;
  name = codes "style";
  label = codes "Style";
  x = pos 0;
  width = pos 63;
  height = pos 62;
  trigger_y = pos 0;
  trigger_h = pos 16;
  body_y = pos 16;
  body_h = pos 62;
  subpanel_idx = some 5;
  command = codes "nscde_stylemgr";
}

-- A layout that only lists the modules on the right.
abbrev listing : Bytes → List Entry
listing modules =
    record { key = codes "NSCDE_PANEL_RIGHT_MODULES"; rule = text 256; value = text_value modules }
    ∷ []

abbrev bare : Applets
bare = record { applets = record styled { command = [] } ∷ []; applet_count = 0 }

-- The mail applet takes the slot of the date.
rebuild_applets_stale_example :
    (shown : Applet) × (get_elem?
        (rebuild_applets
          (listing (codes " mail"))
          (rebuild_applets (listing (codes "date,load")) bare).0).0.applets
        0
      ≡ some shown)
    × Shows shown mail (codes "Date") (codes "nscde_calendar")
unfolding applet_type_from_name skip_spaces equal label_text field_of comma_parts split clip
    lookup_panel_module find_module module_map
rebuild_applets_stale_example =
    rebuild_applets_stale (listing (codes "date,load")) (listing (codes " mail")) bare 0
      {old = codes "date"} {new = codes " mail"} {slot = record styled { command = [] }}
      {m = record {
        name = codes "date";
        label = codes "Date";
        command = codes "nscde_calendar";
        content_type = date;
        show_label = false;
      }}
      refl refl refl refl refl refl refl refl

abbrev some_settings : List Setting
some_settings = (codes "NSCDE_BACKEND", codes "labwc=1") ∷ (codes "NSCDE_THEME_NAME", []) ∷ []

env_settings-lines_text_example : env_settings (lines_text some_settings) ≡ some_settings
env_settings-lines_text_example =
    env_settings-lines_text some_settings
      ((ground arith, (ground arith, ground arith)), ((ground arith, (tt, tt)), tt))
