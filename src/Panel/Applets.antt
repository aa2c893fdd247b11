-- ===== src/Panel/Applets.antt =====
-- The applets and launchers on the panel's right: `rebuild_applets` and
-- `right_launcher_subpanel_index` of src/nscde_paneld/nscde_paneld.c.
pub mod Widths
pub mod Stale
use orca_cde.Layout.{Entry}
use orca_cde.Panel.Metrics.{metric, label_text, set_metric}
use orca_cde.Panel.Modules.{
  AppletType, clock, date, mail, load, unknown, is_unknown, Module, applet_type_from_name,
  lookup_panel_module,
}
use orca_cde.Panel.Subpanels.{path_max_len}
use orca_cde.Panel.Workspaces.{max_name_len, skip_spaces, comma_parts}
use orca_cde.Prelude.Int.{ℤ, pos, ◌+ℤ◌}
use orca_cde.Prelude.{
  ℕ, zero, suc, ◌+◌, Bool, true, false, ◌&&◌, not, Option, none, some, List, [], ◌∷◌, ltb,
  if◌then◌else◌, length, take, Bytes, is_nil, clip,
}

-- MAX_APPLETS
abbrev pub max_applets : ℕ
max_applets = 8

-- `struct applet_slot`; the subpanel -1 is `none`.
pub record Applet : Type 0 where
  pub type : AppletType
  pub is_launcher : Bool
  pub name : Bytes
  pub label : Bytes
  pub x : ℤ
  pub width : ℤ
  pub height : ℤ
  pub trigger_y : ℤ
  pub trigger_h : ℤ
  pub body_y : ℤ
  pub body_h : ℤ
  pub subpanel_idx : Option ℕ
  pub command : Bytes

pub record Applets : Type 0 where
  pub applets : List Applet
  pub applet_count : ℕ

abbrev pub right_launcher_subpanel_index : ℕ → Option ℕ
right_launcher_subpanel_index i =
    if ltb i 5 then some (i + 5) else if ltb i 10 then some (i + 10) else none

-- The label and the command of a module.
abbrev pub looked_up : Option Module → Applet → Applet
looked_up none slot = slot
looked_up (some m) slot = record slot {
  label = clip max_name_len m.label;
  command = clip path_max_len m.command;
}

-- A name that is no applet's is a launcher's, of a module or of its own.
abbrev pub as_launcher : Bytes → Option Module → Applet → Applet
as_launcher tok (some m) slot =
    let slot' = looked_up (some m) slot in
    record slot' { is_launcher = is_unknown m.content_type; type = m.content_type }
as_launcher tok none slot = record slot {
  label = clip max_name_len tok;
  command = [];
  is_launcher = true;
}

-- The width and the height of an applet.
abbrev pub size_of : List Entry → AppletType → ℤ × ℤ
size_of layout clock = let size = metric "NSCDE_PANEL_APPLET_CLOCK_SIZE" layout in (size, size)
size_of layout date = let size = metric "NSCDE_PANEL_APPLET_DATE_SIZE" layout in (size, size)
size_of layout mail = let size = metric "NSCDE_PANEL_APPLET_MAIL_SIZE" layout in (size, size)
size_of layout load =
    (metric "NSCDE_PANEL_APPLET_LOAD_WIDTH" layout, metric "NSCDE_PANEL_APPLET_LOAD_HEIGHT" layout)
size_of layout unknown =
    (metric "NSCDE_PANEL_LAUNCHER_UNIT_WIDTH" layout, metric "NSCDE_PANEL_BODY_HEIGHT" layout)

abbrev pub sized : List Entry → Applet → Applet
sized layout slot = let (w, h) = size_of layout slot.type in record slot { width = w; height = h }

-- The type, and for a launcher the module, of the applet with a name.
unfoldable pub kind_of : Bytes → Applet → Applet
kind_of tok slot =
    let typed = record slot {
      is_launcher = false;
      subpanel_idx = none;
      type = applet_type_from_name tok;
      name = clip max_name_len tok;
    } in
    if is_unknown (applet_type_from_name tok)
    then as_launcher tok (lookup_panel_module tok) typed
    else typed

-- The applet in slot `i` for a part of the list of modules.
unfoldable pub applet_of : List Entry → ℕ → Bytes → Applet → Applet
applet_of layout i part slot =
    let tok = skip_spaces part in
    let as1 = kind_of tok slot in
    let as2 = record as1 {
      subpanel_idx = if as1.is_launcher then right_launcher_subpanel_index i else as1.subpanel_idx;
    } in
    let as3 = sized layout as2 in
    let as4 = looked_up (lookup_panel_module tok) as3 in
    if not as3.is_launcher && is_nil as3.command then as4 else as3

unfoldable pub applets_of : List Entry → ℕ → List Bytes → List Applet → List Applet
applets_of layout i [] slot = slot
applets_of layout i (tok ∷ toks) [] = []
applets_of layout i (tok ∷ toks) (a ∷ slot) =
    applet_of layout i tok a ∷ applets_of layout (suc i) toks slot

abbrev pub is_positive : ℕ → Bool
is_positive zero = false
is_positive (suc i) = true

-- The widths of the first `n` applets from slot `i` on, with the gaps in front of them.
unfoldable pub bank_width : ℤ → ℕ → ℕ → List Applet → ℤ
bank_width gap i zero slot = pos 0
bank_width gap i (suc n) [] = pos 0
bank_width gap i (suc n) (a ∷ slot) =
    (a.width +ℤ (if is_positive i && not a.is_launcher then gap else pos 0))
    +ℤ bank_width gap (suc i) n slot

unfoldable pub rebuild_applets : List Entry → Applets → Applets × List Entry
rebuild_applets layout a =
    let toks =
      take max_applets (comma_parts max_name_len (label_text "NSCDE_PANEL_RIGHT_MODULES" layout)) in
    let slot = applets_of layout 0 toks a.applets in
    let gap = metric "NSCDE_PANEL_RIGHT_APPLET_GAP" layout in
    (
      record { applets = slot; applet_count = length toks },
      set_metric "NSCDE_PANEL_RIGHT_LAUNCHER_COUNT" (pos (length toks))
          (set_metric "NSCDE_PANEL_RIGHT_BANK_WIDTH" (bank_width gap 0 (length toks) slot) layout),
    )
