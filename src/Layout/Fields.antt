-- ===== src/Layout/Fields.antt =====
-- The fields of `struct nscde_panel_layout_contract` and their defaults, in the order in which
-- `parse_layout_entry` of src/nscde_wayland_common/panel-layout-contract.c compares their keys: the
-- key of a field, what it takes and NSCDE_PANEL_LAYOUT_CONTRACT_DEFAULTS of the header.
use Prim.Native.String.{String}
use orca_cde.Prelude.{ℕ, List, [], ◌∷◌, ◌++◌, codes}
use orca_cde.Prelude.Int.{pos}
use orca_cde.Layout.{Entry, range, text, number_value, text_value}

-- NSCDE_PANEL_LAYOUT_EDGE_LEN
abbrev pub edge_len : ℕ
edge_len = 32

-- NSCDE_PANEL_LAYOUT_TEXT_LEN
abbrev pub text_len : ℕ
text_len = 256

number : String → ℕ → ℕ → ℕ → Entry
number key min max value = record {
  key = codes key;
  rule = range min max;
  value = number_value (pos value);
}

text_field : String → ℕ → String → Entry
text_field key size value = record {
  key = codes key;
  rule = text size;
  value = text_value (codes value);
}

unfoldable panel_fields : List Entry
panel_fields =
    number "NSCDE_PANEL_HEIGHT" 1 511 79
    ∷ number "NSCDE_PANEL_BORDER_WIDTH" 0 31 4
    ∷ text_field "NSCDE_PANEL_EDGE" edge_len "bottom"
    ∷ number "NSCDE_PANEL_MARGIN" 0 255 0
    ∷ number "NSCDE_PANEL_WORKSPACE_MIN_BUTTON_WIDTH" 1 511 84
    ∷ number "NSCDE_PANEL_WORKSPACE_BUTTON_PADDING_X" 0 127 10
    ∷ number "NSCDE_PANEL_WORKSPACE_BUTTON_GAP" 0 63 6
    ∷ number "NSCDE_PANEL_WORKSPACE_RECESS_HEIGHT" 1 255 32
    ∷ number "NSCDE_PANEL_BEVEL_WIDTH" 0 15 1
    ∷ text_field "NSCDE_PANEL_FONT" text_len "DejaVu Serif 9"
    ∷ number "NSCDE_PANEL_RIGHT_AREA_WIDTH" 0 1023 200
    ∷ text_field "NSCDE_PANEL_LEFT_MODULES" text_len "clock,date,home,term,mail"
    ∷ number "NSCDE_PANEL_LAUNCHER_UNIT_WIDTH" 1 255 63
    ∷ number "NSCDE_PANEL_LAUNCHER_ICON_SIZE" 1 127 48
    ∷ number "NSCDE_PANEL_LAUNCHER_GAP" 0 63 0
    ∷ text_field "NSCDE_PANEL_RIGHT_MODULES" text_len "print,style,apps,multimedia,help"
    ∷ number "NSCDE_PANEL_APPLET_UNIT_WIDTH" 1 127 50
    ∷ number "NSCDE_PANEL_SUBPANEL_ENTRY_HEIGHT" 1 127 32
    ∷ number "NSCDE_PANEL_SUBPANEL_ICON_SIZE" 1 127 32
    ∷ number "NSCDE_PANEL_SUBPANEL_TITLE_HEIGHT" 1 127 20
    ∷ number "NSCDE_PANEL_SUBPANEL_PADDING" 0 63 4
    ∷ number "NSCDE_PANEL_LEFT_HANDLE_WIDTH" 1 127 21
    ∷ number "NSCDE_PANEL_RIGHT_HANDLE_WIDTH" 1 127 21
    ∷ number "NSCDE_PANEL_TRIGGER_HEIGHT" 1 127 16
    ∷ number "NSCDE_PANEL_BODY_HEIGHT" 1 255 62
    ∷ number "NSCDE_PANEL_BOTTOM_STRIP_HEIGHT" 0 31 1
    ∷ number "NSCDE_PANEL_SECTION_SEPARATOR_WIDTH" 0 15 1
    ∷ number "NSCDE_PANEL_RIGHT_APPLET_GAP" 0 31 4
    ∷ number "NSCDE_DESK_COUNT" 0 32 4
    ∷ number "NSCDE_PANEL_WSM_WIDTH" 1 2047 343
    ∷ number "NSCDE_PANEL_WSM_LOCK_WIDTH" 1 63 2
    ∷ []

unfoldable workspace_fields : List Entry
workspace_fields =
    number "NSCDE_PANEL_WSM_EXIT_WIDTH" 1 63 2
    ∷ number "NSCDE_PANEL_WSM_BUTTONS_WIDTH" 0 2047 0
    ∷ number "NSCDE_PANEL_LEFT_LAUNCHER_COUNT" 0 15 5
    ∷ number "NSCDE_PANEL_RIGHT_LAUNCHER_COUNT" 0 15 5
    ∷ number "NSCDE_PANEL_LEFT_BANK_WIDTH" 0 2047 311
    ∷ number "NSCDE_PANEL_RIGHT_BANK_WIDTH" 0 2047 311
    ∷ number "NSCDE_PANEL_CENTER_SECTION_X" 0 4095 332
    ∷ number "NSCDE_PANEL_CENTER_SECTION_WIDTH" 1 2047 343
    ∷ number "NSCDE_PANEL_WSM_INNER_PAD" 0 255 5
    ∷ number "NSCDE_PANEL_WSM_SIDE_WIDTH" 1 511 43
    ∷ number "NSCDE_PANEL_WSM_UTILITY_WIDTH" 1 511 43
    ∷ number "NSCDE_PANEL_WSM_SECTION_GAP" 0 255 6
    ∷ number "NSCDE_PANEL_WSM_GRID_VPAD" 0 255 3
    ∷ number "NSCDE_PANEL_WSM_LOCK_HEIGHT" 1 511 34
    ∷ number "NSCDE_PANEL_WSM_LOAD_INSET_TOP" 0 255 8
    ∷ number "NSCDE_PANEL_WSM_LOAD_INSET_SIDE" 0 255 5
    ∷ number "NSCDE_PANEL_WSM_LOAD_HEIGHT" 1 511 14
    ∷ number "NSCDE_PANEL_WSM_EXIT_HEIGHT" 1 511 30
    ∷ number "NSCDE_PANEL_WSM_EXIT_INSET_BOTTOM" 0 255 4
    ∷ number "NSCDE_PANEL_WSM_UTILITY_INSET_SIDE" 0 255 5
    ∷ number "NSCDE_PANEL_SCALE" 1 400 100
    ∷ number "NSCDE_PANEL_LAYOUT_VERSION" 0 127 0
    ∷ text_field "NSCDE_PANEL_LAYOUT_SOURCE" 64 "shell-runtime"
    ∷ text_field "NSCDE_PANEL_WS_FONT" text_len "DejaVu Serif 10"
    ∷ text_field "NSCDE_PANEL_APPLET_DATE_FONT" text_len "DejaVu Sans Bold 12"
    ∷ text_field "NSCDE_PANEL_APPLET_MAIL_FONT" text_len "DejaVu Sans 10"
    ∷ number "NSCDE_PANEL_APPLET_CLOCK_SIZE" 1 255 56
    ∷ number "NSCDE_PANEL_APPLET_DATE_SIZE" 1 255 56
    ∷ number "NSCDE_PANEL_APPLET_MAIL_SIZE" 1 255 56
    ∷ number "NSCDE_PANEL_APPLET_LOAD_WIDTH" 1 255 36
    ∷ number "NSCDE_PANEL_APPLET_LOAD_HEIGHT" 1 255 34
    ∷ text_field "NSCDE_PANEL_PROFILE" text_len "reference"
    ∷ []

unfoldable pub layout_defaults : List Entry
unfolding panel_fields workspace_fields number text_field
layout_defaults = panel_fields ++ workspace_fields
