-- ===== src/Panel/Modules.antt =====
-- The modules of the panel: `applet_type_from_name` and `lookup_panel_module` of
-- src/nscde_paneld/nscde_paneld.c.
use Prim.Native.String.{String}
use orca_cde.Prelude.{
  Bool, true, false, Option, none, some, List, [], ◌∷◌, if◌then◌else◌, Bytes, codes, equal,
}

-- `enum applet_type`
pub data AppletType : Type 0 where
  clock date mail load unknown : AppletType

abbrev pub is_unknown : AppletType → Bool
is_unknown unknown = true
is_unknown _ = false

unfoldable pub applet_type_from_name : Bytes → AppletType
applet_type_from_name name =
    if equal name (codes "clock")
    then clock
    else if equal name (codes "date")
    then date
    else if equal name (codes "mail")
    then mail
    else if equal name (codes "load")
    then load
    else unknown

-- An entry of `module_map`.
pub record Module : Type 0 where
  pub name : Bytes
  pub label : Bytes
  pub command : Bytes
  pub content_type : AppletType
  pub show_label : Bool

module_entry : String → String → String → AppletType → Module
module_entry name label command type = record {
  name = codes name;
  label = codes label;
  command = codes command;
  content_type = type;
  show_label = false;
}

unfoldable pub module_map : List Module
unfolding module_entry
module_map =
    module_entry "clock" "Clock" "" clock
    ∷ module_entry "date" "Date" "nscde_calendar" date
    ∷ module_entry "mail" "Mail" "xdg-email" mail
    ∷ module_entry "load" "Load" "" load
    ∷ module_entry "style" "Style" "nscde_stylemgr" unknown
    ∷ module_entry "home" "Home" "xdg-open $HOME" unknown
    ∷ module_entry "term" "Term" "weston-terminal" unknown
    ∷ module_entry "apps" "Apps" "nscde_appfinder" unknown
    ∷ module_entry "help" "Help"
        "xdg-open ${NSCDE_ROOT:-/opt/NsCDE}/share/doc/NsCDE/html/index.html" unknown
    ∷ module_entry "print" "Print" "xdg-open" unknown
    ∷ module_entry "multimedia" "Media" "xdg-open" unknown
    ∷ module_entry "lock" "Lock" "xscreensaver-command -lock" unknown
    ∷ module_entry "exit" "Exit" "nscde_session_command quit" unknown
    ∷ []

-- The first module with the name.
unfoldable pub find_module : Bytes → List Module → Option Module
find_module name [] = none
find_module name (m ∷ ms) =
    let rest = find_module name ms in if equal name m.name then some m else rest

-- The labels and commands fit the buffers of the callers.
unfoldable pub lookup_panel_module : Bytes → Option Module
lookup_panel_module name = find_module name module_map
