-- ===== src/Panel/Applets/Stale.antt =====
-- The commands of the applets over two calls of `rebuild_applets` in
-- src/nscde_paneld/nscde_paneld.c.
use orca_cde.Layout.{Entry}
use orca_cde.Panel.Applets.{
  max_applets, Applet, Applets, applet_of, applets_of, kind_of, rebuild_applets,
}
use orca_cde.Panel.Metrics.{label_text}
use orca_cde.Panel.Modules.{
  AppletType, is_unknown, Module, applet_type_from_name, lookup_panel_module,
}
use orca_cde.Panel.Subpanels.{path_max_len}
use orca_cde.Panel.Workspaces.{max_name_len, skip_spaces, comma_parts}
use orca_cde.Prelude.{
  ℕ, zero, suc, ◌+◌, true, false, Option, some, List, [], ◌∷◌, ◌≡◌, ap, ◌∙◌, arith, get_elem?, take,
  Bytes, is_nil, clip,
}

-- The name that the layout lists for slot `i` of the bank.
abbrev pub named : List Entry → ℕ → Option Bytes
named layout i =
    get_elem?
      (take max_applets (comma_parts max_name_len (label_text "NSCDE_PANEL_RIGHT_MODULES" layout)))
      i

-- The name is an applet's, and not a launcher's.
abbrev pub IsApplet : Bytes → Type 0
IsApplet part = is_unknown (applet_type_from_name (skip_spaces part)) ≡ false

-- The type, the label and the command of an applet.
abbrev pub Shows : Applet → AppletType → Bytes → Bytes → Type 0
Shows slot type label command = (slot.type ≡ type) × (slot.label ≡ label) × (slot.command ≡ command)

kind_of-applet :
    (tok : Bytes) (slot : Applet)
    → is_unknown (applet_type_from_name tok) ≡ false
    → Shows (kind_of tok slot) (applet_type_from_name tok) slot.label slot.command
      × ((kind_of tok slot).is_launcher ≡ false)
unfolding kind_of
kind_of-applet tok slot h = ground (arith, h)

-- A slot without a command takes the label and the command of its module.
applet_of_fresh :
    (layout : List Entry) (i : ℕ) (part : Bytes) (slot : Applet) {m : Module}
    → IsApplet part
    → is_nil slot.command ≡ true
    → lookup_panel_module (skip_spaces part) ≡ some m
    → ((applet_of layout i part slot).label ≡ clip max_name_len m.label)
      × ((applet_of layout i part slot).command ≡ clip path_max_len m.command)
unfolding applet_of
applet_of_fresh layout i part slot h c e =
    ground (arith, kind_of-applet (skip_spaces part) slot h, c, e)

-- A slot with a command keeps it, and its label.
applet_of_kept :
    (layout : List Entry) (i : ℕ) (part : Bytes) (slot : Applet)
    → IsApplet part
    → is_nil slot.command ≡ false
    → Shows
        (applet_of layout i part slot)
        (applet_type_from_name (skip_spaces part))
        slot.label
        slot.command
unfolding applet_of
applet_of_kept layout i part slot h c = ground (arith, kind_of-applet (skip_spaces part) slot h, c)

get_elem?-applets_of :
    (layout : List Entry) (k i : ℕ) (parts : List Bytes) (slots : List Applet) {part : Bytes}
    {slot : Applet}
    → get_elem? parts i ≡ some part
    → get_elem? slots i ≡ some slot
    → get_elem? (applets_of layout k parts slots) i ≡ some (applet_of layout (k + i) part slot)
unfolding applets_of
get_elem?-applets_of layout k i [] slots p s = cc
get_elem?-applets_of layout k i (x ∷ parts) [] p s = cc
get_elem?-applets_of layout k zero (x ∷ parts) (a ∷ slots) p s = ground (arith, p, s)
get_elem?-applets_of layout k (suc i) (x ∷ parts) (a ∷ slots) {part} {slot} p s =
    let same : suc k + i ≡ k + suc i = omega arith in
    get_elem?-applets_of layout (suc k) i parts slots p s
    ∙ ap (λ j. some (applet_of layout j part slot)) same

rebuilt_at :
    (layout : List Entry) (a : Applets) (i : ℕ) {part : Bytes} {slot : Applet}
    → named layout i ≡ some part
    → get_elem? a.applets i ≡ some slot
    → get_elem? (rebuild_applets layout a).0.applets i ≡ some (applet_of layout i part slot)
unfolding rebuild_applets
rebuilt_at layout a i {part} {slot} p s =
    let same : 0 + i ≡ i = omega arith in
    get_elem?-applets_of layout 0 i _ a.applets p s
    ∙ ap (λ j. some (applet_of layout j part slot)) same

is_nil-clip : (n : ℕ) (s : Bytes) → is_nil s ≡ false → is_nil (clip (suc (suc n)) s) ≡ false
unfolding clip
is_nil-clip n [] h = cc
is_nil-clip n (x ∷ s) h = ground (arith, h)

-- Where a slot without a command is rebuilt for a clock, date, mail or load applet whose module
-- has a command, and then rebuilt again for another layout that lists such an applet for it,
-- the slot has the type of the later applet, but the label and the command of the earlier one's
-- module.
pub rebuild_applets_stale :
    (before after : List Entry) (a : Applets) (i : ℕ) {old new : Bytes} {slot : Applet} {m : Module}
    → get_elem? a.applets i ≡ some slot
    → is_nil slot.command ≡ true
    → named before i ≡ some old
    → IsApplet old
    → lookup_panel_module (skip_spaces old) ≡ some m
    → is_nil m.command ≡ false
    → named after i ≡ some new
    → IsApplet new
    → (shown : Applet) × (get_elem? (rebuild_applets after (rebuild_applets before a).0).0.applets i
        ≡ some shown)
      × Shows shown
          (applet_type_from_name (skip_spaces new))
          (clip max_name_len m.label)
          (clip path_max_len m.command)
rebuild_applets_stale before after a i {old} {new} {slot} {m} s c o x e n w y =
    let (label, command) = applet_of_fresh before i old slot x c e in
    let first = applet_of before i old slot in
    let held : is_nil first.command ≡ false = ap is_nil command ∙ is_nil-clip 1022 m.command n in
    let (type, label', command') = applet_of_kept after i new first y held in
    (
      applet_of after i new first,
      rebuilt_at after (rebuild_applets before a).0 i w (rebuilt_at before a i o s),
      (type, label' ∙ label, command' ∙ command),
    )
