-- ===== src/Panel/Subpanels.antt =====
-- The panel's subpanels: `parse_subpanel_env_contents` of src/nscde_paneld/nscde_paneld.c.
pub mod Usable
use orca_cde.Panel.Settings.{Setting, env_settings}
use orca_cde.Panel.Theme.{slot_in}
use orca_cde.Panel.Workspaces.{max_name_len}
use orca_cde.Prelude.Int.{ℤ, pos, negsuc, ltb_ℤ}
use orca_cde.Prelude.{
  ℕ, zero, suc, ◌-◌, Bool, true, false, ◌&&◌, Option, none, some, List, [], ◌∷◌, ◌==◌, ltb, leb,
  if◌then◌else◌, map, get_elem?, modify, drop, Bytes, codes, starts_with, equal, clip, cut, atoi,
}

-- MAX_SUBPANELS
abbrev pub max_subpanels : ℕ
max_subpanels = 20

-- MAX_SUBPANEL_ENTRIES
abbrev pub max_subpanel_entries : ℕ
max_subpanel_entries = 32

-- PATH_MAX_LEN
abbrev pub path_max_len : ℕ
path_max_len = 1024

-- `struct subpanel_entry`
pub record Entry : Type 0 where
  pub title : Bytes
  pub type : Bytes
  pub icon : Bytes
  pub command : Bytes

-- `struct subpanel_def`
pub record Subpanel : Type 0 where
  pub name : Bytes
  pub width : ℤ
  pub enabled : Bool
  pub entry_count : ℤ
  pub entries : List Entry

-- The subpanels start empty; their entries keep what they held.
abbrev pub cleared : Subpanel → Subpanel
cleared sp = record sp { entry_count = pos 0; enabled = false; name = []; width = pos 160 }

-- It can be opened.
abbrev pub is_usable : Subpanel → Bool
is_usable sp = sp.enabled && ltb_ℤ (pos 0) sp.entry_count

-- The text behind the first underscore.
abbrev pub behind_underscore : Bytes → Option Bytes
behind_underscore s = (cut b'_' s).1

abbrev pub with_width : ℤ → Subpanel → Subpanel
with_width v sp = if ltb_ℤ (pos 0) v && ltb_ℤ v (pos 1024) then record sp { width = v } else sp

abbrev pub with_entry_count : ℤ → Subpanel → Subpanel
with_entry_count v sp = record sp {
  entry_count = if ltb_ℤ (pos max_subpanel_entries) v then pos max_subpanel_entries else v;
}

abbrev pub is_one : ℤ → Bool
is_one (pos n) = n == 1
is_one (negsuc n) = false

unfoldable pub with_entry_field : Bytes → Bytes → Entry → Entry
with_entry_field field val se =
    if equal field (codes "TITLE")
    then record se { title = clip max_name_len val }
    else if equal field (codes "TYPE")
    then record se { type = clip max_name_len val }
    else if equal field (codes "ICON")
    then record se { icon = clip path_max_len val }
    else if equal field (codes "COMMAND")
    then record se { command = clip path_max_len val }
    else se

abbrev pub entry_at : Bytes → Option ℕ → Option Bytes → Subpanel → Option Subpanel
entry_at val (some i) (some field) sp =
    some (record sp { entries = modify sp.entries i (with_entry_field field val) })
entry_at val _ _ sp = none

-- The part of a key behind ENTRY_; no subpanel where the loop goes on at once.
unfoldable pub with_entry : Bytes → Bytes → Subpanel → Option Subpanel
with_entry ep val sp =
    entry_at val (slot_in max_subpanel_entries (atoi ep)) (behind_underscore ep) sp

-- The part of a key behind the subpanel's number.
unfoldable pub with_field : Bytes → Bytes → Subpanel → Option Subpanel
with_field rest val sp =
    if equal rest (codes "NAME")
    then some (record sp { name = clip max_name_len val })
    else if equal rest (codes "WIDTH")
    then some (with_width (atoi val) sp)
    else if equal rest (codes "ENABLED")
    then some (record sp { enabled = is_one (atoi val) })
    else if equal rest (codes "ENTRY_COUNT")
    then some (with_entry_count (atoi val) sp)
    else if starts_with (codes "ENTRY_") rest
    then with_entry (drop 6 rest) val sp
    else some sp

-- The subpanels, and one more than the last that was seen to be usable.
abbrev pub Seen : Type 0
Seen = List Subpanel × ℕ

abbrev pub stored : ℕ → Option Subpanel → Seen → Seen
stored i none s = s
stored i (some sp) (sps, max_enabled) =
    (modify sps i (λ old. sp), if is_usable sp && leb max_enabled i then suc i else max_enabled)

abbrev pub with_subpanel : Bytes → Bytes → ℕ → Option Subpanel → Seen → Seen
with_subpanel rest val i none s = s
with_subpanel rest val i (some sp) s = stored i (with_field rest val sp) s

abbrev pub numbered : Bytes → Option ℕ → Option Bytes → Seen → Seen
numbered val (some i) (some rest) s = with_subpanel rest val i (get_elem? s.0 i) s
numbered val _ _ s = s

-- The part of a key behind NSCDE_SUBPANEL_.
unfoldable pub with_key : Bytes → Bytes → Seen → Seen
with_key p val s =
    let seen = numbered val (slot_in max_subpanels (atoi p)) (behind_underscore p) s in
    if equal p (codes "COUNT") then s else seen

unfoldable pub parse_subpanel_setting : Setting → Seen → Seen
parse_subpanel_setting (key, val) s =
    let seen = with_key (drop 15 key) val s in
    if starts_with (codes "NSCDE_SUBPANEL_") key then seen else s

unfoldable pub parse_subpanel_settings : List Setting → Seen → Seen
parse_subpanel_settings [] s = s
parse_subpanel_settings (kv ∷ kvs) s = parse_subpanel_settings kvs (parse_subpanel_setting kv s)

-- The subpanels and their count after contents that could be copied.
unfoldable pub parse_subpanels : Bytes → List Subpanel → Seen
parse_subpanels contents sps = parse_subpanel_settings (env_settings contents) (map cleared sps, 0)

-- The subpanel of a launcher: the first has none.
unfoldable pub launcher_subpanel : ℕ → Seen → Option ℕ
launcher_subpanel zero s = none
launcher_subpanel (suc i) (sps, subpanel_count) = elim (get_elem? sps i) [
  | none ↦ none
  | some sp ↦ if ltb i subpanel_count && is_usable sp then some i else none
]
