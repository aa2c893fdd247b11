-- ===== src/Panel/Workspaces.antt =====
-- The workspaces that the panel shows: `parse_workspaces_env_contents` of
-- src/nscde_paneld/nscde_paneld.c.
pub mod Names
use orca_cde.Panel.Settings.{Setting, env_settings}
use orca_cde.Prelude.Int.{ℤ}
use orca_cde.Prelude.{
  ℕ, ◌+◌, Bool, false, List, [], ◌∷◌, ◌==◌, if◌then◌else◌, length, take, Bytes, codes, equal, clip,
  tokens,
}

-- MAX_WORKSPACES
abbrev pub max_workspaces : ℕ
max_workspaces = 32

-- MAX_NAME_LEN
abbrev pub max_name_len : ℕ
max_name_len = 256

-- STATE_LINE_LEN
abbrev pub state_line_len : ℕ
state_line_len = 1024

-- `struct ws_button`
pub record Button : Type 0 where
  pub name : Bytes
  pub x : ℤ
  pub y : ℤ
  pub width : ℤ
  pub height : ℤ
  pub active : Bool

-- The workspaces among the panel's state.
pub record Workspaces : Type 0 where
  pub workspaces : List Button
  pub workspace_count : ℕ
  pub current_workspace : Bytes

-- `while (*tok == ' ') tok++;`
unfoldable pub skip_spaces : Bytes → Bytes
skip_spaces [] = []
skip_spaces (c ∷ s) = let rest = skip_spaces s in if c == b' ' then rest else c ∷ s

-- The parts of a text between commas, read from a buffer of `size` bytes.
unfoldable pub comma_parts : ℕ → Bytes → List Bytes
comma_parts size val = tokens b',' (clip size val)

abbrev pub named : Bytes → Button → Button
named tok b = record b { name = clip max_name_len (skip_spaces tok); active = false }

-- The names are written over the first slots.
unfoldable pub written : List Bytes → List Button → List Button
written [] bs = bs
written (tok ∷ toks) [] = []
written (tok ∷ toks) (b ∷ bs) = named tok b ∷ written toks bs

unfoldable pub parse_names : Bytes → Workspaces → Workspaces
parse_names val w =
    let toks = take max_workspaces (comma_parts state_line_len val) in
    record w { workspaces = written toks w.workspaces; workspace_count = length toks }

unfoldable pub parse_workspaces_setting : Setting → Workspaces → Workspaces
parse_workspaces_setting (key, val) w =
    if equal key (codes "NSCDE_CURRENT_WORKSPACE")
    then record w { current_workspace = clip max_name_len val }
    else if equal key (codes "NSCDE_WORKSPACES")
    then parse_names val w
    else w

unfoldable pub parse_workspaces_settings : List Setting → Workspaces → Workspaces
parse_workspaces_settings [] w = w
parse_workspaces_settings (kv ∷ kvs) w =
    parse_workspaces_settings kvs (parse_workspaces_setting kv w)

-- The workspaces after contents that could be copied.
unfoldable pub parse_workspaces : Bytes → Workspaces → Workspaces
parse_workspaces contents w = parse_workspaces_settings (env_settings contents) w
