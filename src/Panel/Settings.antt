-- ===== src/Panel/Settings.antt =====
-- The settings in a state's contents, as the loops over lines of `parse_env_contents`,
-- `parse_workspaces_env_contents` and `parse_subpanel_env_contents` in
-- src/nscde_paneld/nscde_paneld.c find them.
pub mod Lines
use orca_cde.Prelude.{
  ℕ, Bool, true, false, ◌&&◌, Option, none, some, List, [], ◌∷◌, ◌==◌, if◌then◌else◌, Bytes, is_nil,
  cut, tokens,
}

-- A key and its value.
abbrev pub Setting : Type 0
Setting = Bytes × Bytes

-- The line without the carriage returns that it ends with.
unfoldable pub strip_returns : Bytes → Bytes
strip_returns [] = []
strip_returns (c ∷ s) =
    let rest = strip_returns s in if (c == b'\r') && is_nil rest then [] else c ∷ rest

-- The setting of a line: no comment, and with an equals sign.
unfoldable pub setting_of : Bytes → Option Setting
setting_of [] = none
setting_of (c ∷ s) =
    let (key, after) = cut b'=' (c ∷ s) in
    if c == b'#' then none else elim after [ none ↦ none | some val ↦ some (key, val) ]

abbrev pub or_skip : Option Setting → List Setting → List Setting
or_skip none rest = rest
or_skip (some kv) rest = kv ∷ rest

unfoldable pub settings_of : List Bytes → List Setting
settings_of [] = []
settings_of (l ∷ ls) = or_skip (setting_of (strip_returns l)) (settings_of ls)

-- The settings that the loop over the lines comes to, in order.
unfoldable pub env_settings : Bytes → List Setting
env_settings contents = settings_of (tokens b'\n' contents)
