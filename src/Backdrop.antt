-- ===== src/Backdrop.antt =====
-- The backdrop daemon, src/nscde_backdropd/nscde_backdropd.c: its state, the values that it shows
-- and the swaybg processes that show them. Processes: their restart, Updates: the topic of the
-- runtime, Start: the first values.
pub mod Processes
pub mod Updates
pub mod Start
pub mod Tracked
pub mod Repeated
use orca_cde.Prelude.{
  ℕ, ◌+◌, Bool, true, false, Option, none, some, List, [], ◌∷◌, ◌++◌, if◌then◌else◌, length, drop,
  Bytes, codes, is_nil, starts_with, equal, split, clip,
}
use orca_cde.Runtime.Subscription.{Subscription}

-- MAX_OUTPUTS
abbrev pub max_outputs : ℕ
max_outputs = 16

-- PATH_MAX_LEN
abbrev pub path_max_len : ℕ
path_max_len = 1024

-- VALUE_MAX_LEN
abbrev pub value_max_len : ℕ
value_max_len = 512

-- `struct swaybg_process`; a pid that is not positive is `none`.
pub record Process : Type 0 where
  pub output_name : Bytes
  pub use_output_arg : Bool
  pub pid : Option ℕ

-- What is shown: the texts `current_workspace` to `current_color`.
pub record Values : Type 0 where
  pub workspace : Bytes
  pub desk : Bytes
  pub image_name : Bytes
  pub image : Bytes
  pub mode : Bytes
  pub color : Bytes

-- A child of the daemon: its pid and the arguments that it was started with.
abbrev pub Child : Type 0
Child = ℕ × List Bytes

-- The daemon; `children` are the processes that run, `mirror` the contents of `backdrops.env`.
pub record Backdrop : Type 0 where
  pub values : Values
  pub processes : List Process
  pub process_count : ℕ
  pub children : List Child
  pub mirror : Bytes
  pub runtime_subscription : Subscription
  pub runtime_active : Bool

-- The value of a line for the key, where there is one that is not empty.
abbrev pub value_in : Bytes → Bytes → Option Bytes
value_in key line =
    if starts_with (key ++ codes "=") line
    then (if is_nil (drop (length key + 1) line) then none else some (drop (length key + 1) line))
    else none

unfoldable pub find_value : Bytes → List Bytes → Bytes
find_value key [] = []
find_value key (line ∷ lines) =
    let rest = find_value key lines in elim (value_in key line) [ none ↦ rest | some v ↦ v ]

-- The text in the buffer of `size` bytes.
unfoldable pub parse_env_value : ℕ → Bytes → Bytes → Bytes
parse_env_value size contents key = clip size (find_value key (split b'\n' contents))

unfoldable pub resolve_swaybg_mode : Bytes → Bytes
resolve_swaybg_mode mode =
    if is_nil mode
    then codes "fill"
    else if equal mode (codes "tiled")
    then codes "tile"
    else if equal mode (codes "aspect")
    then codes "fit"
    else if equal mode (codes "photo")
    then codes "fill"
    else mode

-- The arguments of swaybg for an output.
unfoldable pub arguments : Values → Process → List Bytes
arguments v p =
    let output = if p.use_output_arg then codes "-o" ∷ p.output_name ∷ [] else [] in
    output
    ++ (if is_nil v.image
        then codes "-c" ∷ v.color ∷ []
        else codes "-i" ∷ v.image ∷ codes "-m" ∷ resolve_swaybg_mode v.mode ∷ [])
