-- ===== src/Toplevel.antt =====
-- The toplevel daemon, src/nscde_toplevel/nscde_toplevel.c: its state, the windows in their slots
-- and the callbacks of the protocol that change them. State: what is published, Events: the
-- callbacks by the handle they are for, Control: commands.
pub mod Validity
pub mod Runs
pub mod Removal
pub mod State
pub mod Events
pub mod Control
use orca_cde.Daemon.Slots.{Occupant, remove_in}
use orca_cde.Prelude.{
  ℕ, zero, suc, ◌+◌, ◌-◌, Bool, true, false, Option, none, some, List, [], ◌∷◌, ltb, ◌==◌,
  if◌then◌else◌, get_elem?, modify, Bytes, clip,
}
use orca_cde.Runtime.Request.{Publisher}

-- MAX_TOPLEVELS
abbrev pub max_toplevels : ℕ
max_toplevels = 64

-- MAX_TITLE_LEN
abbrev pub max_title_len : ℕ
max_title_len = 512

-- MAX_APP_ID_LEN
abbrev pub max_app_id_len : ℕ
max_app_id_len = 256

-- `struct toplevel`; the null handle is `none`.
pub record Window : Type 0 where
  pub handle : Option ℕ
  pub title : Bytes
  pub app_id : Bytes
  pub maximized : Bool
  pub minimized : Bool
  pub activated : Bool
  pub fullscreen : Bool
  pub valid : Bool

-- A window as the occupant of a slot.
abbrev pub occupant : Occupant Window
occupant = record {
  handle = λ w. w.handle;
  is_valid = λ w. w.valid;
  invalidated = λ w. record w { valid = false };
}

-- The daemon's state; `listeners` is the slot that each handle was given.
pub record Desktop : Type 0 where
  pub toplevels : List Window
  pub toplevel_count : ℕ
  pub focused_title : Bytes
  pub focused_app_id : Bytes
  pub focused_id : ℕ
  pub listeners : List (ℕ × ℕ)
  pub publisher : Publisher
  pub fifo_path : Bytes
  pub has_seat : Bool
  pub running : Bool
  pub dirty : Bool

abbrev pub added : ℕ → Window → Window
added h w = record {
  handle = some h;
  title = [];
  app_id = [];
  maximized = false;
  minimized = false;
  activated = false;
  fullscreen = false;
  valid = true;
}

-- The slot of the new window, where there is one left.
unfoldable pub add_toplevel : ℕ → Desktop → Option ℕ × Desktop
add_toplevel h d =
    if ltb d.toplevel_count max_toplevels
    then (
      some d.toplevel_count,
      record d {
        toplevels = modify d.toplevels d.toplevel_count (added h);
        toplevel_count = suc d.toplevel_count;
      },
    )
    else (none, d)

unfoldable pub remove_toplevel : ℕ → Desktop → Desktop
remove_toplevel h d = elim (remove_in occupant d.toplevel_count h d.toplevels) [
  | none ↦ d
  | some ws ↦ record d { toplevels = ws; toplevel_count = d.toplevel_count - 1; dirty = true }
]

-- In `manager_handle_toplevel` the handle gets a listener where there is a slot for it.
abbrev pub attach : ℕ → Option ℕ × Desktop → Desktop
attach h (none, d) = d
attach h (some i, d) = record d { listeners = (h, i) ∷ d.listeners }

abbrev pub titled : Bytes → Window → Window
titled title w = record w { title = clip max_title_len title }

abbrev pub with_app_id : Bytes → Window → Window
with_app_id app_id w = record w { app_id = clip max_app_id_len app_id }

unfoldable pub toplevel_handle_title : ℕ → Bytes → Desktop → Desktop
toplevel_handle_title i title d = record d {
  toplevels = modify d.toplevels i (titled title);
  dirty = true;
}

unfoldable pub toplevel_handle_app_id : ℕ → Bytes → Desktop → Desktop
toplevel_handle_app_id i app_id d = record d {
  toplevels = modify d.toplevels i (with_app_id app_id);
  dirty = true;
}

-- One entry of the array of states; the constants of the protocol are 0, 1, 2 and 3.
abbrev pub with_entry : ℕ → Window → Window
with_entry entry w =
    if entry == 0
    then record w { maximized = true }
    else if entry == 1
    then record w { minimized = true }
    else if entry == 2
    then record w { activated = true }
    else if entry == 3
    then record w { fullscreen = true }
    else w

abbrev pub with_entries : List ℕ → Window → Window
with_entries [] w = w
with_entries (entry ∷ entries) w = with_entries entries (with_entry entry w)

abbrev pub with_states : List ℕ → Window → Window
with_states entries w =
    with_entries entries
      (record w { maximized = false; minimized = false; activated = false; fullscreen = false })

-- The focus moves to the window in slot `i` if it is activated; its index is found below the count.
unfoldable pub focus : ℕ → Option Window → Desktop → Desktop
focus i none d = d
focus i (some w) d =
    let focused = record d {
      focused_id = if ltb i d.toplevel_count then i else d.focused_id;
      focused_title = clip max_title_len w.title;
      focused_app_id = clip max_app_id_len w.app_id;
    } in
    if w.activated then focused else d

unfoldable pub toplevel_handle_state : ℕ → List ℕ → Desktop → Desktop
unfolding focus
toplevel_handle_state i entries d =
    let changed = record d { toplevels = modify d.toplevels i (with_states entries) } in
    let d' = focus i (get_elem? changed.toplevels i) changed in record d' { dirty = true }
