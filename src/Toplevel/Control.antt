-- ===== src/Toplevel/Control.antt =====
-- Commands to the toplevel daemon: `find_toplevel_by_id`, `process_fifo_commands` and `init_paths` of
-- src/nscde_toplevel/nscde_toplevel.c.
pub mod Ids
use orca_cde.Daemon.Commands.{command_lines}
use orca_cde.Daemon.FilePaths.{daemon_fifo_path}
use orca_cde.Prelude.Int.{ℤ, pos, negsuc}
use orca_cde.Prelude.{
  ℕ, ◌-◌, ◌%◌, ◌^◌, Bool, true, false, Option, none, some, List, [], ◌∷◌, ◌++◌, ltb, if◌then◌else◌,
  get_elem?, replicate, drop, Bytes, codes, starts_with, atoi,
}
use orca_cde.Runtime.Subscription.{Received}
use orca_cde.Runtime.Transport.{Environment}
use orca_cde.Toplevel.{Window, Desktop, max_toplevels}

-- What is asked of the compositor for a handle.
pub data Request : Type 0 where
  activate close set_minimized unset_minimized set_maximized : ℕ → Request

-- `(uint32_t)n`
abbrev pub u32 : ℤ → ℕ
u32 (pos n) = n % 2 ^ 32
u32 (negsuc n) = 2 ^ 32 - 1 - n % 2 ^ 32

-- The handle of the window with the id, its slot below the count.
abbrev pub handle_of : Option Window → Option ℕ
handle_of none = none
handle_of (some w) = if w.valid then w.handle else none

unfoldable pub find_toplevel_by_id : ℕ → Desktop → Option ℕ
find_toplevel_by_id id d =
    if ltb id d.toplevel_count then handle_of (get_elem? d.toplevels id) else none

-- The verbs of commands.
pub data Verb : Type 0 where
  activating closing minimizing restoring maximizing : Verb

abbrev pub prefix_of : Verb → Bytes
prefix_of activating = codes "activate:"
prefix_of closing = codes "close:"
prefix_of minimizing = codes "minimize:"
prefix_of restoring = codes "restore:"
prefix_of maximizing = codes "maximize:"

-- The requests of a command, with a seat or without one.
abbrev pub requests_of : Verb → Bool → ℕ → List Request
requests_of activating has_seat h = if has_seat then activate h ∷ [] else []
requests_of closing has_seat h = close h ∷ []
requests_of minimizing has_seat h = set_minimized h ∷ []
requests_of restoring has_seat h = unset_minimized h ∷ (if has_seat then activate h ∷ [] else [])
requests_of maximizing has_seat h = set_maximized h ∷ []

abbrev pub for_handle : Verb → Bool → Option ℕ → List Request
for_handle verb has_seat none = []
for_handle verb has_seat (some h) = requests_of verb has_seat h

-- A command with the text behind the colon.
unfoldable pub command : Verb → Bytes → Desktop → List Request
command verb id d = for_handle verb d.has_seat (find_toplevel_by_id (u32 (atoi id)) d)

unfoldable pub handle_command : Bytes → Desktop → List Request
handle_command line d =
    if starts_with (prefix_of activating) line
    then command activating (drop 9 line) d
    else if starts_with (prefix_of closing) line
    then command closing (drop 6 line) d
    else if starts_with (prefix_of minimizing) line
    then command minimizing (drop 9 line) d
    else if starts_with (prefix_of restoring) line
    then command restoring (drop 8 line) d
    else if starts_with (prefix_of maximizing) line
    then command maximizing (drop 9 line) d
    else []

unfoldable pub handle_commands : List Bytes → Desktop → List Request
handle_commands [] d = []
handle_commands (l ∷ ls) d = handle_command l d ++ handle_commands ls d

-- The requests that one `read` of the FIFO leads to.
unfoldable pub process_fifo_commands : Received → Desktop → List Request
process_fifo_commands received d = handle_commands (command_lines received) d

-- The daemon's state as it starts, with its paths.
unfoldable pub toplevel_init : Environment → Desktop
toplevel_init env = record {
  toplevels = replicate max_toplevels (record {
    handle = none;
    title = [];
    app_id = [];
    maximized = false;
    minimized = false;
    activated = false;
    fullscreen = false;
    valid = false;
  });
  toplevel_count = 0;
  focused_title = [];
  focused_app_id = [];
  focused_id = 0;
  listeners = [];
  publisher = record { fd = none };
  fifo_path = daemon_fifo_path (codes "topleveld.fifo") env;
  has_seat = false;
  running = true;
  dirty = true;
}
