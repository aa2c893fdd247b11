-- ===== src/Tests/Toplevels.antt =====
-- A desktop with two windows.
use orca_cde.Daemon.FilePaths.{daemon_state_dir, resolve_state_dir-daemon_state_dir}
use orca_cde.Prelude.{
  ℕ, true, false, none, some, List, [], ◌∷◌, ◌≡◌, refl, arith, length-replicate, All-replicate,
  codes,
}
use orca_cde.Runtime.Transport.{path_max, Environment, resolve_state_dir}
use orca_cde.Tests.{plenty}
use orca_cde.Toplevel.Control.Ids.{command_for, handle_command-command_for}
use orca_cde.Toplevel.Control.{activate, unset_minimized, restoring, handle_command, toplevel_init}
use orca_cde.Toplevel.Events.{Event, announced, retitled, stated, closed, run}
use orca_cde.Toplevel.Runs.{run-IsDesktop}
use orca_cde.Toplevel.Validity.{IsTitled, IsDesktop}
use orca_cde.Toplevel.{max_toplevels, Window, Desktop}

abbrev at_home : Environment
at_home = record { state_dir = none; cache_home = none; home = some (codes "/home/u") }

resolve_state_dir-daemon_state_dir_example :
    resolve_state_dir path_max at_home ≡ some (daemon_state_dir at_home)
resolve_state_dir-daemon_state_dir_example =
    resolve_state_dir-daemon_state_dir at_home (codes "/home/u/.cache/nscde-stage1")
      (λ e. cc, λ e. cc) refl (omega arith)

-- A slot that was never used.
abbrev vacant : Window
vacant = record {
  handle = none;
  title = [];
  app_id = [];
  maximized = false;
  minimized = false;
  activated = false;
  fullscreen = false;
  valid = false;
}

started-IsDesktop : IsDesktop (toplevel_init at_home)
unfolding toplevel_init
started-IsDesktop = record {
  slots = length-replicate max_toplevels vacant;
  counted = omega arith;
  live = tt;
  texts = All-replicate IsTitled max_toplevels vacant (omega arith, omega arith);
  focused = (omega arith, omega arith);
  focus_slot = omega arith;
}

-- Two windows appear, the second is focused, and the first is closed.
abbrev events : List Event
events =
    announced 10
    ∷ announced 20
    ∷ retitled 20 (codes "Editor")
    ∷ stated 20 (2 ∷ 0 ∷ [])
    ∷ closed 10
    ∷ []

run-IsDesktop_example : IsDesktop (run plenty at_home events (toplevel_init at_home))
run-IsDesktop_example =
    run-IsDesktop plenty at_home events (toplevel_init at_home) started-IsDesktop

abbrev window : ℕ → Window
window h = record vacant { handle = some h; valid = true }

abbrev two : Desktop
two = record {
  toplevels = window 10 ∷ window 20 ∷ [];
  toplevel_count = 2;
  focused_title = [];
  focused_app_id = [];
  focused_id = 0;
  listeners = [];
  publisher = record { fd = none };
  fifo_path = [];
  has_seat = true;
  running = true;
  dirty = false;
}

handle_command-command_for_example :
    handle_command (command_for restoring 1) two ≡ unset_minimized 20 ∷ activate 20 ∷ []
handle_command-command_for_example =
    handle_command-command_for restoring 1 two (refl, (refl, tt)) (omega arith)
