-- ===== src/Tests/Pagers.antt =====
-- A pager with two workspaces, of which the first is removed.
use orca_cde.Prelude.{
  true, false, none, some, List, [], ◌∷◌, ◌≡◌, refl, arith, length-replicate, replicate, get_elem?,
  All-replicate, Bytes, codes, clip, equal, render,
}
use orca_cde.Daemon.Slots.{slot_of}
use orca_cde.Pager.Removal.{removed-named_stale}
use orca_cde.Pager.Validity.{IsNamed, IsPager, run-IsPager}
use orca_cde.Pager.Events.{Event, announced, named, stated, removed, on_event, run}
use orca_cde.Pager.Control.{activate, commit, process_fifo_commands}
use orca_cde.Pager.Control.Switching.{first_named, switched, process_fifo_commands-switched}
use orca_cde.Runtime.Subscription.{chunk}
use orca_cde.Runtime.Transport.{Environment}
use orca_cde.Tests.{plenty}
use orca_cde.Pager.{max_workspaces, Workspace, Pager, add_workspace, workspace_handle_name}

abbrev nowhere : Environment
nowhere = record { state_dir = none; cache_home = none; home = none }

-- A slot that was never used.
abbrev pub vacant : Workspace
vacant = record { handle = none; name = []; active = false; valid = false }

abbrev started : Pager
started = record {
  workspaces = replicate max_workspaces vacant;
  workspace_count = 0;
  current_workspace = [];
  listeners = [];
  publisher = record { fd = none };
  fifo_path = codes "/tmp/pagerd.fifo";
  has_manager = true;
  running = true;
  dirty = false;
}

started-IsPager : IsPager started
started-IsPager = record {
  slots = length-replicate max_workspaces vacant;
  counted = omega arith;
  live = tt;
  names = All-replicate IsNamed max_workspaces vacant (omega arith);
  current = omega arith;
}

-- Two workspaces are announced and named, and the second becomes active.
abbrev events : List Event
events =
    announced 10 ∷ announced 20 ∷ named 10 (codes "One") ∷ named 20 (codes "Two") ∷ stated 20 1 ∷ []

run-IsPager_example : IsPager (run plenty nowhere (removed 10 ∷ events) started)
run-IsPager_example = run-IsPager plenty nowhere (removed 10 ∷ events) started started-IsPager

abbrev pub first : Workspace
first = record { handle = some 10; name = codes "One"; active = false; valid = true }

abbrev pub second : Workspace
second = record { handle = some 20; name = codes "Two"; active = false; valid = true }

abbrev pub two : Pager
two = record started {
  workspaces = first ∷ second ∷ replicate 30 vacant;
  workspace_count = 2;
  listeners = (20, 1) ∷ (10, 0) ∷ [];
}

-- The announcements and the names lead to this pager's slots and listeners.
two-reached :
    (run plenty nowhere
      (announced 10 ∷ announced 20 ∷ named 10 (codes "One") ∷ named 20 (codes "Two") ∷ [])
      started).workspaces
    ≡ two.workspaces
unfolding run on_event add_workspace workspace_handle_name clip slot_of
two-reached = refl

removed-named_stale_example :
    get_elem?
      (on_event plenty nowhere
        (named 20 (codes "Web"))
        (on_event plenty nowhere (removed 10) two)).workspaces
      0
    ≡ some second
unfolding slot_of
removed-named_stale_example =
    removed-named_stale plenty nowhere 0 10 20 0 0 (codes "Web") first second (replicate 30 vacant)
      two refl refl refl refl refl

-- Two switch commands in one read of the FIFO.
abbrev switches : List Bytes
switches = codes "Two" ∷ codes "Nine" ∷ codes "One" ∷ []

process_fifo_commands-switched_example :
    process_fifo_commands
      (chunk b's' (codes "witch_workspace:Two\nswitch_workspace:Nine\nswitch_workspace:One\n"))
      two
    ≡ switched switches two
unfolding render
process_fifo_commands-switched_example =
    process_fifo_commands-switched switches two {b = b's'}
      {bytes = codes "witch_workspace:Two\nswitch_workspace:Nine\nswitch_workspace:One\n"}
      (refl, (refl, tt)) (ground arith) (ground arith) refl

switches_activate : switched switches two ≡ activate 20 ∷ commit ∷ activate 10 ∷ commit ∷ []
unfolding first_named equal
switches_activate = refl
