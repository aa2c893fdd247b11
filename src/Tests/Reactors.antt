-- ===== src/Tests/Reactors.antt =====
-- A reactor with two watchers; the handler of the first removes the second.
use orca_cde.Prelude.{
  ℕ, suc, List, [], ◌∷◌, ◌≡◌, Option, none, some, refl, ◌==◌, if◌then◌else◌, length,
}
use orca_cde.Runtime.Reactor.Dispatch.{RunsOnce, reactor_run_once-RunsOnce}
use orca_cde.Runtime.Reactor.Watching.{watched, reactor_remove-watched}
use orca_cde.Runtime.Reactor.{
  Watcher, Running, meets, reactor_init, reactor_add, reactor_remove, reactor_run_once,
}

abbrev none_yet : List (Watcher ℕ ℕ)
none_yet = reactor_init

-- Watchers of the descriptors 7 and 8 for POLLIN, with the handlers 1 and 2.
abbrev two_watchers : List (Watcher ℕ ℕ)
two_watchers =
    (reactor_add (reactor_add none_yet (some 7) 1 (some 1) none none).1 (some 8) 1 (some 2) none
      none).1

-- The handler of descriptor 7 removes 8; each call is counted.
abbrev call : ℕ → Option ℕ → ℕ → Option ℕ → Running ℕ ℕ ℕ → Running ℕ ℕ ℕ
call h fd revents userdata s = record {
  watchers = if h == 1 then reactor_remove s.watchers 8 else s.watchers;
  world = suc s.world;
}

abbrev start : Running ℕ ℕ ℕ
start = record { watchers = two_watchers; world = 0 }

-- Everything polled is readable.
abbrev all_ready : List (ℕ × ℕ × ℕ) → Option (List ℕ)
all_ready ps = some (1 ∷ 1 ∷ [])

reactor_remove-watched_example :
    ((d : ℕ)
      → watched d (reactor_remove two_watchers 8) ≡ (if d == 8 then 0 else watched d two_watchers))
    × (length (reactor_remove two_watchers 8) ≡ length two_watchers)
reactor_remove-watched_example = reactor_remove-watched two_watchers 8

reactor_run_once-RunsOnce_example :
    RunsOnce call all_ready start (reactor_run_once call all_ready start)
reactor_run_once-RunsOnce_example = reactor_run_once-RunsOnce call all_ready start

-- The second watcher is not called once the first handler has removed it.
run_once_removed : (reactor_run_once call all_ready start).1.world ≡ 1
unfolding reactor_init reactor_add reactor_remove reactor_run_once meets
run_once_removed = refl
