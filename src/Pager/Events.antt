-- ===== src/Pager/Events.antt =====
-- The protocol's events, delivered to the callbacks of src/nscde_pagerd/nscde_pagerd.c with the
-- slot that each handle's listener was given.
use orca_cde.Daemon.Slots.{slot_of}
use orca_cde.Pager.State.{Answers, update_if_dirty}
use orca_cde.Pager.{
  Pager, add_workspace, remove_workspace, attach, workspace_handle_name, workspace_handle_state,
}
use orca_cde.Prelude.{ℕ, Bool, false, none, some, List, [], ◌∷◌, Bytes}
use orca_cde.Runtime.Transport.{Environment}

-- What the compositor tells of a handle; a state is its mask of bits. `done` comes with what the
-- runtime answers meanwhile.
pub data Event : Type 0 where
  announced : ℕ → Event
  named : ℕ → Bytes → Event
  stated : ℕ → ℕ → Event
  removed : ℕ → Event
  done : Answers → Event
  finished : Event

module _ (alloc : ℕ → Bool) (env : Environment) where
  -- An event of a handle without a listener is not delivered.
  unfoldable pub on_event : Event → Pager → Pager
  on_event (announced h) p = attach h (add_workspace h p)
  on_event (named h name) p = elim (slot_of h p.listeners) [
    | some i ↦ workspace_handle_name i name p
    | none ↦ p
  ]
  on_event (stated h state) p = elim (slot_of h p.listeners) [
    | some i ↦ workspace_handle_state i state p
    | none ↦ p
  ]
  on_event (removed h) p = elim (slot_of h p.listeners) [ some i ↦ remove_workspace h p | none ↦ p ]
  on_event (done a) p = update_if_dirty alloc env a p
  on_event finished p = record p { running = false }

  unfoldable pub run : List Event → Pager → Pager
  run [] p = p
  run (e ∷ es) p = run es (on_event e p)
