-- ===== src/Toplevel/Events.antt =====
-- The protocol's events, delivered to the callbacks of src/nscde_toplevel/nscde_toplevel.c with the
-- slot that each handle's listener was given.
use orca_cde.Daemon.Slots.{slot_of}
use orca_cde.Prelude.{ℕ, Bool, false, none, some, List, [], ◌∷◌, Bytes}
use orca_cde.Runtime.Transport.{Environment}
use orca_cde.Toplevel.State.{Answers, update_if_dirty}
use orca_cde.Toplevel.{
  Desktop, add_toplevel, remove_toplevel, attach, toplevel_handle_title, toplevel_handle_app_id,
  toplevel_handle_state,
}

-- What the compositor tells of a handle. `done` comes with what the runtime answers meanwhile.
pub data Event : Type 0 where
  announced : ℕ → Event
  retitled : ℕ → Bytes → Event
  identified : ℕ → Bytes → Event
  stated : ℕ → List ℕ → Event
  done : ℕ → Answers → Event
  closed : ℕ → Event
  finished : Event

-- A call of a handle's listener, with the slot that it was given.
abbrev pub deliver : ℕ → (ℕ → Desktop → Desktop) → Desktop → Desktop
deliver h callback d = elim (slot_of h d.listeners) [ some i ↦ callback i d | none ↦ d ]

module _ (alloc : ℕ → Bool) (env : Environment) where
  unfoldable pub on_event : Event → Desktop → Desktop
  on_event (announced h) d = attach h (add_toplevel h d)
  on_event (retitled h title) d = deliver h (λ i. toplevel_handle_title i title) d
  on_event (identified h app_id) d = deliver h (λ i. toplevel_handle_app_id i app_id) d
  on_event (stated h entries) d = deliver h (λ i. toplevel_handle_state i entries) d
  on_event (done h a) d = deliver h (λ i. update_if_dirty alloc env a) d
  on_event (closed h) d = deliver h (λ i. remove_toplevel h) d
  on_event finished d = record d { running = false }

  unfoldable pub run : List Event → Desktop → Desktop
  run [] d = d
  run (e ∷ es) d = run es (on_event e d)
