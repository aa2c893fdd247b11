-- ===== src/Toplevel/Runs.antt =====
-- The slots of src/nscde_toplevel/nscde_toplevel.c over sequences of events.
use orca_cde.Toplevel.Validity.{
  IsDesktop, same_slots-IsDesktop, remove_toplevel-IsDesktop, changed-IsDesktop, state-IsDesktop,
  announced-IsDesktop,
}
use orca_cde.Daemon.Slots.{slot_of}
use orca_cde.Toplevel.Events.{
  Event, announced, retitled, identified, stated, done, closed, finished, deliver, on_event, run,
}
use orca_cde.Toplevel.State.{Answers, update_state, update_if_dirty}
use orca_cde.Toplevel.{
  max_title_len, max_app_id_len, Desktop, remove_toplevel, titled, with_app_id,
  toplevel_handle_title, toplevel_handle_app_id, toplevel_handle_state,
}
use orca_cde.Prelude.{
  ℕ, Bool, List, [], ◌∷◌, refl, inl, inr, arith, length-clip-lt, modify, Option-cases, if_either,
}
use orca_cde.Runtime.Transport.{Environment}

-- A callback is for a slot, or there is none.
deliver-IsDesktop :
    (h : ℕ) (callback : ℕ → Desktop → Desktop) (d : Desktop)
    → ((i : ℕ) → IsDesktop (callback i d))
    → IsDesktop d
    → IsDesktop (deliver h callback d)
deliver-IsDesktop h callback d k v = elim (Option-cases (slot_of h d.listeners)) [
  | inl e ↦ rw (e, deliver) v
  | inr (i, e) ↦ rw (e, deliver) (k i)
]

module _ (alloc : ℕ → Bool) (env : Environment) where
  update_if_dirty-IsDesktop :
      (a : Answers) (d : Desktop) → IsDesktop d → IsDesktop (update_if_dirty alloc env a d)
  unfolding update_if_dirty update_state
  update_if_dirty-IsDesktop a d v =
      if_either IsDesktop d.dirty (same_slots-IsDesktop d _ refl refl refl refl refl v) v

  on_event-IsDesktop : (e : Event) (d : Desktop) → IsDesktop d → IsDesktop (on_event alloc env e d)
  unfolding on_event toplevel_handle_title toplevel_handle_app_id
  on_event-IsDesktop (announced h) d v = announced-IsDesktop h d v
  on_event-IsDesktop (retitled h title) d v =
      deliver-IsDesktop h (λ i. toplevel_handle_title i title) d
        (λ i.
          same_slots-IsDesktop (record d { toplevels = modify d.toplevels i (titled title) })
            (toplevel_handle_title i title d) refl refl refl refl refl
            (changed-IsDesktop i (titled title) d (λ w. refl)
              (λ w k. (length-clip-lt max_title_len title (omega arith), k.1)) v))
        v
  on_event-IsDesktop (identified h app_id) d v =
      deliver-IsDesktop h (λ i. toplevel_handle_app_id i app_id) d
        (λ i.
          same_slots-IsDesktop (record d { toplevels = modify d.toplevels i (with_app_id app_id) })
            (toplevel_handle_app_id i app_id d) refl refl refl refl refl
            (changed-IsDesktop i (with_app_id app_id) d (λ w. refl)
              (λ w k. (k.0, length-clip-lt max_app_id_len app_id (omega arith))) v))
        v
  on_event-IsDesktop (stated h entries) d v =
      deliver-IsDesktop h (λ i. toplevel_handle_state i entries) d
        (λ i. state-IsDesktop i entries d v) v
  on_event-IsDesktop (done h a) d v =
      deliver-IsDesktop h (λ i. update_if_dirty alloc env a) d
        (λ i. update_if_dirty-IsDesktop a d v) v
  on_event-IsDesktop (closed h) d v =
      deliver-IsDesktop h (λ i. remove_toplevel h) d (λ i. remove_toplevel-IsDesktop h d v) v
  on_event-IsDesktop finished d v = same_slots-IsDesktop d _ refl refl refl refl refl v

  -- After any sequence of events of the toplevel protocol a valid desktop is valid: its 64
  -- slots, a count of at most 64, every slot below the count in use, every title and
  -- application id, the focused window's too, leaving room for its zero, and a focused slot
  -- below 64.
  pub run-IsDesktop : (es : List Event) (d : Desktop) → IsDesktop d → IsDesktop (run alloc env es d)
  unfolding run
  run-IsDesktop [] d v = v
  run-IsDesktop (e ∷ es) d v = run-IsDesktop es (on_event alloc env e d) (on_event-IsDesktop e d v)
