-- ===== src/Pager/Validity.antt =====
-- The validity of the slots of src/nscde_pagerd/nscde_pagerd.c, and its callbacks.
use orca_cde.Daemon.Slots.Validity.{Live, Live-modify, Live-added, remove_in-IsRemoved}
use orca_cde.Daemon.Slots.{remove_in, slot_of}
use orca_cde.Pager.Events.{Event, announced, named, stated, removed, done, finished, on_event, run}
use orca_cde.Pager.State.{Answers, update_state, update_if_dirty}
use orca_cde.Pager.{
  max_workspaces, max_name_len, Workspace, Pager, occupant, attach, add_workspace, added,
  remove_workspace, renamed, activated, current_of, workspace_handle_name, workspace_handle_state,
}
use orca_cde.Prelude.{
  ℕ, suc, ◌≤◌, ◌<◌, Bool, true, false, Option, none, some, List, [], ◌∷◌, ◌≡◌, refl, sym, ◌∙◌, inl,
  inr, arith, ltb, length, length-modify, length-clip-lt, get_elem?, modify, All, All-modify, Bytes,
  Bool-cases, Option-cases, subst, if_either,
}
use orca_cde.Runtime.Transport.{Environment}

abbrev pub IsNamed : Workspace → Type 0
IsNamed w = length w.name < max_name_len

pub record IsPager (p : Pager) : Type 0 where
  pub slots : length p.workspaces ≡ max_workspaces
  pub counted : p.workspace_count ≤ max_workspaces
  pub live : Live occupant p.workspace_count p.workspaces
  pub names : All IsNamed p.workspaces
  pub current : length p.current_workspace < max_name_len

remove_workspace-IsPager : (h : ℕ) (p : Pager) → IsPager p → IsPager (remove_workspace h p)
unfolding remove_workspace
remove_workspace-IsPager h p v =
    elim (Option-cases (remove_in occupant p.workspace_count h p.workspaces)) [
      | inl e ↦ rw (e, remove_workspace) v
      | inr (ws, e) ↦
          let r =
            remove_in-IsRemoved occupant IsNamed (λ w k. k) p.workspace_count h p.workspaces v.live
              v.names e in
          rw (e, remove_workspace)
            (record {
              slots = r.same_length ∙ v.slots;
              counted = omega (arith, v.counted);
              live = r.still_live;
              names = r.still_all;
              current = v.current;
            })
    ]

name-IsPager :
    (i : ℕ) (name : Bytes) (p : Pager) → IsPager p → IsPager (workspace_handle_name i name p)
unfolding workspace_handle_name
name-IsPager i name p v = record {
  slots = length-modify p.workspaces i (renamed name) ∙ v.slots;
  counted = v.counted;
  live = Live-modify occupant p.workspace_count i (renamed name) p.workspaces (λ w e. e) v.live;
  names =
      All-modify IsNamed p.workspaces i (renamed name)
        (λ w e k. length-clip-lt max_name_len name (omega arith)) v.names;
  current = v.current;
}

current_of-fits :
    (state : ℕ) (o : Option Workspace) (old : Bytes)
    → length old < max_name_len
    → length (current_of state o old) < max_name_len
current_of-fits state none old h = h
current_of-fits state (some w) old h =
    ground (arith, length-clip-lt max_name_len w.name (omega arith))

state-IsPager : (i state : ℕ) (p : Pager) → IsPager p → IsPager (workspace_handle_state i state p)
unfolding workspace_handle_state
state-IsPager i state p v = record {
  slots = length-modify p.workspaces i (activated state) ∙ v.slots;
  counted = v.counted;
  live = Live-modify occupant p.workspace_count i (activated state) p.workspaces (λ w e. e) v.live;
  names = All-modify IsNamed p.workspaces i (activated state) (λ w e k. k) v.names;
  current = current_of-fits state (get_elem? p.workspaces i) p.current_workspace v.current;
}

-- The pager with a workspace in the slot behind the last.
abbrev grown : ℕ → Pager → Pager
grown h p = record p {
  workspaces = modify p.workspaces p.workspace_count (added h);
  workspace_count = suc p.workspace_count;
}

grown-IsPager :
    (h : ℕ) (p : Pager) → p.workspace_count < max_workspaces → IsPager p → IsPager (grown h p)
grown-IsPager h p b v = record {
  slots = length-modify p.workspaces p.workspace_count (added h) ∙ v.slots;
  counted = omega (arith, b);
  live =
      Live-added occupant p.workspace_count (added h) p.workspaces (λ w. refl)
        (omega (arith, b, v.slots)) v.live;
  names =
      All-modify IsNamed p.workspaces p.workspace_count (added h) (λ w g k. omega arith) v.names;
  current = v.current;
}

-- Fields that are no part of the invariant.
same_slots-IsPager :
    (p q : Pager)
    → q.workspaces ≡ p.workspaces
    → q.workspace_count ≡ p.workspace_count
    → q.current_workspace ≡ p.current_workspace
    → IsPager p
    → IsPager q
same_slots-IsPager p q ws n c v = record {
  slots = rw ws v.slots;
  counted = rw n v.counted;
  live = rw (ws, n) v.live;
  names = rw ws v.names;
  current = rw c v.current;
}

add_workspace-grown :
    (h : ℕ) (p : Pager)
    → ltb p.workspace_count max_workspaces ≡ true
    → add_workspace h p ≡ (some p.workspace_count, grown h p)
unfolding add_workspace
add_workspace-grown h p e = rw (e, add_workspace) refl

add_workspace_full :
    (h : ℕ) (p : Pager)
    → ltb p.workspace_count max_workspaces ≡ false
    → add_workspace h p ≡ (none, p)
unfolding add_workspace
add_workspace_full h p e = rw (e, add_workspace) refl

announced-IsPager : (h : ℕ) (p : Pager) → IsPager p → IsPager (attach h (add_workspace h p))
announced-IsPager h p v = elim (Bool-cases (ltb p.workspace_count max_workspaces)) [
  | inr e ↦ subst (λ a. IsPager (attach h a)) (sym (add_workspace_full h p e)) v
  | inl e ↦
      subst (λ a. IsPager (attach h a)) (sym (add_workspace-grown h p e))
        (same_slots-IsPager (grown h p) _ refl refl refl (grown-IsPager h p (ground arith) v))
]

module _ (alloc : ℕ → Bool) (env : Environment) where
  pub update_state-IsPager :
      (a : Answers) (p : Pager) → IsPager p → IsPager (update_state alloc env a p).0
  unfolding update_state
  update_state-IsPager a p v = same_slots-IsPager p _ refl refl refl v

  update_if_dirty-IsPager :
      (a : Answers) (p : Pager) → IsPager p → IsPager (update_if_dirty alloc env a p)
  unfolding update_if_dirty
  update_if_dirty-IsPager a p v = if_either IsPager p.dirty (update_state-IsPager a p v) v

  -- One event keeps the pager valid.
  pub on_event-IsPager : (e : Event) (p : Pager) → IsPager p → IsPager (on_event alloc env e p)
  unfolding on_event
  on_event-IsPager (announced h) p v = announced-IsPager h p v
  on_event-IsPager (named h name) p v = elim (Option-cases (slot_of h p.listeners)) [
    | inl e ↦ rw (e, on_event) v
    | inr (i, e) ↦ rw (e, on_event) (name-IsPager i name p v)
  ]
  on_event-IsPager (stated h state) p v = elim (Option-cases (slot_of h p.listeners)) [
    | inl e ↦ rw (e, on_event) v
    | inr (i, e) ↦ rw (e, on_event) (state-IsPager i state p v)
  ]
  on_event-IsPager (removed h) p v = elim (Option-cases (slot_of h p.listeners)) [
    | inl e ↦ rw (e, on_event) v
    | inr (i, e) ↦ rw (e, on_event) (remove_workspace-IsPager h p v)
  ]
  on_event-IsPager (done a) p v = update_if_dirty-IsPager a p v
  on_event-IsPager finished p v = same_slots-IsPager p _ refl refl refl v

  -- After any sequence of events of the workspace protocol a valid pager is valid: its 32
  -- slots, a count of at most 32, every slot below the count in use, and every name, the
  -- current workspace's too, leaving room for its zero.
  pub run-IsPager : (es : List Event) (p : Pager) → IsPager p → IsPager (run alloc env es p)
  unfolding run
  run-IsPager [] p v = v
  run-IsPager (e ∷ es) p v = run-IsPager es (on_event alloc env e p) (on_event-IsPager e p v)
