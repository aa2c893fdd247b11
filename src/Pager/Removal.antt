-- ===== src/Pager/Removal.antt =====
-- `remove_workspace` of src/nscde_pagerd/nscde_pagerd.c, and the listeners of the workspaces behind
-- it.
use orca_cde.Daemon.Slots.Removal.{erase, remove_in-erase, remove_in-none, remove_in-first}
use orca_cde.Daemon.Slots.Validity.{Live}
use orca_cde.Daemon.Slots.{has_handle, shift, remove_in, slot_of}
use orca_cde.Pager.Events.{named, removed, on_event}
use orca_cde.Pager.{Workspace, Pager, occupant, remove_workspace, workspace_handle_name}
use orca_cde.Prelude.{
  ℕ, suc, Bool, true, some, List, [], ◌∷◌, ◌≡◌, refl, ap, ◌∙◌, sym, inl, inr, get_elem?, modify,
  take, Bytes, Option-cases,
}
use orca_cde.Runtime.Transport.{Environment}

-- The workspaces that there are, in order.
abbrev pub workspaces_of : Pager → List Workspace
workspaces_of p = take p.workspace_count p.workspaces

-- Where every slot below the count is in use, removing a handle from the pager's array of slots
-- is, on the list of the workspaces that there are, the removal of the first with that handle.
pub remove_workspace-erase :
    (h : ℕ) (p : Pager)
    → Live occupant p.workspace_count p.workspaces
    → workspaces_of (remove_workspace h p) ≡ erase occupant h (workspaces_of p)
unfolding remove_workspace
remove_workspace-erase h p l =
    elim (Option-cases (remove_in occupant p.workspace_count h p.workspaces)) [
      | inl e ↦
          rw (e, remove_workspace)
            (sym (remove_in-none occupant p.workspace_count h p.workspaces l e))
      | inr (ws, e) ↦
          rw (e, remove_workspace) (remove_in-erase occupant p.workspace_count h p.workspaces l e).1
    ]

remove_workspace-first :
    (n h : ℕ) (w v : Workspace) (ws : List Workspace) (p : Pager)
    → p.workspaces ≡ w ∷ v ∷ ws
    → p.workspace_count ≡ suc (suc n)
    → has_handle w.handle h ≡ true
    → ((remove_workspace h p).workspaces ≡ v ∷ shift n (v ∷ ws))
      × ((remove_workspace h p).listeners ≡ p.listeners)
unfolding remove_workspace
remove_workspace-first n h w v ws p slots count e =
    let gone : remove_in occupant p.workspace_count h p.workspaces ≡ some (v ∷ shift n (v ∷ ws)) =
      ap (λ k. remove_in occupant k h p.workspaces) count
      ∙ ap (remove_in occupant (suc (suc n)) h) slots
      ∙ remove_in-first occupant n h w v ws e in
    rw (gone, remove_workspace) (refl, refl)

name-other :
    (i : ℕ) (name : Bytes) (p : Pager) {w : Workspace}
    → get_elem? p.workspaces 0 ≡ some w
    → get_elem? (workspace_handle_name (suc i) name p).workspaces 0 ≡ some w
unfolding workspace_handle_name
name-other i name p h = first p.workspaces _ h
  where
    first :
        (ws : List Workspace) {w : Workspace} (f : Workspace → Workspace)
        → get_elem? ws 0 ≡ some w
        → get_elem? (modify ws (suc i) f) 0 ≡ some w
    first [] f e = e
    first (v ∷ ws) f e = e

module _ (alloc : ℕ → Bool) (env : Environment) where
  on_event-removed :
      (h i : ℕ) (p : Pager)
      → slot_of h p.listeners ≡ some i
      → on_event alloc env (removed h) p ≡ remove_workspace h p
  unfolding on_event
  on_event-removed h i p e = rw (e, on_event) refl

  on_event-named :
      (h i : ℕ) (name : Bytes) (p : Pager)
      → slot_of h p.listeners ≡ some i
      → (on_event alloc env (named h name) p).workspaces
        ≡ (workspace_handle_name i name p).workspaces
  unfolding on_event
  on_event-named h i name p e = rw (e, on_event) refl

  -- With at least two workspaces, once the first is removed the second stands in its slot, and
  -- a name event for any handle whose listener was given a later slot, the second's own among
  -- them, leaves the workspace in the first slot as it was.
  pub removed-named_stale :
      (n h g i j : ℕ) (name : Bytes) (w v : Workspace) (ws : List Workspace) (p : Pager)
      → p.workspaces ≡ w ∷ v ∷ ws
      → p.workspace_count ≡ suc (suc n)
      → has_handle w.handle h ≡ true
      → slot_of h p.listeners ≡ some i
      → slot_of g p.listeners ≡ some (suc j)
      → get_elem?
          (on_event alloc env (named g name) (on_event alloc env (removed h) p)).workspaces
          0
        ≡ some v
  removed-named_stale n h g i j name w v ws p slots count e at_h at_g =
      let (gone, same) = remove_workspace-first n h w v ws p slots count e in
      let after = on_event alloc env (removed h) p in
      let is-after = on_event-removed h i p at_h in
      let listens : slot_of g after.listeners ≡ some (suc j) =
        ap (λ (q : Pager). slot_of g q.listeners) is-after ∙ ap (slot_of g) same ∙ at_g in
      let first : get_elem? after.workspaces 0 ≡ some v =
        ap (λ (q : Pager). get_elem? q.workspaces 0) is-after ∙ ap (λ us. get_elem? us 0) gone in
      ap (λ us. get_elem? us 0) (on_event-named g (suc j) name after listens)
      ∙ name-other j name after first
