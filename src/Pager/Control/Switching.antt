-- ===== src/Pager/Control/Switching.antt =====
-- The switch commands of src/nscde_pagerd/nscde_pagerd.c.
use orca_cde.Daemon.Commands.{command_lines-render}
use orca_cde.Daemon.Slots.Validity.{Live}
use orca_cde.Pager.Control.{
  Request, activate, commits, handle_in, handle_switch_workspace, switch_prefix, handle_command,
  handle_commands, process_fifo_commands,
}
use orca_cde.Pager.Removal.{workspaces_of}
use orca_cde.Pager.{Workspace, Pager, occupant, find_name, find_workspace_by_name}
use orca_cde.Prelude.{
  ℕ, zero, suc, ◌+◌, Bool, true, false, ◌&&◌, Option, none, some, List, [], ◌∷◌, ◌++◌, map, ◌≡◌,
  refl, ap, ◌∙◌, inl, inr, arith, if◌then◌else◌, get_elem?, take, Bytes, Lacks, Lacks-append, Token,
  render, starts_with, equal, All, Bool-cases, Option-cases,
}
use orca_cde.Runtime.Subscription.{chunk}

-- The first workspace with the name.
unfoldable pub first_named : Bytes → List Workspace → Option Workspace
first_named name [] = none
first_named name (w ∷ ws) =
    let rest = first_named name ws in if equal w.name name then some w else rest

abbrev pub handle_of : Option Workspace → Option ℕ
handle_of none = none
handle_of (some w) = w.handle

-- The requests that activate a handle, where there is one.
abbrev pub activations : Bool → Option ℕ → List Request
activations has_manager none = []
activations has_manager (some h) = activate h ∷ commits has_manager

abbrev chosen : (ℕ → Option Workspace) → Option ℕ → Option Workspace
chosen slot none = none
chosen slot (some i) = slot i

find_name-first_named :
    (n i : ℕ) (name : Bytes) (ws : List Workspace) (slot : ℕ → Option Workspace)
    → Live occupant n ws
    → ((k : ℕ) → slot (i + k) ≡ get_elem? ws k)
    → chosen slot (find_name n i name ws) ≡ first_named name (take n ws)
unfolding find_name first_named
find_name-first_named zero i name ws slot l h = refl
find_name-first_named (suc n) i name [] slot l h = absurd l
find_name-first_named (suc n) i name (w ∷ ws) slot l h = elim (Bool-cases (equal w.name name)) [
  | inl e ↦
      let both : (w.valid && equal w.name name) ≡ true = ground arith in
      rw (both, find_name) (rw (e, first_named) (ap slot (omega arith) ∙ h 0))
  | inr e ↦
      let neither : (w.valid && equal w.name name) ≡ false = ground arith in
      rw (neither, find_name)
        (rw (e, first_named)
          (find_name-first_named n (suc i) name ws slot l.1
            (λ k. ap slot (omega arith) ∙ h (suc k))))
]

handle_in-first_named :
    (name : Bytes) (p : Pager)
    → Live occupant p.workspace_count p.workspaces
    → handle_in (find_workspace_by_name name p) p ≡ handle_of (first_named name (workspaces_of p))
unfolding find_workspace_by_name
handle_in-first_named name p l =
    found (find_name p.workspace_count 0 name p.workspaces)
    ∙ ap handle_of (
        find_name-first_named p.workspace_count 0 name p.workspaces (get_elem? p.workspaces) l
          (λ k. ap (get_elem? p.workspaces) (omega arith)))
  where
    found : (o : Option ℕ) → handle_in o p ≡ handle_of (chosen (get_elem? p.workspaces) o)
    found none = refl
    found (some i) = elim (Option-cases (get_elem? p.workspaces i)) [
      | inl e ↦ ground (arith, e)
      | inr (w, e) ↦ ground (arith, e)
    ]

pub handle_switch_workspace-first_named :
    (name : Bytes) (p : Pager)
    → Live occupant p.workspace_count p.workspaces
    → handle_switch_workspace name p
      ≡ activations p.has_manager (handle_of (first_named name (workspaces_of p)))
unfolding handle_switch_workspace
handle_switch_workspace-first_named name p l =
    by_handle (handle_in (find_workspace_by_name name p) p) refl
    ∙ ap (activations p.has_manager) (handle_in-first_named name p l)
  where
    by_handle :
        (o : Option ℕ)
        → handle_in (find_workspace_by_name name p) p ≡ o
        → handle_switch_workspace name p
          ≡ activations p.has_manager (handle_in (find_workspace_by_name name p) p)
    by_handle none e = ground (arith, e)
    by_handle (some h) e = ground (arith, e)

-- The command that switches to a workspace.
abbrev pub switch_command : Bytes → Bytes
switch_command name = switch_prefix ++ name

handle_command-switch :
    (name : Bytes) (p : Pager)
    → handle_command (switch_command name) p ≡ handle_switch_workspace name p
unfolding handle_command starts_with
handle_command-switch name p = refl

-- The requests that switches to names lead to, in order.
abbrev pub switched : List Bytes → Pager → List Request
switched [] p = []
switched (name ∷ names) p =
    activations p.has_manager (handle_of (first_named name (workspaces_of p))) ++ switched names p

handle_commands-switched :
    (names : List Bytes) (p : Pager)
    → Live occupant p.workspace_count p.workspaces
    → handle_commands (map switch_command names) p ≡ switched names p
unfolding handle_commands
handle_commands-switched [] p l = refl
handle_commands-switched (name ∷ names) p l =
    ap (λ r. r ++ handle_commands (map switch_command names) p)
      (handle_command-switch name p ∙ handle_switch_workspace-first_named name p l)
    ∙ ap (activations p.has_manager (handle_of (first_named name (workspaces_of p))) ++◌)
        (handle_commands-switched names p l)

switch_command-Token : (name : Bytes) → Lacks b'\n' name → Token b'\n' (switch_command name)
switch_command-Token name h = (refl, Lacks-append b'\n' switch_prefix name (ground arith) h)

switch_commands-Token :
    (names : List Bytes) → All (Lacks b'\n') names → All (Token b'\n') (map switch_command names)
switch_commands-Token [] h = tt
switch_commands-Token (name ∷ names) h =
    (switch_command-Token name h.0, switch_commands-Token names h.1)

-- Where every slot below the count is in use, switch commands for names without a newline and
-- without a zero byte, read from the FIFO at once, are all carried out in order: each activates
-- the first workspace with its name, with a commit if there is a manager, or does nothing if
-- there is none.
pub process_fifo_commands-switched :
    (names : List Bytes) (p : Pager) {b : ℕ} {bytes : Bytes}
    → Live occupant p.workspace_count p.workspaces
    → All (Lacks b'\n') names
    → Lacks 0 (render b'\n' (map switch_command names))
    → render b'\n' (map switch_command names) ≡ b ∷ bytes
    → process_fifo_commands (chunk b bytes) p ≡ switched names p
unfolding process_fifo_commands
process_fifo_commands-switched names p {b} {bytes} l n z e =
    ap (λ ls. handle_commands ls p)
      (command_lines-render (map switch_command names) (switch_commands-Token names n) z e)
    ∙ handle_commands-switched names p l
