-- ===== src/Pager.antt =====
-- The pager daemon, src/nscde_pagerd/nscde_pagerd.c: its state, the workspaces in their slots and
-- the callbacks of the workspace protocol that change them. State: what is published, Events: the
-- callbacks by the handle they are for, Control: commands.
pub mod Validity
pub mod State
pub mod Events
pub mod Removal
pub mod Control
use orca_cde.Daemon.Slots.{Occupant, remove_in}
use orca_cde.Runtime.Request.{Publisher}
use orca_cde.Prelude.{
  ℕ, zero, suc, ◌+◌, ◌-◌, ◌%◌, Bool, true, false, ◌&&◌, Option, none, some, List, [], ◌∷◌, ltb,
  ◌==◌, if◌then◌else◌, get_elem?, modify, replicate, Bytes, is_nil, equal, clip,
}

-- MAX_WORKSPACES
abbrev pub max_workspaces : ℕ
max_workspaces = 32

-- MAX_NAME_LEN
abbrev pub max_name_len : ℕ
max_name_len = 256

-- `struct workspace`; the null handle is `none`.
pub record Workspace : Type 0 where
  pub handle : Option ℕ
  pub name : Bytes
  pub active : Bool
  pub valid : Bool

-- The part of the pager's state that the callbacks change; `listeners` is the slot that each handle
-- was given.
pub record Pager : Type 0 where
  pub workspaces : List Workspace
  pub workspace_count : ℕ
  pub current_workspace : Bytes
  pub listeners : List (ℕ × ℕ)
  pub publisher : Publisher
  pub fifo_path : Bytes
  pub has_manager : Bool
  pub running : Bool
  pub dirty : Bool

-- A workspace as the occupant of a slot.
abbrev pub occupant : Occupant Workspace
occupant = record {
  handle = λ w. w.handle;
  is_valid = λ w. w.valid;
  invalidated = λ w. record w { valid = false };
}

-- The slots below `n`, from slot `i` on.
pub find_name : ℕ → ℕ → Bytes → List Workspace → Option ℕ
find_name zero i name ws = none
find_name (suc n) i name [] = none
find_name (suc n) i name (w ∷ ws) =
    let rest = find_name n (suc i) name ws in if w.valid && equal w.name name then some i else rest

unfoldable pub find_workspace_by_name : Bytes → Pager → Option ℕ
unfolding find_name
find_workspace_by_name name p = find_name p.workspace_count 0 name p.workspaces

-- The index of the current workspace, from 1 on, or 0.
unfoldable pub current_workspace_index : Pager → ℕ
unfolding find_workspace_by_name
current_workspace_index p = elim (find_workspace_by_name p.current_workspace p) [
  | some i ↦ suc i
  | none ↦ 0
]

abbrev pub added : ℕ → Workspace → Workspace
added h w = record { handle = some h; name = []; active = false; valid = true }

-- The slot of the new workspace, where there is one left.
unfoldable pub add_workspace : ℕ → Pager → Option ℕ × Pager
add_workspace h p =
    if ltb p.workspace_count max_workspaces
    then (
      some p.workspace_count,
      record p {
        workspaces = modify p.workspaces p.workspace_count (added h);
        workspace_count = suc p.workspace_count;
      },
    )
    else (none, p)

unfoldable pub remove_workspace : ℕ → Pager → Pager
remove_workspace h p = elim (remove_in occupant p.workspace_count h p.workspaces) [
  | none ↦ p
  | some ws ↦ record p { workspaces = ws; workspace_count = p.workspace_count - 1; dirty = true }
]

abbrev pub renamed : Bytes → Workspace → Workspace
renamed name w = record w { name = clip max_name_len name }

-- EXT_WORKSPACE_HANDLE_V1_STATE_ACTIVE is the lowest bit.
abbrev pub is_active : ℕ → Bool
is_active state = state % 2 == 1

abbrev pub activated : ℕ → Workspace → Workspace
activated state w = record w { active = is_active state }

-- The name that the current workspace gets from the workspace in a slot.
abbrev pub current_of : ℕ → Option Workspace → Bytes → Bytes
current_of state none old = old
current_of state (some w) old =
    if is_active state then (if is_nil w.name then old else clip max_name_len w.name) else old

unfoldable pub workspace_handle_name : ℕ → Bytes → Pager → Pager
workspace_handle_name i name p = record p {
  workspaces = modify p.workspaces i (renamed name);
  dirty = true;
}

unfoldable pub workspace_handle_state : ℕ → ℕ → Pager → Pager
workspace_handle_state i state p = record p {
  workspaces = modify p.workspaces i (activated state);
  current_workspace = current_of state (get_elem? p.workspaces i) p.current_workspace;
  dirty = true;
}

-- In `manager_handle_workspace` the handle gets a listener where there is a slot for it.
abbrev pub attach : ℕ → Option ℕ × Pager → Pager
attach h (none, p) = p
attach h (some i, p) = record p { listeners = (h, i) ∷ p.listeners }
