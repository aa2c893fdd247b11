-- ===== src/Pager/Control.antt =====
-- Commands to the pager: `handle_switch_workspace`, `process_fifo_commands` and `init_paths` of
-- src/nscde_pagerd/nscde_pagerd.c.
pub mod Switching
use orca_cde.Daemon.Commands.{command_lines, command_lines-render}
use orca_cde.Daemon.FilePaths.{daemon_fifo_path}
use orca_cde.Pager.{Workspace, Pager, find_name, find_workspace_by_name, max_workspaces}
use orca_cde.Prelude.{
  ℕ, zero, suc, ◌+◌, ◌≤◌, ◌<◌, Bool, true, false, ◌&&◌, Option, none, some, List, [], ◌∷◌, ◌++◌,
  ◌≡◌, refl, sym, ap, ◌∙◌, inl, inr, arith, if◌then◌else◌, length, get_elem?, replicate, drop,
  Bytes, codes, starts_with, equal, equal_iff, Bool-cases, Option-cases,
}
use orca_cde.Runtime.Request.{Publisher}
use orca_cde.Runtime.Subscription.{Received}
use orca_cde.Runtime.Transport.{Environment}

-- What is asked of the compositor.
pub data Request : Type 0 where
  activate : ℕ → Request
  commit : Request

abbrev pub commits : Bool → List Request
commits true = commit ∷ []
commits false = []

-- The handle in the slot that a search has found.
abbrev pub handle_in : Option ℕ → Pager → Option ℕ
handle_in none p = none
handle_in (some i) p = elim (get_elem? p.workspaces i) [ none ↦ none | some w ↦ w.handle ]

unfoldable pub handle_switch_workspace : Bytes → Pager → List Request
handle_switch_workspace name p = elim (handle_in (find_workspace_by_name name p) p) [
  | some h ↦ activate h ∷ commits p.has_manager
  | none ↦ []
]

abbrev pub switch_prefix : Bytes
switch_prefix = codes "switch_workspace:"

unfoldable pub handle_command : Bytes → Pager → List Request
handle_command line p =
    if starts_with switch_prefix line then handle_switch_workspace (drop 17 line) p else []

unfoldable pub handle_commands : List Bytes → Pager → List Request
handle_commands [] p = []
handle_commands (l ∷ ls) p = handle_command l p ++ handle_commands ls p

-- The requests that one `read` of the FIFO leads to.
unfoldable pub process_fifo_commands : Received → Pager → List Request
process_fifo_commands received p = handle_commands (command_lines received) p

-- The pager as it starts, with its paths.
unfoldable pub pager_init : Environment → Pager
pager_init env = record {
  workspaces =
      replicate max_workspaces (record { handle = none; name = []; active = false; valid = false });
  workspace_count = 0;
  current_workspace = [];
  listeners = [];
  publisher = record { fd = none };
  fifo_path = daemon_fifo_path (codes "pagerd.fifo") env;
  has_manager = false;
  running = true;
  dirty = true;
}
