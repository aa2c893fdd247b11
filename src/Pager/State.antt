-- ===== src/Pager/State.antt =====
-- What the pager publishes: `write_workspace_names`, `write_pager_state`, `write_workspaces_state`,
-- `publish_runtime_topic` and `update_state` of src/nscde_pagerd/nscde_pagerd.c.
use orca_cde.Daemon.Lines.{line}
use orca_cde.Pager.{Workspace, Pager, current_workspace_index}
use orca_cde.Prelude.{
  ℕ, zero, suc, Bool, true, false, none, some, List, [], ◌∷◌, ◌++◌, if◌then◌else◌, Bytes, codes,
  decimal,
}
use orca_cde.Runtime.Request.{Publisher, publisher_open, publisher_send, publish_topic}
use orca_cde.Runtime.Transport.{Environment, Peer}

-- The names of the first `n` slots; each but the first slot's has a comma in front.
unfoldable pub names_text : ℕ → Bool → List Workspace → Bytes
names_text zero first ws = []
names_text (suc n) first [] = []
names_text (suc n) first (w ∷ ws) =
    (if w.valid then (if first then w.name else b',' ∷ w.name) else []) ++ names_text n false ws

abbrev pub write_workspace_names : Bytes → Pager → Bytes
write_workspace_names key p = line key (names_text p.workspace_count true p.workspaces)

unfoldable pub write_pager_state : Pager → Bytes
write_pager_state p =
    write_workspace_names (codes "NSCDE_PAGER_WORKSPACES") p
    ++ (line (codes "NSCDE_PAGER_CURRENT") p.current_workspace
        ++ (line (codes "NSCDE_PAGER_COUNT") (decimal p.workspace_count)
            ++ (line (codes "NSCDE_PAGER_INDEX") (decimal (current_workspace_index p))
                ++ line (codes "NSCDE_PAGER_COMMAND_FIFO") p.fifo_path)))

unfoldable pub write_workspaces_state : Pager → Bytes
write_workspaces_state p =
    write_workspace_names (codes "NSCDE_WORKSPACES") p
    ++ (line (codes "NSCDE_WORKSPACE_COUNT") (decimal p.workspace_count)
        ++ (line (codes "NSCDE_CURRENT_WORKSPACE") p.current_workspace
            ++ line (codes "NSCDE_PAGER_COMMAND_FIFO") p.fifo_path))

-- What the surroundings answer while the state is published: the runtime when the stream is opened
-- and at each of the two messages, and whether `open_memstream` gives a stream for a topic.
pub record Answers : Type 0 where
  pub opening : Peer
  pub workspaces : Peer
  pub pager : Peer
  pub streams : Bytes → Bool

-- The topics of the stream and of its messages.
abbrev pub pager_topics : Bytes
pager_topics = codes "workspaces,pager"

module _ (alloc : ℕ → Bool) (env : Environment) where
  -- On the stream, where it is open, else by a request of its own.
  unfoldable pub publish_runtime_topic :
      Peer → (Bytes → Bool) → Publisher → Bytes → Bytes → Bool × Bytes
  publish_runtime_topic peer streams publisher topic contents =
      if streams topic
      then elim publisher.fd [
        | some fd ↦ publisher_send alloc env peer publisher topic (some contents)
        | none ↦ publish_topic alloc env peer topic (some contents)
      ]
      else (false, [])

  -- The publisher is opened again where it is closed.
  abbrev pub reopened : Answers → Publisher → Publisher
  reopened a publisher = elim publisher.fd [
    | some fd ↦ publisher
    | none ↦ (publisher_open alloc env a.opening (codes "pagerd") pager_topics publisher).1
  ]

  abbrev pub with_publisher : Answers → Pager → Pager
  with_publisher a p = record p { publisher = reopened a p.publisher }

  -- The new state, and the bytes of the two messages.
  unfoldable pub update_state : Answers → Pager → Pager × Bytes × Bytes
  update_state a p =
      let p' = with_publisher a p in
      let first =
        publish_runtime_topic a.workspaces a.streams p'.publisher (codes "workspaces")
          (write_workspaces_state p') in
      let second =
        publish_runtime_topic a.pager a.streams p'.publisher (codes "pager")
          (write_pager_state p') in
      (record p' { dirty = false }, first.1, second.1)

  -- `if (pager.dirty) update_state()`
  unfoldable pub update_if_dirty : Answers → Pager → Pager
  update_if_dirty a p = let updated = update_state a p in if p.dirty then updated.0 else p
