-- ===== src/Panel/Runtime.antt =====
-- The panel's part in the runtime's protocol: `query_runtime_topic_and_parse`, `sync_runtime_state`,
-- `setup_runtime_subscription` and their retries, `handle_runtime_subscription` and
-- `refresh_state_transport` of src/nscde_paneld/nscde_paneld.c.
pub mod Active
use orca_cde.Panel.State.{Panel}
use orca_cde.Panel.Theme.{Color}
use orca_cde.Panel.Updates.{
  parse_layout_env_contents, parse_env_contents, parse_workspaces_env_contents,
  parse_subpanel_env_contents, apply_runtime_frame,
}
use orca_cde.Prelude.{
  ℕ, zero, suc, Bool, true, false, ◌&&◌, not, Option, none, some, List, [], ◌∷◌, if◌then◌else◌,
  Bytes, codes,
}
use orca_cde.Runtime.Frame.{field_len}
use orca_cde.Runtime.Request.{query_topic, subscribe_topics}
use orca_cde.Runtime.Subscription.Drain.{Drained, drain}
use orca_cde.Runtime.Subscription.{
  ReadResult, read_error, read_closed, Subscription, Socket, subscription_close,
}
use orca_cde.Runtime.Transport.{Environment, Peer}

-- The runtime at the queries of one attempt.
pub record Peers : Type 0 where
  pub panel_layout : Peer
  pub panel : Peer
  pub workspaces : Peer
  pub subpanels : Peer

-- How often an attempt is made.
abbrev pub attempts : ℕ
attempts = 50

abbrev pub panel_topics : Bytes
panel_topics = codes "panel-layout,panel,workspaces,subpanels"

abbrev pub is_over : ReadResult → Bool
is_over read_closed = true
is_over read_error = true
is_over _ = false

unfoldable pub teardown_runtime_subscription : Panel → Panel
teardown_runtime_subscription p = record p {
  runtime_subscription = subscription_close p.runtime_subscription;
  runtime_active = false;
}

module _ (alloc : ℕ → Bool) (scan : Bytes → Option Color) (buffer : Bool) where
  module _ (env : Environment) where
    abbrev pub parsed : Option Bytes → (Bytes → Panel → Panel) → Panel → Bool × Panel
    parsed none parser p = (false, p)
    parsed (some contents) parser p = (true, parser contents p)

    unfoldable pub query_runtime_topic_and_parse :
        Peer → Bytes → (Bytes → Panel → Panel) → Panel → Bool × Panel
    query_runtime_topic_and_parse peer topic parser p =
        parsed (query_topic alloc env peer topic).0 parser p

    -- All topics are asked for, whether or not one fails.
    unfoldable pub sync_runtime_state : Peers → Panel → Bool × Panel
    sync_runtime_state a p =
        let ask = query_runtime_topic_and_parse in
        let (ok0, p0) =
          ask a.panel_layout (codes "panel-layout") (parse_layout_env_contents alloc scan buffer)
            p in
        let (ok1, p1) = ask a.panel (codes "panel") (parse_env_contents alloc scan buffer) p0 in
        let (ok2, p2) =
          ask a.workspaces (codes "workspaces") (parse_workspaces_env_contents alloc scan buffer)
            p1 in
        let (ok3, p3) =
          ask a.subpanels (codes "subpanels") (parse_subpanel_env_contents alloc scan buffer) p2 in
        (ok3 && (ok2 && (ok1 && ok0)), p3)

    unfoldable pub setup_runtime_subscription : Peer → Panel → Bool × Panel
    setup_runtime_subscription peer p =
        let (done, sub, sent) =
          subscribe_topics alloc env peer panel_topics p.runtime_subscription in
        if p.runtime_active
        then (true, p)
        else (done, record p { runtime_subscription = sub; runtime_active = done })

    -- Up to `n` attempts; the first that succeeds is the last.
    unfoldable pub with_retry : (ℕ → Panel → Bool × Panel) → ℕ → ℕ → Panel → Bool × Panel
    with_retry attempt zero k p = (false, p)
    with_retry attempt (suc n) k p =
        let now = attempt k p in
        let rest = with_retry attempt n (suc k) now.1 in if now.0 then (true, now.1) else rest

  -- The loop over frames on fuel; the same `buffer` for each.
  unfoldable pub handle_runtime_subscription : ℕ → Socket → Panel → Option (Panel × Socket)
  handle_runtime_subscription fuel socket p =
      elim (drain alloc (apply_runtime_frame alloc scan buffer) field_len fuel
        p.runtime_subscription socket p) [
          | none ↦ none
          | some d ↦
              let u = d.user in
              let q = record u { runtime_subscription = d.sub } in
              some (if is_over d.result then teardown_runtime_subscription q else q, d.socket)
        ]

  -- `handle_runtime_ready` and `handle_runtime_error`, which are the same.
  abbrev pub stopped : Option (Panel × Socket) → Option (Panel × Socket)
  stopped none = none
  stopped (some (p, socket)) = some (record p { running = p.running && p.runtime_active }, socket)

  unfoldable pub handle_runtime_ready : ℕ → Socket → Panel → Option (Panel × Socket)
  handle_runtime_ready fuel socket p = stopped (handle_runtime_subscription fuel socket p)

  -- The runtime's answers to the attempts, and the socket of the subscription.
  unfoldable pub refresh_state_transport :
      Environment → (ℕ → Peers) → (ℕ → Peer) → ℕ → Socket → Panel → Option (Panel × Socket)
  refresh_state_transport env queries subscriptions fuel socket p =
      let synced = with_retry env (λ k. sync_runtime_state env (queries k)) attempts 0 p in
      let ready =
        with_retry env (λ k. setup_runtime_subscription env (subscriptions k)) attempts 0
          synced.1 in
      let halted = λ (q : Panel). record q { running = false } in
      let started = handle_runtime_subscription fuel socket ready.1 in
      if p.runtime_active
      then some (p, socket)
      else if not synced.0
      then some (halted synced.1, socket)
      else if not ready.0
      then some (halted ready.1, socket)
      else started
