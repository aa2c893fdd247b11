-- ===== src/Backdrop/Start.antt =====
-- How the daemon gets its first values: `environment_has_backdrop_values`,
-- `apply_backdrop_environment`, `query_runtime_backdrops_with_retry` and
-- `setup_runtime_subscription` of src/nscde_backdropd/nscde_backdropd.c.
use orca_cde.Backdrop.{Backdrop}
use orca_cde.Backdrop.Processes.{Answers}
use orca_cde.Backdrop.Updates.{apply_backdrop_values}
use orca_cde.Prelude.{
  ℕ, zero, suc, Bool, true, ◌||◌, not, Option, none, some, [], if◌then◌else◌, Bytes, codes, is_nil,
}
use orca_cde.Runtime.Request.{query_topic, subscribe_topics}
use orca_cde.Runtime.Transport.{Environment, Peer}

-- The variables NSCDE_BACKDROP_IMAGE, NSCDE_BACKDROP_MODE and NSCDE_BACKDROP_COLOR.
pub record Variables : Type 0 where
  pub image : Option Bytes
  pub mode : Option Bytes
  pub color : Option Bytes

abbrev pub or_empty : Option Bytes → Bytes
or_empty none = []
or_empty (some s) = s

unfoldable pub environment_has_backdrop_values : Variables → Bool
environment_has_backdrop_values v =
    not (is_nil (or_empty v.image))
    || not (is_nil (or_empty v.mode))
    || not (is_nil (or_empty v.color))

unfoldable pub apply_backdrop_environment : Answers → Variables → Backdrop → Backdrop
apply_backdrop_environment a v b =
    apply_backdrop_values a
      (record {
        workspace = [];
        desk = [];
        image_name = [];
        image = or_empty v.image;
        mode = or_empty v.mode;
        color = or_empty v.color;
      })
      b

abbrev pub backdrops : Bytes
backdrops = codes "backdrops"

module _ (alloc : ℕ → Bool) (env : Environment) where
  -- Up to `n` queries, the runtime's answers numbered from `k` on.
  unfoldable pub query_runtime_backdrops_with_retry : (ℕ → Peer) → ℕ → ℕ → Option Bytes
  query_runtime_backdrops_with_retry peers zero k = none
  query_runtime_backdrops_with_retry peers (suc n) k =
      let rest = query_runtime_backdrops_with_retry peers n (suc k) in
      elim (query_topic alloc env (peers k) backdrops).0 [
        | none ↦ rest
        | some contents ↦ some contents
      ]

  unfoldable pub setup_runtime_subscription : Peer → Backdrop → Bool × Backdrop
  setup_runtime_subscription peer b =
      let (done, sub, sent) = subscribe_topics alloc env peer backdrops b.runtime_subscription in
      if b.runtime_active
      then (true, b)
      else (done, record b { runtime_subscription = sub; runtime_active = done })
