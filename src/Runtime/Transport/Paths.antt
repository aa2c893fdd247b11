-- ===== src/Runtime/Transport/Paths.antt =====
-- The lengths of the paths of src/nscde_wayland_common/runtime-client.c.
use orca_cde.Prelude.{
  ℕ, ◌≤◌, Option, none, some, ◌++◌, ◌≡◌, arith, length-append, Bytes, codes, Option-cases,
  append_assoc, inl, inr,
}
use orca_cde.Runtime.Transport.{
  path_max, Environment, fitted, given, resolve_state_dir, resolve_socket_path,
}

-- The directory by the order of the variables, with no buffer between.
abbrev pub state_dir_of : Environment → Option Bytes
state_dir_of env = elim (given env.state_dir) [
  | some dir ↦ some dir
  | none ↦ elim (given env.cache_home) [
    | some cache_home ↦ some (cache_home ++ codes "/nscde-stage1")
    | none ↦ elim (given env.home) [
      | some home ↦ some (home ++ codes "/.cache/nscde-stage1")
      | none ↦ none
    ]
  ]
]

abbrev pub fitted_of : ℕ → Option Bytes → Option Bytes
fitted_of size none = none
fitted_of size (some text) = fitted size text

-- The buffer for HOME's cache directory is no further limit: a path that fits does not exceed it.
fallback-fits :
    (size : ℕ) (home : Bytes)
    → size ≤ path_max
    → elim (fitted path_max (home ++ codes "/.cache")) [
      | none ↦ none
      | some fallback ↦ fitted size (fallback ++ codes "/nscde-stage1")
    ]
      ≡ fitted size (home ++ codes "/.cache/nscde-stage1")
fallback-fits size home h = ground (
  arith,
  append_assoc home (codes "/.cache") (codes "/nscde-stage1"),
  length-append home (codes "/.cache"),
  length-append home (codes "/.cache/nscde-stage1"),
)

pub resolve_state_dir-fitted :
    (size : ℕ) (env : Environment)
    → size ≤ path_max
    → resolve_state_dir size env ≡ fitted_of size (state_dir_of env)
unfolding resolve_state_dir
resolve_state_dir-fitted size env h = elim (Option-cases (given env.state_dir)) [
  | inr (dir, e) ↦ ground (arith, e)
  | inl e ↦ elim (Option-cases (given env.cache_home)) [
    | inr (cache, c) ↦ ground (arith, e, c)
    | inl c ↦ elim (Option-cases (given env.home)) [
      | inl n ↦ ground (arith, e, c, n)
      | inr (home, n) ↦ ground (arith, e, c, n, fallback-fits size home h)
    ]
  ]
]

abbrev pub socket_path_of : Environment → Option Bytes
socket_path_of env = elim (state_dir_of env) [
  | none ↦ none
  | some dir ↦ some (dir ++ codes "/runtime.sock")
]

-- Into a buffer of at most PATH_MAX_LEN bytes the socket's path is resolved to the path that
-- NSCDE_STATE_DIR, else XDG_CACHE_HOME, else HOME gives, never cut short; where that path does
-- not fit, or none of the variables is set and not empty, resolving fails.
pub resolve_socket_path-fitted :
    (size : ℕ) (env : Environment)
    → size ≤ path_max
    → resolve_socket_path size env ≡ fitted_of size (socket_path_of env)
unfolding resolve_socket_path
resolve_socket_path-fitted size env h = elim (Option-cases (state_dir_of env)) [
  | inl e ↦
      rw (resolve_state_dir-fitted path_max env (omega arith), resolve_socket_path)
        (ground (arith, e))
  | inr (dir, e) ↦
      rw (resolve_state_dir-fitted path_max env (omega arith), resolve_socket_path)
        (ground (arith, e, length-append dir (codes "/runtime.sock")))
]
