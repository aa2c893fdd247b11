-- ===== src/Daemon/FilePaths.antt =====
-- `init_paths` of src/nscde_pagerd/nscde_pagerd.c and src/nscde_toplevel/nscde_toplevel.c.
use orca_cde.Prelude.{
  ℕ, ◌<◌, Option, none, some, [], ◌∷◌, ◌++◌, ◌≡◌, ◌≢◌, refl, sym, ap, ◌∙◌, inl, inr, arith, length,
  length-append, Bytes, codes, clip, clip_of_length-lt, append_assoc, Option-cases,
}
use orca_cde.Runtime.Transport.{path_max, Environment, given, fitted, resolve_state_dir}
use orca_cde.Runtime.Transport.Paths.{state_dir_of, fitted_of, resolve_state_dir-fitted}

-- The size of `cache_dir`.
abbrev pub cache_dir_len : ℕ
cache_dir_len = 512

abbrev in_cache : Bytes → Bytes
in_cache cache = clip path_max (clip cache_dir_len cache ++ codes "/nscde-stage1")

-- A variable that is set, though empty, counts here, but for NSCDE_STATE_DIR.
unfoldable pub daemon_state_dir : Environment → Bytes
daemon_state_dir env = elim (given env.state_dir) [
  | some dir ↦ clip path_max dir
  | none ↦ elim env.cache_home [
    | some cache ↦ in_cache cache
    | none ↦ elim env.home [
      | some home ↦ in_cache (home ++ codes "/.cache")
      | none ↦ in_cache (codes "/tmp/.cache")
    ]
  ]
]

-- The FIFO of the daemon in the directory.
unfoldable pub daemon_fifo_path : Bytes → Environment → Bytes
daemon_fifo_path name env = clip path_max (daemon_state_dir env ++ (b'/' ∷ name))

-- No variable is set to the empty text.
abbrev pub NoneEmpty : Environment → Type 0
NoneEmpty env = (env.cache_home ≢ some []) × (env.home ≢ some [])

given-some : (o : Option Bytes) {s : Bytes} → given o ≡ some s → o ≡ some s
given-some none h = cc
given-some (some []) h = cc
given-some (some (c ∷ s)) h = h

given-none : (o : Option Bytes) → o ≢ some [] → given o ≡ none → o ≡ none
given-none none n h = refl
given-none (some []) n h = absurd (n refl)
given-none (some (c ∷ s)) n h = cc

in_cache_fits :
    (cache : Bytes)
    → length (cache ++ codes "/nscde-stage1") < cache_dir_len
    → in_cache cache ≡ cache ++ codes "/nscde-stage1"
in_cache_fits cache h =
    let longer = length-append cache (codes "/nscde-stage1") in
    ap (λ c. clip path_max (c ++ codes "/nscde-stage1"))
      (clip_of_length-lt cache_dir_len cache (omega (arith, h, longer)))
    ∙ clip_of_length-lt path_max (cache ++ codes "/nscde-stage1") (omega (arith, h))

daemon_state_dir-state_dir_of :
    (env : Environment) (dir : Bytes)
    → NoneEmpty env
    → state_dir_of env ≡ some dir
    → length dir < cache_dir_len
    → daemon_state_dir env ≡ dir
unfolding daemon_state_dir
daemon_state_dir-state_dir_of env dir n d h = elim (Option-cases (given env.state_dir)) [
  | inr (own, e) ↦
      let same : own ≡ dir = ground arith in
      rw (e, daemon_state_dir)
        (ap (clip path_max) same ∙ clip_of_length-lt path_max dir (omega (arith, h)))
  | inl e ↦ elim (Option-cases (given env.cache_home)) [
    | inr (cache, c) ↦
        let is-set = given-some env.cache_home c in
        let same : cache ++ codes "/nscde-stage1" ≡ dir = ground arith in
        rw (e, daemon_state_dir) (rw is-set (in_cache_fits cache (rw same h) ∙ same))
    | inl c ↦ elim (Option-cases (given env.home)) [
      | inl m ↦ ground arith
      | inr (home, m) ↦
          let not-set = given-none env.cache_home n.0 c in
          let is-set = given-some env.home m in
          let whole : home ++ codes "/.cache/nscde-stage1" ≡ dir = ground arith in
          let same : (home ++ codes "/.cache") ++ codes "/nscde-stage1" ≡ dir =
            append_assoc home (codes "/.cache") (codes "/nscde-stage1") ∙ whole in
          rw (e, daemon_state_dir)
            (rw not-set (rw is-set (in_cache_fits (home ++ codes "/.cache") (rw same h) ∙ same)))
    ]
  ]
]

-- Where neither the cache directory's nor the home directory's variable is set to the empty
-- text, and the directory that the environment names is shorter than 512 bytes, a daemon's
-- state directory is the one that the runtime client resolves.
pub resolve_state_dir-daemon_state_dir :
    (env : Environment) (dir : Bytes)
    → NoneEmpty env
    → state_dir_of env ≡ some dir
    → length dir < cache_dir_len
    → resolve_state_dir path_max env ≡ some (daemon_state_dir env)
resolve_state_dir-daemon_state_dir env dir n d h =
    resolve_state_dir-fitted path_max env (omega arith)
    ∙ ap (fitted_of path_max) d
    ∙ fitted_fits
    ∙ ap some (sym (daemon_state_dir-state_dir_of env dir n d h))
  where
    fitted_fits : fitted path_max dir ≡ some dir
    fitted_fits = ground arith
