-- ===== src/Runtime/Reactor.antt =====
-- The descriptor reactor: `nscde_fd_reactor_init`, `..._add`, `..._remove` and `..._run_once` of
-- src/nscde_wayland_common/runtime-client.c. `H` stands for function pointers and `U` for the
-- userdata; what a handler does to the reactor and to the rest of the program is a parameter.
pub mod Watching
pub mod Dispatch
use orca_cde.Prelude.{
  ℕ, zero, suc, ◌+◌, ◌/◌, ◌%◌, Bool, true, false, not, ◌&&◌, ◌||◌, Option, none, some, List, [],
  ◌∷◌, ◌==◌, if◌then◌else◌, get_elem?, modify, replicate, is_nil,
}

-- NSCDE_FD_REACTOR_MAX_WATCHERS
abbrev pub max_watchers : ℕ
max_watchers = 16

-- `nscde_fd_reactor_watcher`; `none` is the descriptor -1, the null handler or null userdata.
pub record Watcher {ℓ κ} (H : Type ℓ) (U : Type κ) : Type (ℓ ⊔ κ) where
  pub fd : Option ℕ
  pub events : ℕ
  pub on_ready : Option H
  pub on_error : Option H
  pub userdata : Option U
  pub active : Bool

abbrev pub is_fd : Option ℕ → ℕ → Bool
is_fd none fd = false
is_fd (some d) fd = d == fd

-- `a & b` is not zero, on the sixteen bits of a `short`.
meets_bits : ℕ → ℕ → ℕ → Bool
meets_bits zero a b = false
meets_bits (suc w) a b = a % 2 == 1 && b % 2 == 1 || meets_bits w (a / 2) (b / 2)

unfoldable pub meets : ℕ → ℕ → Bool
unfolding meets_bits
meets a b = meets_bits 16 a b

-- POLLERR | POLLHUP | POLLNVAL
abbrev pub poll_errors : ℕ
poll_errors = 56

module _ {ℓ κ} {H : Type ℓ} {U : Type κ} where
  abbrev pub idle : Watcher H U
  idle = record {
    fd = none;
    events = 0;
    on_ready = none;
    on_error = none;
    userdata = none;
    active = false;
  }

  -- `nscde_fd_reactor_init`
  unfoldable pub reactor_init : List (Watcher H U)
  reactor_init = replicate max_watchers idle

  -- The first watcher that is not active is overwritten.
  pub place : Watcher H U → List (Watcher H U) → Bool × List (Watcher H U)
  place new [] = (false, [])
  place new (w ∷ ws) =
      let (done, ws') = place new ws in if w.active then (done, w ∷ ws') else (true, new ∷ ws)

  -- `fd` is a descriptor or, as `none`, negative.
  unfoldable pub reactor_add :
      List (Watcher H U) → Option ℕ → ℕ → Option H → Option H → Option U → Bool × List (Watcher H U)
  unfolding place
  reactor_add ws none events on_ready on_error userdata = (false, ws)
  reactor_add ws (some fd) events none on_error userdata = (false, ws)
  reactor_add ws (some fd) events (some ready) on_error userdata =
      place
        (record {
          fd = some fd;
          events = events;
          on_ready = some ready;
          on_error = on_error;
          userdata = userdata;
          active = true;
        })
        ws

  unfoldable pub reactor_remove : List (Watcher H U) → ℕ → List (Watcher H U)
  reactor_remove [] fd = []
  reactor_remove (w ∷ ws) fd =
      let rest = reactor_remove ws fd in if w.active && is_fd w.fd fd then idle ∷ rest else w ∷ rest

  -- What is polled: the index of each active watcher, from `i` on, its descriptor and its events.
  pub polled : ℕ → List (Watcher H U) → List (ℕ × ℕ × ℕ)
  polled i [] = []
  polled i (w ∷ ws) =
      let rest = polled (suc i) ws in
      elim w.fd [ none ↦ rest | some fd ↦ if w.active then (i, fd, w.events) ∷ rest else rest ]

-- The reactor and the rest of the program, which handlers change.
pub record Running {ℓ κ μ} (H : Type ℓ) (U : Type κ) (W : Type μ) : Type (ℓ ⊔ κ ⊔ μ) where
  pub watchers : List (Watcher H U)
  pub world : W

module _ {ℓ κ μ} {H : Type ℓ} {U : Type κ} {W : Type μ}
    (call : H → Option ℕ → ℕ → Option U → Running H U W → Running H U W) where
  -- A handler of a watcher is called on its descriptor and userdata.
  abbrev pub invoke : H → Watcher H U → ℕ → Running H U W → Running H U W
  invoke h w revents s = call h w.fd revents w.userdata s

  abbrev pub when_ready : Watcher H U → ℕ → Running H U W → Running H U W
  when_ready w revents s = elim w.on_ready [
    | none ↦ s
    | some h ↦ if meets revents w.events then invoke h w revents s else s
  ]

  -- What is done for one polled watcher, read through its pointer at that time.
  abbrev pub handle : Watcher H U → ℕ → Running H U W → Running H U W
  handle w revents s =
      if revents == 0 || not w.active
      then s
      else if meets revents poll_errors
      then elim w.on_error [ some h ↦ invoke h w revents s | none ↦ when_ready w revents s ]
      else when_ready w revents s

  abbrev pub handle_at : ℕ → ℕ → Running H U W → Running H U W
  handle_at i revents s = elim (get_elem? s.watchers i) [ none ↦ s | some w ↦ handle w revents s ]

  -- The loop over the results; a result that `poll` does not give is no event.
  pub dispatch : List (ℕ × ℕ × ℕ) → List ℕ → Running H U W → Running H U W
  dispatch [] results s = s
  dispatch ((i, fd, events) ∷ ps) [] s = s
  dispatch ((i, fd, events) ∷ ps) (revents ∷ results) s =
      dispatch ps results (handle_at i revents s)

  -- `poll` gives the events of each descriptor polled, or `none` where it returns no more than 0.
  unfoldable pub reactor_run_once :
      (List (ℕ × ℕ × ℕ) → Option (List ℕ)) → Running H U W → Bool × Running H U W
  unfolding dispatch polled
  reactor_run_once poll s =
      let ps = polled 0 s.watchers in
      if is_nil ps
      then (false, s)
      else elim (poll ps) [ none ↦ (false, s) | some results ↦ (true, dispatch ps results s) ]
