-- ===== src/Runtime/Reactor/Watching.antt =====
-- The number of watchers of a descriptor, under `nscde_fd_reactor_add` and `_remove` of
-- src/nscde_wayland_common/runtime-client.c.
use orca_cde.Prelude.{
  ℕ, suc, Bool, true, false, ◌&&◌, Option, some, List, [], ◌∷◌, ◌≡◌, ◌⊎◌, inl, inr, refl, sym, ap,
  arith, ◌==◌, if◌then◌else◌, length, Bool-cases, All, subst,
}
use orca_cde.Runtime.Reactor.{Watcher, is_fd, place, reactor_add, reactor_remove}

module _ {ℓ κ} {H : Type ℓ} {U : Type κ} where
  -- How many active watchers a descriptor has.
  abbrev pub watched : ℕ → List (Watcher H U) → ℕ
  watched fd [] = 0
  watched fd (w ∷ ws) =
      let rest = watched fd ws in if w.active && is_fd w.fd fd then suc rest else rest

  abbrev pub IsFull : List (Watcher H U) → Type 0
  IsFull = All (λ w. w.active ≡ true)

  -- What adding a watcher for a descriptor does to the reactor.
  abbrev pub Adds : ℕ → List (Watcher H U) → Bool × List (Watcher H U) → Type (ℓ ⊔ κ)
  Adds fd ws (done, ws') =
      ((done ≡ true)
        × (length ws' ≡ length ws)
        × ((d : ℕ) → watched d ws' ≡ (if fd == d then suc (watched d ws) else watched d ws)))
      ⊎ ((done ≡ false) × (ws' ≡ ws) × IsFull ws)

  place-Adds :
      (new : Watcher H U) (fd : ℕ) (ws : List (Watcher H U))
      → new.active ≡ true
      → new.fd ≡ some fd
      → Adds fd ws (place new ws)
  unfolding place
  place-Adds new fd [] a f = inr (refl, refl, tt)
  place-Adds new fd (w ∷ ws) a f = elim (Bool-cases w.active) [
    | inr i ↦ subst (Adds fd (w ∷ ws)) (sym (placed_here i)) (inl (refl, refl, counts_new i))
    | inl i ↦ subst (Adds fd (w ∷ ws)) (sym (placed_later i)) (elim (place-Adds new fd ws a f) [
      | inl (done, long, counts) ↦ inl (done, ap suc long, λ d. ground (arith, counts d))
      | inr (done, same, full) ↦ inr (done, ap (◌∷◌ w) same, (i, full))
    ])
  ]
    where
      placed_here : w.active ≡ false → place new (w ∷ ws) ≡ (true, new ∷ ws)
      placed_here i = ground (arith, i)

      placed_later : w.active ≡ true → place new (w ∷ ws) ≡ ((place new ws).0, w ∷ (place new ws).1)
      placed_later i = ground (arith, i)

      counts_new :
          w.active ≡ false
          → (d : ℕ)
          → watched d (new ∷ ws)
            ≡ (if fd == d then suc (watched d (w ∷ ws)) else watched d (w ∷ ws))
      counts_new i d = rw (a, f, i) refl

  -- Adding a watcher with a handler for a descriptor returns true and gives this descriptor one
  -- more active watcher, with the counts of all others and the number of slots as they were; or
  -- every slot is active, and it returns false and changes nothing.
  pub reactor_add-Adds :
      (ws : List (Watcher H U)) (fd events : ℕ) (ready : H) (on_error : Option H)
      (userdata : Option U)
      → Adds fd ws (reactor_add ws (some fd) events (some ready) on_error userdata)
  unfolding reactor_add
  reactor_add-Adds ws fd events ready on_error userdata = place-Adds _ fd ws refl refl

  reactor_remove-watched_self :
      (ws : List (Watcher H U)) (fd : ℕ) → watched fd (reactor_remove ws fd) ≡ 0
  unfolding reactor_remove
  reactor_remove-watched_self [] fd = refl
  reactor_remove-watched_self (w ∷ ws) fd = ground (arith, reactor_remove-watched_self ws fd)

  reactor_remove-watched_ne :
      (ws : List (Watcher H U)) (fd d : ℕ)
      → (d == fd) ≡ false
      → watched d (reactor_remove ws fd) ≡ watched d ws
  unfolding reactor_remove
  reactor_remove-watched_ne [] fd d h = refl
  reactor_remove-watched_ne (w ∷ ws) fd d h = ground (arith, reactor_remove-watched_ne ws fd d h)

  -- Removing a descriptor from the reactor leaves it no active watcher, every other descriptor
  -- as many as it had, and the number of slots as it was.
  pub reactor_remove-watched :
      (ws : List (Watcher H U)) (fd : ℕ)
      → ((d : ℕ) → watched d (reactor_remove ws fd) ≡ (if d == fd then 0 else watched d ws))
        × (length (reactor_remove ws fd) ≡ length ws)
  unfolding reactor_remove
  reactor_remove-watched ws fd = (λ d. counts d, length-reactor_remove ws)
    where
      counts : (d : ℕ) → watched d (reactor_remove ws fd) ≡ (if d == fd then 0 else watched d ws)
      counts d =
          ground (arith, reactor_remove-watched_self ws fd, reactor_remove-watched_ne ws fd d)

      length-reactor_remove :
          (ws' : List (Watcher H U)) → length (reactor_remove ws' fd) ≡ length ws'
      length-reactor_remove [] = refl
      length-reactor_remove (w ∷ ws') = ground (arith, length-reactor_remove ws')
