-- ===== src/Daemon/Slots/Removal.antt =====
-- The removal from the slots of src/nscde_pagerd/nscde_pagerd.c and
-- src/nscde_toplevel/nscde_toplevel.c, on the list of those in use.
use orca_cde.Daemon.Slots.{Occupant, has_handle, shift, keep, remove_in}
use orca_cde.Daemon.Slots.Validity.{Live, keep-some}
use orca_cde.Prelude.{
  ℕ, zero, suc, ◌-◌, ◌<◌, true, Option, none, some, List, [], ◌∷◌, ◌≡◌, refl, sym, ap, ◌∙◌, inl,
  inr, arith, if◌then◌else◌, take, Bool-cases,
}

module _ {ℓ} {W : Type ℓ} (o : Occupant W) where
  -- The list without the first that has the handle.
  unfoldable pub erase : ℕ → List W → List W
  erase h [] = []
  erase h (w ∷ ws) = let rest = erase h ws in if has_handle (o.handle w) h then ws else w ∷ rest

  take-shift : (n : ℕ) (w : W) (ws : List W) → Live o n ws → take n (shift n (w ∷ ws)) ≡ take n ws
  unfolding shift
  take-shift zero w ws l = refl
  take-shift (suc n) w [] l = absurd l
  take-shift (suc n) w (v ∷ ws) l = ap (v ∷◌) (take-shift n v ws l.1)

  take_pred-cons : (n : ℕ) (w : W) (ws : List W) → 0 < n → take n (w ∷ ws) ≡ w ∷ take (n - 1) ws
  take_pred-cons zero w ws h = absurd (omega arith)
  take_pred-cons (suc n) w ws h = ap (λ m. w ∷ take m ws) (omega arith)

  pub remove_in-erase :
      (n h : ℕ) (ws : List W) {ws' : List W}
      → Live o n ws
      → remove_in o n h ws ≡ some ws'
      → (0 < n) × (take (n - 1) ws' ≡ erase h (take n ws))
  unfolding remove_in erase
  remove_in-erase zero h ws l e = cc
  remove_in-erase (suc n) h [] l e = absurd l
  remove_in-erase (suc n) h (w ∷ ws) {ws'} l e = elim (Bool-cases (has_handle (o.handle w) h)) [
    | inl this ↦
        let gone : shift n (o.invalidated w ∷ ws) ≡ ws' = ground arith in
        let same : suc n - 1 ≡ n = omega arith in
        (
          omega arith,
          rw (this, erase)
              (ap (λ m. take m ws') same
                ∙ ap (take n) (sym gone)
                ∙ take-shift n (o.invalidated w) ws l.1),
        )
    | inr other ↦
        let (vs, found, whole) = keep-some o w (remove_in o n h ws) (rw (other, remove_in) at e) in
        let (pos_n, later) = remove_in-erase n h ws l.1 found in
        let same : suc n - 1 ≡ n = omega arith in
        (
          omega arith,
          rw (other, erase)
              (ap (λ m. take m ws') same
                ∙ ap (take n) whole
                ∙ take_pred-cons n w vs pos_n
                ∙ ap (w ∷◌) later),
        )
  ]

  pub remove_in-none :
      (n h : ℕ) (ws : List W)
      → Live o n ws
      → remove_in o n h ws ≡ none
      → erase h (take n ws) ≡ take n ws
  unfolding remove_in erase
  remove_in-none zero h ws l e = refl
  remove_in-none (suc n) h [] l e = absurd l
  remove_in-none (suc n) h (w ∷ ws) l e = elim (Bool-cases (has_handle (o.handle w) h)) [
    | inl this ↦ ground arith
    | inr other ↦
        rw (other, erase)
          (ap (w ∷◌) (remove_in-none n h ws l.1 (nothing _ (rw (other, remove_in) at e))))
  ]
    where
      nothing : (r : Option (List W)) → keep w r ≡ none → r ≡ none
      nothing none k = refl
      nothing (some vs) k = cc

  -- The second slot moves into the first.
  pub remove_in-first :
      (n h : ℕ) (w v : W) (ws : List W)
      → has_handle (o.handle w) h ≡ true
      → remove_in o (suc (suc n)) h (w ∷ v ∷ ws) ≡ some (v ∷ shift n (v ∷ ws))
  unfolding remove_in shift
  remove_in-first n h w v ws e = rw (e, remove_in) refl
