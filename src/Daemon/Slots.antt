-- ===== src/Daemon/Slots.antt =====
-- The slots of src/nscde_pagerd/nscde_pagerd.c and src/nscde_toplevel/nscde_toplevel.c: an array
-- whose first `count` entries are in use. A handle of the compositor is a number, and the slot
-- that a listener was given as its data is kept with the handle.
pub mod Validity
pub mod Removal
use orca_cde.Prelude.{
  ℕ, zero, suc, Bool, true, false, Option, none, some, List, [], ◌∷◌, ◌==◌, if◌then◌else◌,
}

-- What the slots of an array have in common: a handle, null as `none`, and the flag `valid`.
pub record Occupant {ℓ} (W : Type ℓ) : Type ℓ where
  pub handle : W → Option ℕ
  pub is_valid : W → Bool
  pub invalidated : W → W

abbrev pub has_handle : Option ℕ → ℕ → Bool
has_handle none h = false
has_handle (some g) h = g == h

-- The slot that the handle's listener was given.
unfoldable pub slot_of : ℕ → List (ℕ × ℕ) → Option ℕ
slot_of h [] = none
slot_of h ((g, i) ∷ ls) = let rest = slot_of h ls in if g == h then some i else rest

module _ {ℓ} {W : Type ℓ} where
  -- `n` slots are moved down by one; the last stays where it is.
  unfoldable pub shift : ℕ → List W → List W
  shift (suc n) (w ∷ v ∷ ws) = v ∷ shift n (v ∷ ws)
  shift _ ws = ws

  abbrev pub keep : W → Option (List W) → Option (List W)
  keep w none = none
  keep w (some ws) = some (w ∷ ws)

  -- The slots after the removal of the first of `n` that has the handle.
  unfoldable pub remove_in : Occupant W → ℕ → ℕ → List W → Option (List W)
  unfolding shift
  remove_in o zero h ws = none
  remove_in o (suc n) h [] = none
  remove_in o (suc n) h (w ∷ ws) =
      let rest = remove_in o n h ws in
      if has_handle (o.handle w) h then some (shift n (o.invalidated w ∷ ws)) else keep w rest
