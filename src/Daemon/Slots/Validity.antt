-- ===== src/Daemon/Slots/Validity.antt =====
-- The slots below the count in use, under the operations that src/nscde_pagerd/nscde_pagerd.c and
-- src/nscde_toplevel/nscde_toplevel.c share.
use orca_cde.Daemon.Slots.{Occupant, has_handle, shift, keep, remove_in}
use orca_cde.Prelude.{
  ℕ, zero, suc, ◌-◌, ◌<◌, true, Option, none, some, List, [], ◌∷◌, ◌≡◌, refl, sym, ap, inl, inr,
  arith, length, modify, All, Bool-cases, subst,
}

module _ {ℓ} {W : Type ℓ} (o : Occupant W) where
  -- The first `n` slots are there and in use.
  abbrev pub Live : ℕ → List W → Type 0
  Live zero ws = Unit
  Live (suc n) [] = ⊥
  Live (suc n) (w ∷ ws) = (o.is_valid w ≡ true) × Live n ws

  shift-Live : (n : ℕ) (w : W) (ws : List W) → Live n ws → Live n (shift n (w ∷ ws))
  unfolding shift
  shift-Live zero w ws l = tt
  shift-Live (suc n) w [] l = absurd l
  shift-Live (suc n) w (v ∷ ws) l = (l.0, shift-Live n v ws l.1)

  pub Live-modify :
      (n i : ℕ) (f : W → W) (ws : List W)
      → ((w : W) → o.is_valid w ≡ true → o.is_valid (f w) ≡ true)
      → Live n ws
      → Live n (modify ws i f)
  Live-modify zero i f ws k l = tt
  Live-modify (suc n) i f [] k l = absurd l
  Live-modify (suc n) zero f (w ∷ ws) k l = (k w l.0, l.1)
  Live-modify (suc n) (suc i) f (w ∷ ws) k l = (l.0, Live-modify n i f ws k l.1)

  pub Live-added :
      (n : ℕ) (f : W → W) (ws : List W)
      → ((w : W) → o.is_valid (f w) ≡ true)
      → n < length ws
      → Live n ws
      → Live (suc n) (modify ws n f)
  Live-added n f [] k b l = absurd (omega (arith, b))
  Live-added zero f (w ∷ ws) k b l = (k w, tt)
  Live-added (suc n) f (w ∷ ws) k b l = (l.0, Live-added n f ws k (omega (arith, b)) l.1)

  length-shift : (n : ℕ) (ws : List W) → length (shift n ws) ≡ length ws
  unfolding shift
  length-shift zero ws = refl
  length-shift (suc n) [] = refl
  length-shift (suc n) (w ∷ []) = refl
  length-shift (suc n) (w ∷ v ∷ ws) = ap suc (length-shift n (v ∷ ws))

  pub keep-some :
      (w : W) (r : Option (List W)) {ws : List W}
      → keep w r ≡ some ws
      → (vs : List W) × (r ≡ some vs) × (ws ≡ w ∷ vs)
  keep-some w none h = cc
  keep-some w (some vs) h = (vs, refl, cc)

  module _ (P : W → Type 0) where
    shift-All : (n : ℕ) (ws : List W) → All P ws → All P (shift n ws)
    unfolding shift
    shift-All zero ws a = a
    shift-All (suc n) [] a = a
    shift-All (suc n) (w ∷ []) a = a
    shift-All (suc n) (w ∷ v ∷ ws) a = (a.1.0, shift-All n (v ∷ ws) a.1)

    -- What a removal from `n` slots gives.
    pub record IsRemoved (n : ℕ) (ws ws' : List W) : Type 0 where
      pub some_slot : 0 < n
      pub same_length : length ws' ≡ length ws
      pub still_live : Live (n - 1) ws'
      pub still_all : All P ws'

    pub remove_in-IsRemoved :
        ((w : W) → P w → P (o.invalidated w))
        → (n h : ℕ) (ws : List W) {ws' : List W} → Live n ws
        → All P ws
        → remove_in o n h ws ≡ some ws'
        → IsRemoved n ws ws'
    unfolding remove_in
    remove_in-IsRemoved p zero h ws l a e = cc
    remove_in-IsRemoved p (suc n) h [] l a e = absurd l
    remove_in-IsRemoved p (suc n) h (w ∷ ws) {ws'} l a e =
        elim (Bool-cases (has_handle (o.handle w) h)) [
          | inl this ↦
              let w' = o.invalidated w in
              let gone : shift n (w' ∷ ws) ≡ ws' = ground arith in
              subst (IsRemoved (suc n) (w ∷ ws)) gone (record {
                some_slot = omega arith;
                same_length = length-shift n (w' ∷ ws);
                still_live =
                    subst (λ j. Live j (shift n (w' ∷ ws))) (omega arith) (shift-Live n w' ws l.1);
                still_all = shift-All n (w' ∷ ws) (p w a.0, a.1);
              })
          | inr other ↦
              let (vs, found, whole) =
                keep-some w (remove_in o n h ws) (rw (other, remove_in) at e) in
              let r = remove_in-IsRemoved p n h ws l.1 a.1 found in
              subst (IsRemoved (suc n) (w ∷ ws)) (sym whole) (record {
                some_slot = omega arith;
                same_length = ap suc r.same_length;
                still_live =
                    subst (λ j. Live j (w ∷ vs)) (omega arith) (kept n vs r.some_slot r.still_live);
                still_all = (a.0, r.still_all);
              })
        ]
      where
        kept : (m : ℕ) (vs : List W) → 0 < m → Live (m - 1) vs → Live m (w ∷ vs)
        kept zero vs z k = absurd (omega (arith, z))
        kept (suc m) vs z k = (l.0, subst (λ j. Live j vs) (omega arith) k)
