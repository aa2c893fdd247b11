-- ===== src/Panel/Applets/Widths.antt =====
-- The widths of the bank of applets on the right: `rebuild_applets` and the loop over applets of
-- `compute_panel_layout_model` in src/nscde_paneld/nscde_paneld.c.
use orca_cde.Layout.{Entry}
use orca_cde.Panel.Applets.{Applet, bank_width}
use orca_cde.Panel.Geometry.Buttons.{before, place_applets}
use orca_cde.Panel.State.{Rect}
use orca_cde.Panel.Metrics.{metric}
use orca_cde.Prelude.Int.{ℤ, pos, pos_part, neg_part, ◌+ℤ◌, ◌-ℤ◌, difference-parts, equal_of_parts}
use orca_cde.Prelude.{
  zero, suc, ◌+◌, ◌≤◌, ◌<◌, length, sym, Bool-cases, ℕ, not, List, [], ◌∷◌, ◌≡◌, ap, ◌∙◌, inl, inr,
  arith, if◌then◌else◌,
}

-- What is taken away comes back.
regained : (r w g s : ℤ) → ((r -ℤ w) -ℤ g) +ℤ ((w +ℤ g) +ℤ s) ≡ r +ℤ s
regained r w g s =
    let a = difference-parts (pos_part r + neg_part w) (neg_part r + pos_part w) in
    let b = difference-parts (pos_part (r -ℤ w) + neg_part g) (neg_part (r -ℤ w) + pos_part g) in
    let c = difference-parts (pos_part w + pos_part g) (neg_part w + neg_part g) in
    let d = difference-parts (pos_part (w +ℤ g) + pos_part s) (neg_part (w +ℤ g) + neg_part s) in
    let e = difference-parts (pos_part r + pos_part s) (neg_part r + neg_part s) in
    let left = (r -ℤ w) -ℤ g in
    let right = (w +ℤ g) +ℤ s in
    let f = difference-parts (pos_part left + pos_part right) (neg_part left + neg_part right) in
    equal_of_parts (left +ℤ right) (r +ℤ s) (omega (arith, a, b, c, d, e, f))

plus_zero : (a : ℤ) → a +ℤ pos 0 ≡ a
plus_zero a =
    equal_of_parts (a +ℤ pos 0) a
      (omega (arith, difference-parts (pos_part a + 0) (neg_part a + 0)))

-- A step of the loop: what the applet and its gap take, and what is right of them.
step :
    (gap right rest : ℤ) (slot : Applet)
    → before gap right slot
        +ℤ ((slot.width +ℤ (if not slot.is_launcher then gap else pos 0)) +ℤ rest)
      ≡ right +ℤ rest
step gap right rest slot = elim (Bool-cases slot.is_launcher) [
  | inl e ↦ rw e (regained right slot.width (pos 0) rest)
  | inr e ↦ rw e (regained right slot.width gap rest)
]

-- The applets behind the first, with their gaps.
place_applets-bank_width :
    (layout : List Entry) (bank : Rect) (right : ℤ) (i n : ℕ) (slots : List Applet)
    → (place_applets layout bank right n slots).1
        +ℤ bank_width (metric "NSCDE_PANEL_RIGHT_APPLET_GAP" layout) (suc i) n slots
      ≡ right
unfolding place_applets bank_width
place_applets-bank_width layout bank right i zero slots = plus_zero right
place_applets-bank_width layout bank right i (suc n) [] = plus_zero right
place_applets-bank_width layout bank right i (suc n) (slot ∷ slots) =
    step (metric "NSCDE_PANEL_RIGHT_APPLET_GAP" layout) (place_applets layout bank right n slots).1
      (bank_width (metric "NSCDE_PANEL_RIGHT_APPLET_GAP" layout) (suc (suc i)) n slots) slot
    ∙ place_applets-bank_width layout bank right (suc i) n slots

-- The position of the first applet.
abbrev pub first_x : ℤ → List Applet → ℤ
first_x right [] = right
first_x right (slot ∷ slots) = slot.x

first_step : (right w rest : ℤ) → (right -ℤ w) +ℤ ((w +ℤ pos 0) +ℤ rest) ≡ right +ℤ rest
first_step right w rest =
    ap (λ a. a +ℤ ((w +ℤ pos 0) +ℤ rest)) (sym (minus_zero (right -ℤ w)))
    ∙ regained right w (pos 0) rest
  where
    minus_zero : (a : ℤ) → a -ℤ pos 0 ≡ a
    minus_zero a =
        equal_of_parts (a -ℤ pos 0) a
          (omega (arith, difference-parts (pos_part a + 0) (neg_part a + 0)))

-- From the first applet on, the bank's width reaches its right edge.
pub place_applets-first_x :
    (layout : List Entry) (bank : Rect) (right : ℤ) (n : ℕ) (slots : List Applet)
    → n ≤ length slots
    → 0 < n
    → first_x right (place_applets layout bank right n slots).0
        +ℤ bank_width (metric "NSCDE_PANEL_RIGHT_APPLET_GAP" layout) 0 n slots
      ≡ right
unfolding place_applets bank_width
place_applets-first_x layout bank right zero slots h k = absurd (omega (arith, k))
place_applets-first_x layout bank right (suc n) [] h k = absurd (omega (arith, h))
place_applets-first_x layout bank right (suc n) (slot ∷ slots) h k =
    first_step (place_applets layout bank right n slots).1 slot.width
      (bank_width (metric "NSCDE_PANEL_RIGHT_APPLET_GAP" layout) 1 n slots)
    ∙ place_applets-bank_width layout bank right 0 n slots
