-- ===== src/Panel/Hits.antt =====
-- What lies under the pointer: `point_in_rect`, `hit_test_panel` and `hit_test_subpanel` of
-- src/nscde_paneld/nscde_paneld.c.
pub mod Found
use orca_cde.Panel.Applets.{Applet}
use orca_cde.Panel.Geometry.{rect}
use orca_cde.Panel.Geometry.Buttons.{compute_panel_layout_model}
use orca_cde.Panel.Launchers.{Launcher}
use orca_cde.Panel.Metrics.{metric}
use orca_cde.Panel.State.{Rect, Model, Panel}
use orca_cde.Panel.Subpanels.{Subpanel}
use orca_cde.Panel.Workspaces.{Button}
use orca_cde.Prelude.Int.{ℤ, pos, negsuc, pos_part, ltb_ℤ, ◌+ℤ◌, ◌-ℤ◌}
use orca_cde.Prelude.{
  ℕ, zero, suc, ◌/◌, Bool, true, false, ◌&&◌, ◌||◌, not, Option, none, some, List, [], ◌∷◌, ◌++◌,
  ltb, if◌then◌else◌, get_elem?,
}

-- `enum panel_hit_role`
pub data Role : Type 0 where
  nowhere subpanel_entry left_menu_button left_handle right_iconify_button right_handle : Role
  wsm_lock wsm_pgm wsm_load wsm_exit : Role
  launcher_trigger launcher_body right_launcher_trigger right_launcher_body applet workspace : Role

-- `struct panel_hit_result`; the index -1 is `none`.
pub record Hit : Type 0 where
  pub role : Role
  pub index : Option ℕ
  pub sub_index : Option ℕ

abbrev pub miss : Hit
miss = record { role = nowhere; index = none; sub_index = none }

-- A part of the panel and what it is hit as.
abbrev pub Target : Type 0
Target = Rect × Hit

abbrev pub target : Role → Rect → Target
target role r = (r, record { role = role; index = none; sub_index = none })

abbrev pub target_at : Role → ℕ → Rect → Target
target_at role i r = (r, record { role = role; index = some i; sub_index = none })

unfoldable pub point_in_rect : ℤ → ℤ → Rect → Bool
point_in_rect x y r =
    not (ltb_ℤ x r.x) && ltb_ℤ x (r.x +ℤ r.w) && not (ltb_ℤ y r.y) && ltb_ℤ y (r.y +ℤ r.h)

-- The first target that holds the point.
unfoldable pub first_hit : ℤ → ℤ → List Target → Hit
first_hit x y [] = miss
first_hit x y ((r, hit) ∷ ts) =
    let rest = first_hit x y ts in if point_in_rect x y r then hit else rest

unfoldable pub model_targets : Model → List Target
model_targets m =
    target left_menu_button m.handles.left_handle_button
    ∷ target left_handle m.handles.left_handle_grip
    ∷ target right_iconify_button m.handles.right_handle_button
    ∷ target right_handle m.handles.right_handle_grip
    ∷ target wsm_lock m.wsm.wsm_lock_slot
    ∷ target wsm_pgm m.wsm.wsm_pgm_slot
    ∷ target wsm_load m.wsm.wsm_load_slot
    ∷ target wsm_exit m.wsm.wsm_exit_slot
    ∷ []

unfoldable pub launcher_targets : ℕ → Launcher → List Target
launcher_targets i lb =
    target_at launcher_trigger i (rect lb.x lb.trigger_y lb.width lb.trigger_h)
    ∷ target_at launcher_body i (rect lb.x lb.body_y lb.width lb.body_h)
    ∷ []

unfoldable pub applet_targets : ℕ → Applet → List Target
applet_targets i slot =
    if slot.is_launcher
    then target_at right_launcher_trigger i (rect slot.x slot.trigger_y slot.width slot.trigger_h)
      ∷ target_at right_launcher_body i (rect slot.x slot.body_y slot.width slot.body_h)
      ∷ []
    else target_at applet i (rect slot.x slot.trigger_y slot.width (slot.trigger_h +ℤ slot.body_h))
      ∷ []

unfoldable pub button_targets : ℕ → Button → List Target
button_targets i b = target_at workspace i (rect b.x b.y b.width b.height) ∷ []

-- The targets of the first `n` entries from index `i` on.
unfoldable pub targets_of {ℓ} : {A : Type ℓ} → (ℕ → A → List Target) → ℕ → ℕ → List A → List Target
targets_of t i zero entries = []
targets_of t i (suc n) [] = []
targets_of t i (suc n) (a ∷ entries) = t i a ++ targets_of t (suc i) n entries

-- In the order in which they are tested.
unfoldable pub panel_targets : Panel → List Target
panel_targets p =
    model_targets p.layout_model
    ++ (targets_of launcher_targets 0 p.launchers.launcher_count p.launchers.launchers
        ++ (targets_of applet_targets 0 p.applets.applet_count p.applets.applets
            ++ targets_of button_targets 0 p.workspaces.workspace_count p.workspaces.workspaces))

-- The hit, and the panel with its parts placed.
unfoldable pub hit_test_panel : ℤ → ℤ → Panel → Hit × Panel
hit_test_panel x y p =
    let placed = compute_panel_layout_model p in (first_hit x y (panel_targets placed), placed)

-- The entry under a point that is `rel_y` below the title, of a subpanel with `count` entries.
abbrev pub entry_hit : ℕ → ℤ → ℤ → ℤ → Hit
entry_hit sp (pos rel_y) height count =
    let entry_idx = rel_y / pos_part height in
    if ltb_ℤ (pos entry_idx) count
    then record { role = subpanel_entry; index = some entry_idx; sub_index = some sp }
    else miss
entry_hit sp (negsuc n) height count = miss

abbrev pub hit_in : ℤ → Panel → ℕ → Option Subpanel → Hit
hit_in y p sp none = miss
hit_in y p sp (some def) =
    entry_hit sp
      (y
        -ℤ metric "NSCDE_PANEL_SUBPANEL_PADDING" p.layout
        -ℤ metric "NSCDE_PANEL_SUBPANEL_TITLE_HEIGHT" p.layout)
      (metric "NSCDE_PANEL_SUBPANEL_ENTRY_HEIGHT" p.layout) def.entry_count

abbrev pub hit_active : ℤ → Panel → Option ℕ → Hit
hit_active y p none = miss
hit_active y p (some sp) = hit_in y p sp (get_elem? p.subpanels.0 sp)

-- The contract keeps the height of an entry above 0.
unfoldable pub hit_test_subpanel : ℤ → ℤ → Panel → Hit
hit_test_subpanel x y p =
    let s = p.sp_surface in
    let outside =
      ltb_ℤ x (pos 0) || ltb_ℤ y (pos 0) || not (ltb_ℤ x s.width) || not (ltb_ℤ y s.height) in
    if not s.is_open || not s.configured || outside then miss else hit_active y p p.active_subpanel
