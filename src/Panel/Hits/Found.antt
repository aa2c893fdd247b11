-- ===== src/Panel/Hits/Found.antt =====
-- The buttons of workspaces in `hit_test_panel` of src/nscde_paneld/nscde_paneld.c.
use orca_cde.Panel.Geometry.{rect}
use orca_cde.Panel.Hits.{
  Role, workspace, Hit, miss, Target, point_in_rect, first_hit, model_targets, launcher_targets,
  applet_targets, button_targets, targets_of, panel_targets, hit_test_panel,
}
use orca_cde.Panel.Geometry.Buttons.{compute_panel_layout_model}
use orca_cde.Panel.Applets.{Applet}
use orca_cde.Panel.Launchers.{Launcher}
use orca_cde.Panel.State.{Rect, Model, Panel}
use orca_cde.Panel.Workspaces.{Button}
use orca_cde.Prelude.Int.{ℤ}
use orca_cde.Prelude.{
  ℕ, zero, suc, ◌+◌, ◌<◌, Bool, true, false, some, List, [], ◌∷◌, ◌++◌, ◌≡◌, refl, sym, ap, ◌∙◌,
  ◌⊎◌, inl, inr, arith, get_elem?, All, Bool-cases, subst, if_either,
}

abbrev pub is_workspace : Role → Bool
is_workspace workspace = true
is_workspace _ = false

-- The rectangle of a button.
abbrev pub button_rect : Button → Rect
button_rect b = rect b.x b.y b.width b.height

-- A target for a workspace is the button of one that there is.
pub record IsButton (p : Panel) (t : Target) : Type 0 where
  pub slot : ℕ
  pub button : Button
  pub at : t.1.index ≡ some slot
  pub below : slot < p.workspaces.workspace_count
  pub there : get_elem? p.workspaces.workspaces slot ≡ some button
  pub shape : t.0 ≡ button_rect button

abbrev Good : Panel → Target → Type 0
Good p t = is_workspace (t.1.role) ≡ true → IsButton p t

-- What holds for each target holds for the one that is hit.
first_hit-All :
    (P : Target → Type 0) (x y : ℤ) (ts : List Target)
    → All P ts
    → (first_hit x y ts ≡ miss)
      ⊎ ((r : Rect) × P (r, first_hit x y ts) × (point_in_rect x y r ≡ true))
unfolding first_hit
first_hit-All P x y [] h = inl refl
first_hit-All P x y ((r, hit) ∷ ts) h = elim (Bool-cases (point_in_rect x y r)) [
  | inl e ↦ rw (e, first_hit) (inr (r, h.0, e))
  | inr e ↦ rw (e, first_hit) (first_hit-All P x y ts h.1)
]

All-append : (P : Target → Type 0) (ts us : List Target) → All P ts → All P us → All P (ts ++ us)
All-append P [] us h k = k
All-append P (t ∷ ts) us h k = (h.0, All-append P ts us h.1 k)

-- The targets of entries, where each entry's are good.
targets_of-All :
    {A : Type 0}
    → (P : Target → Type 0) (t : ℕ → A → List Target) (i n : ℕ) (entries : List A)
    → ((k : ℕ) (a : A) → k < n → get_elem? entries k ≡ some a → All P (t (i + k) a))
    → All P (targets_of t i n entries)
unfolding targets_of
targets_of-All P t i zero entries h = tt
targets_of-All P t i (suc n) [] h = tt
targets_of-All P t i (suc n) (a ∷ entries) h =
    All-append P (t i a) (targets_of t (suc i) n entries)
      (subst (λ m. All P (t m a)) (omega arith) (h 0 a (omega arith) refl))
      (targets_of-All P t (suc i) n entries
        (λ k b l e. subst (λ m. All P (t m b)) (omega arith) (h (suc k) b (omega (arith, l)) e)))

launcher-Good : (p : Panel) (i : ℕ) (lb : Launcher) → All (Good p) (launcher_targets i lb)
unfolding launcher_targets
launcher-Good p i lb = (λ e. cc, (λ e. cc, tt))

applet-Good : (p : Panel) (i : ℕ) (slot : Applet) → All (Good p) (applet_targets i slot)
unfolding applet_targets
applet-Good p i slot =
    if_either (All (Good p)) slot.is_launcher (λ e. cc, (λ e. cc, tt)) (λ e. cc, tt)

model-Good : (p : Panel) (m : Model) → All (Good p) (model_targets m)
unfolding model_targets
model-Good p m =
    (λ e. cc, (λ e. cc, (λ e. cc, (λ e. cc, (λ e. cc, (λ e. cc, (λ e. cc, (λ e. cc, tt))))))))

panel-Good : (p : Panel) → All (Good p) (panel_targets p)
unfolding panel_targets button_targets
panel-Good p =
    let ws = p.workspaces in
    All-append (Good p) (model_targets p.layout_model) _ (model-Good p p.layout_model) (
      All-append (Good p)
        (targets_of launcher_targets 0 p.launchers.launcher_count p.launchers.launchers) _
        (targets_of-All (Good p) launcher_targets 0 p.launchers.launcher_count p.launchers.launchers
          (λ k lb l e. launcher-Good p (0 + k) lb))
        (All-append (Good p) (targets_of applet_targets 0 p.applets.applet_count p.applets.applets)
          _
          (targets_of-All (Good p) applet_targets 0 p.applets.applet_count p.applets.applets
            (λ k slot l e. applet-Good p (0 + k) slot))
          (targets_of-All (Good p) button_targets 0 ws.workspace_count ws.workspaces (λ k b l e. (
            λ w. record {
              slot = k;
              button = b;
              at = ap some (omega arith);
              below = l;
              there = e;
              shape = refl;
            },
            tt,
          )))))

-- The button that was hit.
pub hit_test_panel-IsButton :
    (x y : ℤ) (p : Panel)
    → is_workspace (hit_test_panel x y p).0.role ≡ true
    → (r : Rect) × IsButton (hit_test_panel x y p).1 (r, (hit_test_panel x y p).0)
      × (point_in_rect x y r ≡ true)
unfolding hit_test_panel
hit_test_panel-IsButton x y p h =
    let placed = compute_panel_layout_model p in
    let hit = first_hit x y (panel_targets placed) in
    elim (first_hit-All (Good placed) x y (panel_targets placed) (panel-Good placed)) [
      | inl none_hit ↦ absurd (missed (sym (ap (λ (k : Hit). is_workspace k.role) none_hit) ∙ h))
      | inr (r, good, inside) ↦ (r, good h, inside)
    ]
  where
    missed : is_workspace miss.role ≡ true → ⊥
    missed e = cc
