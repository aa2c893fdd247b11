-- ===== src/Panel/Actions/Pressed.antt =====
-- `pointer_button` and `dispatch_panel_hit` of src/nscde_paneld/nscde_paneld.c on presses.
use orca_cde.Panel.Actions.{btn_left, switch_workspace, close_subpanel, Screen}
use orca_cde.Panel.Actions.Dispatch.{
  entry_below, keeps_open, workspace_action, is_active, acted, dispatch_panel_hit, pointer_button,
}
use orca_cde.Panel.Hits.Found.{is_workspace, button_rect, IsButton, hit_test_panel-IsButton}
use orca_cde.Panel.Hits.{Role, workspace, Hit, point_in_rect, hit_test_panel}
use orca_cde.Panel.State.{Rect, Panel}
use orca_cde.Panel.Workspaces.{Workspaces, Button}
use orca_cde.Prelude.Int.{ℤ}
use orca_cde.Prelude.{
  ℕ, ◌<◌, Bool, true, false, ◌&&◌, some, [], ◌∷◌, ◌≡◌, refl, sym, ap, ◌∙◌, arith, if◌then◌else◌,
  get_elem?,
}

is_workspace-workspace : (r : Role) → is_workspace r ≡ true → r ≡ workspace
is_workspace-workspace workspace h = refl
is_workspace-workspace _ h = cc

acted-workspace :
    (screen : Screen) (hit : Hit) (button : ℕ) (p : Panel)
    → hit.role ≡ workspace
    → (acted screen hit button p).0
      ≡ workspace_action button
          (entry_below hit.index p.workspaces.workspace_count p.workspaces.workspaces)
unfolding acted
acted-workspace screen hit button p e = rw (e, acted) refl

-- Closing the subpanel leaves the workspaces.
close_subpanel-workspaces :
    (b : Bool) (p : Panel) → (if b then close_subpanel p else p).workspaces ≡ p.workspaces
unfolding close_subpanel
close_subpanel-workspaces true p = ground arith
close_subpanel-workspaces false p = refl

found-workspace :
    (screen : Screen) (hit : Hit) (r : Rect) (p : Panel)
    → hit.role ≡ workspace
    → (t : IsButton p (r, hit))
    → (dispatch_panel_hit screen hit btn_left p).0 ≡ switch_workspace t.button.name ∷ []
unfolding dispatch_panel_hit
found-workspace screen hit r p e t =
    let closing =
      if keeps_open hit.role
      then false
      else (p.sp_surface.is_open && is_active p.active_subpanel) in
    let q = if closing then close_subpanel p else p in
    let same : q.workspaces ≡ p.workspaces = close_subpanel-workspaces closing p in
    acted-workspace screen hit btn_left q e
    ∙ ap
        (λ (ws : Workspaces).
          workspace_action btn_left (entry_below hit.index ws.workspace_count ws.workspaces))
        same
    ∙ ap
        (λ i.
          workspace_action btn_left
            (entry_below i p.workspaces.workspace_count p.workspaces.workspaces))
        t.at
    ∙ named t.below t.there
  where
    named :
        (t.slot < p.workspaces.workspace_count)
        → get_elem? p.workspaces.workspaces t.slot ≡ some t.button
        → workspace_action btn_left
            (entry_below (some t.slot) p.workspaces.workspace_count p.workspaces.workspaces)
          ≡ switch_workspace t.button.name ∷ []
    named below there = ground (arith, below, there)

-- Where the hit test at a point of the panel finds a workspace, a press of the left button
-- there asks for the switch to one workspace by its name and for nothing else, and the point
-- lies within that workspace's button as it is placed.
pub pointer_button-workspace :
    (screen : Screen) (x y : ℤ) (p : Panel)
    → is_workspace (hit_test_panel x y p).0.role ≡ true
    → (i : ℕ) × (b : Button) × (get_elem? (hit_test_panel x y p).1.workspaces.workspaces i ≡ some b)
      × (point_in_rect x y (button_rect b) ≡ true)
      × ((pointer_button screen false x y btn_left true p).0 ≡ switch_workspace b.name ∷ [])
unfolding pointer_button
pointer_button-workspace screen x y p h =
    let (r, t, inside) = hit_test_panel-IsButton x y p h in
    let placed = (hit_test_panel x y p).1 in
    (
      t.slot,
      t.button,
      t.there,
      sym (ap (point_in_rect x y) t.shape) ∙ inside,
      found-workspace screen (hit_test_panel x y p).0 r placed
          (is_workspace-workspace (hit_test_panel x y p).0.role h) t,
    )
