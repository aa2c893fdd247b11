-- ===== src/Tests/Screens.antt =====
-- A panel that shows one workspace, pressed, drawn and fed by the runtime.
use orca_cde.Layout.{number_value}
use orca_cde.Layout.Fields.{layout_defaults}
use orca_cde.Panel.Actions.{btn_left, Screen, switch_workspace}
use orca_cde.Panel.Actions.Dispatch.{pointer_button}
use orca_cde.Panel.Actions.Pressed.{pointer_button-workspace}
use orca_cde.Panel.Applets.Widths.{first_x}
use orca_cde.Panel.Applets.{Applets, max_applets, rebuild_applets}
use orca_cde.Panel.Events.{Event, updated, frame_done, configured, on_event, run}
use orca_cde.Panel.Geometry.{rect, scale_metric, sections_of, handles_of, frame_of, wsm_of}
use orca_cde.Panel.Geometry.Buttons.{
  place_launchers, place_applets, button_size, placed_button, place_buttons,
  compute_panel_layout_model,
}
use orca_cde.Panel.Geometry.Tiling.{with_rebuilt, right_edge, rebuild_applets-right_bank}
use orca_cde.Panel.Hits.Found.{button_rect}
use orca_cde.Panel.Hits.{
  point_in_rect, first_hit, model_targets, launcher_targets, applet_targets, button_targets,
  targets_of, panel_targets, hit_test_panel,
}
use orca_cde.Panel.Metrics.{metric, field_of, label_text}
use orca_cde.Panel.Runtime.{handle_runtime_ready}
use orca_cde.Panel.Runtime.Active.{Handled, handle_runtime_ready-Handled}
use orca_cde.Panel.State.{Rect, Panel, picture}
use orca_cde.Panel.Updates.Drawn.{IsCurrent, IsDrawn, run-IsDrawn}
use orca_cde.Panel.Updates.Undrawn.{IsIdle, callbacks, apply_runtime_frame_undrawn}
use orca_cde.Panel.Updates.{apply_runtime_frame}
use orca_cde.Panel.Frames.{render_and_commit, surface_frame_callback, layer_surface_configure}
use orca_cde.Panel.Workspaces.{Button, comma_parts}
use orca_cde.Prelude.Int.{pos}
use orca_cde.Prelude.{
  ℕ, true, false, none, some, List, [], ◌∷◌, ◌≡◌, refl, arith, replicate, length-replicate,
  get_elem?, codes, equal, split, clip,
}
use orca_cde.Runtime.Frame.{Frame, empty_frame, event}
use orca_cde.Runtime.Subscription.{subscription_init, returns, ended, Socket}
use orca_cde.Tests.Panels.{button, theme, unread, styled}
use orca_cde.Tests.{plenty, plenty-Grants, delivering}

abbrev nothing : Rect
nothing = rect (pos 0) (pos 0) (pos 0) (pos 0)

-- A panel without metrics, 79 pixels high.
abbrev panel : Panel
panel = record {
  width = pos 1024;
  height = pos 79;
  theme = theme;
  workspaces = record {
    workspaces = button ∷ [];
    workspace_count = 1;
    current_workspace = codes "Old";
  };
  launchers = record { launchers = []; launcher_count = 0; left_area_width = pos 0 };
  subpanels = ([], 0);
  active_subpanel = none;
  sp_surface = record {
    subpanel_idx = none;
    has_surface = false;
    has_layer_surface = false;
    width = pos 0;
    height = pos 0;
    configured = false;
    is_open = false;
  };
  applets = record { applets = []; applet_count = 0 };
  layout_model = record {
    sections = record {
      left_handle = nothing;
      left_bank = nothing;
      center = nothing;
      right_bank = nothing;
      right_handle = nothing;
      bottom_strip = nothing;
    };
    handles = record {
      left_handle_button = nothing;
      left_handle_grip = nothing;
      right_handle_button = nothing;
      right_handle_grip = nothing;
    };
    wsm = record {
      wsm_lock_slot = nothing;
      wsm_pgm_slot = nothing;
      wsm_grid = nothing;
      wsm_load_slot = nothing;
      wsm_exit_slot = nothing;
      wsm_lock_icon = nothing;
      wsm_pgm_icon = nothing;
      wsm_exit_icon = nothing;
    };
  };
  layout = [];
  runtime_subscription = subscription_init;
  runtime_active = true;
  running = true;
  configured = true;
  dirty = false;
  frame_pending = false;
  committed = none;
}

abbrev screen : Screen
screen = record { surface = true; layer_surface = true; round_trip = λ p. p }

pointer_button-workspace_example :
    (i : ℕ) × (b : Button) × (get_elem?
        (hit_test_panel (pos 0) (pos 5) panel).1.workspaces.workspaces
        i
      ≡ some b)
    × (point_in_rect (pos 0) (pos 5) (button_rect b) ≡ true)
    × ((pointer_button screen false (pos 0) (pos 5) btn_left true panel).0
        ≡ switch_workspace b.name ∷ [])
unfolding hit_test_panel compute_panel_layout_model sections_of handles_of frame_of wsm_of
    place_launchers place_applets button_size placed_button place_buttons panel_targets
    model_targets launcher_targets applet_targets button_targets first_hit point_in_rect
    scale_metric metric field_of targets_of
pointer_button-workspace_example = pointer_button-workspace screen (pos 0) (pos 5) panel refl

abbrev workspaces_update : Frame
workspaces_update = record empty_frame {
  type = event;
  topic = codes "workspaces";
  contents = some (codes "NSCDE_WORKSPACES=One,Two\n");
}

-- The panel before the compositor gave it a size.
abbrev waiting : Panel
waiting = record panel { configured = false; dirty = true }

-- The update comes while the frame of the configuration is pending.
abbrev events : List Event
events = configured 1280 0 ∷ updated workspaces_update ∷ frame_done ∷ []

run-IsDrawn_example :
    IsDrawn (run plenty unread true events waiting)
    × IsCurrent (surface_frame_callback true (run plenty unread true events waiting))
run-IsDrawn_example = run-IsDrawn plenty unread events waiting (λ e. cc, λ e c. cc)

-- Drawn, and its frame shown.
abbrev drawn : Panel
drawn = run plenty unread true (configured 1280 0 ∷ frame_done ∷ frame_done ∷ []) waiting

drawn-IsIdle : IsIdle drawn
unfolding run on_event layer_surface_configure surface_frame_callback render_and_commit
    compute_panel_layout_model
drawn-IsIdle = (refl, refl, refl, refl)

apply_runtime_frame_undrawn_example :
    ((callbacks plenty unread 2
        (apply_runtime_frame plenty unread false workspaces_update drawn)).committed
      ≡ drawn.committed)
    × (picture (
          callbacks plenty unread 2
            (apply_runtime_frame plenty unread false workspaces_update drawn))
        ≡ picture (apply_runtime_frame plenty unread false workspaces_update drawn))
apply_runtime_frame_undrawn_example =
    apply_runtime_frame_undrawn plenty unread workspaces_update 2 drawn drawn-IsIdle

abbrev eight : Applets
eight = record { applets = replicate max_applets styled; applet_count = 0 }

rebuild_applets-right_bank_example :
    first_x
      (right_edge (with_rebuilt (rebuild_applets layout_defaults eight) panel))
      (compute_panel_layout_model
        (with_rebuilt (rebuild_applets layout_defaults eight) panel)).applets.applets
    ≡ (sections_of (with_rebuilt (rebuild_applets layout_defaults eight) panel)).right_bank.x
unfolding field_of equal layout_defaults rebuild_applets label_text comma_parts split clip
rebuild_applets-right_bank_example =
    rebuild_applets-right_bank panel eight layout_defaults {v = number_value (pos 311)}
      (length-replicate max_applets styled) refl (omega arith)

-- The runtime sends a frame and closes its socket.
abbrev last_words : Socket
last_words =
    delivering (codes "TYPE=event\nTOPIC=workspaces\nNSCDE_WORKSPACES=One\n\n") (returns ended ∷ [])

abbrev subscribed : Panel
subscribed =
    let sub = subscription_init in
    record panel { runtime_subscription = record sub { fd = some 5 } }

handle_runtime_ready-Handled_example :
    (q : Panel) × (rest : Socket) × (handle_runtime_ready plenty unread true 100 last_words
        subscribed
      ≡ some (q, rest))
    × Handled subscribed last_words q rest
unfolding subscription_init
handle_runtime_ready-Handled_example =
    handle_runtime_ready-Handled plenty unread true plenty-Grants 100 last_words subscribed
      (omega arith)
