-- ===== src/Tests/Backdrops.antt =====
-- A backdrop on one output, changed by a frame of the runtime.
use orca_cde.Backdrop.Processes.{Answers}
use orca_cde.Backdrop.Repeated.{handle_runtime_frame-repeated}
use orca_cde.Backdrop.Tracked.{IsShown, children_of, handle_runtime_frame-IsShown}
use orca_cde.Backdrop.Updates.{handle_runtime_frame}
use orca_cde.Backdrop.{Process, Values, Backdrop, arguments}
use orca_cde.Prelude.{
  ℕ, zero, suc, Option, true, false, none, some, [], ◌∷◌, ◌≡◌, refl, replicate, codes,
}
use orca_cde.Runtime.Frame.{Frame, empty_frame, snapshot}
use orca_cde.Runtime.Subscription.{subscription_init}

abbrev idle_process : Process
idle_process = record { output_name = []; use_output_arg = false; pid = none }

abbrev running : Process
running = record { output_name = codes "HDMI-1"; use_output_arg = true; pid = some 40 }

abbrev values : Values
values = record {
  workspace = codes "One";
  desk = codes "1";
  image_name = [];
  image = [];
  mode = [];
  color = codes "#506070";
}

abbrev backdrop : Backdrop
backdrop = record {
  values = values;
  processes = running ∷ replicate 15 idle_process;
  process_count = 1;
  children = (40, codes "-o" ∷ codes "HDMI-1" ∷ codes "-c" ∷ codes "#506070" ∷ []) ∷ [];
  mirror = [];
  runtime_subscription = subscription_init;
  runtime_active = true;
}

-- The second fork fails.
abbrev only_first : ℕ → Option ℕ
only_first zero = some 50
only_first (suc i) = none

abbrev answers : Answers
answers = record {
  outputs = some (
      record { have_name = true; name = codes "HDMI-1" }
      ∷ record { have_name = true; name = codes "DP-2" }
      ∷ []);
  fork = only_first;
  writable = true;
}

abbrev frame : Frame
frame = record empty_frame {
  type = snapshot;
  topic = codes "backdrops";
  contents = some (codes "NSCDE_BACKDROP_WORKSPACE=Two\nNSCDE_BACKDROP_IMAGE=/x.png\n");
}

backdrop-IsShown : IsShown backdrop
unfolding children_of arguments IsShown
backdrop-IsShown = refl

handle_runtime_frame-IsShown_example : IsShown (handle_runtime_frame answers frame backdrop)
handle_runtime_frame-IsShown_example =
    handle_runtime_frame-IsShown answers frame backdrop backdrop-IsShown

handle_runtime_frame-repeated_example :
    handle_runtime_frame answers frame (handle_runtime_frame answers frame backdrop)
    ≡ handle_runtime_frame answers frame backdrop
handle_runtime_frame-repeated_example = handle_runtime_frame-repeated answers answers frame backdrop
