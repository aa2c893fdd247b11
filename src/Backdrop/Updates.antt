-- ===== src/Backdrop/Updates.antt =====
-- The topic of the runtime: `apply_backdrop_values`, `apply_backdrop_contents`,
-- `backdrop_contents_changed`, `handle_runtime_frame` and `handle_runtime_subscription` of
-- src/nscde_backdropd/nscde_backdropd.c.
use orca_cde.Backdrop.{value_max_len, path_max_len, Values, Backdrop, parse_env_value}
use orca_cde.Backdrop.Processes.{Answers, restart_backdrop_processes}
use orca_cde.Prelude.{
  ℕ, Bool, true, false, ◌&&◌, ◌||◌, not, Option, none, some, if◌then◌else◌, Bytes, codes, is_nil,
  equal, clip,
}
use orca_cde.Runtime.Frame.{Frame, FrameType, state, snapshot, event, field_len}
use orca_cde.Runtime.Subscription.Drain.{drain}
use orca_cde.Runtime.Subscription.{ReadResult, read_error, read_closed, Socket, subscription_close}

-- The values that the contents give, each in a local buffer.
unfoldable pub values_in : Bytes → Values
values_in contents = record {
  workspace = parse_env_value value_max_len contents (codes "NSCDE_BACKDROP_WORKSPACE");
  desk = parse_env_value value_max_len contents (codes "NSCDE_BACKDROP_DESK");
  image_name = parse_env_value value_max_len contents (codes "NSCDE_BACKDROP_IMAGE_NAME");
  image = parse_env_value path_max_len contents (codes "NSCDE_BACKDROP_IMAGE");
  mode = parse_env_value value_max_len contents (codes "NSCDE_BACKDROP_MODE");
  color = parse_env_value value_max_len contents (codes "NSCDE_BACKDROP_COLOR");
}

-- `color[0] ? color : "#506070"`
abbrev pub or_default : Bytes → Bytes
or_default color = if is_nil color then codes "#506070" else color

-- The values as they are copied into the state.
unfoldable pub copied : Values → Values
copied v = record {
  workspace = clip value_max_len v.workspace;
  desk = clip value_max_len v.desk;
  image_name = clip value_max_len v.image_name;
  image = clip path_max_len v.image;
  mode = clip value_max_len v.mode;
  color = clip value_max_len (or_default v.color);
}

unfoldable pub apply_backdrop_values : Answers → Values → Backdrop → Backdrop
apply_backdrop_values a v b = restart_backdrop_processes a (record b { values = copied v })

unfoldable pub apply_backdrop_contents : Answers → Bytes → Backdrop → Backdrop
apply_backdrop_contents a contents b = apply_backdrop_values a (values_in contents) b

unfoldable pub differs : Values → Values → Bool
differs v w =
    not (equal v.workspace w.workspace)
    || not (equal v.desk w.desk)
    || not (equal v.image_name w.image_name)
    || not (equal v.image w.image)
    || not (equal v.mode w.mode)
    || not (equal (or_default v.color) w.color)

unfoldable pub backdrop_contents_changed : Bytes → Backdrop → Bool
backdrop_contents_changed contents b = differs (values_in contents) b.values

abbrev pub is_update : FrameType → Bool
is_update state = true
is_update snapshot = true
is_update event = true
is_update _ = false

abbrev pub is_over : ReadResult → Bool
is_over read_closed = true
is_over read_error = true
is_over _ = false

unfoldable pub handle_runtime_frame : Answers → Frame → Backdrop → Backdrop
handle_runtime_frame a frame b = elim frame.contents [
  | none ↦ b
  | some contents ↦
      let applied = apply_backdrop_contents a contents b in
      let is_backdrops = is_update frame.type && equal frame.topic (codes "backdrops") in
      if is_backdrops && backdrop_contents_changed contents b then applied else b
]

unfoldable pub teardown_runtime_subscription : Backdrop → Backdrop
teardown_runtime_subscription b = record b {
  runtime_subscription = subscription_close b.runtime_subscription;
  runtime_active = false;
}

-- The loop over frames on fuel; the same answers for each.
unfoldable pub handle_runtime_subscription :
    (ℕ → Bool) → Answers → ℕ → Socket → Backdrop → Option (Backdrop × Socket)
handle_runtime_subscription alloc a fuel socket b =
    elim (drain alloc (handle_runtime_frame a) field_len fuel b.runtime_subscription socket b) [
      | none ↦ none
      | some d ↦
          let u = d.user in
          let c = record u { runtime_subscription = d.sub } in
          some (if is_over d.result then teardown_runtime_subscription c else c, d.socket)
    ]
