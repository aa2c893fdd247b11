-- ===== src/Backdrop/Repeated.antt =====
-- The same frame twice, handled by src/nscde_backdropd/nscde_backdropd.c.
use orca_cde.Backdrop.{value_max_len, path_max_len, Backdrop, parse_env_value, find_value}
use orca_cde.Backdrop.Processes.{
  Answers, restart_backdrop_processes, stop_swaybg_processes, refresh_output_targets,
  clear_output_targets, set_default_output, spawn_swaybg_processes, write_backdrops_env, Output,
}
use orca_cde.Backdrop.Updates.{
  values_in, or_default, copied, apply_backdrop_values, apply_backdrop_contents, differs,
  backdrop_contents_changed, is_update, handle_runtime_frame,
}
use orca_cde.Prelude.{
  ℕ, ◌<◌, Bool, true, false, ◌&&◌, Option, none, some, List, ◌≡◌, refl, sym, ap, ◌∙◌, inl, inr,
  arith, if◌then◌else◌, length, length-clip-lt, clip_of_length-lt, Bytes, codes, equal, equal_iff,
  clip, split, Bool-cases, Option-cases,
}
use orca_cde.Runtime.Frame.{Frame}

clip_twice : (size : ℕ) (s : Bytes) → 0 < size → clip size (clip size s) ≡ clip size s
clip_twice size s h = clip_of_length-lt size (clip size s) (length-clip-lt size s h)

equal_self : (s : Bytes) → equal s s ≡ true
equal_self s = (equal_iff s s).1 refl

-- A value from the contents fits the state's buffer.
same_value :
    (size : ℕ) (contents key : Bytes)
    → 0 < size
    → equal (parse_env_value size contents key) (clip size (parse_env_value size contents key))
      ≡ true
unfolding parse_env_value
same_value size contents key h =
    ap (equal (clip size (find_value key (split b'\n' contents))))
      (clip_twice size (find_value key (split b'\n' contents)) h)
    ∙ equal_self (clip size (find_value key (split b'\n' contents)))

default_fits :
    (s : Bytes) → length s < value_max_len → clip value_max_len (or_default s) ≡ or_default s
default_fits s h = clip_of_length-lt value_max_len (or_default s) (ground (arith, h))

same_color :
    (contents key : Bytes)
    → equal
        (or_default (parse_env_value value_max_len contents key))
        (clip value_max_len (or_default (parse_env_value value_max_len contents key)))
      ≡ true
unfolding parse_env_value
same_color contents key =
    let color = clip value_max_len (find_value key (split b'\n' contents)) in
    ap (equal (or_default color))
      (default_fits color (length-clip-lt value_max_len _ (omega arith)))
    ∙ equal_self (or_default color)

differs-copied :
    (contents : Bytes) → differs (values_in contents) (copied (values_in contents)) ≡ false
unfolding differs copied values_in
differs-copied contents =
    let w = same_value value_max_len contents (codes "NSCDE_BACKDROP_WORKSPACE") (omega arith) in
    let d = same_value value_max_len contents (codes "NSCDE_BACKDROP_DESK") (omega arith) in
    let n = same_value value_max_len contents (codes "NSCDE_BACKDROP_IMAGE_NAME") (omega arith) in
    let i = same_value path_max_len contents (codes "NSCDE_BACKDROP_IMAGE") (omega arith) in
    let m = same_value value_max_len contents (codes "NSCDE_BACKDROP_MODE") (omega arith) in
    let c = same_color contents (codes "NSCDE_BACKDROP_COLOR") in
    rw w (rw d (rw n (rw i (rw m (rw c refl)))))

-- A restart leaves the values.
refresh-values :
    (o : Option (List Output)) (b : Backdrop) → (refresh_output_targets o b).values ≡ b.values
unfolding refresh_output_targets set_default_output clear_output_targets
refresh-values none b = refl
refresh-values (some outputs) b = ground arith

restart-values : (a : Answers) (b : Backdrop) → (restart_backdrop_processes a b).values ≡ b.values
unfolding restart_backdrop_processes spawn_swaybg_processes write_backdrops_env clear_output_targets
    stop_swaybg_processes
restart-values a b =
    let idle = stop_swaybg_processes b in
    let refreshed = refresh-values a.outputs idle in ground (arith, refreshed)

-- What was applied is no change.
applied_unchanged :
    (a : Answers) (contents : Bytes) (b : Backdrop)
    → backdrop_contents_changed contents (apply_backdrop_contents a contents b) ≡ false
unfolding backdrop_contents_changed apply_backdrop_contents apply_backdrop_values
applied_unchanged a contents b =
    ap (differs (values_in contents))
      (restart-values a (record b { values = copied (values_in contents) }))
    ∙ differs-copied contents

abbrev is_applied : Frame → Bytes → Backdrop → Bool
is_applied frame contents b =
    (is_update frame.type && equal frame.topic (codes "backdrops"))
    && backdrop_contents_changed contents b

handled :
    (a : Answers) (frame : Frame) (contents : Bytes) (b : Backdrop)
    → frame.contents ≡ some contents
    → handle_runtime_frame a frame b
      ≡ (if is_applied frame contents b then apply_backdrop_contents a contents b else b)
unfolding handle_runtime_frame
handled a frame contents b e = rw (e, handle_runtime_frame) refl

contentless :
    (a : Answers) (frame : Frame) (b : Backdrop)
    → frame.contents ≡ none
    → handle_runtime_frame a frame b ≡ b
unfolding handle_runtime_frame
contentless a frame b e = rw (e, handle_runtime_frame) refl

ignored :
    (a : Answers) (frame : Frame) (contents : Bytes) (b : Backdrop)
    → frame.contents ≡ some contents
    → is_applied frame contents b ≡ false
    → handle_runtime_frame a frame b ≡ b
ignored a frame contents b e n =
    handled a frame contents b e ∙ ap (λ t. if t then apply_backdrop_contents a contents b else b) n

unchanged_ignored :
    (later : Answers) (frame : Frame) (contents : Bytes) (b : Backdrop)
    → frame.contents ≡ some contents
    → backdrop_contents_changed contents b ≡ false
    → handle_runtime_frame later frame b ≡ b
unchanged_ignored later frame contents b e n = ignored later frame contents b e (ground (arith, n))

-- A frame handled twice in a row changes nothing the second time, whatever the system answers
-- then: it restarts no process.
pub handle_runtime_frame-repeated :
    (a later : Answers) (frame : Frame) (b : Backdrop)
    → handle_runtime_frame later frame (handle_runtime_frame a frame b)
      ≡ handle_runtime_frame a frame b
handle_runtime_frame-repeated a later frame b = elim (Option-cases frame.contents) [
  | inl e ↦
      ap (handle_runtime_frame later frame) (contentless a frame b e)
      ∙ contentless later frame b e
      ∙ sym (contentless a frame b e)
  | inr (contents, e) ↦ elim (Bool-cases (is_applied frame contents b)) [
    | inr n ↦
        let same = ignored a frame contents b e n in
        ap (handle_runtime_frame later frame) same ∙ ignored later frame contents b e n ∙ sym same
    | inl y ↦
        let done : handle_runtime_frame a frame b ≡ apply_backdrop_contents a contents b =
          handled a frame contents b e
          ∙ ap (λ t. if t then apply_backdrop_contents a contents b else b) y in
        ap (handle_runtime_frame later frame) done
        ∙ unchanged_ignored later frame contents (apply_backdrop_contents a contents b) e
            (applied_unchanged a contents b)
        ∙ sym done
  ]
]
