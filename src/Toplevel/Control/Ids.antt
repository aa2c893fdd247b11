-- ===== src/Toplevel/Control/Ids.antt =====
-- The commands with the number of a window in src/nscde_toplevel/nscde_toplevel.c.
use orca_cde.Daemon.Slots.Validity.{Live}
use orca_cde.Prelude.{
  ℕ, zero, suc, ◌%◌, ◌^◌, ◌<◌, Option, none, some, List, [], ◌∷◌, ◌++◌, ◌≡◌, refl, sym, ap, ◌∙◌,
  arith, ltb, if◌then◌else◌, get_elem?, take, append-nil, Bytes, starts_with, decimal, atoi,
  atoi-decimal,
}
use orca_cde.Toplevel.Control.{
  Verb, activating, closing, minimizing, restoring, maximizing, u32, handle_of, find_toplevel_by_id,
  prefix_of, for_handle, command, handle_command,
}
use orca_cde.Toplevel.Removal.{windows_of}
use orca_cde.Toplevel.{Window, Desktop, occupant}

-- The command that asks for a window by its number.
abbrev pub command_for : Verb → ℕ → Bytes
command_for verb i = prefix_of verb ++ decimal i

-- The handle of a window, where there is one.
abbrev pub window_handle : Option Window → Option ℕ
window_handle none = none
window_handle (some w) = w.handle

handle_of-take :
    (n i : ℕ) (ws : List Window)
    → Live occupant n ws
    → (if ltb i n then handle_of (get_elem? ws i) else none)
      ≡ window_handle (get_elem? (take n ws) i)
handle_of-take zero i ws l = ground arith
handle_of-take (suc n) i [] l = absurd l
handle_of-take (suc n) zero (w ∷ ws) l = ground (arith, l.0)
handle_of-take (suc n) (suc i) (w ∷ ws) l = ground (arith, handle_of-take n i ws l.1)

u32-atoi : (i : ℕ) → i < 2 ^ 32 → u32 (atoi (decimal i)) ≡ i
u32-atoi i b =
    let same : i % 2 ^ 32 ≡ i = omega (arith, b) in
    ap u32 (ap atoi (sym (append-nil (decimal i))) ∙ atoi-decimal i [] tt) ∙ same

-- Each verb finds the text behind its own prefix.
handle_command-command :
    (verb : Verb) (id : Bytes) (d : Desktop)
    → handle_command (prefix_of verb ++ id) d ≡ command verb id d
unfolding handle_command starts_with
handle_command-command activating id d = refl
handle_command-command closing id d = refl
handle_command-command minimizing id d = refl
handle_command-command restoring id d = refl
handle_command-command maximizing id d = refl

-- Where every slot below the count is in use, a command with a number below 2^32 written in
-- decimal behind one of the five verbs leads to that verb's requests for the handle of the
-- window with this number, and to none if there is no such window.
pub handle_command-command_for :
    (verb : Verb) (i : ℕ) (d : Desktop)
    → Live occupant d.toplevel_count d.toplevels
    → i < 2 ^ 32
    → handle_command (command_for verb i) d
      ≡ for_handle verb d.has_seat (window_handle (get_elem? (windows_of d) i))
unfolding command find_toplevel_by_id
handle_command-command_for verb i d l b =
    handle_command-command verb (decimal i) d
    ∙ ap (λ k. for_handle verb d.has_seat (find_toplevel_by_id k d)) (u32-atoi i b)
    ∙ ap (for_handle verb d.has_seat) (handle_of-take d.toplevel_count i d.toplevels l)
