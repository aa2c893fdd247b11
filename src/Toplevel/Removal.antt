-- ===== src/Toplevel/Removal.antt =====
-- The removal of a window from the slots of src/nscde_toplevel/nscde_toplevel.c.
use orca_cde.Daemon.Slots.Removal.{erase, remove_in-erase, remove_in-none}
use orca_cde.Daemon.Slots.Validity.{Live}
use orca_cde.Daemon.Slots.{remove_in}
use orca_cde.Prelude.{ℕ, List, ◌≡◌, sym, inl, inr, take, Option-cases}
use orca_cde.Toplevel.{Window, Desktop, occupant, remove_toplevel}

-- The windows that there are, in order.
abbrev pub windows_of : Desktop → List Window
windows_of d = take d.toplevel_count d.toplevels

pub remove_toplevel-erase :
    (h : ℕ) (d : Desktop)
    → Live occupant d.toplevel_count d.toplevels
    → windows_of (remove_toplevel h d) ≡ erase occupant h (windows_of d)
unfolding remove_toplevel
remove_toplevel-erase h d l =
    elim (Option-cases (remove_in occupant d.toplevel_count h d.toplevels)) [
      | inl e ↦
          rw (e, remove_toplevel) (sym (remove_in-none occupant d.toplevel_count h d.toplevels l e))
      | inr (ws, e) ↦
          rw (e, remove_toplevel) (remove_in-erase occupant d.toplevel_count h d.toplevels l e).1
    ]
