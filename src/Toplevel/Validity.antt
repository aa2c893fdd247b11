-- ===== src/Toplevel/Validity.antt =====
-- The validity of the slots of src/nscde_toplevel/nscde_toplevel.c, and its operations on them.
use orca_cde.Daemon.Slots.Validity.{Live, Live-modify, Live-added, remove_in-IsRemoved}
use orca_cde.Daemon.Slots.{remove_in}
use orca_cde.Toplevel.{
  max_toplevels, max_title_len, max_app_id_len, Window, Desktop, occupant, attach, add_toplevel,
  added, remove_toplevel, with_entry, with_entries, with_states, focus, toplevel_handle_state,
}
use orca_cde.Prelude.{
  ℕ, suc, ◌≤◌, ◌<◌, true, false, Option, none, some, List, [], ◌∷◌, ◌≡◌, refl, sym, ◌∙◌, inl, inr,
  arith, ltb, length, length-modify, length-clip-lt, get_elem?, modify, All, All-modify, Bool-cases,
  Option-cases, subst, if_either,
}

-- The texts of a window fit their buffers.
abbrev pub IsTitled : Window → Type 0
IsTitled w = (length w.title < max_title_len) × (length w.app_id < max_app_id_len)

-- The focused window is one of those that there are, or none was focused yet.
pub record IsDesktop (d : Desktop) : Type 0 where
  pub slots : length d.toplevels ≡ max_toplevels
  pub counted : d.toplevel_count ≤ max_toplevels
  pub live : Live occupant d.toplevel_count d.toplevels
  pub texts : All IsTitled d.toplevels
  pub focused :
      (length d.focused_title < max_title_len) × (length d.focused_app_id < max_app_id_len)
  pub focus_slot : d.focused_id < max_toplevels

-- Fields that are no part of the invariant.
pub same_slots-IsDesktop :
    (d e : Desktop)
    → e.toplevels ≡ d.toplevels
    → e.toplevel_count ≡ d.toplevel_count
    → e.focused_title ≡ d.focused_title
    → e.focused_app_id ≡ d.focused_app_id
    → e.focused_id ≡ d.focused_id
    → IsDesktop d
    → IsDesktop e
same_slots-IsDesktop d e ws n t a i v = record {
  slots = rw ws v.slots;
  counted = rw n v.counted;
  live = rw (ws, n) v.live;
  texts = rw ws v.texts;
  focused = (rw t v.focused.0, rw a v.focused.1);
  focus_slot = rw i v.focus_slot;
}

pub remove_toplevel-IsDesktop :
    (h : ℕ) (d : Desktop) → IsDesktop d → IsDesktop (remove_toplevel h d)
unfolding remove_toplevel
remove_toplevel-IsDesktop h d v =
    elim (Option-cases (remove_in occupant d.toplevel_count h d.toplevels)) [
      | inl e ↦ rw (e, remove_toplevel) v
      | inr (ws, e) ↦
          let r =
            remove_in-IsRemoved occupant IsTitled (λ w k. k) d.toplevel_count h d.toplevels v.live
              v.texts e in
          rw (e, remove_toplevel)
            (record {
              slots = r.same_length ∙ v.slots;
              counted = omega (arith, v.counted);
              live = r.still_live;
              texts = r.still_all;
              focused = v.focused;
              focus_slot = v.focus_slot;
            })
    ]

-- A change of one slot that leaves its use and its bounds.
pub changed-IsDesktop :
    (i : ℕ) (f : Window → Window) (d : Desktop)
    → ((w : Window) → (f w).valid ≡ w.valid)
    → ((w : Window) → IsTitled w → IsTitled (f w))
    → IsDesktop d
    → IsDesktop (record d { toplevels = modify d.toplevels i f })
changed-IsDesktop i f d same k v = record {
  slots = length-modify d.toplevels i f ∙ v.slots;
  counted = v.counted;
  live = Live-modify occupant d.toplevel_count i f d.toplevels (λ w e. same w ∙ e) v.live;
  texts = All-modify IsTitled d.toplevels i f (λ w e h. k w h) v.texts;
  focused = v.focused;
  focus_slot = v.focus_slot;
}

with_entry-same :
    (entry : ℕ) (w : Window)
    → ((with_entry entry w).valid ≡ w.valid)
      × ((with_entry entry w).title ≡ w.title)
      × ((with_entry entry w).app_id ≡ w.app_id)
with_entry-same entry w = ground arith

with_entries-same :
    (entries : List ℕ) (w : Window)
    → ((with_entries entries w).valid ≡ w.valid)
      × ((with_entries entries w).title ≡ w.title)
      × ((with_entries entries w).app_id ≡ w.app_id)
with_entries-same [] w = (refl, refl, refl)
with_entries-same (entry ∷ entries) w =
    let (v, t, a) = with_entry-same entry w in
    let (v', t', a') = with_entries-same entries (with_entry entry w) in (v' ∙ v, t' ∙ t, a' ∙ a)

focus-IsDesktop : (i : ℕ) (o : Option Window) (d : Desktop) → IsDesktop d → IsDesktop (focus i o d)
unfolding focus
focus-IsDesktop i none d v = v
focus-IsDesktop i (some w) d v =
    if_either IsDesktop w.activated
      (record {
        slots = v.slots;
        counted = v.counted;
        live = v.live;
        texts = v.texts;
        focused = (
          length-clip-lt max_title_len w.title (omega arith),
          length-clip-lt max_app_id_len w.app_id (omega arith),
        );
        focus_slot = ground (arith, v.counted, v.focus_slot);
      })
      v

with_states-same :
    (entries : List ℕ) (w : Window)
    → ((with_states entries w).valid ≡ w.valid)
      × ((with_states entries w).title ≡ w.title)
      × ((with_states entries w).app_id ≡ w.app_id)
with_states-same entries w = with_entries-same entries _

pub state-IsDesktop :
    (i : ℕ) (entries : List ℕ) (d : Desktop)
    → IsDesktop d
    → IsDesktop (toplevel_handle_state i entries d)
unfolding toplevel_handle_state
state-IsDesktop i entries d v =
    let changed = record d { toplevels = modify d.toplevels i (with_states entries) } in
    let window = get_elem? changed.toplevels i in
    same_slots-IsDesktop (focus i window changed) _ refl refl refl refl refl (
      focus-IsDesktop i window changed (
        changed-IsDesktop i (with_states entries) d (λ w. (with_states-same entries w).0)
          (λ w k. (rw (with_states-same entries w).1 k.0, rw (with_states-same entries w).2 k.1))
          v))

-- The daemon with a window in the slot behind the last.
abbrev grown : ℕ → Desktop → Desktop
grown h d = record d {
  toplevels = modify d.toplevels d.toplevel_count (added h);
  toplevel_count = suc d.toplevel_count;
}

grown-IsDesktop :
    (h : ℕ) (d : Desktop) → d.toplevel_count < max_toplevels → IsDesktop d → IsDesktop (grown h d)
grown-IsDesktop h d b v = record {
  slots = length-modify d.toplevels d.toplevel_count (added h) ∙ v.slots;
  counted = omega (arith, b);
  live =
      Live-added occupant d.toplevel_count (added h) d.toplevels (λ w. refl)
        (omega (arith, b, v.slots)) v.live;
  texts =
      All-modify IsTitled d.toplevels d.toplevel_count (added h)
        (λ w e k. (omega arith, omega arith)) v.texts;
  focused = v.focused;
  focus_slot = v.focus_slot;
}

add_toplevel-grown :
    (h : ℕ) (d : Desktop)
    → ltb d.toplevel_count max_toplevels ≡ true
    → add_toplevel h d ≡ (some d.toplevel_count, grown h d)
unfolding add_toplevel
add_toplevel-grown h d e = rw (e, add_toplevel) refl

add_toplevel_full :
    (h : ℕ) (d : Desktop)
    → ltb d.toplevel_count max_toplevels ≡ false
    → add_toplevel h d ≡ (none, d)
unfolding add_toplevel
add_toplevel_full h d e = rw (e, add_toplevel) refl

pub announced-IsDesktop :
    (h : ℕ) (d : Desktop) → IsDesktop d → IsDesktop (attach h (add_toplevel h d))
announced-IsDesktop h d v = elim (Bool-cases (ltb d.toplevel_count max_toplevels)) [
  | inr e ↦ subst (λ a. IsDesktop (attach h a)) (sym (add_toplevel_full h d e)) v
  | inl e ↦
      subst (λ a. IsDesktop (attach h a)) (sym (add_toplevel-grown h d e))
        (same_slots-IsDesktop (grown h d) _ refl refl refl refl refl
          (grown-IsDesktop h d (ground arith) v))
]
