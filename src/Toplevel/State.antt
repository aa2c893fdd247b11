-- ===== src/Toplevel/State.antt =====
-- What the toplevel daemon publishes: `update_state` of src/nscde_toplevel/nscde_toplevel.c.
use orca_cde.Daemon.Lines.{line}
use orca_cde.Prelude.{
  ℕ, zero, suc, Bool, true, false, some, List, [], ◌∷◌, ◌++◌, if◌then◌else◌, Bytes, codes, decimal,
}
use orca_cde.Runtime.Request.{publisher_send}
use orca_cde.Runtime.Transport.{Environment, Peer}
use orca_cde.Toplevel.{Window, Desktop}

-- `value ? 1 : 0` by `%d`
abbrev pub flag : Bool → Bytes
flag true = codes "1"
flag false = codes "0"

-- `fprintf(stream, "NSCDE_WINDOW_%d_<field>=%s\n", i, value)`
abbrev pub window_line : ℕ → Bytes → Bytes → Bytes
window_line i field value = line (codes "NSCDE_WINDOW_" ++ (decimal i ++ (b'_' ∷ field))) value

unfoldable pub window_text : ℕ → Window → Bytes
window_text i w =
    window_line i (codes "TITLE") w.title
    ++ (window_line i (codes "APP_ID") w.app_id
        ++ (window_line i (codes "MAXIMIZED") (flag w.maximized)
            ++ (window_line i (codes "MINIMIZED") (flag w.minimized)
                ++ (window_line i (codes "ACTIVATED") (flag w.activated)
                    ++ window_line i (codes "FULLSCREEN") (flag w.fullscreen)))))

-- The valid ones of the first `n` slots, from slot `i` on.
unfoldable pub windows_text : ℕ → ℕ → List Window → Bytes
windows_text zero i ws = []
windows_text (suc n) i [] = []
windows_text (suc n) i (w ∷ ws) =
    (if w.valid then window_text i w else []) ++ windows_text n (suc i) ws

unfoldable pub windows_state : Desktop → Bytes
windows_state d =
    line (codes "NSCDE_WINDOW_COUNT") (decimal d.toplevel_count)
    ++ (line (codes "NSCDE_FOCUSED_WINDOW") (decimal d.focused_id)
        ++ (line (codes "NSCDE_FOCUSED_TITLE") d.focused_title
            ++ (line (codes "NSCDE_FOCUSED_APP_ID") d.focused_app_id
                ++ (line (codes "NSCDE_TASKD_COMMAND_FIFO") d.fifo_path
                    ++ windows_text d.toplevel_count 0 d.toplevels))))

-- What the surroundings answer: the runtime, and whether `open_memstream` gives a stream.
pub record Answers : Type 0 where
  pub runtime : Peer
  pub stream : Bool

module _ (alloc : ℕ → Bool) (env : Environment) where
  -- The new state, and the bytes of the message. Without a stream the state stays dirty.
  unfoldable pub update_state : Answers → Desktop → Desktop × Bytes
  update_state a d =
      let (done, sent) =
        publisher_send alloc env a.runtime d.publisher (codes "windows") (some (windows_state d)) in
      (record d { dirty = if a.stream then false else d.dirty }, if a.stream then sent else [])

  -- `if (toplevel_state.dirty) update_state()`
  unfoldable pub update_if_dirty : Answers → Desktop → Desktop
  update_if_dirty a d = let updated = update_state a d in if d.dirty then updated.0 else d
