-- ===== src/Panel/Geometry/Tiling.antt =====
-- The bank on the right in `rebuild_applets` and `compute_panel_layout_model` of
-- src/nscde_paneld/nscde_paneld.c.
use orca_cde.Layout.{Entry, Value}
use orca_cde.Panel.Applets.Widths.{first_x, place_applets-first_x}
use orca_cde.Panel.Applets.{max_applets, Applet, Applets, applets_of, bank_width, rebuild_applets}
use orca_cde.Panel.Geometry.Buttons.{compute_panel_layout_model}
use orca_cde.Panel.Geometry.{sections_of}
use orca_cde.Panel.Metrics.Setting.{metric-set_metric, metric-set_metric_other}
use orca_cde.Panel.Metrics.{metric, label_text, set_metric, field_of}
use orca_cde.Panel.State.{Panel}
use orca_cde.Panel.Workspaces.{max_name_len, comma_parts}
use orca_cde.Prelude.Int.{ℤ, pos, pos_part, neg_part, ◌+ℤ◌, difference-parts, equal_of_parts}
use orca_cde.Prelude.{
  ℕ, suc, ◌+◌, ◌≤◌, ◌<◌, some, List, [], ◌∷◌, ◌≡◌, refl, sym, ap, ◌∙◌, arith, length,
  length-take-le, take, Bytes, codes, equal,
}

cancelled : (a b c : ℤ) → a +ℤ c ≡ b +ℤ c → a ≡ b
cancelled a b c h =
    let left = difference-parts (pos_part a + pos_part c) (neg_part a + neg_part c) in
    let right = difference-parts (pos_part b + pos_part c) (neg_part b + neg_part c) in
    equal_of_parts a b (omega (arith, left, right, ap pos_part h, ap neg_part h))

length-applets_of :
    (layout : List Entry) (i : ℕ) (toks : List Bytes) (slots : List Applet)
    → length (applets_of layout i toks slots) ≡ length slots
unfolding applets_of
length-applets_of layout i [] slots = refl
length-applets_of layout i (tok ∷ toks) [] = refl
length-applets_of layout i (tok ∷ toks) (slot ∷ slots) =
    ap suc (length-applets_of layout (suc i) toks slots)

-- What a rebuild leaves: the slots, the count, the width of the bank and the gap.
record IsRebuilt (a : Applets) (layout : List Entry) : Type 0 where
  bounded : a.applet_count ≤ length a.applets
  width :
      metric "NSCDE_PANEL_RIGHT_BANK_WIDTH" layout
      ≡ bank_width (metric "NSCDE_PANEL_RIGHT_APPLET_GAP" layout) 0 a.applet_count a.applets

rebuild_applets-IsRebuilt :
    (layout : List Entry) (a : Applets) {v : Value}
    → length a.applets ≡ max_applets
    → field_of (codes "NSCDE_PANEL_RIGHT_BANK_WIDTH") layout ≡ some v
    → IsRebuilt (rebuild_applets layout a).0 (rebuild_applets layout a).1
unfolding rebuild_applets equal
rebuild_applets-IsRebuilt layout a {v} full h =
    let parts = comma_parts max_name_len (label_text "NSCDE_PANEL_RIGHT_MODULES" layout) in
    let toks = take max_applets parts in
    let slots = applets_of layout 0 toks a.applets in
    let gap = metric "NSCDE_PANEL_RIGHT_APPLET_GAP" layout in
    let bw = bank_width gap 0 (length toks) slots in
    let once = set_metric "NSCDE_PANEL_RIGHT_BANK_WIDTH" bw layout in
    let count = pos (length toks) in
    let same_gap =
      metric-set_metric_other "NSCDE_PANEL_RIGHT_APPLET_GAP" "NSCDE_PANEL_RIGHT_LAUNCHER_COUNT"
        count once refl
      ∙ metric-set_metric_other "NSCDE_PANEL_RIGHT_APPLET_GAP" "NSCDE_PANEL_RIGHT_BANK_WIDTH" bw
          layout refl in
    record {
      bounded = omega (
        arith,
        length-take-le max_applets parts,
        length-applets_of layout 0 toks a.applets,
        full,
      );
      width =
          metric-set_metric_other "NSCDE_PANEL_RIGHT_BANK_WIDTH" "NSCDE_PANEL_RIGHT_LAUNCHER_COUNT"
            count once refl
          ∙ metric-set_metric "NSCDE_PANEL_RIGHT_BANK_WIDTH" bw layout {v = v} h
          ∙ ap (λ g. bank_width g 0 (length toks) slots) (sym same_gap);
    }

-- The applets of a panel after a rebuild.
abbrev pub with_rebuilt : Applets × List Entry → Panel → Panel
with_rebuilt (applets, layout) p = record p { applets = applets; layout = layout }

abbrev pub right_edge : Panel → ℤ
right_edge p = (sections_of p).right_bank.x +ℤ (sections_of p).right_bank.w

IsRebuilt-right_bank :
    (q : Panel)
    → IsRebuilt q.applets q.layout
    → 0 < q.applets.applet_count
    → first_x (right_edge q) (compute_panel_layout_model q).applets.applets
      ≡ (sections_of q).right_bank.x
unfolding compute_panel_layout_model sections_of
IsRebuilt-right_bank q r k =
    let bank = (sections_of q).right_bank in
    cancelled _ _
      (bank_width (metric "NSCDE_PANEL_RIGHT_APPLET_GAP" q.layout) 0 q.applets.applet_count
        q.applets.applets)
      (place_applets-first_x q.layout bank (right_edge q) q.applets.applet_count q.applets.applets
          r.bounded k
        ∙ ap (bank.x +ℤ◌) r.width)

-- Where all slots for applets are there, the layout has a field for the width of the right bank
-- and the rebuild leaves at least one applet, the first applet of the rebuilt panel is placed
-- exactly where the right bank begins: the width that the rebuild computes is what the placing
-- of the applets with their gaps takes.
pub rebuild_applets-right_bank :
    (p : Panel) (a : Applets) (layout : List Entry) {v : Value}
    → length a.applets ≡ max_applets
    → field_of (codes "NSCDE_PANEL_RIGHT_BANK_WIDTH") layout ≡ some v
    → 0 < (rebuild_applets layout a).0.applet_count
    → first_x
        (right_edge (with_rebuilt (rebuild_applets layout a) p))
        (compute_panel_layout_model (with_rebuilt (rebuild_applets layout a) p)).applets.applets
      ≡ (sections_of (with_rebuilt (rebuild_applets layout a) p)).right_bank.x
rebuild_applets-right_bank p a layout {v} full h k =
    IsRebuilt-right_bank (with_rebuilt (rebuild_applets layout a) p)
      (rebuild_applets-IsRebuilt layout a {v = v} full h) k
