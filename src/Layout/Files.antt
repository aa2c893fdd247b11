-- ===== src/Layout/Files.antt =====
-- The two loops of src/nscde_wayland_common/panel-layout-contract.c, over a file and over its
-- contents in memory.
use orca_cde.Prelude.{◌-◌, ◌≤◌, Option, none, some, List, [], ◌∷◌, ◌≡◌, length, Bytes}
use orca_cde.Layout.{Entry, strip_breaks, entry_of, parse_layout_entry, state_line_len}

-- The settings of the lines, in order.
abbrev or_skip : Option (Bytes × Bytes) → List (Bytes × Bytes) → List (Bytes × Bytes)
or_skip none rest = rest
or_skip (some kv) rest = kv ∷ rest

settings : List Bytes → List (Bytes × Bytes)
settings [] = []
settings (l ∷ ls) = or_skip (entry_of (strip_breaks l)) (settings ls)

apply : List (Bytes × Bytes) → List Entry → List Entry
apply [] layout = layout
apply ((key, val) ∷ kvs) layout = apply kvs (parse_layout_entry key val layout)

-- The lines up to what their ends do not change: the first apart from the others.
abbrev head_line : List Bytes → Bytes
head_line [] = []
head_line (l ∷ ls) = l

abbrev tail_lines : List Bytes → List Bytes
tail_lines [] = []
tail_lines (l ∷ ls) = ls

record Same (ls ms : List Bytes) : Type 0 where
  heads : strip_breaks (head_line ls) ≡ strip_breaks (head_line ms)
  tails : settings (tail_lines ls) ≡ settings (tail_lines ms)

-- A line that `fgets` gives whole.
abbrev pub IsShort : Bytes → Type 0
IsShort l = length l ≤ state_line_len - 2
