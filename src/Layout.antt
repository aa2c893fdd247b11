-- ===== src/Layout.antt =====
-- The panel's layout contract: src/nscde_wayland_common/panel-layout-contract.c. The struct is the
-- list of its fields, each under the key that sets it, with what it takes and its value.
pub mod Fields
pub mod Validity
pub mod Settling
pub mod Files
use orca_cde.Prelude.{
  ℕ, zero, suc, ◌+◌, Bool, true, false, ◌&&◌, ◌||◌, Option, none, some, List, [], ◌∷◌, ◌++◌, ◌==◌,
  if◌then◌else◌, length, ◌-◌, Bytes, is_nil, equal, cut, clip, atoi, cons_head,
}
use orca_cde.Prelude.Int.{ℤ, pos, ltb_ℤ}

-- What a field takes: an `int` from the first bound to the second, or a text into so many bytes.
pub data Rule : Type 0 where
  range : ℕ → ℕ → Rule
  text : ℕ → Rule

pub data Value : Type 0 where
  number_value : ℤ → Value
  text_value : Bytes → Value

pub record Entry : Type 0 where
  pub key : Bytes
  pub rule : Rule
  pub value : Value

-- `parse_int_range`: a number out of range leaves the field alone.
pub parse_int_range : ℕ → ℕ → Bytes → Value → Value
parse_int_range min max val old =
    let parsed = atoi val in
    if ltb_ℤ parsed (pos min) || ltb_ℤ (pos max) parsed then old else number_value parsed

-- What an entry of `parse_layout_entry` does to its field.
pub assign : Rule → Bytes → Value → Value
assign (range min max) val old = parse_int_range min max val old
assign (text size) val old = text_value (clip size val)

-- The chain of `strcmp`: the first field with the key.
unfoldable pub parse_layout_entry : Bytes → Bytes → List Entry → List Entry
unfolding assign parse_int_range
parse_layout_entry key val [] = []
parse_layout_entry key val (e ∷ es) =
    let rest = parse_layout_entry key val es in
    if equal key e.key then record e { value = assign e.rule val e.value } ∷ es else e ∷ rest

abbrev pub is_break : ℕ → Bool
is_break c = c == b'\n' || c == b'\r'

-- The line without the breaks that it ends with.
unfoldable pub strip_breaks : Bytes → Bytes
strip_breaks [] = []
strip_breaks (c ∷ s) =
    let rest = strip_breaks s in if is_break c && is_nil rest then [] else c ∷ rest

-- The key and the value of a line that sets a field: no comment, and with an equals sign.
abbrev pub entry_of : Bytes → Option (Bytes × Bytes)
entry_of [] = none
entry_of (c ∷ s) =
    let (key, after) = cut b'=' (c ∷ s) in
    if c == b'#' then none else elim after [ none ↦ none | some val ↦ some (key, val) ]

unfoldable pub parse_layout_line : Bytes → List Entry → List Entry
parse_layout_line line layout = elim (entry_of (strip_breaks line)) [
  | none ↦ layout
  | some (key, val) ↦ parse_layout_entry key val layout
]

pub parse_layout_lines : List Bytes → List Entry → List Entry
parse_layout_lines [] layout = layout
parse_layout_lines (l ∷ ls) layout = parse_layout_lines ls (parse_layout_line l layout)

-- The lines that the loop with `strpbrk` goes through: a run of breaks ends a line, and `skipping`
-- is set inside of one.
pub break_lines : Bool → Bytes → List Bytes
break_lines skipping [] = [] ∷ []
break_lines skipping (c ∷ s) =
    let next = break_lines true s in
    let more = break_lines false s in
    if is_break c then (if skipping then next else [] ∷ next) else cons_head c more

-- STATE_LINE_LEN
abbrev pub state_line_len : ℕ
state_line_len = 1024

-- The lines that `fgets` gives: each keeps its newline, and `room` bytes still fit in this one.
pub file_lines : ℕ → Bytes → List Bytes
file_lines room [] = []
file_lines room (c ∷ s) =
    let next = file_lines (state_line_len - 2) s in
    let more = file_lines (room - 1) s in
    let here = (c ∷ []) ∷ next in if c == b'\n' || room == 0 then here else cons_head c more

module _ (alloc : ℕ → Bool) where
  -- `nscde_panel_layout_contract_parse_contents`, which works on a copy of the contents
  unfoldable pub parse_contents : Bytes → List Entry → Bool × List Entry
  unfolding break_lines parse_layout_lines
  parse_contents contents layout =
      if alloc (length contents + 1)
      then (true, parse_layout_lines (break_lines false contents) layout)
      else (false, layout)

-- `nscde_panel_layout_contract_parse_file`; `none` is a file that cannot be opened.
unfoldable pub parse_file : Option Bytes → List Entry → Bool × List Entry
unfolding file_lines parse_layout_lines
parse_file none layout = (false, layout)
parse_file (some contents) layout =
    (true, parse_layout_lines (file_lines (state_line_len - 2) contents) layout)
