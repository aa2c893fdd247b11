-- ===== src/Panel/Metrics.antt =====
-- The fields of the panel's layout contract that src/nscde_paneld/nscde_paneld.c reads and sets, by
-- the keys under which the contract holds them.
pub mod Setting
use Prim.Native.String.{String}
use orca_cde.Layout.{Entry, Value, number_value, text_value}
use orca_cde.Prelude.Int.{ℤ, pos}
use orca_cde.Prelude.{Option, none, some, List, [], ◌∷◌, if◌then◌else◌, Bytes, codes, equal}

abbrev number_in : Value → ℤ
number_in (number_value n) = n
number_in (text_value s) = pos 0

abbrev text_in : Value → Bytes
text_in (number_value n) = []
text_in (text_value s) = s

unfoldable pub field_of : Bytes → List Entry → Option Value
field_of key [] = none
field_of key (e ∷ es) = let rest = field_of key es in if equal key e.key then some e.value else rest

-- A number of the layout.
unfoldable pub metric : String → List Entry → ℤ
metric key layout = elim (field_of (codes key) layout) [ none ↦ pos 0 | some v ↦ number_in v ]

-- A text of the layout.
unfoldable pub label_text : String → List Entry → Bytes
label_text key layout = elim (field_of (codes key) layout) [ none ↦ [] | some v ↦ text_in v ]

unfoldable pub set_field : Bytes → ℤ → List Entry → List Entry
set_field key n [] = []
set_field key n (e ∷ es) =
    let rest = set_field key n es in
    if equal key e.key then record e { value = number_value n } ∷ es else e ∷ rest

-- A number of the layout is set.
unfoldable pub set_metric : String → ℤ → List Entry → List Entry
set_metric key n layout = set_field (codes key) n layout
