-- ===== src/Layout/Validity.antt =====
-- The values in the fields that src/nscde_wayland_common/panel-layout-contract.c parses.
use orca_cde.Prelude.{
  ℕ, ◌+◌, ◌-◌, ◌<◌, Bool, false, ◌||◌, Option, none, some, List, [], ◌∷◌, ◌≡◌, refl, ap, ◌∙◌, inl,
  inr, arith, length, length-clip-lt, map, Bytes, equal, atoi, All, Bool-cases, Option-cases,
}
use orca_cde.Prelude.Int.{ℤ, pos, ◌≤ℤ◌, ltb_ℤ}
use orca_cde.Layout.{
  Rule, range, text, Value, number_value, text_value, Entry, parse_int_range, assign,
  parse_layout_entry, entry_of, strip_breaks, parse_layout_line, parse_layout_lines, break_lines,
  file_lines, parse_contents, parse_file, state_line_len,
}

-- The value is one that the rule allows: a number within the bounds, a text that fits.
abbrev pub Allows : Rule → Value → Type 0
Allows (range min max) (number_value n) = (pos min ≤ℤ n) × (n ≤ℤ pos max)
Allows (text size) (text_value s) = length s < size
Allows _ _ = ⊥

abbrev pub IsContract : List Entry → Type 0
IsContract = All (λ e. Allows e.rule e.value)

-- The keys of the fields and what they take.
abbrev pub fields_of : List Entry → List (Bytes × Rule)
fields_of = map (λ e. (e.key, e.rule))

-- The fields are those of the layout before, and each is within what its key allows.
pub record IsUpdated (before after : List Entry) : Type 0 where
  pub fields : fields_of after ≡ fields_of before
  pub allowed : IsContract before → IsContract after

≤ℤ_of_ltb : (a b : ℤ) → ltb_ℤ b a ≡ false → a ≤ℤ b
≤ℤ_of_ltb a b h = ground arith

parse_int_range-Allows :
    (min max : ℕ) (val : Bytes) (old : Value)
    → Allows (range min max) old
    → Allows (range min max) (parse_int_range min max val old)
unfolding parse_int_range
parse_int_range-Allows min max val old h =
    elim (Bool-cases (ltb_ℤ (atoi val) (pos min) || ltb_ℤ (pos max) (atoi val))) [
      | inl out ↦ rw (out, parse_int_range) h
      | inr within ↦ rw (within, parse_int_range) (bounds (atoi val) within)
    ]
  where
    bounds :
        (n : ℤ) → (ltb_ℤ n (pos min) || ltb_ℤ (pos max) n) ≡ false → (pos min ≤ℤ n) × (n ≤ℤ pos max)
    bounds n e = ground (arith, ≤ℤ_of_ltb (pos min) n, ≤ℤ_of_ltb n (pos max))

assign-Allows :
    (rule : Rule) (val : Bytes) (old : Value) → Allows rule old → Allows rule (assign rule val old)
unfolding assign
assign-Allows (range min max) val old h = parse_int_range-Allows min max val old h
assign-Allows (text size) val (text_value s) h = length-clip-lt size val (omega (arith, h))
assign-Allows (text size) val (number_value n) h = absurd h

parse_layout_entry-IsUpdated :
    (key val : Bytes) (es : List Entry) → IsUpdated es (parse_layout_entry key val es)
unfolding parse_layout_entry
parse_layout_entry-IsUpdated key val [] = record { fields = refl; allowed = λ h. h }
parse_layout_entry-IsUpdated key val (e ∷ es) =
    let later = parse_layout_entry-IsUpdated key val es in
    elim (Bool-cases (equal key e.key)) [
      | inl k ↦
          rw (k, parse_layout_entry)
            (record { fields = refl; allowed = λ h. (assign-Allows e.rule val e.value h.0, h.1) })
      | inr k ↦
          rw (k, parse_layout_entry)
            (record {
              fields = ap (◌∷◌ (e.key, e.rule)) later.fields;
              allowed = λ h. (h.0, later.allowed h.1);
            })
    ]

parse_layout_line-IsUpdated :
    (line : Bytes) (es : List Entry) → IsUpdated es (parse_layout_line line es)
unfolding parse_layout_line
parse_layout_line-IsUpdated line es = elim (Option-cases (entry_of (strip_breaks line))) [
  | inl e ↦ rw (e, parse_layout_line) (record { fields = refl; allowed = λ h. h })
  | inr ((key, val), e) ↦ rw (e, parse_layout_line) (parse_layout_entry-IsUpdated key val es)
]

parse_layout_lines-IsUpdated :
    (ls : List Bytes) (es : List Entry) → IsUpdated es (parse_layout_lines ls es)
unfolding parse_layout_lines
parse_layout_lines-IsUpdated [] es = record { fields = refl; allowed = λ h. h }
parse_layout_lines-IsUpdated (l ∷ ls) es =
    let now = parse_layout_line-IsUpdated l es in
    let later = parse_layout_lines-IsUpdated ls (parse_layout_line l es) in
    record { fields = later.fields ∙ now.fields; allowed = λ h. later.allowed (now.allowed h) }

-- Whatever the contents, parsing leaves the layout its fields with their keys and rules, and if
-- before every number was in its range and every text shorter than its size, so they are after.
pub parse_contents-IsUpdated :
    (alloc : ℕ → Bool) (contents : Bytes) (layout : List Entry)
    → IsUpdated layout (parse_contents alloc contents layout).1
unfolding parse_contents
parse_contents-IsUpdated alloc contents layout = elim (Bool-cases (alloc (length contents + 1))) [
  | inl a ↦
      rw (a, parse_contents) (parse_layout_lines-IsUpdated (break_lines false contents) layout)
  | inr a ↦ rw (a, parse_contents) (record { fields = refl; allowed = λ h. h })
]

-- Whatever the file holds, or where it cannot be opened, parsing it leaves the layout its
-- fields with their keys and rules, and keeps every number in its range and every text shorter
-- than its size.
pub parse_file-IsUpdated :
    (contents : Option Bytes) (layout : List Entry)
    → IsUpdated layout (parse_file contents layout).1
unfolding parse_file
parse_file-IsUpdated none layout = record { fields = refl; allowed = λ h. h }
parse_file-IsUpdated (some contents) layout =
    parse_layout_lines-IsUpdated (file_lines (state_line_len - 2) contents) layout
