-- ===== src/Layout/Settling.antt =====
-- A single field over all the lines that src/nscde_wayland_common/panel-layout-contract.c parses.
use orca_cde.Prelude.{
  ℕ, ◌+◌, Bool, true, false, Option, none, some, List, [], ◌∷◌, ◌≡◌, refl, sym, ap, ◌∙◌, inl, inr,
  length, if◌then◌else◌, Bytes, equal, equal_iff, Bool-cases, Option-cases,
}
use orca_cde.Layout.{
  Rule, Value, Entry, assign, parse_layout_entry, entry_of, strip_breaks, parse_layout_line,
  parse_layout_lines, break_lines, parse_contents,
}

-- The field that a key sets: the first that has it.
abbrev pub find_entry : Bytes → List Entry → Option Entry
find_entry key [] = none
find_entry key (e ∷ es) = let rest = find_entry key es in if equal key e.key then some e else rest

-- A field's value after one setting of a key, and after all lines, in order.
abbrev pub settle_one : Bytes → Rule → Option (Bytes × Bytes) → Value → Value
settle_one key rule none v = v
settle_one key rule (some (k, val)) v = if equal k key then assign rule val v else v

abbrev pub settle : Bytes → Rule → List Bytes → Value → Value
settle key rule [] v = v
settle key rule (l ∷ ls) v = settle key rule ls (settle_one key rule (entry_of (strip_breaks l)) v)

abbrev pub settled : (Rule → Value → Value) → Option Entry → Option Entry
settled f none = none
settled f (some e) = some (record e { value = f e.rule e.value })

settled-settled :
    (f g : Rule → Value → Value) (o : Option Entry)
    → settled g (settled f o) ≡ settled (λ r v. g r (f r v)) o
settled-settled f g none = refl
settled-settled f g (some e) = refl

settled-id : (o : Option Entry) → settled (λ r v. v) o ≡ o
settled-id none = refl
settled-id (some e) = refl

equal_other_left : (a b c : Bytes) → equal a c ≡ true → equal b c ≡ false → equal a b ≡ false
equal_other_left a b c h g = elim (Bool-cases (equal a b)) [
  | inr n ↦ n
  | inl e ↦ cc (g, (equal_iff b c).1 (sym ((equal_iff a b).0 e) ∙ (equal_iff a c).0 h))
]

equal_other_right : (a b c : Bytes) → equal a c ≡ false → equal b c ≡ true → equal a b ≡ false
equal_other_right a b c h g = elim (Bool-cases (equal a b)) [
  | inr n ↦ n
  | inl e ↦ cc (h, (equal_iff a c).1 ((equal_iff a b).0 e ∙ (equal_iff b c).0 g))
]

parse_layout_entry-find :
    (key k val : Bytes) (es : List Entry)
    → find_entry key (parse_layout_entry k val es)
      ≡ settled (λ r v. settle_one key r (some (k, val)) v) (find_entry key es)
unfolding parse_layout_entry
parse_layout_entry-find key k val [] = refl
parse_layout_entry-find key k val (e ∷ es) =
    let later = parse_layout_entry-find key k val es in
    elim (Bool-cases (equal k e.key)) [
      | inl h ↦ elim (Bool-cases (equal key e.key)) [
        | inl g ↦
            let same : equal k key ≡ true =
              (equal_iff k key).1 ((equal_iff k e.key).0 h ∙ sym ((equal_iff key e.key).0 g)) in
            rw (h, parse_layout_entry) (rw g (rw same refl))
        | inr g ↦
            rw (h, parse_layout_entry)
              (rw g (rw (equal_other_left k key e.key h g) (sym (settled-id _))))
      ]
      | inr h ↦ elim (Bool-cases (equal key e.key)) [
        | inl g ↦ rw (h, parse_layout_entry) (rw g (rw (equal_other_right k key e.key h g) refl))
        | inr g ↦ rw (h, parse_layout_entry) (rw g later)
      ]
    ]

parse_layout_line-find :
    (key line : Bytes) (es : List Entry)
    → find_entry key (parse_layout_line line es)
      ≡ settled (λ r v. settle_one key r (entry_of (strip_breaks line)) v) (find_entry key es)
unfolding parse_layout_line
parse_layout_line-find key line es = elim (Option-cases (entry_of (strip_breaks line))) [
  | inl e ↦ rw (e, parse_layout_line) (sym (settled-id _))
  | inr ((k, val), e) ↦ rw (e, parse_layout_line) (parse_layout_entry-find key k val es)
]

parse_layout_lines-find :
    (key : Bytes) (ls : List Bytes) (es : List Entry)
    → find_entry key (parse_layout_lines ls es)
      ≡ settled (λ r v. settle key r ls v) (find_entry key es)
unfolding parse_layout_lines
parse_layout_lines-find key [] es = sym (settled-id _)
parse_layout_lines-find key (l ∷ ls) es =
    parse_layout_lines-find key ls (parse_layout_line l es)
    ∙ ap (settled (λ r v. settle key r ls v)) (parse_layout_line-find key l es)
    ∙ settled-settled _ _ (find_entry key es)

-- With memory for the copy, parsing a layout returns true, and the field of every key is what
-- the lines that set this key make of it one after the other, each checked or cut as the
-- field's rule says; all other lines leave it alone.
pub parse_contents-find :
    (alloc : ℕ → Bool) (contents key : Bytes) (layout : List Entry)
    → alloc (length contents + 1) ≡ true
    → ((parse_contents alloc contents layout).0 ≡ true)
      × (find_entry key (parse_contents alloc contents layout).1
          ≡ settled (λ r v. settle key r (break_lines false contents) v) (find_entry key layout))
unfolding parse_contents
parse_contents-find alloc contents key layout a =
    rw (a, parse_contents) (refl, parse_layout_lines-find key (break_lines false contents) layout)
