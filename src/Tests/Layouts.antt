-- ===== src/Tests/Layouts.antt =====
-- A layout file with comments, numbers out of range and lines that set nothing.
use orca_cde.Prelude.{
  Bool, true, false, ◌&&◌, not, List, [], ◌∷◌, ◌≡◌, some, refl, arith, Bytes, codes, equal, clip,
  atoi, cut,
}
use orca_cde.Prelude.Int.{pos}
use orca_cde.Layout.Fields.{layout_defaults}
use orca_cde.Layout.Settling.{find_entry, settled, settle, parse_contents-find}
use orca_cde.Layout.Validity.{IsUpdated, IsContract, parse_contents-IsUpdated}
use orca_cde.Layout.{
  Entry, number_value, range, break_lines, parse_contents, parse_layout_entry, parse_layout_line,
  strip_breaks,
}
use orca_cde.Tests.{plenty}

abbrev contents : Bytes
contents = codes "# panel\nNSCDE_PANEL_HEIGHT=90\nNSCDE_PANEL_HEIGHT=9000\n\nNSCDE_PANEL_EDGE=top\n"

-- The defaults are within what their keys allow, and no key occurs twice.
layout_defaults-IsContract : IsContract layout_defaults
unfolding layout_defaults
layout_defaults-IsContract = ground arith

abbrev occurs : Bytes → List Entry → Bool
occurs key [] = false
occurs key (e ∷ es) = elim (equal key e.key) [ true ↦ true | false ↦ occurs key es ]

abbrev distinct_keys : List Entry → Bool
distinct_keys [] = true
distinct_keys (e ∷ es) = not (occurs e.key es) && distinct_keys es

layout_defaults-distinct : distinct_keys layout_defaults ≡ true
unfolding layout_defaults equal
layout_defaults-distinct = refl

parse_contents-find_example :
    ((parse_contents plenty contents layout_defaults).0 ≡ true)
    × (find_entry (codes "NSCDE_PANEL_HEIGHT") (parse_contents plenty contents layout_defaults).1
        ≡ settled
            (λ r v. settle (codes "NSCDE_PANEL_HEIGHT") r (break_lines false contents) v)
            (find_entry (codes "NSCDE_PANEL_HEIGHT") layout_defaults))
parse_contents-find_example =
    parse_contents-find plenty contents (codes "NSCDE_PANEL_HEIGHT") layout_defaults refl

parse_contents-IsUpdated_example :
    IsUpdated layout_defaults (parse_contents plenty contents layout_defaults).1
parse_contents-IsUpdated_example = parse_contents-IsUpdated plenty contents layout_defaults

height_set :
    find_entry (codes "NSCDE_PANEL_HEIGHT") (parse_contents plenty contents layout_defaults).1
    ≡ some (record {
      key = codes "NSCDE_PANEL_HEIGHT";
      rule = range 1 511;
      value = number_value (pos 90);
    })
unfolding layout_defaults equal parse_contents parse_layout_line parse_layout_entry strip_breaks cut
    clip atoi
height_set = refl
