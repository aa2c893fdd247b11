-- ===== src/Panel/Metrics/Setting.antt =====
-- Lemmas on setting and reading a field of the layout contract, for
-- src/nscde_paneld/nscde_paneld.c.
use Prim.Native.String.{String}
use orca_cde.Layout.{Entry, Value, number_value}
use orca_cde.Panel.Metrics.{field_of, metric, set_field, set_metric}
use orca_cde.Prelude.Int.{ℤ}
use orca_cde.Prelude.{
  false, some, List, [], ◌∷◌, ◌≡◌, refl, sym, ap, ◌∙◌, inl, inr, if◌then◌else◌, Bytes, codes, equal,
  equal_iff, Bool-cases,
}

field_of-set_field :
    (key : Bytes) (n : ℤ) (es : List Entry) {v : Value}
    → field_of key es ≡ some v
    → field_of key (set_field key n es) ≡ some (number_value n)
unfolding field_of set_field
field_of-set_field key n [] h = cc
field_of-set_field key n (e ∷ es) {v} h = elim (Bool-cases (equal key e.key)) [
  | inl this ↦ rw (this, set_field) (rw (this, field_of) refl)
  | inr other ↦
      rw (other, set_field)
        (rw (other, field_of) (field_of-set_field key n es {v = v} (rw (other, field_of) at h)))
]

field_of-set_field_other :
    (key other : Bytes) (n : ℤ) (es : List Entry)
    → equal key other ≡ false
    → field_of key (set_field other n es) ≡ field_of key es
unfolding field_of set_field
field_of-set_field_other key other n [] h = refl
field_of-set_field_other key other n (e ∷ es) h = elim (Bool-cases (equal other e.key)) [
  | inl this ↦
      let same : other ≡ e.key = (equal_iff other e.key).0 this in
      let not_key : equal key e.key ≡ false = ap (equal key) (sym same) ∙ h in
      rw (this, set_field) (rw (not_key, field_of) refl)
  | inr apart ↦
      rw (apart, set_field)
        (ap (λ rest. if equal key e.key then some e.value else rest)
          (field_of-set_field_other key other n es h))
]

pub metric-set_metric :
    (key : String) (n : ℤ) (layout : List Entry) {v : Value}
    → field_of (codes key) layout ≡ some v
    → metric key (set_metric key n layout) ≡ n
unfolding metric set_metric
metric-set_metric key n layout {v} h =
    rw (field_of-set_field (codes key) n layout {v = v} h, metric) refl

pub metric-set_metric_other :
    (key other : String) (n : ℤ) (layout : List Entry)
    → equal (codes key) (codes other) ≡ false
    → metric key (set_metric other n layout) ≡ metric key layout
unfolding metric set_metric
metric-set_metric_other key other n layout h =
    rw (field_of-set_field_other (codes key) (codes other) n layout h, metric) refl
