-- ===== src/Prelude/Number/Decimal.antt =====
-- `%d` and `%u` of a number that is not negative: its decimal digits, which `atoi` reads back.
use Prim.Native.Nat.{ℕ, zero, suc, ◌+◌, ◌*◌, ◌/◌, ◌%◌, ◌≤◌, ◌<◌}
use mathlib.Core.Bool.{false}
use mathlib.Core.List.{[], ◌∷◌, ◌++◌, append_assoc}
use mathlib.Core.Logic.{inl, inr}
use mathlib.Core.Path.{◌≡◌, refl, ap, ◌∙◌, sym}
use native.Mathlib.Omega.{arith}
use orca_cde.Prelude.Int.{pos}
use orca_cde.Prelude.Number.{is_digit, skip_space, read_digits, read_signed, atoi}
use orca_cde.Prelude.Tests.{ltb, ◌==◌, if◌then◌else◌, Bool-cases}
use orca_cde.Prelude.Text.{Bytes, Lacks, Lacks-append}

-- On fuel; each digit takes one.
print_digits : ℕ → ℕ → Bytes
print_digits zero n = []
print_digits (suc fuel) n =
    let front = print_digits fuel (n / 10) in
    if ltb n 10 then (n + b'0') ∷ [] else front ++ ((n % 10 + b'0') ∷ [])

unfoldable pub decimal : ℕ → Bytes
unfolding print_digits
decimal n = print_digits (suc n) n

read_digit :
    (acc d : ℕ) (rest : Bytes)
    → d < 10
    → read_digits acc ((d + b'0') ∷ rest) ≡ read_digits (acc * 10 + d) rest
unfolding read_digits
read_digit acc d rest h = ground arith

read_digits-print_digits :
    (fuel n : ℕ) (rest : Bytes)
    → n < fuel
    → read_digits 0 (print_digits fuel n ++ rest) ≡ read_digits n rest
unfolding print_digits
read_digits-print_digits zero n rest h = absurd (omega arith)
read_digits-print_digits (suc fuel) n rest h = elim (Bool-cases (ltb n 10)) [
  | inl small ↦ rw (small, print_digits) (ground (arith, read_digit 0 n rest))
  | inr big ↦
      let last = (n % 10 + b'0') ∷ rest in
      let whole : n / 10 * 10 + n % 10 ≡ n = omega arith in
      rw (big, print_digits)
        (ap (read_digits 0) (append_assoc (print_digits fuel (n / 10)) ((n % 10 + b'0') ∷ []) rest)
          ∙ read_digits-print_digits fuel (n / 10) last (ground arith)
          ∙ read_digit (n / 10) (n % 10) rest (omega arith)
          ∙ ap (λ m. read_digits m rest) whole)
]

-- The digits begin with a digit.
print_digits-head :
    (fuel n : ℕ)
    → n < fuel
    → (c : ℕ) × (s : Bytes) × (print_digits fuel n ≡ c ∷ s) × (b'0' ≤ c) × (c ≤ b'9')
unfolding print_digits
print_digits-head zero n h = absurd (omega arith)
print_digits-head (suc fuel) n h = elim (Bool-cases (ltb n 10)) [
  | inl small ↦ (n + b'0', [], rw (small, print_digits) refl, omega arith, ground arith)
  | inr big ↦
      let (c, s, e, lo, hi) = print_digits-head fuel (n / 10) (ground arith) in
      (
        c,
        s ++ ((n % 10 + b'0') ∷ []),
        rw (big, print_digits) (ap (λ t. t ++ ((n % 10 + b'0') ∷ [])) e),
        lo,
        hi,
      )
]

-- The text does not go on with a digit.
abbrev pub EndsNumber : Bytes → Type 0
EndsNumber [] = Unit
EndsNumber (c ∷ s) = is_digit c ≡ false

read_digits-EndsNumber : (n : ℕ) (rest : Bytes) → EndsNumber rest → read_digits n rest ≡ n
unfolding read_digits
read_digits-EndsNumber n [] h = refl
read_digits-EndsNumber n (c ∷ s) h = rw (h, read_digits) refl

read_signed-digit :
    (c : ℕ) (s : Bytes) → b'0' ≤ c → c ≤ b'9' → atoi (c ∷ s) ≡ pos (read_digits 0 (c ∷ s))
unfolding atoi skip_space read_signed
read_signed-digit c s lo hi = ground arith

-- `atoi` reads back what was printed, up to what is no digit.
pub atoi-decimal : (n : ℕ) (rest : Bytes) → EndsNumber rest → atoi (decimal n ++ rest) ≡ pos n
unfolding decimal
atoi-decimal n rest h =
    let (c, s, e, lo, hi) = print_digits-head (suc n) n (omega arith) in
    ap (λ t. atoi (t ++ rest)) e
    ∙ read_signed-digit c (s ++ rest) lo hi
    ∙ ap (λ t. pos (read_digits 0 (t ++ rest))) (sym e)
    ∙ ap pos (read_digits-print_digits (suc n) n rest (omega arith))
    ∙ ap pos (read_digits-EndsNumber n rest h)

print_digits-Lacks : (c fuel n : ℕ) → is_digit c ≡ false → Lacks c (print_digits fuel n)
unfolding print_digits
print_digits-Lacks c zero n h = tt
print_digits-Lacks c (suc fuel) n h = elim (Bool-cases (ltb n 10)) [
  | inl small ↦ rw (small, print_digits) (ground (arith, h), tt)
  | inr big ↦
      rw (big, print_digits)
        (Lacks-append c (print_digits fuel (n / 10)) ((n % 10 + b'0') ∷ [])
          (print_digits-Lacks c fuel (n / 10) h) (no_digit (n % 10) (omega arith), tt))
]
  where
    no_digit : (d : ℕ) → d < 10 → ((d + b'0') == c) ≡ false
    no_digit d b = ground (arith, h)

-- There is nothing but digits.
pub decimal-Lacks : (c n : ℕ) → is_digit c ≡ false → Lacks c (decimal n)
unfolding decimal
decimal-Lacks c n h = print_digits-Lacks c (suc n) n h
