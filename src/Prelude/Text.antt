-- ===== src/Prelude/Text.antt =====
-- C strings as lists of bytes, with no terminating zero: comparison, search, tokens, truncation.
use Prim.Native.Char.{code}
use Prim.Native.Nat.{ℕ, ◌-◌, ◌<◌}
use Prim.Native.String.{String}
use mathlib.Core.Bool.{Bool, true, false, ◌&&◌}
use mathlib.Core.List.{List, [], ◌∷◌, ◌++◌, append_assoc}
use mathlib.Core.Logic.{◌↔◌, inl, inr}
use mathlib.Core.Option.{Option, none, some}
use mathlib.Core.Path.{◌≡◌, refl}
use native.Mathlib.Omega.{arith}
use orca_cde.Prelude.Lists.{length, take, length-take-le, All}
use orca_cde.Prelude.Tests.{leb, ◌==◌, if◌then◌else◌, Bool-cases}

abbrev pub Bytes : Type 0
Bytes = List ℕ

-- The bytes of a literal; every literal of the program is ASCII.
abbrev pub codes : String → Bytes
codes String.[] = []
codes (String.◌∷◌ c s) = code c ∷ codes s

abbrev pub is_nil {ℓ} : {A : Type ℓ} → List A → Bool
is_nil [] = true
is_nil (x ∷ xs) = false

-- `strcmp(a, b) == 0`
unfoldable pub equal : Bytes → Bytes → Bool
equal [] [] = true
equal (x ∷ xs) (y ∷ ys) = x == y && equal xs ys
equal _ _ = false

pub equal_iff : (s t : Bytes) → (equal s t ≡ true) ↔ (s ≡ t)
unfolding equal
equal_iff [] [] = ground arith
equal_iff (c ∷ s) [] = ground arith
equal_iff [] (d ∷ t) = ground arith
equal_iff (c ∷ s) (d ∷ t) = ground (arith, equal_iff s t)

-- `strncmp(s, prefix, strlen(prefix)) == 0`
unfoldable pub starts_with : Bytes → Bytes → Bool
starts_with [] s = true
starts_with (p ∷ ps) [] = false
starts_with (p ∷ ps) (c ∷ s) = p == c && starts_with ps s

-- The text holds no byte `c`.
abbrev pub Lacks : ℕ → Bytes → Type 0
Lacks c [] = Unit
Lacks c (x ∷ s) = ((x == c) ≡ false) × Lacks c s

-- `strchr(s, c)`: what stands before the first `c`, and what stands after it, if there is one.
unfoldable pub cut : ℕ → Bytes → Bytes × Option Bytes
cut c [] = ([], none)
cut c (x ∷ s) =
    let (before, after) = cut c s in if x == c then ([], some s) else (x ∷ before, after)

-- A byte in front of the first piece.
abbrev pub cons_head : ℕ → List Bytes → List Bytes
cons_head x [] = (x ∷ []) ∷ []
cons_head x (p ∷ ps) = (x ∷ p) ∷ ps

-- The pieces between the separators `c`, at least one.
unfoldable pub split : ℕ → Bytes → List Bytes
split c [] = [] ∷ []
split c (x ∷ s) = let rest = split c s in if x == c then [] ∷ rest else cons_head x rest

-- The successive results of `strtok(s, c)`: the pieces that are not empty.
abbrev pub non_empty : List Bytes → List Bytes
non_empty [] = []
non_empty ([] ∷ ps) = non_empty ps
non_empty ((x ∷ p) ∷ ps) = (x ∷ p) ∷ non_empty ps

abbrev pub tokens : ℕ → Bytes → List Bytes
tokens c s = non_empty (split c s)

-- Each line with its newline behind it.
unfoldable pub render : ℕ → List Bytes → Bytes
render c [] = []
render c (l ∷ ls) = l ++ (c ∷ render c ls)

-- A buffer as a C string: what stands before the first zero byte.
unfoldable pub until_zero : Bytes → Bytes
until_zero [] = []
until_zero (c ∷ s) = let rest = until_zero s in if c == 0 then [] else c ∷ rest

-- What fits into `size` bytes with the zero behind it, as `snprintf` and a clipped copy leave it.
unfoldable pub clip : ℕ → Bytes → Bytes
clip size s = if leb size (length s) then take (size - 1) s else s

pub length-clip-lt : (size : ℕ) (s : Bytes) → 0 < size → length (clip size s) < size
unfolding clip
length-clip-lt size s h = ground (arith, length-take-le (size - 1) s)

pub clip_of_length-lt : (size : ℕ) (s : Bytes) → length s < size → clip size s ≡ s
unfolding clip
clip_of_length-lt size s h = ground arith

abbrev pub Token : ℕ → Bytes → Type 0
Token c p = (is_nil p ≡ false) × Lacks c p

pub split-append : (c : ℕ) (p s : Bytes) → Lacks c p → split c (p ++ (c ∷ s)) ≡ p ∷ split c s
unfolding split
split-append c [] s h = ground arith
split-append c (x ∷ p) s h = ground (arith, split-append c p s h.1)

-- The tokens of rendered lines are the lines.
pub tokens-render : (c : ℕ) (ls : List Bytes) → All (Token c) ls → tokens c (render c ls) ≡ ls
unfolding render split
tokens-render c [] h = refl
tokens-render c ([] ∷ ls) h = cc (h.0.0)
tokens-render c ((x ∷ p) ∷ ls) h =
    rw (split-append c (x ∷ p) (render c ls) h.0.1) (rw (tokens-render c ls h.1))

pub Lacks-append : (c : ℕ) (p s : Bytes) → Lacks c p → Lacks c s → Lacks c (p ++ s)
Lacks-append c [] s h k = k
Lacks-append c (x ∷ p) s h k = (h.0, Lacks-append c p s h.1 k)

pub Lacks-parts : (c : ℕ) (p s : Bytes) → Lacks c (p ++ s) → Lacks c p × Lacks c s
Lacks-parts c [] s h = (tt, h)
Lacks-parts c (x ∷ p) s h = let (hp, hs) = Lacks-parts c p s h.1 in ((h.0, hp), hs)

pub cut-some :
    (c : ℕ) (s : Bytes) {after : Bytes}
    → (cut c s).1 ≡ some after
    → (s ≡ (cut c s).0 ++ (c ∷ after)) × Lacks c (cut c s).0
unfolding cut
cut-some c [] h = cc
cut-some c (x ∷ s) {after} h = ground (arith, cut-some c s {after = after})

pub cut-none : (c : ℕ) (s : Bytes) → (cut c s).1 ≡ none → Lacks c s
unfolding cut
cut-none c [] h = tt
cut-none c (x ∷ s) h = ground (arith, cut-none c s)

All-cons_head :
    (P : Bytes → Type 0) (x : ℕ) (ps : List Bytes)
    → ((p : Bytes) → P p → P (x ∷ p))
    → P []
    → All P ps
    → All P (cons_head x ps)
All-cons_head P x [] k n h = (k [] n, tt)
All-cons_head P x (p ∷ ps) k n h = (k p h.0, h.1)

-- The pieces lack the separator.
split-Lacks : (c : ℕ) (s : Bytes) → All (Lacks c) (split c s)
unfolding split
split-Lacks c [] = (tt, tt)
split-Lacks c (x ∷ s) = elim (Bool-cases (x == c)) [
  | inl e ↦ rw (e, split) (tt, split-Lacks c s)
  | inr e ↦ rw (e, split) (All-cons_head (Lacks c) x _ (λ p h. (e, h)) tt (split-Lacks c s))
]

-- The pieces lack what the text lacks.
pub split-Lacks_of : (c d : ℕ) (s : Bytes) → Lacks d s → All (Lacks d) (split c s)
unfolding split
split-Lacks_of c d [] h = (tt, tt)
split-Lacks_of c d (x ∷ s) h = elim (Bool-cases (x == c)) [
  | inl e ↦ rw (e, split) (tt, split-Lacks_of c d s h.1)
  | inr e ↦
      rw (e, split) (All-cons_head (Lacks d) x _ (λ p k. (h.0, k)) tt (split-Lacks_of c d s h.1))
]

All-non_empty :
    (P : Bytes → Type 0) (ps : List Bytes)
    → All P ps
    → All (λ p. (is_nil p ≡ false) × P p) (non_empty ps)
All-non_empty P [] h = tt
All-non_empty P ([] ∷ ps) h = All-non_empty P ps h.1
All-non_empty P ((x ∷ p) ∷ ps) h = ((refl, h.0), All-non_empty P ps h.1)

pub tokens-Token : (c : ℕ) (s : Bytes) → All (Token c) (tokens c s)
tokens-Token c s = All-non_empty (Lacks c) (split c s) (split-Lacks c s)

pub render-append : (c : ℕ) (ls ms : List Bytes) → render c (ls ++ ms) ≡ render c ls ++ render c ms
unfolding render
render-append c [] ms = refl
render-append c (l ∷ ls) ms = rw (render-append c ls ms, append_assoc)

pub until_zero-Lacks : (s : Bytes) → Lacks 0 s → until_zero s ≡ s
unfolding until_zero
until_zero-Lacks [] h = refl
until_zero-Lacks (c ∷ s) h = ground (arith, until_zero-Lacks s h.1)
