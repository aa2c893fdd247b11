-- ===== src/Runtime/Cache/Lines.antt =====
-- The text of a cache of src/nscde_wayland_common/runtime-client.c as lines, and the map from keys
-- to values that the lines stand for.
use orca_cde.Prelude.{
  ℕ, Bool, true, false, Option, none, some, List, [], ◌∷◌, ◌++◌, ◌≡◌, refl, sym, ◌∙◌, ◌≢◌, inl, inr,
  arith, ◌==◌, if◌then◌else◌, append_assoc, append-nil, or_else, or_else-none, All, Bytes, is_nil,
  equal, Lacks, Token, tokens, tokens-render, render, render-append, Bool-cases,
}
use orca_cde.Runtime.Buffer.Bounds.{Grants, append_all_granted}
use orca_cde.Runtime.Buffer.{Buffer, null, append_all}
use orca_cde.Runtime.Cache.{has_key, keep_lines, remove_key, set_key}

-- What stands behind `key=`, if the line begins so.
unfoldable pub line_value : Bytes → Bytes → Option Bytes
line_value [] [] = none
line_value [] (c ∷ line) = if c == b'=' then some line else none
line_value (k ∷ key) [] = none
line_value (k ∷ key) (c ∷ line) = if k == c then line_value key line else none

-- The value in the first line of the key.
unfoldable pub value_of : Bytes → List Bytes → Option Bytes
unfolding line_value
value_of key [] = none
value_of key (l ∷ ls) = or_else (line_value key l) (value_of key ls)

pub without : Bytes → List Bytes → List Bytes
without key [] = []
without key (l ∷ ls) = let rest = without key ls in if has_key key l then rest else l ∷ rest

-- Keys are the words before an equals sign.
pub record IsKey (key : Bytes) : Type 0 where
  pub some_byte : is_nil key ≡ false
  pub no_equals : Lacks b'=' key

line_value-not_key : (key l : Bytes) → has_key key l ≡ false → line_value key l ≡ none
unfolding has_key line_value
line_value-not_key [] [] h = refl
line_value-not_key [] (c ∷ l) h = ground arith
line_value-not_key (k ∷ key) [] h = refl
line_value-not_key (k ∷ key) (c ∷ l) h = ground (arith, line_value-not_key key l)

line_value-other :
    (key other l : Bytes)
    → Lacks b'=' key
    → Lacks b'=' other
    → has_key key l ≡ true
    → key ≢ other
    → line_value other l ≡ none
unfolding has_key line_value
line_value-other [] [] l hk ho h ne = absurd (ne refl)
line_value-other [] (o ∷ other) [] hk ho h ne = refl
line_value-other [] (o ∷ other) (c ∷ l) hk ho h ne = ground arith
line_value-other (k ∷ key) [] [] hk ho h ne = refl
line_value-other (k ∷ key) [] (c ∷ l) hk ho h ne = ground arith
line_value-other (k ∷ key) (o ∷ other) [] hk ho h ne = refl
line_value-other (k ∷ key) (o ∷ other) (c ∷ l) hk ho h ne =
    ground (arith, line_value-other key other l hk.1 ho.1)

-- A line that is written `other=value`, read for `key`.
pub line_value-entry :
    (key other value : Bytes)
    → Lacks b'=' key
    → Lacks b'=' other
    → line_value key (other ++ (b'=' ∷ value)) ≡ (if equal other key then some value else none)
unfolding line_value equal
line_value-entry [] [] value hk ho = refl
line_value-entry [] (o ∷ other) value hk ho = ground arith
line_value-entry (k ∷ key) [] value hk ho = ground arith
line_value-entry (k ∷ key) (o ∷ other) value hk ho =
    ground (arith, line_value-entry key other value hk.1 ho.1)

pub line_value-no_equals : (key l : Bytes) → Lacks b'=' l → line_value key l ≡ none
unfolding line_value
line_value-no_equals [] [] h = refl
line_value-no_equals [] (c ∷ l) h = ground arith
line_value-no_equals (k ∷ key) [] h = refl
line_value-no_equals (k ∷ key) (c ∷ l) h = ground (arith, line_value-no_equals key l h.1)

pub value_of-without_self : (key : Bytes) (ls : List Bytes) → value_of key (without key ls) ≡ none
unfolding without value_of
value_of-without_self key [] = refl
value_of-without_self key (l ∷ ls) =
    ground (arith, line_value-not_key key l, value_of-without_self key ls)

pub value_of-without_ne :
    (key other : Bytes) (ls : List Bytes)
    → Lacks b'=' key
    → Lacks b'=' other
    → key ≢ other
    → value_of other (without key ls) ≡ value_of other ls
unfolding without value_of
value_of-without_ne key other [] hk ho ne = refl
value_of-without_ne key other (l ∷ ls) hk ho ne =
    ground (arith, line_value-other key other l hk ho, value_of-without_ne key other ls hk ho ne)

pub value_of-concat :
    (key : Bytes) (ls : List Bytes) (l : Bytes)
    → value_of key (ls ++ (l ∷ [])) ≡ or_else (value_of key ls) (line_value key l)
unfolding value_of
value_of-concat key [] l = or_else-none (line_value key l)
value_of-concat key (m ∷ ls) l = ground (arith, value_of-concat key ls l)

pub without-Token :
    (key : Bytes) (ls : List Bytes) → All (Token b'\n') ls → All (Token b'\n') (without key ls)
unfolding without
without-Token key [] h = tt
without-Token key (l ∷ ls) h = elim (Bool-cases (has_key key l)) [
  | inl e ↦ rw (e, without) (without-Token key ls h.1)
  | inr e ↦ rw (e, without) (h.0, without-Token key ls h.1)
]

is_nil-render : (ls : List Bytes) → All (Token b'\n') ls → is_nil (render b'\n' ls) ≡ true → ls ≡ []
unfolding render
is_nil-render [] h e = refl
is_nil-render ([] ∷ ls) h e = cc (h.0.0)
is_nil-render ((x ∷ l) ∷ ls) h e = cc

module _ (alloc : ℕ → Bool) (grants : Grants alloc) where
  keep_lines-without :
      (key : Bytes) (ls : List Bytes) (result : Buffer)
      → (r : Buffer) × (keep_lines alloc key ls result ≡ some r)
        × (r.text ≡ result.text ++ render b'\n' (without key ls))
  unfolding keep_lines without render
  keep_lines-without key [] result = (result, refl, sym (append-nil result.text))
  keep_lines-without key (l ∷ ls) result = elim (Bool-cases (has_key key l)) [
    | inl e ↦
        let (r, found, text) = keep_lines-without key ls result in
        (r, rw (e, keep_lines) found, rw (e, without) text)
    | inr e ↦
        let (done, stored) = append_all_granted alloc grants result (l ∷ (b'\n' ∷ []) ∷ []) in
        let result' = (append_all alloc result (l ∷ (b'\n' ∷ []) ∷ [])).1 in
        let (r, found, text) = keep_lines-without key ls result' in
        (
          r,
          rw (e, done, keep_lines) found,
          rw (e, without) (text ∙ rw (stored, append_assoc, append_assoc)),
        )
  ]

  remove_key_empty :
      (key : Bytes) (b : Buffer)
      → is_nil key ≡ false
      → is_nil b.text ≡ true
      → remove_key alloc key b ≡ (true, b)
  unfolding remove_key
  remove_key_empty key b k e = rw (k, e)

  remove_key_rebuilt :
      (key : Bytes) (b : Buffer) {r : Buffer}
      → is_nil key ≡ false
      → is_nil b.text ≡ false
      → keep_lines alloc key (tokens b'\n' b.text) null ≡ some r
      → remove_key alloc key b ≡ (true, r)
  unfolding remove_key
  remove_key_rebuilt key b k e found = rw (k, e, grants, found)

  -- Removing a key leaves the other lines in order.
  pub remove_key-without :
      (key : Bytes) (ls : List Bytes) (b : Buffer)
      → is_nil key ≡ false
      → b.text ≡ render b'\n' ls
      → All (Token b'\n') ls
      → ((remove_key alloc key b).0 ≡ true)
        × ((remove_key alloc key b).1.text ≡ render b'\n' (without key ls))
  remove_key-without key ls b k e h = elim (Bool-cases (is_nil b.text)) [
    | inl empty ↦
        let none_left : ls ≡ [] = is_nil-render ls h (rw e at empty) in
        let nothing : b.text ≡ render b'\n' (without key ls) =
          e ∙ rw none_left (unfold without in refl) in
        rw (remove_key_empty key b k empty) (refl, nothing)
    | inr full ↦
        let read : tokens b'\n' b.text ≡ ls = rw e (tokens-render b'\n' ls h) in
        let (r, found, text) = keep_lines-without key ls null in
        rw (remove_key_rebuilt key b {r = r} k full (rw read found)) (refl, text)
  ]

  pub set_key-lines :
      (key value : Bytes) (ls : List Bytes) (b : Buffer)
      → is_nil key ≡ false
      → b.text ≡ render b'\n' ls
      → All (Token b'\n') ls
      → (set_key alloc key value b).1.text
        ≡ render b'\n' (without key ls ++ ((key ++ (b'=' ∷ value)) ∷ []))
  unfolding set_key render
  set_key-lines key value ls b k e h =
      let (removed, text) = remove_key-without key ls b k e h in
      let (_, stored) =
        append_all_granted alloc grants (remove_key alloc key b).1
          (key ∷ (b'=' ∷ []) ∷ value ∷ (b'\n' ∷ []) ∷ []) in
      rw (removed) (stored ∙ rw (text, render-append) (rw append_assoc))
