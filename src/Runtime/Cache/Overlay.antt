-- ===== src/Runtime/Cache/Overlay.antt =====
-- The contents that `merge_topic_cache` of src/nscde_wayland_common/runtime-client.c changes, as a
-- map from keys to values.
use orca_cde.Prelude.{
  ℕ, ◌+◌, Bool, true, false, ◌&&◌, ◌||◌, Option, none, some, List, [], ◌∷◌, ◌++◌, ◌≡◌, refl, ap,
  ◌∙◌, subst, inl, inr, arith, if◌then◌else◌, or_else, or_else-none, length, All, All-snoc, Bytes,
  is_nil, equal, equal_iff, Lacks, Lacks-append, Lacks-parts, Token, tokens, tokens-Token, split,
  split-Lacks_of, cut, cut-some, cut-none, render, Bool-cases, Option-cases,
}
use orca_cde.Runtime.Buffer.Bounds.{Grants}
use orca_cde.Runtime.Buffer.{Buffer, null}
use orca_cde.Runtime.Cache.Lines.{
  line_value, value_of, without, IsKey, line_value-entry, line_value-no_equals,
  value_of-without_self, value_of-without_ne, value_of-concat, without-Token, remove_key-without,
  set_key-lines,
}
use orca_cde.Runtime.Cache.{
  remove_key, set_key, remove_keys, set_line, set_lines, is_snapshot, merge_contents,
}
use orca_cde.Runtime.Frame.{Frame}

-- The buffer stands for the map: its text is lines, and each key has the map's value.
pub record Holds (b : Buffer) (m : Bytes → Option Bytes) : Type 0 where
  pub lines : List Bytes
  pub text_is : b.text ≡ render b'\n' lines
  pub are_tokens : All (Token b'\n') lines
  pub reads : (key : Bytes) → IsKey key → value_of key lines ≡ m key

abbrev pub assign : Bytes → Option Bytes → (Bytes → Option Bytes) → Bytes → Option Bytes
assign key v m other = if equal key other then v else m other

-- The key is one of the listed keys.
unfoldable pub listed : Bytes → List Bytes → Bool
listed key [] = false
listed key (k ∷ ks) = equal k key || listed key ks

-- The value that the last of the lines gives to the key.
unfoldable pub last_value : Bytes → List Bytes → Option Bytes
unfolding line_value
last_value key [] = none
last_value key (l ∷ ls) = or_else (last_value key ls) (line_value key l)

-- What a frame with `text` makes of a map: the last assignment of the frame counts; with none, a
-- listed key is gone, a snapshot or a reset forgets the rest, and other keys keep their values.
unfoldable pub merged : Frame → Bytes → (Bytes → Option Bytes) → Bytes → Option Bytes
unfolding last_value listed
merged frame text m key = or_else (last_value key (tokens b'\n' text)) (
    if listed key (split b',' frame.unset) || (is_snapshot frame.type || frame.reset)
    then none
    else m key)

pub Holds-null : Holds null (λ key. none)
unfolding render value_of
Holds-null = record { lines = []; text_is = refl; are_tokens = tt; reads = λ key k. refl }

Holds-change :
    {b : Buffer} {m m' : Bytes → Option Bytes}
    → Holds b m
    → ((key : Bytes) → IsKey key → m key ≡ m' key)
    → Holds b m'
Holds-change h e = record {
  lines = h.lines;
  text_is = h.text_is;
  are_tokens = h.are_tokens;
  reads = λ key k. h.reads key k ∙ e key k;
}

-- The first of two tests, taken last.
if-if :
    (p q : Bool) (x : Option Bytes)
    → (if p then none else if q then none else x) ≡ (if q || p then none else x)
if-if p true x = ground arith
if-if p false x = refl

if-or :
    (p q : Bool) (x : Option Bytes)
    → (if p then none else if q then none else x) ≡ (if p || q then none else x)
if-or true q x = refl
if-or false q x = refl

is_nil-entry : (key value : Bytes) → is_nil key ≡ false → is_nil (key ++ (b'=' ∷ value)) ≡ false
is_nil-entry [] value h = cc
is_nil-entry (x ∷ key) value h = refl

module _ (alloc : ℕ → Bool) (grants : Grants alloc) where
  remove_key-Holds :
      (key : Bytes) {b : Buffer} {m : Bytes → Option Bytes}
      → IsKey key
      → Holds b m
      → Holds (remove_key alloc key b).1 (assign key none m)
  remove_key-Holds key {b} {m} k h = record {
    lines = without key h.lines;
    text_is = (remove_key-without alloc grants key h.lines b k.some_byte h.text_is h.are_tokens).1;
    are_tokens = without-Token key h.lines h.are_tokens;
    reads = λ other o. elim (Bool-cases (equal key other)) [
      | inl e ↦ rw e (
          subst (λ x. value_of x (without key h.lines) ≡ none) ((equal_iff key other).0 e)
            (value_of-without_self key h.lines))
      | inr e ↦ rw e (
          value_of-without_ne key other h.lines k.no_equals o.no_equals
            (λ p. cc (e, (equal_iff key other).1 p))
          ∙ h.reads other o)
    ];
  }

  set_key-Holds :
      (key value : Bytes) {b : Buffer} {m : Bytes → Option Bytes}
      → IsKey key
      → Lacks b'\n' key
      → Lacks b'\n' value
      → Holds b m
      → Holds (set_key alloc key value b).1 (assign key (some value) m)
  set_key-Holds key value {b} {m} k nk nv h = record {
    lines = without key h.lines ++ ((key ++ (b'=' ∷ value)) ∷ []);
    text_is = set_key-lines alloc grants key value h.lines b k.some_byte h.text_is h.are_tokens;
    are_tokens =
        All-snoc (Token b'\n') (without key h.lines) (without-Token key h.lines h.are_tokens)
          (is_nil-entry key value k.some_byte, Lacks-append b'\n' key _ nk (refl, nv));
    reads = λ other o.
        value_of-concat other (without key h.lines) (key ++ (b'=' ∷ value))
        ∙ rw (line_value-entry other key value o.no_equals k.no_equals)
            (elim (Bool-cases (equal key other)) [
              | inl e ↦ rw (
                e,
                subst (λ x. value_of x (without key h.lines) ≡ none) ((equal_iff key other).0 e)
                    (value_of-without_self key h.lines),
              )
              | inr e ↦
                  rw
                    (
                      e,
                      value_of-without_ne key other h.lines k.no_equals o.no_equals
                          (λ p. cc (e, (equal_iff key other).1 p)),
                    )
                    (or_else-none (value_of other h.lines) ∙ h.reads other o)
            ]);
  }

  set_key_no_key :
      (key value : Bytes) (b : Buffer) → is_nil key ≡ true → (set_key alloc key value b).1 ≡ b
  unfolding set_key remove_key
  set_key_no_key key value b e = rw e

  -- The map after one line of a frame.
  abbrev with_line : Bytes → (Bytes → Option Bytes) → Bytes → Option Bytes
  with_line line m key = or_else (line_value key line) (m key)

  set_line-entry :
      (line : Bytes) (b : Buffer) {value : Bytes}
      → (cut b'=' line).1 ≡ some value
      → set_line alloc line b ≡ (set_key alloc (cut b'=' line).0 value b).1
  unfolding set_line
  set_line-entry line b e = rw (e, set_line)

  set_line_skipped :
      (line : Bytes) (b : Buffer) → (cut b'=' line).1 ≡ none → set_line alloc line b ≡ b
  unfolding set_line
  set_line_skipped line b e = rw (e, set_line)

  with_line-entry :
      (line key value : Bytes) (m : Bytes → Option Bytes)
      → line ≡ key ++ (b'=' ∷ value)
      → Lacks b'=' key
      → (other : Bytes) → IsKey other
      → assign key (some value) m other ≡ with_line line m other
  with_line-entry line key value m e k other o =
      rw (e, line_value-entry other key value o.no_equals k) (split_test (equal key other))
    where
      split_test :
          (t : Bool)
          → (if t then some value else m other) ≡ or_else (if t then some value else none) (m other)
      split_test true = refl
      split_test false = refl

  no_key :
      (other key value : Bytes) (m : Bytes → Option Bytes)
      → IsKey other
      → is_nil key ≡ true
      → m other ≡ assign key (some value) m other
  unfolding equal
  no_key [] key value m o e = cc o.some_byte
  no_key (x ∷ other) [] value m o e = refl
  no_key (x ∷ other) (y ∷ key) value m o e = cc

  set_line-Holds :
      (line : Bytes) {b : Buffer} {m : Bytes → Option Bytes}
      → Lacks b'\n' line
      → Holds b m
      → Holds (set_line alloc line b) (with_line line m)
  set_line-Holds line {b} {m} n h = elim (Option-cases (cut b'=' line).1) [
    | inl e ↦
        rw (set_line_skipped line b e)
          (Holds-change h (λ key k. rw (line_value-no_equals key line (cut-none b'=' line e))))
    | inr (value, e) ↦
        entry (cut b'=' line).0 value (set_line-entry line b e) (cut-some b'=' line e)
  ]
    where
      entry :
          (key value : Bytes)
          → set_line alloc line b ≡ (set_key alloc key value b).1
          → (line ≡ key ++ (b'=' ∷ value)) × Lacks b'=' key
          → Holds (set_line alloc line b) (with_line line m)
      entry key value s (e, k) =
          let (nk, nv) = Lacks-parts b'\n' key (b'=' ∷ value) (rw e at n) in
          elim (Bool-cases (is_nil key)) [
            | inl none_left ↦
                rw (s, set_key_no_key key value b none_left)
                  (Holds-change h (λ other o.
                    no_key other key value m o none_left
                    ∙ with_line-entry line key value m e k other o))
            | inr present ↦
                let word : IsKey key = record { some_byte = present; no_equals = k } in
                rw s (
                  Holds-change (set_key-Holds key value word nk nv.1 h)
                    (with_line-entry line key value m e k))
          ]

  or_else_assoc : (a b c : Option Bytes) → or_else a (or_else b c) ≡ or_else (or_else a b) c
  or_else_assoc none b c = refl
  or_else_assoc (some x) b c = refl

  set_lines-Holds :
      (lines : List Bytes) {b : Buffer} {m : Bytes → Option Bytes}
      → All (Token b'\n') lines
      → Holds b m
      → Holds (set_lines alloc lines b) (λ key. or_else (last_value key lines) (m key))
  unfolding set_lines last_value
  set_lines-Holds [] t h = h
  set_lines-Holds (line ∷ lines) {m = m} t h =
      Holds-change (set_lines-Holds lines t.1 (set_line-Holds line t.0.1 h))
        (λ key k. or_else_assoc (last_value key lines) (line_value key line) (m key))

  equal_no_key : (other key : Bytes) → IsKey other → is_nil key ≡ true → equal key other ≡ false
  unfolding equal
  equal_no_key [] key o e = cc o.some_byte
  equal_no_key (x ∷ other) [] o e = refl
  equal_no_key (x ∷ other) (y ∷ key) o e = cc

  remove_key_no_key :
      (key : Bytes) (b : Buffer) → is_nil key ≡ true → (remove_key alloc key b).1 ≡ b
  unfolding remove_key
  remove_key_no_key key b e = rw e

  remove_keys-cons :
      (key : Bytes) (keys : List Bytes) (b : Buffer)
      → remove_keys alloc (key ∷ keys) b ≡ (
          if is_nil key && is_nil keys
          then b
          else remove_keys alloc keys (remove_key alloc key b).1)
  unfolding remove_keys
  remove_keys-cons key keys b = ground (arith, grants (length key + 1))

  -- An empty token ends the list at its end, and is no key elsewhere.
  remove_keys_no_key :
      (key : Bytes) (keys : List Bytes) (b : Buffer)
      → is_nil key ≡ true
      → remove_keys alloc (key ∷ keys) b ≡ remove_keys alloc keys b
  unfolding remove_keys
  remove_keys_no_key key [] b e = rw (remove_keys-cons key [] b, e)
  remove_keys_no_key key (k ∷ keys) b e =
      rw (remove_keys-cons key (k ∷ keys) b, e, remove_key_no_key key b e)

  remove_keys-Holds :
      (keys : List Bytes) {b : Buffer} {m : Bytes → Option Bytes}
      → All (Lacks b'=') keys
      → Holds b m
      → Holds (remove_keys alloc keys b) (λ key. if listed key keys then none else m key)
  unfolding listed
  remove_keys-Holds [] t h = unfold remove_keys in h
  remove_keys-Holds (key ∷ keys) {b} {m} t h = elim (Bool-cases (is_nil key)) [
    | inl e ↦
        rw (remove_keys_no_key key keys b e)
          (Holds-change (remove_keys-Holds keys t.1 h) (λ other o. rw (equal_no_key other key o e)))
    | inr e ↦
        rw (remove_keys-cons key keys b, e)
          (Holds-change
            (remove_keys-Holds keys t.1
              (remove_key-Holds key (record { some_byte = e; no_equals = t.0 }) h))
            (λ other o. if-if (listed other keys) (equal key other) (m other)))
  ]

  started : Frame → Buffer → Buffer
  started frame b = if is_snapshot frame.type || frame.reset then null else b

  started-Holds :
      (frame : Frame) {b : Buffer} {m : Bytes → Option Bytes}
      → Holds b m
      → Holds
          (started frame b)
          (λ key. if is_snapshot frame.type || frame.reset then none else m key)
  unfolding started
  started-Holds frame h = elim (Bool-cases (is_snapshot frame.type || frame.reset)) [
    | inl e ↦ rw e Holds-null
    | inr e ↦ rw e h
  ]

  merge_contents-started :
      (frame : Frame) (text : Bytes) (b : Buffer)
      → merge_contents alloc frame text b
        ≡ set_lines alloc (tokens b'\n' text) (
            if is_nil frame.unset
            then started frame b
            else remove_keys alloc (split b',' frame.unset) (started frame b))
  unfolding merge_contents started
  merge_contents-started frame text b = elim (Bool-cases (is_nil frame.unset)) [
    | inl e ↦ rw (e, grants)
    | inr e ↦ rw (e, grants, grants)
  ]

  listed_nothing : (key s : Bytes) → IsKey key → is_nil s ≡ true → listed key (split b',' s) ≡ false
  unfolding listed split
  listed_nothing key [] k e = rw (equal_no_key key [] k refl)
  listed_nothing key (x ∷ s) k e = cc

  unset-Holds :
      (frame : Frame) {b : Buffer} {m : Bytes → Option Bytes}
      → Lacks b'=' frame.unset
      → Holds b m
      → Holds
          (if is_nil frame.unset then b else remove_keys alloc (split b',' frame.unset) b)
          (λ key. if listed key (split b',' frame.unset) then none else m key)
  unset-Holds frame n h = elim (Bool-cases (is_nil frame.unset)) [
    | inl e ↦ rw e (Holds-change h (λ key k. rw (listed_nothing key frame.unset k e)))
    | inr e ↦ rw e (remove_keys-Holds (split b',' frame.unset) (split-Lacks_of b',' b'=' _ n) h)
  ]

  -- Where memory is granted and the frame's unset list has no equals sign, merging a frame into
  -- contents that stand for a map gives contents that stand for the map of the specification: a
  -- key has the value of the last of the frame's lines that gives it one, else none if it is in
  -- the unset list, or if the frame is a snapshot or a reset, else the value it had.
  pub merge_contents-Holds :
      (frame : Frame) (text : Bytes) {b : Buffer} {m : Bytes → Option Bytes}
      → Lacks b'=' frame.unset
      → Holds b m
      → Holds (merge_contents alloc frame text b) (merged frame text m)
  unfolding merged
  merge_contents-Holds frame text {b} {m} n h = rw (merge_contents-started frame text b) (
      Holds-change
        (set_lines-Holds (tokens b'\n' text) (tokens-Token b'\n' text)
          (unset-Holds frame n (started-Holds frame h)))
        (λ key k. ap (or_else (last_value key (tokens b'\n' text))) (
          if-or (listed key (split b',' frame.unset)) (is_snapshot frame.type || frame.reset)
            (m key))))
