-- ===== src/Runtime/Buffer.antt =====
-- Growing text buffers: `append_bytes` and `append_text` of
-- src/nscde_wayland_common/runtime-client.c. A buffer is its text, without the closing zero, and
-- its capacity; the capacity is 0 exactly where the C pointer is NULL.
pub mod Bounds
use orca_cde.Prelude.{
  ℕ, zero, suc, ◌+◌, ◌*◌, Bool, true, false, List, [], ◌∷◌, ◌++◌, ltb, ◌==◌, if◌then◌else◌, length,
  Bytes,
}

pub record Buffer : Type 0 where
  pub text : Bytes
  pub cap : ℕ

-- FRAME_CHUNK_SIZE
abbrev pub chunk_size : ℕ
chunk_size = 4096

abbrev pub null : Buffer
null = record { text = []; cap = 0 }

-- `while (required > next_cap) next_cap *= 2`, on fuel.
unfoldable pub grow : ℕ → ℕ → ℕ → ℕ
grow zero required size = size
grow (suc fuel) required size = elim (ltb size required) [
  | true ↦ grow fuel required (size * 2)
  | false ↦ size
]

-- The capacity that a text of `required` bytes, the zero among them, is given.
unfoldable pub next_cap : ℕ → ℕ → ℕ
next_cap required size = grow required required (if size == 0 then chunk_size else size)

-- `alloc n` tells whether a request for `n` bytes is granted.
module _ (alloc : ℕ → Bool) where
  unfoldable pub append : Buffer → Bytes → Bool × Buffer
  append b bytes =
      let required = length b.text + length bytes + 1 in
      let grown = next_cap required b.cap in
      let fitted : Buffer = record { text = b.text ++ bytes; cap = b.cap } in
      if ltb b.cap required
      then if alloc grown
        then (true, record { text = b.text ++ bytes; cap = grown })
        else (false, b)
      else (true, fitted)

  -- `append_bytes` returns early on nothing to append.
  unfoldable pub append_bytes : Buffer → Bytes → Bool × Buffer
  append_bytes b [] = (true, b)
  append_bytes b (x ∷ bytes) = append b (x ∷ bytes)

  -- A chain of `append_text` calls joined by `||`: it stops at the first that fails.
  unfoldable pub append_all : Buffer → List Bytes → Bool × Buffer
  append_all b [] = (true, b)
  append_all b (p ∷ ps) =
      let (done, b') = append b p in
      let rest = append_all b' ps in if done then rest else (false, b')
