-- ===== src/Runtime/Buffer/Bounds.antt =====
-- The capacity in `append_bytes` and `append_text` of src/nscde_wayland_common/runtime-client.c.
use orca_cde.Prelude.{
  ℕ, zero, suc, ◌+◌, ◌*◌, ◌≤◌, ◌<◌, Bool, true, List, [], ◌∷◌, ◌++◌, ◌≡◌, refl, ◌⊎◌, inl, inr,
  arith, ltb, ◌==◌, if◌then◌else◌, length, length-append, Bytes, append-nil, append_assoc,
  Bool-cases,
}
use orca_cde.Runtime.Buffer.{Buffer, chunk_size, grow, next_cap, append, append_bytes, append_all}

-- Either nothing was ever stored, or the text fits with its zero.
abbrev pub Fits : Buffer → Type 0
Fits b = ((b.cap ≡ 0) × (b.text ≡ [])) ⊎ (length b.text < b.cap)

grow-ge :
    (fuel required size : ℕ)
    → 0 < size
    → required ≤ fuel + size
    → required ≤ grow fuel required size
unfolding grow
grow-ge zero required size h k = omega arith
grow-ge (suc fuel) required size h k = elim (Bool-cases (ltb size required)) [
  | inl more ↦ rw (more, grow) (grow-ge fuel required (size * 2) (omega arith) (omega arith))
  | inr done ↦ rw (done, grow) (ground arith)
]

-- The doubling loop ends within its fuel: the capacity it gives is at least the one required.
pub next_cap-ge : (required size : ℕ) → required ≤ next_cap required size
unfolding next_cap
next_cap-ge required size =
    grow-ge required required (if size == 0 then chunk_size else size) (ground arith) (ground arith)

module _ (alloc : ℕ → Bool) where
  pub append-Fits : (b : Buffer) (bytes : Bytes) → Fits b → Fits (append alloc b bytes).1
  unfolding append
  append-Fits b bytes f =
      ground
        (arith, length-append b.text bytes, next_cap-ge (length b.text + length bytes + 1) b.cap)

  pub append_bytes-Fits :
      (b : Buffer) (bytes : Bytes) → Fits b → Fits (append_bytes alloc b bytes).1
  unfolding append_bytes
  append_bytes-Fits b [] f = f
  append_bytes-Fits b (x ∷ bytes) f = append-Fits b (x ∷ bytes) f

  -- Whatever the allocator answers, after a chain of appends to a buffer whose text and zero
  -- fit its capacity, or which was never allocated, they still do.
  pub append_all-Fits : (b : Buffer) (ps : List Bytes) → Fits b → Fits (append_all alloc b ps).1
  unfolding append_all
  append_all-Fits b [] f = f
  append_all-Fits b (p ∷ ps) f = elim (Bool-cases (append alloc b p).0) [
    | inl done ↦ rw done (append_all-Fits (append alloc b p).1 ps (append-Fits b p f))
    | inr failed ↦ rw failed (append-Fits b p f)
  ]

abbrev pub concat : List Bytes → Bytes
concat [] = []
concat (p ∷ ps) = p ++ concat ps

-- Every request is granted.
abbrev pub Grants : (ℕ → Bool) → Type 0
Grants alloc = (n : ℕ) → alloc n ≡ true

module _ (alloc : ℕ → Bool) (grants : Grants alloc) where
  pub append_granted :
      (b : Buffer) (bytes : Bytes)
      → ((append alloc b bytes).0 ≡ true) × ((append alloc b bytes).1.text ≡ b.text ++ bytes)
  unfolding append
  append_granted b bytes =
      ground (arith, grants (next_cap (length b.text + length bytes + 1) b.cap))

  pub append_bytes_granted :
      (b : Buffer) (bytes : Bytes)
      → ((append_bytes alloc b bytes).0 ≡ true)
        × ((append_bytes alloc b bytes).1.text ≡ b.text ++ bytes)
  unfolding append_bytes
  append_bytes_granted b [] = (refl, rw append-nil)
  append_bytes_granted b (x ∷ bytes) = append_granted b (x ∷ bytes)

  pub append_all_granted :
      (b : Buffer) (ps : List Bytes)
      → ((append_all alloc b ps).0 ≡ true) × ((append_all alloc b ps).1.text ≡ b.text ++ concat ps)
  unfolding append_all
  append_all_granted b [] = (refl, rw append-nil)
  append_all_granted b (p ∷ ps) =
      let (done, stored) = append_granted b p in
      let (rest, text) = append_all_granted (append alloc b p).1 ps in
      rw done (rest, rw (text, stored, append_assoc))
