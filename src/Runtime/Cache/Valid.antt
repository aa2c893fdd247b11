-- ===== src/Runtime/Cache/Valid.antt =====
-- The sizes in the table of topic caches of src/nscde_wayland_common/runtime-client.c.
use orca_cde.Prelude.{
  ℕ, suc, Bool, true, ◌&&◌, ◌||◌, some, List, [], ◌∷◌, ◌≡◌, refl, ◌∙◌, inl, inr, arith,
  if◌then◌else◌, length, modify, get_elem?, equal, ◌+◌, zero, All, All-modify, length-modify, Bytes,
  is_nil, cut, split, tokens, Bool-cases, Option-cases,
}
use orca_cde.Runtime.Buffer.Bounds.{Fits, append_all-Fits}
use orca_cde.Runtime.Buffer.{Buffer, null, append_all}
use orca_cde.Runtime.Cache.Slots.{IsEntry}
use orca_cde.Runtime.Cache.{
  TopicCache, find_active, find_inactive, find_topic_cache, claim, duplicates, keep_lines,
  remove_key, set_key, remove_keys, set_line, set_lines, merge_contents, merge_text,
  merge_topic_cache, is_snapshot, topic_cache_max,
}
use orca_cde.Runtime.Frame.{Frame}

pub record IsTable (caches : List TopicCache) : Type 0 where
  pub full_size : length caches ≡ topic_cache_max
  pub entries : All IsEntry caches

module _ (alloc : ℕ → Bool) where
  keep_lines-Fits :
      (key : Bytes) (ls : List Bytes) (result : Buffer) {r : Buffer}
      → Fits result
      → keep_lines alloc key ls result ≡ some r
      → Fits r
  unfolding keep_lines
  keep_lines-Fits key [] result f e = ground arith
  keep_lines-Fits key (l ∷ ls) result {r} f e = ground (
    arith,
    keep_lines-Fits key ls result {r = r} f,
    keep_lines-Fits key ls (append_all alloc result (l ∷ (b'\n' ∷ []) ∷ [])).1 {r = r}
        (append_all-Fits alloc result (l ∷ (b'\n' ∷ []) ∷ []) f),
  )

  remove_key-Fits : (key : Bytes) (b : Buffer) → Fits b → Fits (remove_key alloc key b).1
  unfolding remove_key
  remove_key-Fits key b f = elim (Option-cases (keep_lines alloc key (tokens b'\n' b.text) null)) [
    | inl e ↦ ground arith
    | inr (r, e) ↦
        ground (arith, keep_lines-Fits key (tokens b'\n' b.text) null {r = r} (inl (refl, refl)) e)
  ]

  set_key-Fits : (key value : Bytes) (b : Buffer) → Fits b → Fits (set_key alloc key value b).1
  unfolding set_key
  set_key-Fits key value b f =
      let kept = remove_key-Fits key b f in
      ground (
        arith,
        kept,
        append_all-Fits alloc (remove_key alloc key b).1
            (key ∷ (b'=' ∷ []) ∷ value ∷ (b'\n' ∷ []) ∷ []) kept,
      )

  remove_keys-Fits : (keys : List Bytes) (b : Buffer) → Fits b → Fits (remove_keys alloc keys b)
  unfolding remove_keys
  remove_keys-Fits [] b f = f
  remove_keys-Fits (key ∷ keys) b f =
      let rest = remove_keys-Fits keys (remove_key alloc key b).1 (remove_key-Fits key b f) in
      ground (arith, rest)

  set_line-Fits : (line : Bytes) (b : Buffer) → Fits b → Fits (set_line alloc line b)
  unfolding set_line
  set_line-Fits line b f = elim (Option-cases (cut b'=' line).1) [
    | inl e ↦ rw (e, set_line) f
    | inr (value, e) ↦ rw (e, set_line) (set_key-Fits (cut b'=' line).0 value b f)
  ]

  set_lines-Fits : (lines : List Bytes) (b : Buffer) → Fits b → Fits (set_lines alloc lines b)
  unfolding set_lines
  set_lines-Fits [] b f = f
  set_lines-Fits (line ∷ lines) b f =
      set_lines-Fits lines (set_line alloc line b) (set_line-Fits line b f)

  pub merge_contents-Fits :
      (frame : Frame) (text : Bytes) (b : Buffer)
      → Fits b
      → Fits (merge_contents alloc frame text b)
  unfolding merge_contents
  merge_contents-Fits frame text b f = elim (Bool-cases (is_snapshot frame.type || frame.reset)) [
    | inl e ↦ rw e (from null (inl (refl, refl)))
    | inr e ↦ rw e (from b f)
  ]
    where
      merge_lines :
          (b : Buffer)
          → Fits b
          → Fits (if duplicates alloc text then set_lines alloc (tokens b'\n' text) b else b)
      merge_lines b f = ground (arith, set_lines-Fits (tokens b'\n' text) b f)

      from :
          (b : Buffer)
          → Fits b
          → Fits (
              if is_nil frame.unset
              then if duplicates alloc text then set_lines alloc (tokens b'\n' text) b else b
              else if duplicates alloc frame.unset
              then (if duplicates alloc text
                  then set_lines alloc
                      (tokens b'\n' text)
                      (remove_keys alloc (split b',' frame.unset) b)
                  else remove_keys alloc (split b',' frame.unset) b)
              else b)
      from b f = ground (
        arith,
        merge_lines b f,
        merge_lines (remove_keys alloc (split b',' frame.unset) b)
            (remove_keys-Fits (split b',' frame.unset) b f),
      )

claim-IsEntry : (topic : Bytes) (c : TopicCache) → IsEntry c → IsEntry (claim topic c)
claim-IsEntry topic c v = ground arith

modify-IsTable :
    (caches : List TopicCache) (i : ℕ) (f : TopicCache → TopicCache)
    → ((c : TopicCache) → get_elem? caches i ≡ some c → IsEntry c → IsEntry (f c))
    → IsTable caches
    → IsTable (modify caches i f)
modify-IsTable caches i f k t = record {
  full_size = length-modify caches i f ∙ t.full_size;
  entries = All-modify IsEntry caches i f k t.entries;
}

find_topic_cache-IsTable :
    (caches : List TopicCache) (topic : Bytes) (create_if_missing : Bool)
    → IsTable caches
    → IsTable (find_topic_cache caches topic create_if_missing).1
unfolding find_topic_cache
find_topic_cache-IsTable caches topic create t = elim (Option-cases (find_inactive 0 caches)) [
  | inl e ↦ ground arith
  | inr (i, e) ↦
      ground (arith, modify-IsTable caches i (claim topic) (λ c _ v. claim-IsEntry topic c v) t)
]

find_active-active :
    (i : ℕ) (topic : Bytes) (cs : List TopicCache) {j : ℕ} {c : TopicCache}
    → find_active i topic cs ≡ some j
    → (k : ℕ) × (j ≡ i + k) × (get_elem? cs k ≡ some c → c.active ≡ true)
unfolding find_active
find_active-active i topic [] h = cc
find_active-active i topic (d ∷ cs) {j} {c} h =
    elim (Bool-cases (d.active && equal d.topic topic)) [
      | inl e ↦ (zero, ground arith, λ at. ground arith)
      | inr e ↦
          let (k, at, active) =
            find_active-active (suc i) topic cs {j = j} {c = c} (ground arith) in
          (suc k, omega arith, active)
    ]

claimed-active :
    (topic : Bytes) (cs : List TopicCache) (i : ℕ) {c : TopicCache}
    → get_elem? (modify cs i (claim topic)) i ≡ some c
    → c.active ≡ true
claimed-active topic [] i h = cc
claimed-active topic (d ∷ cs) zero h = ground arith
claimed-active topic (d ∷ cs) (suc i) h = claimed-active topic cs i h

-- The entry that a frame is merged into is in use.
find_topic_cache-active :
    (caches : List TopicCache) (topic : Bytes) {i : ℕ} {c : TopicCache}
    → (find_topic_cache caches topic true).0 ≡ some i
    → get_elem? (find_topic_cache caches topic true).1 i ≡ some c
    → c.active ≡ true
unfolding find_topic_cache
find_topic_cache-active caches topic {i} {c} e at =
    elim (Option-cases (find_active 0 topic caches)) [
      | inl none_yet ↦ ground (arith, claimed-active topic caches i {c = c})
      | inr (j, f) ↦
          let (k, k-is, active) = find_active-active 0 topic caches {j = j} {c = c} f in
          let same : k ≡ j = omega arith in ground arith
    ]

merge_text-IsTable :
    (alloc : ℕ → Bool) (caches : List TopicCache) (frame : Frame) (text : Bytes)
    → IsTable caches
    → IsTable (merge_text alloc caches frame text)
unfolding merge_text
merge_text-IsTable alloc caches frame text t =
    elim (Option-cases (find_topic_cache caches frame.topic true).0) [
      | inl e ↦ rw (e, merge_text) found
      | inr (i, e) ↦
          rw (e, merge_text)
            (modify-IsTable _ i
              (λ c. record c { contents = merge_contents alloc frame text c.contents })
              (λ c at v. merged_entry c (find_topic_cache-active caches frame.topic e at) v) found)
    ]
  where
    merged_entry :
        (c : TopicCache)
        → c.active ≡ true
        → IsEntry c
        → IsEntry (record c { contents = merge_contents alloc frame text c.contents })
    merged_entry c a v = record {
      idle = λ e. cc (a, e);
      short = v.short;
      fits = merge_contents-Fits alloc frame text c.contents v.fits;
    }

    found : IsTable (find_topic_cache caches frame.topic true).1
    found = find_topic_cache-IsTable caches frame.topic true t

-- Merging any frame keeps the table of topic caches valid: sixteen entries, with topics that
-- leave room for their zero, contents that fit their capacity, and no text in an entry that is
-- not in use.
pub merge_topic_cache-IsTable :
    (alloc : ℕ → Bool) (caches : List TopicCache) (frame : Frame)
    → IsTable caches
    → IsTable (merge_topic_cache alloc caches frame)
unfolding merge_topic_cache
merge_topic_cache-IsTable alloc caches frame t = elim (Option-cases frame.contents) [
  | inl e ↦ ground arith
  | inr (text, e) ↦ ground (arith, merge_text-IsTable alloc caches frame text t)
]
