-- ===== src/Runtime/Cache/Slots.antt =====
-- The table of topic caches and its entries: `find_topic_cache` and `merge_topic_cache` of
-- src/nscde_wayland_common/runtime-client.c.
use orca_cde.Prelude.{
  ℕ, zero, suc, ◌+◌, ◌<◌, Bool, true, false, ◌&&◌, Option, none, some, List, [], ◌∷◌, ◌≡◌, refl, ap,
  ◌∙◌, ◌≢◌, ◌⊎◌, inl, inr, arith, if◌then◌else◌, length, get_elem?, modify, modify-modify, All,
  Bytes, is_nil, equal, equal_iff, Bool-cases, Option-cases,
}
use orca_cde.Runtime.Buffer.Bounds.{Fits}
use orca_cde.Runtime.Buffer.{Buffer, null}
use orca_cde.Runtime.Cache.{
  TopicCache, find_active, find_inactive, find_topic_cache, claim, merge_contents, merge_text,
  merge_topic_cache,
}
use orca_cde.Runtime.Frame.{Frame, field_len}

-- The contents kept for a topic.
unfoldable pub cache_of : Bytes → List TopicCache → Option Buffer
cache_of topic [] = none
cache_of topic (c ∷ cs) =
    if c.active && equal c.topic topic then some c.contents else cache_of topic cs

-- Some entry is not in use.
unfoldable pub has_room : List TopicCache → Bool
has_room [] = false
has_room (c ∷ cs) = if c.active then has_room cs else true

-- An entry that is not in use holds no text, and a topic leaves room for its zero.
pub record IsEntry (c : TopicCache) : Type 0 where
  pub idle : c.active ≡ false → c.contents ≡ null
  pub short : length c.topic < field_len
  pub fits : Fits c.contents

abbrev put : (Buffer → Buffer) → TopicCache → TopicCache
put g c = record c { contents = g c.contents }

abbrev mapped : (Buffer → Buffer) → Option Buffer → Option Buffer
mapped g none = none
mapped g (some b) = some (g b)

find_inactive_room :
    (i : ℕ) (cs : List TopicCache) → has_room cs ≡ false → find_inactive i cs ≡ none
unfolding find_inactive has_room
find_inactive_room i [] h = refl
find_inactive_room i (c ∷ cs) h = ground (arith, find_inactive_room (suc i) cs)

module _ (topic : Bytes) where
  find_active-none :
      (i : ℕ) (cs : List TopicCache) → find_active i topic cs ≡ none → cache_of topic cs ≡ none
  unfolding find_active cache_of
  find_active-none i [] h = refl
  find_active-none i (c ∷ cs) h = ground (arith, find_active-none (suc i) cs)

  find_active-some :
      (i : ℕ) (cs : List TopicCache) (g : Buffer → Buffer) {j : ℕ}
      → find_active i topic cs ≡ some j
      → (k : ℕ) × (j ≡ i + k)
        × (b : Buffer) × (cache_of topic cs ≡ some b)
        × (cache_of topic (modify cs k (put g)) ≡ some (g b))
        × ((other : Bytes)
            → other ≢ topic
            → cache_of other (modify cs k (put g)) ≡ cache_of other cs)
  unfolding find_active cache_of
  find_active-some i [] g h = cc
  find_active-some i (c ∷ cs) g {j} h = elim (Bool-cases (c.active && equal c.topic topic)) [
    | inl e ↦ (
      zero,
      ground arith,
      c.contents,
      rw e,
      rw e,
      λ other ne. ground (arith, equal_iff c.topic topic, equal_iff c.topic other),
    )
    | inr e ↦
        let (k, at, b, found, after, others) =
          find_active-some (suc i) cs g {j = j} (ground arith) in
        (suc k, omega arith, b, rw e found, rw e after, λ other ne. ground (arith, others other ne))
  ]

  pub find_active-get :
      (i : ℕ) (cs : List TopicCache) {b : Buffer}
      → cache_of topic cs ≡ some b
      → (k : ℕ) × (find_active i topic cs ≡ some (i + k))
        × (c : TopicCache) × (get_elem? cs k ≡ some c)
        × (c.contents ≡ b)
  unfolding find_active cache_of
  find_active-get i [] h = cc
  find_active-get i (c ∷ cs) {b} h = elim (Bool-cases (c.active && equal c.topic topic)) [
    | inl e ↦ (zero, rw e (ap some (omega arith)), c, refl, ground arith)
    | inr e ↦
        let (k, found, d, at, holds) = find_active-get (suc i) cs {b = b} (rw e at h) in
        (suc k, rw e (found ∙ ap some (omega arith)), d, at, holds)
  ]

  abbrev renew : (Buffer → Buffer) → TopicCache → TopicCache
  renew g c = put g (claim topic c)

  find_inactive-none :
      (i : ℕ) (cs : List TopicCache) → find_inactive i cs ≡ none → has_room cs ≡ false
  unfolding find_inactive has_room
  find_inactive-none i [] h = refl
  find_inactive-none i (c ∷ cs) h = ground (arith, find_inactive-none (suc i) cs)

  find_inactive-some :
      (i : ℕ) (cs : List TopicCache) (g : Buffer → Buffer) {j : ℕ}
      → All IsEntry cs
      → length topic < field_len
      → cache_of topic cs ≡ none
      → find_inactive i cs ≡ some j
      → (k : ℕ) × (j ≡ i + k)
        × (cache_of topic (modify cs k (renew g)) ≡ some (g null))
        × ((other : Bytes)
            → other ≢ topic
            → cache_of other (modify cs k (renew g)) ≡ cache_of other cs)
  unfolding find_inactive cache_of
  find_inactive-some i [] g v t n h = cc
  find_inactive-some i (c ∷ cs) g {j} v t n h = elim (Bool-cases c.active) [
    | inl e ↦
        let (k, at, after, others) =
          find_inactive-some (suc i) cs g {j = j} v.1 t (ground arith) (rw e at h) in
        (suc k, omega arith, ground arith, λ other ne. ground (arith, others other ne))
    | inr e ↦ (
      zero,
      ground arith,
      ground (arith, v.0.idle e, equal_iff topic topic),
      λ other ne. ground (arith, equal_iff topic other),
    )
  ]

find-active_eq :
    (caches : List TopicCache) (topic : Bytes) {i : ℕ}
    → is_nil topic ≡ false
    → find_active 0 topic caches ≡ some i
    → find_topic_cache caches topic true ≡ (some i, caches)
unfolding find_topic_cache
find-active_eq caches topic n e = rw (n, e)

find-inactive_eq :
    (caches : List TopicCache) (topic : Bytes) {i : ℕ}
    → is_nil topic ≡ false
    → find_active 0 topic caches ≡ none
    → find_inactive 0 caches ≡ some i
    → find_topic_cache caches topic true ≡ (some i, modify caches i (claim topic))
unfolding find_topic_cache
find-inactive_eq caches topic n e r = rw (n, e, r)

find-full_eq :
    (caches : List TopicCache) (topic : Bytes)
    → is_nil topic ≡ false
    → find_active 0 topic caches ≡ none
    → find_inactive 0 caches ≡ none
    → find_topic_cache caches topic true ≡ (none, caches)
unfolding find_topic_cache
find-full_eq caches topic n e r = rw (n, e, r)

abbrev pub held_or_null : Option Buffer → Buffer
held_or_null none = null
held_or_null (some b) = b

module _ (alloc : ℕ → Bool) (caches : List TopicCache) (frame : Frame) (text : Bytes) where
  merge-active :
      {i : ℕ}
      → is_nil frame.topic ≡ false
      → find_active 0 frame.topic caches ≡ some i
      → merge_text alloc caches frame text ≡ modify caches i (put (merge_contents alloc frame text))
  unfolding merge_text
  merge-active n e =
      rw (find-active_eq caches frame.topic n e, merge_text)
        (rw (find-active_eq caches frame.topic n e))

  merge-inactive :
      {i : ℕ}
      → is_nil frame.topic ≡ false
      → find_active 0 frame.topic caches ≡ none
      → find_inactive 0 caches ≡ some i
      → merge_text alloc caches frame text
        ≡ modify (modify caches i (claim frame.topic)) i (put (merge_contents alloc frame text))
  unfolding merge_text
  merge-inactive n e r =
      rw (find-inactive_eq caches frame.topic n e r, merge_text)
        (rw (find-inactive_eq caches frame.topic n e r))

  merge-full :
      is_nil frame.topic ≡ false
      → find_active 0 frame.topic caches ≡ none
      → find_inactive 0 caches ≡ none
      → merge_text alloc caches frame text ≡ caches
  unfolding merge_text
  merge-full n e r =
      rw (find-full_eq caches frame.topic n e r, merge_text)
        (rw (find-full_eq caches frame.topic n e r))

  merge_topic_cache_lem :
      frame.contents ≡ some text
      → is_nil frame.topic ≡ false
      → merge_topic_cache alloc caches frame ≡ merge_text alloc caches frame text
  unfolding merge_topic_cache
  merge_topic_cache_lem c n = ground arith

  -- A frame with contents and a topic that is not empty and shorter than
  -- NSCDE_RUNTIME_FIELD_LEN, with valid entries and an entry or room for its topic, is merged
  -- into the contents kept for the topic, empty ones if there were none, and every other topic
  -- keeps its contents.
  pub merge_topic_cache-cache_of :
      frame.contents ≡ some text
      → is_nil frame.topic ≡ false
      → length frame.topic < field_len
      → All IsEntry caches
      → (cache_of frame.topic caches ≢ none) ⊎ (has_room caches ≡ true)
      → (cache_of frame.topic (merge_topic_cache alloc caches frame)
          ≡ some (merge_contents alloc frame text (held_or_null (cache_of frame.topic caches))))
        × ((other : Bytes)
            → other ≢ frame.topic
            → cache_of other (merge_topic_cache alloc caches frame) ≡ cache_of other caches)
  merge_topic_cache-cache_of c n t v room =
      let g = merge_contents alloc frame text in
      elim (Option-cases (find_active 0 frame.topic caches)) [
        | inr (i, e) ↦
            let (k, at, b, found, after, others) = find_active-some frame.topic 0 caches g e in
            let k-is : k ≡ i = omega arith in
            rw (merge_topic_cache_lem c n, merge-active n e, ← k-is) (after ∙ rw found, others)
        | inl e ↦ elim (Option-cases (find_inactive 0 caches)) [
          | inr (i, r) ↦
              let absent = find_active-none frame.topic 0 caches e in
              let (k, at, after, others) = find_inactive-some frame.topic 0 caches g v t absent r in
              let k-is : k ≡ i = omega arith in
              rw (merge_topic_cache_lem c n, merge-inactive n e r, ← k-is, modify-modify)
                (after ∙ rw absent, others)
          | inl r ↦ absurd (
              no_room (find_active-none frame.topic 0 caches e)
                (find_inactive-none frame.topic 0 caches r) room)
        ]
      ]
    where
      no_room :
          cache_of frame.topic caches ≡ none
          → has_room caches ≡ false
          → (cache_of frame.topic caches ≢ none) ⊎ (has_room caches ≡ true)
          → ⊥
      no_room absent full (inl h) = h absent
      no_room absent full (inr h) = cc

  -- With every entry of the table in use, a frame with contents whose topic is not empty and
  -- has no entry changes nothing.
  pub merge_topic_cache_full :
      frame.contents ≡ some text
      → is_nil frame.topic ≡ false
      → cache_of frame.topic caches ≡ none
      → has_room caches ≡ false
      → merge_topic_cache alloc caches frame ≡ caches
  merge_topic_cache_full c n absent full = elim (Option-cases (find_active 0 frame.topic caches)) [
    | inl e ↦ elim (Option-cases (find_inactive 0 caches)) [
      | inl r ↦ merge_topic_cache_lem c n ∙ merge-full n e r
      | inr (i, r) ↦ cc (find_inactive_room 0 caches full, r)
    ]
    | inr (i, e) ↦
        let (k, at, b, found, _, _) = find_active-some frame.topic 0 caches (λ x. x) e in
        cc (found, absent)
  ]
