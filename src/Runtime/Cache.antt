-- ===== src/Runtime/Cache.antt =====
-- The topic caches: `find_topic_cache`, `topic_cache_remove_key`, `topic_cache_set_key`,
-- `split_csv_token` and `merge_topic_cache` of src/nscde_wayland_common/runtime-client.c.
-- The text of a cache is lines `key=value` in one growing buffer.
pub mod Slots
pub mod Lines
pub mod Overlay
pub mod Valid
use orca_cde.Prelude.{
  ℕ, zero, suc, ◌+◌, Bool, true, false, ◌&&◌, ◌||◌, Option, none, some, List, [], ◌∷◌, ltb, ◌==◌,
  if◌then◌else◌, length, get_elem?, modify, Bytes, is_nil, equal, cut, split, tokens,
}
use orca_cde.Runtime.Buffer.{Buffer, null, append_all}
use orca_cde.Runtime.Frame.{Frame, FrameType, snapshot, field_len}

-- `struct nscde_runtime_topic_cache_entry`
pub record TopicCache : Type 0 where
  pub topic : Bytes
  pub contents : Buffer
  pub active : Bool

-- An unused entry, as `nscde_runtime_subscription_init` and `..._close` leave it.
abbrev pub unused : TopicCache
unused = record { topic = []; contents = null; active = false }

-- NSCDE_RUNTIME_TOPIC_CACHE_MAX
abbrev pub topic_cache_max : ℕ
topic_cache_max = 16

-- The first entry from index `i` on that is active and has the topic.
pub find_active : ℕ → Bytes → List TopicCache → Option ℕ
find_active i topic [] = none
find_active i topic (c ∷ cs) =
    if c.active && equal c.topic topic then some i else find_active (suc i) topic cs

-- The first entry from index `i` on that is not active.
pub find_inactive : ℕ → List TopicCache → Option ℕ
find_inactive i [] = none
find_inactive i (c ∷ cs) = if c.active then find_inactive (suc i) cs else some i

-- `copy_text` leaves the destination alone where the source does not fit.
abbrev pub copy_text : Bytes → Bytes → Bytes
copy_text old src = if ltb (length src) field_len then src else old

abbrev pub claim : Bytes → TopicCache → TopicCache
claim topic c = record c { active = true; topic = copy_text c.topic topic }

-- The entry's index, and the entries, of which one may have been claimed for the topic.
unfoldable pub find_topic_cache : List TopicCache → Bytes → Bool → Option ℕ × List TopicCache
unfolding find_active find_inactive
find_topic_cache caches topic create_if_missing =
    if is_nil topic then (none, caches) else elim (find_active 0 topic caches) [
      | some i ↦ (some i, caches)
      | none ↦
          if create_if_missing
          then elim (find_inactive 0 caches) [
            | some i ↦ (some i, modify caches i (claim topic))
            | none ↦ (none, caches)
          ]
          else (none, caches)
    ]

-- `!strncmp(line, key, key_len) && line[key_len] == '='`
unfoldable pub has_key : Bytes → Bytes → Bool
has_key [] [] = false
has_key [] (c ∷ line) = c == b'='
has_key (k ∷ key) [] = false
has_key (k ∷ key) (c ∷ line) = k == c && has_key key line

-- `string_duplicate` asks for the text and its zero.
abbrev pub duplicates : (ℕ → Bool) → Bytes → Bool
duplicates alloc text = alloc (length text + 1)

abbrev pub is_snapshot : FrameType → Bool
is_snapshot snapshot = true
is_snapshot _ = false

module _ (alloc : ℕ → Bool) where
  -- The lines without those of the key, appended to `result`; `none` where memory ran out.
  pub keep_lines : Bytes → List Bytes → Buffer → Option Buffer
  keep_lines key [] result = some result
  keep_lines key (l ∷ ls) result =
      let skipped = keep_lines key ls result in
      let (done, result') = append_all alloc result (l ∷ (b'\n' ∷ []) ∷ []) in
      let kept = keep_lines key ls result' in
      if has_key key l then skipped else if done then kept else none

  pub remove_key : Bytes → Buffer → Bool × Buffer
  remove_key key contents =
      if is_nil key
      then (false, contents)
      else if is_nil contents.text
      then (true, contents)
      else if duplicates alloc contents.text
      then elim (keep_lines key (tokens b'\n' contents.text) null) [
        | some result ↦ (true, result)
        | none ↦ (false, contents)
      ]
      else (false, contents)

  pub set_key : Bytes → Bytes → Buffer → Bool × Buffer
  set_key key value contents =
      let (removed, contents') = remove_key key contents in
      if removed
      then append_all alloc contents' (key ∷ (b'=' ∷ []) ∷ value ∷ (b'\n' ∷ []) ∷ [])
      else (false, contents')

  -- The tokens of the unset list: pieces between commas, but for an empty one at the end. A token
  -- that cannot be duplicated ends the list.
  pub remove_keys : List Bytes → Buffer → Buffer
  remove_keys [] contents = contents
  remove_keys (key ∷ keys) contents =
      let rest = remove_keys keys (remove_key key contents).1 in
      if is_nil key && is_nil keys
      then contents
      else if duplicates alloc key
      then rest
      else contents

  -- One line of the frame: what stands before the first `=` is the key.
  pub set_line : Bytes → Buffer → Buffer
  set_line line contents =
      let (key, after) = cut b'=' line in
      elim after [ some value ↦ (set_key key value contents).1 | none ↦ contents ]

  pub set_lines : List Bytes → Buffer → Buffer
  set_lines [] contents = contents
  set_lines (line ∷ lines) contents = set_lines lines (set_line line contents)

  -- `merge_topic_cache` on the contents of the entry that it found, for a frame with `text`.
  pub merge_contents : Frame → Bytes → Buffer → Buffer
  merge_contents frame text contents =
      let started = if is_snapshot frame.type || frame.reset then null else contents in
      let merge_lines =
        λ (c : Buffer). if duplicates alloc text then set_lines (tokens b'\n' text) c else c in
      if is_nil frame.unset
      then merge_lines started
      else if duplicates alloc frame.unset
      then merge_lines (remove_keys (split b',' frame.unset) started)
      else started

  -- `merge_topic_cache` for a frame with `text` and a topic.
  pub merge_text : List TopicCache → Frame → Bytes → List TopicCache
  merge_text caches frame text =
      let (found, caches') = find_topic_cache caches frame.topic true in
      elim found [
        | none ↦ caches'
        | some i ↦
            modify caches' i (λ c. record c { contents = merge_contents frame text c.contents })
      ]

  -- `merge_topic_cache`: a frame with no text or no topic is not merged.
  unfoldable pub merge_topic_cache : List TopicCache → Frame → List TopicCache
  unfolding find_topic_cache merge_text merge_contents set_lines set_line remove_keys set_key
      remove_key keep_lines
  merge_topic_cache caches frame = elim frame.contents [
    | none ↦ caches
    | some text ↦ if is_nil frame.topic then caches else merge_text caches frame text
  ]
