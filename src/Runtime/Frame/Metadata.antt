-- ===== src/Runtime/Frame/Metadata.antt =====
-- The fields that `parse_frame_metadata` of src/nscde_wayland_common/runtime-client.c stores.
use orca_cde.Prelude.{
  ◌<◌, ◌||◌, not, Bool, true, false, List, [], ◌∷◌, ◌++◌, ◌≡◌, refl, ap, ◌∙◌, arith, length,
  length-clip-lt, clip_of_length-lt, drop, All, Bytes, codes, is_nil, Lacks, split, split-append,
  starts_with, equal,
}
use orca_cde.Runtime.Frame.{
  Frame, state, field_len, opens, set_field, strip_cr, parse_lines, parse_frame_metadata,
  frame_type_of,
}

-- Every text field leaves room for its zero.
pub record IsBounded (f : Frame) : Type 0 where
  pub topic_fits : length f.topic < field_len
  pub event_fits : length f.event_name < field_len
  pub source_fits : length f.source < field_len
  pub unset_fits : length f.unset < field_len
  pub message_fits : length f.message < field_len

set_field-IsBounded :
    (line raw : Bytes) (rest : List Bytes) (f : Frame)
    → IsBounded f
    → IsBounded (set_field line raw rest f)
unfolding set_field
set_field-IsBounded line raw rest f b = ground (
  arith,
  length-clip-lt field_len (drop 6 line) (omega arith),
  length-clip-lt field_len (drop 7 line) (omega arith),
  length-clip-lt field_len (drop 8 line) (omega arith),
)

parse_lines-IsBounded : (ls : List Bytes) (f : Frame) → IsBounded f → IsBounded (parse_lines ls f)
unfolding parse_lines
parse_lines-IsBounded [] f b = b
parse_lines-IsBounded (raw ∷ rest) f b = ground (
  arith,
  parse_lines-IsBounded rest (set_field (strip_cr raw) raw rest f)
      (set_field-IsBounded (strip_cr raw) raw rest f b),
)

-- Whatever the text, parsing the metadata of a frame whose text fields leave room for their
-- zero gives one whose text fields do.
pub parse_frame_metadata-IsBounded :
    (contents : Bytes) (f : Frame) → IsBounded f → IsBounded (parse_frame_metadata contents f)
unfolding parse_frame_metadata
parse_frame_metadata-IsBounded contents f b = parse_lines-IsBounded (split b'\n' contents) f b

-- A line that opens none of the metadata keys.
is_header : Bytes → Bool
is_header line =
    opens (codes "TYPE=") line
    || opens (codes "TOPIC=") line
    || opens (codes "MESSAGE=") line
    || opens (codes "EVENT=") line
    || opens (codes "SOURCE=") line
    || opens (codes "UNSET=") line
    || opens (codes "SEQ=") line
    || opens (codes "RESET=") line

-- A line that ends the metadata, or that the loop passes over.
unfoldable pub is_body : Bytes → Bool
unfolding strip_cr is_header
is_body raw = not (is_header (strip_cr raw))

set_field-body :
    (line raw : Bytes) (rest : List Bytes) (f : Frame)
    → is_header line ≡ false
    → set_field line raw rest f ≡ f
unfolding set_field is_header
set_field-body line raw rest f h = ground arith

is_body_lem : (raw : Bytes) → is_body raw ≡ true → is_header (strip_cr raw) ≡ false
unfolding is_body
is_body_lem raw h = ground arith

parse_frame_metadata_lem :
    (contents : Bytes) (f : Frame)
    → parse_frame_metadata contents f ≡ parse_lines (split b'\n' contents) f
unfolding parse_frame_metadata
parse_frame_metadata_lem contents f = refl

abbrev pub IsBody : List Bytes → Type 0
IsBody = All (λ l. is_body l ≡ true)

parse_lines-body : (ls : List Bytes) (f : Frame) → IsBody ls → parse_lines ls f ≡ f
unfolding parse_lines
parse_lines-body [] f h = refl
parse_lines-body (raw ∷ rest) f h = ground (
  arith,
  set_field-body (strip_cr raw) raw rest f (is_body_lem raw h.0),
  parse_lines-body rest f h.1,
)

-- The text of a state message, up to its end.
abbrev pub state_text : Bytes → Bytes → Bytes
state_text topic contents = codes "TYPE=state\nTOPIC=" ++ (topic ++ (b'\n' ∷ contents))

-- A topic that the line of a header can carry.
pub record IsTopic (topic : Bytes) : Type 0 where
  pub no_newline : Lacks b'\n' topic
  pub no_return : strip_cr topic ≡ topic
  pub something : is_nil topic ≡ false
  pub short : length topic < field_len

parse-topic_line :
    (topic contents : Bytes)
    → IsTopic topic
    → split b'\n' (state_text topic contents)
      ≡ codes "TYPE=state" ∷ (codes "TOPIC=" ++ topic) ∷ split b'\n' contents
unfolding split
parse-topic_line topic contents t = rw (split-append b'\n' topic contents t.no_newline)

set_field-topic :
    (topic raw : Bytes) (rest : List Bytes) (f : Frame)
    → IsTopic topic
    → set_field (codes "TOPIC=" ++ topic) raw rest f ≡ record f { topic = topic }
unfolding set_field starts_with
set_field-topic [] raw rest f t = cc t.something
set_field-topic (x ∷ topic) raw rest f t =
    ground (arith, clip_of_length-lt field_len (x ∷ topic) t.short)

set_field-state :
    (raw : Bytes) (rest : List Bytes) (f : Frame)
    → set_field (codes "TYPE=state") raw rest f ≡ record f { type = state }
unfolding set_field starts_with frame_type_of equal
set_field-state raw rest f = refl

strip_cr-topic :
    (topic : Bytes) → IsTopic topic → strip_cr (codes "TOPIC=" ++ topic) ≡ codes "TOPIC=" ++ topic
unfolding strip_cr
strip_cr-topic [] t = refl
strip_cr-topic (x ∷ topic) t = rw t.no_return

parse_lines-cons :
    (raw line : Bytes) (rest : List Bytes) (f : Frame)
    → strip_cr raw ≡ line
    → is_nil line ≡ false
    → parse_lines (raw ∷ rest) f ≡ parse_lines rest (set_field line raw rest f)
unfolding parse_lines
parse_lines-cons raw line rest f e h = ground arith

strip_cr-state : strip_cr (codes "TYPE=state") ≡ codes "TYPE=state"
unfolding strip_cr
strip_cr-state = refl

-- The text of a state message, with a topic of one line that is not empty, ends in no carriage
-- return and fits its field, and contents none of whose lines opens a metadata field, is parsed
-- to the type state and this topic, with the other fields as they were.
pub parse-state_text :
    (topic contents : Bytes) (f : Frame)
    → IsTopic topic
    → IsBody (split b'\n' contents)
    → parse_frame_metadata (state_text topic contents) f ≡ record f { type = state; topic = topic }
parse-state_text topic contents f t h =
    let f' = record f { type = state } in
    parse_frame_metadata_lem (state_text topic contents) f
    ∙ rw (parse-topic_line topic contents t) (
        parse_lines-cons (codes "TYPE=state") (codes "TYPE=state") _ f strip_cr-state refl
        ∙ ap (parse_lines ((codes "TOPIC=" ++ topic) ∷ split b'\n' contents))
            (set_field-state _ _ f)
        ∙ parse_lines-cons (codes "TOPIC=" ++ topic) (codes "TOPIC=" ++ topic) _ f'
            (strip_cr-topic topic t) refl
        ∙ ap (parse_lines (split b'\n' contents)) (set_field-topic topic _ _ f' t)
        ∙ parse_lines-body _ (record f' { topic = topic }) h)

set_field-contents :
    (line raw : Bytes) (rest : List Bytes) (f : Frame)
    → (set_field line raw rest f).contents ≡ f.contents
unfolding set_field
set_field-contents line raw rest f = ground arith

parse_lines-contents : (ls : List Bytes) (f : Frame) → (parse_lines ls f).contents ≡ f.contents
unfolding parse_lines
parse_lines-contents [] f = refl
parse_lines-contents (raw ∷ rest) f = ground (
  arith,
  set_field-contents (strip_cr raw) raw rest f,
  parse_lines-contents rest (set_field (strip_cr raw) raw rest f),
)

-- The metadata do not touch the contents.
pub parse_frame_metadata-contents :
    (contents : Bytes) (f : Frame) → (parse_frame_metadata contents f).contents ≡ f.contents
parse_frame_metadata-contents contents f =
    ap (λ (g : Frame). g.contents) (parse_frame_metadata_lem contents f)
    ∙ parse_lines-contents (split b'\n' contents) f
