-- ===== src/Runtime/Frame.antt =====
-- Frames and their metadata: `struct nscde_runtime_frame` and `parse_frame_metadata` of
-- src/nscde_wayland_common/runtime-client.c. A text field is its bytes before the zero.
pub mod Metadata
use orca_cde.Prelude.{
  ℕ, suc, ◌+◌, Bool, true, false, ◌&&◌, Option, none, some, List, [], ◌∷◌, ◌++◌, ltb, ◌==◌,
  if◌then◌else◌, length, drop, Bytes, codes, is_nil, equal, starts_with, split, clip, atoi,
}
use orca_cde.Prelude.Int.{ℤ, pos}

-- NSCDE_RUNTIME_FIELD_LEN
abbrev pub field_len : ℕ
field_len = 256

-- `untyped` is NSCDE_RUNTIME_FRAME_NONE.
pub data FrameType : Type 0 where
  untyped state snapshot event ack error : FrameType

pub record Frame : Type 0 where
  pub type : FrameType
  pub topic : Bytes
  pub event_name : Bytes
  pub source : Bytes
  pub unset : Bytes
  pub message : Bytes
  pub seq : ℤ
  pub reset : Bool
  pub contents : Option Bytes

-- `struct nscde_runtime_frame frame = {0}`
abbrev pub empty_frame : Frame
empty_frame = record {
  type = untyped;
  topic = [];
  event_name = [];
  source = [];
  unset = [];
  message = [];
  seq = pos 0;
  reset = false;
  contents = none;
}

-- A carriage return at the end of the line is not part of it.
unfoldable pub strip_cr : Bytes → Bytes
strip_cr [] = []
strip_cr (x ∷ []) = if x == b'\r' then [] else x ∷ []
strip_cr (x ∷ y ∷ s) = x ∷ strip_cr (y ∷ s)

-- `line_len > strlen(key) && !strncmp(line, key, strlen(key))`
abbrev opens : Bytes → Bytes → Bool
opens key line = ltb (length key) (length line) && starts_with key line

frame_type_of : Bytes → FrameType → FrameType
frame_type_of value old =
    if equal value (codes "state")
    then state
    else if equal value (codes "snapshot")
    then snapshot
    else if equal value (codes "event")
    then event
    else if equal value (codes "ack")
    then ack
    else if equal value (codes "error")
    then error
    else old

-- The text that `atoll` reads from: it runs on past the end of the line.
after_line : List Bytes → Bytes
after_line [] = []
after_line (l ∷ ls) = b'\n' ∷ l ++ after_line ls

-- One header line. `raw` is the line with its carriage return, `rest` the lines behind it.
set_field : Bytes → Bytes → List Bytes → Frame → Frame
set_field line raw rest f =
    if opens (codes "TYPE=") line
    then record f { type = frame_type_of (drop 5 line) f.type }
    else if opens (codes "TOPIC=") line
    then record f { topic = clip field_len (drop 6 line) }
    else if opens (codes "MESSAGE=") line
    then record f { message = clip field_len (drop 8 line) }
    else if opens (codes "EVENT=") line
    then record f { event_name = clip field_len (drop 6 line) }
    else if opens (codes "SOURCE=") line
    then record f { source = clip field_len (drop 7 line) }
    else if opens (codes "UNSET=") line
    then record f { unset = clip field_len (drop 6 line) }
    else if opens (codes "SEQ=") line
    then record f { seq = atoi (drop 4 raw ++ after_line rest) }
    else if opens (codes "RESET=") line
    then record f { reset = starts_with (b'1' ∷ []) (drop 6 line) }
    else f

-- The loop over the lines: an empty line ends it.
parse_lines : List Bytes → Frame → Frame
parse_lines [] f = f
parse_lines (raw ∷ rest) f =
    let line = strip_cr raw in
    let later = parse_lines rest (set_field line raw rest f) in if is_nil line then f else later

unfoldable pub parse_frame_metadata : Bytes → Frame → Frame
unfolding parse_lines set_field strip_cr frame_type_of after_line
parse_frame_metadata contents f = parse_lines (split b'\n' contents) f
