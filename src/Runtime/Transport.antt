-- ===== src/Runtime/Transport.antt =====
-- The client's end of the runtime socket: `resolve_state_dir`, `resolve_socket_path`,
-- `connect_runtime_socket`, `send_frame_request` and `read_response_frame` of
-- src/nscde_wayland_common/runtime-client.c. What the kernel answers is a schedule.
pub mod Paths
pub mod Sending
pub mod Responses
use orca_cde.Prelude.{
  ℕ, zero, suc, ◌+◌, ◌-◌, ◌*◌, Bool, true, false, ◌&&◌, Option, none, some, List, [], ◌∷◌, ◌++◌,
  ltb, ◌==◌, if◌then◌else◌, length, take, drop, Bytes, codes, is_nil, until_zero,
}
use orca_cde.Runtime.Buffer.{Buffer, chunk_size}
use orca_cde.Runtime.Subscription.{
  Received, chunk, again, ended, broken, Outcome, interrupted, returns, Socket, find_frame_delim,
}

-- PATH_MAX_LEN
abbrev pub path_max : ℕ
path_max = 1024

-- The variables NSCDE_STATE_DIR, XDG_CACHE_HOME and HOME, where they are set.
pub record Environment : Type 0 where
  pub state_dir : Option Bytes
  pub cache_home : Option Bytes
  pub home : Option Bytes

-- `snprintf` or `copy_text` into `size` bytes, where the caller fails if the text does not fit.
abbrev pub fitted : ℕ → Bytes → Option Bytes
fitted size text = if ltb (length text) size then some text else none

-- The value of a variable that is set and not empty.
abbrev pub given : Option Bytes → Option Bytes
given none = none
given (some []) = none
given (some (x ∷ s)) = some (x ∷ s)

abbrev cache_dir : ℕ → Bytes → Option Bytes
cache_dir size cache_home = fitted size (cache_home ++ codes "/nscde-stage1")

unfoldable pub resolve_state_dir : ℕ → Environment → Option Bytes
resolve_state_dir size env = elim (given env.state_dir) [
  | some dir ↦ fitted size dir
  | none ↦ elim (given env.cache_home) [
    | some cache_home ↦ cache_dir size cache_home
    | none ↦ elim (given env.home) [
      | none ↦ none
      | some home ↦ elim (fitted path_max (home ++ codes "/.cache")) [
        | none ↦ none
        | some fallback ↦ cache_dir size fallback
      ]
    ]
  ]
]

unfoldable pub resolve_socket_path : ℕ → Environment → Option Bytes
resolve_socket_path size env = elim (resolve_state_dir path_max env) [
  | none ↦ none
  | some dir ↦ fitted size (dir ++ codes "/runtime.sock")
]

-- What `write` returns: a signal interrupted it, so many bytes were taken, or an error.
pub data Written : Type 0 where
  cut_short : Written
  accepted : ℕ → Written
  refused : Written

-- The runtime at the other end: the size of `sun_path`, whether a path can be connected to, and
-- with which descriptor, and the answers to `write`, `read` and `set_nonblock`.
pub record Peer : Type 0 where
  pub sun_path_size : ℕ
  pub connects : Bytes → Option ℕ
  pub accepts : List Written
  pub answers : Socket
  pub nonblock : Bool

-- `connect_runtime_socket(false, &fd)`
unfoldable pub connect_runtime_socket : Environment → Peer → Option ℕ
connect_runtime_socket env peer = elim (resolve_socket_path path_max env) [
  | none ↦ none
  | some path ↦ elim (fitted peer.sun_path_size path) [
    | none ↦ none
    | some address ↦ peer.connects address
  ]
]

-- Whether the loop returned true, and the bytes that were taken.
unfoldable pub send_frame_request : Bytes → List Written → Bool × Bytes
send_frame_request [] answers = (true, [])
send_frame_request (x ∷ text) [] = (false, [])
send_frame_request (x ∷ text) (cut_short ∷ answers) = send_frame_request (x ∷ text) answers
send_frame_request (x ∷ text) (refused ∷ answers) = (false, [])
send_frame_request (x ∷ text) (accepted zero ∷ answers) = (false, [])
send_frame_request (x ∷ text) (accepted (suc n) ∷ answers) =
    let (done, more) = send_frame_request (drop n text) answers in (done, x ∷ take n text ++ more)

-- At the end of the stream the text that came is the response, if there is any, and it is read as a
-- C string.
abbrev at_end : Bytes → Option Bytes
at_end [] = none
at_end (x ∷ text) = some (until_zero (x ∷ text))

module _ (alloc : ℕ → Bool) where
  -- There is room for a whole chunk in front of each `read`.
  abbrev make_room : Buffer → Option Buffer
  make_room b =
      if ltb (b.cap - length b.text) chunk_size
      then if alloc (b.cap * 2) then some (record b { cap = b.cap * 2 }) else none
      else some b

  -- The loop of `read_response_frame`. With no answer left there is nothing yet.
  pub respond : Buffer → Socket → Option Bytes
  respond b [] = none
  respond b (interrupted ∷ socket) = elim (make_room b) [
    | none ↦ none
    | some roomy ↦ respond roomy socket
  ]
  respond b (returns (chunk c bytes) ∷ socket) = elim (make_room b) [
    | none ↦ none
    | some roomy ↦
        let text = b.text ++ (c ∷ bytes) in
        elim (find_frame_delim text) [
          | some i ↦ some (take i text)
          | none ↦ respond (record roomy { text = text }) socket
        ]
  ]
  respond b (returns ended ∷ socket) = elim (make_room b) [
    | none ↦ none
    | some roomy ↦ at_end b.text
  ]
  respond b (returns again ∷ socket) = none
  respond b (returns broken ∷ socket) = none

  -- `read_response_frame`
  unfoldable pub read_response_frame : Socket → Option Bytes
  unfolding respond
  read_response_frame socket =
      if alloc chunk_size then respond (record { text = []; cap = chunk_size }) socket else none
