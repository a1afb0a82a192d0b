-- ===== src/Protocol.antt =====
-- internal/protocol/protocol.go: the message that daemon and clients exchange. JSON and base64 are
-- the standard library's: a connection carries messages, and the base64 codec is a field of
-- `World.Host`.
pub mod Codec
use pupptyeer.Prelude.{ℕ, Bool, false, Option, none, Bytes, List, [], codes, text_eq, if◌then◌else◌}
use pupptyeer.Prelude.Int.{ℤ, pos}

pub record Cursor : Type 0 where
  pub row : ℤ
  pub col : ℤ
  pub visible : Bool

pub record SessionInfo : Type 0 where
  pub id : Bytes
  pub namespace : Bytes
  pub command : Bytes
  pub args : List Bytes
  pub cwd : Bytes
  pub cols : ℤ
  pub rows : ℤ
  pub created : Bytes
  pub last_activity : Bytes
  pub attached : ℤ
  pub alive : Bool
  pub raw : Bool

pub record Message : Type 0 where
  pub type : Bytes
  pub id : ℤ
  pub session : Bytes
  pub namespace : Bytes
  pub all : Bool
  pub command : Bytes
  pub args : List Bytes
  pub cwd : Bytes
  pub env : List (Bytes × Bytes)
  pub cols : ℤ
  pub rows : ℤ
  pub raw : Bool
  pub requested_id : Bytes
  pub get_or_create : Bool
  pub max_idle_seconds : ℤ
  pub payload : Bytes
  pub text : Bytes
  pub render : Bool
  pub settle_ms : ℤ
  pub timeout_ms : ℤ
  pub lines : List (List ℕ)
  pub cursor : Option Cursor
  pub alt_screen : Bool
  pub message : Bytes
  pub exit_code : Option ℤ
  pub sessions : List SessionInfo

-- The zero `Message`: the fields that a composite literal leaves out.
abbrev pub blank : Message
blank = record {
  type = [];
  id = pos 0;
  session = [];
  namespace = [];
  all = false;
  command = [];
  args = [];
  cwd = [];
  env = [];
  cols = pos 0;
  rows = pos 0;
  raw = false;
  requested_id = [];
  get_or_create = false;
  max_idle_seconds = pos 0;
  payload = [];
  text = [];
  render = false;
  settle_ms = pos 0;
  timeout_ms = pos 0;
  lines = [];
  cursor = none;
  alt_screen = false;
  message = [];
  exit_code = none;
  sessions = [];
}

-- The types that a client sends, as the `switch` of `dispatch` tells them apart.
pub data Request : Type 0 where
  new_session list_sessions attach detach write_pane capture_pane resize kill gc unknown : Request

unfoldable pub request_of : Bytes → Request
request_of t =
    if text_eq t (codes "new_session")
    then new_session
    else (if text_eq t (codes "list_sessions")
        then list_sessions
        else (if text_eq t (codes "attach")
            then attach
            else (if text_eq t (codes "detach")
                then detach
                else (if text_eq t (codes "write_pane")
                    then write_pane
                    else (if text_eq t (codes "capture_pane")
                        then capture_pane
                        else (if text_eq t (codes "resize")
                            then resize
                            else (if text_eq t (codes "kill")
                                then kill
                                else (if text_eq t (codes "gc") then gc else unknown))))))))

-- The types that the daemon sends.
abbrev pub type_ok : Bytes
type_ok = codes "ok"

abbrev pub type_error : Bytes
type_error = codes "error"

abbrev pub type_sessions : Bytes
type_sessions = codes "sessions"

abbrev pub type_attached : Bytes
type_attached = codes "attached"

abbrev pub type_output : Bytes
type_output = codes "output"

abbrev pub type_scrollback_end : Bytes
type_scrollback_end = codes "scrollback_end"

abbrev pub type_capture : Bytes
type_capture = codes "capture"

abbrev pub type_exit : Bytes
type_exit = codes "exit"

abbrev pub type_session_closed : Bytes
type_session_closed = codes "session_closed"

abbrev pub type_reaped : Bytes
type_reaped = codes "reaped"
