-- ===== src/Client/Wire.antt =====
-- clients/go/wire.go: the Go client's own copy of the message, and the data of a message.
pub mod Tags
pub mod Parity
pub mod Stream
use pupptyeer.Prelude.{
  ℕ, ◌≡◌, refl, Bool, true, false, Option, none, some, Bytes, ◌⊎◌, inr, if◌then◌else◌, List, [],
  ◌∷◌, map, codes, text_eq, arith,
}
use pupptyeer.Prelude.Int.{ℤ, pos}
use pupptyeer.Prelude.Strings.{is_nil}
use pupptyeer.Wire.Json.{
  Json, null, boolean, number, string, object, Env, ◌>>=◌, put_text, put_int, put_bool, put_pointer,
  put_list, put_map, take_text, take_int, take_bool, take_pointer, take_list, take_map, text_item,
}
use pupptyeer.Wire.Json.Fields.{Fields, members, find}

pub record Cursor : Type 0 where
  pub row : ℤ
  pub col : ℤ
  pub visible : Bool

pub record SessionInfo : Type 0 where
  pub id : Bytes
  pub namespace : Bytes
  pub command : Bytes
  pub args : List Bytes
  pub cwd : Bytes
  pub cols : ℤ
  pub rows : ℤ
  pub created : Bytes
  pub last_activity : Bytes
  pub attached : ℤ
  pub alive : Bool
  pub raw : Bool

pub record Message : Type 0 where
  pub type : Bytes
  pub id : ℤ
  pub session : Bytes
  pub namespace : Bytes
  pub all : Bool
  pub command : Bytes
  pub args : List Bytes
  pub cwd : Bytes
  pub env : Env
  pub cols : ℤ
  pub rows : ℤ
  pub raw : Bool
  pub requested_id : Bytes
  pub get_or_create : Bool
  pub max_idle_seconds : ℤ
  pub payload : Bytes
  pub text : Bytes
  pub render : Bool
  pub settle_ms : ℤ
  pub timeout_ms : ℤ
  pub lines : List Bytes
  pub cursor : Option Cursor
  pub alt_screen : Bool
  pub message : Bytes
  pub exit_code : Option ℤ
  pub sessions : List SessionInfo

-- The zero `Message`: the fields that a composite literal leaves out.
abbrev pub blank : Message
blank = record {
  type = [];
  id = pos 0;
  session = [];
  namespace = [];
  all = false;
  command = [];
  args = [];
  cwd = [];
  env = [];
  cols = pos 0;
  rows = pos 0;
  raw = false;
  requested_id = [];
  get_or_create = false;
  max_idle_seconds = pos 0;
  payload = [];
  text = [];
  render = false;
  settle_ms = pos 0;
  timeout_ms = pos 0;
  lines = [];
  cursor = none;
  alt_screen = false;
  message = [];
  exit_code = none;
  sessions = [];
}

-- The types that a client sends, and that of a refusal.
abbrev pub type_new_session : Bytes
type_new_session = codes "new_session"

abbrev pub type_list_sessions : Bytes
type_list_sessions = codes "list_sessions"

abbrev pub type_attach : Bytes
type_attach = codes "attach"

abbrev pub type_detach : Bytes
type_detach = codes "detach"

abbrev pub type_write_pane : Bytes
type_write_pane = codes "write_pane"

abbrev pub type_capture_pane : Bytes
type_capture_pane = codes "capture_pane"

abbrev pub type_resize : Bytes
type_resize = codes "resize"

abbrev pub type_kill : Bytes
type_kill = codes "kill"

abbrev pub type_gc : Bytes
type_gc = codes "gc"

abbrev pub type_error : Bytes
type_error = codes "error"

-- `OutputBytes`, with `DecodeData` for `decode`: no data is no bytes.
pub output_bytes : (Bytes → Bytes ⊎ Bytes) → Message → Bytes ⊎ Bytes
output_bytes decode m = if is_nil m.payload then inr [] else decode m.payload
