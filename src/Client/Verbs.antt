-- ===== src/Client/Verbs.antt =====
-- clients/go/client.go: the methods of `Client` as the messages that they send and what they make of the
-- reply. `call` and `send` are the connection's, over whatever state it is in; an option is one of the
-- package's own. A nil list and an empty one are the same here.
pub mod Ensure
pub mod Daemon
use pupptyeer.Prelude.{
  ℕ, ◌≡◌, ◌⊎◌, inl, inr, Bool, true, false, ◌&&◌, Option, none, some, Bytes, List, [], ◌∷◌, ◌++◌,
  codes, text_eq, if◌then◌else◌,
}
use pupptyeer.Prelude.Int.{ℤ, pos}
use pupptyeer.Prelude.Strings.{is_nil, trim_space}
use pupptyeer.Wire.Json.{Env}
use pupptyeer.Client.Wire.{
  Message, SessionInfo, Cursor, blank, type_new_session, type_list_sessions, type_attach,
  type_detach, type_write_pane, type_capture_pane, type_resize, type_kill, type_gc,
}

-- `ns`: the first override, unless it is empty, before the connection's namespace.
unfoldable pub ns : Bytes → List Bytes → Bytes
ns default [] = default
ns default (override ∷ more) = if is_nil override then default else override

-- `SessionOption`: `WithRaw`, `WithSessionID`, `WithGetOrCreate` and `InNamespace`.
pub data SessionOption : Type 0 where
  with_raw : SessionOption
  with_session_id : Bytes → SessionOption
  with_get_or_create : SessionOption
  in_namespace : Bytes → SessionOption

unfoldable pub apply_option : Message → SessionOption → Message
apply_option m with_raw = record m { raw = true }
apply_option m (with_session_id id) = record m { requested_id = id }
apply_option m with_get_or_create = record m { get_or_create = true }
apply_option m (in_namespace space) = if is_nil space then m else record m { namespace = space }

unfoldable pub apply_options : Message → List SessionOption → Message
apply_options m [] = m
apply_options m (o ∷ opts) = apply_options (apply_option m o) opts

-- `CaptureOption`: `WithSettle`, `WithTimeout` and `WithCaptureNamespace`.
pub data CaptureOption : Type 0 where
  with_settle : ℤ → CaptureOption
  with_timeout : ℤ → CaptureOption
  with_capture_namespace : Bytes → CaptureOption

unfoldable pub apply_capture_option : Message → CaptureOption → Message
apply_capture_option m (with_settle ms) = record m { settle_ms = ms }
apply_capture_option m (with_timeout ms) = record m { timeout_ms = ms }
apply_capture_option m (with_capture_namespace space) =
    if is_nil space then m else record m { namespace = space }

unfoldable pub apply_capture_options : Message → List CaptureOption → Message
apply_capture_options m [] = m
apply_capture_options m (o ∷ opts) = apply_capture_options (apply_capture_option m o) opts

-- What a session is to run, and on what size.
pub record Program : Type 0 where
  pub command : Bytes
  pub args : List Bytes
  pub cwd : Bytes
  pub env : Env
  pub cols : ℤ
  pub rows : ℤ

-- The messages of the methods; `default` is the connection's namespace.
unfoldable pub new_session_message : Bytes → Program → List SessionOption → Message
new_session_message default p opts =
    apply_options
      (record blank {
        type = type_new_session;
        namespace = default;
        command = p.command;
        args = p.args;
        cwd = p.cwd;
        env = p.env;
        cols = p.cols;
        rows = p.rows;
      })
      opts

unfoldable pub list_message : Bytes → List Bytes → Message
list_message default spaces = record blank {
  type = type_list_sessions;
  namespace = ns default spaces;
}

unfoldable pub list_all_message : Message
list_all_message = record blank { type = type_list_sessions; all = true }

unfoldable pub attach_message : Bytes → Bytes → ℤ → ℤ → List Bytes → Message
attach_message default session cols rows spaces = record blank {
  type = type_attach;
  namespace = ns default spaces;
  session = session;
  cols = cols;
  rows = rows;
}

unfoldable pub detach_message : Bytes → Bytes → List Bytes → Message
detach_message default session spaces = record blank {
  type = type_detach;
  namespace = ns default spaces;
  session = session;
}

-- `EncodeData` is `encode`.
unfoldable pub write_message : (Bytes → Bytes) → Bytes → Bytes → Bytes → List Bytes → Message
write_message encode default session bytes spaces = record blank {
  type = type_write_pane;
  namespace = ns default spaces;
  session = session;
  payload = encode bytes;
}

unfoldable pub capture_message : Bytes → Bytes → Bool → List CaptureOption → Message
capture_message default session render opts =
    apply_capture_options
      (record blank {
        type = type_capture_pane;
        namespace = default;
        session = session;
        render = render;
      })
      opts

unfoldable pub resize_message : Bytes → Bytes → ℤ → ℤ → List Bytes → Message
resize_message default session cols rows spaces = record blank {
  type = type_resize;
  namespace = ns default spaces;
  session = session;
  cols = cols;
  rows = rows;
}

unfoldable pub kill_message : Bytes → Bytes → List Bytes → Message
kill_message default session spaces = record blank {
  type = type_kill;
  namespace = ns default spaces;
  session = session;
}

unfoldable pub gc_message : Bytes → ℤ → List Bytes → Message
gc_message default max_idle spaces = record blank {
  type = type_gc;
  max_idle_seconds = max_idle;
  namespace = ns default spaces;
}

unfoldable pub gc_all_message : ℤ → Message
gc_all_message max_idle = record blank { type = type_gc; max_idle_seconds = max_idle; all = true }

-- `Screen`.
pub record Screen : Type 0 where
  pub cols : ℤ
  pub rows : ℤ
  pub lines : List Bytes
  pub cursor : Cursor
  pub alt_screen : Bool

no_cursor : Cursor
no_cursor = record { row = pos 0; col = pos 0; visible = false }

screen_of : Message → Screen
screen_of m = record {
  cols = m.cols;
  rows = m.rows;
  lines = m.lines;
  cursor = elim m.cursor [ none ↦ no_cursor | some c ↦ c ];
  alt_screen = m.alt_screen;
}

infixl 5 ◌then◌
abbrev pub ◌then◌ : {S A B : Type 0} → S × (Bytes ⊎ A) → (A → Bytes ⊎ B) → S × (Bytes ⊎ B)
(s, inl e) then f = (s, inl e)
(s, inr a) then f = (s, f a)

-- `EnsureSession` looks for a live session of the id in the namespace that the options lead to.
unfoldable pub has_alive : Bytes → List SessionInfo → Bool
has_alive id [] = false
has_alive id (info ∷ infos) = if text_eq info.id id && info.alive then true else has_alive id infos

unfoldable pub probed : Bytes → List SessionOption → Bytes
probed default opts = (apply_options (record blank { namespace = default }) opts).namespace

abbrev pub ensured : Bytes → List SessionOption → List SessionOption
ensured id opts = opts ++ with_session_id id ∷ with_get_or_create ∷ []

module _ {S : Type 0} (call : S → Message → S × (Bytes ⊎ Message)) (default : Bytes) where
  unfoldable pub new_session : S → Program → List SessionOption → S × (Bytes ⊎ Bytes)
  new_session s p opts = call s (new_session_message default p opts) then λ reply. inr reply.session

  unfoldable pub sessions_of : S → Message → S × (Bytes ⊎ List SessionInfo)
  sessions_of s m = call s m then λ reply. inr reply.sessions

  unfoldable pub list_sessions : S → List Bytes → S × (Bytes ⊎ List SessionInfo)
  list_sessions s spaces = sessions_of s (list_message default spaces)

  pub capture_pane : (Bytes → Bytes ⊎ Bytes) → S → Bytes → List CaptureOption → S × (Bytes ⊎ Bytes)
  capture_pane decode s session opts =
      call s (capture_message default session false opts) then λ reply. decode reply.payload

  pub capture_screen : S → Bytes → List CaptureOption → S × (Bytes ⊎ Screen)
  capture_screen s session opts =
      call s (capture_message default session true opts) then λ reply. inr (screen_of reply)

  pub create :
      Bytes → Program → List SessionOption → S × (Bytes ⊎ List SessionInfo) → S × (Bytes ⊎ Bool)
  create id p opts (s, inl e) = (s, inl e)
  create id p opts (s, inr infos) =
      if has_alive id infos
      then (s, inr false)
      else (new_session s p (ensured id opts) then λ made. inr true)

  pub ensure_session : S → Bytes → Program → List SessionOption → S × (Bytes ⊎ Bool)
  ensure_session s id p opts = create id p opts (list_sessions s (probed default opts ∷ []))

-- `AttachRaw`: the sibling socket, the line that it writes, and its refusal for the daemon's line.
pub raw_socket_path : Bytes → Bytes
raw_socket_path socket = socket ++ codes ".raw"

unfoldable pub raw_line : Bytes → Bytes → List Bytes → Bytes
raw_line default session spaces = ns default spaces ++ 9 ∷ session ++ 10 ∷ []

unfoldable pub raw_refusal : Bytes → Option Bytes
raw_refusal status =
    let s = trim_space status in
    if text_eq s (codes "OK") then none else some (codes "raw attach: " ++ s)
