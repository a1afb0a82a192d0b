-- ===== src/Mcp/Tools.antt =====
-- mcp/tools.go and the dialer of mcp/dialer.go: the tools of the bridge as the client calls that they
-- make and the results that they give. The MCP library checks and decodes the arguments; `call` and
-- `send` are the connection's, of which `S` is the state, and `default` is its namespace. `json` writes a
-- list of sessions and `decimal` a number.
pub mod Messages
use pupptyeer.Prelude.{
  ◌≡◌, ◌⊎◌, inl, inr, Bool, true, false, Option, none, some, Bytes, List, [], ◌∷◌, ◌++◌, codes,
  if◌then◌else◌,
}
use pupptyeer.Prelude.Int.{ℤ, pos, eqb_ℤ, ltb_ℤ}
use pupptyeer.Prelude.Strings.{is_nil}
use pupptyeer.Wire.Json.{Env}
use pupptyeer.Client.Wire.{Message, SessionInfo}
use pupptyeer.Client.Verbs
use pupptyeer.Client.Verbs.{
  Program, SessionOption, with_raw, with_session_id, with_get_or_create, in_namespace,
  CaptureOption, with_settle, with_timeout, with_capture_namespace, Screen, list_message,
  list_all_message, kill_message, resize_message, gc_message, gc_all_message,
}

-- `daemonDialer.get`: a connection is kept; a failed dial is not.
pub dialer_get : {C : Type 0} → Option C → Bytes ⊎ C → Option C × (Bytes ⊎ C)
dialer_get (some c) dialed = (some c, inr c)
dialer_get none (inl e) = (none, inl e)
dialer_get none (inr c) = (some c, inr c)

pub data Result : Type 0 where
  text : Bytes → Result
  failure : Bytes → Result

-- The arguments of `new_session`.
pub record NewSession : Type 0 where
  pub command : Bytes
  pub args : List Bytes
  pub cwd : Bytes
  pub env : Env
  pub cols : ℤ
  pub rows : ℤ
  pub raw : Bool
  pub requested_id : Bytes
  pub get_or_create : Bool
  pub namespace : Bytes

unfoldable pub or_size : ℤ → ℤ → ℤ
or_size n size = if eqb_ℤ n (pos 0) then size else n

unfoldable pub program_of : NewSession → Program
program_of a = record {
  command = a.command;
  args = a.args;
  cwd = a.cwd;
  env = a.env;
  cols = or_size a.cols (pos 80);
  rows = or_size a.rows (pos 24);
}

abbrev pub only_if : {A : Type 0} → Bool → A → List A
only_if true a = a ∷ []
only_if false a = []

abbrev pub only_named : {A : Type 0} → (Bytes → A) → Bytes → List A
only_named f [] = []
only_named f (b ∷ bs) = f (b ∷ bs) ∷ []

unfoldable pub options_of : NewSession → List SessionOption
options_of a =
    only_if a.raw with_raw
    ++ (only_named with_session_id a.requested_id
        ++ (only_if a.get_or_create with_get_or_create ++ only_named in_namespace a.namespace))

-- The arguments of `read_screen` behind the session.
pub record ReadScreen : Type 0 where
  pub render : Bool
  pub settle_ms : ℤ
  pub timeout_ms : ℤ
  pub namespace : Bytes

unfoldable pub capture_options_of : ReadScreen → List CaptureOption
capture_options_of a =
    only_if (ltb_ℤ (pos 0) a.settle_ms) (with_settle a.settle_ms)
    ++ (only_if (ltb_ℤ (pos 0) a.timeout_ms) (with_timeout a.timeout_ms)
        ++ only_named with_capture_namespace a.namespace)

-- `strings.Join` with a newline.
unfoldable pub join_lines : List Bytes → Bytes
join_lines [] = []
join_lines (l ∷ []) = l
join_lines (l ∷ k ∷ ls) = l ++ 10 ∷ join_lines (k ∷ ls)

-- `cursorVis`.
unfoldable pub cursor_vis : Bool → Bytes
cursor_vis true = []
cursor_vis false = codes " (hidden)"

unfoldable pub screen_text : (ℤ → Bytes) → Screen → Bytes
screen_text decimal s =
    join_lines s.lines
    ++ (codes "\n--\n"
        ++ (decimal s.cols
            ++ (codes "x"
                ++ (decimal s.rows
                    ++ (codes " cursor="
                        ++ (decimal s.cursor.row
                            ++ (codes ","
                                ++ (decimal s.cursor.col
                                    ++ (cursor_vis s.cursor.visible
                                        ++ (if s.alt_screen
                                            then codes " alt_screen"
                                            else []))))))))))

abbrev told : {S A : Type 0} → S × (Bytes ⊎ A) → (A → Bytes) → S × Result
told (s, inl e) show = (s, failure e)
told (s, inr a) show = (s, text (show a))

abbrev sent : {S : Type 0} → S × Option Bytes → S × Result
sent (s, some e) = (s, failure e)
sent (s, none) = (s, text (codes "ok"))

module _ {S : Type 0} (call : S → Message → S × (Bytes ⊎ Message)) (default : Bytes) where
  pub new_session_tool : S → NewSession → S × Result
  new_session_tool s a =
      told (Verbs.new_session call default s (program_of a) (options_of a)) λ id. id

  pub list_tool : (List SessionInfo → Bytes) → S → Bool → Bytes → S × Result
  list_tool json s all space =
      told
        (Verbs.sessions_of call default s
          (if all then list_all_message else list_message default (space ∷ [])))
        json

  pub gc_tool : (List SessionInfo → Bytes) → S → Bool → ℤ → Bytes → S × Result
  gc_tool json s all max_idle space =
      told
        (Verbs.sessions_of call default s
          (if all then gc_all_message max_idle else gc_message default max_idle (space ∷ [])))
        json

  pub kill_tool : S → Bytes → Bytes → S × Result
  kill_tool s session space =
      told (call s (kill_message default session (space ∷ []))) λ reply. codes "ok"

  pub read_screen_tool : (Bytes → Bytes ⊎ Bytes) → (ℤ → Bytes) → S → Bytes → ReadScreen → S × Result
  read_screen_tool decode decimal s session a =
      if a.render
      then told (Verbs.capture_screen call default s session (capture_options_of a))
          (screen_text decimal)
      else told (Verbs.capture_pane call default decode s session (capture_options_of a))
          λ bytes. bytes

module _ {S : Type 0} (send : S → Message → S × Option Bytes) (default : Bytes) where
  pub send_keys_tool : (Bytes → Bytes) → S → Bytes → Bytes → Bytes → S × Result
  send_keys_tool encode s session keys space =
      sent (send s (Verbs.write_message encode default session keys (space ∷ [])))

  pub resize_tool : S → Bytes → ℤ → ℤ → Bytes → S × Result
  resize_tool s session cols rows space =
      sent (send s (resize_message default session cols rows (space ∷ [])))
