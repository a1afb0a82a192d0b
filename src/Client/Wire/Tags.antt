-- ===== src/Client/Wire/Tags.antt =====
-- clients/go/wire.go: the tags of the structs, as encoding/json reads and writes a message by them.
use pupptyeer.Prelude.{false, Option, none, some, Bytes, [], ◌∷◌, map, codes}
use pupptyeer.Prelude.Int.{pos}
use pupptyeer.Wire.Json.{
  Json, null, boolean, number, string, object, Env, ◌>>=◌, put_text, put_int, put_bool, put_pointer,
  put_list, put_map, take_text, take_int, take_bool, take_pointer, take_list, take_map, text_item,
}
use pupptyeer.Wire.Json.Fields.{Fields, members, find}
use pupptyeer.Client.Wire.{Message, SessionInfo, Cursor, blank}

-- The members that a struct is written as, in the order of its tags.
unfoldable pub cursor_fields : Cursor → Fields
cursor_fields c =
    (codes "row", some (number c.row))
    ∷ (codes "col", some (number c.col))
    ∷ (codes "visible", some (boolean c.visible))
    ∷ []

unfoldable pub put_cursor : Option Cursor → Option Json
put_cursor none = none
put_cursor (some c) = some (object (members (cursor_fields c)))

unfoldable pub info_fields : SessionInfo → Fields
info_fields i =
    (codes "id", some (string i.id))
    ∷ (codes "namespace", some (string i.namespace))
    ∷ (codes "command", some (string i.command))
    ∷ (codes "args", put_list string i.args)
    ∷ (codes "cwd", put_text i.cwd)
    ∷ (codes "cols", some (number i.cols))
    ∷ (codes "rows", some (number i.rows))
    ∷ (codes "created", some (string i.created))
    ∷ (codes "last_activity", some (string i.last_activity))
    ∷ (codes "attached", some (number i.attached))
    ∷ (codes "alive", some (boolean i.alive))
    ∷ (codes "raw", put_bool i.raw)
    ∷ []

unfoldable pub write_info : SessionInfo → Json
write_info i = object (members (info_fields i))

unfoldable pub message_fields : Message → Fields
message_fields m =
    (codes "type", some (string m.type))
    ∷ (codes "id", put_int m.id)
    ∷ (codes "session", put_text m.session)
    ∷ (codes "namespace", put_text m.namespace)
    ∷ (codes "all", put_bool m.all)
    ∷ (codes "command", put_text m.command)
    ∷ (codes "args", put_list string m.args)
    ∷ (codes "cwd", put_text m.cwd)
    ∷ (codes "env", put_map m.env)
    ∷ (codes "cols", put_int m.cols)
    ∷ (codes "rows", put_int m.rows)
    ∷ (codes "raw", put_bool m.raw)
    ∷ (codes "requested_id", put_text m.requested_id)
    ∷ (codes "get_or_create", put_bool m.get_or_create)
    ∷ (codes "max_idle_seconds", put_int m.max_idle_seconds)
    ∷ (codes "data", put_text m.payload)
    ∷ (codes "text", put_text m.text)
    ∷ (codes "render", put_bool m.render)
    ∷ (codes "settle_ms", put_int m.settle_ms)
    ∷ (codes "timeout_ms", put_int m.timeout_ms)
    ∷ (codes "lines", put_list string m.lines)
    ∷ (codes "cursor", put_cursor m.cursor)
    ∷ (codes "alt_screen", put_bool m.alt_screen)
    ∷ (codes "message", put_text m.message)
    ∷ (codes "exit_code", put_pointer m.exit_code)
    ∷ (codes "sessions", put_list write_info m.sessions)
    ∷ []

-- A field of a struct gets what its name has in the object.
unfoldable pub fill_cursor : (Bytes → Option Json) → Option Cursor
fill_cursor at_key = do
  row ← take_int (at_key (codes "row"))
  col ← take_int (at_key (codes "col"))
  visible ← take_bool (at_key (codes "visible"))
  some (record { row = row; col = col; visible = visible })

unfoldable pub take_cursor : Option Json → Option (Option Cursor)
take_cursor none = some none
take_cursor (some null) = some none
take_cursor (some (object ms)) = do c ← fill_cursor (λ k. find k ms); some (some c)
take_cursor (some j) = none

unfoldable pub fill_info : (Bytes → Option Json) → Option SessionInfo
fill_info at_key = do
  id ← take_text (at_key (codes "id"))
  namespace ← take_text (at_key (codes "namespace"))
  command ← take_text (at_key (codes "command"))
  args ← take_list text_item (at_key (codes "args"))
  cwd ← take_text (at_key (codes "cwd"))
  cols ← take_int (at_key (codes "cols"))
  rows ← take_int (at_key (codes "rows"))
  created ← take_text (at_key (codes "created"))
  last_activity ← take_text (at_key (codes "last_activity"))
  attached ← take_int (at_key (codes "attached"))
  alive ← take_bool (at_key (codes "alive"))
  raw ← take_bool (at_key (codes "raw"))
  some (record {
    id = id;
    namespace = namespace;
    command = command;
    args = args;
    cwd = cwd;
    cols = cols;
    rows = rows;
    created = created;
    last_activity = last_activity;
    attached = attached;
    alive = alive;
    raw = raw;
  })

unfoldable pub no_info : SessionInfo
no_info = record {
  id = [];
  namespace = [];
  command = [];
  args = [];
  cwd = [];
  cols = pos 0;
  rows = pos 0;
  created = [];
  last_activity = [];
  attached = pos 0;
  alive = false;
  raw = false;
}

unfoldable pub read_info : Json → Option SessionInfo
read_info null = some no_info
read_info (object ms) = fill_info (λ k. find k ms)
read_info j = none

unfoldable pub fill_message : (Bytes → Option Json) → Option Message
fill_message at_key = do
  type ← take_text (at_key (codes "type"))
  id ← take_int (at_key (codes "id"))
  session ← take_text (at_key (codes "session"))
  namespace ← take_text (at_key (codes "namespace"))
  all ← take_bool (at_key (codes "all"))
  command ← take_text (at_key (codes "command"))
  args ← take_list text_item (at_key (codes "args"))
  cwd ← take_text (at_key (codes "cwd"))
  env ← take_map (at_key (codes "env"))
  cols ← take_int (at_key (codes "cols"))
  rows ← take_int (at_key (codes "rows"))
  raw ← take_bool (at_key (codes "raw"))
  requested_id ← take_text (at_key (codes "requested_id"))
  get_or_create ← take_bool (at_key (codes "get_or_create"))
  max_idle_seconds ← take_int (at_key (codes "max_idle_seconds"))
  payload ← take_text (at_key (codes "data"))
  text ← take_text (at_key (codes "text"))
  render ← take_bool (at_key (codes "render"))
  settle_ms ← take_int (at_key (codes "settle_ms"))
  timeout_ms ← take_int (at_key (codes "timeout_ms"))
  lines ← take_list text_item (at_key (codes "lines"))
  cursor ← take_cursor (at_key (codes "cursor"))
  alt_screen ← take_bool (at_key (codes "alt_screen"))
  message ← take_text (at_key (codes "message"))
  exit_code ← take_pointer (at_key (codes "exit_code"))
  sessions ← take_list read_info (at_key (codes "sessions"))
  some (record {
    type = type;
    id = id;
    session = session;
    namespace = namespace;
    all = all;
    command = command;
    args = args;
    cwd = cwd;
    env = env;
    cols = cols;
    rows = rows;
    raw = raw;
    requested_id = requested_id;
    get_or_create = get_or_create;
    max_idle_seconds = max_idle_seconds;
    payload = payload;
    text = text;
    render = render;
    settle_ms = settle_ms;
    timeout_ms = timeout_ms;
    lines = lines;
    cursor = cursor;
    alt_screen = alt_screen;
    message = message;
    exit_code = exit_code;
    sessions = sessions;
  })

-- Texts that are not UTF-8 are mended by encoding/json: `clean`.
unfoldable pub clean_map : (Bytes → Bytes) → Env → Env
clean_map clean [] = []
clean_map clean ((k, v) ∷ env) = (clean k, clean v) ∷ clean_map clean env

unfoldable pub clean_info : (Bytes → Bytes) → SessionInfo → SessionInfo
clean_info clean i = record {
  id = clean i.id;
  namespace = clean i.namespace;
  command = clean i.command;
  args = map clean i.args;
  cwd = clean i.cwd;
  cols = i.cols;
  rows = i.rows;
  created = clean i.created;
  last_activity = clean i.last_activity;
  attached = i.attached;
  alive = i.alive;
  raw = i.raw;
}

unfoldable pub clean_message : (Bytes → Bytes) → Message → Message
clean_message clean m = record {
  type = clean m.type;
  id = m.id;
  session = clean m.session;
  namespace = clean m.namespace;
  all = m.all;
  command = clean m.command;
  args = map clean m.args;
  cwd = clean m.cwd;
  env = clean_map clean m.env;
  cols = m.cols;
  rows = m.rows;
  raw = m.raw;
  requested_id = clean m.requested_id;
  get_or_create = m.get_or_create;
  max_idle_seconds = m.max_idle_seconds;
  payload = clean m.payload;
  text = clean m.text;
  render = m.render;
  settle_ms = m.settle_ms;
  timeout_ms = m.timeout_ms;
  lines = map clean m.lines;
  cursor = m.cursor;
  alt_screen = m.alt_screen;
  message = clean m.message;
  exit_code = m.exit_code;
  sessions = map (clean_info clean) m.sessions;
}

unfoldable pub write_message : (Bytes → Bytes) → Message → Json
write_message clean m = object (members (message_fields (clean_message clean m)))

unfoldable pub read_message : Json → Option Message
read_message null = some blank
read_message (object ms) = fill_message (λ k. find k ms)
read_message j = none

-- The JSON that `Encode` writes for a message, with `json.Marshal` for `print`, and what `Decode` makes of
-- a line, with `json.Unmarshal` into a value for `parse`.
unfoldable pub encode : (Json → Bytes) → (Bytes → Bytes) → Message → Bytes
encode print clean m = print (write_message clean m)

unfoldable pub decode : (Bytes → Option Json) → Bytes → Option Message
decode parse line = do j ← parse line; read_message j
