-- ===== src/Client/Wire/Parity.antt =====
-- clients/go/wire.go against internal/protocol/protocol.go: the two copies of the message, and what
-- encoding/json writes and reads for each.

use pupptyeer.Prelude.{arith, ◌≡◌, refl, ap, Option, none, some, Bytes, List, [], ◌∷◌, map, codes}
use pupptyeer.Wire.Json.{
  Json, null, boolean, number, string, array, object, Env, Items, item, end, ◌>>=◌, put_list,
  put_items, take_list, take_items,
}
use pupptyeer.Wire.Json.Fields.{members, find}
use pupptyeer.Protocol
use pupptyeer.Protocol.Codec
use pupptyeer.Client.Wire
use pupptyeer.Client.Wire.Tags

abbrev pub option_map : {A B : Type 0} → (A → B) → Option A → Option B
option_map f none = none
option_map f (some a) = some (f a)

unfoldable pub to_cursor : Wire.Cursor → Protocol.Cursor
to_cursor c = record { row = c.row; col = c.col; visible = c.visible }

unfoldable pub to_info : Wire.SessionInfo → Protocol.SessionInfo
to_info i = record {
  id = i.id;
  namespace = i.namespace;
  command = i.command;
  args = i.args;
  cwd = i.cwd;
  cols = i.cols;
  rows = i.rows;
  created = i.created;
  last_activity = i.last_activity;
  attached = i.attached;
  alive = i.alive;
  raw = i.raw;
}

unfoldable pub to_message : Wire.Message → Protocol.Message
to_message m = record {
  type = m.type;
  id = m.id;
  session = m.session;
  namespace = m.namespace;
  all = m.all;
  command = m.command;
  args = m.args;
  cwd = m.cwd;
  env = m.env;
  cols = m.cols;
  rows = m.rows;
  raw = m.raw;
  requested_id = m.requested_id;
  get_or_create = m.get_or_create;
  max_idle_seconds = m.max_idle_seconds;
  payload = m.payload;
  text = m.text;
  render = m.render;
  settle_ms = m.settle_ms;
  timeout_ms = m.timeout_ms;
  lines = m.lines;
  cursor = option_map to_cursor m.cursor;
  alt_screen = m.alt_screen;
  message = m.message;
  exit_code = m.exit_code;
  sessions = map to_info m.sessions;
}

unfoldable pub from_cursor : Protocol.Cursor → Wire.Cursor
from_cursor c = record { row = c.row; col = c.col; visible = c.visible }

unfoldable pub from_info : Protocol.SessionInfo → Wire.SessionInfo
from_info i = record {
  id = i.id;
  namespace = i.namespace;
  command = i.command;
  args = i.args;
  cwd = i.cwd;
  cols = i.cols;
  rows = i.rows;
  created = i.created;
  last_activity = i.last_activity;
  attached = i.attached;
  alive = i.alive;
  raw = i.raw;
}

unfoldable pub from_message : Protocol.Message → Wire.Message
from_message m = record {
  type = m.type;
  id = m.id;
  session = m.session;
  namespace = m.namespace;
  all = m.all;
  command = m.command;
  args = m.args;
  cwd = m.cwd;
  env = m.env;
  cols = m.cols;
  rows = m.rows;
  raw = m.raw;
  requested_id = m.requested_id;
  get_or_create = m.get_or_create;
  max_idle_seconds = m.max_idle_seconds;
  payload = m.payload;
  text = m.text;
  render = m.render;
  settle_ms = m.settle_ms;
  timeout_ms = m.timeout_ms;
  lines = m.lines;
  cursor = option_map from_cursor m.cursor;
  alt_screen = m.alt_screen;
  message = m.message;
  exit_code = m.exit_code;
  sessions = map from_info m.sessions;
}

-- The two sides write the same JSON
put_cursor-to_cursor :
    (c : Option Wire.Cursor) → Codec.put_cursor (option_map to_cursor c) ≡ Tags.put_cursor c
unfolding Codec.put_cursor Tags.put_cursor Codec.cursor_fields Tags.cursor_fields to_cursor
put_cursor-to_cursor none = refl
put_cursor-to_cursor (some c) = refl

write_info-to_info : (i : Wire.SessionInfo) → Codec.write_info (to_info i) ≡ Tags.write_info i
unfolding Codec.write_info Tags.write_info Codec.info_fields Tags.info_fields to_info
write_info-to_info i = refl

put_items-to_info :
    (is : List Wire.SessionInfo)
    → put_items Codec.write_info (map to_info is) ≡ put_items Tags.write_info is
unfolding put_items
put_items-to_info [] = refl
put_items-to_info (i ∷ is) = rw (write_info-to_info i, put_items-to_info is) refl

put_list-to_info :
    (is : List Wire.SessionInfo)
    → put_list Codec.write_info (map to_info is) ≡ put_list Tags.write_info is
unfolding put_list
put_list-to_info [] = refl
put_list-to_info (i ∷ is) = ap (λ x. some (array x)) (put_items-to_info (i ∷ is))

message_fields-to_message :
    (m : Wire.Message) → Codec.message_fields (to_message m) ≡ Tags.message_fields m
unfolding Codec.message_fields Tags.message_fields to_message
message_fields-to_message m = rw (put_cursor-to_cursor m.cursor, put_list-to_info m.sessions) refl

clean_map-same :
    (clean : Bytes → Bytes) (env : Env) → Codec.clean_map clean env ≡ Tags.clean_map clean env
unfolding Codec.clean_map Tags.clean_map
clean_map-same clean [] = refl
clean_map-same clean ((k, v) ∷ env) = rw (clean_map-same clean env) refl

clean_infos-same :
    (clean : Bytes → Bytes) (is : List Wire.SessionInfo)
    → map (Codec.clean_info clean) (map to_info is) ≡ map to_info (map (Tags.clean_info clean) is)
unfolding Codec.clean_info Tags.clean_info to_info
clean_infos-same clean [] = refl
clean_infos-same clean (i ∷ is) = rw (clean_infos-same clean is) refl

pub clean_message-to_message :
    (clean : Bytes → Bytes) (m : Wire.Message)
    → Codec.clean_message clean (to_message m) ≡ to_message (Tags.clean_message clean m)
unfolding Codec.clean_message Tags.clean_message to_message
clean_message-to_message clean m =
    rw (clean_map-same clean m.env, clean_infos-same clean m.sessions) refl

-- The client writes a message as the daemon would, member for member.
pub write_message-to_message :
    (clean : Bytes → Bytes) (m : Wire.Message)
    → Codec.write_message clean (to_message m) ≡ Tags.write_message clean m
unfolding Codec.write_message Tags.write_message
write_message-to_message clean m =
    rw (clean_message-to_message clean m)
      (ap (λ fs. object (members fs)) (message_fields-to_message (Tags.clean_message clean m)))

bind_some :
    {A B : Type 0} (f : A → B) (o : Option A)
    → (do b ← option_map f o; some (some b)) ≡ option_map (option_map f) (do a ← o; some (some a))
bind_some f none = refl
bind_some f (some a) = refl

bind_both :
    {A B : Type 0} (f : A → B) (o : Option A) (os : Option (List A))
    → (do b ← option_map f o; others ← option_map (map f) os; some (b ∷ others))
      ≡ option_map (map f) (do a ← o; others ← os; some (a ∷ others))
bind_both f none os = refl
bind_both f (some a) none = refl
bind_both f (some a) (some others) = refl

fill_cursor-same :
    (f : Bytes → Option Json) → Tags.fill_cursor f ≡ option_map from_cursor (Codec.fill_cursor f)
unfolding Tags.fill_cursor Codec.fill_cursor from_cursor
fill_cursor-same f = ground arith

take_cursor-same :
    (j : Option Json)
    → Tags.take_cursor j ≡ option_map (option_map from_cursor) (Codec.take_cursor j)
unfolding Tags.take_cursor Codec.take_cursor
take_cursor-same none = refl
take_cursor-same (some null) = refl
take_cursor-same (some (boolean b)) = refl
take_cursor-same (some (number n)) = refl
take_cursor-same (some (string s)) = refl
take_cursor-same (some (array is)) = refl
take_cursor-same (some (object ms)) =
    rw (fill_cursor-same (λ k. find k ms))
      (bind_some from_cursor (Codec.fill_cursor (λ k. find k ms)))

fill_info-same :
    (f : Bytes → Option Json) → Tags.fill_info f ≡ option_map from_info (Codec.fill_info f)
unfolding Tags.fill_info Codec.fill_info from_info
fill_info-same f = ground arith

read_info-same : (j : Json) → Tags.read_info j ≡ option_map from_info (Codec.read_info j)
unfolding Tags.read_info Codec.read_info Tags.no_info Codec.no_info from_info
read_info-same null = refl
read_info-same (boolean b) = refl
read_info-same (number n) = refl
read_info-same (string s) = refl
read_info-same (array is) = refl
read_info-same (object ms) = fill_info-same (λ k. find k ms)

take_items-same :
    (is : Items)
    → take_items Tags.read_info is ≡ option_map (map from_info) (take_items Codec.read_info is)
unfolding take_items
take_items-same end = refl
take_items-same (item j is) =
    rw (read_info-same j, take_items-same is)
      (bind_both from_info (Codec.read_info j) (take_items Codec.read_info is))

take_list-same :
    (j : Option Json)
    → take_list Tags.read_info j ≡ option_map (map from_info) (take_list Codec.read_info j)
unfolding take_list
take_list-same none = refl
take_list-same (some null) = refl
take_list-same (some (boolean b)) = refl
take_list-same (some (number n)) = refl
take_list-same (some (string s)) = refl
take_list-same (some (array is)) = take_items-same is
take_list-same (some (object ms)) = refl

fill_message-same :
    (f : Bytes → Option Json) → Tags.fill_message f ≡ option_map from_message (Codec.fill_message f)
unfolding Tags.fill_message Codec.fill_message from_message
fill_message-same f =
    ground (arith, take_cursor-same (f (codes "cursor")), take_list-same (f (codes "sessions")))

-- The client reads the JSON that the daemon reads, as the same message, and refuses the rest.
pub read_message-same :
    (j : Json) → Tags.read_message j ≡ option_map from_message (Codec.read_message j)
unfolding Tags.read_message Codec.read_message from_message
read_message-same null = refl
read_message-same (boolean b) = refl
read_message-same (number n) = refl
read_message-same (string s) = refl
read_message-same (array is) = refl
read_message-same (object ms) = fill_message-same (λ k. find k ms)
