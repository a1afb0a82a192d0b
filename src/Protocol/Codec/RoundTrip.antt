-- ===== src/Protocol/Codec/RoundTrip.antt =====
-- internal/protocol/protocol.go: reading back what was written, struct by struct.
use pupptyeer.Prelude.{arith, ◌≡◌, refl, true, Option, none, some, Bytes, text_eq}
use pupptyeer.Prelude.Strings.{to_lower}
use pupptyeer.Wire.Json.{
  string, take_text, take_int, take_bool, text_item, is_map, take_text-put_text, take_int-put_int,
  take_bool-put_bool, take_pointer-put_pointer, take_list-put_list, take_map-put_map,
}
use pupptyeer.Wire.Json.Fields.{field, are_distinct, is_fresh, find-all}
use pupptyeer.Protocol.{Message, SessionInfo, Cursor}
use pupptyeer.Protocol.Codec.{
  cursor_fields, put_cursor, info_fields, write_info, message_fields, fill_cursor, take_cursor,
  fill_info, read_info, fill_message, clean_message, write_message, read_message,
}

cursor-AreDistinct : (c : Cursor) → are_distinct (cursor_fields c) ≡ true
unfolding cursor_fields are_distinct is_fresh to_lower text_eq
cursor-AreDistinct c = refl

fill_cursor-field : (c : Cursor) → fill_cursor (field (cursor_fields c)) ≡ some c
unfolding cursor_fields fill_cursor field to_lower text_eq take_text take_int take_bool
fill_cursor-field c = refl

take_cursor-put_cursor : (c : Option Cursor) → take_cursor (put_cursor c) ≡ some c
unfolding take_cursor put_cursor
take_cursor-put_cursor none = refl
take_cursor-put_cursor (some c) =
    rw (find-all (cursor_fields c) (cursor-AreDistinct c), fill_cursor-field c) refl

text_back : (s : Bytes) → text_item (string s) ≡ some s
unfolding take_text
text_back s = refl

info-AreDistinct : (i : SessionInfo) → are_distinct (info_fields i) ≡ true
unfolding info_fields are_distinct is_fresh to_lower text_eq
info-AreDistinct i = refl

fill_info-field : (i : SessionInfo) → fill_info (field (info_fields i)) ≡ some i
unfolding info_fields fill_info field to_lower text_eq take_text take_int take_bool
fill_info-field i = ground (
  arith,
  take_list-put_list string text_item text_back i.args,
  take_text-put_text i.cwd,
  take_bool-put_bool i.raw,
)

read_info-write_info : (i : SessionInfo) → read_info (write_info i) ≡ some i
unfolding read_info write_info
read_info-write_info i = rw (find-all (info_fields i) (info-AreDistinct i)) (fill_info-field i)

message-AreDistinct : (m : Message) → are_distinct (message_fields m) ≡ true
unfolding message_fields are_distinct is_fresh to_lower text_eq
message-AreDistinct m = refl

fill_message-field :
    (m : Message) → is_map m.env ≡ true → fill_message (field (message_fields m)) ≡ some m
unfolding message_fields fill_message field to_lower text_eq take_text take_int take_bool
fill_message-field m h =
    rw
      (
        take_int-put_int m.id,
        take_text-put_text m.session,
        take_text-put_text m.namespace,
        take_bool-put_bool m.all,
        take_text-put_text m.command,
        take_list-put_list string text_item text_back m.args,
        take_text-put_text m.cwd,
        take_map-put_map m.env h,
        take_int-put_int m.cols,
        take_int-put_int m.rows,
        take_bool-put_bool m.raw,
        take_text-put_text m.requested_id,
        take_bool-put_bool m.get_or_create,
        take_int-put_int m.max_idle_seconds,
        take_text-put_text m.payload,
        take_text-put_text m.text,
        take_bool-put_bool m.render,
        take_int-put_int m.settle_ms,
        take_int-put_int m.timeout_ms,
        take_list-put_list string text_item text_back m.lines,
        take_cursor-put_cursor m.cursor,
        take_bool-put_bool m.alt_screen,
        take_text-put_text m.message,
        take_pointer-put_pointer m.exit_code,
        take_list-put_list write_info read_info read_info-write_info m.sessions,
      )
      refl

pub read_message-write_message :
    (clean : Bytes → Bytes) (m : Message)
    → is_map (clean_message clean m).env ≡ true
    → read_message (write_message clean m) ≡ some (clean_message clean m)
unfolding read_message write_message
read_message-write_message clean m h =
    rw
      (find-all (message_fields (clean_message clean m))
        (message-AreDistinct (clean_message clean m)))
      (fill_message-field (clean_message clean m) h)
