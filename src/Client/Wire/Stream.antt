-- ===== src/Client/Wire/Stream.antt =====
-- clients/go/wire.go and internal/protocol/protocol.go at the two ends of one connection: `Encode` on
-- one side and `Decode` on the other. `print`, `parse` and `clean` are encoding/json's texts of values.
use pupptyeer.Prelude.{arith, ◌≡◌, true, Option, some, Bytes, List, map}
use pupptyeer.Wire.Json.{Json, is_map}
use pupptyeer.Wire.Lines.{eof, decode_all, encode_all, All, All-map, IsLine, decode_all-encode_all}
use pupptyeer.Protocol
use pupptyeer.Protocol.Codec
use pupptyeer.Protocol.Codec.RoundTrip.{read_message-write_message}
use pupptyeer.Client.Wire
use pupptyeer.Client.Wire.Tags
use pupptyeer.Client.Wire.Parity.{
  to_message, from_message, read_message-same, write_message-to_message, clean_message-to_message,
}

module _ (print : Json → Bytes) (parse : Bytes → Option Json) (clean : Bytes → Bytes) where
  -- encoding/json writes the value as one line of less than the limit, and reads it back.
  abbrev pub IsPrinted : Json → Type 0
  IsPrinted j = IsLine (print j) × (parse (print j) ≡ some j)

  abbrev pub ClientSends : Wire.Message → Type 0
  ClientSends m =
      IsPrinted (Tags.write_message clean m) × (is_map (Tags.clean_message clean m).env ≡ true)

  abbrev pub DaemonSends : Protocol.Message → Type 0
  DaemonSends m =
      IsPrinted (Codec.write_message clean m) × (is_map (Codec.clean_message clean m).env ≡ true)

  distinct_there :
      (m : Wire.Message)
      → is_map (Tags.clean_message clean m).env ≡ true
      → is_map (Codec.clean_message clean (to_message m)).env ≡ true
  unfolding Tags.clean_message to_message
  distinct_there m h = rw (clean_message-to_message clean m) h

  daemon_decode :
      (m : Wire.Message)
      → ClientSends m
      → Codec.decode parse (Tags.encode print clean m)
        ≡ some (to_message (Tags.clean_message clean m))
  unfolding Codec.decode Tags.encode
  daemon_decode m ((line, back), distinct) = ground (
    arith,
    write_message-to_message clean m,
    read_message-write_message clean (to_message m) (distinct_there m distinct),
    clean_message-to_message clean m,
  )

  client_decode :
      (m : Protocol.Message)
      → DaemonSends m
      → Tags.decode parse (Codec.encode print clean m)
        ≡ some (from_message (Codec.clean_message clean m))
  unfolding Codec.encode Tags.decode
  client_decode m ((line, back), distinct) = ground (
    arith,
    read_message-same (Codec.write_message clean m),
    read_message-write_message clean m distinct,
  )

  client-IsLine : (m : Wire.Message) → ClientSends m → IsLine (Tags.encode print clean m)
  unfolding Tags.encode
  client-IsLine m h = h.0.0

  daemon-IsLine : (m : Protocol.Message) → DaemonSends m → IsLine (Codec.encode print clean m)
  unfolding Codec.encode
  daemon-IsLine m h = h.0.0

  -- Whatever messages the client sends one after the other, each of whose JSON is a single line below
  -- the limit that parses to what was printed and whose environment names no variable twice, the daemon
  -- decodes these messages, each once and in order, with their texts mended, and then the end.
  pub daemon_decodes :
      (ms : List Wire.Message)
      → All ClientSends ms
      → decode_all (Codec.decode parse) (encode_all (Tags.encode print clean) ms)
        ≡ (map (λ m. to_message (Tags.clean_message clean m)) ms, eof)
  daemon_decodes ms h =
      decode_all-encode_all (Codec.decode parse) (Tags.encode print clean)
        (λ m. to_message (Tags.clean_message clean m)) ms
        (All-map (λ m h. (client-IsLine m h, daemon_decode m h)) ms h)

  -- Whatever messages the daemon sends one after the other, under the same conditions, the client
  -- decodes these messages, each once and in order, with their texts mended, and then the end.
  pub client_decodes :
      (ms : List Protocol.Message)
      → All DaemonSends ms
      → decode_all (Tags.decode parse) (encode_all (Codec.encode print clean) ms)
        ≡ (map (λ m. from_message (Codec.clean_message clean m)) ms, eof)
  client_decodes ms h =
      decode_all-encode_all (Tags.decode parse) (Codec.encode print clean)
        (λ m. from_message (Codec.clean_message clean m)) ms
        (All-map (λ m h. (daemon-IsLine m h, client_decode m h)) ms h)
