-- ===== src/Client/Tests.antt =====
-- The theorems on the Go client at concrete inputs.
use pupptyeer.Prelude.{
  ◌≡◌, ◌⊎◌, inl, inr, refl, true, Option, none, some, Bytes, List, [], ◌∷◌, ◌++◌, codes, map,
  text_eq, copy,
}
use pupptyeer.Prelude.Int.{pos, negsuc}
use pupptyeer.Prelude.Strings.{trim_left, trim_right, trim_space, cut}
use pupptyeer.Prelude.Assoc.{lookup, insert}
use pupptyeer.Wire.Json.{Json, is_map}
use pupptyeer.Wire.Lines.{eof, decode_all, encode_all, is_plain}
use pupptyeer.Core.{exit_error}
use pupptyeer.Protocol
use pupptyeer.Protocol.Codec
use pupptyeer.World.{get_session, ns_of, push_chunk}
use pupptyeer.World.Sample.{host, world}
use pupptyeer.Daemon.{Outside}
use pupptyeer.Raw.{handshake, address, connect, connect_to, greeting}
use pupptyeer.Client.Firehose.{attach_raw, delivered, queued, promised, attach_raw_reads}
use pupptyeer.Attach
use pupptyeer.Ring
use pupptyeer.Client.Wire.Tags
use pupptyeer.Client.Wire.{Message, blank, type_kill}
use pupptyeer.Client.Wire.Parity.{to_message, from_message, option_map, read_message-same}
use pupptyeer.Client.Wire.Stream.{daemon_decodes}
use pupptyeer.Client.{
  ℤ_eq, Client, Op, call, write, decode_error, take, reading, waiting, returned, run, step, dialed,
  begin, call_write, answer, set_call,
}
use pupptyeer.Client.Calls.{run-IsInv}
use pupptyeer.Client.Calls.State.{Inv}
use pupptyeer.Client.Replies.{replied, reply_reaches, failure_reaches}
use pupptyeer.Client.Verbs.{Program, with_raw, raw_line, ns, ensure_session}
use pupptyeer.Client.Verbs.Ensure.{kept, asked, Ensures, ensure_session_asks}
use pupptyeer.Client.Verbs.Daemon.{Method, kill, has_tab}

abbrev space : Bytes
space = codes "work"

-- A call of `Kill` that has been written.
abbrev request : Message
request = record blank { type = type_kill; session = codes "a"; namespace = space }

abbrev ops : List Op
ops = call request ∷ write 1 ∷ []

abbrev numbered_request : Message
numbered_request = record request { id = pos 1 }

abbrev client : Client
client = record (set_call (begin (dialed space) request) 1 waiting) { sent = numbered_request ∷ [] }

client-reached : run (dialed space) ops ≡ some client
unfolding run step begin call_write dialed set_call
client-reached = refl

-- Its reply.
abbrev reply : Message
reply = record blank { type = codes "ok"; id = pos 1 }

run-IsInv_example : Inv client
run-IsInv_example = run-IsInv space ops client client-reached

reply_reaches_example :
    (c' : Client) × (run client (replied 1 reply) ≡ some c')
    × (c'.call_at 1 ≡ returned (answer reply))
    × (c'.reader ≡ reading)
unfolding begin dialed set_call
reply_reaches_example = reply_reaches space ops client 1 reply client-reached refl refl refl refl

failure_reaches_example :
    (c' : Client) × (run client (decode_error (codes "EOF") ∷ take 1 ∷ []) ≡ some c')
    × (c'.call_at 1 ≡ returned (inl (codes "EOF")))
unfolding begin dialed set_call
failure_reaches_example =
    failure_reaches space ops client 1 (codes "EOF") client-reached refl refl refl

-- A text for the one request, and its value.
abbrev as_is : Bytes → Bytes
as_is s = s

abbrev print_it : Json → Bytes
print_it j = codes "{}"

abbrev parse_it : Bytes → Option Json
parse_it line = some (Tags.write_message as_is request)

daemon_decodes_example :
    decode_all (Codec.decode parse_it) (encode_all (Tags.encode print_it as_is) (request ∷ []))
    ≡ (map (λ m. to_message (Tags.clean_message as_is m)) (request ∷ []), eof)
unfolding is_plain is_map Tags.clean_message Tags.clean_map
daemon_decodes_example =
    daemon_decodes print_it parse_it as_is (request ∷ [])
      ((((refl, refl, refl), refl), refl), record {})

-- A message of the daemon with an environment variable.
abbrev told : Protocol.Message
told = record Protocol.blank { type = codes "ok"; id = pos 1; env = (codes "A", codes "b") ∷ [] }

abbrev parse_told : Bytes → Option Json
parse_told line = some (Codec.write_message as_is told)

read_message-same_example :
    Tags.read_message (Codec.write_message as_is told)
    ≡ option_map from_message (Codec.read_message (Codec.write_message as_is told))
read_message-same_example = read_message-same (Codec.write_message as_is told)

abbrev program : Program
program = record {
  command = codes "sh";
  args = [];
  cwd = [];
  env = [];
  cols = pos 80;
  rows = pos 24;
}

-- A daemon that has no session.
abbrev no_sessions : List Message → Message → Bytes ⊎ Message
no_sessions log m = inr blank

ensure_session_asks_example :
    let ask = asked space (with_raw ∷ []) in
    Ensures no_sessions space
      (codes "a")
      program
      (with_raw ∷ [])
      ([] ++ ask ∷ [])
      (no_sessions [] ask)
      (ensure_session (kept no_sessions) space [] (codes "a") program (with_raw ∷ []))
ensure_session_asks_example =
    ensure_session_asks no_sessions space (codes "a") program (with_raw ∷ []) []

abbrev outside : Outside
outside = record {
  now = pos 10;
  spawn = λ c cols rows. none;
  fresh_id = codes "f";
  reaped = exit_error (negsuc 0);
  locked = true;
}

abbrev method : Method
method = kill (codes "a") []

-- The daemon's line and the scrollback, cut in the middle, and two bytes of output behind them.
abbrev reads : List Bytes
reads = codes "O" ∷ codes "K\nhel" ∷ codes "lo ok" ∷ []

attach_raw_reads_example : delivered (attach_raw true true reads) ≡ inr (codes "hello ok")
unfolding raw_line ns trim_left trim_right has_tab handshake trim_space cut address get_session
    lookup text_eq ns_of connect connect_to greeting queued Attach.attach_raw Attach.replay_raw
    push_chunk promised insert Ring.snapshot copy
attach_raw_reads_example =
    attach_raw_reads host world (codes "default") (codes "a") [] (codes " ok") reads
      (refl, refl, refl) refl (refl, refl, refl) refl
