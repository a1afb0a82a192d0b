-- ===== src/Client.antt =====
-- clients/go/client.go: the connection of the Go client, as its goroutines step on it: the callers of
-- `call`, `send` and `Close`, the consumer of `Events`, and the reader. A call makes one channel and one
-- id, so both are its number. A step is `none` where its goroutine is blocked or not at that place. The
-- identifiers are counted without wrap-around.
pub mod Firehose
pub mod Wire
pub mod Calls
pub mod Replies
pub mod Verbs
pub mod Connect
mod Tests
use pupptyeer.Prelude.{
  ℕ, suc, ◌+◌, ◌≡◌, ◌↔◌, ◌⊎◌, inl, inr, Bool, true, false, Option, none, some, Bytes, List, [], ◌∷◌,
  ◌++◌, text_eq, codes, length, ltb, arith, if◌then◌else◌,
}
use pupptyeer.Prelude.Int.{ℤ, pos, eqb_ℤ, eq_of_parts}
use pupptyeer.Prelude.Assoc.{Eq, lookup, insert, delete, update}
use pupptyeer.Wire.Json.{◌>>=◌}
use pupptyeer.Client.Wire.{Message, blank, type_error}

pub eqb_iff : (j k : ℤ) → (eqb_ℤ j k ≡ true) ↔ (j ≡ k)
eqb_iff j k = (λ h. ground (arith, eq_of_parts j k), λ h. rw h (ground arith))

instance abbrev pub ℤ_eq : Eq ℤ
ℤ_eq = record { beq = eqb_ℤ; beq_iff = eqb_iff }

-- A caller of `call`: before it, between the registration and the write, at the `select`, and with
-- its result.
pub data Call : Type 0 where
  idle : Call
  sending : Message → Call
  waiting : Call
  returned : Bytes ⊎ Message → Call

-- The reader: at `Decode`, at the send to a waiter's channel, at the `select`, behind `failPending`, and
-- returned.
pub data Reader : Type 0 where
  reading : Reader
  giving : ℕ → Message → Reader
  offering : Message → Reader
  failed : Reader
  stopped : Reader

-- `Client`, the channels of its calls, the callers, the reader and what has been written.
pub record Client : Type 0 where
  pub namespace : Bytes
  pub next_id : ℕ
  pub pending : List (ℤ × ℕ)
  pub chan_at : ℕ → List Message
  pub call_at : ℕ → Call
  pub events : List Message
  pub events_closed : Bool
  pub closed : Bool
  pub reader : Reader
  pub sent : List Message

abbrev pub max_events : ℕ
max_events = 1024

-- `Dial` on a connection that is there.
unfoldable pub dialed : Bytes → Client
dialed ns = record {
  namespace = ns;
  next_id = 0;
  pending = [];
  chan_at = λ _. [];
  call_at = λ _. idle;
  events = [];
  events_closed = false;
  closed = false;
  reader = reading;
  sent = [];
}

-- What `call` returns for a reply.
unfoldable pub answer : Message → Bytes ⊎ Message
answer m = if text_eq m.type type_error then inl m.message else inr m

-- `ch <- m` on a channel of one place.
unfoldable pub give : (ℕ → List Message) → ℕ → Message → Option (ℕ → List Message)
give chan_at ch m = elim (chan_at ch) [ [] ↦ some (update chan_at ch (m ∷ [])) | x ∷ xs ↦ none ]

-- `failPending`: what the waiters get, in the map's order, and the channels after it.
abbrev pub failure : Bytes → ℤ → Message
failure e id = record blank { type = type_error; id = id; message = e }

unfoldable pub fail_each : Bytes → List (ℤ × ℕ) → (ℕ → List Message) → Option (ℕ → List Message)
fail_each e [] chan_at = some chan_at
fail_each e ((id, ch) ∷ rest) chan_at = do
  filled ← give chan_at ch (failure e id)
  fail_each e rest filled

unfoldable pub fail_pending : Client → Bytes → Option Client
fail_pending c e = do
  filled ← fail_each e c.pending c.chan_at
  some (record c { chan_at = filled; pending = [] })

-- `Close`, which acts once.
unfoldable pub close : Client → Client
close c = record c { closed = true }

-- The registration of `call`.
unfoldable pub begin : Client → Message → Client
begin c m =
    let id = c.next_id + 1 in
    record c {
      next_id = id;
      pending = insert (pos id) id c.pending;
      call_at = update c.call_at id (sending (record m { id = pos id }));
    }

-- The reader with a message.
unfoldable pub receive : Client → Message → Client
receive c m =
    let offered = record c { reader = offering m } in
    if eqb_ℤ m.id (pos 0) then offered else elim (lookup m.id c.pending) [
      | none ↦ offered
      | some ch ↦ record c { pending = delete m.id c.pending; reader = giving ch m }
    ]

-- The steps: of a call by its number, of the reader, of the consumer, and of anybody.
pub data Op : Type 0 where
  call : Message → Op
  write : ℕ → Op
  write_error : ℕ → Bytes → Op
  take : ℕ → Op
  give_up : ℕ → Op
  decoded : Message → Op
  decode_error : Bytes → Op
  deliver : Op
  emit : Op
  leave : Op
  wind_up : Op
  drain : Op
  send : Message → Op
  shut : Op

unfoldable pub set_call : Client → ℕ → Call → Client
set_call c n x = record c { call_at = update c.call_at n x }

-- The steps of the call with a number, by the place that it is at.
unfoldable pub call_write : Client → ℕ → Call → Option Client
call_write c n (sending m) = some (record (set_call c n waiting) { sent = c.sent ++ m ∷ [] })
call_write c n x = none

unfoldable pub call_write_error : Client → ℕ → Bytes → Call → Option Client
call_write_error c n e (sending m) =
    let c' = set_call c n (returned (inl e)) in
    some (record c' { pending = delete (pos n) c'.pending })
call_write_error c n e x = none

unfoldable pub call_take : Client → ℕ → Call → List Message → Option Client
call_take c n waiting (m ∷ ms) =
    let c' = set_call c n (returned (answer m)) in
    some (record c' { chan_at = update c'.chan_at n ms })
call_take c n x ms = none

unfoldable pub call_give_up : Client → ℕ → Call → Option Client
call_give_up c n waiting =
    if c.closed then some (set_call c n (returned (inl (codes "connection closed")))) else none
call_give_up c n x = none

-- The steps of the reader, by the place that it is at.
unfoldable pub read_message : Client → Message → Reader → Option Client
read_message c m reading = some (receive c m)
read_message c m r = none

unfoldable pub read_error : Client → Bytes → Reader → Option Client
read_error c e reading = do c' ← fail_pending c e; some (record c' { reader = failed })
read_error c e r = none

unfoldable pub read_deliver : Client → Reader → Option Client
read_deliver c (giving n m) = do
  filled ← give c.chan_at n m
  some (record c { chan_at = filled; reader = reading })
read_deliver c r = none

unfoldable pub read_emit : Client → Reader → Option Client
read_emit c (offering m) =
    if ltb (length c.events) max_events
    then some (record c { events = c.events ++ m ∷ []; reader = reading })
    else none
read_emit c r = none

unfoldable pub read_leave : Client → Reader → Option Client
read_leave c (offering m) = if c.closed then some (record c { reader = stopped }) else none
read_leave c r = none

unfoldable pub read_wind_up : Client → Reader → Option Client
read_wind_up c failed = some (record (close c) { events_closed = true; reader = stopped })
read_wind_up c r = none

unfoldable pub consume : Client → List Message → Option Client
consume c [] = none
consume c (m ∷ ms) = some (record c { events = ms })

pub step : Client → Op → Option Client
step c (call m) = some (begin c m)
step c (write n) = call_write c n (c.call_at n)
step c (write_error n e) = call_write_error c n e (c.call_at n)
step c (take n) = call_take c n (c.call_at n) (c.chan_at n)
step c (give_up n) = call_give_up c n (c.call_at n)
step c (decoded m) = read_message c m c.reader
step c (decode_error e) = read_error c e c.reader
step c deliver = read_deliver c c.reader
step c emit = read_emit c c.reader
step c leave = read_leave c c.reader
step c wind_up = read_wind_up c c.reader
step c drain = consume c c.events
step c (send m) = some (record c { sent = c.sent ++ m ∷ [] })
step c shut = some (close c)

pub run : Client → List Op → Option Client
run c [] = some c
run c (op ∷ ops) = do c' ← step c op; run c' ops
