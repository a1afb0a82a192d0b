-- ===== src/Client/Calls.antt =====
-- clients/go/client.go: the map of pending calls, their channels, and the reader that fills them.
pub mod State
pub mod Failure
use pupptyeer.Prelude.{
  ℕ, ◌+◌, ◌<◌, ◌≤◌, ◌≡◌, ◌≢◌, refl, ◌⊎◌, inl, inr, Bool, true, false, Option, none, some, Bytes,
  List, [], ◌∷◌, ◌++◌, arith, if◌then◌else◌, ◌==◌, subst, sym, ap, ◌∙◌, Bool-cases, Option-cases,
}
use pupptyeer.Prelude.Int.{ℤ, pos, eqb_ℤ}
use pupptyeer.Prelude.Assoc.{
  lookup, delete, update, lookup-insert, lookup-delete, HasKeysOnce, insert-HasKeysOnce,
  delete-HasKeysOnce,
}
use pupptyeer.Wire.Json.{◌>>=◌}
use pupptyeer.Client.Wire.{Message}
use pupptyeer.Client.{
  ℤ_eq, Client, Call, idle, sending, waiting, returned, Reader, reading, giving, offering, failed,
  stopped, Op, call, write, write_error, take, give_up, decoded, decode_error, deliver, emit, leave,
  wind_up, drain, send, shut, step, run, dialed, give, failure, fail_each, fail_pending, close,
  begin, receive, answer, set_call, call_write, call_write_error, call_take, call_give_up,
  read_message, read_error, read_deliver, read_emit, read_leave, read_wind_up, consume, eqb_iff,
}
use pupptyeer.Client.Calls.State.{
  IsOwn, is_open, is_holding, Inv, dialed-Inv, begin-Inv, made, set_call-Inv, drop_pending-Inv,
  move-Inv, receive-Inv, deliver-Inv, take-Inv, log-Inv, close-Inv,
}
use pupptyeer.Client.Calls.Failure.{
  give-fills, after_failure, failed_chan, fail_pending-fills, fail-Inv,
}

-- What a step leaves, if it can be done.
Keeps : Option Client → Type 0
Keeps none = Unit {0}
Keeps (some c) = Inv c

Keeps-if : (b : Bool) (c : Client) → (b ≡ true → Inv c) → Keeps (if b then some c else none)
unfolding Keeps
Keeps-if true c h = h refl
Keeps-if false c h = record {}

call_write-Inv :
    (c : Client) (n : ℕ) (x : Call) → c.call_at n ≡ x → Inv c → Keeps (call_write c n x)
unfolding Keeps call_write set_call
call_write-Inv c n idle e v = record {}
call_write-Inv c n (sending m) e v = ground arith
call_write-Inv c n waiting e v = record {}
call_write-Inv c n (returned r) e v = record {}

call_write_error-Inv :
    (c : Client) (n : ℕ) (text : Bytes) (x : Call)
    → c.call_at n ≡ x
    → Inv c
    → Keeps (call_write_error c n text x)
unfolding Keeps call_write_error set_call
call_write_error-Inv c n text idle e v = record {}
call_write_error-Inv c n text (sending m) e v =
    drop_pending-Inv (set_call c n (returned (inl text))) (pos n) (λ k h. ground (arith, h))
      (set_call-Inv c n (returned (inl text)) (made c n v (λ h. cc)) (λ h. ground (arith, e)) v)
call_write_error-Inv c n text waiting e v = record {}
call_write_error-Inv c n text (returned r) e v = record {}

call_take-Inv :
    (c : Client) (n : ℕ) (x : Call) (ms : List Message)
    → c.call_at n ≡ x
    → c.chan_at n ≡ ms
    → Inv c
    → Keeps (call_take c n x ms)
unfolding Keeps call_take set_call
call_take-Inv c n idle ms e f v = record {}
call_take-Inv c n (sending m) ms e f v = record {}
call_take-Inv c n waiting [] e f v = record {}
call_take-Inv c n waiting (m ∷ ms) e f v = ground arith
call_take-Inv c n (returned r) ms e f v = record {}

call_give_up-Inv :
    (c : Client) (n : ℕ) (x : Call) → c.call_at n ≡ x → Inv c → Keeps (call_give_up c n x)
unfolding Keeps call_give_up
call_give_up-Inv c n idle e v = record {}
call_give_up-Inv c n (sending m) e v = record {}
call_give_up-Inv c n waiting e v =
    Keeps-if c.closed _
      (λ h. set_call-Inv c n (returned (inl _)) (made c n v (λ h. cc)) (λ h. ground (arith, e)) v)
call_give_up-Inv c n (returned r) e v = record {}

-- A step that the reader is not at.
read_error-Inv :
    (c : Client) (text : Bytes) (r : Reader) → c.reader ≡ r → Inv c → Keeps (read_error c text r)
unfolding Keeps read_error
read_error-Inv c text reading e v =
    let (filled, done, each) = fail_pending-fills c text v in
    rw done (fail-Inv c text filled each (λ n. rw e refl) v)
read_error-Inv c text (giving n m) e v = record {}
read_error-Inv c text (offering m) e v = record {}
read_error-Inv c text failed e v = record {}
read_error-Inv c text stopped e v = record {}

read_deliver-Inv : (c : Client) (r : Reader) → c.reader ≡ r → Inv c → Keeps (read_deliver c r)
unfolding Keeps read_deliver
read_deliver-Inv c reading e v = record {}
read_deliver-Inv c (giving n m) e v =
    rw (give-fills c.chan_at n m (v.held n m e).0) (deliver-Inv c n m e v)
read_deliver-Inv c (offering m) e v = record {}
read_deliver-Inv c failed e v = record {}
read_deliver-Inv c stopped e v = record {}

read_emit-Inv : (c : Client) (r : Reader) → c.reader ≡ r → Inv c → Keeps (read_emit c r)
unfolding Keeps read_emit
read_emit-Inv c reading e v = record {}
read_emit-Inv c (giving n m) e v = record {}
read_emit-Inv c (offering m) e v = ground arith
read_emit-Inv c failed e v = record {}
read_emit-Inv c stopped e v = record {}

read_leave-Inv : (c : Client) (r : Reader) → c.reader ≡ r → Inv c → Keeps (read_leave c r)
unfolding Keeps read_leave
read_leave-Inv c reading e v = record {}
read_leave-Inv c (giving n m) e v = record {}
read_leave-Inv c (offering m) e v = ground arith
read_leave-Inv c failed e v = record {}
read_leave-Inv c stopped e v = record {}

read_wind_up-Inv : (c : Client) (r : Reader) → c.reader ≡ r → Inv c → Keeps (read_wind_up c r)
unfolding Keeps read_wind_up close
read_wind_up-Inv c reading e v = record {}
read_wind_up-Inv c (giving n m) e v = record {}
read_wind_up-Inv c (offering m) e v = record {}
read_wind_up-Inv c failed e v = ground arith
read_wind_up-Inv c stopped e v = record {}

read_message-Inv :
    (c : Client) (m : Message) (r : Reader) → c.reader ≡ r → Inv c → Keeps (read_message c m r)
unfolding Keeps read_message
read_message-Inv c m reading e v = receive-Inv c m (λ n. rw e refl) v
read_message-Inv c m (giving n k) e v = record {}
read_message-Inv c m (offering k) e v = record {}
read_message-Inv c m failed e v = record {}
read_message-Inv c m stopped e v = record {}

consume-Inv : (c : Client) (ms : List Message) → Inv c → Keeps (consume c ms)
unfolding Keeps consume
consume-Inv c [] v = record {}
consume-Inv c (m ∷ ms) v = log-Inv c ms c.sent v

step-Inv : (c : Client) (op : Op) → Inv c → Keeps (step c op)
unfolding Keeps step close
step-Inv c (call m) v = begin-Inv c m v
step-Inv c (write n) v = call_write-Inv c n (c.call_at n) refl v
step-Inv c (write_error n e) v = call_write_error-Inv c n e (c.call_at n) refl v
step-Inv c (take n) v = call_take-Inv c n (c.call_at n) (c.chan_at n) refl refl v
step-Inv c (give_up n) v = call_give_up-Inv c n (c.call_at n) refl v
step-Inv c (decoded m) v = read_message-Inv c m c.reader refl v
step-Inv c (decode_error e) v = read_error-Inv c e c.reader refl v
step-Inv c deliver v = read_deliver-Inv c c.reader refl v
step-Inv c emit v = read_emit-Inv c c.reader refl v
step-Inv c leave v = read_leave-Inv c c.reader refl v
step-Inv c wind_up v = read_wind_up-Inv c c.reader refl v
step-Inv c drain v = consume-Inv c c.events v
step-Inv c (send m) v = log-Inv c c.events (c.sent ++ m ∷ []) v
step-Inv c shut v = close-Inv c c.events_closed v

Keeps-bind :
    (o : Option Client) (k : Client → Option Client)
    → Keeps o
    → ((c : Client) → Inv c → Keeps (k c))
    → Keeps (o >>= k)
unfolding Keeps
Keeps-bind none k h f = record {}
Keeps-bind (some c) k h f = f c h

run-Inv : (c : Client) (ops : List Op) → Inv c → Keeps (run c ops)
unfolding run Keeps
run-Inv c [] v = v
run-Inv c (op ∷ ops) v =
    Keeps-bind (step c op) (λ c'. run c' ops) (step-Inv c op v) (λ c' v'. run-Inv c' ops v')

-- In every state that the connection gets to from `Dial`, by any sequence of steps of callers, reader,
-- consumer and `Close`: no id is pending twice; a pending id is that of a call made, whose channel is
-- empty and for which the reader holds nothing; a channel has at most one message, with its call's id; a
-- call not made yet has nothing; the reader holds a reply only for the call of its id, whose channel is
-- empty; a call that has not returned is pending, or its reply is in the reader's hand or in its
-- channel; and once the reader has returned the connection is closed.
pub run-IsInv : (ns : Bytes) (ops : List Op) (c : Client) → run (dialed ns) ops ≡ some c → Inv c
unfolding Keeps
run-IsInv ns ops c h = subst Keeps h (run-Inv (dialed ns) ops (dialed-Inv ns))
