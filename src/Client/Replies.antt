-- ===== src/Client/Replies.antt =====
-- clients/go/client.go: the way of a reply, or of the connection's end, to the caller that waits for it.
use pupptyeer.Prelude.{
  ℕ, ◌<◌, ◌≡◌, refl, inl, inr, some, Bytes, List, [], ◌∷◌, arith, subst, ap, ◌∙◌, text_eq_refl,
  codes,
}
use pupptyeer.Prelude.Int.{ℤ, pos}
use pupptyeer.Prelude.Assoc.{lookup, delete, update, update_same}
use pupptyeer.Client.Wire.{Message, type_error}
use pupptyeer.Client.{
  ℤ_eq, Client, waiting, returned, Reader, reading, giving, failed, stopped, Op, take, decoded,
  give_up, decode_error, deliver, call_give_up, step, run, dialed, failure, fail_pending, receive,
  answer, set_call, call_take, read_message, read_error, read_deliver,
}
use pupptyeer.Client.Calls.{run-IsInv}
use pupptyeer.Client.Calls.State.{Inv, IsOwn}
use pupptyeer.Client.Calls.Failure.{give-fills, fail_pending-fills, failed_chan, after_failure}

-- What `Decode` returns for a message that answers a call, and the steps that follow it.
abbrev pub replied : ℕ → Message → List Op
replied n m = decoded m ∷ deliver ∷ take n ∷ []

receive-known :
    (c : Client) (m : Message) (n : ℕ)
    → lookup m.id c.pending ≡ some n
    → 0 < n
    → m.id ≡ pos n
    → receive c m ≡ record c { pending = delete m.id c.pending; reader = giving n m }
unfolding receive
receive-known c m n known some_id own = ground (arith, known, own)

take-found :
    (c : Client) (n : ℕ) (m : Message) (ms : List Message)
    → c.call_at n ≡ waiting
    → c.chan_at n ≡ m ∷ ms
    → (c' : Client) × (step c (take n) ≡ some c')
      × (c'.call_at n ≡ returned (answer m))
      × (c'.reader ≡ c.reader)
unfolding step call_take set_call
take-found c n m ms w f = rw (w, f) (_, refl, ground arith, refl)

step-decoded :
    (c : Client) (m : Message) → c.reader ≡ reading → step c (decoded m) ≡ some (receive c m)
unfolding step read_message
step-decoded c m r = rw r refl

step-deliver :
    (c : Client) (n : ℕ) (m : Message)
    → c.reader ≡ giving n m
    → c.chan_at n ≡ []
    → step c deliver ≡ some (record c { chan_at = update c.chan_at n (m ∷ []); reader = reading })
unfolding step read_deliver
step-deliver c n m r h = rw (r, give-fills c.chan_at n m h) refl

-- A waiting call whose channel is empty while the reader is at `Decode` is registered.
pending-waiting :
    (c : Client) (n : ℕ)
    → Inv c
    → c.reader ≡ reading
    → c.call_at n ≡ waiting
    → c.chan_at n ≡ []
    → lookup (pos n) c.pending ≡ some n
pending-waiting c n v r w h = elim (v.served n (rw w refl)) [
  | inl known ↦ known
  | inr (inl full) ↦ absurd (full h)
  | inr (inr held) ↦ absurd (ground (arith, held, r))
]

-- In every state that the connection gets to from `Dial` in which the reader is at `Decode` and a call
-- waits with an empty channel: when the next message has the call's id, the reader hands it over
-- without blocking and is at `Decode` again, and the call returns what it makes of this reply.
pub reply_reaches :
    (ns : Bytes) (ops : List Op) (c : Client) (n : ℕ) (m : Message)
    → run (dialed ns) ops ≡ some c
    → c.reader ≡ reading
    → c.call_at n ≡ waiting
    → c.chan_at n ≡ []
    → m.id ≡ pos n
    → (c' : Client) × (run c (replied n m) ≡ some c')
      × (c'.call_at n ≡ returned (answer m))
      × (c'.reader ≡ reading)
unfolding run
reply_reaches ns ops c n m reached r w h own =
    let v = run-IsInv ns ops c reached in
    let known = pending-waiting c n v r w h in
    let c1 : Client = record c { pending = delete m.id c.pending; reader = giving n m } in
    let c2 : Client = record c1 { chan_at = update c.chan_at n (m ∷ []); reader = reading } in
    let (c3, taken, result, at_decode) =
      take-found c2 n m [] w (update_same c.chan_at n (m ∷ [])) in
    rw
      (
        step-decoded c m r,
        receive-known c m n (rw own known) (v.positive (pos n) n known) own,
        step-deliver c1 n m refl h,
        taken,
      )
      (c3, refl, result, at_decode)

-- In every state that the connection gets to from `Dial`: what the reader has in its hand for a call is
-- a reply with the call's id, and the call's channel takes it at once, so the reader goes on.
pub reader_goes_on :
    (ns : Bytes) (ops : List Op) (c : Client) (n : ℕ) (m : Message)
    → run (dialed ns) ops ≡ some c
    → c.reader ≡ giving n m
    → (m.id ≡ pos n)
      × (step c deliver
          ≡ some (record c { chan_at = update c.chan_at n (m ∷ []); reader = reading }))
reader_goes_on ns ops c n m reached r =
    let v = run-IsInv ns ops c reached in ((v.held n m r).1, step-deliver c n m r (v.held n m r).0)

-- A call that takes a reply, in any state that the connection gets to, takes one with its own id, and
-- leaves its channel empty.
pub own_reply :
    (ns : Bytes) (ops : List Op) (c : Client) (n : ℕ) (m : Message) (ms : List Message)
    → run (dialed ns) ops ≡ some c
    → c.chan_at n ≡ m ∷ ms
    → (m.id ≡ pos n) × (ms ≡ [])
own_reply ns ops c n m ms reached h =
    only n m ms (subst (IsOwn n) h ((run-IsInv ns ops c reached).one n))
  where
    only : (n : ℕ) (m : Message) (ms : List Message) → IsOwn n (m ∷ ms) → (m.id ≡ pos n) × (ms ≡ [])
    only n m [] own = (own, refl)
    only n m (k ∷ ms) own = absurd own

answer-failure : (e : Bytes) (i : ℤ) → answer (failure e i) ≡ inl e
unfolding answer
answer-failure e i = rw (text_eq_refl type_error) refl

step-decode_error :
    (c c' : Client) (e : Bytes) (r : Reader)
    → r ≡ reading
    → fail_pending c e ≡ some c'
    → read_error c e r ≡ some (record c' { reader = failed })
unfolding read_error
step-decode_error c c' e r at_decode done = rw at_decode (rw done refl)

failed_known :
    (c : Client) (e : Bytes) (n : ℕ)
    → lookup (pos n) c.pending ≡ some n
    → failed_chan e c.pending c.chan_at n ≡ failure e (pos n) ∷ []
unfolding failed_chan after_failure
failed_known c e n h = rw h refl

-- In every state that the connection gets to from `Dial` in which the reader is at `Decode` and a call
-- waits with an empty channel: when the connection fails, `failPending` does not block, and the call
-- returns the error of the connection.
pub failure_reaches :
    (ns : Bytes) (ops : List Op) (c : Client) (n : ℕ) (e : Bytes)
    → run (dialed ns) ops ≡ some c
    → c.reader ≡ reading
    → c.call_at n ≡ waiting
    → c.chan_at n ≡ []
    → (c' : Client) × (run c (decode_error e ∷ take n ∷ []) ≡ some c')
      × (c'.call_at n ≡ returned (inl e))
unfolding run step
failure_reaches ns ops c n e reached r w h =
    let v = run-IsInv ns ops c reached in
    let (filled, done, each) = fail_pending-fills c e v in
    let c1 : Client = record c { chan_at = filled; pending = [] } in
    let c2 : Client = record c1 { reader = failed } in
    let (c3, taken, result, _) =
      take-found c2 n (failure e (pos n)) [] w
        (each n ∙ failed_known c e n (pending-waiting c n v r w h)) in
    rw (step-decode_error c c1 e c.reader r done, taken)
      (c3, refl, result ∙ ap returned (answer-failure e (pos n)))

-- In every state that the connection gets to from `Dial` in which the reader has returned, a call that
-- waits can return "connection closed".
pub stop_reaches :
    (ns : Bytes) (ops : List Op) (c : Client) (n : ℕ)
    → run (dialed ns) ops ≡ some c
    → c.reader ≡ stopped
    → c.call_at n ≡ waiting
    → step c (give_up n) ≡ some (set_call c n (returned (inl (codes "connection closed"))))
unfolding step call_give_up
stop_reaches ns ops c n reached r w = rw (w, (run-IsInv ns ops c reached).ended r) refl
