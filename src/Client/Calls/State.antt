-- ===== src/Client/Calls/State.antt =====
-- clients/go/client.go: what holds of the pending calls, their channels and the reader between steps.
use pupptyeer.Prelude.{
  ℕ, ◌+◌, ◌<◌, ◌≤◌, ◌≡◌, ◌≢◌, ◌⊎◌, inl, inr, Bool, true, false, some, Bytes, List, [], ◌∷◌, arith,
  ◌==◌, ap, Bool-cases, Option-cases,
}
use pupptyeer.Prelude.Int.{ℤ, pos, eqb_ℤ}
use pupptyeer.Prelude.Assoc.{
  lookup, delete, update, lookup-insert, lookup-delete, HasKeysOnce, insert-HasKeysOnce,
  delete-HasKeysOnce,
}
use pupptyeer.Client.Wire.{Message}
use pupptyeer.Client.{
  ℤ_eq, Client, Call, idle, sending, waiting, returned, Reader, reading, giving, offering, failed,
  stopped, dialed, close, begin, receive, set_call, eqb_iff,
}

-- At most one reply, and that of the call itself.
abbrev pub IsOwn : ℕ → List Message → Type 0
IsOwn n [] = Unit {0}
IsOwn n (m ∷ []) = m.id ≡ pos n
IsOwn n (m ∷ k ∷ ms) = ⊥

-- A call that has not returned.
abbrev pub is_open : Call → Bool
is_open idle = false
is_open (sending m) = true
is_open waiting = true
is_open (returned r) = false

-- The reader has the reply of the call in its hand.
abbrev pub is_holding : ℕ → Reader → Bool
is_holding n reading = false
is_holding n (giving k m) = n == k
is_holding n (offering m) = false
is_holding n failed = false
is_holding n stopped = false

pub record Inv (c : Client) : Type 0 where
  pub once : HasKeysOnce c.pending
  pub own :
      (i : ℤ) (n : ℕ)
      → lookup i c.pending ≡ some n
      → (i ≡ pos n) × (c.chan_at n ≡ []) × (n ≤ c.next_id) × ((m : Message) → c.reader ≢ giving n m)
  pub one : (n : ℕ) → IsOwn n (c.chan_at n)
  pub new : (n : ℕ) → c.next_id < n → (c.chan_at n ≡ []) × (c.call_at n ≡ idle)
  pub held :
      (n : ℕ) (m : Message)
      → c.reader ≡ giving n m
      → (c.chan_at n ≡ []) × (m.id ≡ pos n) × (n ≤ c.next_id)
  pub served :
      (n : ℕ)
      → is_open (c.call_at n) ≡ true
      → (lookup (pos n) c.pending ≡ some n) ⊎ (c.chan_at n ≢ []) ⊎ (is_holding n c.reader ≡ true)
  pub positive : (i : ℤ) (n : ℕ) → lookup i c.pending ≡ some n → 0 < n
  pub ended : c.reader ≡ stopped → c.closed ≡ true

pub dialed-Inv : (ns : Bytes) → Inv (dialed ns)
unfolding dialed lookup
dialed-Inv ns = ground arith

pub begin-Inv : (c : Client) (m : Message) → Inv c → Inv (begin c m)
unfolding begin
begin-Inv c m v = record {
  once = insert-HasKeysOnce (pos (c.next_id + 1)) (c.next_id + 1) c.pending v.once;
  own = λ i n h. ground (
    arith,
    v.own i n,
    v.new n,
    v.held n,
    lookup-insert (pos (c.next_id + 1)) i (c.next_id + 1) c.pending,
    eqb_iff (pos (c.next_id + 1)) i,
  );
  one = v.one;
  new = λ n h. ground (arith, v.new n);
  held = λ n k h. ground (arith, v.held n k h);
  served = λ n h.
      ground
        (arith, v.served n, lookup-insert (pos (c.next_id + 1)) (pos n) (c.next_id + 1) c.pending);
  positive = λ i n h.
      ground
        (arith, v.positive i n, lookup-insert (pos (c.next_id + 1)) i (c.next_id + 1) c.pending);
  ended = v.ended;
}

-- A call that is not idle is one of those made.
pub made : (c : Client) (n : ℕ) → Inv c → c.call_at n ≢ idle → n ≤ c.next_id
made c n v h = ground (arith, v.new n)

pub set_call-Inv :
    (c : Client) (n : ℕ) (x : Call)
    → n ≤ c.next_id
    → (is_open x ≡ true → is_open (c.call_at n) ≡ true)
    → Inv c
    → Inv (set_call c n x)
unfolding set_call
set_call-Inv c n x h open_before v = ground arith

pub drop_pending-Inv :
    (c : Client) (i : ℤ)
    → ((n : ℕ) → i ≡ pos n → is_open (c.call_at n) ≡ false)
    → Inv c
    → Inv (record c { pending = delete i c.pending })
drop_pending-Inv c i gone v = record {
  once = delete-HasKeysOnce i c.pending v.once;
  own = λ j n h. ground (arith, v.own j n, lookup-delete i j c.pending);
  one = v.one;
  new = v.new;
  held = v.held;
  served = λ k g.
      ground (arith, v.served k g, gone k, lookup-delete i (pos k) c.pending, eqb_iff i (pos k));
  positive = λ j n h. ground (arith, v.positive j n, lookup-delete i j c.pending);
  ended = v.ended;
}

pub move-Inv :
    (c : Client) (r : Reader)
    → ((n : ℕ) (m : Message) → r ≢ giving n m)
    → (r ≡ stopped → c.closed ≡ true)
    → ((n : ℕ) → is_holding n c.reader ≡ false)
    → Inv c
    → Inv (record c { reader = r })
move-Inv c r free over empty v = ground arith

hold-Inv :
    (c : Client) (m : Message) (n : ℕ)
    → lookup m.id c.pending ≡ some n
    → ((k : ℕ) → is_holding k c.reader ≡ false)
    → Inv c
    → Inv (record c { pending = delete m.id c.pending; reader = giving n m })
hold-Inv c m n e empty v = record {
  once = delete-HasKeysOnce m.id c.pending v.once;
  own = λ i k h.
      ground (arith, v.own i k, v.own m.id n e, lookup-delete m.id i c.pending, eqb_iff m.id i);
  one = v.one;
  new = v.new;
  held = λ k x h. ground (arith, v.own m.id n e);
  served = λ k h. ground (
    arith,
    v.served k h,
    empty k,
    v.own m.id n e,
    lookup-delete m.id (pos k) c.pending,
    eqb_iff m.id (pos k),
  );
  positive = λ j k h. ground (arith, v.positive j k, lookup-delete m.id j c.pending);
  ended = λ h. cc;
}

pub receive-Inv :
    (c : Client) (m : Message)
    → ((n : ℕ) → is_holding n c.reader ≡ false)
    → Inv c
    → Inv (receive c m)
unfolding receive
receive-Inv c m empty v = elim (Bool-cases (eqb_ℤ m.id (pos 0))) [
  | inl zero ↦ rw zero offered
  | inr tagged ↦ rw tagged (elim (Option-cases (lookup m.id c.pending)) [
    | inl unknown ↦ rw unknown offered
    | inr (n, known) ↦ rw known (hold-Inv c m n known empty v)
  ])
]
  where
    offered : Inv (record c { reader = offering m })
    offered = move-Inv c (offering m) (λ n k h. cc) (λ h. cc) empty v

pub deliver-Inv :
    (c : Client) (n : ℕ) (m : Message)
    → c.reader ≡ giving n m
    → Inv c
    → Inv (record c { chan_at = update c.chan_at n (m ∷ []); reader = reading })
deliver-Inv c n m r v = record {
  once = v.once;
  own = λ i k h. ground (arith, v.own i k h, (v.own i k h).3 m, r);
  one = λ k. elim (Bool-cases (n == k)) [
    | inl same ↦ rw same (ground (arith, v.held n m r))
    | inr other ↦ rw other (v.one k)
  ];
  new = λ k h. ground (arith, v.new k, v.held n m r);
  held = λ k x h. cc;
  served = λ k h. ground (arith, v.served k h, ap (is_holding k) r);
  positive = v.positive;
  ended = λ h. cc;
}

IsOwn-tail : (n k : ℕ) (m : Message) (ms : List Message) → IsOwn n (m ∷ ms) → IsOwn k ms
IsOwn-tail n k m [] h = record {}
IsOwn-tail n k m (x ∷ ms) h = absurd h

pub take-Inv :
    (c : Client) (n : ℕ) (m : Message) (ms : List Message)
    → c.chan_at n ≡ m ∷ ms
    → is_open (c.call_at n) ≡ false
    → Inv c
    → Inv (record c { chan_at = update c.chan_at n ms })
take-Inv c n m ms e gone v = ground arith

-- What is sent and the events do not matter.
pub log-Inv :
    (c : Client) (events sent : List Message)
    → Inv c
    → Inv (record c { events = events; sent = sent })
log-Inv c events sent v = ground arith

pub close-Inv : (c : Client) (over : Bool) → Inv c → Inv (record (close c) { events_closed = over })
unfolding close
close-Inv c over v = ground arith
