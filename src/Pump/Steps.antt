-- ===== src/Pump/Steps.antt =====
-- internal/server/server.go and raw.go: single operations of the daemon's goroutines, for one connection.
use pupptyeer.Prelude.{
  ℕ, ◌≤◌, ◌≡◌, refl, sym, subst, Bool, true, false, Option, none, some, Bytes, List, [], ◌∷◌, ◌++◌,
  arith, if◌then◌else◌, ◌==◌,
}
use pupptyeer.Prelude.Assoc.{update, ℕ_eq}
use pupptyeer.Protocol.{Message}
use pupptyeer.World.{Host, Conn, set_conn, raw_shutdown}
use pupptyeer.Daemon.{shutdown}
use pupptyeer.Raw.{Pipe}
use pupptyeer.Pump.{Pump, when, take_out, stop_writer, take_raw, stop_raw_writer, with_pipe}
use pupptyeer.Pump.Stable.{Rel, shutdown-Rel}
use pupptyeer.Pump.Order.{Grows, Grows-still, Grows-Stable, Flow, Grows-Flow, Flow-chain, Flow-take}

module _ (H : Host) (c : ℕ) where
  -- Between two states of the daemon, for the connection: and no number is given out twice.
  pub record Flows (p q : Pump H) : Type 0 where
    pub flow : Flow (p.world.conn_at c) (q.world.conn_at c) (p.tried c) (q.tried c)
    pub numbers : p.world.next_conn ≤ q.world.next_conn

  pub Flows-chain : (p q r : Pump H) → Flows p q → Flows q r → Flows p r
  Flows-chain p q r a b = record {
    flow =
        Flow-chain (p.world.conn_at c) (q.world.conn_at c) (r.world.conn_at c) (p.tried c)
          (q.tried c) (r.tried c) a.flow b.flow;
    numbers = omega (arith, a.numbers, b.numbers);
  }

  -- An operation on the world alone.
  pub world-Flows :
      (p q : Pump H) → q.tried ≡ p.tried → Rel H c Grows Grows-Stable p.world q.world → Flows p q
  world-Flows p q e (grows, same) = record {
    flow =
        subst
          (λ (f : ℕ → List Message). Flow (p.world.conn_at c) (q.world.conn_at c) (p.tried c) (f c))
          (sym e) (Grows-Flow (p.world.conn_at c) (q.world.conn_at c) (p.tried c) grows);
    numbers = omega (arith, same);
  }

  pub take_out-Flows :
      (p q : Pump H) (d : ℕ) (ms : List Message)
      → (p.world.conn_at d).out ≡ ms
      → take_out H p d ms ≡ some q
      → Flows p q
  unfolding take_out
  take_out-Flows p q d [] e f = absurd (ground (arith, f))
  take_out-Flows p q d (m ∷ ms) e f =
      let taken = record (p.world.conn_at d) { out = ms } in
      let q' : Pump H = record p {
        world = set_conn H p.world d taken;
        tried = update p.tried d (p.tried d ++ m ∷ []);
      } in
      let same : q' ≡ q = ground (arith, f) in
      subst (Flows p) same (record { flow = of_test (d == c) refl; numbers = omega arith })
    where
      of_test :
          (b : Bool)
          → (d == c) ≡ b
          → Flow
              (p.world.conn_at c)
              (if b then record (p.world.conn_at d) { out = ms } else p.world.conn_at c)
              (p.tried c)
              (if b then p.tried d ++ m ∷ [] else p.tried c)
      of_test true own =
          let here : d ≡ c = ground (arith, own) in
          subst
            (λ k.
              Flow (p.world.conn_at k) (record (p.world.conn_at d) { out = ms }) (p.tried k)
                (p.tried d ++ m ∷ []))
            here (Flow-take (p.world.conn_at d) (p.tried d) m ms e)
      of_test false other =
          Grows-Flow (p.world.conn_at c) (p.world.conn_at c) (p.tried c)
            (Grows-still (p.world.conn_at c) (p.world.conn_at c) refl (ground arith))

  pub still-Flows :
      (p q : Pump H)
      → q.tried ≡ p.tried
      → q.world.conn_at ≡ p.world.conn_at
      → q.world.next_conn ≡ p.world.next_conn
      → Flows p q
  still-Flows p q e f g = world-Flows p q e (
    subst (λ (h : ℕ → Conn). Grows (p.world.conn_at c) (h c)) (sym f)
        (Grows-still (p.world.conn_at c) (p.world.conn_at c) refl (ground arith)),
    g,
  )

  pub when-Flows : (b : Bool) (p p' q : Pump H) → Flows p p' → when H b p' ≡ some q → Flows p q
  when-Flows true p p' q h e = let same : p' ≡ q = ground (arith, e) in subst (Flows p) same h
  when-Flows false p p' q h e = absurd (ground (arith, e))

  pub some-Flows : (p p' q : Pump H) → Flows p p' → some p' ≡ some q → Flows p q
  some-Flows p p' q h e = let same : p' ≡ q = ground (arith, e) in subst (Flows p) same h

  pub stop_writer-Flows :
      (p : Pump H) (q : Pump H) (d : ℕ) (r : Option (Pump H))
      → ((p' : Pump H) → r ≡ some p' → Flows p p')
      → stop_writer H d r ≡ some q
      → Flows p q
  stop_writer-Flows p q d none k e = absurd (ground (arith, e))
  stop_writer-Flows p q d (some p') k e =
      let stopped = record p' {
        world = shutdown H p'.world d;
        writing = update p'.writing d false;
      } in
      some-Flows p stopped q
        (Flows-chain p p' stopped (k p' refl)
          (world-Flows p' stopped refl (shutdown-Rel H c Grows Grows-Stable p'.world d)))
        e

  abbrev pub if_running : Bool → Option (Pump H) → Option (Pump H)
  if_running b r = if b then r else none

  pub if_running-Flows :
      (b : Bool) (p q : Pump H) (r : Option (Pump H))
      → (r ≡ some q → Flows p q)
      → if_running b r ≡ some q
      → Flows p q
  if_running-Flows true p q r k e = k e
  if_running-Flows false p q r k e = absurd (ground (arith, e))

  pub take_raw-Flows :
      (p q : Pump H) (r : ℕ) (bs : List Bytes) → take_raw H p r bs ≡ some q → Flows p q
  unfolding take_raw
  take_raw-Flows p q r [] e = absurd (ground (arith, e))
  take_raw-Flows p q r (b ∷ bs) e = some-Flows p _ q (still-Flows p _ refl refl refl) e

  pub stop_raw_writer-Flows :
      (p q : Pump H) (r : ℕ) (x : Option (Pump H))
      → ((p' : Pump H) → x ≡ some p' → Flows p p')
      → stop_raw_writer H r x ≡ some q
      → Flows p q
  unfolding raw_shutdown
  stop_raw_writer-Flows p q r none k e = absurd (ground (arith, e))
  stop_raw_writer-Flows p q r (some p') k e =
      some-Flows p _ q (Flows-chain p p' _ (k p' refl) (still-Flows p' _ refl refl refl)) e

  pub with_pipe-Flows :
      (p q : Pump H) (x : Option Pipe) (f : Pipe → Pump H)
      → ((d : Pipe) → Flows p (f d))
      → with_pipe H x f ≡ some q
      → Flows p q
  with_pipe-Flows p q none f k e = absurd (ground (arith, e))
  with_pipe-Flows p q (some d) f k e = some-Flows p (f d) q (k d) e
