-- ===== src/Pump/Runs.antt =====
-- internal/server/server.go: what a connection gets, over any run of the daemon.
use pupptyeer.Prelude.{
  ℕ, ◌<◌, ◌≡◌, refl, sym, subst, ◌&&◌, Option, none, some, Bytes, List, [], ◌∷◌, arith,
}
use pupptyeer.Prelude.Int.{ℤ}
use pupptyeer.Prelude.Assoc.{update_other, ℕ_eq}
use pupptyeer.World.{Host, World, raw_shutdown, get_session}
use pupptyeer.Attach
use pupptyeer.Daemon.{accept, shutdown, hang_up}
use pupptyeer.Dispatch.{dispatch}
use pupptyeer.Raw.{handshake, Pipe, connect, connect_to, input, disconnect}
use pupptyeer.Pump.{
  Pump, Op, accepts, reads, read_fails, writes, write_fails, write_ends, leaves, drops, outputs,
  exits, raw_connects, raw_reads, raw_leaves, raw_writes, raw_write_fails, raw_write_ends,
  raw_drops, closes, set_world, accept_conn, take_out, stop_writer, take_raw, stop_raw_writer,
  raw_handshake, step, run,
}
use pupptyeer.Pump.Stable.{output-Rel, child_exit-Rel, shutdown-Rel}
use pupptyeer.Pump.Requests.{dispatch-Rel, hang_up-Rel, close-Rel}
use pupptyeer.Pump.Order.{Grows, Grows-still, Grows-Stable, Flow, Grows-Flow}
use pupptyeer.Pump.Steps.{
  Flows, Flows-chain, world-Flows, still-Flows, when-Flows, some-Flows, stop_writer-Flows,
  if_running-Flows, take_out-Flows, take_raw-Flows, stop_raw_writer-Flows, with_pipe-Flows,
}

module _ (H : Host) (c : ℕ) where
  accept-Flows : (p : Pump H) → c < p.world.next_conn → Flows H c p (accept_conn H p)
  unfolding accept_conn accept
  accept-Flows p old =
      let w = p.world in
      let x = w.conn_at c in
      record {
        flow =
            subst (λ y. Flow x y (p.tried c) (p.tried c))
              (sym (update_other w.conn_at w.next_conn c _ (λ e. omega (arith, e, old))))
              (Grows-Flow x x (p.tried c) (Grows-still x x refl (ground arith)));
        numbers = omega arith;
      }

  replay_raw_keeps :
      (w : World H) (rc : ℕ) (s : Bytes)
      → ((Attach.replay_raw H w rc s).conn_at ≡ w.conn_at)
        × ((Attach.replay_raw H w rc s).next_conn ≡ w.next_conn)
  unfolding Attach.replay_raw
  replay_raw_keeps w rc [] = (refl, refl)
  replay_raw_keeps w rc (b ∷ bs) = (refl, refl)

  handshake-Flows :
      (p : Pump H) (o : Option ℕ) → Flows H c p (raw_handshake H p (connect_to H p.world o))
  unfolding raw_handshake connect_to Attach.attach_raw
  handshake-Flows p none = still-Flows H c p p refl refl refl
  handshake-Flows p (some r) =
      let keeps = replay_raw_keeps _ p.world.next_raw _ in still-Flows H c p _ refl keeps.0 keeps.1

  input-Flows :
      (p : Pump H) (d : Pipe) (now : ℤ) (bs : Bytes)
      → Flows H c p (set_world H p (input H p.world d now bs).0)
  unfolding input Attach.write
  input-Flows p d now [] =
      still-Flows H c p (set_world H p (input H p.world d now []).0) refl refl refl
  input-Flows p d now (b ∷ bs) =
      still-Flows H c p (set_world H p (input H p.world d now (b ∷ bs)).0) refl refl refl

  step-Flows : (p q : Pump H) (o : Op) → c < p.world.next_conn → step H p o ≡ some q → Flows H c p q
  unfolding step disconnect Attach.detach_raw raw_shutdown connect
  step-Flows p q accepts old e =
      when-Flows H c p.listening p (accept_conn H p) q (accept-Flows p old) e
  step-Flows p q (reads d o m) old e =
      when-Flows H c (p.reading d) p (set_world H p (dispatch H p.world o d m)) q
        (world-Flows H c p (set_world H p (dispatch H p.world o d m)) refl
          (dispatch-Rel H c Grows Grows-Stable p.world o d m))
        e
  step-Flows p q (read_fails d) old e =
      when-Flows H c (p.reading d) p _ q
        (world-Flows H c p _ refl (shutdown-Rel H c Grows Grows-Stable p.world d)) e
  step-Flows p q (writes d) old e =
      if_running-Flows H c (p.writing d) p q (take_out H p d (p.world.conn_at d).out)
        (take_out-Flows H c p q d (p.world.conn_at d).out refl) e
  step-Flows p q (write_fails d) old e =
      if_running-Flows H c (p.writing d) p q
        (stop_writer H d (take_out H p d (p.world.conn_at d).out))
        (stop_writer-Flows H c p q d (take_out H p d (p.world.conn_at d).out)
          (λ p'. take_out-Flows H c p p' d (p.world.conn_at d).out refl))
        e
  step-Flows p q (write_ends d) old e =
      when-Flows H c (p.writing d && (p.world.conn_at d).done) p _ q
        (still-Flows H c p _ refl refl refl) e
  step-Flows p q (leaves d) old e =
      when-Flows H c _ p (set_world H p (hang_up H p.world d)) q
        (world-Flows H c p (set_world H p (hang_up H p.world d)) refl
          (hang_up-Rel H c Grows Grows-Stable p.world d))
        e
  step-Flows p q (drops d) old e =
      when-Flows H c (p.world.conn_at d).dropping p (set_world H p (shutdown H p.world d)) q
        (world-Flows H c p (set_world H p (shutdown H p.world d)) refl
          (shutdown-Rel H c Grows Grows-Stable p.world d))
        e
  step-Flows p q (outputs r now bs) old e =
      some-Flows H c p (set_world H p (Attach.output H p.world r now bs)) q
        (world-Flows H c p (set_world H p (Attach.output H p.world r now bs)) refl
          (output-Rel H c Grows Grows-Stable p.world r now bs))
        e
  step-Flows p q (exits r wait) old e =
      some-Flows H c p (set_world H p (Attach.child_exit H p.world r wait)) q
        (world-Flows H c p (set_world H p (Attach.child_exit H p.world r wait)) refl
          (child_exit-Rel H c Grows Grows-Stable p.world r wait))
        e
  step-Flows p q (raw_connects line) old e =
      when-Flows H c p.listening p (raw_handshake H p (connect H p.world line)) q
        (handshake-Flows p (get_session H p.world (handshake line).0 (handshake line).1)) e
  step-Flows p q (raw_reads r now bs) old e =
      with_pipe-Flows H c p q (p.pipe r) _ (λ d. input-Flows p d now bs) e
  step-Flows p q (raw_leaves r) old e =
      with_pipe-Flows H c p q (p.pipe r) _ (λ d. still-Flows H c p _ refl refl refl) e
  step-Flows p q (raw_writes r) old e =
      if_running-Flows H c (p.raw_writing r) p q (take_raw H p r (p.world.raw_at r).out)
        (take_raw-Flows H c p q r (p.world.raw_at r).out) e
  step-Flows p q (raw_write_fails r) old e =
      if_running-Flows H c (p.raw_writing r) p q
        (stop_raw_writer H r (take_raw H p r (p.world.raw_at r).out))
        (stop_raw_writer-Flows H c p q r (take_raw H p r (p.world.raw_at r).out)
          (λ p'. take_raw-Flows H c p p' r (p.world.raw_at r).out))
        e
  step-Flows p q (raw_write_ends r) old e =
      when-Flows H c (p.raw_writing r && (p.world.raw_at r).done) p _ q
        (still-Flows H c p _ refl refl refl) e
  step-Flows p q (raw_drops r) old e =
      when-Flows H c (p.world.raw_at r).dropping p (set_world H p (raw_shutdown H p.world r)) q
        (still-Flows H c p (set_world H p (raw_shutdown H p.world r)) refl refl refl) e
  step-Flows p q (closes wait) old e =
      when-Flows H c p.listening p _ q
        (world-Flows H c p _ refl (close-Rel H c Grows Grows-Stable p.world wait)) e

  run-Flows :
      (p q : Pump H) (os : List Op) → c < p.world.next_conn → run H p os ≡ some q → Flows H c p q
  unfolding run
  run-Flows p q [] old e = some-Flows H c p p q (still-Flows H c p p refl refl refl) e
  run-Flows p q (o ∷ os) old e =
      of_step (step H p o) (λ p' f. step-Flows p p' o old f) (λ p' k f. run-Flows p' q os k f) e
    where
      of_step :
          (r : Option (Pump H))
          → ((p' : Pump H) → r ≡ some p' → Flows H c p p')
          → ((p' : Pump H) → c < p'.world.next_conn → run H p' os ≡ some q → Flows H c p' q)
          → (elim r as (λ x. Option (Pump H)) [ none ↦ none | some p' ↦ run H p' os ]) ≡ some q
          → Flows H c p q
      of_step none k l f = absurd (ground (arith, f))
      of_step (some p') k l f =
          let first = k p' refl in
          Flows-chain H c p p' q first (l p' (omega (arith, old, first.numbers)) f)

  -- Whatever the daemon's goroutines do, in whatever order, each connection that was there before a run
  -- is sent what is queued for it in order, nothing lost and nothing twice: the messages that its
  -- writer has given to `Write`, followed by those in its queue, have only grown at the end. A
  -- connection that was shut down stays so, and a queue that had at most 256 messages still has at most
  -- 256.
  pub run_in_order :
      (p q : Pump H) (os : List Op)
      → c < p.world.next_conn
      → run H p os ≡ some q
      → Flow (p.world.conn_at c) (q.world.conn_at c) (p.tried c) (q.tried c)
  run_in_order p q os old e = (run-Flows p q os old e).flow
