-- ===== src/Pump.antt =====
-- internal/server/server.go and raw.go: the daemon as its goroutines run it: the loops that accept, read
-- and write (`Serve`, `run`, `readLoop`, `writeLoop`, `serveRaw`, `handleRawConn`), around the functions of
-- the other files. What one goroutine does between two waits is one operation; they come in any order.
pub mod Stable
pub mod Creates
pub mod Requests
pub mod Order
pub mod Steps
pub mod Runs
pub mod Served
mod Tests
use pupptyeer.Prelude.{
  ℕ, suc, Bool, true, false, not, ◌&&◌, Option, none, some, ◌⊎◌, inl, inr, Bytes, List, [], ◌∷◌,
  ◌++◌, if◌then◌else◌,
}
use pupptyeer.Prelude.Int.{ℤ}
use pupptyeer.Prelude.Assoc.{update, lookup, ℕ_eq}
use pupptyeer.Core.{WaitResult}
use pupptyeer.Protocol.{Message}
use pupptyeer.World.{Host, World, Conn, RawConn, set_conn, set_raw, raw_shutdown}
use pupptyeer.Attach
use pupptyeer.Daemon.{Outside, accept, shutdown, hang_up, close}
use pupptyeer.Dispatch.{dispatch}
use pupptyeer.Raw
use pupptyeer.Raw.{Pipe, connect, input, disconnect}

-- The daemon and its goroutines: whether it listens; which connections' loops run; what has been given
-- to `Write` on each socket, in order; and the pipes whose input is read.
pub record Pump (H : Host) : Type 0 where
  pub world : World H
  pub listening : Bool
  pub reading : ℕ → Bool
  pub writing : ℕ → Bool
  pub tried : ℕ → List Message
  pub raw_writing : ℕ → Bool
  pub raw_tried : ℕ → List Bytes
  pub pipe : ℕ → Option Pipe

-- What a goroutine does next.
pub data Op : Type 0 where
  -- `Serve`: a connection is accepted.
  accepts : Op
  -- `readLoop`: a message is decoded and dispatched; `Decode` fails.
  reads : ℕ → Outside → Message → Op
  read_fails : ℕ → Op
  -- `writeLoop`: the next message is written; its `Write` fails; `done` is seen.
  writes write_fails write_ends : ℕ → Op
  -- `Serve`: both loops have ended.
  leaves : ℕ → Op
  -- `send`: the shutdown of a connection whose queue was full.
  drops : ℕ → Op
  -- A session's read loop: the child wrote, and it ended.
  outputs : ℕ → ℤ → Bytes → Op
  exits : ℕ → WaitResult → Op
  -- `handleRawConn`: its handshake, a read, the end of its input; and the loop of its writer.
  raw_connects : Bytes → Op
  raw_reads : ℕ → ℤ → Bytes → Op
  raw_leaves raw_writes raw_write_fails raw_write_ends raw_drops : ℕ → Op
  -- `Close`.
  closes : WaitResult → Op

module _ (H : Host) where
  abbrev pub set_world : Pump H → World H → Pump H
  set_world p w = record p { world = w }

  abbrev pub when : Bool → Pump H → Option (Pump H)
  when b p = if b then some p else none

  unfoldable pub accept_conn : Pump H → Pump H
  accept_conn p =
      let c = p.world.next_conn in
      record p {
        world = accept H p.world;
        reading = update p.reading c true;
        writing = update p.writing c true;
      }

  -- The head of the queue is given to `Write`.
  unfoldable pub take_out : Pump H → ℕ → List Message → Option (Pump H)
  take_out p c [] = none
  take_out p c (m ∷ ms) = some (record p {
    world = set_conn H p.world c (record (p.world.conn_at c) { out = ms });
    tried = update p.tried c (p.tried c ++ m ∷ []);
  })

  -- `shutdown` and the return of the loop.
  abbrev pub stop_writer : ℕ → Option (Pump H) → Option (Pump H)
  stop_writer c none = none
  stop_writer c (some p) =
      some (record p { world = shutdown H p.world c; writing = update p.writing c false })

  unfoldable pub take_raw : Pump H → ℕ → List Bytes → Option (Pump H)
  take_raw p r [] = none
  take_raw p r (b ∷ bs) = some (record p {
    world = set_raw H p.world r (record (p.world.raw_at r) { out = bs });
    raw_tried = update p.raw_tried r (p.raw_tried r ++ b ∷ []);
  })

  abbrev pub stop_raw_writer : ℕ → Option (Pump H) → Option (Pump H)
  stop_raw_writer r none = none
  stop_raw_writer r (some p) =
      some
        (record p { world = raw_shutdown H p.world r; raw_writing = update p.raw_writing r false })

  unfoldable pub raw_handshake : Pump H → Bytes ⊎ (World H × Pipe) → Pump H
  raw_handshake p (inl refusal) = p
  raw_handshake p (inr (w, q)) = record p {
    world = w;
    raw_writing = update p.raw_writing q.raw true;
    pipe = update p.pipe q.raw (some q);
  }

  abbrev pub with_pipe : Option Pipe → (Pipe → Pump H) → Option (Pump H)
  with_pipe none f = none
  with_pipe (some q) f = some (f q)

  -- Whether the connection is among the server's.
  abbrev pub is_known : Option Bool → Bool
  is_known none = false
  is_known (some b) = true

  -- One operation, `none` where it cannot happen.
  unfoldable pub step : Pump H → Op → Option (Pump H)
  step p accepts = when p.listening (accept_conn p)
  step p (reads c o m) = when (p.reading c) (set_world p (dispatch H p.world o c m))
  step p (read_fails c) =
      when (p.reading c)
        (record p { world = shutdown H p.world c; reading = update p.reading c false })
  step p (writes c) = if p.writing c then take_out p c (p.world.conn_at c).out else none
  step p (write_fails c) =
      if p.writing c then stop_writer c (take_out p c (p.world.conn_at c).out) else none
  step p (write_ends c) =
      when (p.writing c && (p.world.conn_at c).done)
        (record p { writing = update p.writing c false })
  step p (leaves c) =
      when (is_known (lookup c p.world.conns) && not (p.reading c) && not (p.writing c))
        (set_world p (hang_up H p.world c))
  step p (drops c) = when (p.world.conn_at c).dropping (set_world p (shutdown H p.world c))
  step p (outputs r now bs) = some (set_world p (Attach.output H p.world r now bs))
  step p (exits r wait) = some (set_world p (Attach.child_exit H p.world r wait))
  step p (raw_connects line) = when p.listening (raw_handshake p (connect H p.world line))
  step p (raw_reads r now bs) = with_pipe (p.pipe r) λ q. set_world p (input H p.world q now bs).0
  step p (raw_leaves r) =
      with_pipe (p.pipe r)
        λ q. record p { world = disconnect H p.world q; pipe = update p.pipe r none }
  step p (raw_writes r) = if p.raw_writing r then take_raw p r (p.world.raw_at r).out else none
  step p (raw_write_fails r) =
      if p.raw_writing r then stop_raw_writer r (take_raw p r (p.world.raw_at r).out) else none
  step p (raw_write_ends r) =
      when (p.raw_writing r && (p.world.raw_at r).done)
        (record p { raw_writing = update p.raw_writing r false })
  step p (raw_drops r) = when (p.world.raw_at r).dropping (set_world p (raw_shutdown H p.world r))
  step p (closes wait) =
      when p.listening (record p { world = close H p.world wait; listening = false })

  -- A run of the daemon.
  unfoldable pub run : Pump H → List Op → Option (Pump H)
  run p [] = some p
  run p (o ∷ os) = elim (step p o) [ none ↦ none | some p' ↦ run p' os ]
