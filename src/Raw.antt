-- ===== src/Raw.antt =====
-- internal/server/raw.go: a connection of the raw firehose, from its handshake line to its end.
use pupptyeer.Prelude.{
  List, Bool, ℕ, suc, ◌⊎◌, inl, inr, false, Option, none, some, Bytes, [], ◌∷◌, ◌++◌, codes,
}
use pupptyeer.Prelude.Int.{ℤ}
use pupptyeer.Prelude.Strings.{trim_space, cut}
use pupptyeer.World.{Host, World, RawConn, default_namespace, set_raw, get_session, raw_shutdown}
use pupptyeer.Attach

-- `RawSocketPath`.
pub raw_socket_path : Bytes → Bytes
raw_socket_path socket = socket ++ codes ".raw"

-- The namespace and the id that the line addresses, once it is trimmed and cut at the tab.
unfoldable pub address : Bytes → Option (Bytes × Bytes) → Bytes × Bytes
address sid none = (default_namespace, sid)
address sid (some (ns, id)) = (trim_space ns, trim_space id)

unfoldable pub handshake : Bytes → Bytes × Bytes
handshake line = address (trim_space line) (cut 9 (trim_space line))

abbrev pub new_raw_conn : List Bool → RawConn
new_raw_conn picks = record { out = []; done = false; dropping = false; picks = picks }

-- A connection that was taken in: its number, and that of its session.
pub record Pipe : Type 0 where
  pub raw : ℕ
  pub session : ℕ

module _ (H : Host) where
  -- `handleRawConn` up to the input loop: the answer to a line that addresses no session, or the pipe.
  unfoldable pub connect_to : World H → Option ℕ → Bytes ⊎ (World H × Pipe)
  connect_to w none = inl (codes "ERR session not found\n")
  connect_to w (some r) =
      let rc = w.next_raw in
      let w' = record (set_raw H w rc (new_raw_conn (H.raw_picks rc))) { next_raw = suc rc } in
      inr (Attach.attach_raw H w' r rc, record { raw = rc; session = r })

  unfoldable pub connect : World H → Bytes → Bytes ⊎ (World H × Pipe)
  connect w line = connect_to w (get_session H w (handshake line).0 (handshake line).1)

  -- What it writes itself, in front of its queue: the refusal, or that the pipe is there. A connection
  -- where this write fails ends before it is attached.
  unfoldable pub greeting : Bytes ⊎ (World H × Pipe) → Bytes
  greeting (inl refusal) = refusal
  greeting (inr made) = codes "OK\n"

  -- A read of the input loop: the bytes that reach the PTY, if they do; an error is passed over.
  unfoldable pub input : World H → Pipe → ℤ → Bytes → World H × Option Bytes
  input w p now [] = (w, none)
  input w p now (b ∷ bs) = Attach.write H w p.session now (b ∷ bs)

  -- The end of the input.
  unfoldable pub disconnect : World H → Pipe → World H
  disconnect w p = raw_shutdown H (Attach.detach_raw H w p.session p.raw) p.raw
