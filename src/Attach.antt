-- ===== src/Attach.antt =====
-- internal/server/session.go: the daemon's session, which adds to the core the clients that are
-- attached to it, the replay of the scrollback, and the size that they agree on.
pub mod Size
pub mod Replay
pub mod Exit
pub mod Kill
pub mod Start
mod Tests
use pupptyeer.Prelude.{
  ℕ, zero, suc, ◌+◌, ◌==◌, Bool, true, false, ◌&&◌, ◌||◌, Option, none, some, ◌⊎◌, inl, inr, Bytes,
  List, [], ◌∷◌, ◌++◌, codes, length, take, drop, map, if◌then◌else◌,
}
use pupptyeer.Prelude.Int.{ℤ, pos, ltb_ℤ, eqb_ℤ}
use pupptyeer.Prelude.Assoc.{lookup, insert, delete, ℕ_eq}
use pupptyeer.Core
use pupptyeer.Core.{StartError, WaitResult, Command}
use pupptyeer.Ring
use pupptyeer.Protocol.{
  Message, SessionInfo, blank, type_output, type_scrollback_end, type_exit, type_session_closed,
}
use pupptyeer.World.{
  Host, World, Sess, Conn, RawConn, Winsize, SessKey, ns_of, key_of, push_chunk, set_raw, set_sess,
  set_core, send, conn_add_session, conn_drop_session, raw_shutdown, remove_session,
}

abbrev pub pty_chunk : ℕ
pty_chunk = 32768

abbrev pub ring_size : ℤ
ring_size = pos 262144

-- The loop of `attach` over the snapshot, with fuel: pieces of at most `n` bytes.
pub split_chunks : ℕ → ℕ → Bytes → List Bytes
split_chunks n zero bs = []
split_chunks n (suc fuel) [] = []
split_chunks n (suc fuel) (b ∷ bs) = take n (b ∷ bs) ∷ split_chunks n fuel (drop n (b ∷ bs))

-- The smaller of the size so far (0 for none) and a client's, if the client has one.
pub vote : ℤ → ℤ → ℤ
vote best n = if ltb_ℤ (pos 0) n && (eqb_ℤ best (pos 0) || ltb_ℤ n best) then n else best

-- The loop of `recomputeSizeLocked` over the attachments.
pub votes : ℤ → ℤ → List (ℕ × Winsize) → ℤ × ℤ
votes cols rows [] = (cols, rows)
votes cols rows ((c, ws) ∷ rest) = votes (vote cols ws.cols) (vote rows ws.rows) rest

-- `k+"="+v` for every entry of the map, or no environment at all for an empty map.
pub env_lines : List (Bytes × Bytes) → List Bytes
env_lines [] = []
env_lines ((k, v) ∷ env) = (k ++ b'=' ∷ v) ∷ env_lines env

pub child_env : List (Bytes × Bytes) → Option (List Bytes)
child_env [] = none
child_env (kv ∷ env) = some (env_lines (kv ∷ env))

-- What `newSession` asks of the core.
pub to_config : Message → Core.Config
to_config p = record {
  command = p.command;
  args = p.args;
  cwd = p.cwd;
  env = child_env p.env;
  cols = p.cols;
  rows = p.rows;
  raw = p.raw;
  ring_size = ring_size;
}

abbrev pub or_id : Bytes → Bytes → Bytes
or_id [] fresh = fresh
or_id (b ∷ bs) fresh = b ∷ bs

module _ (H : Host) where
  -- `newSession`: the session stands in the store under the next number, not yet in the registry.
  -- `fresh` is the identifier that `newID` would return.
  unfoldable pub new_session :
      World H → Message → (Command → ℕ → ℕ → Option Bytes) → Bytes → ℤ → StartError ⊎ World H
  new_session w p spawn fresh now = elim (Core.start H.emulator (to_config p) spawn now) [
    | inl e ↦ inl e
    | inr core ↦
        let s : Sess H = record {
          id = or_id p.requested_id fresh;
          namespace = ns_of p.namespace;
          command = p.command;
          args = p.args;
          cwd = p.cwd;
          created = now;
          core = core;
          attachments = [];
          raw_subs = [];
        } in
        inr (record (set_sess H w w.next_sess s) { next_sess = suc w.next_sess })
  ]

  -- A message of session `s`, as its events carry them.
  abbrev pub event : Sess H → Bytes → Message
  event s type = record blank { type = type; namespace = s.namespace; session = s.id }

  unfoldable pub send_each : World H → List (ℕ × Winsize) → Message → World H
  send_each w [] m = w
  send_each w ((c, ws) ∷ cs) m = send_each (send H w c m) cs m

  unfoldable pub enqueue_each : World H → List (ℕ × Bool) → Bytes → World H
  enqueue_each w [] b = w
  enqueue_each w ((r, _) ∷ rs) b = enqueue_each (set_raw H w r (push_chunk (w.raw_at r) b)) rs b

  -- `onOutput`: every attached connection gets the chunk, and every raw connection its bytes.
  unfoldable pub on_output : World H → ℕ → Bytes → World H
  on_output w r chunk =
      let s = w.sess_at r in
      enqueue_each
        (send_each w s.attachments (record (event s type_output) { payload = H.encode chunk }))
        s.raw_subs chunk

  -- A round of the core's read loop with its `OnOutput`.
  unfoldable pub output : World H → ℕ → ℤ → Bytes → World H
  output w r now [] = w
  output w r now (b ∷ bs) =
      on_output (set_core H w r (Core.read_chunk H.emulator (w.sess_at r).core now (b ∷ bs))) r
        (b ∷ bs)

  -- What `onExit` tells one connection.
  unfoldable pub tell_exit : World H → Sess H → ℤ → ℕ → World H
  tell_exit w s code c =
      let exit = record (event s type_exit) { exit_code = some code } in
      let told = if s.core.killed then w else send H w c exit in
      conn_drop_session H (send H told c (event s type_session_closed)) c (key_of H s)

  unfoldable pub tell_each : World H → Sess H → ℤ → List (ℕ × Winsize) → World H
  tell_each w s code [] = w
  tell_each w s code ((c, ws) ∷ cs) = tell_each (tell_exit w s code c) s code cs

  unfoldable pub shutdown_each : World H → List (ℕ × Bool) → World H
  shutdown_each w [] = w
  shutdown_each w ((r, _) ∷ rs) = shutdown_each (raw_shutdown H w r) rs

  -- `onExit`.
  unfoldable pub on_exit : World H → ℕ → ℤ → World H
  on_exit w r code =
      let s = w.sess_at r in
      let emptied = set_sess H w r (record s { attachments = []; raw_subs = [] }) in
      remove_session H (shutdown_each (tell_each emptied s code s.attachments) s.raw_subs) r

  abbrev pub exit_hook : World H → ℕ → Option ℤ → World H
  exit_hook w r none = w
  exit_hook w r (some code) = on_exit w r code

  -- The end of the read loop: `finish`, with its `OnExit`.
  unfoldable pub child_exit : World H → ℕ → WaitResult → World H
  child_exit w r wait =
      let (core, code) = Core.finish H.emulator (w.sess_at r).core wait in
      exit_hook (set_core H w r core) r code

  -- `kill`, with the `OnExit` of the read loop that it waits for.
  unfoldable pub kill : World H → ℕ → WaitResult → World H
  kill w r wait =
      let (core, code) = Core.kill H.emulator (w.sess_at r).core wait in
      exit_hook (set_core H w r core) r code

  -- `recomputeSizeLocked`.
  unfoldable pub recompute_size : Sess H → Sess H
  recompute_size s =
      let (cols, rows) = votes (pos 0) (pos 0) s.attachments in
      if eqb_ℤ cols (pos 0) || eqb_ℤ rows (pos 0)
      then s
      else record s { core = (Core.resize_locked H.emulator s.core cols rows).0 }

  unfoldable pub replay : World H → Sess H → ℕ → List Bytes → World H
  replay w s c [] = w
  replay w s c (p ∷ ps) =
      replay (send H w c (record (event s type_output) { payload = H.encode p })) s c ps

  -- `attach`.
  unfoldable pub attach : World H → ℕ → ℕ → ℤ → ℤ → World H
  attach w r c cols rows =
      let s = w.sess_at r in
      let ws : Winsize = record { cols = cols; rows = rows } in
      let s' = recompute_size (record s { attachments = insert c ws s.attachments }) in
      let w' = set_sess H (conn_add_session H w c (key_of H s)) r s' in
      let snapshot = Ring.snapshot s'.core.ring in
      send H (replay w' s' c (split_chunks pty_chunk (suc (length snapshot)) snapshot)) c
        (event s' type_scrollback_end)

  -- `detach`.
  unfoldable pub detach : World H → ℕ → ℕ → World H
  detach w r c =
      let s = w.sess_at r in
      let s' = recompute_size (record s { attachments = delete c s.attachments }) in
      conn_drop_session H (set_sess H w r s') c (key_of H s)

  unfoldable pub replay_raw : World H → ℕ → Bytes → World H
  replay_raw w rc [] = w
  replay_raw w rc (b ∷ bs) = set_raw H w rc (push_chunk (w.raw_at rc) (b ∷ bs))

  -- `attachRaw` and `detachRaw`.
  unfoldable pub attach_raw : World H → ℕ → ℕ → World H
  attach_raw w r rc =
      let s = w.sess_at r in
      let subscribed = set_sess H w r (record s { raw_subs = insert rc true s.raw_subs }) in
      replay_raw subscribed rc (Ring.snapshot s.core.ring)

  unfoldable pub detach_raw : World H → ℕ → ℕ → World H
  detach_raw w r rc =
      let s = w.sess_at r in set_sess H w r (record s { raw_subs = delete rc s.raw_subs })

  -- `resizeFrom`.
  unfoldable pub resize_from : World H → ℕ → ℕ → ℤ → ℤ → World H
  resize_from w r c cols rows =
      let s = w.sess_at r in
      let ws : Winsize = record { cols = cols; rows = rows } in
      let voted : Sess H = elim (lookup c s.attachments) [
        | none ↦ s
        | some old ↦ record s { attachments = insert c ws s.attachments }
      ] in
      set_sess H w r (recompute_size voted)

  -- `info`.
  unfoldable pub info : Sess H → SessionInfo
  info s = record {
    id = s.id;
    namespace = s.namespace;
    command = s.command;
    args = s.args;
    cwd = s.cwd;
    cols = s.core.eff_cols;
    rows = s.core.eff_rows;
    created = H.format_time s.created;
    last_activity = H.format_time s.core.last_activity;
    attached = pos (length s.attachments);
    alive = s.core.alive;
    raw = s.core.raw;
  }

  -- `write`: the bytes that reach the PTY, or `none`.
  unfoldable pub write : World H → ℕ → ℤ → Bytes → World H × Option Bytes
  write w r now b =
      let (core, told) = Core.write H.emulator (w.sess_at r).core now b in
      (set_core H w r core, told)
