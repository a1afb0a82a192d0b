-- ===== src/World.antt =====
-- internal/server: the state that the daemon's goroutines share, as a store of the objects that they
-- reach by pointer (connections, raw connections and sessions, by number) and the registry.
pub mod Registry
pub mod Sample
mod Tests
use pupptyeer.Prelude.{
  ℕ, suc, ◌≡◌, ◌↔◌, ◌⊎◌, Bool, true, false, ◌&&◌, Option, none, some, Bytes, List, [], ◌∷◌, ◌++◌,
  codes, text_eq, text_eq_sound, text_eq_refl, length, ltb, ◌==◌, arith, if◌then◌else◌,
}
use pupptyeer.Prelude.Int.{ℤ}
use pupptyeer.Prelude.Assoc.{Eq, lookup, insert, delete, update}
use pupptyeer.Core
use pupptyeer.Core.Terminal.{Emulator}
use pupptyeer.Protocol.{Message, blank, type_error}

-- What the daemon takes from outside: the emulator, base64 (`EncodeData`, `DecodeData`), and the
-- RFC 3339 form of a time. A failed `decode` is the error's text.
pub record Host : Type 1 where
  pub emulator : Emulator
  pub encode : Bytes → Bytes
  pub decode : Bytes → Bytes ⊎ Bytes
  pub format_time : ℤ → Bytes
  pub conn_picks : ℕ → List Bool
  pub raw_picks : ℕ → List Bool

-- `sessKey`.
pub record SessKey : Type 0 where
  pub ns : Bytes
  pub id : Bytes

abbrev pub key_eq : SessKey → SessKey → Bool
key_eq j k = text_eq j.ns k.ns && text_eq j.id k.id

pub key_eq_iff : (j k : SessKey) → (key_eq j k ≡ true) ↔ (j ≡ k)
key_eq_iff j k = (
  λ h. ground (arith, text_eq_sound j.ns k.ns, text_eq_sound j.id k.id),
  λ h. rw h (ground (arith, text_eq_refl k.ns, text_eq_refl k.id)),
)

instance abbrev pub SessKey_eq : Eq SessKey
SessKey_eq = record { beq = key_eq; beq_iff = key_eq_iff }

-- `winsize`.
pub record Winsize : Type 0 where
  pub cols : ℤ
  pub rows : ℤ

-- `conn`: its queue, whether `done` is closed, whether a `go c.shutdown()` of a full queue is
-- pending, the sessions that it is attached to, and which case the `select` of `send` is going to take
-- (true: the queue) each time that both are ready.
pub record Conn : Type 0 where
  pub out : List Message
  pub done : Bool
  pub dropping : Bool
  pub picks : List Bool
  pub attached : List (SessKey × Bool)

-- `rawConn`, with the cases that the `select` of `enqueue` is going to take.
pub record RawConn : Type 0 where
  pub out : List Bytes
  pub done : Bool
  pub dropping : Bool
  pub picks : List Bool

-- `session`, with the connections and raw connections that subscribe to it.
pub record Sess (H : Host) : Type 0 where
  pub id : Bytes
  pub namespace : Bytes
  pub command : Bytes
  pub args : List Bytes
  pub cwd : Bytes
  pub created : ℤ
  pub core : Core.Session H.emulator
  pub attachments : List (ℕ × Winsize)
  pub raw_subs : List (ℕ × Bool)

-- `Server` and the objects that it reaches.
pub record World (H : Host) : Type 0 where
  pub conns : List (ℕ × Bool)
  pub sessions : List (SessKey × ℕ)
  pub conn_at : ℕ → Conn
  pub raw_at : ℕ → RawConn
  pub sess_at : ℕ → Sess H
  pub next_conn : ℕ
  pub next_raw : ℕ
  pub next_sess : ℕ

abbrev pub outbound_queue : ℕ
outbound_queue = 256

abbrev pub raw_queue : ℕ
raw_queue = 64

abbrev pub default_namespace : Bytes
default_namespace = codes "default"

unfoldable pub ns_of : Bytes → Bytes
ns_of [] = default_namespace
ns_of (b ∷ bs) = b ∷ bs

-- The `select` of `send` and `enqueue` with `done` closed and room in the queue: either case may be
-- taken. Where the picks have run out it is `done`.
unfoldable pub select_queue : List Bool → Bool × List Bool
select_queue [] = (false, [])
select_queue (b ∷ bs) = (b, bs)

-- `send`.
unfoldable pub push_message : Conn → Message → Conn
push_message c m =
    let room = ltb (length c.out) outbound_queue in
    let (queued, rest) = select_queue c.picks in
    if c.done
    then (if room
        then record c { out = if queued then c.out ++ m ∷ [] else c.out; picks = rest }
        else c)
    else (if room then record c { out = c.out ++ m ∷ [] } else record c { dropping = true })

-- `enqueue` of a raw connection.
unfoldable pub push_chunk : RawConn → Bytes → RawConn
push_chunk rc b =
    let room = ltb (length rc.out) raw_queue in
    let (queued, rest) = select_queue rc.picks in
    if rc.done
    then (if room
        then record rc { out = if queued then rc.out ++ b ∷ [] else rc.out; picks = rest }
        else rc)
    else (if room then record rc { out = rc.out ++ b ∷ [] } else record rc { dropping = true })

module _ (H : Host) where
  abbrev pub key_of : Sess H → SessKey
  key_of s = record { ns = s.namespace; id = s.id }

  abbrev pub set_conn : World H → ℕ → Conn → World H
  set_conn w c x = record w { conn_at = update w.conn_at c x }

  abbrev pub set_raw : World H → ℕ → RawConn → World H
  set_raw w r x = record w { raw_at = update w.raw_at r x }

  abbrev pub set_sess : World H → ℕ → Sess H → World H
  set_sess w r x = record w { sess_at = update w.sess_at r x }

  abbrev pub set_core : World H → ℕ → Core.Session H.emulator → World H
  set_core w r x = set_sess w r (record (w.sess_at r) { core = x })

  unfoldable pub send : World H → ℕ → Message → World H
  send w c m = set_conn w c (push_message (w.conn_at c) m)

  unfoldable pub send_error : World H → ℕ → ℤ → Bytes → Bytes → Bytes → World H
  send_error w c id ns session text = send w c (record blank {
    type = type_error;
    id = id;
    namespace = ns;
    session = session;
    message = text;
  })

  -- `conn.addSession` and `conn.dropSession`.
  unfoldable pub conn_add_session : World H → ℕ → SessKey → World H
  conn_add_session w c k =
      let x = w.conn_at c in set_conn w c (record x { attached = insert k true x.attached })

  unfoldable pub conn_drop_session : World H → ℕ → SessKey → World H
  conn_drop_session w c k =
      let x = w.conn_at c in set_conn w c (record x { attached = delete k x.attached })

  -- `rawConn.shutdown` runs once.
  unfoldable pub raw_shutdown : World H → ℕ → World H
  raw_shutdown w r = set_raw w r (record (w.raw_at r) { done = true })

  -- `Server.addSession`: the session that holds the id afterwards.
  unfoldable pub add_session : World H → ℕ → World H × ℕ
  add_session w r =
      let key = key_of (w.sess_at r) in
      let registered = record w { sessions = insert key r w.sessions } in
      elim (lookup key w.sessions) [
        | some cur ↦ if (w.sess_at cur).core.alive then (w, cur) else (registered, r)
        | none ↦ (registered, r)
      ]

  -- `Server.removeSession`: only if the id is still mapped to this session.
  unfoldable pub remove_session : World H → ℕ → World H
  remove_session w r =
      let key = key_of (w.sess_at r) in
      elim (lookup key w.sessions) [
        | some cur ↦ if cur == r then record w { sessions = delete key w.sessions } else w
        | none ↦ w
      ]

  -- `Server.getSession`.
  unfoldable pub get_session : World H → Bytes → Bytes → Option ℕ
  get_session w ns id = lookup (record { ns = ns_of ns; id = id }) w.sessions
