-- ===== src/Daemon.antt =====
-- internal/server/server.go: the daemon's registry walks (`listSessions`, `gc`), the life of a
-- connection, and `Close`.
pub mod Collect
pub mod Shutdown
mod Tests
use pupptyeer.Prelude.{
  ℕ, suc, Bool, true, false, ◌||◌, Option, none, some, Bytes, List, [], ◌∷◌, text_eq, if◌then◌else◌,
}
use pupptyeer.Prelude.Int.{ℤ, pos, leb_ℤ, ltb_ℤ, ◌+ℤ◌, ◌-ℤ◌, ◌*ℤ◌, to_signed}
use pupptyeer.Prelude.Assoc.{insert, delete, ℕ_eq}
use pupptyeer.Core.{WaitResult, Command}
use pupptyeer.Protocol.{SessionInfo}
use pupptyeer.World.{Host, World, Conn, SessKey, ns_of, set_conn, get_session}
use pupptyeer.Attach

-- What a request meets outside the daemon: the clock, the operating system's answer to a new child,
-- the identifier that `newID` would return, how a killed child is reaped, whether `lockTimeout` got
-- the lock.
pub record Outside : Type 0 where
  pub now : ℤ
  pub spawn : Command → ℕ → ℕ → Option Bytes
  pub fresh_id : Bytes
  pub reaped : WaitResult
  pub locked : Bool

-- `cutoff`, with the product of the negated duration in 64 bits.
unfoldable pub gc_cutoff : ℤ → ℤ → ℤ
gc_cutoff now max_idle =
    let seconds = if ltb_ℤ max_idle (pos 0) then pos 0 else max_idle in
    now +ℤ to_signed 9223372036854775808 ((pos 0 -ℤ seconds) *ℤ pos 1000000000)

module _ (H : Host) where
  -- The sessions of a walk over the registry that lie in the namespace, or all of them.
  unfoldable pub in_scope : List (SessKey × ℕ) → Bytes → Bool → List ℕ
  in_scope [] ns all = []
  in_scope ((k, r) ∷ m) ns all =
      let rest = in_scope m ns all in if all || text_eq k.ns ns then r ∷ rest else rest

  unfoldable pub infos : World H → List ℕ → List SessionInfo
  infos w [] = []
  infos w (r ∷ rs) = Attach.info H (w.sess_at r) ∷ infos w rs

  -- `listSessions`.
  unfoldable pub listed : World H → Bytes → Bool → List SessionInfo
  listed w ns all = infos w (in_scope w.sessions (ns_of ns) all)

  -- The victims of `gc` among a walk's sessions.
  unfoldable pub idle_since : World H → ℤ → List ℕ → List ℕ
  idle_since w cutoff [] = []
  idle_since w cutoff (r ∷ rs) =
      let rest = idle_since w cutoff rs in
      if leb_ℤ (w.sess_at r).core.last_activity cutoff then r ∷ rest else rest

  unfoldable pub kill_each : World H → List ℕ → WaitResult → World H × List SessionInfo
  kill_each w [] wait = (w, [])
  kill_each w (r ∷ rs) wait =
      let (w', reaped) = kill_each (Attach.kill H w r wait) rs wait in
      (w', Attach.info H (w.sess_at r) ∷ reaped)

  -- `gc`: the victims are chosen under the lock, and killed after it.
  unfoldable pub collect : World H → Outside → ℤ → Bytes → Bool → World H × List SessionInfo
  collect w o max_idle ns all =
      let cutoff = gc_cutoff o.now max_idle in
      kill_each w (idle_since w cutoff (in_scope w.sessions (ns_of ns) all)) o.reaped

  -- The sessions that `shutdown` detaches the connection from.
  unfoldable pub detach_each : World H → ℕ → List (SessKey × Bool) → World H
  detach_each w c [] = w
  detach_each w c ((k, _) ∷ ks) = elim (get_session H w k.ns k.id) [
    | none ↦ detach_each w c ks
    | some r ↦ detach_each (Attach.detach H w r c) c ks
  ]

  -- `conn.shutdown`, which runs once.
  unfoldable pub shutdown : World H → ℕ → World H
  shutdown w c =
      let x = w.conn_at c in
      if x.done then w else detach_each (set_conn H w c (record x { done = true })) c x.attached

  abbrev new_conn : ℕ → Conn
  new_conn c = record {
    out = [];
    done = false;
    dropping = false;
    picks = H.conn_picks c;
    attached = [];
  }

  -- `Serve`: a connection is accepted; and what its goroutine does when `run` returns.
  unfoldable pub accept : World H → World H
  accept w =
      let w' = set_conn H w w.next_conn (new_conn w.next_conn) in
      record w' { conns = insert w.next_conn true w.conns; next_conn = suc w.next_conn }

  unfoldable pub hang_up : World H → ℕ → World H
  hang_up w c = let w' = shutdown w c in record w' { conns = delete c w'.conns }

  unfoldable pub shutdown_all : World H → List (ℕ × Bool) → World H
  shutdown_all w [] = w
  shutdown_all w ((c, _) ∷ cs) = shutdown_all (shutdown w c) cs

  -- `Close`: the connections and sessions of the moment are shut down and killed.
  unfoldable pub close : World H → WaitResult → World H
  close w reaped = (kill_each (shutdown_all w w.conns) (in_scope w.sessions [] true) reaped).0
