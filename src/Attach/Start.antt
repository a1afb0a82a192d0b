-- ===== src/Attach/Start.antt =====
-- internal/server/session.go: what `newSession` leaves alone.
use pupptyeer.Prelude.{suc, ◌≡◌, ◌⊎◌, inl, inr, [], arith}
use pupptyeer.Core
use pupptyeer.Core.{StartError}
use pupptyeer.Protocol.{Message}
use pupptyeer.World.{Host, World, set_sess, ns_of}
use pupptyeer.Attach
use pupptyeer.Daemon.{Outside}

module _ (H : Host) where
  pub new_session_keeps :
      (w : World H) (m : Message) (o : Outside) (w' : World H)
      → Attach.new_session H w m o.spawn o.fresh_id o.now ≡ inr w'
      → (w'.conn_at ≡ w.conn_at) × (w'.next_conn ≡ w.next_conn)
  unfolding Attach.new_session
  new_session_keeps w m o w' = of_start (Core.start H.emulator (Attach.to_config m) o.spawn o.now)
    where
      of_start :
          (r : StartError ⊎ Core.Session H.emulator)
          → (elim r as (λ x. StartError ⊎ World H) [
            | inl x ↦ inl x
            | inr core ↦
                inr
                  (record (set_sess H w w.next_sess (record {
                    id = Attach.or_id m.requested_id o.fresh_id;
                    namespace = ns_of m.namespace;
                    command = m.command;
                    args = m.args;
                    cwd = m.cwd;
                    created = o.now;
                    core = core;
                    attachments = [];
                    raw_subs = [];
                  })) { next_sess = suc w.next_sess })
          ])
            ≡ inr w'
          → (w'.conn_at ≡ w.conn_at) × (w'.next_conn ≡ w.next_conn)
      of_start (inl x) f = cc
      of_start (inr core) f = ground (arith, f)
