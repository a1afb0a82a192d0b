-- ===== src/Dispatch/Create.antt =====
-- internal/server/server.go: `handleNewSession` with an id that the caller supplies.
use pupptyeer.Prelude.{
  ℕ, ◌≡◌, ◌≢◌, ap, ◌∙◌, true, false, none, some, Bytes, [], ◌∷◌, ◌==◌, arith, if◌then◌else◌,
}
use pupptyeer.Prelude.Assoc.{lookup, lookup-insert, beq_refl}
use pupptyeer.Core.{WaitResult}
use pupptyeer.Core.Lifecycle.{IsCoherent}
use pupptyeer.Protocol.{Message, blank, type_error}
use pupptyeer.World.{
  Host, World, Sess, SessKey_eq, key_of, ns_of, send, send_error, add_session, get_session,
}
use pupptyeer.World.Registry.{IsKeyed}
use pupptyeer.Attach
use pupptyeer.Attach.Kill.{kill-sess, kill-other, kill-sessions_kept, kill-sessions_ended}
use pupptyeer.Daemon.{Outside}
use pupptyeer.Dispatch.{new_session_finish, handle_new_session, holder, reply_ok, clash_text}

module _ (H : Host) where
  pub answer : Message → Bytes → Bytes → Message
  answer m ns id = if m.get_or_create then reply_ok H m ns id else record blank {
    type = type_error;
    id = m.id;
    namespace = ns;
    session = id;
    message = clash_text H;
  }

  holder-id :
      (w : World H) (ns id : Bytes) (r : ℕ)
      → IsKeyed H w
      → holder H w ns id ≡ some r
      → ((w.sess_at r).id ≡ id) × ((w.sess_at r).core.alive ≡ true)
  unfolding holder get_session
  holder-id w ns [] r v h = cc
  holder-id w ns (b ∷ bs) r v h = ground (arith, v.keyed (record { ns = ns_of ns; id = b ∷ bs }) r)

  -- A request for an id that a live session holds starts nothing: no session is created or changed and
  -- the registry stays as it is; the one message sent is `ok` with the id of the holder under
  -- `get_or_create`, and an error that names the id otherwise.
  pub new_session_taken :
      (w : World H) (o : Outside) (c : ℕ) (m : Message) (r : ℕ)
      → IsKeyed H w
      → holder H w (ns_of m.namespace) m.requested_id ≡ some r
      → handle_new_session H w o c m ≡ send H w c (answer m (ns_of m.namespace) m.requested_id)
  unfolding handle_new_session answer send_error
  new_session_taken w o c m r v h =
      let same = (holder-id w (ns_of m.namespace) m.requested_id r v h).0 in
      rw (h, handle_new_session) (ground (arith, same))

  lost_answer : World H → Message → ℕ → Message
  lost_answer w m cur =
      if m.get_or_create
      then reply_ok H m (w.sess_at cur).namespace (w.sess_at cur).id
      else record blank {
        type = type_error;
        id = m.id;
        namespace = ns_of m.namespace;
        session = m.requested_id;
        message = clash_text H;
      }

  finish_lost :
      (w : World H) (c : ℕ) (m : Message) (r cur : ℕ) (reaped : WaitResult)
      → add_session H w r ≡ (w, cur)
      → (cur == r) ≡ false
      → new_session_finish H w c m r reaped
        ≡ send H (Attach.kill H w r reaped) c (lost_answer w m cur)
  unfolding new_session_finish lost_answer send_error
  finish_lost w c m r cur reaped e n = ground arith

  -- A creation that lost the race for its id to a live session discards its own child: the registry and
  -- the winner stay as they are, and the loser is dead.
  pub new_session_finish_lost :
      (w : World H) (c : ℕ) (m : Message) (r cur : ℕ) (reaped : WaitResult)
      → lookup (key_of H (w.sess_at r)) w.sessions ≡ some cur
      → (w.sess_at cur).core.alive ≡ true
      → cur ≢ r
      → IsCoherent H.emulator (w.sess_at r).core
      → let w' = new_session_finish H w c m r reaped in
        (w'.sessions ≡ w.sessions)
        × (w'.sess_at cur ≡ w.sess_at cur)
        × ((w'.sess_at r).core.alive ≡ false)
  unfolding add_session send
  new_session_finish_lost w c m r cur reaped held live other v =
      let added : add_session H w r ≡ (w, cur) = ground (arith, held, live) in
      let eq = finish_lost w c m r cur reaped added (ground arith) in
      let gone = kill-sess H w r reaped v in
      (
        ap (λ (u : World H). u.sessions) eq ∙ kill-sessions_kept H w r reaped (ground arith),
        ap (λ (u : World H). u.sess_at cur) eq ∙ kill-other H w r cur reaped (ground arith),
        ap (λ (u : World H). (u.sess_at r).core.alive) eq ∙ gone.0,
      )

  -- A child that has ended before its session is registered stays in the registry: `addSession` maps the
  -- id to the dead session, and no later kill of it takes the id back, since `onExit` has run.
  pub dead_registered :
      (w : World H) (r : ℕ) (wait : WaitResult)
      → lookup (key_of H (w.sess_at r)) w.sessions ≡ none
      → (w.sess_at r).core.finished ≡ true
      → let w' = (add_session H w r).0 in
        (lookup (key_of H (w.sess_at r)) w'.sessions ≡ some r)
        × (lookup (key_of H (w.sess_at r)) (Attach.kill H w' r wait).sessions ≡ some r)
  unfolding add_session
  dead_registered w r wait free over =
      let key = key_of H (w.sess_at r) in
      let mapped : lookup key (add_session H w r).0.sessions ≡ some r =
        rw (free, add_session)
          (lookup-insert key key r w.sessions ∙ ground (arith, beq_refl key)) in
      let same : (add_session H w r).0.sess_at ≡ w.sess_at = ground (arith, free) in
      (
        mapped,
        ap (lookup key) (
              kill-sessions_ended H (add_session H w r).0 r wait
                (ap (λ (f : ℕ → Sess H). (f r).core.finished) same ∙ over))
            ∙ mapped,
      )
