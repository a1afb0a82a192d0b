-- ===== src/Pump/Creates.antt =====
-- internal/server/server.go: the relations of Pump/Stable across `handleNewSession`, and across what
-- every handler does for a session that is not there.
use pupptyeer.Prelude.{
  ℕ, ◌≡◌, refl, ◌⊎◌, inl, inr, Bool, true, false, Bytes, [], arith, if◌then◌else◌, Option-cases,
  ◌==◌,
}
use pupptyeer.Prelude.Int.{ℤ}
use pupptyeer.Prelude.Assoc.{ℕ_eq}
use pupptyeer.Core.{WaitResult, StartError}
use pupptyeer.Protocol.{Message}
use pupptyeer.World.{Host, World, Conn, send, send_error, add_session, get_session, ns_of}
use pupptyeer.Attach
use pupptyeer.Daemon.{Outside}
use pupptyeer.Dispatch.{
  clash_text, not_found_text, reply_ok, start_error_text, holder, new_session_finish,
  handle_new_session, with_session, if_session,
}
use pupptyeer.Attach.Start.{new_session_keeps}
use pupptyeer.Pump.Stable.{
  Stable, Rel, Unmoved, Rel-same, then_Rel, moved_Rel, send-Rel, send_error-Rel, kill-Rel,
}

module _ (H : Host) (c : ℕ) (R : Conn → Conn → Type 0) (S : Stable R) where
  abbrev Keeps : World H → World H → Type 0
  Keeps w w' = Rel H c R S w w'

  pub choose-Rel :
      (b : Bool) (w x y : World H) → Keeps w x → Keeps w y → Keeps w (if b then x else y)
  choose-Rel true w x y g h = g
  choose-Rel false w x y g h = h

  pub send_after : (u v : World H) (d : ℕ) (m : Message) → Keeps u v → Keeps u (send H v d m)
  send_after u v d m h = then_Rel H c R S u v (send H v d m) h (send-Rel H c R S v d m)

  pub error_after :
      (u v : World H) (d : ℕ) (id : ℤ) (ns session text : Bytes)
      → Keeps u v
      → Keeps u (send_error H v d id ns session text)
  error_after u v d id ns session text h =
      then_Rel H c R S u v (send_error H v d id ns session text) h
        (send_error-Rel H c R S v d id ns session text)

  pub same : (w : World H) → Keeps w w
  same w = Rel-same H c R S w

  add_session-Unmoved : (w : World H) (r : ℕ) → Unmoved H c R S w (add_session H w r).0
  unfolding add_session
  add_session-Unmoved w r = ground arith

  new_session_finish-Rel :
      (w : World H) (d : ℕ) (m : Message) (r : ℕ) (reaped : WaitResult)
      → Keeps w (new_session_finish H w d m r reaped)
  unfolding new_session_finish
  new_session_finish-Rel w d m r reaped =
      let (registered, winner) = add_session H w r in
      let s = w.sess_at winner in
      let ok = reply_ok H m s.namespace s.id in
      let ns = ns_of m.namespace in
      let gone = Attach.kill H registered r reaped in
      let quiet = moved_Rel H c R S w w registered (add_session-Unmoved w r) (same w) in
      let killed =
        then_Rel H c R S w registered gone quiet (kill-Rel H c R S registered r reaped) in
      let told = send H gone d ok in
      let refused = send_error H gone d m.id ns m.requested_id (clash_text H) in
      choose-Rel (winner == r) w (send H registered d ok)
        (if m.get_or_create then told else refused) (send_after w registered d ok quiet)
        (choose-Rel m.get_or_create w told refused (send_after w gone d ok killed)
          (error_after w gone d m.id ns m.requested_id (clash_text H) killed))

  new_session-Rel :
      (w : World H) (d : ℕ) (m : Message) (o : Outside) (r : StartError ⊎ World H)
      → ((w' : World H) → r ≡ inr w' → Unmoved H c R S w w')
      → Keeps w (elim r as (λ x. World H) [
        | inl e ↦ send_error H w d m.id (ns_of m.namespace) [] (start_error_text e)
        | inr w' ↦ new_session_finish H w' d m w.next_sess o.reaped
      ])
  new_session-Rel w d m o (inl e) k =
      error_after w w d m.id (ns_of m.namespace) [] (start_error_text e) (same w)
  new_session-Rel w d m o (inr w') k =
      then_Rel H c R S w w' (new_session_finish H w' d m w.next_sess o.reaped)
        (moved_Rel H c R S w w w' (k w' refl) (same w))
        (new_session_finish-Rel w' d m w.next_sess o.reaped)

  pub handle_new_session-Rel :
      (w : World H) (o : Outside) (d : ℕ) (m : Message) → Keeps w (handle_new_session H w o d m)
  unfolding handle_new_session
  handle_new_session-Rel w o d m =
      let ns = ns_of m.namespace in
      elim (Option-cases (holder H w ns m.requested_id)) [
        | inl free ↦
            rw (free, handle_new_session)
              (new_session-Rel w d m o (Attach.new_session H w m o.spawn o.fresh_id o.now)
                (new_session_keeps H w m o))
        | inr (r, held) ↦
            let ok = reply_ok H m ns (w.sess_at r).id in
            rw (held, handle_new_session)
              (choose-Rel m.get_or_create w (send H w d ok)
                (send_error H w d m.id ns m.requested_id (clash_text H))
                (send_after w w d ok (same w))
                (error_after w w d m.id ns m.requested_id (clash_text H) (same w)))
      ]

  pub with_session-Rel :
      (w : World H) (d : ℕ) (m : Message) (found : ℕ → World H)
      → ((r : ℕ) → Keeps w (found r))
      → Keeps w (with_session H w d m found)
  unfolding with_session
  with_session-Rel w d m found ok = elim (Option-cases (get_session H w m.namespace m.session)) [
    | inl absent ↦
        rw (absent, with_session)
          (error_after w w d m.id m.namespace m.session (not_found_text H) (same w))
    | inr (r, held) ↦ rw (held, with_session) (ok r)
  ]

  pub if_session-Rel :
      (w : World H) (m : Message) (found : ℕ → World H)
      → ((r : ℕ) → Keeps w (found r))
      → Keeps w (if_session H w m found)
  unfolding if_session
  if_session-Rel w m found ok = elim (Option-cases (get_session H w m.namespace m.session)) [
    | inl absent ↦ rw (absent, if_session) (same w)
    | inr (r, held) ↦ rw (held, if_session) (ok r)
  ]
