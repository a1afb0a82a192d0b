-- ===== src/Dispatch/Answers/Handlers.antt =====
-- internal/server/server.go: the handlers of the requests that a client waits for.
use pupptyeer.Prelude.{
  ℕ, ◌≡◌, ◌⊎◌, inl, inr, refl, sym, ap, subst, ◌∙◌, Bool, true, false, Bytes, [], ◌==◌, arith,
  if◌then◌else◌, Option-cases, Bool-cases,
}
use pupptyeer.Prelude.Int.{ℤ, pos, eqb_ℤ}
use pupptyeer.Prelude.Assoc.{ℕ_eq}
use pupptyeer.Core.{WaitResult, StartError}
use pupptyeer.Core.Render.{CaptureError, Screen, capture_raw, capture_screen}
use pupptyeer.Protocol.{Message, type_attached, type_capture}
use pupptyeer.World.{Host, World, Sess, Conn, send, send_error, add_session, get_session, ns_of}
use pupptyeer.Attach
use pupptyeer.Attach.{event, exit_hook, tell_exit, tell_each, shutdown_each, on_exit, replay}
use pupptyeer.Daemon.{Outside}
use pupptyeer.Dispatch.{
  reply, reply_ok, reply_screen, raw_render_text, clash_text, start_error_text, capture_error_text,
  holder, new_session_finish, handle_new_session, handle_attach, handle_capture, handle_kill,
  with_session,
}
use pupptyeer.Attach.Start.{new_session_keeps}
use pupptyeer.Dispatch.Answers.Sent.{
  Sent, Sent-none, Gets, Quiet, Open, then-Quiet, Quiet-then, reply-Gets, send_error-Gets,
}
use pupptyeer.Dispatch.Answers.Quiet.{attach-Quiet, kill-Quiet}

module _ (H : Host) (id : ℤ) (c : ℕ) (tagged : eqb_ℤ (pos 0) id ≡ false) where
  add_session-conn : (w : World H) (r : ℕ) → (add_session H w r).0.conn_at ≡ w.conn_at
  unfolding add_session
  add_session-conn w r = ground arith

  new_session_finish-Gets :
      (w : World H) (m : Message) (r : ℕ) (reaped : WaitResult)
      → m.id ≡ id
      → Open H id c w
      → Gets H id c 1 w (new_session_finish H w c m r reaped)
  unfolding new_session_finish
  new_session_finish-Gets w m r reaped e up =
      let (registered, winner) = add_session H w r in
      let s = w.sess_at winner in
      let ok = reply_ok H m s.namespace s.id in
      let gone = Attach.kill H registered r reaped in
      let same : registered.conn_at ≡ w.conn_at = add_session-conn w r in
      let up' : Open H id c registered = ap (λ (f : ℕ → Conn). (f c).done) same ∙ up in
      let quiet : Quiet H id c w registered =
        subst (λ (f : ℕ → Conn). Sent id 0 (w.conn_at c) (f c)) (sym same)
          (Sent-none id (w.conn_at c) up) in
      let killed =
        Quiet-then H id c 0 w registered gone quiet
          (kill-Quiet H id c tagged registered r reaped up') in
      elim (Bool-cases (winner == r)) [
        | inl own ↦
            rw (own, new_session_finish)
              (Quiet-then H id c 1 w registered (send H registered c ok) quiet
                (reply-Gets H id c registered ok up' e))
        | inr lost ↦ elim (Bool-cases m.get_or_create) [
          | inl shared ↦
              rw (lost, new_session_finish)
                (rw (shared, new_session_finish)
                  (Quiet-then H id c 1 w gone (send H gone c ok) killed
                    (reply-Gets H id c gone ok killed.still e)))
          | inr refused ↦
              rw (lost, new_session_finish)
                (rw (refused, new_session_finish)
                  (rw e (
                    Quiet-then H id c 1 w gone
                      (send_error H gone c id (ns_of m.namespace) m.requested_id (clash_text H))
                      killed
                      (send_error-Gets H id c gone (ns_of m.namespace) m.requested_id (clash_text H)
                        killed.still))))
        ]
      ]

  pub handle_new_session-Gets :
      (w : World H) (o : Outside) (m : Message)
      → m.id ≡ id
      → Open H id c w
      → Gets H id c 1 w (handle_new_session H w o c m)
  unfolding handle_new_session
  handle_new_session-Gets w o m e up =
      let ns = ns_of m.namespace in
      elim (Option-cases (holder H w ns m.requested_id)) [
        | inr (r, held) ↦ elim (Bool-cases m.get_or_create) [
          | inl shared ↦
              rw (held, handle_new_session)
                (rw (shared, handle_new_session)
                  (reply-Gets H id c w (reply_ok H m ns (w.sess_at r).id) up e))
          | inr refused ↦
              rw (held, handle_new_session)
                (rw (refused, handle_new_session)
                  (rw e (send_error-Gets H id c w ns m.requested_id (clash_text H) up)))
        ]
        | inl free ↦
            rw (free, handle_new_session)
              (started (Attach.new_session H w m o.spawn o.fresh_id o.now) refl)
      ]
    where
      started :
          (r : StartError ⊎ World H)
          → Attach.new_session H w m o.spawn o.fresh_id o.now ≡ r
          → Gets H id c 1 w (elim r as (λ x. World H) [
            | inl x ↦ send_error H w c m.id (ns_of m.namespace) [] (start_error_text x)
            | inr w' ↦ new_session_finish H w' c m w.next_sess o.reaped
          ])
      started (inl x) f =
          rw e (send_error-Gets H id c w (ns_of m.namespace) [] (start_error_text x) up)
      started (inr w') f =
          let same = (new_session_keeps H w m o w' f).0 in
          subst
            (λ (g : ℕ → Conn).
              Sent id 1 (g c) ((new_session_finish H w' c m w.next_sess o.reaped).conn_at c))
            same
            (new_session_finish-Gets w' m w.next_sess o.reaped e
              (ap (λ (g : ℕ → Conn). (g c).done) same ∙ up))

  with_session-Gets :
      (w : World H) (m : Message) (found : ℕ → World H)
      → m.id ≡ id
      → Open H id c w
      → ((r : ℕ) → Gets H id c 1 w (found r))
      → Gets H id c 1 w (with_session H w c m found)
  unfolding with_session
  with_session-Gets w m found e up ok =
      elim (Option-cases (get_session H w m.namespace m.session)) [
        | inl absent ↦
            rw (absent, with_session) (rw e (send_error-Gets H id c w m.namespace m.session _ up))
        | inr (r, held) ↦ rw (held, with_session) (ok r)
      ]

  pub handle_attach-Gets :
      (w : World H) (m : Message)
      → m.id ≡ id
      → Open H id c w
      → Gets H id c 1 w (handle_attach H w c m)
  unfolding handle_attach
  handle_attach-Gets w m e up = with_session-Gets w m _ e up λ r.
      let s = w.sess_at r in
      let attached = record (reply H m type_attached) { namespace = s.namespace; session = s.id } in
      let told = send H w c attached in
      let first = reply-Gets H id c w attached up e in
      then-Quiet H id c 1 w told (Attach.attach H told r c m.cols m.rows) first
        (attach-Quiet H id c tagged told r c m.cols m.rows first.still)

  pub handle_kill-Gets :
      (w : World H) (o : Outside) (m : Message)
      → m.id ≡ id
      → Open H id c w
      → Gets H id c 1 w (handle_kill H w o c m)
  unfolding handle_kill
  handle_kill-Gets w o m e up = with_session-Gets w m _ e up λ r.
      let gone = Attach.kill H w r o.reaped in
      let ok = reply_ok H m (w.sess_at r).namespace m.session in
      let first = kill-Quiet H id c tagged w r o.reaped up in
      Quiet-then H id c 1 w gone (send H gone c ok) first (reply-Gets H id c gone ok first.still e)

  module _ (w : World H) (m : Message) (e : m.id ≡ id) (up : Open H id c w) where
    fail-Gets : (ns session text : Bytes) → Gets H id c 1 w (send_error H w c m.id ns session text)
    fail-Gets ns session text =
        subst (λ n. Gets H id c 1 w (send_error H w c n ns session text)) (sym e)
          (send_error-Gets H id c w ns session text up)

    choose-Gets :
        (b : Bool) (x y : World H)
        → Gets H id c 1 w x
        → Gets H id c 1 w y
        → Gets H id c 1 w (if b then x else y)
    choose-Gets true x y g h = g
    choose-Gets false x y g h = h

    rendered-Gets :
        (s : Sess H) (r : CaptureError ⊎ Screen)
        → Gets H id c 1 w (elim r as (λ x. World H) [
          | inl x ↦ send_error H w c m.id s.namespace m.session (capture_error_text x)
          | inr scr ↦ send H w c (reply_screen H m s scr)
        ])
    rendered-Gets s (inl x) = fail-Gets s.namespace m.session (capture_error_text x)
    rendered-Gets s (inr scr) = reply-Gets H id c w (reply_screen H m s scr) up e

    abbrev raw_reply : Sess H → Bytes → Message
    raw_reply s bs = record (reply H m type_capture) {
      namespace = s.namespace;
      session = s.id;
      payload = H.encode bs;
    }

    raw-Gets :
        (s : Sess H) (r : CaptureError ⊎ Bytes)
        → Gets H id c 1 w (elim r as (λ x. World H) [
          | inl x ↦ send_error H w c m.id s.namespace m.session (capture_error_text x)
          | inr bs ↦ send H w c (raw_reply s bs)
        ])
    raw-Gets s (inl x) = fail-Gets s.namespace m.session (capture_error_text x)
    raw-Gets s (inr bs) = reply-Gets H id c w (raw_reply s bs) up e

    pub handle_capture-Gets : (o : Outside) → Gets H id c 1 w (handle_capture H w o c m)
    unfolding handle_capture
    handle_capture-Gets o = with_session-Gets w m _ e up λ r.
        let s = w.sess_at r in
        choose-Gets m.render _ _
          (choose-Gets s.core.raw _ _ (fail-Gets s.namespace m.session raw_render_text)
            (rendered-Gets s (capture_screen H.emulator s.core o.locked)))
          (raw-Gets s (capture_raw H.emulator s.core o.locked))
