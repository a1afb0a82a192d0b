-- ===== src/Pump/Requests.antt =====
-- internal/server/server.go: the relations of Pump/Stable across the requests, and across the rest of
-- what the daemon does.
use pupptyeer.Prelude.{
  ℕ, ◌⊎◌, inl, inr, Bool, true, Option, none, some, Bytes, [], ◌++◌, codes, Option-cases,
}
use pupptyeer.Prelude.Int.{ℤ}
use pupptyeer.Prelude.Assoc.{ℕ_eq}
use pupptyeer.Core.{WaitResult}
use pupptyeer.Core.Render.{CaptureError, Screen, capture_raw, capture_screen}
use pupptyeer.Protocol.{
  Message, Request, request_of, new_session, list_sessions, attach, detach, write_pane,
  capture_pane, resize, kill, gc, unknown, type_attached, type_capture,
}
use pupptyeer.World.{Host, World, Sess, Conn, send, send_error, get_session, ns_of}
use pupptyeer.Attach
use pupptyeer.Daemon.{
  Outside, collect, in_scope, idle_since, gc_cutoff, shutdown_all, hang_up, close,
}
use pupptyeer.Dispatch.{
  not_found_text, reply, reply_ok, reply_screen, capture_error_text, raw_render_text, write_input,
  handle_attach, handle_write, handle_capture, handle_kill, dispatch_request, dispatch,
}
use pupptyeer.Pump.Stable.{
  Stable, Rel, then_Rel, send-Rel, send_error-Rel, attach-Rel, detach-Rel, kill-Rel, kill_each-Rel,
  shutdown-Rel, shutdown_all-Rel,
}
use pupptyeer.Pump.Creates.{
  choose-Rel, send_after, error_after, same, handle_new_session-Rel, with_session-Rel,
  if_session-Rel,
}

module _ (H : Host) (c : ℕ) (R : Conn → Conn → Type 0) (S : Stable R) where
  abbrev Keeps : World H → World H → Type 0
  Keeps w w' = Rel H c R S w w'

  handle_attach-Rel : (w : World H) (d : ℕ) (m : Message) → Keeps w (handle_attach H w d m)
  unfolding handle_attach
  handle_attach-Rel w d m = with_session-Rel H c R S w d m _ λ r.
      let s = w.sess_at r in
      let attached = record (reply H m type_attached) { namespace = s.namespace; session = s.id } in
      let told = send H w d attached in
      then_Rel H c R S w told (Attach.attach H told r d m.cols m.rows)
        (send_after H c R S w w d attached (same H c R S w))
        (attach-Rel H c R S told r d m.cols m.rows)

  handle_kill-Rel :
      (w : World H) (o : Outside) (d : ℕ) (m : Message) → Keeps w (handle_kill H w o d m)
  unfolding handle_kill
  handle_kill-Rel w o d m = with_session-Rel H c R S w d m _ λ r.
      send_after H c R S w (Attach.kill H w r o.reaped) d
        (reply_ok H m (w.sess_at r).namespace m.session) (kill-Rel H c R S w r o.reaped)

  module _ (w : World H) (d : ℕ) (m : Message) (s : Sess H) where
    fail-Rel : (text : Bytes) → Keeps w (send_error H w d m.id s.namespace m.session text)
    fail-Rel text = error_after H c R S w w d m.id s.namespace m.session text (same H c R S w)

    rendered-Rel :
        (r : CaptureError ⊎ Screen)
        → Keeps w (elim r as (λ x. World H) [
          | inl e ↦ send_error H w d m.id s.namespace m.session (capture_error_text e)
          | inr scr ↦ send H w d (reply_screen H m s scr)
        ])
    rendered-Rel (inl e) = fail-Rel (capture_error_text e)
    rendered-Rel (inr scr) = send_after H c R S w w d (reply_screen H m s scr) (same H c R S w)

    abbrev raw_reply : Bytes → Message
    raw_reply bs = record (reply H m type_capture) {
      namespace = s.namespace;
      session = s.id;
      payload = H.encode bs;
    }

    captured-Rel :
        (r : CaptureError ⊎ Bytes)
        → Keeps w (elim r as (λ x. World H) [
          | inl e ↦ send_error H w d m.id s.namespace m.session (capture_error_text e)
          | inr bs ↦ send H w d (raw_reply bs)
        ])
    captured-Rel (inl e) = fail-Rel (capture_error_text e)
    captured-Rel (inr bs) = send_after H c R S w w d (raw_reply bs) (same H c R S w)

    told-Rel :
        (w' : World H) (told : Option Bytes)
        → Keeps w w'
        → Keeps w
            (elim told as (λ y. World H × Option Bytes) [
              | none ↦ (
                send_error H w' d m.id s.namespace m.session
                    (codes "write failed: session not alive"),
                none,
              )
              | some sent ↦ (w', some sent)
            ]).0
    told-Rel w' none h =
        error_after H c R S w w' d m.id s.namespace m.session
          (codes "write failed: session not alive") h
    told-Rel w' (some sent) h = h

    write-Rel : (r : ℕ) (now : ℤ) (b : Bytes) → Keeps w (Attach.write H w r now b).0
    unfolding Attach.write
    write-Rel r now b = same H c R S w

    written-Rel :
        (o : Outside) (r : ℕ) (x : Bytes ⊎ Bytes)
        → Keeps w
            (elim x as (λ y. World H × Option Bytes) [
              | inl e ↦ (
                send_error H w d m.id s.namespace m.session (codes "bad base64 data: " ++ e),
                none,
              )
              | inr b ↦
                  let (w', told) = Attach.write H w r o.now b in
                  elim told [
                    | some sent ↦ (w', some sent)
                    | none ↦ (
                      send_error H w' d m.id s.namespace m.session
                          (codes "write failed: session not alive"),
                      none,
                    )
                  ]
            ]).0
    written-Rel o r (inl e) = fail-Rel (codes "bad base64 data: " ++ e)
    written-Rel o r (inr b) =
        told-Rel (Attach.write H w r o.now b).0 (Attach.write H w r o.now b).1 (write-Rel r o.now b)

  handle_write-Rel :
      (w : World H) (o : Outside) (d : ℕ) (m : Message) → Keeps w (handle_write H w o d m).0
  unfolding handle_write
  handle_write-Rel w o d m = elim (Option-cases (get_session H w m.namespace m.session)) [
    | inl absent ↦
        rw (absent, handle_write)
          (error_after H c R S w w d m.id m.namespace m.session (not_found_text H) (same H c R S w))
    | inr (r, held) ↦
        rw (held, handle_write) (written-Rel w d m (w.sess_at r) o r (write_input H m))
  ]

  handle_capture-Rel :
      (w : World H) (o : Outside) (d : ℕ) (m : Message) → Keeps w (handle_capture H w o d m)
  unfolding handle_capture
  handle_capture-Rel w o d m = with_session-Rel H c R S w d m _ λ r.
      let s = w.sess_at r in
      choose-Rel H c R S m.render w _ _
        (choose-Rel H c R S s.core.raw w _ _ (fail-Rel w d m s raw_render_text)
          (rendered-Rel w d m s (capture_screen H.emulator s.core o.locked)))
        (captured-Rel w d m s (capture_raw H.emulator s.core o.locked))

  resize_from-Rel :
      (w : World H) (r d : ℕ) (cols rows : ℤ) → Keeps w (Attach.resize_from H w r d cols rows)
  unfolding Attach.resize_from
  resize_from-Rel w r d cols rows = same H c R S w

  collect-Rel :
      (w : World H) (o : Outside) (max_idle : ℤ) (ns : Bytes) (all : Bool)
      → Keeps w (collect H w o max_idle ns all).0
  unfolding collect
  collect-Rel w o max_idle ns all =
      kill_each-Rel H c R S w
        (idle_since H w (gc_cutoff o.now max_idle) (in_scope H w.sessions (ns_of ns) all)) o.reaped

  dispatch_request-Rel :
      (q : Request) (w : World H) (o : Outside) (d : ℕ) (m : Message)
      → Keeps w (dispatch_request H q w o d m)
  unfolding dispatch_request
  dispatch_request-Rel new_session w o d m = handle_new_session-Rel H c R S w o d m
  dispatch_request-Rel list_sessions w o d m = send-Rel H c R S w d _
  dispatch_request-Rel attach w o d m = handle_attach-Rel w d m
  dispatch_request-Rel detach w o d m = if_session-Rel H c R S w m _ λ r. detach-Rel H c R S w r d
  dispatch_request-Rel write_pane w o d m = handle_write-Rel w o d m
  dispatch_request-Rel capture_pane w o d m = handle_capture-Rel w o d m
  dispatch_request-Rel resize w o d m =
      if_session-Rel H c R S w m _ λ r. resize_from-Rel w r d m.cols m.rows
  dispatch_request-Rel kill w o d m = handle_kill-Rel w o d m
  dispatch_request-Rel gc w o d m =
      send_after H c R S w (collect H w o m.max_idle_seconds m.namespace m.all).0 d _
        (collect-Rel w o m.max_idle_seconds m.namespace m.all)
  dispatch_request-Rel unknown w o d m = send_error-Rel H c R S w d m.id m.namespace m.session _

  -- Whatever a connection asks for.
  pub dispatch-Rel :
      (w : World H) (o : Outside) (d : ℕ) (m : Message) → Keeps w (dispatch H w o d m)
  unfolding dispatch
  dispatch-Rel w o d m = dispatch_request-Rel (request_of m.type) w o d m

  pub hang_up-Rel : (w : World H) (d : ℕ) → Keeps w (hang_up H w d)
  unfolding hang_up
  hang_up-Rel w d = shutdown-Rel H c R S w d

  pub close-Rel : (w : World H) (wait : WaitResult) → Keeps w (close H w wait)
  unfolding close
  close-Rel w wait =
      let down = shutdown_all H w w.conns in
      then_Rel H c R S w down (close H w wait) (shutdown_all-Rel H c R S w w.conns)
        (kill_each-Rel H c R S down (in_scope H w.sessions [] true) wait)
