-- ===== src/Dispatch/Answers.antt =====
-- internal/server/server.go: the replies that a connection gets to its requests.
pub mod Sent
pub mod Quiet
pub mod Handlers
use pupptyeer.Prelude.{
  ℕ, zero, suc, ◌+◌, ◌≡◌, ◌≢◌, ◌⊎◌, inl, inr, refl, sym, ap, subst, ◌∙◌, Bool, true, false, Option,
  none, some, Bytes, codes, List, [], ◌∷◌, ◌++◌, ◌==◌, arith, if◌then◌else◌, Option-cases,
  Bool-cases, length, ltb,
}
use pupptyeer.Prelude.Int.{ℤ, pos, eqb_ℤ, eq_of_parts}
use pupptyeer.Prelude.Assoc.{lookup, insert, ℕ_eq}
use pupptyeer.Core
use pupptyeer.Core.{WaitResult, StartError}
use pupptyeer.Core.Render.{CaptureError, Screen, capture_raw, capture_screen}
use pupptyeer.Protocol.{
  Message, blank, type_sessions, type_reaped, type_attached, type_capture, type_scrollback_end,
  type_exit, type_session_closed, Request, request_of, new_session, list_sessions, attach, detach,
  write_pane, capture_pane, resize, kill, gc, unknown,
}
use pupptyeer.World.{
  Host, World, Sess, Conn, Winsize, send, send_error, push_message, set_conn, set_sess, set_core,
  conn_add_session, conn_drop_session, raw_shutdown, add_session, remove_session, get_session,
  outbound_queue, ns_of, key_of,
}
use pupptyeer.Attach
use pupptyeer.Attach.{event, exit_hook, tell_exit, tell_each, shutdown_each, on_exit, replay}
use pupptyeer.Attach.Replay.{frame, pieces_of}
use pupptyeer.Daemon.{Outside, kill_each, collect, listed, gc_cutoff, idle_since, in_scope}
use pupptyeer.Dispatch.{
  reply, reply_ok, reply_screen, raw_render_text, clash_text, start_error_text, capture_error_text,
  dispatch, dispatch_request, holder, new_session_finish, handle_new_session, handle_attach,
  handle_capture, handle_kill, with_session, write_input, handle_write,
}
use pupptyeer.Dispatch.Answers.Sent.{
  replies, Sent-none, Gets, Open, then-Quiet, Quiet-then, reply-Gets, send_error-Gets, send-Quiet,
}
use pupptyeer.Dispatch.Answers.Quiet.{attach-Quiet, kill-Quiet, kill_each-Quiet}
use pupptyeer.Dispatch.Answers.Handlers.{
  handle_new_session-Gets, handle_attach-Gets, handle_kill-Gets, handle_capture-Gets,
}

-- The requests that a client waits for: all but detaching, writing and resizing.
unfoldable pub is_call : Request → Bool
is_call detach = false
is_call write_pane = false
is_call resize = false
is_call other = true

module _ (H : Host) (c : ℕ) (m : Message) (tagged : eqb_ℤ (pos 0) m.id ≡ false) where
  collect-Quiet :
      (w : World H) (o : Outside)
      → (w.conn_at c).done ≡ false
      → Gets H m.id c 0 w (collect H w o m.max_idle_seconds m.namespace m.all).0
  unfolding collect
  collect-Quiet w o up =
      let cutoff = gc_cutoff o.now m.max_idle_seconds in
      kill_each-Quiet H m.id c tagged w
        (idle_since H w cutoff (in_scope H w.sessions (ns_of m.namespace) m.all)) o.reaped up

  dispatch_request-Sent :
      (q : Request) (w : World H) (o : Outside)
      → is_call q ≡ true
      → (w.conn_at c).done ≡ false
      → Gets H m.id c 1 w (dispatch_request H q w o c m)
  unfolding is_call dispatch_request
  dispatch_request-Sent new_session w o k up = handle_new_session-Gets H m.id c tagged w o m refl up
  dispatch_request-Sent list_sessions w o k up =
      reply-Gets H m.id c w
        (record (reply H m type_sessions) { sessions = listed H w m.namespace m.all }) up refl
  dispatch_request-Sent attach w o k up = handle_attach-Gets H m.id c tagged w m refl up
  dispatch_request-Sent detach w o k up = cc
  dispatch_request-Sent write_pane w o k up = cc
  dispatch_request-Sent capture_pane w o k up = handle_capture-Gets H m.id c tagged w m refl up o
  dispatch_request-Sent resize w o k up = cc
  dispatch_request-Sent kill w o k up = handle_kill-Gets H m.id c tagged w o m refl up
  dispatch_request-Sent gc w o k up =
      let (w', reaped) = collect H w o m.max_idle_seconds m.namespace m.all in
      let gone = collect-Quiet w o up in
      Quiet-then H m.id c 1 w w'
        (send H w' c (record (reply H m type_reaped) { sessions = reaped })) gone
        (reply-Gets H m.id c w' (record (reply H m type_reaped) { sessions = reaped }) gone.still
          refl)
  dispatch_request-Sent unknown w o k up =
      send_error-Gets H m.id c w m.namespace m.session (codes "unknown type: " ++ m.type) up

  -- A request with an id that its client waits for is answered once: on an open connection, `dispatch`
  -- either queues exactly one message with the request's id, whatever events it queues besides, or
  -- leaves the connection about to be dropped because its queue was full. So no such request is
  -- silently lost, and none is answered twice.
  pub dispatch_answers :
      (w : World H) (o : Outside)
      → is_call (request_of m.type) ≡ true
      → (w.conn_at c).done ≡ false
      → let x = w.conn_at c in
        let y = (dispatch H w o c m).conn_at c in
        (y.done ≡ false)
        × ((y.dropping ≡ true)
            ⊎ ((y.dropping ≡ x.dropping) × (replies m.id y.out ≡ replies m.id x.out + 1)))
  unfolding dispatch
  dispatch_answers w o k up =
      let sent = dispatch_request-Sent (request_of m.type) w o k up in (sent.still, sent.outcome)
