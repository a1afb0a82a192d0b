-- ===== src/Dispatch.antt =====
-- internal/server/server.go: what a connection's requests do.
pub mod Create
pub mod Answers
mod Tests
use pupptyeer.Prelude.{
  ℕ, suc, ◌+◌, ◌==◌, Bool, true, false, not, ◌&&◌, ◌||◌, Option, none, some, ◌⊎◌, inl, inr, Bytes,
  List, [], ◌∷◌, ◌++◌, codes, length, text_eq, if◌then◌else◌,
}
use pupptyeer.Prelude.Int.{ℤ, pos, leb_ℤ, ltb_ℤ, ◌+ℤ◌, ◌-ℤ◌, ◌*ℤ◌, to_signed}
use pupptyeer.Prelude.Assoc.{insert, delete, ℕ_eq}
use pupptyeer.Core
use pupptyeer.Core.{StartError, command_required, pty_start, WaitResult, Command}
use pupptyeer.Core.Render.{
  Screen, CaptureError, raw_session, timed_out, no_emulator, unrendered, capture_raw,
  capture_screen,
}
use pupptyeer.Protocol.{
  Message, SessionInfo, Cursor, Request, request_of, blank, new_session, list_sessions, attach,
  detach, write_pane, capture_pane, resize, kill, gc, unknown, type_ok, type_sessions,
  type_attached, type_capture, type_reaped,
}
use pupptyeer.World.{
  Host, World, Sess, Conn, SessKey, ns_of, key_of, set_conn, send, send_error, add_session,
  get_session,
}
use pupptyeer.Attach
use pupptyeer.Daemon.{Outside, listed, collect}

abbrev pub start_error_text : StartError → Bytes
start_error_text command_required = codes "ptysession: Command is required"
start_error_text (pty_start e) = codes "pty start: " ++ e

-- The last two stand for a panic and for an exhausted loop; neither is reached.
abbrev pub capture_error_text : CaptureError → Bytes
capture_error_text raw_session = codes "rendered capture unavailable on a raw session"
capture_error_text timed_out = codes "capture timed out"
capture_error_text no_emulator = []
capture_error_text unrendered = []

abbrev pub raw_render_text : Bytes
raw_render_text =
    codes
      "rendered capture is unavailable on a raw session (created with raw:true); use capture without render for raw scrollback"

module _ (H : Host) where
  abbrev pub reply : Message → Bytes → Message
  reply m type = record blank { type = type; id = m.id }

  abbrev pub reply_ok : Message → Bytes → Bytes → Message
  reply_ok m ns id = record (reply m type_ok) { namespace = ns; session = id }

  -- The live session that holds a requested id.
  unfoldable pub holder : World H → Bytes → Bytes → Option ℕ
  holder w ns [] = none
  holder w ns (b ∷ bs) = elim (get_session H w ns (b ∷ bs)) [
    | none ↦ none
    | some r ↦ if (w.sess_at r).core.alive then some r else none
  ]

  abbrev pub clash_text : Bytes
  clash_text = codes "session id already exists"

  -- `handleNewSession` after the spawn of session `r`: the registry may have changed meanwhile.
  unfoldable pub new_session_finish : World H → ℕ → Message → ℕ → WaitResult → World H
  new_session_finish w c m r reaped =
      let ns = ns_of m.namespace in
      let (registered, winner) = add_session H w r in
      let s = w.sess_at winner in
      let discarded = Attach.kill H registered r reaped in
      if winner == r
      then send H registered c (reply_ok m s.namespace s.id)
      else (if m.get_or_create
          then send H discarded c (reply_ok m s.namespace s.id)
          else send_error H discarded c m.id ns m.requested_id clash_text)

  -- `handleNewSession`.
  unfoldable pub handle_new_session : World H → Outside → ℕ → Message → World H
  handle_new_session w o c m =
      let ns = ns_of m.namespace in
      elim (holder w ns m.requested_id) [
        | some r ↦
            if m.get_or_create
            then send H w c (reply_ok m ns (w.sess_at r).id)
            else send_error H w c m.id ns m.requested_id clash_text
        | none ↦ elim (Attach.new_session H w m o.spawn o.fresh_id o.now) [
          | inl e ↦ send_error H w c m.id ns [] (start_error_text e)
          | inr w' ↦ new_session_finish w' c m w.next_sess o.reaped
        ]
      ]

  abbrev pub not_found_text : Bytes
  not_found_text = codes "session not found"

  -- What every session-addressed request does for a session that is not there.
  unfoldable pub with_session : World H → ℕ → Message → (ℕ → World H) → World H
  with_session w c m found = elim (get_session H w m.namespace m.session) [
    | none ↦ send_error H w c m.id m.namespace m.session not_found_text
    | some r ↦ found r
  ]

  -- `handleAttach`.
  unfoldable pub handle_attach : World H → ℕ → Message → World H
  handle_attach w c m = with_session w c m λ r.
      let s = w.sess_at r in
      Attach.attach H
        (send H w c (record (reply m type_attached) { namespace = s.namespace; session = s.id })) r
        c m.cols m.rows

  -- The input of `handleWrite`: the base64 payload if there is one, else the text.
  unfoldable pub write_input : Message → Bytes ⊎ Bytes
  write_input m = if Core.is_empty m.payload then inr m.text else H.decode m.payload

  -- `handleWrite`: also the bytes that reach the PTY, if any do.
  unfoldable pub handle_write : World H → Outside → ℕ → Message → World H × Option Bytes
  handle_write w o c m = elim (get_session H w m.namespace m.session) [
    | none ↦ (send_error H w c m.id m.namespace m.session not_found_text, none)
    | some r ↦
        let ns = (w.sess_at r).namespace in
        elim (write_input m) [
          | inl e ↦ (send_error H w c m.id ns m.session (codes "bad base64 data: " ++ e), none)
          | inr b ↦
              let (w', told) = Attach.write H w r o.now b in
              elim told [
                | some sent ↦ (w', some sent)
                | none ↦ (
                  send_error H w' c m.id ns m.session (codes "write failed: session not alive"),
                  none,
                )
              ]
        ]
  ]

  abbrev pub reply_screen : Message → Sess H → Screen → Message
  reply_screen m s scr = record (reply m type_capture) {
    namespace = s.namespace;
    session = s.id;
    cols = pos scr.cols;
    rows = pos scr.rows;
    lines = scr.lines;
    cursor = some (record {
      row = pos scr.cursor_row;
      col = pos scr.cursor_col;
      visible = scr.cursor_visible;
    });
    alt_screen = scr.alt_screen;
  }

  -- `handleCapture` after the wait for a quiet screen.
  unfoldable pub handle_capture : World H → Outside → ℕ → Message → World H
  handle_capture w o c m = with_session w c m λ r.
      let s = w.sess_at r in
      let fail = λ (e : Bytes). send_error H w c m.id s.namespace m.session e in
      if m.render
      then (if s.core.raw
          then fail raw_render_text
          else elim (capture_screen H.emulator s.core o.locked) [
            | inl e ↦ fail (capture_error_text e)
            | inr scr ↦ send H w c (reply_screen m s scr)
          ])
      else elim (capture_raw H.emulator s.core o.locked) [
        | inl e ↦ fail (capture_error_text e)
        | inr bs ↦ send H w c (record (reply m type_capture) {
          namespace = s.namespace;
          session = s.id;
          payload = H.encode bs;
        })
      ]

  -- `handleKill`.
  unfoldable pub handle_kill : World H → Outside → ℕ → Message → World H
  handle_kill w o c m = with_session w c m λ r.
      let ns = (w.sess_at r).namespace in
      send H (Attach.kill H w r o.reaped) c (reply_ok m ns m.session)

  -- The cases of `dispatch` without an answer for a session that is not there.
  unfoldable pub if_session : World H → Message → (ℕ → World H) → World H
  if_session w m found = elim (get_session H w m.namespace m.session) [
    | none ↦ w
    | some r ↦ found r
  ]

  unfoldable pub dispatch_request : Request → World H → Outside → ℕ → Message → World H
  dispatch_request new_session w o c m = handle_new_session w o c m
  dispatch_request list_sessions w o c m =
      send H w c (record (reply m type_sessions) { sessions = listed H w m.namespace m.all })
  dispatch_request attach w o c m = handle_attach w c m
  dispatch_request detach w o c m = if_session w m λ r. Attach.detach H w r c
  dispatch_request write_pane w o c m = (handle_write w o c m).0
  dispatch_request capture_pane w o c m = handle_capture w o c m
  dispatch_request resize w o c m = if_session w m λ r. Attach.resize_from H w r c m.cols m.rows
  dispatch_request kill w o c m = handle_kill w o c m
  dispatch_request gc w o c m =
      let (w', reaped) = collect H w o m.max_idle_seconds m.namespace m.all in
      send H w' c (record (reply m type_reaped) { sessions = reaped })
  dispatch_request unknown w o c m =
      send_error H w c m.id m.namespace m.session (codes "unknown type: " ++ m.type)

  -- `dispatch`.
  unfoldable pub dispatch : World H → Outside → ℕ → Message → World H
  dispatch w o c m = dispatch_request (request_of m.type) w o c m
