-- ===== src/Dispatch/Answers/Quiet.antt =====
-- internal/server/session.go and server.go: what sends events, and no replies: the replay, the end of a
-- session, a kill, and the kills of gc.
use pupptyeer.Prelude.{
  ℕ, ◌≡◌, inl, inr, refl, sym, subst, Bool, false, Option, none, some, Bytes, List, [], ◌∷◌, arith,
  if◌then◌else◌, Bool-cases,
}
use pupptyeer.Prelude.Int.{ℤ, pos, eqb_ℤ}
use pupptyeer.Prelude.Assoc.{insert, ℕ_eq}
use pupptyeer.Core
use pupptyeer.Core.{WaitResult, StartError}
use pupptyeer.Protocol.{type_scrollback_end, type_exit, type_session_closed}
use pupptyeer.World.{
  Host, World, Sess, Conn, Winsize, send, set_sess, set_core, conn_add_session, conn_drop_session,
  raw_shutdown, remove_session, key_of,
}
use pupptyeer.Attach
use pupptyeer.Attach.{event, exit_hook, tell_exit, tell_each, shutdown_each, on_exit, replay}
use pupptyeer.Attach.Replay.{frame, pieces_of}
use pupptyeer.Daemon.{kill_each}
use pupptyeer.Dispatch.Answers.Sent.{Sent, Sent-none, Quiet, Open, Quiet-then, send-Quiet}

module _ (H : Host) (id : ℤ) (c : ℕ) (tagged : eqb_ℤ (pos 0) id ≡ false) where
  replay-Quiet :
      (w : World H) (s : Sess H) (d : ℕ) (ps : List Bytes)
      → Open H id c w
      → Quiet H id c w (replay H w s d ps)
  unfolding replay
  replay-Quiet w s d [] up = Sent-none id (w.conn_at c) up
  replay-Quiet w s d (p ∷ ps) up =
      let first = send-Quiet H id c tagged w d (frame H s p) up refl in
      let next = send H w d (frame H s p) in
      Quiet-then H id c 0 w next (replay H next s d ps) first (replay-Quiet next s d ps first.still)

  conn_add_session-Quiet :
      (w : World H) (d : ℕ) (s : Sess H)
      → Open H id c w
      → Quiet H id c w (conn_add_session H w d (key_of H s))
  unfolding conn_add_session
  conn_add_session-Quiet w d s up = ground (arith, Sent-none id (w.conn_at c) up)

  conn_drop_session-Quiet :
      (w : World H) (d : ℕ) (s : Sess H)
      → Open H id c w
      → Quiet H id c w (conn_drop_session H w d (key_of H s))
  unfolding conn_drop_session
  conn_drop_session-Quiet w d s up = ground (arith, Sent-none id (w.conn_at c) up)

  pub attach-Quiet :
      (w : World H) (r d : ℕ) (cols rows : ℤ)
      → Open H id c w
      → Quiet H id c w (Attach.attach H w r d cols rows)
  unfolding Attach.attach
  attach-Quiet w r d cols rows up =
      let s = w.sess_at r in
      let s' =
        Attach.recompute_size H (record s {
          attachments = insert d (record { cols = cols; rows = rows }) s.attachments;
        }) in
      let listed = conn_add_session H w d (key_of H s) in
      let ready = set_sess H listed r s' in
      let replayed = replay H ready s' d (pieces_of H s') in
      let first = conn_add_session-Quiet w d s up in
      let second = replay-Quiet ready s' d (pieces_of H s') first.still in
      let third =
        send-Quiet H id c tagged replayed d (event H s' type_scrollback_end) second.still refl in
      Quiet-then H id c 0 w ready (Attach.attach H w r d cols rows) first
        (Quiet-then H id c 0 ready replayed (Attach.attach H w r d cols rows) second third)

  tell_exit-Quiet :
      (w : World H) (s : Sess H) (code : ℤ) (d : ℕ)
      → Open H id c w
      → Quiet H id c w (tell_exit H w s code d)
  unfolding tell_exit
  tell_exit-Quiet w s code d up =
      let exit = record (event H s type_exit) { exit_code = some code } in
      let closed = event H s type_session_closed in
      let told = if s.core.killed then w else send H w d exit in
      let first : Quiet H id c w told = elim (Bool-cases s.core.killed) [
        | inl yes_killed ↦ rw yes_killed (Sent-none id (w.conn_at c) up)
        | inr not_killed ↦ rw not_killed (send-Quiet H id c tagged w d exit up refl)
      ] in
      let second = send-Quiet H id c tagged told d closed first.still refl in
      let third = conn_drop_session-Quiet (send H told d closed) d s second.still in
      Quiet-then H id c 0 w told (tell_exit H w s code d) first
        (Quiet-then H id c 0 told (send H told d closed) (tell_exit H w s code d) second third)

  tell_each-Quiet :
      (w : World H) (s : Sess H) (code : ℤ) (ds : List (ℕ × Winsize))
      → Open H id c w
      → Quiet H id c w (tell_each H w s code ds)
  unfolding tell_each
  tell_each-Quiet w s code [] up = Sent-none id (w.conn_at c) up
  tell_each-Quiet w s code ((d, ws) ∷ ds) up =
      let first = tell_exit-Quiet w s code d up in
      let next = tell_exit H w s code d in
      Quiet-then H id c 0 w next (tell_each H next s code ds) first
        (tell_each-Quiet next s code ds first.still)

  shutdown_each-Quiet :
      (w : World H) (rs : List (ℕ × Bool)) → Open H id c w → Quiet H id c w (shutdown_each H w rs)
  unfolding shutdown_each raw_shutdown
  shutdown_each-Quiet w [] up = Sent-none id (w.conn_at c) up
  shutdown_each-Quiet w ((r, b) ∷ rs) up = shutdown_each-Quiet (raw_shutdown H w r) rs up

  remove_session-conn : (w : World H) (r : ℕ) → (remove_session H w r).conn_at ≡ w.conn_at
  unfolding remove_session
  remove_session-conn w r = ground arith

  on_exit-Quiet :
      (w : World H) (r : ℕ) (code : ℤ) → Open H id c w → Quiet H id c w (on_exit H w r code)
  unfolding on_exit
  on_exit-Quiet w r code up =
      let s = w.sess_at r in
      let emptied = set_sess H w r (record s { attachments = []; raw_subs = [] }) in
      let told = tell_each H emptied s code s.attachments in
      let first = tell_each-Quiet emptied s code s.attachments up in
      let both =
        Quiet-then H id c 0 w told (shutdown_each H told s.raw_subs) first
          (shutdown_each-Quiet told s.raw_subs first.still) in
      subst (λ (f : ℕ → Conn). Sent id 0 (w.conn_at c) (f c))
        (sym (remove_session-conn (shutdown_each H told s.raw_subs) r)) both

  exit_hook-Quiet :
      (w : World H) (r : ℕ) (code : Option ℤ)
      → Open H id c w
      → Quiet H id c w (exit_hook H w r code)
  exit_hook-Quiet w r none up = Sent-none id (w.conn_at c) up
  exit_hook-Quiet w r (some code) up = on_exit-Quiet w r code up

  pub kill-Quiet :
      (w : World H) (r : ℕ) (wait : WaitResult)
      → Open H id c w
      → Quiet H id c w (Attach.kill H w r wait)
  unfolding Attach.kill
  kill-Quiet w r wait up =
      let (core, code) = Core.kill H.emulator (w.sess_at r).core wait in
      exit_hook-Quiet (set_core H w r core) r code up

  pub kill_each-Quiet :
      (w : World H) (rs : List ℕ) (wait : WaitResult)
      → Open H id c w
      → Quiet H id c w (kill_each H w rs wait).0
  unfolding kill_each
  kill_each-Quiet w [] wait up = Sent-none id (w.conn_at c) up
  kill_each-Quiet w (r ∷ rs) wait up =
      let next = Attach.kill H w r wait in
      let first = kill-Quiet w r wait up in
      Quiet-then H id c 0 w next (kill_each H next rs wait).0 first
        (kill_each-Quiet next rs wait first.still)
