-- ===== src/Pump/Stable.antt =====
-- internal/server: what holds of a connection from before an operation of the daemon to after it. An
-- interface: a relation that the primitive changes of a connection keep to is kept by every operation.
use pupptyeer.Prelude.{
  ℕ, ◌≡◌, refl, ◌∙◌, inl, inr, Bool, true, false, Option, none, some, Bytes, List, [], ◌∷◌, arith,
  if◌then◌else◌, Bool-cases, Option-cases, ◌==◌,
}
use pupptyeer.Prelude.Int.{ℤ}
use pupptyeer.Prelude.Assoc.{insert, ℕ_eq}
use pupptyeer.Core
use pupptyeer.Core.{WaitResult}
use pupptyeer.Protocol.{Message, type_exit, type_session_closed, type_scrollback_end, type_output}
use pupptyeer.World.{
  Host, World, Sess, Conn, SessKey, Winsize, send, send_error, push_message, push_chunk, set_conn,
  set_raw, set_sess, set_core, conn_add_session, conn_drop_session, raw_shutdown, remove_session,
  get_session, key_of,
}
use pupptyeer.Attach
use pupptyeer.Attach.{
  event, exit_hook, tell_exit, tell_each, shutdown_each, on_exit, replay, send_each, enqueue_each,
  on_output, output, child_exit,
}
use pupptyeer.Attach.Replay.{frame, pieces_of}
use pupptyeer.Daemon.{kill_each, detach_each, shutdown, shutdown_all}

pub record Stable (R : Conn → Conn → Type 0) : Type 0 where
  pub same : (x : Conn) → R x x
  pub chain : (x y z : Conn) → R x y → R y z → R x z
  pub push : (x : Conn) (m : Message) → R x (push_message x m)
  pub list : (x : Conn) (ks : List (SessKey × Bool)) → R x (record x { attached = ks })
  pub shut : (x : Conn) → R x (record x { done = true })

module _ (H : Host) (c : ℕ) (R : Conn → Conn → Type 0) (S : Stable R) where
  abbrev pub Rel : World H → World H → Type 0
  Rel w w' = R (w.conn_at c) (w'.conn_at c) × (w'.next_conn ≡ w.next_conn)

  pub Rel-same : (w : World H) → Rel w w
  Rel-same w = (S.same (w.conn_at c), refl)

  pub then_Rel : (u v w : World H) → Rel u v → Rel v w → Rel u w
  then_Rel u v w a b = (S.chain (u.conn_at c) (v.conn_at c) (w.conn_at c) a.0 b.0, b.1 ∙ a.1)

  set_conn-Rel : (w : World H) (d : ℕ) (x : Conn) → R (w.conn_at d) x → Rel w (set_conn H w d x)
  set_conn-Rel w d x h = (of_test (d == c) refl, refl)
    where
      of_test : (b : Bool) → (d == c) ≡ b → R (w.conn_at c) (if b then x else w.conn_at c)
      of_test true e = ground arith
      of_test false e = S.same (w.conn_at c)

  pub send-Rel : (w : World H) (d : ℕ) (m : Message) → Rel w (send H w d m)
  unfolding send
  send-Rel w d m = set_conn-Rel w d (push_message (w.conn_at d) m) (S.push (w.conn_at d) m)

  pub send_error-Rel :
      (w : World H) (d : ℕ) (id : ℤ) (ns session text : Bytes)
      → Rel w (send_error H w d id ns session text)
  unfolding send_error
  send_error-Rel w d id ns session text = send-Rel w d _

  conn_add_session-Rel : (w : World H) (d : ℕ) (k : SessKey) → Rel w (conn_add_session H w d k)
  unfolding conn_add_session
  conn_add_session-Rel w d k = set_conn-Rel w d _ (S.list (w.conn_at d) _)

  conn_drop_session-Rel : (w : World H) (d : ℕ) (k : SessKey) → Rel w (conn_drop_session H w d k)
  unfolding conn_drop_session
  conn_drop_session-Rel w d k = set_conn-Rel w d _ (S.list (w.conn_at d) _)

  send_each-Rel : (w : World H) (ds : List (ℕ × Winsize)) (m : Message) → Rel w (send_each H w ds m)
  unfolding send_each
  send_each-Rel w [] m = Rel-same w
  send_each-Rel w ((d, ws) ∷ ds) m =
      then_Rel w (send H w d m) (send_each H (send H w d m) ds m) (send-Rel w d m)
        (send_each-Rel (send H w d m) ds m)

  -- The same connections.
  abbrev pub Unmoved : World H → World H → Type 0
  Unmoved w w' = (w'.conn_at ≡ w.conn_at) × (w'.next_conn ≡ w.next_conn)

  enqueue_each-Unmoved :
      (w : World H) (rs : List (ℕ × Bool)) (b : Bytes) → Unmoved w (enqueue_each H w rs b)
  unfolding enqueue_each
  enqueue_each-Unmoved w [] b = (refl, refl)
  enqueue_each-Unmoved w ((r, x) ∷ rs) b =
      enqueue_each-Unmoved (set_raw H w r (push_chunk (w.raw_at r) b)) rs b

  -- An operation behind which only other parts of the world change.
  pub moved_Rel : (u v w : World H) → Unmoved v w → Rel u v → Rel u w
  moved_Rel u v w e h = ground arith

  pub output-Rel : (w : World H) (r : ℕ) (now : ℤ) (bs : Bytes) → Rel w (output H w r now bs)
  unfolding output on_output
  output-Rel w r now [] = Rel-same w
  output-Rel w r now (b ∷ bs) =
      let read = set_core H w r (Core.read_chunk H.emulator (w.sess_at r).core now (b ∷ bs)) in
      let s = read.sess_at r in
      let m = record (event H s type_output) { payload = H.encode (b ∷ bs) } in
      let told = send_each H read s.attachments m in
      moved_Rel w told (output H w r now (b ∷ bs)) (enqueue_each-Unmoved told s.raw_subs (b ∷ bs))
        (send_each-Rel read s.attachments m)

  replay-Rel : (w : World H) (s : Sess H) (d : ℕ) (ps : List Bytes) → Rel w (replay H w s d ps)
  unfolding replay
  replay-Rel w s d [] = Rel-same w
  replay-Rel w s d (p ∷ ps) =
      let next = send H w d (frame H s p) in
      then_Rel w next (replay H next s d ps) (send-Rel w d (frame H s p)) (replay-Rel next s d ps)

  pub attach-Rel : (w : World H) (r d : ℕ) (cols rows : ℤ) → Rel w (Attach.attach H w r d cols rows)
  unfolding Attach.attach
  attach-Rel w r d cols rows =
      let s = w.sess_at r in
      let s' =
        Attach.recompute_size H (record s {
          attachments = insert d (record { cols = cols; rows = rows }) s.attachments;
        }) in
      let listed = conn_add_session H w d (key_of H s) in
      let ready = set_sess H listed r s' in
      let replayed = replay H ready s' d (pieces_of H s') in
      then_Rel w ready (Attach.attach H w r d cols rows) (conn_add_session-Rel w d (key_of H s)) (
        then_Rel ready replayed (Attach.attach H w r d cols rows)
          (replay-Rel ready s' d (pieces_of H s'))
          (send-Rel replayed d (event H s' type_scrollback_end)))

  pub detach-Rel : (w : World H) (r d : ℕ) → Rel w (Attach.detach H w r d)
  unfolding Attach.detach
  detach-Rel w r d = conn_drop_session-Rel (set_sess H w r _) d (key_of H (w.sess_at r))

  tell_exit-Rel : (w : World H) (s : Sess H) (code : ℤ) (d : ℕ) → Rel w (tell_exit H w s code d)
  unfolding tell_exit
  tell_exit-Rel w s code d =
      let exit = record (event H s type_exit) { exit_code = some code } in
      let closed = event H s type_session_closed in
      let told = if s.core.killed then w else send H w d exit in
      let first : Rel w told = elim (Bool-cases s.core.killed) [
        | inl yes_killed ↦ rw yes_killed (Rel-same w)
        | inr not_killed ↦ rw not_killed (send-Rel w d exit)
      ] in
      then_Rel w told (tell_exit H w s code d) first (
        then_Rel told (send H told d closed) (tell_exit H w s code d) (send-Rel told d closed)
          (conn_drop_session-Rel (send H told d closed) d (key_of H s)))

  tell_each-Rel :
      (w : World H) (s : Sess H) (code : ℤ) (ds : List (ℕ × Winsize))
      → Rel w (tell_each H w s code ds)
  unfolding tell_each
  tell_each-Rel w s code [] = Rel-same w
  tell_each-Rel w s code ((d, ws) ∷ ds) =
      let next = tell_exit H w s code d in
      then_Rel w next (tell_each H next s code ds) (tell_exit-Rel w s code d)
        (tell_each-Rel next s code ds)

  shutdown_each-Unmoved : (w : World H) (rs : List (ℕ × Bool)) → Unmoved w (shutdown_each H w rs)
  unfolding shutdown_each raw_shutdown
  shutdown_each-Unmoved w [] = (refl, refl)
  shutdown_each-Unmoved w ((r, b) ∷ rs) = shutdown_each-Unmoved (raw_shutdown H w r) rs

  remove_session-Unmoved : (w : World H) (r : ℕ) → Unmoved w (remove_session H w r)
  unfolding remove_session
  remove_session-Unmoved w r = ground arith

  on_exit-Rel : (w : World H) (r : ℕ) (code : ℤ) → Rel w (on_exit H w r code)
  unfolding on_exit
  on_exit-Rel w r code =
      let s = w.sess_at r in
      let emptied = set_sess H w r (record s { attachments = []; raw_subs = [] }) in
      let told = tell_each H emptied s code s.attachments in
      let down = shutdown_each H told s.raw_subs in
      moved_Rel w down (on_exit H w r code) (remove_session-Unmoved down r) (
        moved_Rel w told down (shutdown_each-Unmoved told s.raw_subs)
          (tell_each-Rel emptied s code s.attachments))

  exit_hook-Rel : (w : World H) (r : ℕ) (code : Option ℤ) → Rel w (exit_hook H w r code)
  exit_hook-Rel w r none = Rel-same w
  exit_hook-Rel w r (some code) = on_exit-Rel w r code

  pub child_exit-Rel : (w : World H) (r : ℕ) (wait : WaitResult) → Rel w (child_exit H w r wait)
  unfolding child_exit
  child_exit-Rel w r wait =
      let (core, code) = Core.finish H.emulator (w.sess_at r).core wait in
      exit_hook-Rel (set_core H w r core) r code

  pub kill-Rel : (w : World H) (r : ℕ) (wait : WaitResult) → Rel w (Attach.kill H w r wait)
  unfolding Attach.kill
  kill-Rel w r wait =
      let (core, code) = Core.kill H.emulator (w.sess_at r).core wait in
      exit_hook-Rel (set_core H w r core) r code

  pub kill_each-Rel :
      (w : World H) (rs : List ℕ) (wait : WaitResult) → Rel w (kill_each H w rs wait).0
  unfolding kill_each
  kill_each-Rel w [] wait = Rel-same w
  kill_each-Rel w (r ∷ rs) wait =
      let next = Attach.kill H w r wait in
      then_Rel w next (kill_each H next rs wait).0 (kill-Rel w r wait) (kill_each-Rel next rs wait)

  detach_each-Rel :
      (w : World H) (d : ℕ) (ks : List (SessKey × Bool)) → Rel w (detach_each H w d ks)
  unfolding detach_each
  detach_each-Rel w d [] = Rel-same w
  detach_each-Rel w d ((k, b) ∷ ks) = elim (Option-cases (get_session H w k.ns k.id)) [
    | inl absent ↦ rw (absent, detach_each) (detach_each-Rel w d ks)
    | inr (r, held) ↦
        rw (held, detach_each)
          (then_Rel w (Attach.detach H w r d) (detach_each H (Attach.detach H w r d) d ks)
            (detach-Rel w r d) (detach_each-Rel (Attach.detach H w r d) d ks))
  ]

  pub shutdown-Rel : (w : World H) (d : ℕ) → Rel w (shutdown H w d)
  unfolding shutdown
  shutdown-Rel w d = elim (Bool-cases (w.conn_at d).done) [
    | inl over ↦ rw (over, shutdown) (Rel-same w)
    | inr up ↦
        rw (up, shutdown)
          (let x = w.conn_at d in
            let closed = set_conn H w d (record x { done = true }) in
            then_Rel w closed (detach_each H closed d x.attached)
              (set_conn-Rel w d (record x { done = true }) (S.shut x))
              (detach_each-Rel closed d x.attached))
  ]

  pub shutdown_all-Rel : (w : World H) (cs : List (ℕ × Bool)) → Rel w (shutdown_all H w cs)
  unfolding shutdown_all
  shutdown_all-Rel w [] = Rel-same w
  shutdown_all-Rel w ((d, b) ∷ cs) =
      then_Rel w (shutdown H w d) (shutdown_all H (shutdown H w d) cs) (shutdown-Rel w d)
        (shutdown_all-Rel (shutdown H w d) cs)
