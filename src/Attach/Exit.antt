-- ===== src/Attach/Exit.antt =====
-- internal/server/session.go: `onExit`.
use mathlib.Core.Path.{subst₂}
use pupptyeer.Prelude.{
  ℕ, ◌+◌, ◌<◌, ◌≡◌, ◌≢◌, ◌⊎◌, inl, inr, refl, sym, ap, ◌∙◌, Bool, false, none, some, List, [], ◌∷◌,
  ◌++◌, length, length-append, append_assoc, arith, if◌then◌else◌,
}
use pupptyeer.Prelude.Int.{ℤ}
use pupptyeer.Prelude.Assoc.{lookup, delete, lookup-delete, beq_refl, update_same}
use pupptyeer.Protocol.{Message, type_exit, type_session_closed}
use pupptyeer.World.{
  Host, World, Sess, Conn, SessKey, SessKey_eq, Winsize, key_of, key_eq, set_sess, send,
  push_message, conn_drop_session, raw_shutdown, remove_session, outbound_queue,
}
use pupptyeer.World.Registry.{remove_session_cases}
use pupptyeer.Attach.{event, tell_exit, tell_each, shutdown_each, on_exit}

abbrev pub Absent : ℕ → List (ℕ × Winsize) → Type 0
Absent c [] = Unit {0}
Absent c ((d, ws) ∷ cs) = (c ≢ d) × Absent c cs

-- The connection is attached, and listed once.
abbrev pub Once : ℕ → List (ℕ × Winsize) → Type 0
Once c [] = ⊥
Once c ((d, ws) ∷ cs) = ((c ≡ d) × Absent c cs) ⊎ ((c ≢ d) × Once c cs)

-- The id is freed if it is mapped to session `r`, every other id being left alone; a registry that
-- maps the id to another session, or to none, stays as it is.
abbrev pub Freed : SessKey → ℕ → List (SessKey × ℕ) → List (SessKey × ℕ) → Type 0
Freed key r before after =
    ((lookup key before ≡ some r)
      × ((k : SessKey) → lookup k after ≡ (if key_eq key k then none else lookup k before)))
    ⊎ ((lookup key before ≢ some r) × (after ≡ before))

module _ (H : Host) where
  exit_event : Sess H → ℤ → Message
  exit_event s code = record (event H s type_exit) { exit_code = some code }

  -- What `onExit` does to a connection.
  pub told : Sess H → ℤ → Conn → Conn
  told s code x =
      let x' = if s.core.killed then x else push_message x (exit_event s code) in
      let x'' = push_message x' (event H s type_session_closed) in
      record x'' { attached = delete (key_of H s) x''.attached }

  tell_exit_self :
      (w : World H) (s : Sess H) (code : ℤ) (c : ℕ)
      → (tell_exit H w s code c).conn_at c ≡ told s code (w.conn_at c)
  unfolding tell_exit told send conn_drop_session exit_event
  tell_exit_self w s code c = ground arith

  tell_exit-other :
      (w : World H) (s : Sess H) (code : ℤ) (c d : ℕ)
      → d ≢ c
      → (tell_exit H w s code c).conn_at d ≡ w.conn_at d
  unfolding tell_exit send conn_drop_session
  tell_exit-other w s code c d h = ground arith

  tell_exit-rest :
      (w : World H) (s : Sess H) (code : ℤ) (c : ℕ)
      → ((tell_exit H w s code c).sess_at ≡ w.sess_at)
        × ((tell_exit H w s code c).sessions ≡ w.sessions)
  unfolding tell_exit send conn_drop_session
  tell_exit-rest w s code c = ground arith

  tell_each-Absent :
      (w : World H) (s : Sess H) (code : ℤ) (d : ℕ) (cs : List (ℕ × Winsize))
      → Absent d cs
      → (tell_each H w s code cs).conn_at d ≡ w.conn_at d
  unfolding tell_each
  tell_each-Absent w s code d [] h = refl
  tell_each-Absent w s code d ((c, ws) ∷ cs) h =
      tell_each-Absent (tell_exit H w s code c) s code d cs h.1 ∙ tell_exit-other w s code c d h.0

  tell_each-Once :
      (w : World H) (s : Sess H) (code : ℤ) (d : ℕ) (cs : List (ℕ × Winsize))
      → Once d cs
      → (tell_each H w s code cs).conn_at d ≡ told s code (w.conn_at d)
  unfolding tell_each
  tell_each-Once w s code d [] h = elim h [ ]
  tell_each-Once w s code d ((c, ws) ∷ cs) (inl (e, h)) =
      tell_each-Absent (tell_exit H w s code c) s code d cs h
      ∙ ap (tell_exit H w s code c).conn_at e
      ∙ tell_exit_self w s code c
      ∙ ap (λ k. told s code (w.conn_at k)) (sym e)
  tell_each-Once w s code d ((c, ws) ∷ cs) (inr (n, h)) =
      tell_each-Once (tell_exit H w s code c) s code d cs h
      ∙ ap (told s code) (tell_exit-other w s code c d n)

  tell_each-rest :
      (w : World H) (s : Sess H) (code : ℤ) (cs : List (ℕ × Winsize))
      → ((tell_each H w s code cs).sess_at ≡ w.sess_at)
        × ((tell_each H w s code cs).sessions ≡ w.sessions)
  unfolding tell_each
  tell_each-rest w s code [] = (refl, refl)
  tell_each-rest w s code ((c, ws) ∷ cs) =
      let first = tell_exit-rest w s code c in
      let later = tell_each-rest (tell_exit H w s code c) s code cs in
      (later.0 ∙ first.0, later.1 ∙ first.1)

  shutdown_each-rest :
      (w : World H) (rs : List (ℕ × Bool))
      → ((shutdown_each H w rs).sess_at ≡ w.sess_at)
        × ((shutdown_each H w rs).sessions ≡ w.sessions)
        × ((shutdown_each H w rs).conn_at ≡ w.conn_at)
  unfolding shutdown_each raw_shutdown
  shutdown_each-rest w [] = (refl, refl, refl)
  shutdown_each-rest w ((r, b) ∷ rs) = shutdown_each-rest (raw_shutdown H w r) rs

  abbrev emptied : World H → ℕ → World H
  emptied w r = set_sess H w r (record (w.sess_at r) { attachments = []; raw_subs = [] })

  abbrev drained : World H → ℕ → ℤ → World H
  drained w r code =
      let s = w.sess_at r in
      shutdown_each H (tell_each H (emptied w r) s code s.attachments) s.raw_subs

  drained-rest :
      (w : World H) (r : ℕ) (code : ℤ)
      → ((drained w r code).sess_at ≡ (emptied w r).sess_at)
        × ((drained w r code).sessions ≡ w.sessions)
  drained-rest w r code =
      let s = w.sess_at r in
      let told_all = tell_each-rest (emptied w r) s code s.attachments in
      let shut = shutdown_each-rest (tell_each H (emptied w r) s code s.attachments) s.raw_subs in
      (shut.0 ∙ told_all.0, shut.1 ∙ told_all.1)

  remove_session-rest :
      (w : World H) (r : ℕ)
      → ((remove_session H w r).sess_at ≡ w.sess_at) × ((remove_session H w r).conn_at ≡ w.conn_at)
  unfolding remove_session
  remove_session-rest w r = ground arith

  -- `onExit` leaves the session without subscribers and every other session as it was.
  pub on_exit-sess :
      (w : World H) (r : ℕ) (code : ℤ)
      → (on_exit H w r code).sess_at
        ≡ (set_sess H w r (record (w.sess_at r) { attachments = []; raw_subs = [] })).sess_at
  unfolding on_exit
  on_exit-sess w r code = (remove_session-rest (drained w r code) r).0 ∙ (drained-rest w r code).0

  removed-Freed :
      (w : World H) (r : ℕ)
      → Freed (key_of H (w.sess_at r)) r w.sessions (remove_session H w r).sessions
  removed-Freed w r = elim (remove_session_cases H w r) [
    | inl freed ↦ inl freed
    | inr (other, e) ↦ inr (other, ap (λ (v : World H). v.sessions) e)
  ]

  -- `onExit` frees the session's id if it is mapped to this session, and otherwise leaves the registry
  -- as it was; every other id is left alone.
  pub on_exit-sessions :
      (w : World H) (r : ℕ) (code : ℤ)
      → let key = key_of H (w.sess_at r) in Freed key r w.sessions (on_exit H w r code).sessions
  unfolding on_exit
  on_exit-sessions w r code =
      let d = drained w r code in
      let same_key : key_of H (d.sess_at r) ≡ key_of H (w.sess_at r) =
        ap (λ (f : ℕ → Sess H). key_of H (f r)) (drained-rest w r code).0
        ∙ ap (key_of H)
            (update_same w.sess_at r (record (w.sess_at r) { attachments = []; raw_subs = [] })) in
      subst₂ (λ k before. Freed k r before (remove_session H d r).sessions) same_key
        (drained-rest w r code).1 (removed-Freed d r)

  on_exit-conn :
      (w : World H) (r : ℕ) (code : ℤ) (c : ℕ)
      → (on_exit H w r code).conn_at c
        ≡ (tell_each H (emptied w r) (w.sess_at r) code (w.sess_at r).attachments).conn_at c
  unfolding on_exit
  on_exit-conn w r code c =
      ap (λ (f : ℕ → Conn). f c)
        ((remove_session-rest (drained w r code) r).1
          ∙ (shutdown_each-rest
              (tell_each H (emptied w r) (w.sess_at r) code (w.sess_at r).attachments)
              (w.sess_at r).raw_subs).2)

  -- An attached connection that is open and has room for two messages gets, behind what its queue
  -- holds, the exit code unless the session was killed, then `session_closed`, and it no longer lists
  -- the session.
  pub on_exit_tells :
      (w : World H) (r : ℕ) (code : ℤ) (c : ℕ)
      → Once c (w.sess_at r).attachments
      → (w.conn_at c).done ≡ false
      → length (w.conn_at c).out + 1 < outbound_queue
      → let s = w.sess_at r in
        let x = (on_exit H w r code).conn_at c in
        let closed = event H s type_session_closed in
        let exit = record (event H s type_exit) { exit_code = some code } in
        (x.out ≡ (w.conn_at c).out ++ (if s.core.killed then closed ∷ [] else exit ∷ closed ∷ []))
        × (lookup (key_of H s) x.attached ≡ none)
        × (x.done ≡ false)
        × (x.dropping ≡ (w.conn_at c).dropping)
  unfolding told push_message exit_event
  on_exit_tells w r code c h up room =
      let s = w.sess_at r in
      let old = w.conn_at c in
      let e = on_exit-conn w r code c ∙ tell_each-Once (emptied w r) s code c s.attachments h in
      ground (
        arith,
        e,
        length-append old.out (exit_event s code ∷ []),
        append_assoc old.out (exit_event s code ∷ []) (event H s type_session_closed ∷ []),
        lookup-delete (key_of H s) (key_of H s) old.attached,
        beq_refl (key_of H s),
      )

  -- A connection that is not attached to the session does not notice its end.
  pub on_exit-conn-Absent :
      (w : World H) (r : ℕ) (code : ℤ) (c : ℕ)
      → Absent c (w.sess_at r).attachments
      → (on_exit H w r code).conn_at c ≡ w.conn_at c
  on_exit-conn-Absent w r code c h =
      on_exit-conn w r code c
      ∙ tell_each-Absent (emptied w r) (w.sess_at r) code c (w.sess_at r).attachments h
