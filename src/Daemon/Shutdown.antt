-- ===== src/Daemon/Shutdown.antt =====
-- internal/server/server.go: `shutdown` of a connection, and the attachments of that connection.
use pupptyeer.Prelude.{
  ℕ, ◌≡◌, ◌⊎◌, inl, inr, refl, ap, ◌∙◌, Bool, true, false, none, some, Bytes, List, [], ◌∷◌, arith,
  Option-cases, Bool-cases,
}
use pupptyeer.Prelude.Int.{ℤ}
use pupptyeer.Prelude.Assoc.{
  lookup, insert, delete, lookup-insert, lookup-delete, ℕ_eq, update_same,
}
use pupptyeer.World.{
  Host, World, Sess, SessKey, SessKey_eq, key_of, key_eq, key_eq_iff, send, push_message, set_conn,
  set_sess, conn_drop_session, conn_add_session, get_session,
}
use pupptyeer.Protocol.{Message, type_scrollback_end}
use pupptyeer.Attach
use pupptyeer.Attach.Replay.{frame, pieces_of}
use pupptyeer.Attach.{recompute_size}
use pupptyeer.Attach.Size.{recompute_size_keeps}
use pupptyeer.Daemon.{detach_each, shutdown}

module _ (H : Host) where
  detached : Sess H → ℕ → Sess H
  detached s c = recompute_size H (record s { attachments = delete c s.attachments })

  detach-sess :
      (w : World H) (r c : ℕ)
      → (Attach.detach H w r c).sess_at ≡ (set_sess H w r (detached (w.sess_at r) c)).sess_at
  unfolding Attach.detach conn_drop_session detached
  detach-sess w r c = refl

  detach-sessions : (w : World H) (r c : ℕ) → (Attach.detach H w r c).sessions ≡ w.sessions
  unfolding Attach.detach conn_drop_session
  detach-sessions w r c = refl

  -- What a run of detaches keeps of a session: its life, and that a connection is not attached.
  record Kept (c : ℕ) (s s' : Sess H) : Type 0 where
    pub alive : s'.core.alive ≡ s.core.alive
    pub killed : s'.core.killed ≡ s.core.killed
    pub finished : s'.core.finished ≡ s.core.finished
    pub gone : (lookup c s'.attachments ≡ none) ⊎ (lookup c s'.attachments ≡ lookup c s.attachments)

  detached-Kept : (s : Sess H) (c : ℕ) → Kept c s (detached s c)
  unfolding detached
  detached-Kept s c = ground (
    arith,
    recompute_size_keeps H (record s { attachments = delete c s.attachments }),
    lookup-delete c c s.attachments,
  )

  detach-Kept : (w : World H) (r c q : ℕ) → Kept c (w.sess_at q) ((Attach.detach H w r c).sess_at q)
  unfolding Attach.detach conn_drop_session detached
  detach-Kept w r c q = ground (arith, detached-Kept (w.sess_at r) c)

  Kept-trans : {c : ℕ} {s t u : Sess H} → Kept c s t → Kept c t u → Kept c s u
  Kept-trans a b = ground arith

  detach_each-Kept :
      (w : World H) (c q : ℕ) (ks : List (SessKey × Bool))
      → Kept c (w.sess_at q) ((detach_each H w c ks).sess_at q)
  unfolding detach_each
  detach_each-Kept w c q [] = ground arith
  detach_each-Kept w c q ((k, b) ∷ ks) = elim (Option-cases (get_session H w k.ns k.id)) [
    | inl e ↦ rw (e, detach_each) (detach_each-Kept w c q ks)
    | inr (r, e) ↦
        rw (e, detach_each)
          (Kept-trans (detach-Kept w r c q) (detach_each-Kept (Attach.detach H w r c) c q ks))
  ]

  detach-gone :
      (w : World H) (r c : ℕ) → lookup c ((Attach.detach H w r c).sess_at r).attachments ≡ none
  unfolding Attach.detach conn_drop_session
  detach-gone w r c =
      let s = w.sess_at r in
      ground (
        arith,
        recompute_size_keeps H (record s { attachments = delete c s.attachments }),
        lookup-delete c c s.attachments,
      )

  detach_each-none :
      (w : World H) (c r : ℕ) (ks : List (SessKey × Bool))
      → lookup c (w.sess_at r).attachments ≡ none
      → lookup c ((detach_each H w c ks).sess_at r).attachments ≡ none
  detach_each-none w c r ks h = ground (arith, detach_each-Kept w c r ks)

  get_session-detach :
      (w : World H) (q c : ℕ) (ns id : Bytes)
      → get_session H (Attach.detach H w q c) ns id ≡ get_session H w ns id
  unfolding get_session Attach.detach conn_drop_session
  get_session-detach w q c ns id = refl

  detach_each-gone :
      (w : World H) (c r : ℕ) (k : SessKey) (ks : List (SessKey × Bool))
      → lookup k ks ≡ some true
      → get_session H w k.ns k.id ≡ some r
      → lookup c ((detach_each H w c ks).sess_at r).attachments ≡ none
  unfolding detach_each lookup
  detach_each-gone w c r k [] h e = cc
  detach_each-gone w c r k ((j, b) ∷ ks) h e = elim (Bool-cases (key_eq j k)) [
    | inl same ↦
        let found : get_session H w j.ns j.id ≡ some r =
          ap (λ (i : SessKey). get_session H w i.ns i.id) ((key_eq_iff j k).0 same) ∙ e in
        rw (found, detach_each)
          (detach_each-none (Attach.detach H w r c) c r ks (detach-gone w r c))
    | inr other ↦
        let later : lookup k ks ≡ some true = ground (arith, h, other) in
        elim (Option-cases (get_session H w j.ns j.id)) [
          | inl none_there ↦ rw (none_there, detach_each) (detach_each-gone w c r k ks later e)
          | inr (q, found) ↦
              rw (found, detach_each)
                (detach_each-gone (Attach.detach H w q c) c r k ks later
                  (get_session-detach w q c k.ns k.id ∙ e))
        ]
  ]

  -- The first `shutdown` of a connection detaches it from every session that it lists and that is
  -- registered under the key it lists.
  pub shutdown_detaches :
      (w : World H) (c r : ℕ) (k : SessKey)
      → (w.conn_at c).done ≡ false
      → lookup k (w.conn_at c).attached ≡ some true
      → get_session H w k.ns k.id ≡ some r
      → lookup c ((shutdown H w c).sess_at r).attachments ≡ none
  unfolding shutdown get_session
  shutdown_detaches w c r k up listed found =
      let marked = set_conn H w c (record (w.conn_at c) { done = true }) in
      rw (up, shutdown) (detach_each-gone marked c r k (w.conn_at c).attached listed found)

  -- A `shutdown` ends no session: each is alive, killed and finished as it was before.
  pub shutdown_keeps :
      (w : World H) (c q : ℕ)
      → let s = w.sess_at q in
        let s' = (shutdown H w c).sess_at q in
        (s'.core.alive ≡ s.core.alive)
        × (s'.core.killed ≡ s.core.killed)
        × (s'.core.finished ≡ s.core.finished)
  unfolding shutdown
  shutdown_keeps w c q =
      let marked = set_conn H w c (record (w.conn_at c) { done = true }) in
      ground (arith, detach_each-Kept marked c q (w.conn_at c).attached)

  send-keeps :
      (w : World H) (c d : ℕ) (m : Message)
      → ((send H w c m).sess_at ≡ w.sess_at)
        × (((send H w c m).conn_at d).done ≡ (w.conn_at d).done)
  unfolding send push_message
  send-keeps w c d m = (refl, ground arith)

  replay-keeps :
      (w : World H) (s : Sess H) (c d : ℕ) (ps : List Bytes)
      → ((Attach.replay H w s c ps).sess_at ≡ w.sess_at)
        × (((Attach.replay H w s c ps).conn_at d).done ≡ (w.conn_at d).done)
  unfolding Attach.replay
  replay-keeps w s c d [] = (refl, refl)
  replay-keeps w s c d (p ∷ ps) =
      let first = send-keeps w c d (frame H s p) in
      let later = replay-keeps (send H w c (frame H s p)) s c d ps in
      (later.0 ∙ first.0, later.1 ∙ first.1)

  abbrev joining : Sess H → ℕ → ℤ → ℤ → Sess H
  joining s c cols rows = record s {
    attachments = insert c (record { cols = cols; rows = rows }) s.attachments;
  }

  attach-keeps :
      (w : World H) (r c : ℕ) (cols rows : ℤ)
      → let w' = Attach.attach H w r c cols rows in
        (w'.sess_at r ≡ recompute_size H (joining (w.sess_at r) c cols rows))
        × ((w'.conn_at c).done ≡ (w.conn_at c).done)
  unfolding Attach.attach conn_add_session
  attach-keeps w r c cols rows =
      let s = recompute_size H (joining (w.sess_at r) c cols rows) in
      let ready = set_sess H (conn_add_session H w c (key_of H (w.sess_at r))) r s in
      let replayed = Attach.replay H ready s c (pieces_of H s) in
      let sent = send-keeps replayed c c (Attach.event H s type_scrollback_end) in
      let before = replay-keeps ready s c c (pieces_of H s) in
      (
        ap (λ (f : ℕ → Sess H). f r) (sent.0 ∙ before.0) ∙ update_same w.sess_at r s,
        sent.1 ∙ before.1 ∙ ground arith,
      )

  -- An `attach` of a connection that is shut down enters it among the session's attachments with the size
  -- that it asked for, and a `shutdown` after that changes nothing.
  pub attach_stale :
      (w : World H) (r c : ℕ) (cols rows : ℤ)
      → (w.conn_at c).done ≡ true
      → let w' = Attach.attach H w r c cols rows in
        (lookup c (w'.sess_at r).attachments ≡ some (record { cols = cols; rows = rows }))
        × (shutdown H w' c ≡ w')
  unfolding shutdown
  attach_stale w r c cols rows gone =
      let s = w.sess_at r in
      let kept = attach-keeps w r c cols rows in
      let same = recompute_size_keeps H (joining s c cols rows) in
      (
        ap (λ (t : Sess H). lookup c t.attachments) kept.0
            ∙ ap (lookup c) same.4
            ∙ lookup-insert c c (record { cols = cols; rows = rows }) s.attachments
            ∙ ground arith,
        rw (kept.1 ∙ gone, shutdown),
      )
