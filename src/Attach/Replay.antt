-- ===== src/Attach/Replay.antt =====
-- internal/server/session.go: the replay of `attach`.
use pupptyeer.Prelude.{
  ℕ, zero, suc, ◌+◌, ◌*◌, ◌≤◌, ◌<◌, ◌≡◌, refl, sym, ap, ap₂, ◌∙◌, true, false, some, Bytes, List,
  [], ◌∷◌, ◌++◌, map, length-append, length, drop, concat, take-append-drop, length-drop,
  length-take, append_assoc, append-nil, arith,
}
use pupptyeer.Protocol.{Message, blank, type_output, type_scrollback_end}
use pupptyeer.World.{
  Host, World, Sess, Conn, SessKey_eq, outbound_queue, send, push_message, set_sess,
  conn_add_session, key_of,
}
use pupptyeer.Ring
use pupptyeer.Prelude.Int.{ℤ}
use pupptyeer.Prelude.Assoc.{insert, lookup, lookup-insert, beq_refl, ℕ_eq, update_same}
use pupptyeer.Attach.Size.{recompute_size_keeps}
use pupptyeer.Attach.{event, replay, attach, recompute_size, split_chunks, pty_chunk}

-- The pieces, put together again, are the snapshot.
pub concat-split_chunks :
    (n fuel : ℕ) (bs : Bytes) → 0 < n → length bs < fuel → concat (split_chunks n fuel bs) ≡ bs
unfolding split_chunks
concat-split_chunks n zero bs h k = absurd (omega arith)
concat-split_chunks n (suc fuel) [] h k = refl
concat-split_chunks n (suc fuel) (b ∷ bs) h k = ground (
  arith,
  concat-split_chunks n fuel (drop n (b ∷ bs)) h,
  length-drop n (b ∷ bs),
  take-append-drop n (b ∷ bs),
)

abbrev pub Fits : ℕ → List Bytes → Type 0
Fits n [] = Unit {0}
Fits n (p ∷ ps) = (0 < length p) × (length p ≤ n) × Fits n ps

split_chunks-Fits : (n fuel : ℕ) (bs : Bytes) → 0 < n → Fits n (split_chunks n fuel bs)
unfolding split_chunks
split_chunks-Fits n zero bs h = tt
split_chunks-Fits n (suc fuel) [] h = tt
split_chunks-Fits n (suc fuel) (b ∷ bs) h = (
  omega (arith, length-take n (b ∷ bs)),
  omega (arith, length-take n (b ∷ bs)),
  split_chunks-Fits n fuel (drop n (b ∷ bs)) h,
)

suc-mul : (k n : ℕ) → suc k * n ≡ n + k * n
suc-mul k n = grind arith

-- At most one piece for each started `n` bytes.
length-split_chunks :
    (n fuel k : ℕ) (bs : Bytes) → 0 < n → length bs ≤ k * n → length (split_chunks n fuel bs) ≤ k
unfolding split_chunks
length-split_chunks n zero k bs h e = omega arith
length-split_chunks n (suc fuel) k [] h e = omega arith
length-split_chunks n (suc fuel) zero (b ∷ bs) h e = absurd (omega arith)
length-split_chunks n (suc fuel) (suc k) (b ∷ bs) h e = omega (
  arith,
  length-split_chunks n fuel k (drop n (b ∷ bs)) h
      (omega (arith, length-drop n (b ∷ bs), suc-mul k n)),
)

module _ (H : Host) where
  abbrev pub out_of : World H → ℕ → List Message
  out_of w c = (w.conn_at c).out

  -- An open connection with room in its queue takes the message.
  pub send-conn :
      (w : World H) (c : ℕ) (m : Message)
      → (w.conn_at c).done ≡ false
      → length (out_of w c) < outbound_queue
      → (send H w c m).conn_at c ≡ record (w.conn_at c) { out = out_of w c ++ m ∷ [] }
  unfolding send push_message
  send-conn w c m up h = ground arith

  abbrev pub frame : Sess H → Bytes → Message
  frame s p = record (event H s type_output) { payload = H.encode p }

  replay-conn :
      (w : World H) (s : Sess H) (c : ℕ) (ps : List Bytes)
      → (w.conn_at c).done ≡ false
      → length (out_of w c) + length ps ≤ outbound_queue
      → (replay H w s c ps).conn_at c
        ≡ record (w.conn_at c) { out = out_of w c ++ map (frame s) ps }
  unfolding replay
  replay-conn w s c [] up h =
      ap (λ (ms : List Message). record (w.conn_at c) { out = ms }) (sym (append-nil (out_of w c)))
  replay-conn w s c (p ∷ ps) up h =
      let next = send H w c (frame s p) in
      let sent : next.conn_at c ≡ record (w.conn_at c) { out = out_of w c ++ frame s p ∷ [] } =
        send-conn w c (frame s p) up (omega arith) in
      let longer : length (out_of next c) ≡ length (out_of w c) + 1 =
        ap (λ (x : Conn). length x.out) sent ∙ length-append (out_of w c) (frame s p ∷ []) in
      replay-conn next s c ps (ap (λ (x : Conn). x.done) sent ∙ up) (omega (arith, longer))
      ∙ ap (λ (x : Conn). record x { out = x.out ++ map (frame s) ps }) sent
      ∙ ap (λ (ms : List Message). record (w.conn_at c) { out = ms })
          (append_assoc (out_of w c) (frame s p ∷ []) (map (frame s) ps))

  length-frames : (s : Sess H) (ps : List Bytes) → length (map (frame s) ps) ≡ length ps
  length-frames s [] = refl
  length-frames s (p ∷ ps) = ap suc (length-frames s ps)

  -- The pieces that `attach` sends: what `snapshot` holds, cut.
  abbrev pub pieces_of : Sess H → List Bytes
  pieces_of s =
      let snapshot = Ring.snapshot s.core.ring in
      split_chunks pty_chunk (suc (length snapshot)) snapshot

  abbrev joined : World H → ℕ → ℕ → ℤ → ℤ → Sess H
  joined w r c cols rows =
      let s = w.sess_at r in
      recompute_size H
        (record s { attachments = insert c (record { cols = cols; rows = rows }) s.attachments })

  attach-conn :
      (w : World H) (r c : ℕ) (cols rows : ℤ)
      → let s' = joined w r c cols rows in
        (w.conn_at c).done ≡ false
        → length (out_of w c) + length (pieces_of s') < outbound_queue
        → (attach H w r c cols rows).conn_at c ≡ record (w.conn_at c) {
          out =
              (out_of w c ++ map (frame s') (pieces_of s')) ++ event H s' type_scrollback_end ∷ [];
          attached = insert (key_of H (w.sess_at r)) true (w.conn_at c).attached;
        }
  unfolding attach conn_add_session
  attach-conn w r c cols rows up h =
      let s' = joined w r c cols rows in
      let x = w.conn_at c in
      let x' = record x { attached = insert (key_of H (w.sess_at r)) true x.attached } in
      let ready = set_sess H (conn_add_session H w c (key_of H (w.sess_at r))) r s' in
      let replayed = replay H ready s' c (pieces_of s') in
      let e : ready.conn_at c ≡ x' = update_same w.conn_at c x' in
      let e' : replayed.conn_at c ≡ record x' { out = x.out ++ map (frame s') (pieces_of s') } =
        replay-conn ready s' c (pieces_of s') (ap (λ (y : Conn). y.done) e ∙ up)
          (omega (arith, ap (λ (y : Conn). length y.out) e))
        ∙ ap (λ (y : Conn). record y { out = y.out ++ map (frame s') (pieces_of s') }) e in
      let size : length (out_of replayed c) ≡ length x.out + length (pieces_of s') =
        ap (λ (y : Conn). length y.out) e'
        ∙ length-append x.out (map (frame s') (pieces_of s'))
        ∙ ap (λ n. length x.out + n) (length-frames s' (pieces_of s')) in
      send-conn replayed c (event H s' type_scrollback_end) (ap (λ (y : Conn). y.done) e' ∙ up)
        (omega (arith, size))
      ∙ ap (λ (y : Conn). record y { out = y.out ++ event H s' type_scrollback_end ∷ [] }) e'

  abbrev event_as : Bytes → Bytes → Bytes → Message
  event_as ns id type = record blank { type = type; namespace = ns; session = id }

  abbrev frame_as : Bytes → Bytes → Bytes → Message
  frame_as ns id p = record (event_as ns id type_output) { payload = H.encode p }

  -- Attaching an open connection whose queue has room for nine messages to a session with at most
  -- 256 KiB of scrollback queues, behind what it holds, the scrollback as output frames of at most
  -- 32 KiB whose bytes together are the snapshot, then `scrollback_end`, and nothing else; the
  -- connection is not dropped, and it lists the session as attached.
  pub attach_replays :
      (w : World H) (r c : ℕ) (cols rows : ℤ)
      → (w.conn_at c).done ≡ false
      → length (w.conn_at c).out ≤ 247
      → length (Ring.snapshot (w.sess_at r).core.ring) ≤ 262144
      → let s = w.sess_at r in
        let x = (attach H w r c cols rows).conn_at c in
        (pieces : List Bytes) × (x.out
          ≡ ((w.conn_at c).out ++ map (frame s) pieces) ++ event H s type_scrollback_end ∷ [])
        × (concat pieces ≡ Ring.snapshot s.core.ring)
        × Fits pty_chunk pieces
        × (x.done ≡ false)
        × (x.dropping ≡ (w.conn_at c).dropping)
        × (lookup (key_of H s) x.attached ≡ some true)
  attach_replays w r c cols rows up h k =
      let s = w.sess_at r in
      let s' = joined w r c cols rows in
      let pieces = pieces_of s' in
      let old = (w.conn_at c).out in
      let keeps =
        recompute_size_keeps H (record s {
          attachments = insert c (record { cols = cols; rows = rows }) s.attachments;
        }) in
      let same : Ring.snapshot s'.core.ring ≡ Ring.snapshot s.core.ring =
        ap Ring.snapshot keeps.0 in
      let size : length (Ring.snapshot s'.core.ring) ≤ 8 * pty_chunk =
        omega (arith, ap (λ (bs : Bytes). length bs) same) in
      let few : length pieces ≤ 8 =
        length-split_chunks pty_chunk (suc (length (Ring.snapshot s'.core.ring))) 8
          (Ring.snapshot s'.core.ring) (omega arith) size in
      let e = attach-conn w r c cols rows up (omega arith) in
      (
        pieces,
        ap (λ (x : Conn). x.out) e
            ∙ ap₂
                (λ ns id.
                  (old ++ map (frame_as ns id) pieces) ++ event_as ns id type_scrollback_end ∷ [])
                keeps.6 keeps.7,
        concat-split_chunks pty_chunk (suc (length (Ring.snapshot s'.core.ring)))
              (Ring.snapshot s'.core.ring) (omega arith) (omega arith)
            ∙ same,
        split_chunks-Fits pty_chunk (suc (length (Ring.snapshot s'.core.ring)))
            (Ring.snapshot s'.core.ring) (omega arith),
        ap (λ (x : Conn). x.done) e ∙ up,
        ap (λ (x : Conn). x.dropping) e,
        ap (λ (x : Conn). lookup (key_of H s) x.attached) e
            ∙ lookup-insert (key_of H s) (key_of H s) true (w.conn_at c).attached
            ∙ ground (arith, beq_refl (key_of H s)),
      )
