-- ===== src/Cli/AttachLoop/Shown.antt =====
-- cmd/pupptyeer/ctl.go and internal/server/session.go together: what `ctl attach` prints of the messages
-- that the daemon's `attach` queues. `bytes_of` reads back what the daemon's base64 wrote.
use pupptyeer.Prelude.{
  ℕ, ◌≤◌, ◌≡◌, refl, sym, ap, ◌∙◌, false, none, Bytes, List, [], ◌∷◌, ◌++◌, map, concat, length,
  append_assoc, append-nil, if◌then◌else◌,
}
use pupptyeer.Prelude.Int.{ℤ}
use pupptyeer.Prelude.Strings.{is_nil}
use pupptyeer.Protocol
use pupptyeer.Protocol.{type_output, type_scrollback_end}
use pupptyeer.World.{Host, World, Sess}
use pupptyeer.Ring
use pupptyeer.Attach
use pupptyeer.Attach.{event}
use pupptyeer.Attach.Replay.{frame, attach_replays}
use pupptyeer.Client.Wire.Parity.{from_message}
use pupptyeer.Cli.AttachLoop.Events.{addressed, event_of-output, event_of-end}
use pupptyeer.Cli.AttachLoop.{
  Action, stdout, Input, message, is_addressed, message_bytes, show_event, show_message,
  watch_round, watch,
}

-- The bytes on standard output.
unfoldable pub printed : List Action → Bytes
printed [] = []
printed (stdout bs ∷ acts) = bs ++ printed acts
printed (other_act ∷ acts) = printed acts

module _ (H : Host) (bytes_of : Bytes → Bytes)
    (reads_back : (p : Bytes) → bytes_of (H.encode p) ≡ p) (reads_none : bytes_of [] ≡ []) where
  abbrev arrive : Protocol.Message → Input
  arrive m = message (from_message m)

  message_bytes-frame :
      (s : Sess H) (p : Bytes)
      → message_bytes bytes_of s.namespace s.id (from_message (frame H s p)) ≡ p
  unfolding message_bytes from_message
  message_bytes-frame s p = of_text (H.encode p) refl
    where
      of_text : (t : Bytes) → H.encode p ≡ t → (if is_nil t then [] else bytes_of t) ≡ p
      of_text [] e = sym reads_none ∙ ap bytes_of (sym e) ∙ reads_back p
      of_text (b ∷ bs) e = ap bytes_of (sym e) ∙ reads_back p

  show_message-frame :
      (s : Sess H) (p : Bytes)
      → show_message bytes_of s.namespace s.id (from_message (frame H s p)) ≡ (stdout p ∷ [], none)
  unfolding show_message from_message show_event
  show_message-frame s p =
      rw (addressed H s (frame H s p) refl refl, event_of-output, show_message)
        (ap (λ bs. (stdout bs ∷ [], none)) (message_bytes-frame s p))

  watch-frames :
      (s : Sess H) (ps : List Bytes) (rest : List Input)
      → watch bytes_of s.namespace s.id (map arrive (map (frame H s) ps) ++ rest) ≡ (
        map stdout ps ++ (watch bytes_of s.namespace s.id rest).0,
        (watch bytes_of s.namespace s.id rest).1,
      )
  unfolding watch watch_round
  watch-frames s [] rest = refl
  watch-frames s (p ∷ ps) rest = rw (show_message-frame s p, watch-frames s ps rest) refl

  show_message-end :
      (s : Sess H)
      → show_message bytes_of s.namespace s.id (from_message (event H s type_scrollback_end))
        ≡ ([], none)
  unfolding show_message from_message show_event is_addressed
  show_message-end s =
      rw (addressed H s (event H s type_scrollback_end) refl refl, event_of-end, show_message) refl

  map-append :
      {A B : Type 0} → (f : A → B) (xs ys : List A) → map f (xs ++ ys) ≡ map f xs ++ map f ys
  map-append f [] ys = refl
  map-append f (x ∷ xs) ys = ap (λ zs. f x ∷ zs) (map-append f xs ys)

  watch-replayed :
      (s : Sess H) (ps : List Bytes)
      → watch bytes_of s.namespace s.id
          (map arrive (map (frame H s) ps ++ event H s type_scrollback_end ∷ []))
        ≡ (map stdout ps, none)
  unfolding watch watch_round
  watch-replayed s ps =
      let last = event H s type_scrollback_end ∷ [] in
      rw
        (
          map-append arrive (map (frame H s) ps) last,
          watch-frames s ps (map arrive last),
          show_message-end s,
        )
        (ap (λ acts. (acts, none)) (append-nil (map stdout ps)))

  printed-stdout : (ps : List Bytes) → printed (map stdout ps) ≡ concat ps
  unfolding printed
  printed-stdout [] = refl
  printed-stdout (p ∷ ps) = ap (λ bs. p ++ bs) (printed-stdout ps)

  -- For an open connection with room for nine messages in its queue and a session with at most 256 KiB
  -- of scrollback: the messages that `attach` adds to the queue make `ctl attach` write the session's
  -- scrollback to standard output, byte for byte and nothing else on either stream, and its loop goes
  -- on, if the client's base64 reads back what the daemon's wrote, and no text as no bytes.
  pub attach_shows :
      (w : World H) (r c : ℕ) (cols rows : ℤ)
      → (w.conn_at c).done ≡ false
      → length (w.conn_at c).out ≤ 247
      → length (Ring.snapshot (w.sess_at r).core.ring) ≤ 262144
      → let s = w.sess_at r in
        (fresh : List Protocol.Message) × (pieces : List Bytes) × (((Attach.attach H w r c cols
              rows).conn_at
            c).out
          ≡ (w.conn_at c).out ++ fresh)
        × (watch bytes_of s.namespace s.id (map arrive fresh) ≡ (map stdout pieces, none))
        × (printed (map stdout pieces) ≡ Ring.snapshot s.core.ring)
  attach_shows w r c cols rows up room small =
      let s = w.sess_at r in
      let (pieces, queued, whole, _, _, _, _) = attach_replays H w r c cols rows up room small in
      let fresh = map (frame H s) pieces ++ event H s type_scrollback_end ∷ [] in
      (
        fresh,
        pieces,
        queued
            ∙ append_assoc (w.conn_at c).out (map (frame H s) pieces)
                (event H s type_scrollback_end ∷ []),
        watch-replayed s pieces,
        printed-stdout pieces ∙ whole,
      )
