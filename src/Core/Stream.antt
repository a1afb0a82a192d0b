-- ===== src/Core/Stream.antt =====
-- pkg/ptysession/session.go: what a run of `readLoop` leaves in the ring.
use pupptyeer.Prelude.{ℕ, ◌≡◌, refl, ap, ◌∙◌, Bytes, List, [], ◌∷◌, ◌++◌, concat, last, arith, ◌<◌}
use pupptyeer.Prelude.Int.{ℤ}
use pupptyeer.Ring
use pupptyeer.Ring.{RingBuffer}
use pupptyeer.Ring.Refine.{snapshot-feed}
use pupptyeer.Core.Terminal.{Emulator}
use pupptyeer.Core.{Session, read_chunk, feed_term}

abbrev pub chunks : List (ℤ × Bytes) → List Bytes
chunks [] = []
chunks ((now, p) ∷ ps) = p ∷ chunks ps

-- `readLoop` passes over an empty read.
abbrev nonempty : List Bytes → List Bytes
nonempty [] = []
nonempty ([] ∷ ps) = nonempty ps
nonempty ((b ∷ p) ∷ ps) = (b ∷ p) ∷ nonempty ps

concat-nonempty : (ps : List Bytes) → concat (nonempty ps) ≡ concat ps
concat-nonempty [] = refl
concat-nonempty ([] ∷ ps) = concat-nonempty ps
concat-nonempty ((b ∷ p) ∷ ps) = ap (◌++◌ (b ∷ p)) (concat-nonempty ps)

module _ (E : Emulator) where
  -- The rounds of `readLoop`, each with the time of its `touch`.
  pub read_all : Session E → List (ℤ × Bytes) → Session E
  read_all s [] = s
  read_all s ((now, p) ∷ ps) = read_all (read_chunk E s now p) ps

  ring-feed_term : (s : Session E) (p : Bytes) → (feed_term E s p).ring ≡ s.ring
  unfolding feed_term
  ring-feed_term s p = ground arith

  ring-read_all :
      (s : Session E) (cs : List (ℤ × Bytes))
      → (read_all s cs).ring ≡ Ring.feed s.ring (nonempty (chunks cs))
  unfolding read_all read_chunk Ring.feed
  ring-read_all s [] = refl
  ring-read_all s ((now, []) ∷ cs) = ring-read_all s cs
  ring-read_all s ((now, b ∷ p) ∷ cs) =
      let touched = record s { last_activity = now; ring = Ring.append s.ring (b ∷ p) } in
      ring-read_all (feed_term E touched (b ∷ p)) cs
      ∙ ap (λ r. Ring.feed r (nonempty (chunks cs))) (ring-feed_term touched (b ∷ p))

  -- Started with a ring of `size` bytes, a session's raw capture after any reads is the last `size`
  -- bytes of what the child wrote, however the reads cut it.
  pub snapshot-read_all :
      (s : Session E) (size : ℕ) (cs : List (ℤ × Bytes))
      → 0 < size
      → s.ring ≡ Ring.new_ring_buffer size
      → Ring.snapshot (read_all s cs).ring ≡ last size (concat (chunks cs))
  snapshot-read_all s size cs h e = ground (
    arith,
    ring-read_all s cs,
    snapshot-feed size (nonempty (chunks cs)) h,
    concat-nonempty (chunks cs),
  )
