-- ===== src/Ring/Tests.antt =====
-- Runs of the ring, and its theorems at concrete inputs.
use pupptyeer.Prelude.{◌++◌, ◌≡◌, refl, true, [], ◌∷◌, arith, copy, last}
use pupptyeer.Ring.{
  RingBuffer, new_ring_buffer, wrap_copy, append_circular, compact, append, snapshot, feed,
}
use pupptyeer.Ring.Inv.{IsValid}
use pupptyeer.Ring.Refine.{snapshot-append, snapshot-feed}

abbrev wrapped : RingBuffer
wrapped = record { buf = 5 ∷ 2 ∷ 3 ∷ 4 ∷ []; max = 4; pos = 1; full = true }

wrapped-IsValid : IsValid wrapped
wrapped-IsValid = omega arith

snapshot-wrapped : snapshot wrapped ≡ 2 ∷ 3 ∷ 4 ∷ 5 ∷ []
unfolding snapshot copy
snapshot-wrapped = refl

append_around :
    append wrapped (6 ∷ 7 ∷ 8 ∷ []) ≡ record wrapped { buf = 5 ∷ 6 ∷ 7 ∷ 8 ∷ []; pos = 0 }
unfolding append append_circular wrap_copy copy
append_around = refl

compacted :
    append (new_ring_buffer 3) (1 ∷ 2 ∷ 3 ∷ 4 ∷ 5 ∷ [])
    ≡ record { buf = 3 ∷ 4 ∷ 5 ∷ []; max = 3; pos = 0; full = true }
unfolding append new_ring_buffer compact copy
compacted = refl

snapshot-append_example :
    snapshot (append wrapped (6 ∷ 7 ∷ [])) ≡ last 4 (snapshot wrapped ++ 6 ∷ 7 ∷ [])
snapshot-append_example = snapshot-append wrapped (6 ∷ 7 ∷ []) wrapped-IsValid

snapshot-feed_example :
    snapshot (feed (new_ring_buffer 3) ((1 ∷ 2 ∷ []) ∷ (3 ∷ 4 ∷ []) ∷ [])) ≡ 2 ∷ 3 ∷ 4 ∷ []
snapshot-feed_example = snapshot-feed 3 ((1 ∷ 2 ∷ []) ∷ (3 ∷ 4 ∷ []) ∷ []) (omega arith)
