-- ===== src/Ring/Inv.antt =====
-- pkg/ptysession/ring.go: the representation invariant of the ring.
use pupptyeer.Prelude.{
  ℕ, ◌-◌, ◌≤◌, ◌<◌, ◌≡◌, Bool, true, false, Bytes, List, [], ◌∷◌, length, take, drop, copy, arith,
  length-append, length-take, length-drop, length-copy, ◌++◌, min,
}
use pupptyeer.Ring.{
  RingBuffer, new_ring_buffer, copy_at, wrap_copy, append_circular, compact, append, feed,
}

-- While growing the buffer is below `max`; once full it is exactly `max` long and `pos` is in it.
abbrev pub Window : Bool → ℕ → ℕ → ℕ → Type 0
Window true len max pos = (len ≡ max) × (pos < max)
Window false len max pos = len < max

pub record IsValid (r : RingBuffer) : Type 0 where
  pub positive : 0 < r.max
  pub window : Window r.full (length r.buf) r.max r.pos

pub new_ring_buffer-IsValid : (max : ℕ) → 0 < max → IsValid (new_ring_buffer max)
unfolding new_ring_buffer
new_ring_buffer-IsValid max h = omega arith

length-copy_at : (at : ℕ) (buf p : Bytes) → length (copy_at at buf p) ≡ length buf
length-copy_at at buf p = omega (
  arith,
  length-append (take at buf) (copy (drop at buf) p),
  length-take at buf,
  length-drop at buf,
  length-copy (drop at buf) p,
)

pub length-wrap_copy :
    (buf : Bytes) (pos : ℕ) (p : Bytes) → length (wrap_copy buf pos p) ≡ length buf
unfolding wrap_copy
length-wrap_copy buf pos p =
    let n = min (length (drop pos buf)) (length p) in
    ground (arith, length-copy_at pos buf p, length-copy (copy_at pos buf p) (drop n p))

length-compact : (max : ℕ) (buf : Bytes) → max ≤ length buf → length (compact max buf) ≡ max
unfolding compact
length-compact max buf h = ground (
  arith,
  length-take max (copy buf (drop (length buf - max) buf)),
  length-copy buf (drop (length buf - max) buf),
)

max-append_circular : (r : RingBuffer) (p : Bytes) → (append_circular r p).max ≡ r.max
unfolding append_circular
max-append_circular r p = ground arith

pub max-append : (r : RingBuffer) (p : Bytes) → (append r p).max ≡ r.max
unfolding append
max-append r p = ground (arith, max-append_circular r p)

-- Appending to a valid ring gives a valid ring: below `max` while it grows, exactly `max` bytes with the
-- write index inside once it is full.
pub append-IsValid : (r : RingBuffer) (p : Bytes) → IsValid r → IsValid (append r p)
unfolding append append_circular
append-IsValid r p v = ground (
  arith,
  length-copy r.buf (drop (length p - r.max) p),
  length-wrap_copy r.buf r.pos p,
  length-compact r.max (r.buf ++ p),
)

pub feed-IsValid : (r : RingBuffer) (ps : List Bytes) → IsValid r → IsValid (feed r ps)
unfolding feed
feed-IsValid r [] v = v
feed-IsValid r (p ∷ ps) v = feed-IsValid (append r p) ps (append-IsValid r p v)
