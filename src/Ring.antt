-- ===== src/Ring.antt =====
-- pkg/ptysession/ring.go: the scrollback ring of a session, a byte buffer that grows by appending
-- until it holds `max` bytes and is written circularly from then on.
pub mod Inv
pub mod Window
pub mod Wrap
pub mod Refine
mod Tests
use pupptyeer.Prelude.{
  ℕ, ◌+◌, ◌-◌, ◌%◌, min, Bool, true, false, [], ◌++◌, List, ◌∷◌, Bytes, length, take, drop,
  replicate, copy, ltb, leb, if◌then◌else◌,
}

pub record RingBuffer : Type 0 where
  pub buf : Bytes
  pub max : ℕ
  pub pos : ℕ
  pub full : Bool

unfoldable pub new_ring_buffer : ℕ → RingBuffer
new_ring_buffer max = record { buf = []; max = max; pos = 0; full = false }

-- `copy(buf[at:], p)` as the whole buffer after it.
abbrev pub copy_at : ℕ → Bytes → Bytes → Bytes
copy_at at buf p = take at buf ++ copy (drop at buf) p

-- The two copies of `appendCircular` for a chunk shorter than the ring.
pub wrap_copy : Bytes → ℕ → Bytes → Bytes
wrap_copy buf pos p =
    let n = min (length (drop pos buf)) (length p) in
    let first = copy_at pos buf p in if ltb n (length p) then copy first (drop n p) else first

pub append_circular : RingBuffer → Bytes → RingBuffer
append_circular r p =
    if leb r.max (length p)
    then record r { buf = copy r.buf (drop (length p - r.max) p); pos = 0 }
    else record r { buf = wrap_copy r.buf r.pos p; pos = (r.pos + length p) % r.max }

-- The compaction when the growing buffer reaches `max`.
pub compact : ℕ → Bytes → Bytes
compact max buf =
    if ltb max (length buf) then take max (copy buf (drop (length buf - max) buf)) else buf

pub append : RingBuffer → Bytes → RingBuffer
append r p =
    if r.full
    then append_circular r p
    else (let grown = r.buf ++ p in
        if leb r.max (length grown)
        then record r { buf = compact r.max grown; pos = 0; full = true }
        else record r { buf = grown })

unfoldable pub snapshot : RingBuffer → Bytes
snapshot r =
    if r.full
    then (let tail = drop r.pos r.buf in
        let out = replicate r.max 0 in
        let n = min (length out) (length tail) in copy_at n (copy out tail) (take r.pos r.buf))
    else copy (replicate (length r.buf) 0) r.buf

-- The chunks of a PTY, one after the other.
unfoldable pub feed : RingBuffer → List Bytes → RingBuffer
feed r [] = r
feed r (p ∷ ps) = feed (append r p) ps
