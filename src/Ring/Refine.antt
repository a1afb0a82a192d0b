-- ===== src/Ring/Refine.antt =====
-- pkg/ptysession/ring.go: the ring against a list of bytes.
use pupptyeer.Prelude.{
  inl, inr, ℕ, ◌-◌, ◌≤◌, ◌<◌, ◌≡◌, sym, ap, ap₂, ◌∙◌, true, Bytes, List, [], ◌∷◌, ◌++◌, length,
  take, drop, copy, last, concat, replicate, min, arith, length-append, length-take, length-drop,
  take-append-drop, drop-append_at, take-append_at, append_assoc, append-nil, drop-append_past,
  copy-append, copy-same, length-replicate, if◌then◌else◌, Bool-cases,
}
use pupptyeer.Ring.{RingBuffer, new_ring_buffer, append_circular, compact, append, snapshot, feed}
use pupptyeer.Ring.Inv.{IsValid, max-append, append-IsValid, new_ring_buffer-IsValid}
use pupptyeer.Ring.Window.{rotate}
use pupptyeer.Ring.Wrap.{wrap_lem}

-- What the ring holds, oldest byte first.
abbrev pub contents : RingBuffer → Bytes
contents r = if r.full then rotate r.pos r.buf else r.buf

copy-long :
    (dst src : Bytes) → length src ≤ length dst → copy dst src ≡ src ++ drop (length src) dst
copy-long dst src h = ground (
  arith,
  take-append-drop (length src) dst,
  copy-append (take (length src) dst) (drop (length src) dst) src,
  length-take (length src) dst,
)

snapshot_full : (r : RingBuffer) → IsValid r → r.full ≡ true → snapshot r ≡ rotate r.pos r.buf
unfolding snapshot
snapshot_full r v e =
    let front = take r.pos r.buf in
    let back = drop r.pos r.buf in
    let out = replicate {A = ℕ} r.max 0 in
    let sizes : (length r.buf ≡ r.max) × (r.pos < r.max) = ground arith in
    let out_size : length out ≡ r.max = length-replicate r.max 0 in
    let front_size : length front ≡ r.pos = omega (arith, length-take r.pos r.buf) in
    let back_size : length back ≡ r.max - r.pos = omega (arith, length-drop r.pos r.buf) in
    ground (
      arith,
      copy-long out back,
      take-append_at back (drop (length back) out) (min (length out) (length back)),
      drop-append_at back (drop (length back) out) (min (length out) (length back)),
      copy-same (drop (length back) out) front,
      length-drop (length back) out,
    )

pub snapshot-eq-contents : (r : RingBuffer) → IsValid r → snapshot r ≡ contents r
unfolding snapshot
snapshot-eq-contents r v = elim (Bool-cases r.full) [
  | inl e ↦ snapshot_full r v e ∙ ground arith
  | inr e ↦ ground (
    arith,
    copy-same (replicate (length r.buf) 0) r.buf,
    length-replicate {A = ℕ} (length r.buf) 0,
  )
]

length-rotate : (n : ℕ) (buf : Bytes) → length (rotate n buf) ≡ length buf
length-rotate n buf =
    omega (arith, length-append (drop n buf) (take n buf), length-take n buf, length-drop n buf)

contents-append_circular :
    (r : RingBuffer) (p : Bytes)
    → IsValid r
    → r.full ≡ true
    → contents (append_circular r p) ≡ last r.max (contents r ++ p)
unfolding append_circular
contents-append_circular r p v e =
    let sizes : (length r.buf ≡ r.max) × (r.pos < r.max) = ground arith in
    let held = rotate r.pos r.buf in
    let tail = drop (length p - r.max) p in
    ground (
      arith,
      wrap_lem r.max v.positive r.buf r.pos p,
      length-rotate r.pos r.buf,
      length-append held p,
      length-drop (length p - r.max) p,
      copy-same r.buf tail,
      append-nil tail,
      drop-append_past held p (length (held ++ p) - r.max) (length p - r.max),
    )

compact-eq-last : (max : ℕ) (buf : Bytes) → max ≤ length buf → compact max buf ≡ last max buf
unfolding compact
compact-eq-last max buf h =
    let tail = drop (length buf - max) buf in
    ground (
      arith,
      copy-long buf tail,
      length-drop (length buf - max) buf,
      take-append_at tail (drop (length tail) buf) max,
    )

contents-append :
    (r : RingBuffer) (p : Bytes) → IsValid r → contents (append r p) ≡ last r.max (contents r ++ p)
unfolding append
contents-append r p v = elim (Bool-cases r.full) [
  | inl e ↦ ground (arith, contents-append_circular r p v e)
  | inr e ↦
      ground (arith, compact-eq-last r.max (r.buf ++ p), append-nil (compact r.max (r.buf ++ p)))
]

-- Appending a chunk leaves in the snapshot the most recent `max` bytes of the old snapshot followed
-- by the chunk, for every valid ring: below its capacity, at the compaction, and circular.
pub snapshot-append :
    (r : RingBuffer) (p : Bytes) → IsValid r → snapshot (append r p) ≡ last r.max (snapshot r ++ p)
snapshot-append r p v = ground (
  arith,
  snapshot-eq-contents (append r p) (append-IsValid r p v),
  contents-append r p v,
  snapshot-eq-contents r v,
)

last-last : (n : ℕ) (xs ys : Bytes) → last n (last n xs ++ ys) ≡ last n (xs ++ ys)
last-last n xs ys =
    let cut = length xs - n in
    let rest = length (drop cut xs ++ ys) - n in
    sym (
      ap (drop (length (xs ++ ys) - n)) (split cut)
      ∙ drop-append_past (take cut xs) (drop cut xs ++ ys) (length (xs ++ ys) - n) rest (
          omega (
            arith,
            length-append xs ys,
            length-append (drop cut xs) ys,
            length-take cut xs,
            length-drop cut xs,
          )))
  where
    split : (k : ℕ) → xs ++ ys ≡ take k xs ++ (drop k xs ++ ys)
    split k =
        ap (λ t. t ++ ys) (sym (take-append-drop k xs)) ∙ append_assoc (take k xs) (drop k xs) ys

length-snapshot-le : (r : RingBuffer) → IsValid r → length (snapshot r) ≤ r.max
length-snapshot-le r v = rw (snapshot-eq-contents r v) (ground (arith, length-rotate r.pos r.buf))

pub snapshot-feed_from :
    (r : RingBuffer) (ps : List Bytes)
    → IsValid r
    → snapshot (feed r ps) ≡ last r.max (snapshot r ++ concat ps)
unfolding feed
snapshot-feed_from r [] v = ground (arith, length-snapshot-le r v, append-nil (snapshot r))
snapshot-feed_from r (p ∷ ps) v =
    snapshot-feed_from (append r p) ps (append-IsValid r p v)
    ∙ ap₂ (λ n s. last n (s ++ concat ps)) (max-append r p) (snapshot-append r p v)
    ∙ last-last r.max (snapshot r ++ p) (concat ps)
    ∙ ap (last r.max) (append_assoc (snapshot r) p (concat ps))

-- The specification of a whole run: after any sequence of chunks the snapshot of a ring created
-- with a positive size is the most recent `max` bytes of the concatenation of the chunks.
pub snapshot-feed :
    (max : ℕ) (ps : List Bytes)
    → 0 < max
    → snapshot (feed (new_ring_buffer max) ps) ≡ last max (concat ps)
unfolding new_ring_buffer snapshot copy
snapshot-feed max ps h = snapshot-feed_from (new_ring_buffer max) ps (new_ring_buffer-IsValid max h)
