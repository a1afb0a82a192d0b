-- ===== src/Ring/Window.antt =====
-- pkg/ptysession/ring.go: what a circular write does to the window that the ring holds, with the
-- buffer written as its part before `pos` and its part from `pos` on.
use pupptyeer.Prelude.{
  ℕ, ◌<◌, ◌≡◌, refl, sym, ◌∙◌, Bytes, ◌++◌, length, take, drop, copy, arith, length-append,
  drop-append_at, take-append_at, append_assoc, copy-append, copy-prefix, min, ltb, if◌then◌else◌,
}
use pupptyeer.Ring.{wrap_copy}

-- The bytes in the order in which they came.
abbrev pub rotate : ℕ → Bytes → Bytes
rotate pos buf = drop pos buf ++ take pos buf

wrap_copy_parts :
    (buf : Bytes) (pos : ℕ) (p x t : Bytes)
    → take pos buf ≡ x
    → drop pos buf ≡ t
    → wrap_copy buf pos p ≡ (
        let n = min (length t) (length p) in
        if ltb n (length p) then copy (x ++ copy t p) (drop n p) else x ++ copy t p)
unfolding wrap_copy
wrap_copy_parts buf pos p x t e f = rw (e, f)

-- The chunk fits before the end of the buffer.
pub wrap_copy_inside :
    (x y z p : Bytes) → length p ≡ length y → wrap_copy (x ++ (y ++ z)) (length x) p ≡ x ++ (p ++ z)
wrap_copy_inside x y z p e =
    wrap_copy_parts (x ++ (y ++ z)) (length x) p x (y ++ z)
      (take-append_at x (y ++ z) (length x) refl) (drop-append_at x (y ++ z) (length x) refl)
    ∙ ground (arith, length-append y z, copy-append y z p e)

-- The chunk runs over the end: its second part goes to the front.
pub wrap_copy_around :
    (x z y p q : Bytes)
    → length p ≡ length y
    → length q ≡ length x
    → 0 < length q
    → wrap_copy ((x ++ z) ++ y) (length (x ++ z)) (p ++ q) ≡ q ++ (z ++ p)
wrap_copy_around x z y p q e f h =
    wrap_copy_parts ((x ++ z) ++ y) (length (x ++ z)) (p ++ q) (x ++ z) y
      (take-append_at (x ++ z) y (length (x ++ z)) refl)
      (drop-append_at (x ++ z) y (length (x ++ z)) refl)
    ∙ ground (
      arith,
      length-append p q,
      copy-prefix y p q (sym e),
      drop-append_at p q (length p) refl,
      append_assoc x z p,
      copy-append x (z ++ p) q f,
    )
