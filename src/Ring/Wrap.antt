-- ===== src/Ring/Wrap.antt =====
-- pkg/ptysession/ring.go: a circular write against a rotation of the buffer.
use native.Mathlib.Nat.{mod-eq_of_lt, mod-eq-sub-mod}
use mathlib.Core.Path.{subst₂, subst₃}
use native.Mathlib.Decide.{dec_le}
use pupptyeer.Prelude.{
  ℕ, ◌+◌, ◌-◌, ◌%◌, ◌<◌, ◌≡◌, refl, sym, ap, ap₂, ◌∙◌, ◌≡⟨◌⟩◌, ◌∎, Bytes, [], ◌∷◌, ◌++◌, length,
  take, drop, last, arith, length-append, length-take, length-drop, take-append-drop,
  drop-append_at, take-append_at, append_assoc, append-nil,
}
use pupptyeer.Ring.{wrap_copy}
use pupptyeer.Ring.Window.{rotate, wrap_copy_inside, wrap_copy_around}

last-append : (n : ℕ) (xs ys : Bytes) → length ys ≡ n → last n (xs ++ ys) ≡ ys
last-append n xs ys e =
    drop-append_at xs ys (length (xs ++ ys) - n) (omega (arith, length-append xs ys))

rotate-append : (n : ℕ) (xs ys : Bytes) → n ≡ length xs → rotate n (xs ++ ys) ≡ ys ++ xs
rotate-append n xs ys e = rw (drop-append_at xs ys n e, take-append_at xs ys n e)

mod_self : (m : ℕ) → 0 < m → m % m ≡ 0
mod_self m h = mod-eq-sub-mod {n = m} {m = m} (omega arith) ∙ grind arith

mod_wrap : (n m : ℕ) → n < m → (n + m) % m ≡ n
mod_wrap n m h = grind arith

-- The index after a write that stays inside the buffer, the wrap to 0 at its end included.
rotate-mod :
    (max : ℕ) (xs ys : Bytes)
    → 0 < max
    → length xs + length ys ≡ max
    → rotate (length xs % max) (xs ++ ys) ≡ ys ++ xs
rotate-mod max xs [] h e =
    let wraps : length xs % max ≡ 0 = grind (arith, mod_self) in
    rw (append-nil xs, wraps) (append-nil xs)
rotate-mod max xs (y ∷ ys) h e =
    rotate-append (length xs % max) xs (y ∷ ys)
      (mod-eq_of_lt {n = length xs} {m = max} (omega arith))

module _ (max : ℕ) (positive : 0 < max) where
  inside_lem :
      (x y z p : Bytes)
      → length p ≡ length y
      → length x + length y + length z ≡ max
      → rotate ((length x + length p) % max) (wrap_copy (x ++ (y ++ z)) (length x) p)
        ≡ last max (rotate (length x) (x ++ (y ++ z)) ++ p)
  inside_lem x y z p e f =
      rotate ((length x + length p) % max) (wrap_copy (x ++ (y ++ z)) (length x) p)
      ≡⟨ ap (rotate ((length x + length p) % max))
          (wrap_copy_inside x y z p e ∙ sym (append_assoc x p z)) ⟩
        rotate ((length x + length p) % max) ((x ++ p) ++ z)
      ≡⟨ ap (λ n. rotate (n % max) ((x ++ p) ++ z)) (sym (length-append x p)) ⟩
        rotate (length (x ++ p) % max) ((x ++ p) ++ z)
      ≡⟨ rotate-mod max (x ++ p) z positive (omega (arith, length-append x p)) ⟩ z ++ (x ++ p)
      ≡⟨ sym (
          last-append max y (z ++ (x ++ p))
            (omega (arith, length-append z (x ++ p), length-append x p))) ⟩
        last max (y ++ (z ++ (x ++ p)))
      ≡⟨ ap (last max) (simp append_assoc) ⟩ last max (((y ++ z) ++ x) ++ p)
      ≡⟨ ap (λ t. last max (t ++ p)) (sym (rotate-append (length x) x (y ++ z) refl)) ⟩
        last max (rotate (length x) (x ++ (y ++ z)) ++ p) ∎

  around_lem :
      (x z y p q : Bytes)
      → length p ≡ length y
      → length q ≡ length x
      → 0 < length q
      → 0 < length z + length y
      → length x + length z + length y ≡ max
      → rotate
          ((length (x ++ z) + length (p ++ q)) % max)
          (wrap_copy ((x ++ z) ++ y) (length (x ++ z)) (p ++ q))
        ≡ last max (rotate (length (x ++ z)) ((x ++ z) ++ y) ++ (p ++ q))
  around_lem x z y p q e f h k g =
      let size : length (x ++ z) + length (p ++ q) ≡ length q + max =
        omega (arith, length-append x z, length-append p q) in
      let index : (length (x ++ z) + length (p ++ q)) % max ≡ length q =
        ap (λ n. n % max) size ∙ mod_wrap (length q) max (omega arith) in
      rotate ((length (x ++ z) + length (p ++ q)) % max)
        (wrap_copy ((x ++ z) ++ y) (length (x ++ z)) (p ++ q))
      ≡⟨ ap₂ rotate index (wrap_copy_around x z y p q e f h) ⟩ rotate (length q) (q ++ (z ++ p))
      ≡⟨ rotate-append (length q) q (z ++ p) refl ⟩ (z ++ p) ++ q
      ≡⟨ sym (
          last-append max (y ++ x) ((z ++ p) ++ q)
            (omega (arith, length-append (z ++ p) q, length-append z p))) ⟩
        last max ((y ++ x) ++ ((z ++ p) ++ q))
      ≡⟨ ap (last max) (simp append_assoc) ⟩ last max ((y ++ (x ++ z)) ++ (p ++ q))
      ≡⟨ ap (λ t. last max (t ++ (p ++ q)))
          (sym (rotate-append (length (x ++ z)) (x ++ z) y refl)) ⟩
        last max (rotate (length (x ++ z)) ((x ++ z) ++ y) ++ (p ++ q)) ∎

  -- A chunk that is shorter than the full ring.
  abbrev pub Wraps : ℕ → Bytes → Bytes → Type 0
  Wraps pos buf p =
      rotate ((pos + length p) % max) (wrap_copy buf pos p) ≡ last max (rotate pos buf ++ p)

  pub wrap_lem :
      (buf : Bytes) (pos : ℕ) (p : Bytes)
      → length buf ≡ max
      → pos < max
      → length p < max
      → Wraps pos buf p
  wrap_lem buf pos p e f g =
      let front = take pos buf in
      let back = drop pos buf in
      let at_pos : length front ≡ pos = omega (arith, length-take pos buf) in
      let rest : length back ≡ max - pos = omega (arith, length-drop pos buf) in
      elim (dec_le (pos + length p) max) [
        | yes fits ↦
            let y = take (length p) back in
            let z = drop (length p) back in
            let whole : front ++ (y ++ z) ≡ buf =
              ap (◌++◌ front) (take-append-drop (length p) back) ∙ take-append-drop pos buf in
            subst₂ (λ n b. Wraps n b p) at_pos whole
              (inside_lem front y z p (omega (arith, length-take (length p) back))
                (omega (arith, length-take (length p) back, length-drop (length p) back)))
        | no over ↦
            let p₀ = take (length back) p in
            let q = drop (length back) p in
            let x = take (length q) front in
            let z = drop (length q) front in
            let q_size : length q ≡ pos + length p - max =
              omega (arith, length-drop (length back) p) in
            let p_size : length p₀ ≡ length back = omega (arith, length-take (length back) p) in
            let x_size : length x ≡ length q = omega (arith, length-take (length q) front) in
            let z_size : length z ≡ pos - length q = omega (arith, length-drop (length q) front) in
            let cut : x ++ z ≡ front = take-append-drop (length q) front in
            let whole : (x ++ z) ++ back ≡ buf =
              ap (λ t. t ++ back) cut ∙ take-append-drop pos buf in
            subst₃ Wraps (ap length cut ∙ at_pos) whole (take-append-drop (length back) p) (
              around_lem x z back p₀ q p_size (sym x_size) (omega arith) (omega arith)
                (omega arith))
      ]
