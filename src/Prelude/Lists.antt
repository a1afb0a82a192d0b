-- ===== src/Prelude/Lists.antt =====
-- Lists measured and indexed by native numbers, under the library's names, and Go's `copy`.
use Prim.Native.Nat.{ℕ, zero, suc, ◌+◌, ◌-◌, ◌≤◌, min}
use mathlib.Core.Path.{◌≡◌, refl, ap, sym, ◌∙◌}
use mathlib.Core.List.{List, [], ◌∷◌, ◌++◌, append-nil}
use mathlib.Core.Option.{Option, none, some}
use native.Mathlib.Omega.{arith}

module _ {ℓ} {A : Type ℓ} where
  abbrev pub length : List A → ℕ
  length [] = 0
  length (x ∷ xs) = suc (length xs)

  abbrev pub take : ℕ → List A → List A
  take zero xs = []
  take (suc n) [] = []
  take (suc n) (x ∷ xs) = x ∷ take n xs

  abbrev pub drop : ℕ → List A → List A
  drop zero xs = xs
  drop (suc n) [] = []
  drop (suc n) (x ∷ xs) = drop n xs

  abbrev pub get_elem? : List A → ℕ → Option A
  get_elem? [] i = none
  get_elem? (x ∷ xs) zero = some x
  get_elem? (x ∷ xs) (suc i) = get_elem? xs i

  abbrev pub replicate : ℕ → A → List A
  replicate zero a = []
  replicate (suc n) a = a ∷ replicate n a

  -- Go's `copy(dst, src)`: the bytes of `dst` afterwards.
  unfoldable pub copy : List A → List A → List A
  copy [] src = []
  copy (d ∷ dst) [] = d ∷ dst
  copy (d ∷ dst) (s ∷ src) = s ∷ copy dst src

  -- The most recent `n` items.
  abbrev pub last : ℕ → List A → List A
  last n xs = drop (length xs - n) xs

  abbrev pub concat : List (List A) → List A
  concat [] = []
  concat (x ∷ xs) = x ++ concat xs

  pub length-append : (xs ys : List A) → length (xs ++ ys) ≡ length xs + length ys
  length-append [] ys = omega arith
  length-append (x ∷ xs) ys = omega (arith, length-append xs ys)

  pub length-take : (n : ℕ) (xs : List A) → length (take n xs) ≡ min n (length xs)
  length-take zero xs = omega arith
  length-take (suc n) [] = omega arith
  length-take (suc n) (x ∷ xs) = omega (arith, length-take n xs)

  pub length-drop : (n : ℕ) (xs : List A) → length (drop n xs) ≡ length xs - n
  length-drop zero xs = omega arith
  length-drop (suc n) [] = omega arith
  length-drop (suc n) (x ∷ xs) = omega (arith, length-drop n xs)

  pub length-replicate : (n : ℕ) (a : A) → length (replicate n a) ≡ n
  length-replicate zero a = refl
  length-replicate (suc n) a = ap suc (length-replicate n a)

  pub length-copy : (dst src : List A) → length (copy dst src) ≡ length dst
  unfolding copy
  length-copy [] src = refl
  length-copy (d ∷ dst) [] = refl
  length-copy (d ∷ dst) (s ∷ src) = ap suc (length-copy dst src)

  pub take-append-drop : (n : ℕ) (xs : List A) → take n xs ++ drop n xs ≡ xs
  take-append-drop zero xs = refl
  take-append-drop (suc n) [] = refl
  take-append-drop (suc n) (x ∷ xs) = rw (take-append-drop n xs)

  -- A cut at the end of the first part.
  pub drop-append_at : (xs ys : List A) (n : ℕ) → n ≡ length xs → drop n (xs ++ ys) ≡ ys
  drop-append_at [] ys n e = rw e
  drop-append_at (x ∷ xs) ys zero e = absurd (omega arith)
  drop-append_at (x ∷ xs) ys (suc n) e = drop-append_at xs ys n (omega arith)

  pub take-append_at : (xs ys : List A) (n : ℕ) → n ≡ length xs → take n (xs ++ ys) ≡ xs
  take-append_at [] ys n e = rw e
  take-append_at (x ∷ xs) ys zero e = absurd (omega arith)
  take-append_at (x ∷ xs) ys (suc n) e = ap (◌∷◌ x) (take-append_at xs ys n (omega arith))

  pub take-all : (xs : List A) (n : ℕ) → length xs ≤ n → take n xs ≡ xs
  take-all [] zero h = refl
  take-all [] (suc n) h = refl
  take-all (x ∷ xs) zero h = absurd (omega arith)
  take-all (x ∷ xs) (suc n) h = ap (◌∷◌ x) (take-all xs n (omega arith))

  -- A cut past the first part.
  pub drop-append_past :
      (xs ys : List A) (n m : ℕ) → n ≡ length xs + m → drop n (xs ++ ys) ≡ drop m ys
  drop-append_past [] ys n m e = ap (λ k. drop k ys) (omega arith)
  drop-append_past (x ∷ xs) ys zero m e = absurd (omega arith)
  drop-append_past (x ∷ xs) ys (suc n) m e = drop-append_past xs ys n m (omega arith)

  -- `copy` of a source as long as the destination's first part.
  pub copy-append : (xs ys src : List A) → length src ≡ length xs → copy (xs ++ ys) src ≡ src ++ ys
  unfolding copy
  copy-append [] [] [] e = refl
  copy-append [] (y ∷ ys) [] e = refl
  copy-append [] ys (s ∷ src) e = absurd (omega arith)
  copy-append (x ∷ xs) ys [] e = absurd (omega arith)
  copy-append (x ∷ xs) ys (s ∷ src) e = ap (◌∷◌ s) (copy-append xs ys src (omega arith))

  -- `copy` of a source that overfills the destination.
  pub copy-prefix : (dst src rest : List A) → length dst ≡ length src → copy dst (src ++ rest) ≡ src
  unfolding copy
  copy-prefix [] [] rest e = refl
  copy-prefix [] (s ∷ src) rest e = absurd (omega arith)
  copy-prefix (d ∷ dst) [] rest e = absurd (omega arith)
  copy-prefix (d ∷ dst) (s ∷ src) rest e = ap (◌∷◌ s) (copy-prefix dst src rest (omega arith))

  pub copy-same : (dst src : List A) → length dst ≡ length src → copy dst src ≡ src
  copy-same dst src e = ap (copy dst) (sym (append-nil src)) ∙ copy-prefix dst src [] e
