-- ===== src/Scorc/Chunks.antt =====
-- pkg/ptysession/scorc.go: `translate` over a stream that comes in chunks.
use pupptyeer.Prelude.{
  ℕ, ◌≡◌, refl, sym, ap, subst, ◌∙◌, true, false, Bytes, List, [], ◌∷◌, ◌++◌, ◌==◌, concat, arith,
  append_assoc, append-nil,
}
use pupptyeer.Scorc.{esc, Rewriter, has_esc, emit, scan, translate, translate_all, new_rewriter}

-- The scan of a stream that is cut in two, with the held bytes carried over.
abbrev pub resume : Bytes × Bytes → Bytes → Bytes × Bytes
resume (out, held) more = emit out (scan (held ++ more))

pub scan-other : (b : ℕ) (ys : Bytes) → (b == esc) ≡ false → scan (b ∷ ys) ≡ emit (b ∷ []) (scan ys)
unfolding scan
scan-other b [] h = ground arith
scan-other b (c ∷ []) h = ground arith
scan-other b (c ∷ d ∷ rest) h = ground arith

pub scan-two :
    (b c : ℕ) (ys : Bytes)
    → (b == esc) ≡ true
    → (c == b'[') ≡ false
    → scan (b ∷ c ∷ ys) ≡ emit (b ∷ c ∷ []) (scan ys)
unfolding scan
scan-two b c [] h k = ground arith
scan-two b c (d ∷ rest) h k = ground arith

pub scan-append : (xs ys : Bytes) → scan (xs ++ ys) ≡ resume (scan xs) ys
unfolding scan
scan-append [] ys = refl
scan-append (b ∷ []) ys = ground (arith, scan-other b ys)
scan-append (b ∷ c ∷ []) ys = ground arith
scan-append (b ∷ c ∷ d ∷ rest) ys =
    ground (arith, scan-append (c ∷ d ∷ rest) ys, scan-append (d ∷ rest) ys, scan-append rest ys)

scan-plain : (xs : Bytes) → has_esc xs ≡ false → scan xs ≡ (xs, [])
unfolding scan has_esc
scan-plain [] h = refl
scan-plain (b ∷ xs) h = ground (arith, scan-other b xs, scan-plain xs)

-- Where the loop stands: the bytes that it still holds.
abbrev pub done : Bytes × Rewriter → Bytes × Bytes
done (out, r) = (out, r.pending)

-- The fast path gives what the loop would have given.
pub translate-scan :
    (r : Rewriter) (chunk : Bytes) → done (translate r chunk) ≡ scan (r.pending ++ chunk)
unfolding translate
translate-scan r chunk = ground (arith, scan-plain chunk)

-- What a scan holds back, a scan of it alone holds back again.
abbrev pub IsHeld : Bytes → Type 0
IsHeld held = scan held ≡ ([], held)

pub scan-IsHeld : (xs : Bytes) → IsHeld (scan xs).1
unfolding scan
scan-IsHeld [] = refl
scan-IsHeld (b ∷ []) = ground arith
scan-IsHeld (b ∷ c ∷ []) = ground (arith, scan-IsHeld (c ∷ []))
scan-IsHeld (b ∷ c ∷ d ∷ rest) =
    ground (arith, scan-IsHeld (c ∷ d ∷ rest), scan-IsHeld (d ∷ rest), scan-IsHeld rest)

pub nil-IsHeld : IsHeld []
unfolding scan
nil-IsHeld = refl

translate_all-scan :
    (r : Rewriter) (ps : List Bytes)
    → IsHeld r.pending
    → done (translate_all r ps) ≡ scan (r.pending ++ concat ps)
unfolding translate_all
translate_all-scan r [] h = rw (append-nil r.pending) (sym h)
translate_all-scan r (p ∷ ps) h =
    let (out, r') = translate r p in
    let first = translate-scan r p in
    let held : IsHeld r'.pending =
      subst (λ t. IsHeld t.1) (sym first) (scan-IsHeld (r.pending ++ p)) in
    ap (emit out) (translate_all-scan r' ps held)
    ∙ ap (λ t. resume t (concat ps)) first
    ∙ sym (scan-append (r.pending ++ p) (concat ps))
    ∙ ap scan (append_assoc r.pending p (concat ps))

-- A stream that is cut into chunks anywhere is translated as the whole stream in one chunk: the
-- emulator gets the same bytes, and the same bytes are held back at the end.
pub translate_all-concat :
    (chunks : List Bytes)
    → done (translate_all new_rewriter chunks) ≡ done (translate new_rewriter (concat chunks))
unfolding scan
translate_all-concat chunks =
    translate_all-scan new_rewriter chunks refl ∙ sym (translate-scan new_rewriter (concat chunks))
