-- ===== src/Scorc/Identity.antt =====
-- pkg/ptysession/scorc.go: which bytes of the stream are changed.
use pupptyeer.Prelude.{
  ℕ, ◌≡◌, ◌⊎◌, inl, refl, sym, ap, ◌∙◌, Bool, false, ◌&&◌, ◌||◌, Bytes, [], ◌∷◌, ◌++◌, ◌==◌, arith,
  append_assoc,
}
use pupptyeer.Scorc.{esc, Rewriter, emit, scan, translate}
use pupptyeer.Scorc.Chunks.{resume, scan-append, translate-scan}

-- The three bytes ESC [ u stand somewhere in the stream.
unfoldable pub has_restore : Bytes → Bool
has_restore [] = false
has_restore (b ∷ []) = false
has_restore (b ∷ c ∷ []) = false
has_restore (b ∷ c ∷ d ∷ rest) = (b == esc && c == b'[' && d == b'u') || has_restore (c ∷ d ∷ rest)

has_restore-tail : (b : ℕ) (bs : Bytes) → has_restore (b ∷ bs) ≡ false → has_restore bs ≡ false
unfolding has_restore
has_restore-tail b [] h = refl
has_restore-tail b (c ∷ []) h = refl
has_restore-tail b (c ∷ d ∷ rest) h = ground arith

scan-identity : (xs : Bytes) → has_restore xs ≡ false → (scan xs).0 ++ (scan xs).1 ≡ xs
unfolding scan has_restore
scan-identity [] h = refl
scan-identity (b ∷ []) h = ground arith
scan-identity (b ∷ c ∷ []) h = ground (arith, scan-identity (c ∷ []))
scan-identity (b ∷ c ∷ d ∷ rest) h = ground (
  arith,
  scan-identity (c ∷ d ∷ rest),
  scan-identity (d ∷ rest),
  scan-identity rest,
  has_restore-tail c (d ∷ rest),
  has_restore-tail d rest,
)

-- A call of `translate` on a stream (held bytes, then the chunk) without ESC [ u changes no byte:
-- what it gives to the emulator followed by what it holds back is that stream.
pub translate-identity :
    (r : Rewriter) (chunk : Bytes)
    → has_restore (r.pending ++ chunk) ≡ false
    → let (out, r') = translate r chunk in out ++ r'.pending ≡ r.pending ++ chunk
translate-identity r chunk h =
    ap (λ t. t.0 ++ t.1) (translate-scan r chunk) ∙ scan-identity (r.pending ++ chunk) h

scan-restored : (ys : Bytes) → scan (esc ∷ b'[' ∷ b'u' ∷ ys) ≡ emit (esc ∷ b'8' ∷ []) (scan ys)
unfolding scan
scan-restored ys = refl

-- ESC [ u behind a stream that ends outside an escape sequence becomes ESC 8, and the rest of the
-- stream is scanned from there.
pub scan-restore :
    (xs ys : Bytes)
    → (scan xs).1 ≡ []
    → scan (xs ++ (esc ∷ b'[' ∷ b'u' ∷ ys)) ≡ emit ((scan xs).0 ++ (esc ∷ b'8' ∷ [])) (scan ys)
scan-restore xs ys h =
    scan-append xs (esc ∷ b'[' ∷ b'u' ∷ ys)
    ∙ ap (λ held. resume ((scan xs).0, held) (esc ∷ b'[' ∷ b'u' ∷ ys)) h
    ∙ ap (emit (scan xs).0) (scan-restored ys)
    ∙ ap (λ t. (t, (scan ys).1)) (sym (append_assoc (scan xs).0 (esc ∷ b'8' ∷ []) (scan ys).0))

-- Only an incomplete ESC or ESC [ is ever held back.
pub scan_held :
    (xs : Bytes) → ((scan xs).1 ≡ []) ⊎ (((scan xs).1 ≡ esc ∷ []) ⊎ ((scan xs).1 ≡ esc ∷ b'[' ∷ []))
unfolding scan
scan_held [] = inl refl
scan_held (b ∷ []) = ground arith
scan_held (b ∷ c ∷ []) = ground (arith, scan_held (c ∷ []))
scan_held (b ∷ c ∷ d ∷ rest) =
    ground (arith, scan_held (c ∷ d ∷ rest), scan_held (d ∷ rest), scan_held rest)
