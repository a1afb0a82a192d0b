-- ===== src/Scorc.antt =====
-- pkg/ptysession/scorc.go: the rewriter in front of the terminal emulator, which replaces the bytes
-- ESC [ u by ESC 8 and holds back a sequence that a chunk cuts off. The scratch buffers `in` and
-- `out` only save allocations; they carry no value from one call to the next.
pub mod Chunks
pub mod Identity
mod Tests
use pupptyeer.Prelude.{
  ℕ, Bool, true, false, not, ◌&&◌, ◌||◌, Bytes, List, [], ◌∷◌, ◌++◌, ◌==◌, if◌then◌else◌,
}

abbrev pub esc : ℕ
esc = 0x1b

pub record Rewriter : Type 0 where
  pub pending : Bytes

abbrev pub new_rewriter : Rewriter
new_rewriter = record { pending = [] }

-- `bytes.IndexByte(chunk, 0x1b) >= 0`.
pub has_esc : Bytes → Bool
has_esc [] = false
has_esc (b ∷ bs) = b == esc || has_esc bs

-- Bytes put in front of the output of the rest of a scan.
abbrev pub emit : Bytes → Bytes × Bytes → Bytes × Bytes
emit bs (out, held) = (bs ++ out, held)

-- The loop over `in`: what is written to `out`, and what is held back in `pending`.
pub scan : Bytes → Bytes × Bytes
scan [] = ([], [])
scan (b ∷ []) = if b == esc then ([], b ∷ []) else (b ∷ [], [])
scan (b ∷ c ∷ []) =
    let next = scan (c ∷ []) in
    if not (b == esc)
    then emit (b ∷ []) next
    else if not (c == b'[')
    then (b ∷ c ∷ [], [])
    else ([], b ∷ c ∷ [])
scan (b ∷ c ∷ d ∷ rest) =
    let next = scan (c ∷ d ∷ rest) in
    let after_two = scan (d ∷ rest) in
    let after_three = scan rest in
    if not (b == esc)
    then emit (b ∷ []) next
    else (if not (c == b'[')
        then emit (b ∷ c ∷ []) after_two
        else (if d == b'u'
            then emit (esc ∷ b'8' ∷ []) after_three
            else emit (b ∷ c ∷ d ∷ []) after_three))

abbrev pub is_empty : Bytes → Bool
is_empty [] = true
is_empty (b ∷ bs) = false

-- The bytes for the emulator, and the rewriter afterwards.
pub translate : Rewriter → Bytes → Bytes × Rewriter
translate r chunk =
    if is_empty r.pending && not (has_esc chunk)
    then (chunk, r)
    else (let (out, held) = scan (r.pending ++ chunk) in (out, record { pending = held }))

-- The chunks of a PTY one after the other; the emulator receives the concatenated results.
pub translate_all : Rewriter → List Bytes → Bytes × Rewriter
translate_all r [] = ([], r)
translate_all r (p ∷ ps) =
    let (out, r') = translate r p in let (more, r'') = translate_all r' ps in (out ++ more, r'')
