-- ===== src/Scorc/Tests.antt =====
-- Runs of the rewriter, and its theorems at concrete inputs.
use pupptyeer.Prelude.{◌≡◌, refl, [], ◌∷◌, Bytes, List}
use pupptyeer.Scorc.{esc, new_rewriter, has_esc, scan, translate, translate_all}
use pupptyeer.Scorc.Chunks.{done, translate_all-concat}

-- ESC [ u cut after ESC [.
abbrev cut_chunks : List Bytes
cut_chunks = (b'a' ∷ esc ∷ []) ∷ (b'[' ∷ []) ∷ (b'u' ∷ b'b' ∷ []) ∷ []

translate_all-cut :
    translate_all new_rewriter cut_chunks ≡ (b'a' ∷ esc ∷ b'8' ∷ b'b' ∷ [], new_rewriter)
unfolding translate_all translate scan has_esc
translate_all-cut = refl

-- A Kitty keyboard sequence, ESC [ > 1 u.
abbrev kitty : Bytes
kitty = esc ∷ b'[' ∷ b'>' ∷ b'1' ∷ b'u' ∷ []

translate-kitty : translate new_rewriter kitty ≡ (kitty, new_rewriter)
unfolding translate scan has_esc
translate-kitty = refl

-- A second ESC in front hides the sequence from the match.
translate_double_esc :
    translate new_rewriter (esc ∷ esc ∷ b'[' ∷ b'u' ∷ [])
    ≡ (esc ∷ esc ∷ b'[' ∷ b'u' ∷ [], new_rewriter)
unfolding translate scan has_esc
translate_double_esc = refl

translate_all-concat_example :
    done (translate_all new_rewriter cut_chunks)
    ≡ done (translate new_rewriter (b'a' ∷ esc ∷ b'[' ∷ b'u' ∷ b'b' ∷ []))
translate_all-concat_example = translate_all-concat cut_chunks
