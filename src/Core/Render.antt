-- ===== src/Core/Render.antt =====
-- pkg/ptysession/session.go: `renderLocked`, the visible grid as one string per row, and the two
-- captures.
use mathlib.Core.Option
use pupptyeer.Prelude.{
  ℕ, zero, suc, ◌+◌, ◌-◌, ◌≤◌, ◌<◌, ◌≡◌, ◌⊎◌, inl, inr, refl, ap, ◌∙◌, Bool, true, false, Option,
  none, some, Bytes, List, [], ◌∷◌, ◌++◌, length, replicate, ltb, arith, if◌then◌else◌, Bool-cases,
  ltb→lt, lt→ltb, append_assoc, append-nil,
}
use pupptyeer.Prelude.Int.{pos, pos_part, ltb_ℤ}
use pupptyeer.Ring
use pupptyeer.Core.Terminal.{Emulator, Cell}
use pupptyeer.Core.Runes.{string_of}
use pupptyeer.Core.{Session, is_empty}

abbrev pub space : ℕ
space = 0x20

-- The runes that a cell adds to its line and the columns that it takes.
unfoldable pub cell_text : Option Cell → List ℕ × ℕ
cell_text none = (space ∷ [], 1)
cell_text (some c) =
    if is_empty c.content
    then (space ∷ [], 1)
    else (c.content, if ltb_ℤ c.width (pos 1) then 1 else pos_part c.width)

-- The loop over the columns of one row, with fuel: `x`, `width` and `buf` as in the source.
unfoldable pub row_loop : (ℕ → Option Cell) → ℕ → ℕ → ℕ → ℕ → List ℕ → Option (List ℕ × ℕ)
row_loop cells w zero x width buf = none
row_loop cells w (suc fuel) x width buf =
    let (runes, columns) = cell_text (cells x) in
    let rest = row_loop cells w fuel (x + columns) (width + columns) (buf ++ runes) in
    if ltb x w then rest else some (buf, width)

-- The row with its padding; the columns left to visit are fewer than the fuel.
unfoldable pub render_row : (ℕ → Option Cell) → ℕ → Option Bytes
render_row cells w = elim (row_loop cells w (suc w) 0 0 []) [
  | none ↦ none
  | some (buf, width) ↦ some (string_of (buf ++ replicate (w - width) space))
]

columns_pos : (c : Option Cell) → 0 < (cell_text c).1
unfolding cell_text
columns_pos none = omega arith
columns_pos (some c) = ground arith

-- The loop ends within its fuel, having advanced `x` and `width` together past the last column.
row_loop_total :
    (cells : ℕ → Option Cell) (w fuel x width : ℕ) (buf : List ℕ)
    → w - x < fuel
    → x ≡ width
    → (line : List ℕ) × (end : ℕ) × (row_loop cells w fuel x width buf ≡ some (line, end))
      × (w ≤ end)
unfolding row_loop
row_loop_total cells w zero x width buf h e = absurd (omega arith)
row_loop_total cells w (suc fuel) x width buf h e = elim (Bool-cases (ltb x w)) [
  | inl more ↦
      let (runes, columns) = cell_text (cells x) in
      rw more (
        row_loop_total cells w fuel (x + columns) (width + columns) (buf ++ runes)
          (omega (arith, columns_pos (cells x), ltb→lt x w more)) (omega arith))
  | inr done ↦ rw done (buf, width, refl, ground arith)
]

render_row_of :
    (cells : ℕ → Option Cell) (w : ℕ) (line : List ℕ) (end : ℕ)
    → row_loop cells w (suc w) 0 0 [] ≡ some (line, end)
    → w ≤ end
    → render_row cells w ≡ some (string_of line)
unfolding render_row
render_row_of cells w line end e h =
    let unpadded : w - end ≡ 0 = omega arith in
    rw (e, render_row) (rw unpadded (ap (λ rs. some (string_of rs)) (append-nil line)))

-- Every row is rendered: the loop over its columns ends within its fuel. No padding is ever added,
-- since `width` has passed the last column when the loop ends: the line is the string of the runes that the
-- loop has collected.
pub render_row_total :
    (cells : ℕ → Option Cell) (w : ℕ)
    → (line : List ℕ) × (end : ℕ) × (row_loop cells w (suc w) 0 0 [] ≡ some (line, end))
      × (w ≤ end)
      × (render_row cells w ≡ some (string_of line))
unfolding render_row
render_row_total cells w =
    let (line, end, e, h) = row_loop_total cells w (suc w) 0 0 [] (omega arith) refl in
    (line, end, e, h, render_row_of cells w line end e h)

abbrev pub runes_from : (ℕ → ℕ) → ℕ → ℕ → List ℕ
runes_from rune x zero = []
runes_from rune x (suc n) = rune x ∷ runes_from rune (x + 1) n

-- A cell that is shown as one rune in one column.
abbrev pub IsNarrow : Option Cell → ℕ → Type 0
IsNarrow c rune = cell_text c ≡ (rune ∷ [], 1)

row_loop_next :
    (cells : ℕ → Option Cell) (rune w fuel x : ℕ) (buf : List ℕ)
    → x < w
    → IsNarrow (cells x) rune
    → row_loop cells w (suc fuel) x x buf ≡ row_loop cells w fuel (x + 1) (x + 1) (buf ++ rune ∷ [])
unfolding row_loop
row_loop_next cells rune w fuel x buf h e = rw (lt→ltb x w h, e)

row_loop_narrow :
    (cells : ℕ → Option Cell) (rune : ℕ → ℕ) (w n x : ℕ) (buf : List ℕ)
    → ((k : ℕ) → IsNarrow (cells k) (rune k))
    → x + n ≡ w
    → row_loop cells w (suc n) x x buf ≡ some (buf ++ runes_from rune x n, w)
unfolding row_loop
row_loop_narrow cells rune w zero x buf h e = ground (arith, append-nil buf)
row_loop_narrow cells rune w (suc n) x buf h e =
    row_loop_next cells (rune x) w (suc n) x buf (omega arith) (h x)
    ∙ row_loop_narrow cells rune w n (x + 1) (buf ++ rune x ∷ []) h (omega arith)
    ∙ ap (λ line. some (line, w)) (append_assoc buf (rune x ∷ []) (runes_from rune (x + 1) n))

-- A row of narrow cells is the string of their runes, one for each column.
pub render_row_narrow :
    (cells : ℕ → Option Cell) (rune : ℕ → ℕ) (w : ℕ)
    → ((k : ℕ) → IsNarrow (cells k) (rune k))
    → render_row cells w ≡ some (string_of (runes_from rune 0 w))
render_row_narrow cells rune w h =
    render_row_of cells w (runes_from rune 0 w) w
      (row_loop_narrow cells rune w w 0 [] h (omega arith)) (omega arith)

-- The rows from `y` on.
pub render_rows : (ℕ → ℕ → Option Cell) → ℕ → ℕ → ℕ → Option (List Bytes)
render_rows cells w y zero = some []
render_rows cells w y (suc n) =
    let below = render_rows cells w (y + 1) n in
    elim (render_row (λ x. cells x y) w) [
      | none ↦ none
      | some line ↦ Option.map (λ lines. line ∷ lines) below
    ]

-- The grid has one line for each row.
pub render_rows_total :
    (cells : ℕ → ℕ → Option Cell) (w y n : ℕ)
    → (lines : List Bytes) × (render_rows cells w y n ≡ some lines) × (length lines ≡ n)
unfolding render_rows
render_rows_total cells w y zero = ([], refl, refl)
render_rows_total cells w y (suc n) =
    let (line, end, _, _, e) = render_row_total (λ x. cells x y) w in
    let (lines, f, size) = render_rows_total cells w (y + 1) n in
    (string_of line ∷ lines, rw (e, f, render_rows), ap suc size)

pub record Screen : Type 0 where
  pub cols : ℕ
  pub rows : ℕ
  pub lines : List Bytes
  pub cursor_row : ℕ
  pub cursor_col : ℕ
  pub cursor_visible : Bool
  pub alt_screen : Bool

-- `no_emulator` stands for the nil dereference on a session without `term`; `unrendered` for rows
-- that the fuel did not reach.
pub data CaptureError : Type 0 where
  raw_session timed_out no_emulator unrendered : CaptureError

module _ (E : Emulator) where
  abbrev to_screen : Session E → E.State → List Bytes → Screen
  to_screen s t lines = record {
    cols = E.width t;
    rows = E.height t;
    lines = lines;
    cursor_row = E.cursor_row t;
    cursor_col = E.cursor_col t;
    cursor_visible = s.cursor_visible;
    alt_screen = E.is_alt_screen t;
  }

  pub render_locked : Session E → E.State → CaptureError ⊎ Screen
  render_locked s t = elim (render_rows (E.cell_at t) (E.width t) 0 (E.height t)) [
    | none ↦ inl unrendered
    | some lines ↦ inr (to_screen s t lines)
  ]

  -- The captures after `waitSettle`; `locked` is what `lockTimeout` returned.
  pub capture_raw : Session E → Bool → CaptureError ⊎ Bytes
  capture_raw s locked = if locked then inr (Ring.snapshot s.ring) else inl timed_out

  pub capture_screen : Session E → Bool → CaptureError ⊎ Screen
  capture_screen s locked =
      if s.raw
      then inl raw_session
      else (if locked
          then elim s.term [ none ↦ inl no_emulator | some t ↦ render_locked s t ]
          else inl timed_out)

  -- A rendered capture of a session with an emulator, whose lock was taken, returns the grid: as many
  -- lines as the emulator has rows, with its size, cursor and screen buffer.
  pub capture_screen_total :
      (s : Session E) (t : E.State)
      → s.raw ≡ false
      → s.term ≡ some t
      → (scr : Screen) × (capture_screen s true ≡ inr scr)
        × (length scr.lines ≡ E.height t)
        × (scr.cols ≡ E.width t)
        × (scr.rows ≡ E.height t)
        × (scr.cursor_visible ≡ s.cursor_visible)
  unfolding capture_screen render_locked
  capture_screen_total s t e f =
      let (lines, g, size) = render_rows_total (E.cell_at t) (E.width t) 0 (E.height t) in
      (to_screen s t lines, ground (arith, e, f, g), size, refl, refl, refl)
