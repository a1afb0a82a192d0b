-- ===== src/Core/Terminal.antt =====
-- The terminal emulator, github.com/charmbracelet/x/vt, as far as pkg/ptysession/session.go uses it.
use pupptyeer.Prelude.{ℕ, Bool, Option, Bytes, List}
use pupptyeer.Prelude.Int.{ℤ}

-- A cell's runes (those of `Content`), and the number of columns that it takes.
pub record Cell : Type 0 where
  pub content : List ℕ
  pub width : ℤ

pub record Emulator : Type 1 where
  pub State : Type 0
  pub new_emulator : ℤ → ℤ → State
  -- The state after the bytes, and the calls of the cursor-visibility callback.
  pub write : State → Bytes → State × List Bool
  pub resize : State → ℤ → ℤ → State
  pub width : State → ℕ
  pub height : State → ℕ
  pub cell_at : State → ℕ → ℕ → Option Cell
  pub cursor_row : State → ℕ
  pub cursor_col : State → ℕ
  pub is_alt_screen : State → Bool
