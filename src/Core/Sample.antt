-- ===== src/Core/Sample.antt =====
-- A plain terminal (bytes in reading order, no escape sequences) and a session on it, for the tests.
use pupptyeer.Prelude.{
  ℕ, ◌+◌, ◌*◌, true, false, Option, none, some, Bytes, [], ◌∷◌, ◌++◌, codes, get_elem?,
}
use pupptyeer.Prelude.Int.{pos, pos_part}
use pupptyeer.Core.Terminal.{Emulator, Cell}
use pupptyeer.Core.{Session, Config}

pub record Glass : Type 0 where
  pub columns : ℕ
  pub height : ℕ
  pub text : Bytes

abbrev as_cell : Option ℕ → Option Cell
as_cell none = none
as_cell (some c) = some (record { content = c ∷ []; width = pos 1 })

abbrev pub glass : Emulator
glass = record {
  State = Glass;
  new_emulator = λ cols rows. record { columns = pos_part cols; height = pos_part rows; text = [] };
  write = λ t bs. (record t { text = t.text ++ bs }, []);
  resize = λ t cols rows. record t { columns = pos_part cols; height = pos_part rows };
  width = λ t. t.columns;
  height = λ t. t.height;
  cell_at = λ t x y. as_cell (get_elem? t.text (y * t.columns + x));
  cursor_row = λ t. 0;
  cursor_col = λ t. 0;
  is_alt_screen = λ t. false;
}

abbrev pub sample_config : Config
sample_config = record {
  command = codes "sh";
  args = [];
  cwd = [];
  env = none;
  cols = pos 0;
  rows = pos 10;
  raw = false;
  ring_size = pos 4;
}

-- A running session of 2 columns and 1 row.
abbrev pub two_by_one : Glass
two_by_one = record { columns = 2; height = 1; text = codes "hi" }

abbrev pub running : Session glass
running = record {
  cmd = record { path = codes "sh"; argv = []; dir = none; environ = none };
  raw = false;
  alive = true;
  killed = false;
  last_activity = pos 0;
  ring = record { buf = []; max = 4; pos = 0; full = false };
  term = some two_by_one;
  scorc = record { pending = [] };
  cursor_visible = true;
  eff_cols = pos 2;
  eff_rows = pos 1;
  pty_closed = false;
  term_closed = false;
  finished = false;
  exited = false;
  exit_code = pos 0;
}
