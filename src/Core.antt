-- ===== src/Core.antt =====
-- pkg/ptysession/session.go: one supervised PTY with its scrollback ring and its optional terminal
-- emulator. Each function is what runs under the session's lock or between two atomic accesses;
-- the operating system's part (spawning, the child's exit status, the clock) is an argument.
pub mod Terminal
pub mod Resize
pub mod Stream
pub mod Lifecycle
pub mod Runes
pub mod Render
pub mod Settle
pub mod Lock
pub mod Start
pub mod Sample
mod Tests
use pupptyeer.Prelude.{
  ℕ, ◌≡◌, Bool, true, false, not, ◌&&◌, ◌||◌, Option, none, some, ◌⊎◌, inl, inr, Bytes, List, [],
  ◌∷◌, codes, if◌then◌else◌,
}
use pupptyeer.Prelude.Int.{ℤ, pos, negsuc, pos_part, leb_ℤ, eqb_ℤ, to_uint16, to_signed}
use pupptyeer.Ring
use pupptyeer.Ring.{RingBuffer}
use pupptyeer.Scorc
use mathlib.Core.Option
use pupptyeer.Scorc.{Rewriter}
use Terminal.{Emulator}

-- `Config` without the hooks, whose calls are results of the functions below.
pub record Config : Type 0 where
  pub command : Bytes
  pub args : List Bytes
  pub cwd : Bytes
  pub env : Option (List Bytes)
  pub cols : ℤ
  pub rows : ℤ
  pub raw : Bool
  pub ring_size : ℤ

-- What `exec.Cmd` is told; `none` inherits the daemon's directory or environment.
pub record Command : Type 0 where
  pub path : Bytes
  pub argv : List Bytes
  pub dir : Option Bytes
  pub environ : Option (List Bytes)

abbrev pub default_ring_size : ℕ
default_ring_size = 262144

pub record Session (E : Emulator) : Type 0 where
  pub cmd : Command
  pub raw : Bool
  pub alive : Bool
  pub killed : Bool
  pub last_activity : ℤ
  pub ring : RingBuffer
  pub term : Option E.State
  pub scorc : Rewriter
  pub cursor_visible : Bool
  pub eff_cols : ℤ
  pub eff_rows : ℤ
  pub pty_closed : Bool
  pub term_closed : Bool
  pub finished : Bool
  pub exited : Bool
  pub exit_code : ℤ

pub data StartError : Type 0 where
  command_required : StartError
  pty_start : Bytes → StartError

abbrev pub is_empty : Bytes → Bool
is_empty [] = true
is_empty (b ∷ bs) = false

-- `if n <= 0 { n = d }`.
abbrev pub or_default : ℤ → ℤ → ℤ
or_default n d = if leb_ℤ n (pos 0) then d else n

abbrev pub to_command : Config → Command
to_command cfg = record {
  path = cfg.command;
  argv = cfg.args;
  dir = if is_empty cfg.cwd then none else some cfg.cwd;
  environ = cfg.env;
}

-- Calls of the cursor-visibility callback, in order.
unfoldable pub mirror : Bool → List Bool → Bool
mirror visible [] = visible
mirror visible (v ∷ vs) = mirror v vs

-- How `cmd.Wait` ended: with status 0, with an exit error and its code, or with another error.
pub data WaitResult : Type 0 where
  success : WaitResult
  exit_error : ℤ → WaitResult
  other_error : WaitResult

unfoldable pub wait_code : WaitResult → ℤ
wait_code success = pos 0
wait_code (exit_error code) = code
wait_code other_error = pos 1

-- The error of the call of `pty.Resize`, if there is one.
unfoldable pub pty_error : (ℕ × ℕ → Option Bytes) → Option (ℕ × ℕ) → Option Bytes
pty_error answer none = none
pty_error answer (some size) = answer size

module _ (E : Emulator) where
  -- The session that `Start` builds.
  unfoldable pub fresh_session : Config → ℤ → Session E
  fresh_session cfg now =
      let cols = or_default cfg.cols (pos 80) in
      let rows = or_default cfg.rows (pos 24) in
      record {
        cmd = to_command cfg;
        raw = cfg.raw;
        alive = true;
        killed = false;
        last_activity = now;
        ring = Ring.new_ring_buffer (pos_part (or_default cfg.ring_size (pos default_ring_size)));
        term = if cfg.raw then none else some (E.new_emulator cols rows);
        scorc = Scorc.new_rewriter;
        cursor_visible = true;
        eff_cols = cols;
        eff_rows = rows;
        pty_closed = false;
        term_closed = false;
        finished = false;
        exited = false;
        exit_code = pos 0;
      }

  -- `ptyx.Start` is the argument `spawn`: an error text, or `none` when the child runs.
  unfoldable pub start : Config → (Command → ℕ → ℕ → Option Bytes) → ℤ → StartError ⊎ Session E
  start cfg spawn now =
      let cols = to_uint16 (or_default cfg.cols (pos 80)) in
      let rows = to_uint16 (or_default cfg.rows (pos 24)) in
      let session = fresh_session cfg now in
      if is_empty cfg.command
      then inl command_required
      else elim (spawn (to_command cfg) cols rows) [
        | some e ↦ inl (pty_start e)
        | none ↦ inr session
      ]

  -- The emulator's part of a chunk: the rewritten bytes, and the visibility that it reports.
  unfoldable pub feed_term : Session E → Bytes → Session E
  feed_term s chunk = elim s.term [
    | none ↦ s
    | some t ↦
        let (out, scorc) = Scorc.translate s.scorc chunk in
        let (t', shown) = E.write t out in
        record s { term = some t'; scorc = scorc; cursor_visible = mirror s.cursor_visible shown }
  ]

  -- One round of `readLoop` for what `pty.Read` returned; `OnOutput` gets the chunk after it.
  unfoldable pub read_chunk : Session E → ℤ → Bytes → Session E
  read_chunk s now chunk =
      if is_empty chunk
      then s
      else feed_term (record s { last_activity = now; ring = Ring.append s.ring chunk }) chunk

  -- `closeTerm`: a raw session has no emulator.
  unfoldable pub close_term : Session E → Session E
  close_term s = elim s.term [ none ↦ s | some t ↦ record s { term_closed = true } ]

  -- `finish`, with the code that `OnExit` is called with, if this is the call that runs.
  unfoldable pub finish : Session E → WaitResult → Session E × Option ℤ
  finish s w =
      let code = wait_code w in
      if s.finished then (s, none) else (
        record (close_term
            (record s { finished = true; exit_code = to_signed 2147483648 code; alive = false })) {
              exited = true;
            },
        some code,
      )

  -- `Write`: the bytes that go to the PTY, or `none` for the error of a session that is not alive.
  unfoldable pub write : Session E → ℤ → Bytes → Session E × Option Bytes
  write s now b = if s.alive then (record s { last_activity = now }, some b) else (s, none)

  -- `resizeLocked`, with the size that the PTY is told, if it is told one. That call comes last; its error is
  -- in `resize`, and the daemon drops it.
  unfoldable pub resize_locked : Session E → ℤ → ℤ → Session E × Option (ℕ × ℕ)
  resize_locked s cols rows =
      if leb_ℤ cols (pos 0) || leb_ℤ rows (pos 0)
      then (s, none)
      else (if eqb_ℤ cols s.eff_cols && eqb_ℤ rows s.eff_rows then (s, none) else (
        record s {
          eff_cols = cols;
          eff_rows = rows;
          term = Option.map (λ t. E.resize t cols rows) s.term;
        },
        some (to_uint16 cols, to_uint16 rows),
      ))

  -- `Resize`, for the PTY's answer to a size: the session, the size that the PTY is told, if it is told one,
  -- and the error that `resizeLocked` returns, which is the PTY's.
  unfoldable pub resize :
      (ℕ × ℕ → Option Bytes) → Session E → ℤ → ℤ → Session E × Option (ℕ × ℕ) × Option Bytes
  resize answer s cols rows =
      let (s', told) = resize_locked s cols rows in (s', told, pty_error answer told)

  -- `Kill` up to `wg.Wait`; the read loop then runs `finish`.
  unfoldable pub kill_begin : Session E → Session E
  kill_begin s =
      if not s.alive && s.killed
      then s
      else close_term (record s { killed = true; pty_closed = true })

  -- `Kill` as a whole: the read loop drains and `finish` runs before it returns.
  unfoldable pub kill : Session E → WaitResult → Session E × Option ℤ
  kill s w = if not s.alive && s.killed then (s, none) else finish (kill_begin s) w

  -- `Exited`.
  pub exited_code : Session E → Bool × ℤ
  exited_code s = if s.exited then (true, s.exit_code) else (false, pos 0)
