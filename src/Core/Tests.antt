-- ===== src/Core/Tests.antt =====
-- Runs of a session, and its theorems at concrete inputs.
use pupptyeer.Prelude.{
  Bool, ℕ, zero, suc, ◌*◌, ◌+◌, ◌≤◌, ◌≡◌, ◌⊎◌, refl, true, false, Option, none, some, Bytes, List,
  [], ◌∷◌, codes, length, last, concat, arith, if◌then◌else◌,
}
use pupptyeer.Prelude.Int.{ℤ, pos, ◌≤ℤ◌, ◌-ℤ◌, +ℤ_parts, min_ℤ, to_signed, to_uint16}
use pupptyeer.Ring
use pupptyeer.Scorc
use pupptyeer.Core.Terminal.{Cell}
use pupptyeer.Core.Sample.{glass, running}
use pupptyeer.Core.Resize.{Taken, InSync, pty_after, resize-InSync}
use pupptyeer.Core.Stream.{chunks, read_all, snapshot-read_all}
use pupptyeer.Core.Lifecycle.{Op, ends, writes, kills, run, step, IsCoherent, run_calls_once}
use pupptyeer.Core.Runes.{encode_rune, string_of}
use pupptyeer.Core.Render.{cell_text, row_loop, render_row, render_row_total}
use pupptyeer.Core.Settle.{
  Sample, settle_round, settle_loop, ClockAdvances, settle_round_bounds, settle_loop_total,
}
use pupptyeer.Core.Lock.{Poll, Decided, lock_timeout, lock_timeout_total}
use pupptyeer.Core.{
  Command, success, exit_error, wait_code, resize_locked, resize, close_term, finish, write,
  kill_begin,
}

running-InSync : InSync glass running (2, 1)
unfolding to_uint16
running-InSync = record {
  cols_positive = refl;
  rows_positive = refl;
  cols_told = refl;
  rows_told = refl;
}

running-IsCoherent : IsCoherent glass running
running-IsCoherent = record { ended = refl; gone = refl }

resize_locked_narrows : (resize_locked glass running (pos 65537) (pos 24)).1 ≡ some (1, 24)
unfolding resize_locked to_uint16
resize_locked_narrows = refl

-- A PTY that takes every size, and one that takes none.
abbrev takes_all : ℕ × ℕ → Option Bytes
takes_all size = none

abbrev takes_none : ℕ × ℕ → Option Bytes
takes_none size = some (codes "EIO")

resize-InSync_example :
    let (s', told, err) = resize glass takes_none running (pos 65537) (pos 24) in
    Taken glass running (pos 65537) (pos 24) s'
    × (((err ≡ none) × InSync glass s' (pty_after (2, 1) told err))
        ⊎ ((e : Bytes) × (err ≡ some e)
            × (pty_after (2, 1) told err ≡ (2, 1))
            × (s'.eff_cols ≡ pos 65537)
            × (s'.eff_rows ≡ pos 24)
            × (resize glass takes_all s' (pos 65537) (pos 24) ≡ (s', none, none))))
resize-InSync_example =
    resize-InSync glass takes_none takes_all running (2, 1) (pos 65537) (pos 24) running-InSync

-- Two reads, the first of which ends inside an escape sequence.
abbrev two_reads : List (ℤ × Bytes)
two_reads =
    (pos 1, b'a' ∷ b'b' ∷ Scorc.esc ∷ []) ∷ (pos 2, []) ∷ (pos 3, b'[' ∷ b'u' ∷ b'c' ∷ []) ∷ []

snapshot-read_all_example :
    Ring.snapshot (read_all glass running two_reads).ring ≡ last 4 (concat (chunks two_reads))
unfolding Ring.new_ring_buffer
snapshot-read_all_example = snapshot-read_all glass running 4 two_reads (omega arith) refl

abbrev busy_day : List (Op glass)
busy_day = writes (pos 5) (codes "x") ∷ kills ∷ ends (exit_error (pos 3)) ∷ ends success ∷ []

run_codes : (run glass running busy_day).1 ≡ pos 3 ∷ []
unfolding run step write kill_begin finish close_term wait_code to_signed
run_codes = refl

run_calls_once_example :
    length (run glass running busy_day).1
    ≡ (if (run glass running busy_day).0.finished then 1 else 0)
run_calls_once_example = run_calls_once glass running busy_day refl

-- A wide rune in the second of two columns runs over the edge.
abbrev wide_cells : ℕ → Option Cell
wide_cells zero = none
wide_cells (suc n) = some (record { content = 0x754c ∷ []; width = pos 2 })

render_row-wide : render_row wide_cells 2 ≡ some (0x20 ∷ 0xe7 ∷ 0x95 ∷ 0x8c ∷ [])
unfolding render_row row_loop cell_text string_of encode_rune
render_row-wide = refl

render_row_total_example :
    (line : List ℕ) × (end : ℕ) × (row_loop wide_cells 2 3 0 0 [] ≡ some (line, end))
    × (2 ≤ end)
    × (render_row wide_cells 2 ≡ some (string_of line))
render_row_total_example = render_row_total wide_cells 2

abbrev letters : ℕ → Option Cell
letters x = some (record { content = (b'a' + x) ∷ []; width = pos 1 })

-- The PTY writes at 0 and then never again; the clock runs 30 milliseconds per round.
abbrev rounds : ℕ → Sample
rounds k = record {
  last_activity = pos 0;
  since_now = pos (k * 30000000);
  now = pos (k * 30000000);
}

abbrev settle : ℤ
settle = pos 60000000

abbrev deadline : ℤ
deadline = pos 100000000

rounds-ClockAdvances : ClockAdvances settle deadline rounds
rounds-ClockAdvances k d e =
    omega (arith, settle_round_bounds settle deadline (rounds k) d e, +ℤ_parts (rounds k).now d)

settle_loop-quiet : settle_loop settle deadline rounds 5 0 ≡ some 2
unfolding settle_loop settle_round ◌-ℤ◌ min_ℤ
settle_loop-quiet = refl

settle_round-first : settle_round settle deadline (rounds 1) ≡ some (pos 25000000)
unfolding settle_round ◌-ℤ◌ min_ℤ
settle_round-first = refl

settle_loop_total_example :
    (n : ℕ) × (settle_loop settle deadline rounds 100000001 0 ≡ some n)
    × ((settle ≤ℤ (rounds n).since_now -ℤ (rounds n).last_activity) ⊎ (deadline ≤ℤ (rounds n).now))
unfolding ◌-ℤ◌
settle_loop_total_example =
    settle_loop_total settle deadline rounds 100000001 0 rounds-ClockAdvances (omega arith)

abbrev refuse : Command → ℕ → ℕ → Option Bytes
refuse c cols rows = some (codes "no pty")

-- The lock is free in the third round, before the deadline of ten milliseconds.
abbrev ticks : ℕ → ℕ
ticks zero = 5
ticks (suc k) = ticks k + 2000001

abbrev free_from : ℕ → Bool
free_from zero = false
free_from (suc zero) = false
free_from (suc (suc k)) = true

abbrev polls : ℕ → Poll
polls k = record { now = ticks k; free = free_from k }

lock_timeout_total_example :
    ((false ≡ true) × (lock_timeout 10000000 false 5 polls 6 ≡ some true))
    ⊎ ((false ≡ false) × Decided (5 + 10000000) polls 0 6 (lock_timeout 10000000 false 5 polls 6))
lock_timeout_total_example =
    lock_timeout_total 10000000 false 5 polls 5 (λ k. omega arith) (omega arith) (omega arith)
