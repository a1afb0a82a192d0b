-- ===== src/Cli/ExpectLoop.antt =====
-- cmd/pupptyeer/ctl.go: the loop of `ctl expect` behind the client's `Attach`. The clock is a count of
-- nanoseconds; the regular expressions are arguments, as is base64's DecodeString.
pub mod Live
pub mod Quiet
use pupptyeer.Prelude.{
  ℕ, suc, ◌+◌, Bool, true, false, not, ◌&&◌, ◌||◌, Option, none, some, Bytes, List, [], ◌∷◌, ◌++◌,
  length, leb, if◌then◌else◌,
}
use pupptyeer.Prelude.Int.{ℤ}
use pupptyeer.Prelude.Strings.{is_nil}
use pupptyeer.Client.Wire.{Message}
use pupptyeer.Cli.Expect.{Regex, Kind, Window, Scanned, finished, panicked, scan}
use pupptyeer.Cli.AttachLoop.{
  Event, output, exit, session_closed, scrollback_end, other, event_of, is_addressed, message_bytes,
}

-- The flags; an `idle` or a `timeout` of 0 stands for all durations that are not positive.
pub record Triggers : Type 0 where
  pub regex : Option Regex
  pub substr : Bytes
  pub idle : ℕ
  pub on_exit : Bool
  pub timeout : ℕ
  pub follow : Bool
  -- `ansiRe.ReplaceAll` with nothing, if --strip-ansi is given.
  pub strip : Option (Bytes → Bytes)
  pub include_scrollback : Bool

-- "arm at least one trigger".
pub is_armed : Triggers → Bool
is_armed f = has_regex f.regex || not (is_nil f.substr) || leb 1 f.idle || f.on_exit
  where
    has_regex : Option Regex → Bool
    has_regex none = false
    has_regex (some re) = true

-- The lines that it prints.
pub data Line : Type 0 where
  matched : Kind → ℕ → Line
  timed_out closed exited_unknown idled : Line
  exited : ℤ → Line

-- Its variables: whether the live output has begun, the window, and when the idle timer and the timer of
-- the deadline go off.
pub record Expecting : Type 0 where
  pub armed : Bool
  pub window : Window
  pub alarm : Option ℕ
  pub deadline : Option ℕ

-- What a round does: the loop goes on, returns no error or an exit code, or the program ends in a panic
-- of `scan`.
pub data Outcome : Type 0 where
  goes_on : Expecting → Outcome
  fired crashed : Outcome
  exit_code : ℕ → Outcome

-- What the loop meets: a signal, the deadline, the idle timer, an event, and the end of the events.
pub data Occurrence : Type 0 where
  interrupt deadline_alarm idle_alarm : Occurrence
  arrival : Message → Occurrence
  no_more : Occurrence

-- `armIdle` at a time.
unfoldable pub arm_idle : Triggers → ℕ → Expecting → Expecting
arm_idle f now x = if leb 1 f.idle && x.armed then record x { alarm = some (now + f.idle) } else x

abbrev pub began : Triggers → ℕ → Expecting
began f now = record {
  armed = f.include_scrollback;
  window = record { buf = []; base = 0 };
  alarm = none;
  deadline = if leb 1 f.timeout then some (now + f.timeout) else none;
}

-- The variables on entry to the loop.
unfoldable pub expecting_from : Triggers → ℕ → Expecting
expecting_from f now = arm_idle f now (began f now)

abbrev pub lines_of : List (Kind × ℕ) → List Line
lines_of [] = []
lines_of ((k, off) ∷ hits) = matched k off ∷ lines_of hits

abbrev pub scanned : Expecting → Option Scanned → List Line × Outcome
scanned x none = ([], crashed)
scanned x (some (panicked hits)) = (lines_of hits, crashed)
scanned x (some (finished w hits stop)) =
    (lines_of hits, if stop then fired else goes_on (record x { window = w }))

-- `scan()` and the return that follows.
unfoldable pub scan_on : Triggers → Expecting → List Line × Outcome
scan_on f x = scanned x (scan f.regex f.substr f.follow x.armed x.window)

abbrev pub stripped : Option (Bytes → Bytes) → Bytes → Bytes
stripped none bs = bs
stripped (some strip) bs = strip bs

abbrev pub append_live : Expecting → Bytes → Expecting
append_live x bs =
    if x.armed then record x { window = record x.window { buf = x.window.buf ++ bs } } else x

module _ (bytes_of : Bytes → Bytes) (ns session : Bytes) (f : Triggers) where
  unfoldable pub expect_event : Event → ℕ → Expecting → Message → List Line × Outcome
  expect_event scrollback_end now x m = scan_on f (arm_idle f now (record x { armed = true }))
  expect_event output now x m =
      scan_on f
        (arm_idle f now (append_live x (stripped f.strip (message_bytes bytes_of ns session m))))
  expect_event exit now x m =
      if f.on_exit
      then elim m.exit_code [
        | none ↦ (exited_unknown ∷ [], fired)
        | some code ↦ (exited code ∷ [], fired)
      ]
      else ([], goes_on x)
  expect_event session_closed now x m = (closed ∷ [], exit_code 3)
  expect_event other now x m = ([], goes_on x)

  -- Whether the timer has gone off.
  abbrev pub is_due : ℕ → Option ℕ → Bool
  is_due now none = false
  is_due now (some time) = leb time now

  -- A round of the loop at a time, `none` where it cannot happen.
  unfoldable pub expect_round : ℕ → Expecting → Occurrence → Option (List Line × Outcome)
  expect_round now x interrupt = some ([], exit_code 130)
  expect_round now x deadline_alarm =
      if is_due now x.deadline then some (timed_out ∷ [], exit_code 2) else none
  expect_round now x idle_alarm =
      if is_due now x.alarm
      then some (
        idled ∷ [],
        if f.follow then goes_on (arm_idle f now (record x { alarm = none })) else fired,
      )
      else none
  expect_round now x (arrival m) = some (
      if is_addressed ns session m then expect_event (event_of m.type) now x m else ([], goes_on x))
  expect_round now x no_more = some (closed ∷ [], exit_code 3)

  abbrev pub and_print : List Line → Option (List Line × Outcome) → Option (List Line × Outcome)
  and_print told none = none
  and_print told (some (more, o)) = some (told ++ more, o)

  -- The loop, until it returns or what it meets is used up.
  unfoldable pub expect : Expecting → List (ℕ × Occurrence) → Option (List Line × Outcome)
  expect x [] = some ([], goes_on x)
  expect x ((now, o) ∷ os) = elim (expect_round now x o) [
    | none ↦ none
    | some (told, goes_on x') ↦ and_print told (expect x' os)
    | some (told, fired) ↦ some (told, fired)
    | some (told, crashed) ↦ some (told, crashed)
    | some (told, exit_code n) ↦ some (told, exit_code n)
  ]
