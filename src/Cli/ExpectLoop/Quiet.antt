-- ===== src/Cli/ExpectLoop/Quiet.antt =====
-- cmd/pupptyeer/ctl.go: the idle timer of `ctl expect`.
use pupptyeer.Prelude.{
  ℕ, ◌+◌, ◌≤◌, ◌≡◌, ◌≢◌, subst, refl, inl, inr, Bool, true, false, ◌&&◌, Option, none, some, Bytes,
  List, [], ◌∷◌, arith, leb, if◌then◌else◌, Bool-cases,
}
use pupptyeer.Prelude.Int.{ℤ}
use pupptyeer.Client.Wire.{Message}
use pupptyeer.Cli.Expect.{Scanned, finished, panicked, scan}
use pupptyeer.Cli.AttachLoop.{
  Event, output, exit, session_closed, scrollback_end, other, event_of, is_addressed, message_bytes,
}
use pupptyeer.Cli.ExpectLoop.{
  Triggers, Line, Expecting, Outcome, goes_on, fired, crashed, exit_code, Occurrence, interrupt,
  deadline_alarm, idle_alarm, arrival, no_more, arm_idle, began, expecting_from, scanned, scan_on,
  stripped, append_live, expect_event, is_due, expect_round, and_print, expect, exited,
  exited_unknown, timed_out, idled,
}

-- Whether the timer starts anew at the event.
abbrev restarts : Event → Bool
restarts output = true
restarts scrollback_end = true
restarts other_event = false

module _ (bytes_of : Bytes → Bytes) (ns session : Bytes) (f : Triggers) where
  -- The time of the session's latest output or end of replay, from `t` on.
  unfoldable pub since : ℕ → List (ℕ × Occurrence) → ℕ
  since t [] = t
  since t ((now, arrival m) ∷ os) =
      since (if is_addressed ns session m && restarts (event_of m.type) then now else t) os
  since t ((now, o) ∷ os) = since t os

  -- The timer goes off no earlier than `idle` after `t`, and not before the live output.
  pub record IsTimed (t : ℕ) (x : Expecting) : Type 0 where
    pub late : (time : ℕ) → x.alarm ≡ some time → (t + f.idle ≤ time) × (1 ≤ f.idle)
    pub unarmed : x.armed ≡ false → x.alarm ≡ none

  abbrev pub Times : ℕ → Outcome → Type 0
  Times t (goes_on x) = IsTimed t x
  Times t fired = Unit {0}
  Times t crashed = Unit {0}
  Times t (exit_code n) = Unit {0}

  -- With the timer armed or about to be, the restart makes it hold for the present.
  arm_idle-IsTimed :
      (now : ℕ) (x : Expecting)
      → (x.armed ≡ false → x.alarm ≡ none)
      → ((time : ℕ) → x.alarm ≡ some time → 1 ≤ f.idle)
      → IsTimed now (arm_idle f now x)
  unfolding arm_idle
  arm_idle-IsTimed now x quiet positive = ground arith

  scan_on-Times : (t : ℕ) (x : Expecting) → IsTimed t x → Times t (scan_on f x).1
  unfolding scan_on
  scan_on-Times t x ok = of_result (scan f.regex f.substr f.follow x.armed x.window)
    where
      of_result : (r : Option Scanned) → Times t (scanned x r).1
      of_result none = tt
      of_result (some (panicked hits)) = tt
      of_result (some (finished w hits true)) = tt
      of_result (some (finished w hits false)) = record { late = ok.late; unarmed = ok.unarmed }

  expect_event-Times :
      (t now : ℕ) (x : Expecting) (e : Event) (m : Message)
      → IsTimed t x
      → Times (if restarts e then now else t) (expect_event bytes_of ns session f e now x m).1
  unfolding expect_event
  expect_event-Times t now x output m ok =
      let live = append_live x (stripped f.strip (message_bytes bytes_of ns session m)) in
      scan_on-Times now (arm_idle f now live) (
        arm_idle-IsTimed now live (λ e. ground (arith, e, ok.unarmed))
          (λ time e. ground (arith, e, ok.late time)))
  expect_event-Times t now x scrollback_end m ok =
      scan_on-Times now (arm_idle f now (record x { armed = true })) (
        arm_idle-IsTimed now (record x { armed = true }) (λ e. absurd (ground (arith, e)))
          (λ time e. (ok.late time e).1))
  expect_event-Times t now x exit m ok = of_flag f.on_exit m.exit_code
    where
      of_flag :
          (b : Bool) (c : Option ℤ)
          → Times t
              (if b
                then elim c as (λ x. List Line × Outcome) [
                  | none ↦ (exited_unknown ∷ [], fired)
                  | some code ↦ (exited code ∷ [], fired)
                ]
                else ([], goes_on x)).1
      of_flag true none = tt
      of_flag true (some code) = tt
      of_flag false c = ok
  expect_event-Times t now x session_closed m ok = tt
  expect_event-Times t now x other m ok = ok

  abbrev after : ℕ → ℕ → Occurrence → ℕ
  after t now (arrival m) =
      if is_addressed ns session m && restarts (event_of m.type) then now else t
  after t now o = t

  -- A round that can happen.
  RoundTimes : ℕ → Option (List Line × Outcome) → Type 0
  RoundTimes t none = Unit {0}
  RoundTimes t (some (told, o)) = Times t o

  arrival-Times :
      (t now : ℕ) (x : Expecting) (m : Message)
      → IsTimed t x
      → RoundTimes (after t now (arrival m)) (expect_round bytes_of ns session f now x (arrival m))
  unfolding expect_round RoundTimes
  arrival-Times t now x m ok = ground (arith, expect_event-Times t now x (event_of m.type) m ok)

  idle-Times :
      (t now : ℕ) (x : Expecting) (alarm : Option ℕ) (follow : Bool)
      → IsTimed t x
      → x.alarm ≡ alarm
      → RoundTimes t (
          if is_due bytes_of ns session f now alarm
          then some (
            idled ∷ [],
            if follow then goes_on (arm_idle f now (record x { alarm = none })) else fired,
          )
          else none)
  unfolding RoundTimes
  idle-Times t now x none follow ok e = tt
  idle-Times t now x (some time) follow ok e = elim (Bool-cases (leb time now)) [
    | inr early ↦ rw (early, RoundTimes) tt
    | inl due ↦ rw (due, RoundTimes) (of_follow follow (ground (arith, due, ok.late time e)))
  ]
    where
      of_follow :
          (b : Bool)
          → t ≤ now
          → Times t (if b then goes_on (arm_idle f now (record x { alarm = none })) else fired)
      of_follow true past =
          ground (arith, arm_idle-IsTimed now (record x { alarm = none }) (λ e. refl))
      of_follow false past = tt

  expect_round-Times :
      (t now : ℕ) (x : Expecting) (o : Occurrence)
      → IsTimed t x
      → RoundTimes (after t now o) (expect_round bytes_of ns session f now x o)
  unfolding expect_round RoundTimes
  expect_round-Times t now x interrupt ok = tt
  expect_round-Times t now x deadline_alarm ok =
      of_due (is_due bytes_of ns session f now x.deadline)
    where
      of_due : (b : Bool) → RoundTimes t (if b then some (timed_out ∷ [], exit_code 2) else none)
      of_due true = tt
      of_due false = tt
  expect_round-Times t now x idle_alarm ok = idle-Times t now x x.alarm f.follow ok refl
  expect_round-Times t now x (arrival m) ok = arrival-Times t now x m ok
  expect_round-Times t now x no_more ok = tt

  since-cons :
      (t now : ℕ) (o : Occurrence) (os : List (ℕ × Occurrence))
      → since t ((now, o) ∷ os) ≡ since (after t now o) os
  unfolding since
  since-cons t now interrupt os = refl
  since-cons t now deadline_alarm os = refl
  since-cons t now idle_alarm os = refl
  since-cons t now (arrival m) os = refl
  since-cons t now no_more os = refl

  expect-IsTimed :
      (t : ℕ) (x x' : Expecting) (os : List (ℕ × Occurrence)) (told : List Line)
      → IsTimed t x
      → expect bytes_of ns session f x os ≡ some (told, goes_on x')
      → IsTimed (since t os) x'
  unfolding expect since RoundTimes
  expect-IsTimed t x x' [] told ok e =
      let same : x ≡ x' = ground (arith, e) in subst (λ y. IsTimed t y) same ok
  expect-IsTimed t x x' ((now, o) ∷ os) told ok e = rw (since-cons t now o os) (
      of_round (expect_round bytes_of ns session f now x o) (expect_round-Times t now x o ok)
        (λ y more fine g. expect-IsTimed (after t now o) y x' os more fine g) e)
    where
      of_rest :
          (y : Expecting) (told' : List Line) (r : Option (List Line × Outcome))
          → ((more : List Line)
              → r ≡ some (more, goes_on x')
              → IsTimed (since (after t now o) os) x')
          → and_print bytes_of ns session f told' r ≡ some (told, goes_on x')
          → IsTimed (since (after t now o) os) x'
      of_rest y told' none ih k = absurd (ground (arith, k))
      of_rest y told' (some (more, out)) ih k = ih more (ground (arith, k))

      of_round :
          (r : Option (List Line × Outcome))
          → RoundTimes (after t now o) r
          → ((y : Expecting) (more : List Line)
              → IsTimed (after t now o) y
              → expect bytes_of ns session f y os ≡ some (more, goes_on x')
              → IsTimed (since (after t now o) os) x')
          → (elim r as (λ z. Option (List Line × Outcome)) [
            | none ↦ none
            | some (told', goes_on y) ↦
                and_print bytes_of ns session f told' (expect bytes_of ns session f y os)
            | some (told', fired) ↦ some (told', fired)
            | some (told', crashed) ↦ some (told', crashed)
            | some (told', exit_code n) ↦ some (told', exit_code n)
          ])
            ≡ some (told, goes_on x')
          → IsTimed (since (after t now o) os) x'
      of_round none fine ih k = absurd (ground (arith, k))
      of_round (some (told', goes_on y)) fine ih k =
          of_rest y told' (expect bytes_of ns session f y os) (λ more g. ih y more fine g) k
      of_round (some (told', fired)) fine ih k = absurd (ground (arith, k))
      of_round (some (told', crashed)) fine ih k = absurd (ground (arith, k))
      of_round (some (told', exit_code n)) fine ih k = absurd (ground (arith, k))

  expecting_from-IsTimed : (now : ℕ) → IsTimed now (expecting_from f now)
  unfolding expecting_from
  expecting_from-IsTimed now =
      arm_idle-IsTimed now (began f now) (λ e. refl) (λ time e. absurd (ground (arith, e)))

  idle_due :
      (t now : ℕ) (x : Expecting) (alarm : Option ℕ) (r : List Line × Outcome)
      → IsTimed t x
      → x.alarm ≡ alarm
      → (if is_due bytes_of ns session f now alarm then some r else none) ≢ none
      → (t + f.idle ≤ now) × (1 ≤ f.idle)
  idle_due t now x none r ok e k = absurd (k refl)
  idle_due t now x (some time) r ok e k = ground (arith, ok.late time e, k)

  -- The idle trigger of `ctl expect` fires only after quiet: after any run of its loop that goes on, the
  -- idle timer can go off at a time only if --idle was given and at least that long has passed since the
  -- latest output of the session, since the end of the replay, and since `expect` began.
  pub idle_quiet :
      (t now : ℕ) (x : Expecting) (os : List (ℕ × Occurrence)) (told : List Line)
      → expect bytes_of ns session f (expecting_from f t) os ≡ some (told, goes_on x)
      → expect_round bytes_of ns session f now x idle_alarm ≢ none
      → (since t os + f.idle ≤ now) × (1 ≤ f.idle)
  unfolding expect_round
  idle_quiet t now x os told e k =
      idle_due (since t os) now x x.alarm _
        (expect-IsTimed t (expecting_from f t) x os told (expecting_from-IsTimed t) e) refl k
