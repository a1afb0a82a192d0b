-- ===== src/Core/Settle.antt =====
-- pkg/ptysession/session.go: `waitSettle`, which polls the activity time until the PTY has been quiet
-- for `settle` or the deadline has passed. Times are nanoseconds; the clock and the activity that
-- each round sees are an argument.
use pupptyeer.Prelude.{
  ℕ, zero, suc, ◌+◌, ◌<◌, ◌≡◌, ◌⊎◌, inl, inr, false, Option, none, some, arith, if◌then◌else◌,
  Option-cases,
}
use pupptyeer.Prelude.Int.{
  ℤ, pos, pos_part, leb_ℤ, ◌+ℤ◌, ◌-ℤ◌, ◌≤ℤ◌, +ℤ_parts, -ℤ_parts, parts_apart, min_ℤ, min_ℤ-le,
  le-min_ℤ,
}

abbrev pub poll_interval : ℤ
poll_interval = pos 25000000

-- What a round reads: the activity time, and the clock in `time.Since` and in `time.Now`.
pub record Sample : Type 0 where
  pub last_activity : ℤ
  pub since_now : ℤ
  pub now : ℤ

-- One round: `none` returns, `some d` sleeps for `d`.
unfoldable pub settle_round : ℤ → ℤ → Sample → Option ℤ
settle_round settle deadline s =
    let quiet = s.since_now -ℤ s.last_activity in
    if leb_ℤ settle quiet
    then none
    else (if leb_ℤ deadline s.now
        then none
        else some (min_ℤ (min_ℤ (settle -ℤ quiet) (deadline -ℤ s.now)) poll_interval))

-- The rounds from round `k` on, with fuel; the result is the round that returned.
unfoldable pub settle_loop : ℤ → ℤ → (ℕ → Sample) → ℕ → ℕ → Option ℕ
settle_loop settle deadline env zero k = none
settle_loop settle deadline env (suc fuel) k =
    let rest = settle_loop settle deadline env fuel (k + 1) in
    elim (settle_round settle deadline (env k)) [ none ↦ some k | some d ↦ rest ]

abbrev pub default_settle_timeout : ℤ
default_settle_timeout = pos 5000000000

-- `waitSettle` started at time `begin`: `none` when it does not wait at all, else the deadline.
pub wait_deadline : ℤ → ℤ → ℤ → Option ℤ
wait_deadline settle timeout begin =
    if leb_ℤ settle (pos 0)
    then none
    else some (begin +ℤ (if leb_ℤ timeout (pos 0) then default_settle_timeout else timeout))

settle_round_sleeps :
    (settle deadline : ℤ) (s : Sample) (d : ℤ)
    → settle_round settle deadline s ≡ some d
    → let quiet = s.since_now -ℤ s.last_activity in
      (d ≡ min_ℤ (min_ℤ (settle -ℤ quiet) (deadline -ℤ s.now)) poll_interval)
      × (leb_ℤ settle quiet ≡ false)
      × (leb_ℤ deadline s.now ≡ false)
unfolding settle_round
settle_round_sleeps settle deadline s d h = ground arith

pos-sub : (a b : ℤ) → leb_ℤ a b ≡ false → pos 1 ≤ℤ a -ℤ b
pos-sub a b h = ground (arith, -ℤ_parts a b)

-- A sleep is positive, at most 25 milliseconds, and ends neither after the deadline nor later than
-- the moment at which the PTY would have been quiet for long enough.
pub settle_round_bounds :
    (settle deadline : ℤ) (s : Sample) (d : ℤ)
    → settle_round settle deadline s ≡ some d
    → (pos 1 ≤ℤ d)
      × (d ≤ℤ poll_interval)
      × (s.now +ℤ d ≤ℤ deadline)
      × (s.since_now +ℤ d ≤ℤ s.last_activity +ℤ settle)
settle_round_bounds settle deadline s d h =
    let quiet = s.since_now -ℤ s.last_activity in
    let a = settle -ℤ quiet in
    let b = deadline -ℤ s.now in
    let (e, noisy, early) = settle_round_sleeps settle deadline s d h in
    let positive : pos 1 ≤ℤ min_ℤ (min_ℤ a b) poll_interval =
      le-min_ℤ (min_ℤ a b) poll_interval (pos 1)
        (le-min_ℤ a b (pos 1) (pos-sub settle quiet noisy) (pos-sub deadline s.now early))
        (omega arith) in
    let outer = min_ℤ-le (min_ℤ a b) poll_interval in
    let inner = min_ℤ-le a b in
    rw e (
      omega (
        arith,
        positive,
        outer.0,
        outer.1,
        inner.0,
        inner.1,
        -ℤ_parts s.since_now s.last_activity,
        -ℤ_parts settle quiet,
        -ℤ_parts deadline s.now,
        +ℤ_parts s.now (min_ℤ (min_ℤ a b) poll_interval),
        +ℤ_parts s.since_now (min_ℤ (min_ℤ a b) poll_interval),
        +ℤ_parts s.last_activity settle,
      ))

settle_round_stop :
    (settle deadline : ℤ) (s : Sample)
    → settle_round settle deadline s ≡ none
    → (settle ≤ℤ s.since_now -ℤ s.last_activity) ⊎ (deadline ≤ℤ s.now)
unfolding settle_round
settle_round_stop settle deadline s h = ground arith

-- The time left before the deadline at round `k`.
abbrev time_left : ℤ → (ℕ → Sample) → ℕ → ℕ
time_left deadline env k = pos_part (deadline -ℤ (env k).now)

-- A sleep takes at least as long as it was asked to: the clock of the next round is past it.
abbrev pub ClockAdvances : ℤ → ℤ → (ℕ → Sample) → Type 0
ClockAdvances settle deadline env =
    (k : ℕ) (d : ℤ)
    → settle_round settle deadline (env k) ≡ some d
    → (env k).now +ℤ d ≤ℤ (env (k + 1)).now

time_left-falls :
    (settle deadline : ℤ) (env : ℕ → Sample) (k : ℕ) (d : ℤ)
    → ClockAdvances settle deadline env
    → settle_round settle deadline (env k) ≡ some d
    → time_left deadline env (k + 1) < time_left deadline env k
time_left-falls settle deadline env k d clock h =
    let bounds = settle_round_bounds settle deadline (env k) d h in
    omega (
      arith,
      bounds,
      clock k d h,
      +ℤ_parts (env k).now d,
      -ℤ_parts deadline (env k).now,
      -ℤ_parts deadline (env (k + 1)).now,
      parts_apart (deadline -ℤ (env (k + 1)).now),
    )

-- Whatever the PTY does, the wait ends: with a clock that advances by each sleep, as many rounds as
-- nanoseconds are left before the deadline (and one more) suffice, and the loop stops in a round in
-- which the PTY had been quiet for `settle` or the deadline had been reached.
pub settle_loop_total :
    (settle deadline : ℤ) (env : ℕ → Sample) (fuel k : ℕ)
    → ClockAdvances settle deadline env
    → pos_part (deadline -ℤ (env k).now) < fuel
    → (n : ℕ) × (settle_loop settle deadline env fuel k ≡ some n)
      × ((settle ≤ℤ (env n).since_now -ℤ (env n).last_activity) ⊎ (deadline ≤ℤ (env n).now))
unfolding settle_loop
settle_loop_total settle deadline env zero k clock h = absurd (omega arith)
settle_loop_total settle deadline env (suc fuel) k clock h =
    elim (Option-cases (settle_round settle deadline (env k))) [
      | inl stop ↦ (k, rw (stop, settle_loop), settle_round_stop settle deadline (env k) stop)
      | inr (d, sleeps) ↦
          let shorter = time_left-falls settle deadline env k d clock sleeps in
          let (n, e, why) =
            settle_loop_total settle deadline env fuel (k + 1) clock (omega arith) in
          (n, rw (sleeps, settle_loop) e, why)
    ]
