-- ===== src/Core/Lock.antt =====
-- pkg/ptysession/session.go: `lockTimeout`, which polls the session's lock, and `Wait`. Times are
-- nanoseconds; what each round sees is an argument.
use native.Mathlib.Decide.{dec_le}
use pupptyeer.Prelude.{
  ℕ, zero, suc, ◌+◌, ◌*◌, ◌≤◌, ◌<◌, ◌≡◌, ◌⊎◌, inl, inr, refl, Bool, true, false, Bytes, Option,
  none, some, arith, if◌then◌else◌, ltb, ltb→lt, subst,
}
use pupptyeer.Prelude.Int.{ℤ}

-- What a round sees: the clock before its sleep, and whether `TryLock` succeeds after it.
pub record Poll : Type 0 where
  pub now : ℕ
  pub free : Bool

-- The loop from round `k` on, with fuel: whether the lock was taken.
unfoldable pub lock_loop : ℕ → (ℕ → Poll) → ℕ → ℕ → Option Bool
lock_loop deadline env zero k = none
lock_loop deadline env (suc fuel) k =
    let rest = lock_loop deadline env fuel (suc k) in
    if ltb (env k).now deadline then (if (env k).free then some true else rest) else some false

-- `lockTimeout`, called at a time with the answer of the first `TryLock`.
unfoldable pub lock_timeout : ℕ → Bool → ℕ → (ℕ → Poll) → ℕ → Option Bool
lock_timeout d free begin env fuel = if free then some true else lock_loop (begin + d) env fuel 0

abbrev pub poll_sleep : ℕ
poll_sleep = 2000000

-- Each round's clock is at least a sleep later than the one before.
abbrev pub Sleeps : (ℕ → Poll) → Type 0
Sleeps env = (k : ℕ) → (env k).now + poll_sleep ≤ (env (suc k)).now

-- The rounds from `k` to `j` found the deadline ahead and the lock held.
abbrev pub Held : ℕ → (ℕ → Poll) → ℕ → ℕ → Type 0
Held deadline env k j = (i : ℕ) → k ≤ i → i < j → ((env i).now < deadline) × ((env i).free ≡ false)

-- Of the rounds from `k` to `n`, `j` is the first to find the lock free or the deadline passed, and says
-- which.
pub record Decided (deadline : ℕ) (env : ℕ → Poll) (k n : ℕ) (r : Option Bool) : Type 0 where
  pub round : ℕ
  pub later : k ≤ round
  pub soon : round < n
  pub held : Held deadline env k round
  pub outcome :
      ((r ≡ some true) × ((env round).now < deadline) × ((env round).free ≡ true))
      ⊎ ((r ≡ some false) × (deadline ≤ (env round).now))

here-Decided :
    (deadline : ℕ) (env : ℕ → Poll) (k n : ℕ) (r : Option Bool)
    → k < n
    → ((r ≡ some true) × ((env k).now < deadline) × ((env k).free ≡ true))
      ⊎ ((r ≡ some false) × (deadline ≤ (env k).now))
    → Decided deadline env k n r
here-Decided deadline env k n r h o = record {
  round = k;
  later = omega arith;
  soon = h;
  held = λ i a b. absurd (omega (arith, a, b));
  outcome = o;
}

next-Decided :
    (deadline : ℕ) (env : ℕ → Poll) (k n : ℕ) (r : Option Bool)
    → (env k).now < deadline
    → (env k).free ≡ false
    → Decided deadline env (suc k) n r
    → Decided deadline env k n r
next-Decided deadline env k n r early taken d = record {
  round = d.round;
  later = omega (arith, d.later);
  soon = d.soon;
  held = λ i a b. elim (dec_le (suc k) i) [
    | yes l ↦ d.held i l b
    | no l ↦
        let same : k ≡ i = omega (arith, a, l) in
        subst (λ x. ((env x).now < deadline) × ((env x).free ≡ false)) same (early, taken)
  ];
  outcome = d.outcome;
}

round-Decided :
    (deadline : ℕ) (env : ℕ → Poll) (n k : ℕ) (rest : Option Bool)
    → k < n
    → ((env k).now < deadline → Decided deadline env (suc k) n rest)
    → Decided deadline env k n (
        if ltb (env k).now deadline then (if (env k).free then some true else rest) else some false)
round-Decided deadline env n k rest h later =
    of_tests (ltb (env k).now deadline) (env k).free refl refl
  where
    of_tests :
        (early free : Bool)
        → ltb (env k).now deadline ≡ early
        → (env k).free ≡ free
        → Decided deadline env k n
            (if early then (if free then some true else rest) else some false)
    of_tests true true e f =
        here-Decided deadline env k n (some true) h (inl (refl, ground (arith, e), f))
    of_tests true false e f =
        let early = ltb→lt (env k).now deadline e in
        next-Decided deadline env k n rest early f (later early)
    of_tests false free e f =
        here-Decided deadline env k n (some false) h (inr (refl, ground (arith, e)))

lock_loop-Decided :
    (deadline : ℕ) (env : ℕ → Poll) (n fuel k : ℕ)
    → Sleeps env
    → k + fuel < n
    → deadline ≤ (env k).now + fuel * poll_sleep
    → Decided deadline env k n (lock_loop deadline env (suc fuel) k)
unfolding lock_loop
lock_loop-Decided deadline env n zero k s b h =
    round-Decided deadline env n k none (omega arith) (λ e. absurd (omega (arith, e, h)))
lock_loop-Decided deadline env n (suc fuel) k s b h =
    round-Decided deadline env n k (lock_loop deadline env (suc fuel) (suc k)) (omega arith)
      (λ e. lock_loop-Decided deadline env n fuel (suc k) s (omega arith) (omega (arith, h, s k)))

-- `lockTimeout` returns: with a clock that each sleep moves on by two milliseconds, after at most one
-- round for each two milliseconds of the time given and one more. If the lock was not free at once, the
-- first round that finds the deadline passed makes it return false, and the first that finds the lock free
-- with the deadline ahead makes it return true, whichever comes first.
pub lock_timeout_total :
    (d : ℕ) (free : Bool) (begin : ℕ) (env : ℕ → Poll) (rounds : ℕ)
    → Sleeps env
    → begin ≤ (env 0).now
    → d ≤ rounds * poll_sleep
    → ((free ≡ true) × (lock_timeout d free begin env (suc rounds) ≡ some true))
      ⊎ ((free ≡ false)
          × Decided (begin + d) env 0 (suc rounds) (lock_timeout d free begin env (suc rounds)))
unfolding lock_timeout
lock_timeout_total d true begin env rounds s h k = inl (refl, refl)
lock_timeout_total d false begin env rounds s h k =
    inr
      (refl, lock_loop-Decided (begin + d) env (suc rounds) rounds 0 s (omega arith) (omega arith))

-- `Wait`: `exited` is the exit code once the child is reaped, `cancelled` the error of a context that is
-- done; when both are, either case of the select may be taken, as `first` says.
pub wait : Option ℤ → Option Bytes → Bool → Option (Bytes ⊎ ℤ)
wait none none first = none
wait none (some e) first = some (inl e)
wait (some code) none first = some (inr code)
wait (some code) (some e) first = some (if first then inr code else inl e)
