-- ===== src/Core/Lifecycle.antt =====
-- pkg/ptysession/session.go: runs of a session's operations, and its end.
use pupptyeer.Prelude.{
  ℕ, ◌≡◌, ◌⊎◌, refl, ◌∙◌, Bool, true, false, not, Option, none, some, Bytes, List, [], ◌∷◌, ◌+◌,
  length, arith, if◌then◌else◌,
}
use pupptyeer.Prelude.Int.{ℤ, to_signed}
use pupptyeer.Core.Terminal.{Emulator}
use pupptyeer.Core.{
  Session, WaitResult, wait_code, read_chunk, feed_term, close_term, finish, write, resize_locked,
  kill_begin, kill, exited_code,
}

module _ (E : Emulator) where
  -- What a session goes through after its start, in any order: the read loop's rounds and its end, and
  -- calls from other goroutines.
  pub data Op : Type 0 where
    reads : ℤ → Bytes → Op
    ends : WaitResult → Op
    writes : ℤ → Bytes → Op
    resizes : ℤ → ℤ → Op
    kills : Op

  -- One step, with the code that `OnExit` is called with in it.
  unfoldable pub step : Session E → Op → Session E × Option ℤ
  step s (reads now p) = (read_chunk E s now p, none)
  step s (ends w) = finish E s w
  step s (writes now b) = ((write E s now b).0, none)
  step s (resizes cols rows) = ((resize_locked E s cols rows).0, none)
  step s kills = (kill_begin E s, none)

  abbrev push : Option ℤ → List ℤ → List ℤ
  push none cs = cs
  push (some c) cs = c ∷ cs

  -- A run, with the codes of the calls of `OnExit`.
  unfoldable pub run : Session E → List Op → Session E × List ℤ
  run s [] = (s, [])
  run s (op ∷ ops) =
      let (s', code) = step s op in let (s'', codes) = run s' ops in (s'', push code codes)

  -- `alive`, `exited` and the once-guard of `finish` tell the same.
  pub record IsCoherent (s : Session E) : Type 0 where
    pub ended : s.exited ≡ s.finished
    pub gone : s.alive ≡ not s.finished

  pub step-IsCoherent : (s : Session E) (op : Op) → IsCoherent s → IsCoherent (step s op).0
  unfolding step read_chunk feed_term finish close_term write resize_locked kill_begin
  step-IsCoherent s (reads now p) v = ground arith
  step-IsCoherent s (ends w) v = ground arith
  step-IsCoherent s (writes now b) v = ground arith
  step-IsCoherent s (resizes cols rows) v = ground arith
  step-IsCoherent s kills v = ground arith

  -- A step that calls `OnExit` is one that ends a session which had not ended.
  abbrev calls : Option ℤ → ℕ
  calls none = 0
  calls (some c) = 1

  abbrev as_count : Bool → ℕ
  as_count true = 1
  as_count false = 0

  step-calls :
      (s : Session E) (op : Op)
      → as_count s.finished + calls (step s op).1 ≡ as_count (step s op).0.finished
  unfolding step read_chunk feed_term finish close_term write resize_locked kill_begin
  step-calls s (reads now p) = ground arith
  step-calls s (ends w) = ground arith
  step-calls s (writes now b) = ground arith
  step-calls s (resizes cols rows) = ground arith
  step-calls s kills = ground arith

  run-calls :
      (s : Session E) (ops : List Op)
      → as_count s.finished + length (run s ops).1 ≡ as_count (run s ops).0.finished
  unfolding run
  run-calls s [] = omega arith
  run-calls s (op ∷ ops) = ground (arith, step-calls s op, run-calls (step s op).0 ops)

  -- In any run of a session that has not ended `OnExit` is called once if the run ends the session,
  -- and not at all otherwise.
  pub run_calls_once :
      (s : Session E) (ops : List Op)
      → s.finished ≡ false
      → length (run s ops).1 ≡ (if (run s ops).0.finished then 1 else 0)
  run_calls_once s ops h = ground (arith, run-calls s ops)

  pub run-IsCoherent : (s : Session E) (ops : List Op) → IsCoherent s → IsCoherent (run s ops).0
  unfolding run
  run-IsCoherent s [] v = v
  run-IsCoherent s (op ∷ ops) v = run-IsCoherent (step s op).0 ops (step-IsCoherent s op v)

  -- What stays of a session that has ended.
  record SameEnd (s s' : Session E) : Type 0 where
    pub over : s'.finished ≡ true
    pub state : s'.exited ≡ s.exited
    pub code : s'.exit_code ≡ s.exit_code
    pub dead : s'.alive ≡ s.alive

  step-SameEnd : (s : Session E) (op : Op) → s.finished ≡ true → SameEnd s (step s op).0
  unfolding step read_chunk feed_term finish close_term write resize_locked kill_begin
  step-SameEnd s (reads now p) h = ground arith
  step-SameEnd s (ends w) h = ground arith
  step-SameEnd s (writes now b) h = ground arith
  step-SameEnd s (resizes cols rows) h = ground arith
  step-SameEnd s kills h = ground arith

  run-SameEnd : (s : Session E) (ops : List Op) → s.finished ≡ true → SameEnd s (run s ops).0
  unfolding run
  run-SameEnd s [] h = record { over = h; state = refl; code = refl; dead = refl }
  run-SameEnd s (op ∷ ops) h =
      let first = step-SameEnd s op h in
      let later = run-SameEnd (step s op).0 ops first.over in
      record {
        over = later.over;
        state = later.state ∙ first.state;
        code = later.code ∙ first.code;
        dead = later.dead ∙ first.dead;
      }

  -- Once a coherent session has ended with an exit status, no later run changes what `Exited` and
  -- `Alive` answer: it has exited with that code (as an `int32`), it is dead, and its writes fail.
  pub exited_code-run :
      (s : Session E) (w : WaitResult) (ops : List Op) (now : ℤ) (b : Bytes)
      → IsCoherent s
      → s.finished ≡ false
      → let s' = (run (finish E s w).0 ops).0 in
        (exited_code E s' ≡ (true, to_signed 2147483648 (wait_code w)))
        × (s'.alive ≡ false)
        × (write E s' now b ≡ (s', none))
  unfolding exited_code write finish close_term
  exited_code-run s w ops now b v h = ground (arith, run-SameEnd (finish E s w).0 ops)

  -- `Kill` returns with the session ended, and a second `Kill` changes nothing and calls nothing.
  pub kill-kill :
      (s : Session E) (w w' : WaitResult)
      → IsCoherent s
      → let s' = (kill E s w).0 in
        (s'.alive ≡ false) × (s'.exited ≡ true) × (s'.killed ≡ true) × (kill E s' w' ≡ (s', none))
  unfolding kill kill_begin finish close_term
  kill-kill s w w' v = ground arith

  -- `Kill` calls `OnExit` exactly when the session had not ended, with the reaped exit status.
  pub kill_code :
      (s : Session E) (w : WaitResult)
      → IsCoherent s
      → ((kill E s w).1 ≡ none) × (s.finished ≡ true)
        ⊎ ((kill E s w).1 ≡ some (wait_code w)) × (s.finished ≡ false)
  unfolding kill kill_begin finish close_term
  kill_code s w v = ground arith

  pub kill-IsCoherent : (s : Session E) (w : WaitResult) → IsCoherent s → IsCoherent (kill E s w).0
  unfolding kill kill_begin finish close_term
  kill-IsCoherent s w v = ground arith
