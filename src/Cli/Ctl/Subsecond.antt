-- ===== src/Cli/Ctl/Subsecond.antt =====
-- cmd/pupptyeer/ctl.go and internal/server/server.go together: `ctl gc` with less than a second.
use pupptyeer.Prelude.{
  ℕ, ◌<◌, ◌/◌, ◌%◌, ◌≡◌, refl, ◌∙◌, inl, inr, false, Bytes, List, [], arith, some, text_eq,
}
use pupptyeer.Prelude.Int.{ℤ, pos, ◌≤ℤ◌, ◌-ℤ◌}
use pupptyeer.Protocol.{request_of}
use pupptyeer.World.{Host, World, ns_of, send}
use pupptyeer.Daemon.{Outside, gc_cutoff, collect}
use pupptyeer.Daemon.Collect.{Listed, AllCoherent, gc_cutoff_lem, collect_cases}
use pupptyeer.Dispatch.{dispatch, dispatch_request}
use pupptyeer.Client.Verbs.{gc_message, ns}
use pupptyeer.Client.Wire.Parity.{to_message}
use pupptyeer.Cli.Ctl.{Shell, whole_seconds, collecting, gc, read_command, first_message}

minus_zero : (a : ℤ) → a -ℤ pos 0 ≡ a
unfolding ◌-ℤ◌
minus_zero a = ground arith

cutoff-now : (now : ℤ) → gc_cutoff now (pos 0) ≡ now
cutoff-now now = gc_cutoff_lem now 0 (omega arith) ∙ minus_zero now

module _ (H : Host) where
  collect-now :
      (w : World H) (o : Outside) (space : Bytes) (q : ℕ)
      → AllCoherent H w
      → Listed H q (ns_of space) false w.sessions
      → (w.sess_at q).core.last_activity ≤ℤ o.now
      → ((collect H w o (pos 0) space false).0.sess_at q).core.alive ≡ false
  collect-now w o space q v listed past = elim (collect_cases H w o (pos 0) space false q v) [
    | inl (victim, dead) ↦ dead
    | inr (spared, same) ↦ absurd (spared (listed, rw (cutoff-now o.now) past))
  ]

  dispatch-gc :
      (w : World H) (o : Outside) (c : ℕ) (space : Bytes)
      → (dispatch H w o c (to_message (gc_message space (pos 0) []))).sess_at
        ≡ (collect H w o (pos 0) space false).0.sess_at
  unfolding dispatch dispatch_request request_of text_eq to_message gc_message ns send
  dispatch-gc w o c space = refl

  subsecond_zero :
      (sh : Shell) (d : ℕ)
      → ((n : ℕ) → n < 1000000000 → sh.rounds_up 0 n ≡ false)
      → d < 1000000000
      → whole_seconds sh (pos d) ≡ pos 0
  unfolding whole_seconds
  subsecond_zero sh d exact h =
      let q : d / 1000000000 ≡ 0 = omega arith in
      let r : d % 1000000000 ≡ d = omega arith in rw (q, r, exact d h) refl

  -- A --max-idle of less than a second reaps sessions that are not idle: whatever duration from 0 to
  -- 999,999,999 nanoseconds the flags of `ctl gc` give, where a fraction below a second is not rounded up
  -- to a second, the message sent makes the daemon kill every registered session of the connection's
  -- namespace whose last activity is not in the future, as --max-idle 0 does.
  pub gc_subsecond :
      (sh : Shell) (args : List Bytes) (d : ℕ) (encode : Bytes → Bytes) (space : Bytes)
      (w : World H) (o : Outside) (c q : ℕ)
      → sh.gc_parse args ≡ inr (pos d)
      → d < 1000000000
      → ((n : ℕ) → n < 1000000000 → sh.rounds_up 0 n ≡ false)
      → AllCoherent H w
      → Listed H q (ns_of space) false w.sessions
      → (w.sess_at q).core.last_activity ≤ℤ o.now
      → let m = gc_message space (pos 0) [] in
        (read_command sh gc args ≡ inr (collecting (pos d)))
        × (first_message sh encode space false (collecting (pos d)) ≡ some m)
        × (((dispatch H w o c (to_message m)).sess_at q).core.alive ≡ false)
  unfolding read_command first_message
  gc_subsecond sh args d encode space w o c q parsed short exact v listed past = ground (
    arith,
    subsecond_zero sh d exact short,
    dispatch-gc w o c space,
    collect-now w o space q v listed past,
  )
