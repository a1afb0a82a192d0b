-- ===== src/Attach/Kill.antt =====
-- internal/server/session.go: `kill`, with the `onExit` that it runs.
use pupptyeer.Prelude.{
  ℕ, ◌≡◌, ◌≢◌, ◌⊎◌, inl, inr, refl, sym, ap, subst, ◌∙◌, true, false, Option, none, some, [], arith,
}
use pupptyeer.Prelude.Int.{ℤ}
use pupptyeer.Prelude.Assoc.{lookup, update_same, update_other}
use pupptyeer.Core
use pupptyeer.Core.{WaitResult, wait_code}
use pupptyeer.Core.Lifecycle.{IsCoherent, kill-kill, kill_code}
use pupptyeer.World.{Host, World, Sess, SessKey_eq, key_of, set_core}
use pupptyeer.Attach.Exit.{on_exit-sess, on_exit-sessions}
use pupptyeer.Attach.{kill, exit_hook}

module _ (H : Host) where
  exit_hook-core :
      (w : World H) (r : ℕ) (code : Option ℤ)
      → ((exit_hook H w r code).sess_at r).core ≡ (w.sess_at r).core
  exit_hook-core w r none = refl
  exit_hook-core w r (some code) = ground (arith, on_exit-sess H w r code)

  exit_hook-attachments :
      (w : World H) (r : ℕ) (code : ℤ) → ((exit_hook H w r (some code)).sess_at r).attachments ≡ []
  exit_hook-attachments w r code = ground (arith, on_exit-sess H w r code)

  pub kill-core :
      (w : World H) (r : ℕ) (wait : WaitResult)
      → ((kill H w r wait).sess_at r).core ≡ (Core.kill H.emulator (w.sess_at r).core wait).0
  unfolding kill
  kill-core w r wait =
      let (core, code) = Core.kill H.emulator (w.sess_at r).core wait in
      exit_hook-core (set_core H w r core) r code
      ∙ ap (λ (s : Sess H). s.core) (update_same w.sess_at r (record (w.sess_at r) { core = core }))

  -- A killed session is dead and has exited, and nobody is attached to it, unless it had ended before
  -- the kill.
  pub kill-sess :
      (w : World H) (r : ℕ) (wait : WaitResult)
      → IsCoherent H.emulator (w.sess_at r).core
      → let s = (kill H w r wait).sess_at r in
        (s.core.alive ≡ false)
        × (s.core.exited ≡ true)
        × ((s.attachments ≡ []) ⊎ ((w.sess_at r).core.finished ≡ true))
  unfolding kill
  kill-sess w r wait v =
      let s = (w.sess_at r).core in
      let (core, code) = Core.kill H.emulator s wait in
      let ended = kill-kill H.emulator s wait wait v in
      let same = kill-core w r wait in
      (
        ap (λ (t : Core.Session H.emulator). t.alive) same ∙ ended.0,
        ap (λ (t : Core.Session H.emulator). t.exited) same ∙ ended.1,
        elim (kill_code H.emulator s wait v) [
          | inl (e, before) ↦ inr before
          | inr (e, before) ↦ inl (
              ap (λ c. ((exit_hook H (set_core H w r core) r c).sess_at r).attachments) e
              ∙ exit_hook-attachments (set_core H w r core) r (wait_code wait))
        ],
      )

  exit_hook-other :
      (w : World H) (r d : ℕ) (code : Option ℤ)
      → r ≢ d
      → (exit_hook H w r code).sess_at d ≡ w.sess_at d
  exit_hook-other w r d none n = refl
  exit_hook-other w r d (some code) n = ground (arith, on_exit-sess H w r code)

  -- A kill changes no other session.
  pub kill-other :
      (w : World H) (r d : ℕ) (wait : WaitResult)
      → r ≢ d
      → (kill H w r wait).sess_at d ≡ w.sess_at d
  unfolding kill
  kill-other w r d wait n =
      let (core, code) = Core.kill H.emulator (w.sess_at r).core wait in
      exit_hook-other (set_core H w r core) r d code n
      ∙ update_other w.sess_at r d (record (w.sess_at r) { core = core }) n

  exit_hook-sessions :
      (w : World H) (r : ℕ) (code : Option ℤ)
      → lookup (key_of H (w.sess_at r)) w.sessions ≢ some r
      → (exit_hook H w r code).sessions ≡ w.sessions
  exit_hook-sessions w r none n = refl
  exit_hook-sessions w r (some code) n = elim (on_exit-sessions H w r code) [
    | inl (e, _) ↦ absurd (n e)
    | inr (_, e) ↦ e
  ]

  -- The end of a session that its id is not mapped to leaves the registry alone.
  pub kill-sessions_kept :
      (w : World H) (r : ℕ) (wait : WaitResult)
      → lookup (key_of H (w.sess_at r)) w.sessions ≢ some r
      → (kill H w r wait).sessions ≡ w.sessions
  unfolding kill
  kill-sessions_kept w r wait n =
      let (core, code) = Core.kill H.emulator (w.sess_at r).core wait in
      let s' = record (w.sess_at r) { core = core } in
      exit_hook-sessions (set_core H w r core) r code (
        subst (λ (s : Sess H). lookup (key_of H s) w.sessions ≢ some r)
          (sym (update_same w.sess_at r s')) n)

  ended_code :
      (w : World H) (r : ℕ) (wait : WaitResult)
      → (w.sess_at r).core.finished ≡ true
      → (Core.kill H.emulator (w.sess_at r).core wait).1 ≡ none
  unfolding Core.kill Core.kill_begin Core.finish Core.close_term
  ended_code w r wait e = ground arith

  -- A session that has ended does not leave the registry by a kill: its `onExit` has run.
  pub kill-sessions_ended :
      (w : World H) (r : ℕ) (wait : WaitResult)
      → (w.sess_at r).core.finished ≡ true
      → (kill H w r wait).sessions ≡ w.sessions
  unfolding kill
  kill-sessions_ended w r wait e =
      let (core, code) = Core.kill H.emulator (w.sess_at r).core wait in
      ap (λ (c : Option ℤ). (exit_hook H (set_core H w r core) r c).sessions)
        (ended_code w r wait e)
