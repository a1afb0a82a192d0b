-- ===== src/Core/Start.antt =====
-- pkg/ptysession/session.go: `Start` and the state that a new session has.
use pupptyeer.Prelude.{
  ℕ, ◌<◌, ◌≡◌, ◌⊎◌, inl, inr, true, false, Option, none, some, Bytes, arith, Bool-cases,
  Option-cases, if◌then◌else◌,
}
use pupptyeer.Prelude.Int.{ℤ, pos, pos_part, to_uint16}
use pupptyeer.Ring
use pupptyeer.Scorc
use pupptyeer.Core.Terminal.{Emulator}
use pupptyeer.Core.Resize.{InSync, IsPositive}
use pupptyeer.Core.Lifecycle.{IsCoherent}
use pupptyeer.Core.{
  Session, Config, Command, command_required, pty_start, to_command, or_default, default_ring_size,
  is_empty, start, fresh_session,
}

or_default-IsPositive : (n d : ℤ) → IsPositive d → IsPositive (or_default n d)
or_default-IsPositive n d h = ground arith

abbrev pub start_cols : Config → ℤ
start_cols cfg = or_default cfg.cols (pos 80)

abbrev pub start_rows : Config → ℤ
start_rows cfg = or_default cfg.rows (pos 24)

abbrev pub start_ring_size : Config → ℕ
start_ring_size cfg = pos_part (or_default cfg.ring_size (pos default_ring_size))

module _ (E : Emulator) (cfg : Config) where
  -- What holds of a session that `Start` returns.
  pub record IsFresh (s : Session E) : Type 0 where
    pub ring_empty : s.ring ≡ Ring.new_ring_buffer (start_ring_size cfg)
    pub ring_positive : 0 < start_ring_size cfg
    pub emulator :
        s.term ≡ (if cfg.raw then none else some (E.new_emulator (start_cols cfg) (start_rows cfg)))
    pub rewriter : s.scorc ≡ Scorc.new_rewriter
    pub running : (s.alive ≡ true) × (s.killed ≡ false) × (s.finished ≡ false)
    pub coherent : IsCoherent E s
    pub in_sync : InSync E s (to_uint16 (start_cols cfg), to_uint16 (start_rows cfg))

  fresh_session-IsFresh : (now : ℤ) → IsFresh (fresh_session E cfg now)
  unfolding fresh_session
  fresh_session-IsFresh now = ground arith

  -- `Start` fails without a command, fails with the PTY's error, and otherwise returns a running
  -- session with an empty ring of positive size, a fresh emulator unless it is raw, and the PTY told
  -- the positive size that the session has, narrowed to 16 bits.
  pub start_cases :
      (spawn : Command → ℕ → ℕ → Option Bytes) (now : ℤ)
      → let cols = to_uint16 (start_cols cfg) in
        let rows = to_uint16 (start_rows cfg) in
        ((is_empty cfg.command ≡ true) × (start E cfg spawn now ≡ inl command_required))
        ⊎ (((e : Bytes) × (spawn (to_command cfg) cols rows ≡ some e)
              × (start E cfg spawn now ≡ inl (pty_start e)))
            ⊎ ((s : Session E) × (start E cfg spawn now ≡ inr s) × IsFresh s))
  unfolding start
  start_cases spawn now = elim (Bool-cases (is_empty cfg.command)) [
    | inl e ↦ inl (e, rw (e, start))
    | inr e ↦
        elim (Option-cases
          (spawn (to_command cfg) (to_uint16 (start_cols cfg)) (to_uint16 (start_rows cfg)))) [
            | inl f ↦ inr (
                inr (
                  fresh_session E cfg now,
                  rw (e, start) (rw (f, start)),
                  fresh_session-IsFresh now,
                ))
            | inr (x, f) ↦ inr (inl (x, f, rw (e, start) (rw (f, start))))
          ]
  ]
