-- ===== src/Attach/Tests.antt =====
-- The theorems on the daemon's sessions at concrete inputs.
use pupptyeer.Prelude.{
  ℕ, ◌≤◌, ◌≡◌, ◌⊎◌, inl, refl, true, false, none, some, Bytes, List, [], ◌∷◌, ◌++◌, arith, concat,
  map, length, if◌then◌else◌, copy,
}
use pupptyeer.Prelude.Int.{pos, ◌≤ℤ◌}
use pupptyeer.Prelude.Assoc.{lookup}
use pupptyeer.Protocol.{type_exit, type_session_closed, type_scrollback_end}
use pupptyeer.Ring
use pupptyeer.World.{Winsize, SessKey_eq, key_of}
use pupptyeer.World.Sample.{host, world}
use pupptyeer.Attach.{votes, vote, recompute_size, attach, on_exit, event, pty_chunk}
use pupptyeer.Attach.Size.{IsLeast, NonePositive, asked_cols, asked_rows, recompute_size_cases}
use pupptyeer.Attach.Replay.{Fits, frame, attach_replays}
use pupptyeer.Attach.Exit.{on_exit_tells}

-- Two clients with a size of their own, and one without a choice of columns.
abbrev clients : List (ℕ × Winsize)
clients =
    (0, record { cols = pos 80; rows = pos 50 })
    ∷ (1, record { cols = pos 0; rows = pos 24 })
    ∷ (2, record { cols = pos 120; rows = pos 30 })
    ∷ []

votes-clients : votes (pos 0) (pos 0) clients ≡ (pos 80, pos 24)
unfolding votes vote
votes-clients = refl

recompute_size_cases_example :
    let s = world.sess_at 0 in
    let (cols, rows) = votes (pos 0) (pos 0) s.attachments in
    let s' = recompute_size host s in
    ((s'.core.eff_cols ≡ cols)
      × (s'.core.eff_rows ≡ rows)
      × (pos 1 ≤ℤ cols)
      × (pos 1 ≤ℤ rows)
      × IsLeast cols (asked_cols s.attachments)
      × IsLeast rows (asked_rows s.attachments))
    ⊎ ((NonePositive (asked_cols s.attachments) ⊎ NonePositive (asked_rows s.attachments))
        × (s' ≡ s))
recompute_size_cases_example = recompute_size_cases host (world.sess_at 0)

scrollback_small : length (Ring.snapshot (world.sess_at 0).core.ring) ≤ 262144
unfolding Ring.snapshot copy
scrollback_small = omega arith

attach_replays_example :
    let s = world.sess_at 0 in
    let x = (attach host world 0 0 (pos 80) (pos 24)).conn_at 0 in
    (pieces : List Bytes) × (x.out
      ≡ ((world.conn_at 0).out ++ map (frame host s) pieces)
        ++ event host s type_scrollback_end ∷ [])
    × (concat pieces ≡ Ring.snapshot s.core.ring)
    × Fits pty_chunk pieces
    × (x.done ≡ false)
    × (x.dropping ≡ (world.conn_at 0).dropping)
    × (lookup (key_of host s) x.attached ≡ some true)
attach_replays_example =
    attach_replays host world 0 0 (pos 80) (pos 24) refl (omega arith) scrollback_small

on_exit_tells_example :
    let s = world.sess_at 0 in
    let x = (on_exit host world 0 (pos 3)).conn_at 0 in
    let closed = event host s type_session_closed in
    let exit = record (event host s type_exit) { exit_code = some (pos 3) } in
    (x.out ≡ (world.conn_at 0).out ++ (if s.core.killed then closed ∷ [] else exit ∷ closed ∷ []))
    × (lookup (key_of host s) x.attached ≡ none)
    × (x.done ≡ false)
    × (x.dropping ≡ (world.conn_at 0).dropping)
on_exit_tells_example = on_exit_tells host world 0 (pos 3) 0 (inl (refl, tt)) refl (omega arith)
