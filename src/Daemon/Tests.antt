-- ===== src/Daemon/Tests.antt =====
-- The theorems on `gc` and `shutdown` at concrete inputs.
use pupptyeer.Prelude.{◌≡◌, ◌⊎◌, refl, true, false, none, some, [], codes, arith, text_eq}
use pupptyeer.Prelude.Int.{pos, negsuc, ◌+ℤ◌, ◌≤ℤ◌}
use pupptyeer.Prelude.Assoc.{lookup, ℕ_eq}
use pupptyeer.Core.{exit_error}
use pupptyeer.World.{get_session, ns_of, SessKey_eq}
use pupptyeer.World.Sample.{host, world, pane_key, world-IsCoherent}
use pupptyeer.Attach
use pupptyeer.Daemon.{Outside, gc_cutoff, collect, shutdown}
use pupptyeer.Daemon.Collect.{IsVictim, gc_cutoff_wraps, collect_cases}
use pupptyeer.Daemon.Shutdown.{shutdown_detaches, attach_stale}

abbrev outside : Outside
outside = record {
  now = pos 10000000000;
  spawn = λ c cols rows. none;
  fresh_id = codes "f";
  reaped = exit_error (negsuc 0);
  locked = true;
}

gc_cutoff_wraps_example : pos 5 +ℤ pos 1 ≤ℤ gc_cutoff (pos 5) (pos 10000000000)
gc_cutoff_wraps_example = gc_cutoff_wraps (pos 5) 10000000000 (omega arith) (omega arith)

collect_cases_example :
    let w' = (collect host world outside (pos 1) [] false).0 in
    (IsVictim host world outside (pos 1) [] false 0 × ((w'.sess_at 0).core.alive ≡ false))
    ⊎ ((¬ IsVictim host world outside (pos 1) [] false 0) × (w'.sess_at 0 ≡ world.sess_at 0))
collect_cases_example = collect_cases host world outside (pos 1) [] false 0 world-IsCoherent

pane-registered : get_session host world pane_key.ns pane_key.id ≡ some 0
unfolding get_session lookup text_eq ns_of
pane-registered = refl

shutdown_detaches_example : lookup 0 ((shutdown host world 0).sess_at 0).attachments ≡ none
unfolding lookup text_eq
shutdown_detaches_example = shutdown_detaches host world 0 0 pane_key refl refl pane-registered

attach_stale_example :
    let w' = Attach.attach host world 0 1 (pos 20) (pos 5) in
    (lookup 1 (w'.sess_at 0).attachments ≡ some (record { cols = pos 20; rows = pos 5 }))
    × (shutdown host w' 1 ≡ w')
attach_stale_example = attach_stale host world 0 1 (pos 20) (pos 5) refl
