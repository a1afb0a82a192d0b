-- ===== src/Cli/RunTests.antt =====
-- Runs of the loops of `ctl attach` and `ctl expect` and of `runCtl`, and the theorems at concrete inputs.
use pupptyeer.Prelude.{
  ℕ, ◌+◌, ◌≤◌, ◌≡◌, ◌≢◌, refl, true, false, inl, inr, none, some, Bytes, List, [], ◌∷◌, ◌++◌, map,
  codes, arith, text_eq, length, copy,
}
use pupptyeer.Prelude.Int.{pos}
use pupptyeer.Protocol
use pupptyeer.Ring
use pupptyeer.World.{ns_of}
use pupptyeer.World.Sample.{host, world, world-IsCoherent}
use pupptyeer.Attach
use pupptyeer.Daemon.{Outside}
use pupptyeer.Dispatch.{dispatch}
use pupptyeer.Core.{exit_error}
use pupptyeer.Client.Wire.{Message, blank}
use pupptyeer.Client.Verbs.{gc_message, ns}
use pupptyeer.Client.Wire.Parity.{from_message, to_message}
use pupptyeer.Cli.Keys.{default_config}
use pupptyeer.Cli.Matcher.{feed, feed_bytes}
use pupptyeer.Cli.Matcher.Pair.{two_keys}
use pupptyeer.Cli.Expect.{first_match, index_of, scan, scan_loop}
use pupptyeer.Cli.AttachLoop.{
  Terminal, Happening, Action, read, detached, winch, resize, write_pane, note_detached, forward,
  happen, votes_of, interact, message, stdout, watch, event_of, is_addressed, message_bytes,
}
use pupptyeer.Cli.AttachLoop.Shown.{printed, attach_shows}
use pupptyeer.Cli.AttachLoop.Typed.{typed, written, interact-written}
use pupptyeer.Cli.ExpectLoop.{
  Triggers, Line, goes_on, Occurrence, idle_alarm, arm_idle, expecting_from, expect, expect_round,
  expect_event, scan_on,
}
use pupptyeer.Cli.ExpectLoop
use pupptyeer.Cli.ExpectLoop.Live.{arrivals, expect_skips_replay}
use pupptyeer.Cli.ExpectLoop.Quiet.{since, idle_quiet}
use pupptyeer.Cli.Ctl.{Shell, Chosen, collecting, gc, read_command, first_message}
use pupptyeer.Cli.Ctl.Flags.{named, Part, flag, word}
use pupptyeer.Cli.Ctl.Subsecond.{gc_subsecond}

-- Ctrl-B, d: an `x`, the prefix, a resize, the key, and then the loop's end.
abbrev terminal : Terminal
terminal = record { matcher = two_keys 2 b'd' 0; reading = true; looping = true }

abbrev session_life : List Happening
session_life =
    read (b'x' ∷ 2 ∷ []) false false
    ∷ winch (some (pos 80, pos 24))
    ∷ read (b'd' ∷ b'y' ∷ []) false false
    ∷ detached
    ∷ []

abbrev left_terminal : Terminal
left_terminal = record { matcher = two_keys 2 b'd' 0; reading = false; looping = false }

abbrev done : List Action
done = write_pane (b'x' ∷ []) ∷ resize (pos 80) (pos 24) ∷ note_detached ∷ []

interact-life : interact (λ bs. bs) [] [] terminal session_life ≡ some (left_terminal, done)
unfolding interact happen forward votes_of feed feed_bytes
interact-life = refl

interact-written_example : written done ≡ (feed terminal.matcher (typed session_life)).out
interact-written_example =
    interact-written (λ bs. bs) [] [] terminal left_terminal session_life done refl interact-life

scrollback_small : length (Ring.snapshot (world.sess_at 0).core.ring) ≤ 262144
unfolding Ring.snapshot copy
scrollback_small = omega arith

attach_shows_example :
    let s = world.sess_at 0 in
    (fresh : List Protocol.Message) × (pieces : List Bytes) × (((Attach.attach host world 0 0
          (pos 80)
          (pos 24)).conn_at
        0).out
      ≡ (world.conn_at 0).out ++ fresh)
    × (watch (λ bs. bs) s.namespace s.id (map (λ m. message (from_message m)) fresh)
        ≡ (map stdout pieces, none))
    × (printed (map stdout pieces) ≡ Ring.snapshot s.core.ring)
attach_shows_example =
    attach_shows host (λ bs. bs) (λ p. refl) refl world 0 0 (pos 80) (pos 24) refl (omega arith)
      scrollback_small

abbrev triggers : Triggers
triggers = record {
  regex = none;
  substr = codes "$";
  idle = 5;
  on_exit = false;
  timeout = 0;
  follow = false;
  strip = none;
  include_scrollback = false;
}

none_matches : first_match [] triggers.regex triggers.substr ≡ none
unfolding first_match index_of
none_matches = refl

expect_skips_replay_example :
    let s = world.sess_at 0 in
    (fresh : List Protocol.Message) × (last : ℕ) × (((Attach.attach host world 0 0
          (pos 80)
          (pos 24)).conn_at
        0).out
      ≡ (world.conn_at 0).out ++ fresh)
    × (expect
          (λ bs. bs)
          s.namespace
          s.id
          triggers
          (expecting_from triggers 7)
          (arrivals (λ n. n + 8) 0 fresh)
        ≡ some (
          [],
          goes_on
              (arm_idle triggers (last + 8) (record (expecting_from triggers 7) { armed = true })),
        ))
    × ((expecting_from triggers 7).window ≡ record { buf = []; base = 0 })
expect_skips_replay_example =
    expect_skips_replay host (λ bs. bs) triggers world 0 0 (pos 80) (pos 24) 7 (λ n. n + 8) refl
      none_matches refl (omega arith) scrollback_small

-- Output in another session's name does not restart the timer.
abbrev other_output : Message
other_output = record blank { type = codes "output"; namespace = codes "n"; session = codes "t" }

abbrev own_output : Message
own_output = record other_output { session = codes "s" }

abbrev replay_end : Message
replay_end = record own_output { type = codes "scrollback_end" }

abbrev quiet_life : List (ℕ × Occurrence)
quiet_life =
    (1, ExpectLoop.arrival replay_end)
    ∷ (3, ExpectLoop.arrival own_output)
    ∷ (6, ExpectLoop.arrival other_output)
    ∷ []

abbrev waiting : ExpectLoop.Expecting
waiting = record {
  armed = true;
  window = record { buf = []; base = 0 };
  alarm = some 8;
  deadline = none;
}

expect-life :
    expect (λ bs. bs) (codes "n") (codes "s") triggers (expecting_from triggers 0) quiet_life
    ≡ some ([], goes_on waiting)
unfolding expect expect_round expect_event scan_on arm_idle expecting_from is_addressed event_of
    message_bytes text_eq scan scan_loop first_match index_of
expect-life = refl

alarm-rings : expect_round (λ bs. bs) (codes "n") (codes "s") triggers 9 waiting idle_alarm ≢ none
unfolding expect_round
alarm-rings = λ e. ground (arith, e)

idle_quiet_example :
    (since (λ bs. bs) (codes "n") (codes "s") triggers 0 quiet_life + 5 ≤ 9) × (1 ≤ triggers.idle)
idle_quiet_example =
    idle_quiet (λ bs. bs) (codes "n") (codes "s") triggers 0 9 waiting quiet_life [] expect-life
      alarm-rings

abbrev shell : Shell
shell = record {
  system = record {
    absolute = λ p. inr p;
    read_file = λ p. inl (codes "no such file");
    environ = [];
  };
  config = inr default_config;
  interactive = false;
  size = (pos 80, pos 24);
  gc_parse = λ args. inr (pos 500000000);
  rounds_up = λ s n. false;
}

abbrev outside : Outside
outside = record {
  now = pos 10000000000;
  spawn = λ c cols rows. none;
  fresh_id = codes "f";
  reaped = exit_error (pos 1);
  locked = true;
}

gc_subsecond_example :
    let m = gc_message [] (pos 0) [] in
    (read_command shell gc (codes "--max-idle" ∷ codes "500ms" ∷ [])
      ≡ inr (collecting (pos 500000000)))
    × (first_message shell (λ bs. bs) [] false (collecting (pos 500000000)) ≡ some m)
    × (((dispatch host world outside 0 (to_message m)).sess_at 0).core.alive ≡ false)
unfolding text_eq ns_of
gc_subsecond_example =
    gc_subsecond host shell (codes "--max-idle" ∷ codes "500ms" ∷ []) 500000000 (λ bs. bs) [] world
      outside 0 0 refl (omega arith) (λ n h. refl) world-IsCoherent (inl (refl, inr refl))
      (omega arith)

-- `ctl -n x gc --max-idle 500ms --namespace y`.
abbrev gc_behind : List Part
gc_behind = word (codes "--max-idle") ∷ word (codes "500ms") ∷ flag (named true (codes "y")) ∷ []

abbrev gc_chosen : Chosen
gc_chosen = record {
  ns = codes "y";
  all = false;
  command = codes "gc";
  args = codes "--max-idle" ∷ codes "500ms" ∷ [];
}

abbrev gc_y : Message
gc_y = record blank { type = codes "gc"; namespace = codes "y"; max_idle_seconds = pos 0 }
