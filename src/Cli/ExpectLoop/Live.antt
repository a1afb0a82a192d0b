-- ===== src/Cli/ExpectLoop/Live.antt =====
-- cmd/pupptyeer/ctl.go and internal/server/session.go together: `ctl expect` and the replay that the
-- daemon's `attach` queues.
use pupptyeer.Prelude.{
  ℕ, suc, ◌+◌, ◌≤◌, ◌≡◌, refl, ap, ◌∙◌, Bool, true, false, Option, none, some, Bytes, List, [], ◌∷◌,
  ◌++◌, map, length, append_assoc, arith,
}
use pupptyeer.Prelude.Int.{ℤ}
use pupptyeer.Protocol
use pupptyeer.Protocol.{type_output, type_scrollback_end}
use pupptyeer.World.{Host, World, Sess}
use pupptyeer.Ring
use pupptyeer.Attach
use pupptyeer.Attach.{event}
use pupptyeer.Attach.Replay.{frame, attach_replays}
use pupptyeer.Client.Wire
use pupptyeer.Client.Wire.Parity.{from_message}
use pupptyeer.Cli.Expect.{Window, finished, first_match, scan}
use pupptyeer.Cli.Expect.Rounds.{scan-unarmed, scan-empty}
use pupptyeer.Cli.AttachLoop.{output}
use pupptyeer.Cli.AttachLoop.Events.{addressed, event_of-output, event_of-end}
use pupptyeer.Cli.ExpectLoop.{
  Triggers, Line, Expecting, Outcome, goes_on, Occurrence, arrival, arm_idle, began, expecting_from,
  scanned, scan_on, expect_event, expect_round, and_print, expect,
}

-- The messages, arriving at the times that the clock shows from tick `n` on.
unfoldable pub arrivals : (ℕ → ℕ) → ℕ → List Protocol.Message → List (ℕ × Occurrence)
arrivals clock n [] = []
arrivals clock n (m ∷ ms) = (clock n, arrival (from_message m)) ∷ arrivals clock (suc n) ms

arrivals-append :
    (clock : ℕ → ℕ) (n : ℕ) (ms rest : List Protocol.Message)
    → arrivals clock n (ms ++ rest) ≡ arrivals clock n ms ++ arrivals clock (n + length ms) rest
unfolding arrivals
arrivals-append clock n [] rest = ap (λ k. arrivals clock k rest) (omega arith)
arrivals-append clock n (m ∷ ms) rest = ground (arith, arrivals-append clock (suc n) ms rest)

module _ (H : Host) (bytes_of : Bytes → Bytes) (f : Triggers) where
  scan_on-unarmed : (x : Expecting) → x.armed ≡ false → scan_on f x ≡ ([], goes_on x)
  unfolding scan_on
  scan_on-unarmed x e = rw (e, scan-unarmed f.regex f.substr f.follow x.window) refl

  arm_idle-unarmed : (now : ℕ) (x : Expecting) → x.armed ≡ false → arm_idle f now x ≡ x
  unfolding arm_idle
  arm_idle-unarmed now x e = ground (arith, e)

  expect_event-output :
      (ns session : Bytes) (now : ℕ) (x : Expecting) (m : Wire.Message)
      → x.armed ≡ false
      → expect_event bytes_of ns session f output now x m ≡ ([], goes_on x)
  unfolding expect_event
  expect_event-output ns session now x m e =
      ground (arith, arm_idle-unarmed now x e, scan_on-unarmed x e)

  expect_round-frame :
      (s : Sess H) (now : ℕ) (x : Expecting) (p : Bytes)
      → x.armed ≡ false
      → expect_round bytes_of s.namespace s.id f now x (arrival (from_message (frame H s p)))
        ≡ some ([], goes_on x)
  unfolding expect_round from_message
  expect_round-frame s now x p e = ground (
    arith,
    event_of-output,
    expect_event-output s.namespace s.id now x (from_message (frame H s p)) e,
  )

  and_print-none :
      (ns session : Bytes) (r : Option (List Line × Outcome))
      → and_print bytes_of ns session f [] r ≡ r
  and_print-none ns session none = refl
  and_print-none ns session (some (more, o)) = refl

  -- A round that prints nothing and goes on.
  expect-cons :
      (ns session : Bytes) (now : ℕ) (x y : Expecting) (o : Occurrence) (os : List (ℕ × Occurrence))
      → expect_round bytes_of ns session f now x o ≡ some ([], goes_on y)
      → expect bytes_of ns session f x ((now, o) ∷ os) ≡ expect bytes_of ns session f y os
  unfolding expect
  expect-cons ns session now x y o os e = ground arith

  expect-frames :
      (s : Sess H) (clock : ℕ → ℕ) (n : ℕ) (x : Expecting) (ps : List Bytes)
      (rest : List (ℕ × Occurrence))
      → x.armed ≡ false
      → expect bytes_of s.namespace s.id f x (arrivals clock n (map (frame H s) ps) ++ rest)
        ≡ expect bytes_of s.namespace s.id f x rest
  unfolding arrivals
  expect-frames s clock n x [] rest e = refl
  expect-frames s clock n x (p ∷ ps) rest e =
      expect-cons s.namespace s.id (clock n) x x (arrival (from_message (frame H s p)))
        (arrivals clock (suc n) (map (frame H s) ps) ++ rest) (expect_round-frame s (clock n) x p e)
      ∙ expect-frames s clock (suc n) x ps rest e

  arm_idle-keeps :
      (now : ℕ) (x : Expecting)
      → ((arm_idle f now x).window ≡ x.window) × ((arm_idle f now x).armed ≡ x.armed)
  unfolding arm_idle
  arm_idle-keeps now x = ground arith

  expecting_from-keeps :
      (now : ℕ)
      → ((expecting_from f now).window ≡ record { buf = []; base = 0 })
        × ((expecting_from f now).armed ≡ f.include_scrollback)
  unfolding expecting_from
  expecting_from-keeps now = arm_idle-keeps now (began f now)

  scan_on-empty :
      (x : Expecting)
      → x.armed ≡ true
      → x.window ≡ record { buf = []; base = 0 }
      → first_match [] f.regex f.substr ≡ none
      → scan_on f x ≡ ([], goes_on x)
  unfolding scan_on
  scan_on-empty x armed empty e = ap (scanned x) (scan_window x.armed x.window armed empty)
    where
      scan_window :
          (b : Bool) (v : Window)
          → b ≡ true
          → v ≡ record { buf = []; base = 0 }
          → scan f.regex f.substr f.follow b v ≡ some (finished v [] false)
      scan_window b v h k = rw (h, k) (scan-empty f.regex f.substr f.follow 0 e)

  expect_round-end :
      (s : Sess H) (now : ℕ) (x : Expecting)
      → x.window ≡ record { buf = []; base = 0 }
      → first_match [] f.regex f.substr ≡ none
      → expect_round bytes_of s.namespace s.id f now x
          (arrival (from_message (event H s type_scrollback_end)))
        ≡ some ([], goes_on (arm_idle f now (record x { armed = true })))
  unfolding expect_round from_message expect_event
  expect_round-end s now x empty e =
      let live = record x { armed = true } in
      let keeps = arm_idle-keeps now live in
      rw (addressed H s (event H s type_scrollback_end) refl refl, event_of-end, expect_round)
        (ap (λ o. some o) (scan_on-empty (arm_idle f now live) keeps.1 (keeps.0 ∙ empty) e))

  -- Without --include-scrollback, `ctl expect` is not fired by old output: for an open connection with
  -- room for nine messages and a session with at most 256 KiB of scrollback, its loop takes the messages
  -- that `attach` adds to the queue, whenever they arrive, without printing a line or ending, and then
  -- stands with an empty window at offset 0, ready for live output, its idle timer started anew by the
  -- last of them; on the condition that no trigger matches the empty text.
  pub expect_skips_replay :
      (w : World H) (r c : ℕ) (cols rows : ℤ) (t : ℕ) (clock : ℕ → ℕ)
      → f.include_scrollback ≡ false
      → first_match [] f.regex f.substr ≡ none
      → (w.conn_at c).done ≡ false
      → length (w.conn_at c).out ≤ 247
      → length (Ring.snapshot (w.sess_at r).core.ring) ≤ 262144
      → let s = w.sess_at r in
        (fresh : List Protocol.Message) × (last : ℕ) × (((Attach.attach H w r c cols rows).conn_at
            c).out
          ≡ (w.conn_at c).out ++ fresh)
        × (expect bytes_of s.namespace s.id f (expecting_from f t) (arrivals clock 0 fresh)
            ≡ some (
              [],
              goes_on (arm_idle f (clock last) (record (expecting_from f t) { armed = true })),
            ))
        × ((expecting_from f t).window ≡ record { buf = []; base = 0 })
  unfolding expect arrivals
  expect_skips_replay w r c cols rows t clock off e up room small =
      let s = w.sess_at r in
      let x = expecting_from f t in
      let keeps = expecting_from-keeps t in
      let (pieces, queued, _, _, _, _, _) = attach_replays H w r c cols rows up room small in
      let frames = map (frame H s) pieces in
      let end = event H s type_scrollback_end ∷ [] in
      let last = 0 + length frames in
      (
        frames ++ end,
        last,
        queued ∙ append_assoc (w.conn_at c).out frames end,
        ap (expect bytes_of s.namespace s.id f x) (arrivals-append clock 0 frames end)
            ∙ expect-frames s clock 0 x pieces (arrivals clock last end) (keeps.1 ∙ off)
            ∙ expect-cons s.namespace s.id (clock last) x
                (arm_idle f (clock last) (record x { armed = true }))
                (arrival (from_message (event H s type_scrollback_end))) []
                (expect_round-end s (clock last) x keeps.0 e),
        keeps.0,
      )
