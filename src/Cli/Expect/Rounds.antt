-- ===== src/Cli/Expect/Rounds.antt =====
-- cmd/pupptyeer/ctl.go: the rounds of `scan` in `ctl expect`.
use pupptyeer.Prelude.{
  ℕ, zero, suc, ◌+◌, ◌<◌, ◌≡◌, inl, inr, refl, Bool, true, false, Option, none, some, Bytes, [],
  ◌∷◌, length, drop, ltb, length-drop, arith, Bool-cases, Option-cases,
}
use pupptyeer.Cli.Expect.{
  Match, Regex, Window, Scanned, finished, panicked, report, first_match, end_of, trimmed,
  scan_loop, scan,
}

cut_after : Window → Match → Window
cut_after w m = record { buf = drop (end_of m) w.buf; base = w.base + end_of m }

cut-shorter :
    (w : Window) (m : Match)
    → ltb (length w.buf) (end_of m) ≡ false
    → length (cut_after w m).buf < length w.buf
unfolding cut_after
cut-shorter w m h = ground (arith, length-drop (end_of m) w.buf)

abbrev pub Done : Option Scanned → Type 0
Done r = (s : Scanned) × (r ≡ some s)

scan_loop-Done :
    (re : Option Regex) (pat : Bytes) (follow : Bool) (fuel : ℕ) (w : Window)
    → length w.buf < fuel
    → Done (scan_loop re pat follow fuel w)
unfolding scan_loop cut_after
scan_loop-Done re pat follow zero w h = absurd (omega arith)
scan_loop-Done re pat follow (suc fuel) w h = elim (Option-cases (first_match w.buf re pat)) [
  | inl e ↦ rw (e, scan_loop) (finished (trimmed w) [] false, refl)
  | inr (m, e) ↦ elim (Bool-cases (ltb (length w.buf) (end_of m))) [
    | inl past ↦
        rw (e, scan_loop) (rw (past, scan_loop) (panicked ((m.kind, w.base + m.start) ∷ []), refl))
    | inr inside ↦
        let (r, f) =
          scan_loop-Done re pat follow fuel (cut_after w m)
            (omega (arith, cut-shorter w m inside)) in
        elim (Bool-cases follow) [
          | inl on ↦
              rw (e, scan_loop)
                (rw (inside, on, scan_loop) (rw f (report (m.kind, w.base + m.start) r, refl)))
          | inr off ↦
              rw (e, scan_loop)
                (rw (inside, off, scan_loop)
                  (finished (cut_after w m) ((m.kind, w.base + m.start) ∷ []) true, refl))
        ]
  ]
]

-- A scan ends: it reports its matches in at most one round for each byte of the window and one more.
pub scan-Done :
    (re : Option Regex) (pat : Bytes) (follow armed : Bool) (w : Window)
    → Done (scan re pat follow armed w)
unfolding scan
scan-Done re pat follow true w = scan_loop-Done re pat follow (suc (length w.buf)) w (omega arith)
scan-Done re pat follow false w = (finished w [] false, refl)

-- Before the live output nothing is scanned.
pub scan-unarmed :
    (re : Option Regex) (pat : Bytes) (follow : Bool) (w : Window)
    → scan re pat follow false w ≡ some (finished w [] false)
unfolding scan
scan-unarmed re pat follow w = refl

-- An empty window without a match in it stays as it is.
pub scan-empty :
    (re : Option Regex) (pat : Bytes) (follow : Bool) (base : ℕ)
    → first_match [] re pat ≡ none
    → let w : Window = record { buf = []; base = base } in
      scan re pat follow true w ≡ some (finished w [] false)
unfolding scan scan_loop
scan-empty re pat follow base e = rw (e, scan_loop) refl
