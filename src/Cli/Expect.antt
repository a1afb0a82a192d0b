-- ===== src/Cli/Expect.antt =====
-- cmd/pupptyeer/ctl.go: the matching of `ctl expect`. A compiled expression is an argument: where its
-- first match in a buffer begins and ends.
pub mod Rounds
use pupptyeer.Prelude.{
  ℕ, zero, suc, ◌+◌, ◌-◌, ◌≤◌, Bool, true, false, not, Option, none, some, ◌⊎◌, inl, inr, Bytes,
  List, [], ◌∷◌, length, drop, ltb, leb, if◌then◌else◌,
}
use pupptyeer.Prelude.Strings.{has_prefix, is_nil}

-- `bytes.Index`.
unfoldable pub index_of : Bytes → Bytes → Option ℕ
index_of pat [] = if is_nil pat then some 0 else none
index_of pat (b ∷ bs) =
    let later = index_of pat bs in
    if has_prefix (b ∷ bs) pat then some 0 else elim later [ none ↦ none | some i ↦ some (i + 1) ]

pub data Kind : Type 0 where
  regex substr : Kind

pub record Match : Type 0 where
  pub start : ℕ
  pub end : ℕ
  pub kind : Kind

abbrev pub Regex : Type 0
Regex = Bytes → Option (ℕ × ℕ)

abbrev pub regex_match : Option Regex → Bytes → Option Match
regex_match none buf = none
regex_match (some re) buf = elim (re buf) [
  | none ↦ none
  | some (start, end) ↦ some (record { start = start; end = end; kind = regex })
]

-- Whether a match of the substring at `i` comes before what was found.
abbrev pub is_earlier : ℕ → Option Match → Bool
is_earlier i none = true
is_earlier i (some m) = ltb i m.start

-- `firstMatch`, with `none` for a start of -1.
unfoldable pub first_match : Bytes → Option Regex → Bytes → Option Match
first_match buf re pat =
    let found = regex_match re buf in
    if is_nil pat then found else elim (index_of pat buf) [
      | none ↦ found
      | some i ↦
          if is_earlier i found
          then some (record { start = i; end = i + length pat; kind = substr })
          else found
    ]

-- The window: the bytes that can still match, and the offset of the first of them.
pub record Window : Type 0 where
  pub buf : Bytes
  pub base : ℕ

-- What a scan leaves: the window, the matches reported with their offsets, and whether `expect` ends;
-- `panicked` for a cut past the end of the buffer.
pub data Scanned : Type 0 where
  finished : Window → List (Kind × ℕ) → Bool → Scanned
  panicked : List (Kind × ℕ) → Scanned

abbrev pub report : Kind × ℕ → Scanned → Scanned
report hit (finished w hits stop) = finished w (hit ∷ hits) stop
report hit (panicked hits) = panicked (hit ∷ hits)

abbrev pub expect_window : ℕ
expect_window = 262144

abbrev pub trimmed : Window → Window
trimmed w =
    let excess = length w.buf - expect_window in
    if ltb expect_window (length w.buf)
    then record { buf = drop excess w.buf; base = w.base + excess }
    else w

abbrev pub end_of : Match → ℕ
end_of m = if leb m.end m.start then m.start + 1 else m.end

-- The loop of `scan`, with fuel: each round cuts at least a byte off the window.
unfoldable pub scan_loop : Option Regex → Bytes → Bool → ℕ → Window → Option Scanned
scan_loop re pat follow zero w = none
scan_loop re pat follow (suc fuel) w = elim (first_match w.buf re pat) [
  | none ↦ some (finished (trimmed w) [] false)
  | some m ↦
      let hit : Kind × ℕ = (m.kind, w.base + m.start) in
      let cut : Window = record { buf = drop (end_of m) w.buf; base = w.base + end_of m } in
      let rest = scan_loop re pat follow fuel cut in
      if ltb (length w.buf) (end_of m)
      then some (panicked (hit ∷ []))
      else (if follow
          then elim rest [ none ↦ none | some r ↦ some (report hit r) ]
          else some (finished cut (hit ∷ []) true))
]

-- `scan`.
unfoldable pub scan : Option Regex → Bytes → Bool → Bool → Window → Option Scanned
scan re pat follow armed w =
    if armed then scan_loop re pat follow (suc (length w.buf)) w else some (finished w [] false)
