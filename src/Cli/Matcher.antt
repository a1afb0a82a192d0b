-- ===== src/Cli/Matcher.antt =====
-- cmd/pupptyeer/ctl.go: `detachMatcher`, which looks for the detach sequence in forwarded input.
pub mod Exact
pub mod Pair
pub mod Append
pub mod Reads
use pupptyeer.Prelude.{
  ℕ, zero, suc, ◌+◌, ◌-◌, ◌≤◌, ◌<◌, ◌≡◌, ◌⊎◌, inl, inr, refl, sym, ap, ◌∙◌, Bool, true, false, not,
  ◌&&◌, ◌||◌, Option, none, some, Bytes, List, [], ◌∷◌, ◌++◌, length, take, drop, get_elem?, ◌==◌,
  ltb, leb, if◌then◌else◌, arith, Bool-cases, Option-cases, append_assoc, append-nil,
}

-- `detachMatcher`.
pub record Matcher : Type 0 where
  pub seq : Bytes
  pub matched : ℕ

-- `b == seq[i]`.
abbrev byte_is : Option ℕ → ℕ → Bool
byte_is none b = false
byte_is (some c) b = c == b

-- What a call leaves: the matcher, the bytes written to `out`, whether the sequence completed.
pub record Fed : Type 0 where
  pub matcher : Matcher
  pub out : Bytes
  pub detached : Bool

abbrev pub write_before : Bytes → Fed → Fed
write_before bs f = record f { out = bs ++ f.out }

-- The loop of `feed` over the input.
unfoldable pub feed_bytes : Matcher → Bytes → Fed
feed_bytes m [] = record { matcher = m; out = []; detached = false }
feed_bytes m (b ∷ bs) =
    let longer = feed_bytes (record m { matched = m.matched + 1 }) bs in
    let restart = feed_bytes (record m { matched = 1 }) bs in
    let clear = feed_bytes (record m { matched = 0 }) bs in
    let held = take m.matched m.seq in
    if byte_is (get_elem? m.seq m.matched) b
    then (if m.matched + 1 == length m.seq
        then record { matcher = record m { matched = 0 }; out = []; detached = true }
        else longer)
    else write_before held
        (if byte_is (get_elem? m.seq 0) b then restart else write_before (b ∷ []) clear)

-- `feed`.
unfoldable pub feed : Matcher → Bytes → Fed
feed m bs = elim m.seq [
  | [] ↦ record { matcher = m; out = bs; detached = false }
  | c ∷ cs ↦ feed_bytes m bs
]
