-- ===== src/Cli/Matcher/Reads.antt =====
-- cmd/pupptyeer/ctl.go: `detachMatcher.feed` over several reads.
use pupptyeer.Prelude.{ℕ, ◌+◌, ◌≡◌, refl, ◌∙◌, false, Bytes, [], ◌∷◌, ◌++◌, arith, if◌then◌else◌}
use pupptyeer.Cli.Matcher.{Matcher, Fed, write_before, feed, feed_bytes}
use pupptyeer.Cli.Matcher.Append.{feed_bytes-append}

feed_bytes-seq : (m : Matcher) (bs : Bytes) → (feed_bytes m bs).matcher.seq ≡ m.seq
unfolding feed_bytes
feed_bytes-seq m [] = refl
feed_bytes-seq m (b ∷ bs) = ground (
  arith,
  feed_bytes-seq (record m { matched = m.matched + 1 }) bs,
  feed_bytes-seq (record m { matched = 1 }) bs,
  feed_bytes-seq (record m { matched = 0 }) bs,
)

feed_off :
    (n : ℕ) (bs : Bytes)
    → feed (record { seq = []; matched = n }) bs
      ≡ record { matcher = record { seq = []; matched = n }; out = bs; detached = false }
unfolding feed
feed_off n bs = refl

feed_on :
    (c : ℕ) (cs : Bytes) (n : ℕ) (bs : Bytes)
    → feed (record { seq = c ∷ cs; matched = n }) bs
      ≡ feed_bytes (record { seq = c ∷ cs; matched = n }) bs
unfolding feed
feed_on c cs n bs = refl

-- The rest of the input, after a part that did not complete the sequence.
abbrev pub carry_on : Fed → Bytes → Fed
carry_on f ys = if f.detached then f else write_before f.out (feed f.matcher ys)

append_on :
    (m : Matcher) (c : ℕ) (cs xs ys : Bytes)
    → m.seq ≡ c ∷ cs
    → ((l : Matcher) (bs : Bytes) → l.seq ≡ c ∷ cs → feed l bs ≡ feed_bytes l bs)
    → feed m (xs ++ ys) ≡ carry_on (feed m xs) ys
append_on m c cs xs ys e on =
    let f = feed_bytes m xs in
    rw (on m (xs ++ ys) e, on m xs e)
      (rw (on f.matcher ys (feed_bytes-seq m xs ∙ e)) (feed_bytes-append m xs ys))

feed-feed_bytes :
    (l : Matcher) (c : ℕ) (cs bs : Bytes) → l.seq ≡ c ∷ cs → feed l bs ≡ feed_bytes l bs
feed-feed_bytes l c cs bs e = of_seq l.seq l.matched e
  where
    of_seq :
        (k : Bytes) (n : ℕ)
        → k ≡ c ∷ cs
        → feed (record { seq = k; matched = n }) bs
          ≡ feed_bytes (record { seq = k; matched = n }) bs
    of_seq [] n e = absurd (ground (arith, e))
    of_seq (d ∷ ds) n e = feed_on d ds n bs

-- How the input is cut into calls of `feed` does not matter.
pub feed-append : (m : Matcher) (xs ys : Bytes) → feed m (xs ++ ys) ≡ carry_on (feed m xs) ys
feed-append m xs ys = of_seq m.seq m.matched
  where
    of_seq :
        (k : Bytes) (n : ℕ)
        → let l : Matcher = record { seq = k; matched = n } in
          feed l (xs ++ ys) ≡ carry_on (feed l xs) ys
    of_seq [] n = rw (feed_off n (xs ++ ys), feed_off n xs, feed_off n ys) refl
    of_seq (c ∷ cs) n =
        append_on (record { seq = c ∷ cs; matched = n }) c cs xs ys refl
          (λ l bs e. feed-feed_bytes l c cs bs e)

pub feed-nil : (m : Matcher) → feed m [] ≡ record { matcher = m; out = []; detached = false }
unfolding feed_bytes
feed-nil m = of_seq m.seq m.matched
  where
    of_seq :
        (k : Bytes) (n : ℕ)
        → feed (record { seq = k; matched = n }) []
          ≡ record { matcher = record { seq = k; matched = n }; out = []; detached = false }
    of_seq [] n = feed_off n []
    of_seq (c ∷ cs) n = feed_on c cs n []
