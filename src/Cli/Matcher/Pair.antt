-- ===== src/Cli/Matcher/Pair.antt =====
-- cmd/pupptyeer/ctl.go: `detachMatcher` with a prefix and a key.
use pupptyeer.Prelude.{
  ℕ, ◌≡◌, refl, sym, ap, ◌∙◌, Bool, true, false, ◌&&◌, ◌||◌, Bytes, [], ◌∷◌, ◌==◌, if◌then◌else◌,
  arith, ==_iff,
}
use pupptyeer.Prelude.Strings.{has_prefix, is_nil}
use pupptyeer.Cli.Matcher.{Matcher, Fed, feed_bytes, feed}
use pupptyeer.Cli.Matcher.Exact.{
  feed_bytes-done, feed_bytes-hold, feed_bytes-restart, feed_bytes-clear, feed_bytes-nil,
}

-- The sequence stands somewhere in the stream.
unfoldable pub occurs : Bytes → Bytes → Bool
occurs seq [] = is_nil seq
occurs seq (b ∷ bs) = has_prefix (b ∷ bs) seq || occurs seq bs

abbrev pub two_keys : ℕ → ℕ → ℕ → Matcher
two_keys prefix key matched = record { seq = prefix ∷ key ∷ []; matched = matched }

occurs-two :
    (p k b : ℕ) (bs : Bytes)
    → (occurs (p ∷ k ∷ []) (b ∷ []) ≡ false)
      × ((d : ℕ)
          → occurs (p ∷ k ∷ []) (b ∷ d ∷ bs) ≡ ((b == p && d == k) || occurs (p ∷ k ∷ []) (d ∷ bs)))
unfolding occurs has_prefix
occurs-two p k b bs = (ground arith, λ d. ground arith)

detached-two :
    (p k b : ℕ) (bs : Bytes)
    → ((feed_bytes (two_keys p k 0) (b ∷ bs)).detached ≡ (
        if p == b
        then (feed_bytes (two_keys p k 1) bs).detached
        else (feed_bytes (two_keys p k 0) bs).detached))
      × ((feed_bytes (two_keys p k 1) (b ∷ bs)).detached ≡ (
          if k == b
          then true
          else (if p == b
              then (feed_bytes (two_keys p k 1) bs).detached
              else (feed_bytes (two_keys p k 0) bs).detached)))
detached-two p k b bs =
    let none_held = two_keys p k 0 in
    let one_held = two_keys p k 1 in
    (
      ground (arith, feed_bytes-hold none_held b bs, feed_bytes-clear none_held b bs),
      ground (
        arith,
        feed_bytes-done one_held b bs,
        feed_bytes-restart one_held b bs,
        feed_bytes-clear one_held b bs,
      ),
    )

occurs-prefix :
    (p k d : ℕ) (bs : Bytes)
    → occurs (p ∷ k ∷ []) (p ∷ d ∷ bs) ≡ (d == k || occurs (p ∷ k ∷ []) (d ∷ bs))
occurs-prefix p k d bs =
    (occurs-two p k p bs).1 d
    ∙ ap (λ t. (t && d == k) || occurs (p ∷ k ∷ []) (d ∷ bs)) ((==_iff p p).1 refl)

occurs-nil : (p k : ℕ) → occurs (p ∷ k ∷ []) [] ≡ false
unfolding occurs
occurs-nil p k = refl

feed_bytes-two :
    (p k : ℕ) (bs : Bytes)
    → ((feed_bytes (two_keys p k 0) bs).detached ≡ occurs (p ∷ k ∷ []) bs)
      × ((feed_bytes (two_keys p k 1) bs).detached ≡ occurs (p ∷ k ∷ []) (p ∷ bs))
feed_bytes-two p k [] = (
  ap (λ (f : Fed). f.detached) (feed_bytes-nil (two_keys p k 0)) ∙ sym (occurs-nil p k),
  ap (λ (f : Fed). f.detached) (feed_bytes-nil (two_keys p k 1)) ∙ sym (occurs-two p k p []).0,
)
feed_bytes-two p k (b ∷ []) = ground (
  arith,
  detached-two p k b [],
  feed_bytes-two p k [],
  occurs-nil p k,
  (occurs-two p k p []).0,
  (occurs-two p k b []).0,
  occurs-prefix p k b [],
)
feed_bytes-two p k (b ∷ d ∷ bs) = ground (
  arith,
  detached-two p k b (d ∷ bs),
  feed_bytes-two p k (d ∷ bs),
  (occurs-two p k b bs).1 d,
  occurs-prefix p k d bs,
  occurs-prefix p k b (d ∷ bs),
)

-- A prefix and a key are never missed: a call that begins with nothing held detaches exactly when the
-- two keys stand side by side somewhere in its input.
pub feed-two : (p k : ℕ) (bs : Bytes) → (feed (two_keys p k 0) bs).detached ≡ occurs (p ∷ k ∷ []) bs
unfolding feed
feed-two p k bs = (feed_bytes-two p k bs).0
