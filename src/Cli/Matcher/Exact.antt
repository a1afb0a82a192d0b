-- ===== src/Cli/Matcher/Exact.antt =====
-- cmd/pupptyeer/ctl.go: the output of `detachMatcher` against its input.
use pupptyeer.Prelude.{
  ℕ, zero, suc, ◌+◌, ◌<◌, ◌≡◌, ◌⊎◌, inl, inr, refl, sym, ap, ◌∙◌, true, false, Bytes, [], ◌∷◌, ◌++◌,
  length, take, get_elem?, ◌==◌, arith, Bool-cases, append_assoc, append-nil, subst,
}
use pupptyeer.Cli.Matcher.{Matcher, Fed, byte_is, write_before, feed_bytes, feed}

-- The stream (what was held, then the input) is what was written and what is held now, or it is what
-- was written, then the sequence, then what follows it.
abbrev pub Outcome : Bytes → Bytes → Fed → Type 0
Outcome seq stream f =
    ((f.detached ≡ false)
      × (f.matcher.matched < length seq)
      × (f.out ++ take f.matcher.matched seq ≡ stream))
    ⊎ ((f.detached ≡ true) × ((rest : Bytes) × (f.out ++ (seq ++ rest) ≡ stream)))

take-next :
    (seq : Bytes) (k b : ℕ)
    → byte_is (get_elem? seq k) b ≡ true
    → (k < length seq) × (take (k + 1) seq ≡ take k seq ++ b ∷ [])
take-next [] k b h = cc
take-next (c ∷ cs) zero b h = ground arith
take-next (c ∷ cs) (suc k) b h = ground (arith, take-next cs k b)

take-all : (seq : Bytes) → take (length seq) seq ≡ seq
take-all [] = refl
take-all (c ∷ cs) = ap (◌∷◌ c) (take-all cs)

write_before-Outcome :
    (seq stream xs : Bytes) (f : Fed)
    → Outcome seq stream f
    → Outcome seq (xs ++ stream) (write_before xs f)
write_before-Outcome seq stream xs f (inl (d, k, e)) =
    inl (d, k, append_assoc xs f.out (take f.matcher.matched seq) ∙ ap (◌++◌ xs) e)
write_before-Outcome seq stream xs f (inr (d, (rest, e))) =
    inr (d, (rest, append_assoc xs f.out (seq ++ rest) ∙ ap (◌++◌ xs) e))

room-for-two :
    (seq : Bytes) (k b : ℕ)
    → k < length seq
    → byte_is (get_elem? seq k) b ≡ false
    → byte_is (get_elem? seq 0) b ≡ true
    → 1 < length seq
room-for-two [] k b h other first = absurd (omega arith)
room-for-two (c ∷ cs) zero b h other first = cc
room-for-two (c ∷ cs) (suc k) b h other first = ground arith

-- The four ways of a round.
pub feed_bytes-done :
    (m : Matcher) (b : ℕ) (bs : Bytes)
    → byte_is (get_elem? m.seq m.matched) b ≡ true
    → (m.matched + 1 == length m.seq) ≡ true
    → feed_bytes m (b ∷ bs)
      ≡ record { matcher = record m { matched = 0 }; out = []; detached = true }
unfolding feed_bytes
feed_bytes-done m b bs same last = rw (same, feed_bytes) (rw (last, feed_bytes) refl)

pub feed_bytes-hold :
    (m : Matcher) (b : ℕ) (bs : Bytes)
    → byte_is (get_elem? m.seq m.matched) b ≡ true
    → (m.matched + 1 == length m.seq) ≡ false
    → feed_bytes m (b ∷ bs) ≡ feed_bytes (record m { matched = m.matched + 1 }) bs
unfolding feed_bytes
feed_bytes-hold m b bs same more = rw (same, feed_bytes) (rw (more, feed_bytes) refl)

pub feed_bytes-restart :
    (m : Matcher) (b : ℕ) (bs : Bytes)
    → byte_is (get_elem? m.seq m.matched) b ≡ false
    → byte_is (get_elem? m.seq 0) b ≡ true
    → feed_bytes m (b ∷ bs)
      ≡ write_before (take m.matched m.seq) (feed_bytes (record m { matched = 1 }) bs)
unfolding feed_bytes
feed_bytes-restart m b bs other first = rw (other, feed_bytes) (rw (first, feed_bytes) refl)

pub feed_bytes-clear :
    (m : Matcher) (b : ℕ) (bs : Bytes)
    → byte_is (get_elem? m.seq m.matched) b ≡ false
    → byte_is (get_elem? m.seq 0) b ≡ false
    → feed_bytes m (b ∷ bs)
      ≡ write_before
          (take m.matched m.seq)
          (write_before (b ∷ []) (feed_bytes (record m { matched = 0 }) bs))
unfolding feed_bytes
feed_bytes-clear m b bs other away = rw (other, feed_bytes) (rw (away, feed_bytes) refl)

pub feed_bytes-nil :
    (m : Matcher) → feed_bytes m [] ≡ record { matcher = m; out = []; detached = false }
unfolding feed_bytes
feed_bytes-nil m = refl

feed_bytes-Outcome :
    (m : Matcher) (bs : Bytes)
    → m.matched < length m.seq
    → Outcome m.seq (take m.matched m.seq ++ bs) (feed_bytes m bs)
feed_bytes-Outcome m [] h =
    rw (feed_bytes-nil m) (inl (refl, h, sym (append-nil (take m.matched m.seq))))
feed_bytes-Outcome m (b ∷ bs) h = elim (Bool-cases (byte_is (get_elem? m.seq m.matched) b)) [
  | inl same ↦
      let next = take-next m.seq m.matched b same in
      let stream : take (m.matched + 1) m.seq ++ bs ≡ take m.matched m.seq ++ b ∷ bs =
        ap (λ s. s ++ bs) next.1 ∙ append_assoc (take m.matched m.seq) (b ∷ []) bs in
      elim (Bool-cases (m.matched + 1 == length m.seq)) [
        | inl last ↦
            let whole : take (m.matched + 1) m.seq ≡ m.seq =
              ap (λ n. take n m.seq) (ground arith) ∙ take-all m.seq in
            rw (feed_bytes-done m b bs same last)
              (inr (refl, (bs, ap (λ s. s ++ bs) (sym whole) ∙ stream)))
        | inr more ↦
            let longer = record m { matched = m.matched + 1 } in
            rw (feed_bytes-hold m b bs same more) (
              subst (λ s. Outcome m.seq s (feed_bytes longer bs)) stream
                (feed_bytes-Outcome longer bs (ground (arith, next.0))))
      ]
  | inr other ↦ elim (Bool-cases (byte_is (get_elem? m.seq 0) b)) [
    | inl first ↦
        let restart = record m { matched = 1 } in
        rw (feed_bytes-restart m b bs other first) (
          write_before-Outcome m.seq (b ∷ bs) (take m.matched m.seq) (feed_bytes restart bs) (
            subst (λ s. Outcome m.seq (s ++ bs) (feed_bytes restart bs))
              (take-next m.seq 0 b first).1
              (feed_bytes-Outcome restart bs (room-for-two m.seq m.matched b h other first))))
    | inr away ↦
        let clear = record m { matched = 0 } in
        rw (feed_bytes-clear m b bs other away) (
          write_before-Outcome m.seq (b ∷ bs) (take m.matched m.seq)
            (write_before (b ∷ []) (feed_bytes clear bs))
            (write_before-Outcome m.seq bs (b ∷ []) (feed_bytes clear bs)
              (feed_bytes-Outcome clear bs (omega arith))))
  ]
]

feed_of :
    (seq : Bytes) (k : ℕ) (bs : Bytes)
    → k < length seq
    → let m : Matcher = record { seq = seq; matched = k } in feed m bs ≡ feed_bytes m bs
unfolding feed
feed_of [] k bs h = absurd (omega arith)
feed_of (c ∷ cs) k bs h = refl

-- No input is lost or invented: unless the sequence completes, what `feed` writes followed by the keys
-- that it now holds is what it held followed by the input; if it completes, what was held and the input
-- are what is written, the sequence, and a rest that is dropped.
pub feed-Outcome :
    (m : Matcher) (bs : Bytes)
    → m.matched < length m.seq
    → Outcome m.seq (take m.matched m.seq ++ bs) (feed m bs)
feed-Outcome m bs h =
    subst (Outcome m.seq (take m.matched m.seq ++ bs)) (sym (feed_of m.seq m.matched bs h))
      (feed_bytes-Outcome m bs h)
