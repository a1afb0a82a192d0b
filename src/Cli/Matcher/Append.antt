-- ===== src/Cli/Matcher/Append.antt =====
-- cmd/pupptyeer/ctl.go: `detachMatcher` over two parts of its input.
use pupptyeer.Prelude.{
  ◌+◌, ◌≡◌, inl, inr, refl, sym, ap, ◌∙◌, Bytes, [], ◌∷◌, ◌++◌, length, take, get_elem?, ◌==◌,
  if◌then◌else◌, arith, Bool-cases, append_assoc,
}
use pupptyeer.Cli.Matcher.{Matcher, Fed, byte_is, write_before, feed_bytes}
use pupptyeer.Cli.Matcher.Exact.{
  feed_bytes-done, feed_bytes-hold, feed_bytes-restart, feed_bytes-clear, feed_bytes-nil,
}

write_before_assoc :
    (xs ys : Bytes) (f : Fed) → write_before xs (write_before ys f) ≡ write_before (xs ++ ys) f
write_before_assoc xs ys f = ap (λ bs. record f { out = bs }) (sym (append_assoc xs ys f.out))

-- The rest of the input, after a first part that did not complete the sequence.
abbrev pub go_on : Fed → Bytes → Fed
go_on f ys = if f.detached then f else write_before f.out (feed_bytes f.matcher ys)

go_on-write_before :
    (xs : Bytes) (f : Fed) (ys : Bytes)
    → go_on (write_before xs f) ys ≡ write_before xs (go_on f ys)
go_on-write_before xs f ys = ground (arith, write_before_assoc xs f.out (feed_bytes f.matcher ys))

-- How standard input is cut into reads does not matter: the loop over two parts is the loop over the
-- first and, unless that completed the sequence, over the second from where the first left off.
pub feed_bytes-append :
    (m : Matcher) (xs ys : Bytes) → feed_bytes m (xs ++ ys) ≡ go_on (feed_bytes m xs) ys
feed_bytes-append m [] ys = rw (feed_bytes-nil m) refl
feed_bytes-append m (b ∷ xs) ys =
    let held = take m.matched m.seq in
    let longer = record m { matched = m.matched + 1 } in
    let restart = record m { matched = 1 } in
    let clear = record m { matched = 0 } in
    elim (Bool-cases (byte_is (get_elem? m.seq m.matched) b)) [
      | inl same ↦ elim (Bool-cases (m.matched + 1 == length m.seq)) [
        | inl last ↦
            rw (feed_bytes-done m b (xs ++ ys) same last, feed_bytes-done m b xs same last) refl
        | inr more ↦
            rw (feed_bytes-hold m b (xs ++ ys) same more, feed_bytes-hold m b xs same more)
              (feed_bytes-append longer xs ys)
      ]
      | inr other ↦ elim (Bool-cases (byte_is (get_elem? m.seq 0) b)) [
        | inl first ↦
            rw
              (feed_bytes-restart m b (xs ++ ys) other first, feed_bytes-restart m b xs other first)
              (ap (write_before held) (feed_bytes-append restart xs ys)
                ∙ sym (go_on-write_before held (feed_bytes restart xs) ys))
        | inr away ↦
            rw (feed_bytes-clear m b (xs ++ ys) other away, feed_bytes-clear m b xs other away)
              (ap (λ f. write_before held (write_before (b ∷ []) f)) (feed_bytes-append clear xs ys)
                ∙ ap (write_before held)
                    (sym (go_on-write_before (b ∷ []) (feed_bytes clear xs) ys))
                ∙ sym (go_on-write_before held (write_before (b ∷ []) (feed_bytes clear xs)) ys))
      ]
    ]
