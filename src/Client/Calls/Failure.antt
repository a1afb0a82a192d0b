-- ===== src/Client/Calls/Failure.antt =====
-- clients/go/client.go: `failPending`, which fills the channel of every pending call.
use pupptyeer.Prelude.{
  ℕ, ◌<◌, ◌≡◌, ◌≢◌, refl, ◌⊎◌, inl, inr, true, false, Option, none, some, Bytes, List, [], ◌∷◌,
  arith, subst, sym, ◌∙◌, Option-cases,
}
use pupptyeer.Prelude.Int.{ℤ, pos}
use pupptyeer.Prelude.Assoc.{lookup, update, HasKeysOnce}
use pupptyeer.Client.Wire.{Message}
use pupptyeer.Client.{ℤ_eq, Client, failed, give, failure, fail_each, fail_pending, eqb_iff}
use pupptyeer.Client.Calls.State.{IsOwn, is_holding, Inv}

pub give-fills :
    (chan_at : ℕ → List Message) (n : ℕ) (m : Message)
    → chan_at n ≡ []
    → give chan_at n m ≡ some (update chan_at n (m ∷ []))
unfolding give
give-fills chan_at n m h = ground (arith, h)

-- What a channel holds once the pending calls of a list have failed.
unfoldable pub after_failure : Bytes → ℕ → Option ℕ → List Message → List Message
after_failure e n none old = old
after_failure e n (some k) old = failure e (pos n) ∷ []

unfoldable pub failed_chan : Bytes → List (ℤ × ℕ) → (ℕ → List Message) → ℕ → List Message
failed_chan e l chan_at n = after_failure e n (lookup (pos n) l) (chan_at n)

-- Each number in the list is that of its key, with an empty channel.
AreReady : List (ℤ × ℕ) → (ℕ → List Message) → Type 0
AreReady l chan_at = (i : ℤ) (n : ℕ) → lookup i l ≡ some n → (i ≡ pos n) × (chan_at n ≡ [])

fail_each-fills :
    (e : Bytes) (l : List (ℤ × ℕ)) (chan_at : ℕ → List Message)
    → HasKeysOnce l
    → AreReady l chan_at
    → (filled : ℕ → List Message) × (fail_each e l chan_at ≡ some filled)
      × ((n : ℕ) → filled n ≡ failed_chan e l chan_at n)
unfolding fail_each failed_chan after_failure lookup AreReady
fail_each-fills e [] chan_at once ready = (chan_at, refl, λ n. refl)
fail_each-fills e ((i, k) ∷ l) chan_at (new, once) ready =
    rw (give-fills chan_at k (failure e i) first.1) (
      let (filled, done, each) =
        fail_each-fills e l (update chan_at k (failure e i ∷ [])) once others in
      (filled, done, λ n. rw (each n) (at_place n)))
  where
    first : (i ≡ pos k) × (chan_at k ≡ [])
    first = ready i k (ground (arith, eqb_iff i i))

    others : AreReady l (update chan_at k (failure e i ∷ []))
    others = λ j n h. ground (arith, ready j n, eqb_iff i j, eqb_iff i i, ready i k)

    at_place :
        (n : ℕ)
        → failed_chan e l (update chan_at k (failure e i ∷ [])) n
          ≡ failed_chan e ((i, k) ∷ l) chan_at n
    at_place n = ground (arith, first, new, eqb_iff i (pos n))

pub fail_pending-fills :
    (c : Client) (e : Bytes)
    → Inv c
    → (filled : ℕ → List Message) × (fail_pending c e
        ≡ some (record c { chan_at = filled; pending = [] }))
      × ((n : ℕ) → filled n ≡ failed_chan e c.pending c.chan_at n)
unfolding fail_pending AreReady
fail_pending-fills c e v = ground (arith, fail_each-fills e c.pending c.chan_at v.once)

after_failure-IsOwn :
    (e : Bytes) (n : ℕ) (o : Option ℕ) (old : List Message)
    → IsOwn n old
    → IsOwn n (after_failure e n o old)
unfolding after_failure
after_failure-IsOwn e n none old h = h
after_failure-IsOwn e n (some k) old h = refl

failed_chan-IsOwn :
    (c : Client) (e : Bytes) (n : ℕ) → Inv c → IsOwn n (failed_chan e c.pending c.chan_at n)
unfolding failed_chan
failed_chan-IsOwn c e n v =
    after_failure-IsOwn e n (lookup (pos n) c.pending) (c.chan_at n) (v.one n)

failed_chan-new :
    (c : Client) (e : Bytes) (n : ℕ)
    → c.next_id < n
    → Inv c
    → failed_chan e c.pending c.chan_at n ≡ []
unfolding failed_chan after_failure
failed_chan-new c e n h v = elim (Option-cases (lookup (pos n) c.pending)) [
  | inl gone ↦ ground (arith, v.new n h, gone)
  | inr (k, there) ↦ absurd (ground (arith, (v.own (pos n) k there).0, (v.own (pos n) k there).2))
]

failed_chan-full :
    (c : Client) (e : Bytes) (n : ℕ)
    → (lookup (pos n) c.pending ≡ some n) ⊎ (c.chan_at n ≢ []) ⊎ (is_holding n c.reader ≡ true)
    → is_holding n c.reader ≡ false
    → failed_chan e c.pending c.chan_at n ≢ []
unfolding failed_chan after_failure
failed_chan-full c e n served empty = ground (arith, served, empty)

pub fail-Inv :
    (c : Client) (e : Bytes) (filled : ℕ → List Message)
    → ((n : ℕ) → filled n ≡ failed_chan e c.pending c.chan_at n)
    → ((n : ℕ) → is_holding n c.reader ≡ false)
    → Inv c
    → Inv (record c { chan_at = filled; pending = []; reader = failed })
unfolding lookup
fail-Inv c e filled each empty v = record {
  once = record {};
  own = λ i n h. cc;
  one = λ n. subst (IsOwn n) (sym (each n)) (failed_chan-IsOwn c e n v);
  new = λ n h. (each n ∙ failed_chan-new c e n h v, (v.new n h).1);
  held = λ n m h. cc;
  served = λ n h. inr (inl (rw (each n) (failed_chan-full c e n (v.served n h) (empty n))));
  positive = λ i n h. cc;
  ended = λ h. cc;
}
