-- ===== src/Attach/Size.antt =====
-- internal/server/session.go: `recomputeSizeLocked`, and the sizes that attached clients ask for.
use pupptyeer.Prelude.{ℕ, ◌≡◌, ◌⊎◌, inl, inr, refl, subst, ◌∙◌, List, [], ◌∷◌, arith}
use pupptyeer.Prelude.Int.{ℤ, pos, ◌≤ℤ◌, eq_of_parts}
use pupptyeer.Core
use pupptyeer.Core.Resize.{resize_locked_cases}
use pupptyeer.World.{Host, Sess, Winsize}
use pupptyeer.Attach.{vote, votes, recompute_size}

abbrev Among : ℤ → List ℤ → Type 0
Among m [] = ⊥
Among m (n ∷ ns) = ((m ≡ n) × (pos 1 ≤ℤ n)) ⊎ Among m ns

abbrev Bounded : ℤ → List ℤ → Type 0
Bounded m [] = Unit {0}
Bounded m (n ∷ ns) = ((n ≤ℤ pos 0) ⊎ ((pos 1 ≤ℤ m) × (m ≤ℤ n))) × Bounded m ns

-- `m` is the least of the positive numbers of the list, or 0 where it has none.
pub record IsLeast (m : ℤ) (ns : List ℤ) : Type 0 where
  pub bounded : Bounded m ns
  pub attained : (m ≡ pos 0) ⊎ Among m ns

best : ℤ → List ℤ → ℤ
best b [] = b
best b (n ∷ ns) = best (vote b n) ns

vote_facts :
    (b n : ℤ)
    → pos 0 ≤ℤ b
    → (pos 0 ≤ℤ vote b n)
      × (pos 1 ≤ℤ b → (pos 1 ≤ℤ vote b n) × (vote b n ≤ℤ b))
      × (pos 1 ≤ℤ n → (pos 1 ≤ℤ vote b n) × (vote b n ≤ℤ n))
      × ((vote b n ≡ b) ⊎ ((vote b n ≡ n) × (pos 1 ≤ℤ n)))
unfolding vote
vote_facts b n h = (ground arith, ground arith, ground arith, ground arith)

best-le : (b : ℤ) (ns : List ℤ) → pos 1 ≤ℤ b → (pos 1 ≤ℤ best b ns) × (best b ns ≤ℤ b)
unfolding best
best-le b [] h = ground arith
best-le b (n ∷ ns) h = ground (arith, vote_facts b n, best-le (vote b n) ns)

best-Bounded : (b : ℤ) (ns : List ℤ) → pos 0 ≤ℤ b → Bounded (best b ns) ns
unfolding best
best-Bounded b [] h = tt
best-Bounded b (n ∷ ns) h =
    let facts = vote_facts b n h in
    (ground (arith, facts, best-le (vote b n) ns), best-Bounded (vote b n) ns facts.0)

best_attained : (b : ℤ) (ns : List ℤ) → pos 0 ≤ℤ b → (best b ns ≡ b) ⊎ Among (best b ns) ns
unfolding best
best_attained b [] h = inl refl
best_attained b (n ∷ ns) h =
    let facts = vote_facts b n h in
    elim (best_attained (vote b n) ns facts.0) [
      | inr later ↦ inr (inr later)
      | inl e ↦ elim facts.3 [ inl f ↦ inl (e ∙ f) | inr (f, p) ↦ inr (inl (e ∙ f, p)) ]
    ]

abbrev pub asked_cols : List (ℕ × Winsize) → List ℤ
asked_cols [] = []
asked_cols ((c, ws) ∷ rest) = ws.cols ∷ asked_cols rest

abbrev pub asked_rows : List (ℕ × Winsize) → List ℤ
asked_rows [] = []
asked_rows ((c, ws) ∷ rest) = ws.rows ∷ asked_rows rest

votes-best :
    (cols rows : ℤ) (clients : List (ℕ × Winsize))
    → votes cols rows clients ≡ (best cols (asked_cols clients), best rows (asked_rows clients))
unfolding votes best
votes-best cols rows [] = refl
votes-best cols rows ((c, ws) ∷ rest) = votes-best (vote cols ws.cols) (vote rows ws.rows) rest

-- The columns and rows that the walk over the attachments finds are each the least positive number
-- asked for (0 if nobody asks for one), in whatever order the map is walked.
pub votes-IsLeast :
    (clients : List (ℕ × Winsize))
    → let (cols, rows) = votes (pos 0) (pos 0) clients in
      IsLeast cols (asked_cols clients) × IsLeast rows (asked_rows clients)
votes-IsLeast clients =
    rw (votes-best (pos 0) (pos 0) clients) (least (asked_cols clients), least (asked_rows clients))
  where
    least : (ns : List ℤ) → IsLeast (best (pos 0) ns) ns
    least ns = record {
      bounded = best-Bounded (pos 0) ns (omega arith);
      attained = best_attained (pos 0) ns (omega arith);
    }

best_nonneg : (b : ℤ) (ns : List ℤ) → pos 0 ≤ℤ b → pos 0 ≤ℤ best b ns
unfolding best
best_nonneg b [] h = h
best_nonneg b (n ∷ ns) h = best_nonneg (vote b n) ns (vote_facts b n h).0

votes_nonneg :
    (clients : List (ℕ × Winsize))
    → let (cols, rows) = votes (pos 0) (pos 0) clients in (pos 0 ≤ℤ cols) × (pos 0 ≤ℤ rows)
votes_nonneg clients = rw (votes-best (pos 0) (pos 0) clients) (
  best_nonneg (pos 0) (asked_cols clients) (omega arith),
  best_nonneg (pos 0) (asked_rows clients) (omega arith),
)

-- No number of the list is positive.
abbrev pub NonePositive : List ℤ → Type 0
NonePositive [] = Unit {0}
NonePositive (n ∷ ns) = (n ≤ℤ pos 0) × NonePositive ns

Bounded-zero : (ns : List ℤ) → Bounded (pos 0) ns → NonePositive ns
Bounded-zero [] b = tt
Bounded-zero (n ∷ ns) (here, rest) = (ground (arith, here), Bounded-zero ns rest)

zero-NonePositive : (m : ℤ) (ns : List ℤ) → m ≡ pos 0 → IsLeast m ns → NonePositive ns
zero-NonePositive m ns e l = Bounded-zero ns (subst (λ k. Bounded k ns) e l.bounded)

module _ (H : Host) where
  -- After `recomputeSizeLocked` the effective size is the least of the positive columns and the least of
  -- the positive rows that attached clients ask for, each at least 1 and asked for by a client; or no
  -- client asks for positive columns, or none for positive rows, and the session is left as it was.
  pub recompute_size_cases :
      (s : Sess H)
      → let (cols, rows) = votes (pos 0) (pos 0) s.attachments in
        let s' = recompute_size H s in
        ((s'.core.eff_cols ≡ cols)
          × (s'.core.eff_rows ≡ rows)
          × (pos 1 ≤ℤ cols)
          × (pos 1 ≤ℤ rows)
          × IsLeast cols (asked_cols s.attachments)
          × IsLeast rows (asked_rows s.attachments))
        ⊎ ((NonePositive (asked_cols s.attachments) ⊎ NonePositive (asked_rows s.attachments))
            × (s' ≡ s))
  unfolding recompute_size
  recompute_size_cases s =
      let (cols, rows) = votes (pos 0) (pos 0) s.attachments in
      let (cols_least, rows_least) = votes-IsLeast s.attachments in
      ground (
        arith,
        cols_least,
        rows_least,
        votes_nonneg s.attachments,
        eq_of_parts cols (pos 0),
        eq_of_parts rows (pos 0),
        (λ (e : cols ≡ pos 0). zero-NonePositive cols (asked_cols s.attachments) e cols_least),
        (λ (e : rows ≡ pos 0). zero-NonePositive rows (asked_rows s.attachments) e rows_least),
        resize_locked_cases H.emulator s.core cols rows,
      )

  -- What `recomputeSizeLocked` leaves alone.
  pub recompute_size_keeps :
      (s : Sess H)
      → let s' = recompute_size H s in
        (s'.core.ring ≡ s.core.ring)
        × (s'.core.alive ≡ s.core.alive)
        × (s'.core.killed ≡ s.core.killed)
        × (s'.core.finished ≡ s.core.finished)
        × (s'.attachments ≡ s.attachments)
        × (s'.raw_subs ≡ s.raw_subs)
        × (s'.namespace ≡ s.namespace)
        × (s'.id ≡ s.id)
  unfolding recompute_size Core.resize_locked
  recompute_size_keeps s = ground arith
