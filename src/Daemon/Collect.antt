-- ===== src/Daemon/Collect.antt =====
-- internal/server/server.go: `gc`, its cutoff and its victims.
use native.Mathlib.Decide.{ℕ_discrete}
use pupptyeer.Prelude.{
  ℕ, zero, suc, ◌<◌, ◌≤◌, ◌-◌, ◌*◌, ◌↔◌, text_eq_iff, ◌≡◌, ◌⊎◌, inl, inr, refl, sym, ap, subst, ◌∙◌,
  Bool, true, false, Bytes, List, [], ◌∷◌, arith, if◌then◌else◌, text_eq_sound,
}
use pupptyeer.Prelude.Int.{ℤ, pos, ◌≤ℤ◌, ltb_ℤ, ◌-ℤ◌, ◌*ℤ◌, to_signed, sub_ℕ, ◌+ℤ◌, +ℤ_parts}
use pupptyeer.Core.{WaitResult}
use pupptyeer.Core.Lifecycle.{IsCoherent, kill-IsCoherent}
use pupptyeer.World.{Host, World, Sess, SessKey, ns_of}
use pupptyeer.Attach
use pupptyeer.Attach.Kill.{kill-sess, kill-other, kill-core}
use pupptyeer.Daemon.{Outside, gc_cutoff, in_scope, idle_since, kill_each, collect}

abbrev minus : ℕ → ℤ
minus n = sub_ℕ 0 n

-- A negated number below 2 ^ 63 is itself in 64 bits.
to_signed-small :
    (n : ℕ) → n < 9223372036854775808 → to_signed 9223372036854775808 (minus n) ≡ minus n
unfolding to_signed
to_signed-small n h = ground arith

to_signed-large :
    (n : ℕ)
    → 9223372036854775808 < n
    → n < 18446744073709551616
    → to_signed 9223372036854775808 (minus n) ≡ pos (18446744073709551616 - n)
unfolding to_signed
to_signed-large n h k = ground arith

minus-mul : (a b : ℕ) → minus a *ℤ pos b ≡ minus (a * b)
unfolding ◌*ℤ◌
minus-mul zero b = ground arith
minus-mul (suc a) b = ground arith

minus-of : (a : ℕ) → pos 0 -ℤ (if ltb_ℤ (pos a) (pos 0) then pos 0 else pos a) ≡ minus a
unfolding ◌-ℤ◌
minus-of a = ground arith

gc_cutoff-pos :
    (now : ℤ) (seconds : ℕ)
    → gc_cutoff now (pos seconds)
      ≡ now +ℤ to_signed 9223372036854775808 (minus (seconds * 1000000000))
unfolding gc_cutoff
gc_cutoff-pos now seconds = ground (arith, minus-of seconds, minus-mul seconds 1000000000)

plus-minus : (a : ℤ) (n : ℕ) → a +ℤ minus n ≡ a -ℤ pos n
unfolding ◌+ℤ◌ ◌-ℤ◌
plus-minus a n = ground arith

-- With an idle limit of less than 2 ^ 63 nanoseconds the cutoff is that many seconds before now.
pub gc_cutoff_lem :
    (now : ℤ) (seconds : ℕ)
    → seconds ≤ 9223372036
    → gc_cutoff now (pos seconds) ≡ now -ℤ pos (seconds * 1000000000)
gc_cutoff_lem now seconds h =
    gc_cutoff-pos now seconds
    ∙ ap (λ n. now +ℤ n) (to_signed-small (seconds * 1000000000) (omega arith))
    ∙ plus-minus now (seconds * 1000000000)

-- From 9223372037 seconds on (up to twice that) the product wraps above zero: the cutoff is then after
-- now, and a session that was active at this very moment counts as idle.
pub gc_cutoff_wraps :
    (now : ℤ) (seconds : ℕ)
    → 9223372036 < seconds
    → seconds < 18446744074
    → now +ℤ pos 1 ≤ℤ gc_cutoff now (pos seconds)
gc_cutoff_wraps now seconds h k =
    let n = seconds * 1000000000 in
    let e =
      gc_cutoff-pos now seconds
      ∙ ap (λ m. now +ℤ m) (to_signed-large n (omega arith) (omega arith)) in
    rw e (omega (arith, +ℤ_parts now (pos (18446744073709551616 - n)), +ℤ_parts now (pos 1)))

abbrev pub Member : ℕ → List ℕ → Type 0
Member q [] = ⊥
Member q (r ∷ rs) = (q ≡ r) ⊎ Member q rs

module _ (H : Host) where
  -- The victims of a collection.
  abbrev pub victims : World H → Outside → ℤ → Bytes → Bool → List ℕ
  victims w o max_idle ns all =
      idle_since H w (gc_cutoff o.now max_idle) (in_scope H w.sessions (ns_of ns) all)

  -- A session of the store that the walk meets under its key.
  abbrev pub Listed : ℕ → Bytes → Bool → List (SessKey × ℕ) → Type 0
  Listed q ns all [] = ⊥
  Listed q ns all ((k, r) ∷ m) = ((q ≡ r) × ((all ≡ true) ⊎ (k.ns ≡ ns))) ⊎ Listed q ns all m

  in_scope-Listed :
      (q : ℕ) (ns : Bytes) (all : Bool) (m : List (SessKey × ℕ))
      → Member q (in_scope H m ns all) ↔ Listed q ns all m
  unfolding in_scope
  in_scope-Listed q ns all [] = (λ h. h, λ h. h)
  in_scope-Listed q ns all ((k, r) ∷ m) =
      let (there, back) = in_scope-Listed q ns all m in
      (
        λ h. ground (arith, there, text_eq_sound k.ns ns),
        λ h. ground (arith, back, text_eq_iff k.ns ns),
      )

  idle_since-Member :
      (w : World H) (cutoff : ℤ) (q : ℕ) (rs : List ℕ)
      → Member q (idle_since H w cutoff rs)
        ↔ (Member q rs × ((w.sess_at q).core.last_activity ≤ℤ cutoff))
  unfolding idle_since
  idle_since-Member w cutoff q [] = (λ h. elim h [ ], λ h. h.0)
  idle_since-Member w cutoff q (r ∷ rs) =
      let (there, back) = idle_since-Member w cutoff q rs in
      (λ h. ground (arith, there), λ h. ground (arith, back))

  -- A registered session that the collection is to reap: in the namespace asked for (in any, if asked
  -- for all), and with its last activity not after the cutoff.
  abbrev pub IsVictim : World H → Outside → ℤ → Bytes → Bool → ℕ → Type 0
  IsVictim w o max_idle ns all q =
      Listed q (ns_of ns) all w.sessions
      × ((w.sess_at q).core.last_activity ≤ℤ gc_cutoff o.now max_idle)

  victims-Member :
      (w : World H) (o : Outside) (max_idle : ℤ) (ns : Bytes) (all : Bool) (q : ℕ)
      → Member q (victims w o max_idle ns all) ↔ IsVictim w o max_idle ns all q
  victims-Member w o max_idle ns all q =
      let scope = in_scope H w.sessions (ns_of ns) all in
      let (to_idle, of_idle) = idle_since-Member w (gc_cutoff o.now max_idle) q scope in
      let (to_listed, of_listed) = in_scope-Listed q (ns_of ns) all w.sessions in
      (λ h. (to_listed (to_idle h).0, (to_idle h).1), λ h. of_idle (of_listed h.0, h.1))

  Member-cases : (q : ℕ) (rs : List ℕ) → Member q rs ⊎ (¬ Member q rs)
  Member-cases q [] = inr (λ h. h)
  Member-cases q (r ∷ rs) = ground (arith, Member-cases q rs)

  kill_each-other :
      (w : World H) (q : ℕ) (rs : List ℕ) (wait : WaitResult)
      → ¬ Member q rs
      → (kill_each H w rs wait).0.sess_at q ≡ w.sess_at q
  unfolding kill_each
  kill_each-other w q [] wait n = refl
  kill_each-other w q (r ∷ rs) wait n =
      kill_each-other (Attach.kill H w r wait) q rs wait (λ h. n (inr h))
      ∙ kill-other H w r q wait (λ e. n (inl (sym e)))

  -- Every session of the store is coherent.
  abbrev pub AllCoherent : World H → Type 0
  AllCoherent w = (q : ℕ) → IsCoherent H.emulator (w.sess_at q).core

  kill-AllCoherent :
      (w : World H) (r : ℕ) (wait : WaitResult)
      → AllCoherent w
      → AllCoherent (Attach.kill H w r wait)
  kill-AllCoherent w r wait v q = elim (ℕ_discrete r q) [
    | yes e ↦
        subst (λ k. IsCoherent H.emulator ((Attach.kill H w r wait).sess_at k).core) e
          (subst (IsCoherent H.emulator) (sym (kill-core H w r wait))
            (kill-IsCoherent H.emulator (w.sess_at r).core wait (v r)))
    | no n ↦
        subst (λ (s : Sess H). IsCoherent H.emulator s.core) (sym (kill-other H w r q wait n)) (v q)
  ]

  abbrev is_alive : World H → ℕ → Bool
  is_alive w q = (w.sess_at q).core.alive

  kill-dead_self :
      (w : World H) (q : ℕ) (wait : WaitResult)
      → AllCoherent w
      → is_alive (Attach.kill H w q wait) q ≡ false
  kill-dead_self w q wait v = (kill-sess H w q wait (v q)).0

  -- The dead stay dead.
  kill-dead :
      (w : World H) (r q : ℕ) (wait : WaitResult)
      → AllCoherent w
      → is_alive w q ≡ false
      → is_alive (Attach.kill H w r wait) q ≡ false
  kill-dead w r q wait v h = elim (ℕ_discrete r q) [
    | yes e ↦ ap (is_alive (Attach.kill H w r wait)) (sym e) ∙ kill-dead_self w r wait v
    | no n ↦ ap (λ (s : Sess H). s.core.alive) (kill-other H w r q wait n) ∙ h
  ]

  kill_each-dead :
      (w : World H) (q : ℕ) (rs : List ℕ) (wait : WaitResult)
      → AllCoherent w
      → is_alive w q ≡ false
      → is_alive (kill_each H w rs wait).0 q ≡ false
  unfolding kill_each
  kill_each-dead w q [] wait v h = h
  kill_each-dead w q (r ∷ rs) wait v h =
      kill_each-dead (Attach.kill H w r wait) q rs wait (kill-AllCoherent w r wait v)
        (kill-dead w r q wait v h)

  kill_each-Member :
      (w : World H) (q : ℕ) (rs : List ℕ) (wait : WaitResult)
      → AllCoherent w
      → Member q rs
      → is_alive (kill_each H w rs wait).0 q ≡ false
  unfolding kill_each
  kill_each-Member w q [] wait v m = elim m [ ]
  kill_each-Member w q (r ∷ rs) wait v (inl e) = ground (
    arith,
    kill_each-dead (Attach.kill H w r wait) q rs wait (kill-AllCoherent w r wait v),
    kill-dead_self w r wait v,
  )
  kill_each-Member w q (r ∷ rs) wait v (inr m) =
      kill_each-Member (Attach.kill H w r wait) q rs wait (kill-AllCoherent w r wait v) m

  -- `gc` leaves exactly its victims dead: a registered session of the scope that is idle is not alive
  -- afterwards, and every session that is not such a victim is left as it was, those of other
  -- namespaces included.
  pub collect_cases :
      (w : World H) (o : Outside) (max_idle : ℤ) (ns : Bytes) (all : Bool) (q : ℕ)
      → AllCoherent w
      → let w' = (collect H w o max_idle ns all).0 in
        (IsVictim w o max_idle ns all q × ((w'.sess_at q).core.alive ≡ false))
        ⊎ ((¬ IsVictim w o max_idle ns all q) × (w'.sess_at q ≡ w.sess_at q))
  unfolding collect
  collect_cases w o max_idle ns all q v =
      let rs = victims w o max_idle ns all in
      let (to_victim, of_victim) = victims-Member w o max_idle ns all q in
      elim (Member-cases q rs) [
        | inl m ↦ inl (to_victim m, kill_each-Member w q rs o.reaped v m)
        | inr n ↦ inr (λ h. n (of_victim h), kill_each-other w q rs o.reaped n)
      ]
