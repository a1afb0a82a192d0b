-- ===== src/World/Registry.antt =====
-- internal/server/server.go: what `addSession`, `removeSession` and `getSession` promise of the
-- registry.
use pupptyeer.Prelude.{
  ℕ, ◌<◌, ◌≡◌, ◌≢◌, ◌⊎◌, inl, inr, true, none, some, ◌==◌, arith, if◌then◌else◌, Option-cases,
  Bool-cases,
}
use pupptyeer.Prelude.Assoc.{lookup, lookup-insert, lookup-delete}
use pupptyeer.World.{
  Host, World, SessKey, SessKey_eq, key_eq, key_eq_iff, key_of, add_session, remove_session,
}

module _ (H : Host) where
  -- The registry maps each key to a session in the store that has this key.
  pub record IsKeyed (w : World H) : Type 0 where
    pub keyed :
        (k : SessKey) (r : ℕ)
        → lookup k w.sessions ≡ some r
        → (key_of H (w.sess_at r) ≡ k) × (r < w.next_sess)

  -- Registering a session of the store keeps every key of the registry mapped to a session of the store
  -- that has this key.
  pub add_session-IsKeyed :
      (w : World H) (r : ℕ) → r < w.next_sess → IsKeyed w → IsKeyed (add_session H w r).0
  unfolding add_session
  add_session-IsKeyed w r h v = record {
    keyed = λ k q e.
        let own = key_of H (w.sess_at r) in
        ground (arith, v.keyed k q, lookup-insert own k r w.sessions, key_eq_iff own k);
  }

  -- Deregistering any session keeps every key of the registry mapped to a session of the store that
  -- has this key.
  pub remove_session-IsKeyed : (w : World H) (r : ℕ) → IsKeyed w → IsKeyed (remove_session H w r)
  unfolding remove_session
  remove_session-IsKeyed w r v = record {
    keyed = λ k q e.
        let own = key_of H (w.sess_at r) in
        ground (arith, v.keyed k q, lookup-delete own k w.sessions, key_eq_iff own k);
  }

  -- `addSession` either finds a live session under the id, and then returns that session and changes
  -- nothing, or maps the id to the new session, leaves every other id alone, and returns the new one.
  pub add_session_cases :
      (w : World H) (r : ℕ)
      → let key = key_of H (w.sess_at r) in
        let (w', winner) = add_session H w r in
        ((cur : ℕ) × (lookup key w.sessions ≡ some cur)
          × ((w.sess_at cur).core.alive ≡ true)
          × (add_session H w r ≡ (w, cur)))
        ⊎ ((¬ (
              (cur : ℕ) × (lookup key w.sessions ≡ some cur) × ((w.sess_at cur).core.alive ≡ true)))
            × (winner ≡ r)
            × ((k : SessKey)
                → lookup k w'.sessions ≡ (if key_eq key k then some r else lookup k w.sessions)))
  unfolding add_session
  add_session_cases w r =
      let key = key_of H (w.sess_at r) in
      elim (Option-cases (lookup key w.sessions)) [
        | inl free ↦ inr (
          λ (cur, e, live). cc,
          rw (free, add_session),
          λ k. rw (free, add_session) (lookup-insert key k r w.sessions),
        )
        | inr (cur, held) ↦ elim (Bool-cases (w.sess_at cur).core.alive) [
          | inl live ↦ inl (cur, held, live, rw (held, add_session) (rw (live, add_session)))
          | inr dead ↦ inr (
            λ (cur', e, live). ground arith,
            rw (held, add_session) (rw (dead, add_session)),
            λ k. rw (held, add_session) (rw (dead, add_session) (lookup-insert key k r w.sessions)),
          )
        ]
      ]

  -- `removeSession` frees the id of the session that it is given if the id is mapped to this very
  -- session, leaving every other id alone, and changes nothing if it is not.
  pub remove_session_cases :
      (w : World H) (r : ℕ)
      → let key = key_of H (w.sess_at r) in
        let w' = remove_session H w r in
        ((lookup key w.sessions ≡ some r)
          × ((k : SessKey)
              → lookup k w'.sessions ≡ (if key_eq key k then none else lookup k w.sessions)))
        ⊎ ((lookup key w.sessions ≢ some r) × (w' ≡ w))
  unfolding remove_session
  remove_session_cases w r =
      let key = key_of H (w.sess_at r) in
      elim (Option-cases (lookup key w.sessions)) [
        | inl free ↦ inr (λ e. cc, rw (free, remove_session))
        | inr (cur, held) ↦ elim (Bool-cases (cur == r)) [
          | inl same ↦ inl (
            ground arith,
            λ k.
                rw (held, remove_session)
                  (rw (same, remove_session) (lookup-delete key k w.sessions)),
          )
          | inr other ↦
              inr (λ e. ground arith, rw (held, remove_session) (rw (other, remove_session)))
        ]
      ]
