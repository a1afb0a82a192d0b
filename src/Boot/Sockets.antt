-- ===== src/Boot/Sockets.antt =====
-- cmd/pupptyeer/daemon.go: which sockets a start touches and leaves open.
use pupptyeer.Prelude.{
  ◌≡◌, ◌⊎◌, inl, inr, refl, ◌∙◌, Bool, true, false, ◌&&◌, Bytes, [], ◌∷◌, ◌++◌, Bool-cases, arith,
  if◌then◌else◌,
}
use pupptyeer.Boot.{
  Action, make_dir, secure_dir, dial, remove, listen, chmod, listen_raw, close_server, Answer, done,
  Refusal, Log, Outcome, is_done, is_gone, noted, attempt, attempt_or_close, open_raw, open_socket,
  probe, new_daemon,
}

-- A call that leaves the sockets as they are.
unfoldable pub is_harmless : Action → Bool
is_harmless (make_dir d) = true
is_harmless (secure_dir d) = true
is_harmless (dial s) = true
is_harmless (remove s) = false
is_harmless (listen s) = false
is_harmless (chmod s) = false
is_harmless (listen_raw s) = false
is_harmless close_server = false

unfoldable pub are_harmless : Log → Bool
are_harmless [] = true
are_harmless ((a, x) ∷ log) = is_harmless a && are_harmless log

-- Whether the server listens after one more call, and after a log.
unfoldable pub listening_after : Bool → Action → Answer → Bool
listening_after on (make_dir d) x = on
listening_after on (secure_dir d) x = on
listening_after on (dial s) x = on
listening_after on (remove s) x = on
listening_after on (listen s) x = if is_done x then true else on
listening_after on (chmod s) x = on
listening_after on (listen_raw s) x = on
listening_after on close_server x = false

unfoldable pub is_listening : Bool → Log → Bool
is_listening on [] = on
is_listening on ((a, x) ∷ log) = is_listening (listening_after on a x) log

unfoldable pub is_started : {A B : Type 0} → A ⊎ B → Bool
is_started (inl e) = false
is_started (inr b) = true

are_harmless-append : (l k : Log) → are_harmless (l ++ k) ≡ (are_harmless l && are_harmless k)
unfolding are_harmless
are_harmless-append [] k = refl
are_harmless-append ((a, x) ∷ l) k = ground (arith, are_harmless-append l k)

is_listening-append :
    (on : Bool) (l k : Log) → is_listening on (l ++ k) ≡ is_listening (is_listening on l) k
unfolding is_listening
is_listening-append on [] k = refl
is_listening-append on ((a, x) ∷ l) k = is_listening-append (listening_after on a x) l k

module _ (os : Log → Action → Answer) where
  -- The outcome is refused, by harmless calls.
  abbrev pub IsSpared : Outcome → Type 0
  IsSpared (log, result) = (are_harmless log ≡ true) × (is_started result ≡ false)

  attempt-IsSpared :
      (is_fine : Answer → Bool) (log : Log) (a : Action) (why : Refusal) (rest : Log → Outcome)
      → are_harmless log ≡ true
      → is_harmless a ≡ true
      → ((l : Log) → are_harmless l ≡ true → IsSpared (rest l))
      → IsSpared (attempt os is_fine log a why rest)
  unfolding attempt are_harmless is_started
  attempt-IsSpared is_fine log a why rest h g ok = elim (Bool-cases (is_fine (os log a))) [
    | inl e ↦
        rw e (ok (noted os log a) (rw (are_harmless-append log ((a, os log a) ∷ []), h, g) refl))
    | inr e ↦ rw e (rw (are_harmless-append log ((a, os log a) ∷ []), h, g) refl, refl)
  ]

  -- A daemon that answers on the socket is left alone: whatever the system answers to the rest, the
  -- start is refused, and removes, opens and closes nothing.
  pub new_daemon_spares :
      (sock dir raw_sock : Bytes)
      → ((log : Log) → os log (dial sock) ≡ done)
      → let (log, result) = new_daemon os sock dir raw_sock in
        (are_harmless log ≡ true) × (is_started result ≡ false)
  unfolding new_daemon is_harmless are_harmless probe is_started
  new_daemon_spares sock dir raw_sock live =
      attempt-IsSpared is_done [] (make_dir dir) _ _ refl refl λ log h.
        attempt-IsSpared is_done log (secure_dir dir) _ (probe os sock raw_sock) h refl
          λ log h. probed log h
    where
      probed : (log : Log) → are_harmless log ≡ true → IsSpared (probe os sock raw_sock log)
      probed log h = rw (live log) (rw (are_harmless-append log _, h) refl, refl)

  -- The server listens exactly if the start succeeded.
  abbrev pub IsSettled : Outcome → Type 0
  IsSettled (log, result) = is_listening false log ≡ is_started result

  is_listening-noted :
      (log : Log) (a : Action)
      → is_listening false (noted os log a) ≡ listening_after (is_listening false log) a (os log a)
  unfolding is_listening
  is_listening-noted log a = is_listening-append false log ((a, os log a) ∷ [])

  attempt-IsSettled :
      (is_fine : Answer → Bool) (log : Log) (a : Action) (why : Refusal) (rest : Log → Outcome)
      → (is_fine (os log a) ≡ false → is_listening false (noted os log a) ≡ false)
      → (is_fine (os log a) ≡ true → IsSettled (rest (noted os log a)))
      → IsSettled (attempt os is_fine log a why rest)
  unfolding attempt is_started
  attempt-IsSettled is_fine log a why rest off ok = ground arith

  attempt_or_close-IsSettled :
      (is_fine : Answer → Bool) (log : Log) (a : Action) (why : Refusal) (rest : Log → Outcome)
      → IsSettled (rest (noted os log a))
      → IsSettled (attempt_or_close os is_fine log a why rest)
  unfolding attempt_or_close is_started listening_after
  attempt_or_close-IsSettled is_fine log a why rest ok = elim (Bool-cases (is_fine (os log a))) [
    | inl e ↦ rw e ok
    | inr e ↦ rw e (is_listening-noted (noted os log a) close_server)
  ]

  open_raw-IsSettled :
      (sock raw_sock : Bytes) (log : Log)
      → is_listening false log ≡ true
      → IsSettled (open_raw os sock raw_sock log)
  unfolding open_raw listening_after is_started
  open_raw-IsSettled sock raw_sock log on =
      let l1 = noted os log (remove raw_sock) in
      let l2 = noted os l1 (listen_raw raw_sock) in
      attempt_or_close-IsSettled is_gone log (remove raw_sock) _ _ (
        attempt_or_close-IsSettled is_done l1 (listen_raw raw_sock) _ _ (
          attempt_or_close-IsSettled is_done l2 (chmod raw_sock) _ _ (
            is_listening-noted l2 (chmod raw_sock)
            ∙ is_listening-noted l1 (listen_raw raw_sock)
            ∙ is_listening-noted log (remove raw_sock)
            ∙ on)))

  open_socket-IsSettled :
      (sock raw_sock : Bytes) (log : Log)
      → is_listening false log ≡ false
      → IsSettled (open_socket os sock raw_sock log)
  unfolding open_socket listening_after
  open_socket-IsSettled sock raw_sock log off =
      let l1 = noted os log (remove sock) in
      let l2 = noted os l1 (listen sock) in
      let off1 : is_listening false l1 ≡ false = is_listening-noted log (remove sock) ∙ off in
      attempt-IsSettled is_gone log (remove sock) _ _ (λ e. off1)
        λ e.
          attempt-IsSettled is_done l1 (listen sock) _ _
            (λ e. is_listening-noted l1 (listen sock) ∙ rw (e, off1) refl)
            λ e. attempt_or_close-IsSettled is_done l2 (chmod sock) _ _ (
              open_raw-IsSettled sock raw_sock (noted os l2 (chmod sock)) (
                is_listening-noted l2 (chmod sock)
                ∙ is_listening-noted l1 (listen sock)
                ∙ rw e refl))

  -- Whatever the system answers, a start leaves the server listening exactly if it succeeds: a refused
  -- start never leaves a listener behind.
  pub new_daemon_settles :
      (sock dir raw_sock : Bytes)
      → let (log, result) = new_daemon os sock dir raw_sock in
        is_listening false log ≡ is_started result
  unfolding new_daemon listening_after probe is_listening is_started
  new_daemon_settles sock dir raw_sock =
      attempt-IsSettled is_done [] (make_dir dir) _ _ (λ e. refl)
        λ e.
          let l1 = noted os [] (make_dir dir) in
          let l2 = noted os l1 (secure_dir dir) in
          let off : is_listening false l2 ≡ false = is_listening-noted l1 (secure_dir dir) in
          attempt-IsSettled is_done l1 (secure_dir dir) _ _ (λ e. off) λ e. probed l2 off
    where
      probed : (log : Log) → is_listening false log ≡ false → IsSettled (probe os sock raw_sock log)
      probed log off =
          let off1 : is_listening false (noted os log (dial sock)) ≡ false =
            is_listening-noted log (dial sock) ∙ off in
          elim (Bool-cases (is_done (os log (dial sock)))) [
            | inl e ↦ rw e off1
            | inr e ↦ rw e (open_socket-IsSettled sock raw_sock (noted os log (dial sock)) off1)
          ]
