-- ===== src/Boot/Service/Clean.antt =====
-- cmd/pupptyeer/daemon.go: what `install` writes beside the unit, and `uninstall` takes away.
use pupptyeer.Prelude.{
  ◌≡◌, inl, inr, refl, sym, subst, ◌∙◌, Bool, true, false, Option, none, some, Bytes, List, [], ◌∷◌,
  codes, text_eq, arith, Bool-cases, if◌then◌else◌,
}
use pupptyeer.Boot.Service.{
  Call, run, install, uninstall, start, stop, status, control, add_wants, daemon_reload, make_dir,
  write_file, remove, remove_all, Answer, Log, Host, Outcome, override, is_systemd, is_done,
  drop_in_dir, wants_link, override_path, noted, attempt, write_override, tune_user_service,
  cleaned, cleanup_user_service, run_daemon_with, run_args, install_service, uninstall_service,
  show_status, run_verb, run_daemon,
}
use pupptyeer.Boot.Service.Left.{
  is_under, is_gone, is_under_refl, left_after, left_by, left_by-append, is_ours, are_ours, fits,
  left_after-ours, ours-removed,
}

module _ (join : List Bytes → Bytes) (quote : Bytes → Bytes) (os : Log → Call → Answer)
    (h : Host) where
  -- Commands in turn: the calls of all of them.
  unfoldable pub runs : Log → List (List Bytes) → Log
  runs log [] = log
  runs log (args ∷ commands) = runs (run_daemon join quote os h log args).0 commands

  module _ (home : Bytes) (known : h.home ≡ some home)
      (below : is_under (drop_in_dir join home) (override_path join home) ≡ true) where
    abbrev left : Log → List Bytes
    left log = left_by (wants_link join home) [] log

    abbrev IsKept : Log → Type 0
    IsKept log = are_ours (wants_link join home) (drop_in_dir join home) (left log) ≡ true

    abbrev suits : Call → Bool
    suits = fits (wants_link join home) (drop_in_dir join home)

    abbrev next : Log → Call → Log
    next = noted join quote os h

    left-noted :
        (log : Log) (a : Call)
        → left (next log a) ≡ left_after (wants_link join home) (left log) a (os log a)
    unfolding left_by
    left-noted log a = left_by-append (wants_link join home) [] log ((a, os log a) ∷ [])

    noted-IsKept : (log : Log) (a : Call) → suits a ≡ true → IsKept log → IsKept (next log a)
    noted-IsKept log a g k = ground (
      arith,
      left-noted log a,
      left_after-ours (wants_link join home) (drop_in_dir join home) (left log) a (os log a) g k,
    )

    attempt-IsKept :
        (prefix : Bytes) (log : Log) (a : Call) (rest : Log → Outcome)
        → suits a ≡ true
        → IsKept log
        → ((l : Log) → IsKept l → IsKept (rest l).0)
        → IsKept (attempt join quote os h prefix log a rest).0
    unfolding attempt
    attempt-IsKept prefix log a rest g k ok = elim (Bool-cases (is_done (os log a))) [
      | inl e ↦ rw e (ok (next log a) (noted-IsKept log a g k))
      | inr e ↦ rw e (noted-IsKept log a g k)
    ]

    abbrev dir : Bytes
    dir = drop_in_dir join home

    under-IsOurs : (p : Bytes) → is_under dir p ≡ true → is_ours (wants_link join home) dir p ≡ true
    unfolding is_ours
    under-IsOurs p u = ground arith

    write_override-IsKept :
        (log : Log) → IsKept log → IsKept (write_override join quote os h log (some home))
    unfolding write_override fits
    write_override-IsKept log k =
        let made = next log (make_dir dir) in
        let k1 : IsKept made =
          noted-IsKept log (make_dir dir) (under-IsOurs dir (is_under_refl dir)) k in
        elim (Bool-cases (is_done (os log (make_dir dir)))) [
          | inl e ↦ rw e (
              noted-IsKept made (write_file (override_path join home) (override h))
                (under-IsOurs (override_path join home) below) k1)
          | inr e ↦ rw e k1
        ]

    at_home :
        (f : Log → Option Bytes → Log) (log : Log)
        → IsKept (f log (some home))
        → IsKept (f log h.home)
    at_home f log k = subst (λ o. IsKept (f log o)) (sym known) k

    tune_user_service-IsKept :
        (log : Log) → IsKept log → IsKept (tune_user_service join quote os h log)
    unfolding tune_user_service fits
    tune_user_service-IsKept log k = elim (Bool-cases (is_systemd h)) [
      | inl e ↦ rw e (
          noted-IsKept _ daemon_reload refl (
            at_home (write_override join quote os h) _
              (write_override-IsKept _ (noted-IsKept log add_wants refl k))))
      | inr e ↦ rw e k
    ]

    install_service-IsKept :
        (log : Log) → IsKept log → IsKept (install_service join quote os h log).0
    unfolding install_service fits
    install_service-IsKept log k =
        attempt-IsKept _ log install _ refl k
          λ log k. attempt-IsKept _ _ start _ refl (tune_user_service-IsKept log k) λ log k. k

    uninstall_service-IsKept :
        (log : Log) → IsKept log → IsKept (uninstall_service join quote os h log).0
    unfolding uninstall_service cleanup_user_service fits
    uninstall_service-IsKept log k = attempt-IsKept _ _ uninstall _ refl swept λ log k. k
      where
        stopped : IsKept (next log stop)
        stopped = noted-IsKept log stop refl k

        swept : IsKept (cleanup_user_service join quote os h (next log stop))
        swept = elim (Bool-cases (is_systemd h)) [
          | inl e ↦ rw e (
              at_home (cleaned join quote os h) _ (
                noted-IsKept _ (remove_all dir) refl
                  (noted-IsKept _ (remove (wants_link join home)) refl stopped)))
          | inr e ↦ rw e stopped
        ]

    if-IsKept : (b : Bool) (x y : Outcome) → IsKept x.0 → IsKept y.0 → IsKept (if b then x else y).0
    if-IsKept true x y k l = k
    if-IsKept false x y k l = l

    run_verb-IsKept :
        (log : Log) (verb : Bytes) → IsKept log → IsKept (run_verb join quote os h log verb).0
    unfolding run_verb show_status fits
    run_verb-IsKept log verb k = if-IsKept _ _ _ (install_service-IsKept log k) (
        if-IsKept _ _ _ (uninstall_service-IsKept log k) (
          if-IsKept _ _ _ (attempt-IsKept _ log (control verb) _ refl k (λ log k. k))
            (if-IsKept _ _ _ (noted-IsKept log status refl k) k)))

    run_daemon-IsKept :
        (o : Option Bytes) (log : Log) (args : List Bytes)
        → IsKept log
        → IsKept (run_daemon_with join quote os h o log args).0
    unfolding run_daemon_with run_args fits
    run_daemon-IsKept (some e) log args k = k
    run_daemon-IsKept none log [] k = attempt-IsKept [] log run _ refl k (λ log k. k)
    run_daemon-IsKept none log (verb ∷ more) k = run_verb-IsKept log verb k

    runs-IsKept :
        (commands : List (List Bytes)) (log : Log) → IsKept log → IsKept (runs log commands)
    unfolding runs run_daemon
    runs-IsKept [] log k = k
    runs-IsKept (args ∷ commands) log k =
        runs-IsKept commands _ (run_daemon-IsKept h.unsupported log args k)

    swept :
        (log : Log)
        → is_gone (os log (remove (wants_link join home))) ≡ true
        → is_gone (os (next log (remove (wants_link join home))) (remove_all dir)) ≡ true
        → IsKept log
        → left (cleaned join quote os h log (some home)) ≡ []
    unfolding left_after
    swept log a b k =
        let unlinked = next log (remove (wants_link join home)) in
        left-noted unlinked (remove_all dir)
        ∙ rw (left-noted log (remove (wants_link join home)), a, b)
            (ours-removed (wants_link join home) dir (left log) k)

    -- `uninstall` behind a log, on a systemd host.
    uninstall_service-left :
        (log : Log)
        → is_systemd h ≡ true
        → left (cleaned join quote os h (next log stop) (some home)) ≡ []
        → left (uninstall_service join quote os h log).0 ≡ []
    unfolding uninstall_service cleanup_user_service attempt left_after
    uninstall_service-left log linux e =
        let spotless = cleanup_user_service join quote os h (next log stop) in
        let clean : left spotless ≡ [] =
          rw linux
            (subst (λ o. left (cleaned join quote os h (next log stop) o) ≡ []) (sym known) e) in
        elim (Bool-cases (is_done (os spotless uninstall))) [
          | inl d ↦ rw d (left-noted spotless uninstall ∙ clean)
          | inr d ↦ rw d (left-noted spotless uninstall ∙ clean)
        ]

    -- On a systemd host whose home is known, which the service library supports, and where the link to the
    -- unit and the drop-in can be removed: after any commands of `pupptyeer daemon`, failed ones included, `uninstall` leaves nothing
    -- of what they wrote beside the unit, whatever the service manager answers, also when the uninstall
    -- itself fails. The override's path is below the drop-in's directory.
    pub uninstall_cleans :
        is_systemd h ≡ true
        → h.unsupported ≡ none
        → ((log : Log) → is_gone (os log (remove (wants_link join home))) ≡ true)
        → ((log : Log) → is_gone (os log (remove_all (drop_in_dir join home))) ≡ true)
        → (commands : List (List Bytes))
        → let before = runs [] commands in
          left_by
            (wants_link join home)
            []
            (run_daemon join quote os h before (codes "uninstall" ∷ [])).0
          ≡ []
    unfolding run_daemon run_daemon_with run_args run_verb uninstall_service fits are_ours left_by
        text_eq attempt
    uninstall_cleans linux supported unlinks empties commands =
        let log = runs [] commands in
        subst (λ o. left (run_daemon_with join quote os h o log (codes "uninstall" ∷ [])).0 ≡ [])
          (sym supported)
          (uninstall_service-left log linux (
            swept (next log stop) (unlinks _) (empties _)
              (noted-IsKept log stop refl (runs-IsKept commands [] refl))))
