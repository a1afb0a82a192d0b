-- ===== src/Boot/Service.antt =====
-- cmd/pupptyeer/daemon.go: `runDaemon`, the commands that manage the daemon as a service, and what they
-- write of systemd's beside the unit. The service (kardianos/service), the system and systemctl answer
-- the calls through `os`, by the calls before; `join` is filepath.Join and `quote` is %q. Texts are
-- ASCII. The warning of a failed `add-wants`, on stderr, is left out.
pub mod Clean
pub mod Left
use pupptyeer.Prelude.{
  ℕ, ◌≡◌, ◌⊎◌, inl, inr, Bool, true, false, ◌||◌, Option, none, some, Bytes, List, [], ◌∷◌, ◌++◌,
  codes, text_eq, if◌then◌else◌,
}
use pupptyeer.Prelude.Int.{ℤ, pos, leb_ℤ}
use pupptyeer.Prelude.Strings.{is_nil, is_space, atoi}

-- The service's methods (`control` is `service.Control`), the two calls of `systemctl --user`, and the
-- changes of the file system.
pub data Call : Type 0 where
  run install uninstall start stop status : Call
  control : Bytes → Call
  add_wants daemon_reload : Call
  make_dir : Bytes → Call
  write_file : Bytes → Bytes → Call
  remove remove_all : Bytes → Call

-- No error, os.ErrNotExist or service.ErrNotInstalled, and another error.
pub data Answer : Type 0 where
  done : Answer
  missing failed : Bytes → Answer

abbrev pub is_done : Answer → Bool
is_done done = true
is_done (missing e) = false
is_done (failed e) = false

abbrev pub error_of : Answer → Bytes
error_of done = []
error_of (missing e) = e
error_of (failed e) = e

abbrev pub Log : Type 0
Log = List (Call × Answer)

pub data Status : Type 0 where
  running stopped unknown : Status

-- What does not change: the error of `service.New`, the service's platform and status, the output of
-- `systemctl --version` and the user's home, where they are known.
pub record Host : Type 0 where
  pub unsupported : Option Bytes
  pub platform : Bytes
  pub status : Status
  pub systemd_output : Option Bytes
  pub home : Option Bytes

-- The calls, and the error or what is printed.
abbrev pub Outcome : Type 0
Outcome = Log × (Bytes ⊎ Bytes)

abbrev pub word_then : Bytes → List Bytes → List Bytes
word_then w ws = if is_nil w then ws else w ∷ ws

-- `strings.Fields`, behind the start of a word.
unfoldable pub fields : Bytes → Bytes → List Bytes
fields w [] = word_then w []
fields w (c ∷ s) = elim (is_space c) [
  | true ↦ word_then w (fields [] s)
  | false ↦ fields (w ++ c ∷ []) s
]

abbrev pub version_of : List Bytes → ℤ
version_of [] = pos 0
version_of (w ∷ []) = pos 0
version_of (w ∷ v ∷ ws) =
    if text_eq w (codes "systemd") then elim (atoi v) [ none ↦ pos 0 | some n ↦ n ] else pos 0

unfoldable pub systemd_version : Option Bytes → ℤ
systemd_version none = pos 0
systemd_version (some out) = version_of (fields [] out)

-- The text of the drop-in.
unfoldable pub override : Host → Bytes
override h =
    codes "[Service]\nRestartSec=2\n"
    ++ (if leb_ℤ (pos 254) (systemd_version h.systemd_output)
        then codes "RestartSteps=8\nRestartMaxDelaySec=300\n"
        else [])

abbrev pub status_string : Status → Bytes
status_string running = codes "running"
status_string stopped = codes "installed, stopped"
status_string unknown = codes "unknown"

unfoldable pub status_text : Status → Answer → Bytes ⊎ Bytes
status_text st done = inr (codes "pupptyeer service: " ++ status_string st ++ codes "\n")
status_text st (missing e) = inr (codes "pupptyeer service: not installed\n")
status_text st (failed e) = inl (codes "status: " ++ e)

abbrev pub past_of : Bytes → Bytes
past_of verb =
    if text_eq verb (codes "start")
    then codes "started"
    else (if text_eq verb (codes "stop") then codes "stopped" else codes "restarted")

abbrev pub is_systemd : Host → Bool
is_systemd h = text_eq h.platform (codes "linux-systemd")

module _ (join : List Bytes → Bytes) where
  unfoldable pub user_dir : Bytes → List Bytes
  user_dir home = home ∷ codes ".config" ∷ codes "systemd" ∷ codes "user" ∷ []

  -- `systemdDropInDir`, below a home.
  unfoldable pub drop_in_dir : Bytes → Bytes
  drop_in_dir home = join (user_dir home ++ codes "pupptyeer.service.d" ∷ [])

  -- The link to the unit from what the login starts.
  unfoldable pub wants_link : Bytes → Bytes
  wants_link home =
      join (user_dir home ++ codes "default.target.wants" ∷ codes "pupptyeer.service" ∷ [])

  unfoldable pub override_path : Bytes → Bytes
  override_path home = join (drop_in_dir home ∷ codes "override.conf" ∷ [])

  module _ (quote : Bytes → Bytes) (os : Log → Call → Answer) (h : Host) where
    abbrev pub noted : Log → Call → Log
    noted log a = log ++ (a, os log a) ∷ []

    -- A call whose error is returned behind a prefix.
    unfoldable pub attempt : Bytes → Log → Call → (Log → Outcome) → Outcome
    attempt prefix log a rest =
        if is_done (os log a)
        then rest (noted log a)
        else (noted log a, inl (prefix ++ error_of (os log a)))

    unfoldable pub write_override : Log → Option Bytes → Log
    write_override log none = log
    write_override log (some home) =
        let made = noted log (make_dir (drop_in_dir home)) in
        if is_done (os log (make_dir (drop_in_dir home)))
        then noted made (write_file (override_path home) (override h))
        else made

    unfoldable pub tune_user_service : Log → Log
    tune_user_service log =
        if is_systemd h
        then noted (write_override (noted log add_wants) h.home) daemon_reload
        else log

    abbrev pub cleaned : Log → Option Bytes → Log
    cleaned log none = log
    cleaned log (some home) =
        noted (noted log (remove (wants_link home))) (remove_all (drop_in_dir home))

    unfoldable pub cleanup_user_service : Log → Log
    cleanup_user_service log = if is_systemd h then cleaned log h.home else log

    unfoldable pub install_service : Log → Outcome
    install_service log = attempt (codes "install: ") log install λ log.
        attempt (codes "service installed but failed to start: ") (tune_user_service log) start
          λ log. (
            log,
            inr (
                codes "pupptyeer service installed and started ("
                ++ h.platform
                ++ codes "); it will start automatically at login.\n"),
          )

    unfoldable pub uninstall_service : Log → Outcome
    uninstall_service log =
        attempt (codes "uninstall: ") (cleanup_user_service (noted log stop)) uninstall
          λ log. (log, inr (codes "pupptyeer service stopped and uninstalled.\n"))

    unfoldable pub show_status : Log → Outcome
    show_status log = (noted log status, status_text h.status (os log status))

    unfoldable pub run_verb : Log → Bytes → Outcome
    run_verb log verb =
        if text_eq verb (codes "install")
        then install_service log
        else (if text_eq verb (codes "uninstall") || text_eq verb (codes "remove")
            then uninstall_service log
            else (if text_eq verb (codes "start")
                  || text_eq verb (codes "stop")
                  || text_eq verb (codes "restart")
                then attempt (verb ++ codes ": ") log (control verb)
                    (λ log. (log, inr (codes "pupptyeer service " ++ past_of verb ++ codes ".\n")))
                else (if text_eq verb (codes "status") then show_status log else (
                  log,
                  inl (
                      codes "unknown daemon subcommand "
                      ++ quote verb
                      ++ codes
                          " (use install|uninstall|start|stop|restart|status, or no argument to run in the foreground)"),
                ))))

    unfoldable pub run_args : Log → List Bytes → Outcome
    run_args log [] = attempt [] log run (λ log. (log, inr []))
    run_args log (verb ∷ more) = run_verb log verb

    -- `runDaemon`, behind the calls of earlier commands, with the error of `service.New`.
    unfoldable pub run_daemon_with : Option Bytes → Log → List Bytes → Outcome
    run_daemon_with none log args = run_args log args
    run_daemon_with (some e) log args = (log, inl e)

    unfoldable pub run_daemon : Log → List Bytes → Outcome
    run_daemon log args = run_daemon_with h.unsupported log args
