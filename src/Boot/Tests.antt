-- ===== src/Boot/Tests.antt =====
-- The theorems on the start of the daemon at concrete inputs.
use pupptyeer.Prelude.{◌≡◌, refl, true, false, none, some, Bytes, List, [], ◌∷◌, codes, text_eq}
use pupptyeer.Boot.{
  attempt, attempt_or_close, probe, open_socket, open_raw, Action, dial, remove, Answer, done,
  missing, failed, Log, new_daemon,
}
use pupptyeer.Prelude.Strings.{join, atoi, parse_uint, digits}
use pupptyeer.Boot.Service.{
  Host, running, stopped, run_daemon, wants_link, user_dir, drop_in_dir, override_path, override,
  systemd_version, fields, run_daemon_with, run_args, run_verb, install_service, tune_user_service,
  write_override,
}
use pupptyeer.Boot.Service as Service
use pupptyeer.Boot.Service.Left.{left_by, left_after, is_under, is_gone}
use pupptyeer.Boot.Service.Clean.{runs, uninstall_cleans}
use pupptyeer.Boot.Sockets.{are_harmless, is_started, new_daemon_spares}

abbrev sock : Bytes
sock = codes "d/daemon.sock"

abbrev raw_sock : Bytes
raw_sock = codes "d/daemon.sock.raw"

-- Every call succeeds, the dial too: a daemon is there.
abbrev taken : Log → Action → Answer
taken log a = done

-- Nobody answers, and no socket is left over.
abbrev free : Log → Action → Answer
free log (dial s) = failed
free log (remove s) = missing
free log a = done

new_daemon_spares_example :
    let (log, result) = new_daemon taken sock (codes "d") raw_sock in
    (are_harmless log ≡ true) × (is_started result ≡ false)
new_daemon_spares_example = new_daemon_spares taken sock (codes "d") raw_sock (λ log. refl)

-- The server listens then.
free_starts : is_started (new_daemon free sock (codes "d") raw_sock).1 ≡ true
unfolding new_daemon attempt attempt_or_close probe open_socket open_raw is_started
free_starts = refl

-- A host with systemd 252 whose service answers every call well.
abbrev linux_host : Host
linux_host = record {
  unsupported = none;
  platform = codes "linux-systemd";
  status = running;
  systemd_output = some (codes "systemd 252 (252.5)\n+PAM");
  home = some (codes "/h");
}

abbrev slash : List Bytes → Bytes
slash = join (codes "/")

abbrev all_well : Service.Log → Service.Call → Service.Answer
all_well log a = Service.done

abbrev earlier : List (List Bytes)
earlier = (codes "install" ∷ []) ∷ (codes "status" ∷ []) ∷ (codes "install" ∷ []) ∷ []

-- An install leaves the link, the directory and the drop-in.
installed_left :
    left_by
      (wants_link slash (codes "/h"))
      []
      (runs slash (λ s. s) all_well linux_host [] ((codes "install" ∷ []) ∷ []))
    ≡ override_path slash (codes "/h")
      ∷ drop_in_dir slash (codes "/h")
      ∷ wants_link slash (codes "/h")
      ∷ []
unfolding runs run_daemon run_daemon_with run_args run_verb install_service tune_user_service
    write_override Service.attempt left_by left_after text_eq
installed_left = refl

-- The backoff of the drop-in needs systemd 254.
old_systemd_plain : override linux_host ≡ codes "[Service]\nRestartSec=2\n"
unfolding override systemd_version fields text_eq atoi parse_uint digits
old_systemd_plain = refl

uninstall_cleans_example :
    left_by
      (wants_link slash (codes "/h"))
      []
      (run_daemon slash
        (λ s. s)
        all_well
        linux_host
        (runs slash (λ s. s) all_well linux_host [] earlier)
        (codes "uninstall" ∷ [])).0
    ≡ []
unfolding text_eq is_under join drop_in_dir override_path is_gone user_dir
uninstall_cleans_example =
    uninstall_cleans slash (λ s. s) all_well linux_host (codes "/h") refl refl refl refl
      (λ log. refl) (λ log. refl) earlier
