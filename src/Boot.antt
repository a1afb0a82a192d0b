-- ===== src/Boot.antt =====
-- cmd/pupptyeer/daemon.go: `newDaemon`, the start of the daemon up to its two listening sockets, as the
-- calls that it makes of the system with their answers, and what the service is told. `os` answers a call
-- by those before it.
pub mod Service
pub mod Sockets
mod Tests
use pupptyeer.Prelude.{
  ◌≡◌, ◌⊎◌, inl, inr, Bool, true, false, ◌&&◌, not, Option, none, some, Bytes, List, [], ◌∷◌, ◌++◌,
  codes, if◌then◌else◌,
}
use pupptyeer.Prelude.Strings.{is_nil}

-- `MkdirAll`, `secureSocketDir`, `DialTimeout`, `Remove`, `server.New`, `Chmod`, `ListenRaw` and
-- `Server.Close`.
pub data Action : Type 0 where
  make_dir : Bytes → Action
  secure_dir : Bytes → Action
  dial : Bytes → Action
  remove : Bytes → Action
  listen : Bytes → Action
  chmod : Bytes → Action
  listen_raw : Bytes → Action
  close_server : Action

-- `missing` is os.ErrNotExist.
pub data Answer : Type 0 where
  done missing failed : Answer

pub data Refusal : Type 0 where
  no_dir not_secured already_listening stale_socket no_listener no_mode stale_raw_socket
        no_raw_listener no_raw_mode :
      Refusal

abbrev pub Log : Type 0
Log = List (Action × Answer)

-- A start that was refused, or the path of the socket.
abbrev pub Outcome : Type 0
Outcome = Log × (Refusal ⊎ Bytes)

abbrev is_done : Answer → Bool
is_done done = true
is_done missing = false
is_done failed = false

-- `err != nil && !errors.Is(err, os.ErrNotExist)` is an error.
abbrev is_gone : Answer → Bool
is_gone done = true
is_gone missing = true
is_gone failed = false

module _ (os : Log → Action → Answer) where
  abbrev noted : Log → Action → Log
  noted log a = log ++ (a, os log a) ∷ []

  -- A call that has to be answered well before the rest.
  attempt : (Answer → Bool) → Log → Action → Refusal → (Log → Outcome) → Outcome
  attempt is_fine log a why rest =
      if is_fine (os log a) then rest (noted log a) else (noted log a, inl why)

  -- The same behind `server.New`, whose listener is closed on an error.
  attempt_or_close : (Answer → Bool) → Log → Action → Refusal → (Log → Outcome) → Outcome
  attempt_or_close is_fine log a why rest =
      if is_fine (os log a) then rest (noted log a) else (noted (noted log a) close_server, inl why)

  -- From the raw socket on.
  open_raw : Bytes → Bytes → Log → Outcome
  open_raw sock raw_sock log =
      attempt_or_close is_gone log (remove raw_sock) stale_raw_socket λ log.
        attempt_or_close is_done log (listen_raw raw_sock) no_raw_listener
          λ log. attempt_or_close is_done log (chmod raw_sock) no_raw_mode λ log. (log, inr sock)

  -- From the removal of a stale socket on.
  open_socket : Bytes → Bytes → Log → Outcome
  open_socket sock raw_sock log = attempt is_gone log (remove sock) stale_socket λ log.
      attempt is_done log (listen sock) no_listener
        λ log. attempt_or_close is_done log (chmod sock) no_mode (open_raw sock raw_sock)

  -- Somebody answers on the socket, or nobody does.
  probe : Bytes → Bytes → Log → Outcome
  probe sock raw_sock log =
      if is_done (os log (dial sock))
      then (noted log (dial sock), inl already_listening)
      else open_socket sock raw_sock (noted log (dial sock))

  -- `newDaemon`, with the directory of the socket and the path of the raw one.
  pub new_daemon : Bytes → Bytes → Bytes → Outcome
  new_daemon sock dir raw_sock =
      attempt is_done [] (make_dir dir) no_dir
        λ log. attempt is_done log (secure_dir dir) not_secured (probe sock raw_sock)

-- `svcEnv`: the variables that are set, of the two.
pub svc_env : Bytes → Bytes → List (Bytes × Bytes)
svc_env sock config =
    (if is_nil sock then [] else (codes "PUPPTYEER_SOCK", sock) ∷ [])
    ++ (if is_nil config then [] else (codes "PUPPTYEER_CONFIG", config) ∷ [])
