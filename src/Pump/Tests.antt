-- ===== src/Pump/Tests.antt =====
-- A run of the daemon's goroutines, and the theorem on runs at it.
use pupptyeer.Prelude.{
  ◌+◌, ◌⊎◌, ◌++◌, replicate, length, ℕ, zero, suc, ◌≡◌, refl, true, false, Bool, Option, none, some,
  List, [], ◌∷◌, codes, arith, text_eq,
}
use pupptyeer.Prelude.Int.{pos}
use pupptyeer.Core.{exit_error}
use pupptyeer.Protocol.{Message, blank, request_of}
use pupptyeer.World.{send, send_error, push_message}
use pupptyeer.World.Sample.{host, world}
use pupptyeer.Daemon.{Outside, accept}
use pupptyeer.Dispatch.{dispatch, dispatch_request}
use pupptyeer.Pump.{Pump, Op, accepts, reads, writes, accept_conn, take_out, step, run}
use pupptyeer.Pump.Order.{Flow}
use pupptyeer.Dispatch.Answers.{is_call}
use pupptyeer.Dispatch.Answers.Sent.{replies}
use pupptyeer.Pump.Served.{request_served}
use pupptyeer.Pump.Runs.{run_in_order}

abbrev is_open : ℕ → Bool
is_open zero = true
is_open (suc c) = false

abbrev daemon : Pump host
daemon = record {
  world = world;
  listening = true;
  reading = is_open;
  writing = is_open;
  tried = λ c. [];
  raw_writing = λ r. false;
  raw_tried = λ r. [];
  pipe = λ r. none;
}

abbrev outside : Outside
outside = record {
  now = pos 10;
  spawn = λ c cols rows. none;
  fresh_id = codes "f";
  reaped = exit_error (pos 1);
  locked = true;
}

-- Two requests of an unknown type, of which one answer is written; another connection comes between.
abbrev requests : List Op
requests =
    reads 0 outside (record blank { type = codes "x"; id = pos 1 })
    ∷ accepts
    ∷ reads 0 outside (record blank { type = codes "y"; id = pos 2 })
    ∷ writes 0
    ∷ []

abbrev or_daemon : Option (Pump host) → Pump host
or_daemon none = daemon
or_daemon (some p) = p

abbrev after_requests : Pump host
after_requests = or_daemon (run host daemon requests)

run-requests : run host daemon requests ≡ some after_requests
unfolding run step accept_conn accept dispatch dispatch_request request_of text_eq send_error send
    push_message take_out
run-requests = refl

run_in_order_example :
    Flow (world.conn_at 0) (after_requests.world.conn_at 0) [] (after_requests.tried 0)
run_in_order_example = run_in_order host 0 daemon after_requests requests (omega arith) run-requests

abbrev list_request : Message
list_request = record blank { type = codes "list_sessions"; id = pos 7 }

request_served_example :
    let y = (dispatch host world outside 0 list_request).conn_at 0 in
    (q : Pump host) × (run host daemon
        (reads 0 outside list_request ∷ replicate (length y.out) (writes 0))
      ≡ some q)
    × ((q.world.conn_at 0).out ≡ [])
    × ((y.dropping ≡ true)
        ⊎ (replies (pos 7) (q.tried 0) ≡ replies (pos 7) ([] ++ (world.conn_at 0).out) + 1))
unfolding is_call request_of text_eq
request_served_example = request_served host 0 list_request refl daemon outside refl refl refl refl
