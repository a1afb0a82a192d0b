-- ===== src/Dispatch/Tests.antt =====
-- The theorems on the creation of a session at concrete inputs.
use pupptyeer.Prelude.{◌≡◌, ◌⊎◌, ◌+◌, refl, true, false, none, some, codes, text_eq}
use pupptyeer.Prelude.Int.{pos, negsuc}
use pupptyeer.Prelude.Assoc.{lookup}
use pupptyeer.Core.{exit_error, success}
use pupptyeer.Protocol.{Message, blank, request_of}
use pupptyeer.World.{World, SessKey_eq, key_of, ns_of, add_session, get_session, set_core}
use pupptyeer.World.Sample.{host, world, empty_world}
use pupptyeer.Attach
use pupptyeer.Daemon.{Outside}
use pupptyeer.Dispatch.Answers.{is_call, dispatch_answers}
use pupptyeer.Dispatch.Answers.Sent.{replies}
use pupptyeer.Dispatch.{dispatch, holder}
use pupptyeer.Dispatch.Create.{dead_registered}

abbrev outside : Outside
outside = record {
  now = pos 10;
  spawn = λ c cols rows. none;
  fresh_id = codes "f";
  reaped = exit_error (negsuc 0);
  locked = true;
}

-- A request for the id of session 0.
abbrev ask : Message
ask = record blank { id = pos 7; command = codes "sh"; requested_id = codes "a" }

ask-held : holder host world (ns_of ask.namespace) ask.requested_id ≡ some 0
unfolding holder get_session ns_of lookup text_eq
ask-held = refl

-- A world in which the child of session 0 has ended before the session is registered.
abbrev early : World host
early =
    set_core host empty_world 0
      (record (empty_world.sess_at 0).core { alive = false; finished = true; exited = true })

dead_registered_example :
    let w' = (add_session host early 0).0 in
    (lookup (key_of host (early.sess_at 0)) w'.sessions ≡ some 0)
    × (lookup (key_of host (early.sess_at 0)) (Attach.kill host w' 0 success).sessions ≡ some 0)
unfolding lookup text_eq
dead_registered_example = dead_registered host early 0 success refl refl

-- A request of the same connection for the list.
abbrev list : Message
list = record blank { type = codes "list_sessions"; id = pos 7 }

dispatch_answers_example :
    let x = world.conn_at 0 in
    let y = (dispatch host world outside 0 list).conn_at 0 in
    (y.done ≡ false)
    × ((y.dropping ≡ true)
        ⊎ ((y.dropping ≡ x.dropping) × (replies (pos 7) y.out ≡ replies (pos 7) x.out + 1)))
unfolding request_of is_call text_eq
dispatch_answers_example = dispatch_answers host 0 list refl world outside refl refl
