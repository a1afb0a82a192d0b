-- ===== src/Cli/AttachLoop.antt =====
-- cmd/pupptyeer/ctl.go: the loops of `ctl attach` behind the client's `Attach`. Base64's DecodeString is
-- an argument: the bytes that it returns, also next to an error.
pub mod Events
pub mod Shown
pub mod Typed
use pupptyeer.Prelude.{
  ℕ, Bool, true, false, not, ◌&&◌, Option, none, some, Bytes, List, [], ◌∷◌, ◌++◌, codes, text_eq,
  if◌then◌else◌,
}
use pupptyeer.Prelude.Int.{ℤ}
use pupptyeer.Prelude.Strings.{is_nil}
use pupptyeer.Client.Wire.{Message}
use pupptyeer.Cli.Matcher.{Matcher, Fed, feed}

-- The events that the loops tell apart by their type.
pub data Event : Type 0 where
  output exit session_closed scrollback_end other : Event

unfoldable pub event_of : Bytes → Event
event_of t =
    if text_eq t (codes "output")
    then output
    else (if text_eq t (codes "exit")
        then exit
        else (if text_eq t (codes "session_closed")
            then session_closed
            else (if text_eq t (codes "scrollback_end") then scrollback_end else other)))

-- `m.Session == session && m.Namespace == c.Namespace()`.
unfoldable pub is_addressed : Bytes → Bytes → Message → Bool
is_addressed ns session m = text_eq m.session session && text_eq m.namespace ns

-- What the loops do: bytes on standard output, notes on standard error, and messages to the daemon.
pub data Action : Type 0 where
  stdout : Bytes → Action
  note_exited : ℤ → Action
  note_closed note_detached : Action
  write_pane : Bytes → Action
  resize : ℤ → ℤ → Action

-- How a loop returns: with the error of `Detach`, which it calls, or with none.
pub data Leaving : Type 0 where
  by_detach at_end : Leaving

-- What a round of a loop does, and whether it returns.
abbrev pub Round : Type 0
Round = List Action × Option Leaving

-- What `ctlAttach` meets: a signal, an event, the end of the events.
pub data Input : Type 0 where
  signal : Input
  message : Message → Input
  events_over : Input

module _ (bytes_of : Bytes → Bytes) (ns session : Bytes) where
  -- The bytes of `OutputBytes`, whose error is passed over.
  unfoldable pub message_bytes : Message → Bytes
  message_bytes m = if is_nil m.payload then [] else bytes_of m.payload

  unfoldable pub show_event : Event → Message → Round
  show_event output m = (stdout (message_bytes m) ∷ [], none)
  show_event exit m = elim m.exit_code [
    | none ↦ ([], none)
    | some code ↦ (note_exited code ∷ [], none)
  ]
  show_event session_closed m = (note_closed ∷ [], some at_end)
  show_event scrollback_end m = ([], none)
  show_event other m = ([], none)

  -- The case of both loops for a message from `Events`.
  unfoldable pub show_message : Message → Round
  show_message m = if is_addressed ns session m then show_event (event_of m.type) m else ([], none)

  unfoldable pub watch_round : Input → Round
  watch_round signal = ([], some by_detach)
  watch_round (message m) = show_message m
  watch_round events_over = ([], some at_end)

  abbrev pub after_round : Round → Round → Round
  after_round (acts, some leaving) rest = (acts, some leaving)
  after_round (acts, none) (more, leaving) = (acts ++ more, leaving)

  -- The loop of `ctlAttach`, until it returns or what it meets is used up.
  unfoldable pub watch : List Input → Round
  watch [] = ([], none)
  watch (i ∷ is) = after_round (watch_round i) (watch is)

-- `ctlAttachInteractive`: the matcher of its reading goroutine, whether that still runs, and whether
-- the loop does.
pub record Terminal : Type 0 where
  pub matcher : Matcher
  pub reading : Bool
  pub looping : Bool

-- What it meets: a read of standard input with its bytes, whether it failed, and whether `WritePane`
-- did; the `detached` channel, closed; a signal; a new window size, or an error of `GetSize`; an event;
-- and the end of the events.
pub data Happening : Type 0 where
  read : Bytes → Bool → Bool → Happening
  detached : Happening
  interrupt : Happening
  winch : Option (ℤ × ℤ) → Happening
  arrival : Message → Happening
  no_more : Happening

abbrev panes : Bytes → List Action
panes bs = if is_nil bs then [] else write_pane bs ∷ []

-- A round of the reading goroutine.
unfoldable pub forward : Matcher → Bytes → Bool → Bool → Matcher × Bool × List Action
forward m [] failed unsent = (m, not failed, [])
forward m (b ∷ bs) failed unsent =
    let fed = feed m (b ∷ bs) in
    if not (is_nil fed.out) && unsent
    then (fed.matcher, false, panes fed.out)
    else (fed.matcher, not fed.detached && not failed, panes fed.out)

unfoldable pub votes_of : Option (ℤ × ℤ) → List Action
votes_of none = []
votes_of (some (cols, rows)) = resize cols rows ∷ []

abbrev pub stays : Option Leaving → Bool
stays none = true
stays (some leaving) = false

module _ (bytes_of : Bytes → Bytes) (ns session : Bytes) where
  abbrev pub looped : Terminal → Round → Option (Terminal × List Action)
  looped t (acts, leaving) =
      if t.looping then some (record t { looping = stays leaving }, acts) else none

  -- One of these, `none` where it cannot happen; the goroutine and the loop take turns in any order.
  unfoldable pub happen : Terminal → Happening → Option (Terminal × List Action)
  happen t (read bs failed unsent) =
      let (m, going, acts) = forward t.matcher bs failed unsent in
      if t.reading then some (record t { matcher = m; reading = going }, acts) else none
  happen t detached = if t.reading then none else looped t (note_detached ∷ [], some by_detach)
  happen t interrupt = looped t ([], some by_detach)
  happen t (winch size) = looped t (votes_of size, none)
  happen t (arrival m) = looped t (show_message bytes_of ns session m)
  happen t no_more = looped t ([], some at_end)

  abbrev pub and_then :
      List Action → Option (Terminal × List Action) → Option (Terminal × List Action)
  and_then acts none = none
  and_then acts (some (t, more)) = some (t, acts ++ more)

  -- A run of the goroutine and the loop.
  unfoldable pub interact : Terminal → List Happening → Option (Terminal × List Action)
  interact t [] = some (t, [])
  interact t (h ∷ hs) = elim (happen t h) [
    | none ↦ none
    | some (t', acts) ↦ and_then acts (interact t' hs)
  ]
