-- ===== src/Cli/Ctl.antt =====
-- cmd/pupptyeer/ctl.go: `runCtl`, from its arguments to the message that its command sends first. The
-- flag library's answer for `gc` and `expect`, the configuration file and the system are arguments.
pub mod Flags
pub mod Wide
pub mod Scope
pub mod Subsecond
use pupptyeer.Prelude.{
  ℕ, suc, ◌/◌, ◌%◌, Bool, true, false, not, ◌&&◌, ◌||◌, Option, none, some, ◌⊎◌, inl, inr, Bytes,
  List, [], ◌∷◌, ◌++◌, codes, text_eq, if◌then◌else◌,
}
use pupptyeer.Prelude.Int.{ℤ, pos, negsuc, ◌-ℤ◌, ltb_ℤ}
use pupptyeer.Prelude.Strings.{atoi, has_prefix, is_nil}
use pupptyeer.Client.Wire.{Message}
use pupptyeer.Client.Verbs.{
  Program, SessionOption, with_raw, with_session_id, with_get_or_create, CaptureOption, with_settle,
  new_session_message, list_message, list_all_message, attach_message, write_message,
  capture_message, resize_message, kill_message, gc_message, gc_all_message,
}
use pupptyeer.Cli.Keys.{CliConfig}
use pupptyeer.Cli.Load.{LoadError}
use pupptyeer.Cli.Args.{ArgError, NsArgs, extract_ns_flags, parse_dim}
use pupptyeer.Cli.Args.New.{System, NewOptions, parse_new_args}
use pupptyeer.Cli.Args.Steal.{StealOptions, parse_steal_args}

pub data CtlError : Type 0 where
  ctl_usage only_list_and_gc send_usage capture_usage attach_usage resize_usage kill_usage
        gc_usage :
      CtlError
  bad_args : ArgError → CtlError
  bad_settle unknown_flag unknown_command gc_flags : Bytes → CtlError
  bad_config : LoadError → CtlError

-- The names of the commands.
pub data Verb : Type 0 where
  list new send capture attach expect resize kill gc steal : Verb

unfoldable pub verb_of : Bytes → Option Verb
verb_of c =
    if text_eq c (codes "list")
    then some list
    else (if text_eq c (codes "new")
        then some new
        else (if text_eq c (codes "send")
            then some send
            else (if text_eq c (codes "capture")
                then some capture
                else (if text_eq c (codes "attach")
                    then some attach
                    else (if text_eq c (codes "expect")
                        then some expect
                        else (if text_eq c (codes "resize")
                            then some resize
                            else (if text_eq c (codes "kill")
                                then some kill
                                else (if text_eq c (codes "gc")
                                    then some gc
                                    else (if text_eq c (codes "steal")
                                        then some steal
                                        else none)))))))))

-- What stands before the client connects: the namespace of the connection, whether all are meant, the
-- command and its arguments.
pub record Chosen : Type 0 where
  pub ns : Bytes
  pub all : Bool
  pub command : Bytes
  pub args : List Bytes

-- `cmd == "list" || cmd == "gc"`.
abbrev pub is_wide : Bytes → Bool
is_wide command = text_eq command (codes "list") || text_eq command (codes "gc")

abbrev pub merge_flags : Bytes → NsArgs → ArgError ⊎ NsArgs → CtlError ⊎ Chosen
merge_flags command first (inl e) = inl (bad_args e)
merge_flags command first (inr second) = inr (record {
  ns = if is_nil second.ns then first.ns else second.ns;
  all = first.all || second.all;
  command = command;
  args = second.rest;
})

unfoldable pub choose_command : NsArgs → List Bytes → CtlError ⊎ Chosen
choose_command first [] = inl ctl_usage
choose_command first (command ∷ args) =
    if is_wide command
    then merge_flags command first (extract_ns_flags args false)
    else (if first.all
        then inl only_list_and_gc
        else inr (record { ns = first.ns; all = first.all; command = command; args = args }))

abbrev pub choose_after : ArgError ⊎ NsArgs → CtlError ⊎ Chosen
choose_after (inl e) = inl (bad_args e)
choose_after (inr first) = choose_command first first.rest

-- `runCtl` up to `Connect`.
unfoldable pub choose : List Bytes → CtlError ⊎ Chosen
choose [] = inl ctl_usage
choose (a ∷ args) = choose_after (extract_ns_flags (a ∷ args) true)

-- The flags of `capture` so far.
pub record Capturing : Type 0 where
  pub render : Bool
  pub settle_ms : ℤ

abbrev settled : Capturing → Bytes → CtlError ⊎ Capturing
settled s v = elim (atoi v) [
  | none ↦ inl (bad_settle v)
  | some ms ↦ if ltb_ℤ ms (pos 0) then inl (bad_settle v) else inr (record s { settle_ms = ms })
]

-- The loop over them, and the session behind them.
unfoldable pub capture_flags : Capturing → List Bytes → CtlError ⊎ (Capturing × Bytes)
capture_flags s [] = inl capture_usage
capture_flags s (a ∷ []) =
    if has_prefix a (codes "-")
    then (if text_eq a (codes "--render") || text_eq a (codes "--settle")
        then inl capture_usage
        else inl (unknown_flag a))
    else inr (s, a)
capture_flags s (a ∷ b ∷ rest) =
    let rendered = capture_flags (record s { render = true }) (b ∷ rest) in
    let with_time : CtlError ⊎ (Capturing × Bytes) = elim (settled s b) [
      | inl e ↦ inl e
      | inr s' ↦ capture_flags s' rest
    ] in
    if has_prefix a (codes "-")
    then (if text_eq a (codes "--render")
        then rendered
        else (if text_eq a (codes "--settle") then with_time else inl (unknown_flag a)))
    else inr (s, a)

-- A command with its arguments read; `attach` with the size of the terminal, if it is interactive.
pub data Command : Type 0 where
  listing : Command
  creating : NewOptions → CliConfig → Command
  sending : Bytes → Bytes → Command
  capturing : Capturing → Bytes → Command
  watching : Bytes → Command
  interacting : Bytes → CliConfig → Command
  expecting : List Bytes → Command
  resizing : Bytes → ℤ → ℤ → Command
  killing : Bytes → Command
  collecting : ℤ → Command
  stealing : StealOptions → CliConfig → Command

-- What `runCtl` asks of outside: the system, `loadConfig`, whether standard input is a terminal, and the
-- flag set of `gc`, with the nanoseconds of --max-idle (its default is -1) or its error.
pub record Shell : Type 0 where
  pub system : System
  pub config : LoadError ⊎ CliConfig
  pub interactive : Bool
  -- `term.GetSize`, or zeros for its error.
  pub size : ℤ × ℤ
  pub gc_parse : List Bytes → Bytes ⊎ ℤ
  -- Whether the sum of whole seconds and a fraction, of so many nanoseconds, that `Seconds` returns is
  -- rounded, as a float64, to the next whole number.
  pub rounds_up : ℕ → ℕ → Bool

abbrev with_config : Shell → (CliConfig → Command) → CtlError ⊎ Command
with_config sh f = elim sh.config [ inl e ↦ inl (bad_config e) | inr cfg ↦ inr (f cfg) ]

abbrev dims : Bytes → ArgError ⊎ ℤ → ArgError ⊎ ℤ → CtlError ⊎ Command
dims id (inl e) rows = inl (bad_args e)
dims id (inr cols) (inl e) = inl (bad_args e)
dims id (inr cols) (inr rows) = inr (resizing id cols rows)

unfoldable pub read_attach : Shell → List Bytes → CtlError ⊎ Command
read_attach sh [] = inl attach_usage
read_attach sh (a ∷ rest) =
    let read_only = text_eq a (codes "-r") || text_eq a (codes "--read-only") in
    if read_only
    then elim rest [ [] ↦ inl attach_usage | id ∷ more ↦ inr (watching id) ]
    else (if sh.interactive then with_config sh (interacting a) else inr (watching a))

abbrev read_new : Shell → List Bytes → CtlError ⊎ Command
read_new sh args = elim (parse_new_args sh.system args) [
  | inl e ↦ inl (bad_args e)
  | inr o ↦ with_config sh (creating o)
]

abbrev read_send : List Bytes → CtlError ⊎ Command
read_send (id ∷ text ∷ more) = inr (sending id text)
read_send few = inl send_usage

abbrev read_capture : List Bytes → CtlError ⊎ Command
read_capture args = elim (capture_flags (record { render = false; settle_ms = pos 0 }) args) [
  | inl e ↦ inl e
  | inr (s, id) ↦ inr (capturing s id)
]

abbrev read_resize : List Bytes → CtlError ⊎ Command
read_resize (id ∷ cols ∷ rows ∷ more) = dims id (parse_dim cols) (parse_dim rows)
read_resize few = inl resize_usage

abbrev read_kill : List Bytes → CtlError ⊎ Command
read_kill (id ∷ more) = inr (killing id)
read_kill [] = inl kill_usage

abbrev read_gc : Shell → List Bytes → CtlError ⊎ Command
read_gc sh args = elim (sh.gc_parse args) [
  | inl e ↦ inl (gc_flags e)
  | inr d ↦ if ltb_ℤ d (pos 0) then inl gc_usage else inr (collecting d)
]

abbrev read_steal : Shell → List Bytes → CtlError ⊎ Command
read_steal sh args = elim (parse_steal_args args) [
  | inl e ↦ inl (bad_args e)
  | inr o ↦ with_config sh (stealing o)
]

-- The cases of `runCtl`, up to their first call.
unfoldable pub read_command : Shell → Verb → List Bytes → CtlError ⊎ Command
read_command sh list args = inr listing
read_command sh new args = read_new sh args
read_command sh send args = read_send args
read_command sh capture args = read_capture args
read_command sh attach args = read_attach sh args
read_command sh expect args = inr (expecting args)
read_command sh resize args = read_resize args
read_command sh kill args = read_kill args
read_command sh gc args = read_gc sh args
read_command sh steal args = read_steal sh args

-- `runCtl` behind `Connect`.
unfoldable pub read_chosen : Shell → Chosen → CtlError ⊎ Command
read_chosen sh ch = elim (verb_of ch.command) [
  | none ↦ inl (unknown_command ch.command)
  | some v ↦ read_command sh v ch.args
]

abbrev pub new_options : NewOptions → List SessionOption
new_options o =
    (if o.raw then with_raw ∷ [] else [])
    ++ (if is_nil o.requested_id then [] else with_session_id o.requested_id ∷ [])
    ++ (if o.get_or_create then with_get_or_create ∷ [] else [])

abbrev pub program_of : NewOptions → CliConfig → Program
program_of o cfg = record {
  command = o.command;
  args = o.args;
  cwd = o.cwd;
  env = elim o.env [ none ↦ [] | some env ↦ env ];
  cols = cfg.default_cols;
  rows = cfg.default_rows;
}

abbrev pub settle_options : ℤ → List CaptureOption
settle_options ms = if ltb_ℤ (pos 0) ms then with_settle ms ∷ [] else []

abbrev first_list : Bytes → Bool → Message
first_list default all = if all then list_all_message else list_message default []

abbrev nanoseconds : ℕ
nanoseconds = 1000000000

abbrev to_seconds : Shell → ℕ → ℕ
to_seconds sh n =
    let seconds = n / nanoseconds in
    if sh.rounds_up seconds (n % nanoseconds) then suc seconds else seconds

-- `int(d.Seconds())`, which goes towards zero.
unfoldable pub whole_seconds : Shell → ℤ → ℤ
whole_seconds sh (pos n) = pos (to_seconds sh n)
whole_seconds sh (negsuc n) = pos 0 -ℤ pos (to_seconds sh (suc n))

abbrev first_gc : Shell → Bytes → Bool → ℤ → Message
first_gc sh default all d =
    if all then gc_all_message (whole_seconds sh d) else gc_message default (whole_seconds sh d) []

-- The message that the command's first call sends; `expect` and `steal` have checks of their own before
-- they make one.
unfoldable pub first_message : Shell → (Bytes → Bytes) → Bytes → Bool → Command → Option Message
first_message sh encode default all listing = some (first_list default all)
first_message sh encode default all (creating o cfg) =
    some (new_session_message default (program_of o cfg) (new_options o))
first_message sh encode default all (sending id text) =
    some (write_message encode default id text [])
first_message sh encode default all (capturing s id) =
    some (capture_message default id s.render (settle_options s.settle_ms))
first_message sh encode default all (watching id) =
    some (attach_message default id (pos 0) (pos 0) [])
first_message sh encode default all (interacting id cfg) =
    let (cols, rows) = sh.size in some (attach_message default id cols rows [])
first_message sh encode default all (expecting args) = none
first_message sh encode default all (resizing id cols rows) =
    some (resize_message default id cols rows [])
first_message sh encode default all (killing id) = some (kill_message default id [])
first_message sh encode default all (collecting d) = some (first_gc sh default all d)
first_message sh encode default all (stealing o cfg) = none
