-- ===== src/Mcp/Tools/Messages.antt =====
-- mcp/tools.go: what the tools with options send.
use pupptyeer.Prelude.{◌≡◌, refl, ◌∙◌, Bool, true, false, Bytes, List, [], ◌∷◌, ◌++◌, if◌then◌else◌}
use pupptyeer.Prelude.Int.{pos}
use pupptyeer.Prelude.Strings.{is_nil}
use pupptyeer.Client.Wire.{Message, blank, type_new_session}
use pupptyeer.Client.Verbs.{
  SessionOption, with_raw, with_session_id, with_get_or_create, in_namespace, new_session_message,
  apply_options, apply_option,
}
use pupptyeer.Mcp.Tools.{NewSession, or_size, program_of, options_of, only_if, only_named}

-- A request for a session of the program, with what the options set.
abbrev asking : NewSession → Bool → Bytes → Bool → Bytes → Message
asking a raw id shared space = record blank {
  type = type_new_session;
  namespace = space;
  command = a.command;
  args = a.args;
  cwd = a.cwd;
  env = a.env;
  cols = or_size a.cols (pos 80);
  rows = or_size a.rows (pos 24);
  raw = raw;
  requested_id = id;
  get_or_create = shared;
}

-- The message that the arguments of `new_session` stand for.
abbrev pub wanted : Bytes → NewSession → Message
wanted default a =
    asking a a.raw a.requested_id a.get_or_create
      (if is_nil a.namespace then default else a.namespace)

module _ (a : NewSession) (space : Bytes) where
  raw-asking :
      (raw : Bool) (rest : List SessionOption)
      → apply_options (asking a false [] false space) (only_if raw with_raw ++ rest)
        ≡ apply_options (asking a raw [] false space) rest
  unfolding apply_options apply_option
  raw-asking true rest = refl
  raw-asking false rest = refl

  id-asking :
      (raw : Bool) (id : Bytes) (rest : List SessionOption)
      → apply_options (asking a raw [] false space) (only_named with_session_id id ++ rest)
        ≡ apply_options (asking a raw id false space) rest
  unfolding apply_options apply_option
  id-asking raw [] rest = refl
  id-asking raw (b ∷ id) rest = refl

  shared-asking :
      (raw : Bool) (id : Bytes) (shared : Bool) (rest : List SessionOption)
      → apply_options (asking a raw id false space) (only_if shared with_get_or_create ++ rest)
        ≡ apply_options (asking a raw id shared space) rest
  unfolding apply_options apply_option
  shared-asking raw id true rest = refl
  shared-asking raw id false rest = refl

  space-asking :
      (raw : Bool) (id : Bytes) (shared : Bool) (other : Bytes)
      → apply_options (asking a raw id shared space) (only_named in_namespace other)
        ≡ asking a raw id shared (if is_nil other then space else other)
  unfolding apply_options apply_option
  space-asking raw id shared [] = refl
  space-asking raw id shared (b ∷ other) = refl

-- The tool `new_session` sends the message of its arguments: a size of 0 is 80 columns and 24 rows, no
-- namespace is the connection's, and every other argument arrives as it was given.
pub new_session_message-tool :
    (default : Bytes) (a : NewSession)
    → new_session_message default (program_of a) (options_of a) ≡ wanted default a
unfolding new_session_message program_of options_of
new_session_message-tool default a =
    raw-asking a default a.raw _
    ∙ id-asking a default a.raw a.requested_id _
    ∙ shared-asking a default a.raw a.requested_id a.get_or_create _
    ∙ space-asking a default a.raw a.requested_id a.get_or_create a.namespace
