-- ===== src/Cli/Args/New.antt =====
-- cmd/pupptyeer/ctl.go: the arguments of `ctl new`. What the program asks the system for (its environment,
-- an absolute path, a file) is an argument.
use pupptyeer.Prelude.{
  ◌⊎◌, inl, inr, Bool, true, false, not, ◌&&◌, ◌||◌, Option, none, some, Bytes, List, [], ◌∷◌,
  codes, text_eq, ◌==◌, if◌then◌else◌,
}
use pupptyeer.Prelude.Assoc.{insert}
use pupptyeer.Prelude.Strings.{cut, split, trim_space, has_prefix, is_nil}
use pupptyeer.Cli.Args.{
  Bytes_eq, ArgError, Env, bad_cwd, bad_env, bad_file, bad_line, empty_env, new_usage, no_base,
}

-- `newOptions`.
pub record NewOptions : Type 0 where
  pub raw : Bool
  pub requested_id : Bytes
  pub get_or_create : Bool
  pub cwd : Bytes
  pub env : Option Env
  pub command : Bytes
  pub args : List Bytes

-- The variables of `parseNewArgs`.
pub record Parsing : Type 0 where
  pub options : NewOptions
  pub env : Env
  pub env_touched : Bool
  pub base_chosen : Bool

-- `filepath.Abs`, `os.ReadFile` and `environ`; the texts on the left are their errors.
pub record System : Type 0 where
  pub absolute : Bytes → Bytes ⊎ Bytes
  pub read_file : Bytes → Bytes ⊎ Bytes
  pub environ : List Bytes

pub data PlainFlag : Type 0 where
  raw_flag get_or_create_flag copy_env_flag clean_env_flag : PlainFlag

pub data ValueFlag : Type 0 where
  id_flag cwd_flag env_flag env_file_flag : ValueFlag

pub data Word : Type 0 where
  plain : PlainFlag → Word
  valued : ValueFlag → Word
  other : Word

unfoldable pub word_of : Bytes → Word
word_of a =
    if text_eq a (codes "--raw")
    then plain raw_flag
    else (if text_eq a (codes "--get-or-create")
        then plain get_or_create_flag
        else (if text_eq a (codes "--copy-env")
            then plain copy_env_flag
            else (if text_eq a (codes "--clean-env") || text_eq a (codes "-i")
                then plain clean_env_flag
                else (if text_eq a (codes "--id")
                    then valued id_flag
                    else (if text_eq a (codes "--cwd")
                        then valued cwd_flag
                        else (if text_eq a (codes "--env")
                            then valued env_flag
                            else (if text_eq a (codes "--env-file")
                                then valued env_file_flag
                                else other)))))))

-- The loop of `--copy-env`.
unfoldable pub merge_environ : List Bytes → Env → Env
merge_environ [] env = env
merge_environ (kv ∷ kvs) env = elim (cut b'=' kv) [
  | none ↦ merge_environ kvs env
  | some (k, v) ↦ merge_environ kvs (if is_nil k then env else insert k v env)
]

unfoldable pub apply_plain : System → PlainFlag → Parsing → Parsing
apply_plain sys raw_flag s = record s { options = record s.options { raw = true } }
apply_plain sys get_or_create_flag s = record s {
  options = record s.options { get_or_create = true };
}
apply_plain sys copy_env_flag s = record s {
  env = merge_environ sys.environ s.env;
  env_touched = true;
  base_chosen = true;
}
apply_plain sys clean_env_flag s = record s { env = []; env_touched = true; base_chosen = true }

abbrev pub trim_cr : Bytes → Bytes
trim_cr [] = []
trim_cr (b ∷ bs) = if b == 13 && is_nil bs then [] else b ∷ trim_cr bs

-- The loop of `readEnvFile` over the lines.
unfoldable pub read_lines : List Bytes → Env → ArgError ⊎ Env
read_lines [] env = inr env
read_lines (raw ∷ lines) env =
    let line = trim_cr raw in
    let t = trim_space line in
    if is_nil t || has_prefix t (codes "#") then read_lines lines env else elim (cut b'=' line) [
      | none ↦ inl (bad_line t)
      | some (k, v) ↦
          if is_nil (trim_space k)
          then inl (bad_line t)
          else read_lines lines (insert (trim_space k) v env)
    ]

-- `readEnvFile`.
unfoldable pub read_env_file : System → Bytes → Env → ArgError ⊎ Env
read_env_file sys path env = elim (sys.read_file path) [
  | inl e ↦ inl (bad_file e)
  | inr text ↦ read_lines (split 10 text) env
]

abbrev pub set_env : Parsing → Env → Parsing
set_env s env = record s { env = env; env_touched = true }

unfoldable pub apply_valued : System → ValueFlag → Bytes → Parsing → ArgError ⊎ Parsing
apply_valued sys id_flag v s = inr (record s { options = record s.options { requested_id = v } })
apply_valued sys cwd_flag v s = elim (sys.absolute v) [
  | inl e ↦ inl (bad_cwd e)
  | inr path ↦ inr (record s { options = record s.options { cwd = path } })
]
apply_valued sys env_flag kv s = elim (cut b'=' kv) [
  | none ↦ inl (bad_env kv)
  | some (k, v) ↦ if is_nil k then inl (bad_env kv) else inr (set_env s (insert k v s.env))
]
apply_valued sys env_file_flag path s = elim (read_env_file sys path s.env) [
  | inl e ↦ inl e
  | inr env ↦ inr (set_env s env)
]

-- The loop of `parseNewArgs`.
unfoldable pub new_flags : System → Parsing → List Bytes → ArgError ⊎ (Parsing × List Bytes)
new_flags sys s [] = inr (s, [])
new_flags sys s (a ∷ []) = elim (word_of a) [
  | plain f ↦ inr (apply_plain sys f s, [])
  | valued f ↦ inl new_usage
  | other ↦ inr (s, a ∷ [])
]
new_flags sys s (a ∷ b ∷ rest) = elim (word_of a) [
  | plain f ↦ new_flags sys (apply_plain sys f s) (b ∷ rest)
  | valued f ↦ elim (apply_valued sys f b s) [ inl e ↦ inl e | inr s' ↦ new_flags sys s' rest ]
  | other ↦ inr (s, a ∷ b ∷ rest)
]

abbrev pub no_options : NewOptions
no_options = record {
  raw = false;
  requested_id = [];
  get_or_create = false;
  cwd = [];
  env = none;
  command = [];
  args = [];
}

abbrev pub is_empty_env : Env → Bool
is_empty_env [] = true
is_empty_env (kv ∷ env) = false

unfoldable pub finish_new : Parsing → List Bytes → ArgError ⊎ NewOptions
finish_new s [] = inl new_usage
finish_new s (command ∷ args) =
    if s.env_touched && not s.base_chosen
    then inl no_base
    else (if s.env_touched && is_empty_env s.env
        then inl empty_env
        else inr (record s.options {
          env = if s.env_touched then some s.env else none;
          command = command;
          args = args;
        }))

-- `parseNewArgs`.
unfoldable pub parse_new_args : System → List Bytes → ArgError ⊎ NewOptions
parse_new_args sys args =
    let start : Parsing = record {
      options = no_options;
      env = [];
      env_touched = false;
      base_chosen = false;
    } in
    elim (new_flags sys start args) [ inl e ↦ inl e | inr (s, rest) ↦ finish_new s rest ]
