-- ===== src/Cli/Args/Payload.antt =====
-- cmd/pupptyeer/ctl.go: what the parsing of arguments leaves for the command, and its environment.
use pupptyeer.Prelude.{
  arith, ◌≡◌, ◌⊎◌, inl, inr, refl, ap, Bool, true, false, ◌&&◌, Option, none, some, Bytes, List, [],
  ◌∷◌, ◌++◌, if◌then◌else◌, Bool-cases,
}
use pupptyeer.Cli.Args.{
  Env, NsArgs, ArgError, missing_namespace, is_ns_flag, is_all_flag, ns_flags, extract_ns_flags,
}
use pupptyeer.Cli.Args.New.{
  System, Parsing, NewOptions, Word, PlainFlag, ValueFlag, is_empty_env, no_options, plain, valued,
  other, word_of, apply_plain, apply_valued, new_flags, finish_new, parse_new_args,
}

-- The words left over are the end of the arguments.
abbrev pub IsEnd : List Bytes → List Bytes → Type 0
IsEnd rest args = (used : List Bytes) × (used ++ rest ≡ args)

IsEnd-more : (a : Bytes) (rest args : List Bytes) → IsEnd rest args → IsEnd rest (a ∷ args)
IsEnd-more a rest args (used, e) = (a ∷ used, ap (◌∷◌ a) e)

abbrev pub NsEnd : List Bytes → ArgError ⊎ NsArgs → Type 0
NsEnd args (inl e) = e ≡ missing_namespace
NsEnd args (inr r) = IsEnd r.rest args

ns_more :
    (a : Bytes) (args : List Bytes) (r : ArgError ⊎ NsArgs) → NsEnd args r → NsEnd (a ∷ args) r
ns_more a args (inl e) h = h
ns_more a args (inr r) h = IsEnd-more a r.rest args h

ns_flags-NsEnd :
    (ns : Bytes) (all : Bool) (args : List Bytes) → NsEnd args (ns_flags true ns all args)
unfolding ns_flags
ns_flags-NsEnd ns all [] = ([], refl)
ns_flags-NsEnd ns all (a ∷ []) = elim (Bool-cases (is_ns_flag a)) [
  | inl named ↦ rw (named, ns_flags) refl
  | inr unnamed ↦ elim (Bool-cases (is_all_flag a)) [
    | inl every ↦ rw (unnamed, ns_flags) (rw (every, ns_flags) (a ∷ [], refl))
    | inr word ↦ rw (unnamed, ns_flags) (rw (word, ns_flags) ([], refl))
  ]
]
ns_flags-NsEnd ns all (a ∷ b ∷ rest) = elim (Bool-cases (is_ns_flag a)) [
  | inl named ↦
      rw (named, ns_flags)
        (ns_more a (b ∷ rest) (ns_flags true b all rest)
          (ns_more b rest (ns_flags true b all rest) (ns_flags-NsEnd b all rest)))
  | inr unnamed ↦ elim (Bool-cases (is_all_flag a)) [
    | inl every ↦
        rw (unnamed, ns_flags)
          (rw (every, ns_flags)
            (ns_more a (b ∷ rest) (ns_flags true ns true (b ∷ rest))
              (ns_flags-NsEnd ns true (b ∷ rest))))
    | inr word ↦ rw (unnamed, ns_flags) (rw (word, ns_flags) ([], refl))
  ]
]

-- In front of the subcommand, extracting the namespace flags fails only for a missing namespace, and
-- otherwise leaves the arguments' end as it stands, a subcommand's own words included.
pub extract_ns_flags-NsEnd : (args : List Bytes) → NsEnd args (extract_ns_flags args true)
unfolding extract_ns_flags
extract_ns_flags-NsEnd args = ns_flags-NsEnd [] false args

abbrev FlagsEnd : List Bytes → ArgError ⊎ (Parsing × List Bytes) → Type 0
FlagsEnd args (inl e) = Unit {0}
FlagsEnd args (inr (s, rest)) = IsEnd rest args

flags_more :
    (a : Bytes) (args : List Bytes) (r : ArgError ⊎ (Parsing × List Bytes))
    → FlagsEnd args r
    → FlagsEnd (a ∷ args) r
flags_more a args (inl e) h = tt
flags_more a args (inr (s, rest)) h = IsEnd-more a rest args h

word-cases :
    (w : Word)
    → ((f : PlainFlag) × (w ≡ plain f)) ⊎ (((f : ValueFlag) × (w ≡ valued f)) ⊎ (w ≡ other))
word-cases (plain f) = inl (f, refl)
word-cases (valued f) = inr (inl (f, refl))
word-cases other = inr (inr refl)

valued-cases :
    (r : ArgError ⊎ Parsing) → ((e : ArgError) × (r ≡ inl e)) ⊎ ((s : Parsing) × (r ≡ inr s))
valued-cases (inl e) = inl (e, refl)
valued-cases (inr s) = inr (s, refl)

new_flags-FlagsEnd :
    (sys : System) (s : Parsing) (args : List Bytes) → FlagsEnd args (new_flags sys s args)
unfolding new_flags
new_flags-FlagsEnd sys s [] = ([], refl)
new_flags-FlagsEnd sys s (a ∷ []) = elim (word-cases (word_of a)) [
  | inl (f, e) ↦ rw (e, new_flags) (a ∷ [], refl)
  | inr (inl (f, e)) ↦ rw (e, new_flags) tt
  | inr (inr e) ↦ rw (e, new_flags) ([], refl)
]
new_flags-FlagsEnd sys s (a ∷ b ∷ rest) = elim (word-cases (word_of a)) [
  | inl (f, e) ↦
      rw (e, new_flags)
        (flags_more a (b ∷ rest) (new_flags sys (apply_plain sys f s) (b ∷ rest))
          (new_flags-FlagsEnd sys (apply_plain sys f s) (b ∷ rest)))
  | inr (inl (f, e)) ↦ elim (valued-cases (apply_valued sys f b s)) [
    | inl (x, failed) ↦ rw (e, new_flags) (rw (failed, new_flags) tt)
    | inr (s', done) ↦
        rw (e, new_flags)
          (rw (done, new_flags)
            (flags_more a (b ∷ rest) (new_flags sys s' rest)
              (flags_more b rest (new_flags sys s' rest) (new_flags-FlagsEnd sys s' rest))))
  ]
  | inr (inr e) ↦ rw (e, new_flags) ([], refl)
]

-- Either none, or an environment with an entry.
abbrev pub NoEmpty : Option Env → Type 0
NoEmpty none = Unit {0}
NoEmpty (some []) = ⊥
NoEmpty (some (kv ∷ env)) = Unit {0}

abbrev pub Parsed : List Bytes → ArgError ⊎ NewOptions → Type 0
Parsed args (inl e) = Unit {0}
Parsed args (inr o) = IsEnd (o.command ∷ o.args) args × NoEmpty o.env

explicit-NoEmpty :
    (touched : Bool) (env : Env)
    → (touched && is_empty_env env) ≡ false
    → NoEmpty (if touched then some env else none)
explicit-NoEmpty true [] h = absurd (no h)
  where
    no : true ≡ false → ⊥
    no e = cc
explicit-NoEmpty true (kv ∷ env) h = tt
explicit-NoEmpty false env h = tt

finish_new-Parsed :
    (s : Parsing) (rest args : List Bytes) → IsEnd rest args → Parsed args (finish_new s rest)
unfolding finish_new
finish_new-Parsed s [] args h = tt
finish_new-Parsed s (command ∷ rest) args h = ground arith

abbrev finish_from : ArgError ⊎ (Parsing × List Bytes) → ArgError ⊎ NewOptions
finish_from (inl e) = inl e
finish_from (inr (s, rest)) = finish_new s rest

Parsed-new :
    (args : List Bytes) (r : ArgError ⊎ (Parsing × List Bytes))
    → FlagsEnd args r
    → Parsed args (finish_from r)
Parsed-new args (inl e) h = tt
Parsed-new args (inr (s, rest)) h = finish_new-Parsed s rest args h

-- When `ctl new` accepts its arguments, the command and its own arguments are the end of them as they
-- stand, and the environment that it sends, if it sends one, has at least one variable.
pub parse_new_args-Parsed :
    (sys : System) (args : List Bytes) → Parsed args (parse_new_args sys args)
unfolding parse_new_args
parse_new_args-Parsed sys args =
    let start : Parsing = record {
      options = no_options;
      env = [];
      env_touched = false;
      base_chosen = false;
    } in
    Parsed-new args (new_flags sys start args) (new_flags-FlagsEnd sys start args)

new_flags-other :
    (sys : System) (s : Parsing) (command : Bytes) (args : List Bytes)
    → word_of command ≡ other
    → new_flags sys s (command ∷ args) ≡ inr (s, command ∷ args)
unfolding new_flags
new_flags-other sys s command [] e = rw (e, new_flags) refl
new_flags-other sys s command (a ∷ args) e = rw (e, new_flags) refl

-- Words that do not begin with a flag are always accepted: the first is the command, the others are
-- its arguments, flags of `ctl new` among them included, and the child inherits its environment.
pub parse_new_args-other :
    (sys : System) (command : Bytes) (args : List Bytes)
    → word_of command ≡ other
    → parse_new_args sys (command ∷ args)
      ≡ inr (record no_options { command = command; args = args })
unfolding parse_new_args finish_new
parse_new_args-other sys command args e =
    let start : Parsing = record {
      options = no_options;
      env = [];
      env_touched = false;
      base_chosen = false;
    } in
    ap finish_from (new_flags-other sys start command args e)
