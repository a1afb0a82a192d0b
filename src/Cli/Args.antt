-- ===== src/Cli/Args.antt =====
-- cmd/pupptyeer/ctl.go: the arguments of `ctl` in front of a command; below it those of `ctl new`
-- (Cli/Args/New) and of `ctl steal` (Cli/Args/Steal).
pub mod New
pub mod Steal
pub mod Payload
use pupptyeer.Prelude.{
  ℕ, zero, suc, ◌+◌, ◌≡◌, ◌⊎◌, inl, inr, refl, Bool, true, false, not, ◌&&◌, ◌||◌, Option, none,
  some, Bytes, List, [], ◌∷◌, codes, text_eq, text_eq_iff, ◌==◌, length, if◌then◌else◌,
}
use pupptyeer.Prelude.Int.{ℤ, pos, ltb_ℤ}
use pupptyeer.Prelude.Assoc.{Eq, insert}
use pupptyeer.Prelude.Strings.{atoi, cut, split, trim_space, has_prefix, is_nil}

instance abbrev pub Bytes_eq : Eq Bytes
Bytes_eq = record { beq = text_eq; beq_iff = text_eq_iff }

abbrev pub Env : Type 0
Env = List (Bytes × Bytes)

-- The namespace, whether all namespaces are meant, and what is left of the arguments.
pub record NsArgs : Type 0 where
  pub ns : Bytes
  pub all : Bool
  pub rest : List Bytes

pub data ArgError : Type 0 where
  missing_namespace new_usage steal_usage no_base empty_env : ArgError
  bad_cwd bad_env bad_file bad_line bad_pid bad_dim : Bytes → ArgError

abbrev pub is_ns_flag : Bytes → Bool
is_ns_flag a = text_eq a (codes "-n") || text_eq a (codes "--namespace")

abbrev pub is_all_flag : Bytes → Bool
is_all_flag a = text_eq a (codes "-A") || text_eq a (codes "--all-namespaces")

abbrev pub keep : Bytes → ArgError ⊎ NsArgs → ArgError ⊎ NsArgs
keep a (inl e) = inl e
keep a (inr r) = inr (record r { rest = a ∷ r.rest })

-- The loop of `extractNSFlags`, with the namespace and the flag so far.
unfoldable pub ns_flags : Bool → Bytes → Bool → List Bytes → ArgError ⊎ NsArgs
ns_flags leading ns all [] = inr (record { ns = ns; all = all; rest = [] })
ns_flags leading ns all (a ∷ []) =
    if is_ns_flag a
    then inl missing_namespace
    else (if is_all_flag a
        then inr (record { ns = ns; all = true; rest = [] })
        else inr (record { ns = ns; all = all; rest = a ∷ [] }))
ns_flags leading ns all (a ∷ b ∷ rest) =
    let named = ns_flags leading b all rest in
    let every = ns_flags leading ns true (b ∷ rest) in
    let next = ns_flags leading ns all (b ∷ rest) in
    if is_ns_flag a
    then named
    else (if is_all_flag a
        then every
        else (if leading
            then inr (record { ns = ns; all = all; rest = a ∷ b ∷ rest })
            else keep a next))

-- `extractNSFlags`.
unfoldable pub extract_ns_flags : List Bytes → Bool → ArgError ⊎ NsArgs
extract_ns_flags args leading = ns_flags leading [] false args

-- `parseDim`.
unfoldable pub parse_dim : Bytes → ArgError ⊎ ℤ
parse_dim s = elim (atoi s) [
  | none ↦ inl (bad_dim s)
  | some n ↦ if ltb_ℤ n (pos 1) || ltb_ℤ (pos 65535) n then inl (bad_dim s) else inr n
]
