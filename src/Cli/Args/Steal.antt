-- ===== src/Cli/Args/Steal.antt =====
-- cmd/pupptyeer/ctl.go: the arguments of `ctl steal`.
use pupptyeer.Prelude.{
  ◌⊎◌, inl, inr, Bool, true, false, ◌||◌, none, some, Bytes, List, [], ◌∷◌, codes, text_eq,
  if◌then◌else◌,
}
use pupptyeer.Prelude.Int.{ℤ, pos, ltb_ℤ}
use pupptyeer.Prelude.Strings.{atoi}
use pupptyeer.Cli.Args.{ArgError, bad_pid, steal_usage}

pub record StealOptions : Type 0 where
  pub pid : ℤ
  pub tty : Bool
  pub id : Bytes

abbrev steal_pid : StealOptions → List Bytes → ArgError ⊎ StealOptions
steal_pid o [] = inl steal_usage
steal_pid o (a ∷ b ∷ rest) = inl steal_usage
steal_pid o (a ∷ []) = elim (atoi a) [
  | none ↦ inl (bad_pid a)
  | some n ↦ if ltb_ℤ n (pos 1) then inl (bad_pid a) else inr (record o { pid = n })
]

abbrev is_tty_flag : Bytes → Bool
is_tty_flag a = text_eq a (codes "-T") || text_eq a (codes "--tty-steal")

-- The loop of `parseStealArgs`.
pub steal_flags : StealOptions → List Bytes → ArgError ⊎ StealOptions
steal_flags o [] = inl steal_usage
steal_flags o (a ∷ []) =
    if is_tty_flag a || text_eq a (codes "--id") then inl steal_usage else steal_pid o (a ∷ [])
steal_flags o (a ∷ b ∷ rest) =
    let tty = steal_flags (record o { tty = true }) (b ∷ rest) in
    let named = steal_flags (record o { id = b }) rest in
    if is_tty_flag a
    then tty
    else (if text_eq a (codes "--id") then named else steal_pid o (a ∷ b ∷ rest))

-- `parseStealArgs`.
pub parse_steal_args : List Bytes → ArgError ⊎ StealOptions
parse_steal_args args = steal_flags (record { pid = pos 0; tty = false; id = [] }) args
