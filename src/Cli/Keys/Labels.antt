-- ===== src/Cli/Keys/Labels.antt =====
-- cmd/pupptyeer/config.go: labels and specifications of keys, and what a configuration can hold.
use pupptyeer.Prelude.{
  ℕ, zero, suc, ◌≤◌, ◌<◌, ◌≡◌, ◌≢◌, ◌⊎◌, inl, inr, refl, Bool, true, false, ◌&&◌, ◌||◌, Option,
  none, some, Bytes, List, [], ◌∷◌, length, text_eq, ◌==◌, arith,
}
use pupptyeer.Prelude.Int.{ℤ, pos, ◌≤ℤ◌}
use pupptyeer.Prelude.Strings.{
  trim_left, trim_right, trim_space, to_lower, has_prefix, parse_uint, digits,
}
use pupptyeer.Cli.Keys.{
  CliConfig, FileConfig, KeyError, ConfigError, detach_prefix_error, detach_key_error, is_some,
  control_byte, parse_key, resolve_detach, sequence_of, parse_config, key_label, or_else,
  out_of_range,
}

abbrev all_below : ℕ → (ℕ → Bool) → Bool
all_below zero test = true
all_below (suc n) test = test n && all_below n test

all_below-holds :
    (n : ℕ) (test : ℕ → Bool) (k : ℕ) → all_below n test ≡ true → k < n → test k ≡ true
all_below-holds zero test k h lt = absurd (omega arith)
all_below-holds (suc n) test k h lt = ground (arith, all_below-holds n test k)

abbrev is_key : KeyError ⊎ Option ℕ → ℕ → Bool
is_key (inl e) b = false
is_key (inr none) b = false
is_key (inr (some c)) b = c == b

is_key_sound : (r : KeyError ⊎ Option ℕ) (b : ℕ) → is_key r b ≡ true → r ≡ inr (some b)
is_key_sound (inl e) b h = cc
is_key_sound (inr none) b h = cc
is_key_sound (inr (some c)) b h = ground arith

abbrev comes_back : ℕ → Bool
comes_back b = b == 0x20 || b == b'^' || is_key (parse_key (key_label b) true) b

all-come-back : all_below 256 comes_back ≡ true
unfolding parse_key key_label control_byte trim_space trim_left trim_right to_lower has_prefix
    parse_uint digits text_eq
all-come-back = refl

-- The label of every byte but the space and the caret, read as a specification behind a prefix, is that
-- byte again.
pub parse_key-key_label :
    (b : ℕ) → b < 256 → b ≢ 0x20 → b ≢ b'^' → parse_key (key_label b) true ≡ inr (some b)
parse_key-key_label b h not_space not_caret =
    is_key_sound (parse_key (key_label b) true) b
      (ground (arith, all_below-holds 256 comes_back b all-come-back))

sequence_of-short : (prefix key : Option ℕ) → length (sequence_of prefix key) ≤ 2
sequence_of-short prefix none = omega arith
sequence_of-short none (some key) = omega arith
sequence_of-short (some prefix) (some key) = omega arith

key-cases :
    (r : KeyError ⊎ Option ℕ) → ((e : KeyError) × (r ≡ inl e)) ⊎ ((key : Option ℕ) × (r ≡ inr key))
key-cases (inl e) = inl (e, refl)
key-cases (inr key) = inr (key, refl)

-- A configured detach sequence has at most two keys.
pub length-resolve_detach :
    (prefix_raw key_raw : Bytes)
    → ((e : ConfigError) × (resolve_detach prefix_raw key_raw ≡ inl e))
      ⊎ ((seq : Bytes) × ((resolve_detach prefix_raw key_raw ≡ inr seq) × (length seq ≤ 2)))
unfolding resolve_detach
length-resolve_detach prefix_raw key_raw = elim (key-cases (parse_key prefix_raw false)) [
  | inl (e, failed) ↦ inl (detach_prefix_error e, rw (failed, resolve_detach) refl)
  | inr (prefix, found) ↦ elim (key-cases (parse_key key_raw (is_some prefix))) [
    | inl (e, failed) ↦
        inl (detach_key_error e, rw (found, resolve_detach) (rw (failed, resolve_detach) refl))
    | inr (key, known) ↦ inr (
      sequence_of prefix key,
      (rw (found, resolve_detach) (rw (known, resolve_detach) refl), sequence_of-short prefix key),
    )
  ]
]

-- A size that the PTY can be told.
abbrev pub InRange : ℤ → Type 0
InRange n = (pos 1 ≤ℤ n) × (n ≤ℤ pos 65535)

or_else-InRange :
    (n : Option ℤ) (d : ℤ) → InRange d → out_of_range n ≡ false → InRange (or_else n d)
or_else-InRange none d v h = v
or_else-InRange (some n) d v h = ground arith

-- Whatever the file holds and wherever the parsing stops, the default size of a configuration stays
-- one that a PTY can be told, 1 to 65535 columns and rows.
pub parse_config-InRange :
    (file : Bytes ⊎ (FileConfig × List Bytes)) (cfg : CliConfig)
    → InRange cfg.default_cols
    → InRange cfg.default_rows
    → let cfg' = (parse_config file cfg).1 in InRange cfg'.default_cols × InRange cfg'.default_rows
unfolding parse_config
parse_config-InRange (inl e) cfg v w = (v, w)
parse_config-InRange (inr (fc, k ∷ ks)) cfg v w = (v, w)
parse_config-InRange (inr (fc, [])) cfg v w = ground arith
