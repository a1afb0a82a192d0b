-- ===== src/Cli/Keys.antt =====
-- cmd/pupptyeer/config.go: the optional configuration and its key specifications.
pub mod Labels
use pupptyeer.Prelude.{
  ℕ, zero, suc, ◌+◌, ◌-◌, ◌*◌, ◌/◌, ◌%◌, ◌≤◌, ◌<◌, ◌≡◌, ◌⊎◌, inl, inr, refl, sym, ap, ◌∙◌, Bool,
  true, false, not, ◌&&◌, ◌||◌, Option, none, some, Bytes, List, [], ◌∷◌, ◌++◌, map, codes, length,
  drop, text_eq, text_eq_sound, ◌==◌, ltb, leb, if◌then◌else◌, arith, Bool-cases, Option-cases,
}
use pupptyeer.Prelude.Int.{ℤ, pos, ltb_ℤ}
use pupptyeer.Prelude.Strings.{
  is_between, trim_space, to_lower, has_prefix, join, parse_uint, is_nil,
}

pub record CliConfig : Type 0 where
  pub detach_seq : Bytes
  pub default_cols : ℤ
  pub default_rows : ℤ
  pub quiet : Bool

abbrev pub default_config : CliConfig
default_config = record {
  detach_seq = 0x1c ∷ [];
  default_cols = pos 80;
  default_rows = pos 24;
  quiet = false;
}

pub record FileConfig : Type 0 where
  pub detach_key : Option Bytes
  pub detach_prefix : Option Bytes
  pub default_cols : Option ℤ
  pub default_rows : Option ℤ
  pub quiet : Option Bool

pub data KeyError : Type 0 where
  invalid_hex not_a_key not_single not_control : Bytes → KeyError

pub data ConfigError : Type 0 where
  malformed : Bytes → ConfigError
  unknown_keys : Bytes → ConfigError
  cols_range rows_range : ConfigError
  detach_prefix_error detach_key_error : KeyError → ConfigError

-- `controlByte`: `none` for a byte that has no control key.
unfoldable pub control_byte : ℕ → Option ℕ
control_byte ch =
    let c = if is_between b'a' b'z' ch then ch - 0x20 else ch in
    if c == b'?' then some 0x7f else (if is_between b'@' b'_' c then some (c % 0x20) else none)

abbrev single : Bytes → Bytes → KeyError ⊎ Option ℕ
single s (ch ∷ []) = elim (control_byte ch) [ none ↦ inl (not_control s) | some b ↦ inr (some b) ]
single s [] = inl (not_single s)
single s (a ∷ b ∷ rest) = inl (not_single s)

abbrev bare : Bytes → Bytes → Bool → KeyError ⊎ Option ℕ
bare s (ch ∷ []) true = inr (some ch)
bare s t allow = inl (not_a_key s)

abbrev is_hex : Bytes → Bool
is_hex (z ∷ x ∷ d ∷ rest) = z == b'0' && (x == b'x' || x == b'X')
is_hex t = false

abbrev is_none_spec : Bytes → Bool
is_none_spec lower =
    is_nil lower
    || text_eq lower (codes "none")
    || text_eq lower (codes "off")
    || text_eq lower (codes "disabled")

-- `parseKey`: the byte, `none` in place of -1.
unfoldable pub parse_key : Bytes → Bool → KeyError ⊎ Option ℕ
parse_key s allow_bare =
    let t = trim_space s in
    let lower = to_lower t in
    if is_none_spec lower
    then inr none
    else (if is_hex t
        then elim (parse_uint 16 256 (drop 2 t)) [
          | none ↦ inl (invalid_hex s)
          | some v ↦ inr (some v)
        ]
        else (if has_prefix lower (codes "ctrl-") || has_prefix lower (codes "ctrl+")
            then single s (drop 5 t)
            else (if has_prefix lower (codes "c-")
                then single s (drop 2 t)
                else (if has_prefix t (codes "^")
                    then single s (drop 1 t)
                    else bare s t allow_bare))))

abbrev pub is_some : Option ℕ → Bool
is_some none = false
is_some (some n) = true

abbrev pub sequence_of : Option ℕ → Option ℕ → Bytes
sequence_of prefix none = []
sequence_of none (some key) = key ∷ []
sequence_of (some prefix) (some key) = prefix ∷ key ∷ []

-- `resolveDetach`; the empty sequence stands for the nil that disables it.
unfoldable pub resolve_detach : Bytes → Bytes → ConfigError ⊎ Bytes
resolve_detach prefix_raw key_raw = elim (parse_key prefix_raw false) [
  | inl e ↦ inl (detach_prefix_error e)
  | inr prefix ↦ elim (parse_key key_raw (is_some prefix)) [
    | inl e ↦ inl (detach_key_error e)
    | inr key ↦ inr (sequence_of prefix key)
  ]
]

abbrev pub or_else {ℓ} : {A : Type ℓ} → Option A → A → A
or_else none d = d
or_else (some a) d = a

abbrev out_of_range : Option ℤ → Bool
out_of_range none = false
out_of_range (some n) = ltb_ℤ n (pos 1) || ltb_ℤ (pos 65535) n

-- `parseConfig` for what `toml.Decode` gave: its error, or the file's values and the keys that it does
-- not know. Next to an error stands what `cfg` was left at.
unfoldable pub parse_config :
    (Bytes ⊎ (FileConfig × List Bytes)) → CliConfig → Option ConfigError × CliConfig
parse_config (inl e) cfg = (some (malformed e), cfg)
parse_config (inr (fc, k ∷ ks)) cfg = (some (unknown_keys (join (codes ", ") (k ∷ ks))), cfg)
parse_config (inr (fc, [])) cfg =
    let cfg' = record cfg { default_cols = or_else fc.default_cols cfg.default_cols } in
    let cfg'' = record cfg' { default_rows = or_else fc.default_rows cfg.default_rows } in
    let cfg''' = record cfg'' { quiet = or_else fc.quiet cfg.quiet } in
    if out_of_range fc.default_cols
    then (some cols_range, cfg)
    else (if out_of_range fc.default_rows
        then (some rows_range, cfg')
        else elim (resolve_detach (or_else fc.detach_prefix [])
            (or_else fc.detach_key (codes "ctrl-\\"))) [
              | inl e ↦ (some e, cfg''')
              | inr seq ↦ (none, record cfg''' { detach_seq = seq })
            ])

abbrev hex_digit : ℕ → ℕ
hex_digit d = if ltb d 10 then b'0' + d else b'a' + (d - 10)

-- `keyLabel`, for a byte below 0x80 or its escape.
unfoldable pub key_label : ℕ → Bytes
key_label b =
    if b == 0x7f
    then codes "Ctrl-?"
    else (if ltb b 0x20
        then codes "Ctrl-" ++ (b + 0x40) ∷ []
        else (if ltb b 0x7f
            then b ∷ []
            else codes "0x" ++ hex_digit (b / 16) ∷ hex_digit (b % 16) ∷ []))

-- `detachLabel`.
unfoldable pub detach_label : Bytes → Bytes
detach_label seq = join (codes " ") (map key_label seq)
