-- ===== src/Prelude/Strings.antt =====
-- The functions of Go's packages strings and strconv that the program uses, on ASCII texts.
use pupptyeer.Prelude.{
  ℕ, zero, suc, ◌+◌, ◌-◌, ◌*◌, Bool, true, false, ◌&&◌, ◌||◌, Option, none, some, Bytes, List, [],
  ◌∷◌, ◌++◌, ◌==◌, ltb, leb, if◌then◌else◌,
}
use pupptyeer.Prelude.Int.{ℤ, pos, negsuc}

abbrev pub is_nil : Bytes → Bool
is_nil [] = true
is_nil (b ∷ bs) = false

abbrev pub is_between : ℕ → ℕ → ℕ → Bool
is_between lo hi b = leb lo b && leb b hi

abbrev pub is_space : ℕ → Bool
is_space b = b == 0x20 || is_between 9 13 b

unfoldable pub trim_left : Bytes → Bytes
trim_left [] = []
trim_left (b ∷ bs) = let rest = trim_left bs in if is_space b then rest else b ∷ bs

unfoldable pub trim_right : Bytes → Bytes
trim_right [] = []
trim_right (b ∷ bs) = let rest = trim_right bs in if is_nil rest && is_space b then [] else b ∷ rest

-- `strings.TrimSpace`.
unfoldable pub trim_space : Bytes → Bytes
trim_space s = trim_right (trim_left s)

-- `strings.ToLower`.
abbrev pub lower_byte : ℕ → ℕ
lower_byte b = if is_between b'A' b'Z' b then b + 0x20 else b

unfoldable pub to_lower : Bytes → Bytes
to_lower [] = []
to_lower (b ∷ bs) = lower_byte b ∷ to_lower bs

-- `strings.HasPrefix(s, p)`.
unfoldable pub has_prefix : Bytes → Bytes → Bool
has_prefix s [] = true
has_prefix [] (p ∷ ps) = false
has_prefix (b ∷ s) (p ∷ ps) = b == p && has_prefix s ps

-- `strings.Cut` at the first byte `c`.
unfoldable pub cut : ℕ → Bytes → Option (Bytes × Bytes)
cut c [] = none
cut c (b ∷ bs) =
    let rest = cut c bs in
    if b == c
    then some ([], bs)
    else elim rest [ none ↦ none | some (front, back) ↦ some (b ∷ front, back) ]

-- `strings.Split` at the byte `c`.
unfoldable pub split : ℕ → Bytes → List Bytes
split c [] = [] ∷ []
split c (b ∷ bs) =
    let rest = split c bs in
    if b == c
    then [] ∷ rest
    else elim rest [ [] ↦ (b ∷ []) ∷ [] | line ∷ lines ↦ (b ∷ line) ∷ lines ]

-- `strings.Join` with a separator.
unfoldable pub join : Bytes → List Bytes → Bytes
join sep [] = []
join sep (s ∷ []) = s
join sep (s ∷ t ∷ ts) = s ++ (sep ++ join sep (t ∷ ts))

abbrev pub digit_value : ℕ → Option ℕ
digit_value b =
    if is_between b'0' b'9' b
    then some (b - b'0')
    else (if is_between b'a' b'f' (lower_byte b) then some (lower_byte b - b'a' + 10) else none)

-- The digits in the base, most significant first.
unfoldable pub digits : ℕ → ℕ → Bytes → Option ℕ
digits base acc [] = some acc
digits base acc (b ∷ bs) = elim (digit_value b) [
  | none ↦ none
  | some d ↦ let rest = digits base (acc * base + d) bs in if ltb d base then rest else none
]

-- `strconv.ParseUint(s, base, bits)` below a limit, for a base of 10 or 16.
unfoldable pub parse_uint : ℕ → ℕ → Bytes → Option ℕ
parse_uint base limit [] = none
parse_uint base limit (b ∷ bs) = elim (digits base 0 (b ∷ bs)) [
  | none ↦ none
  | some n ↦ if ltb n limit then some n else none
]

-- `strconv.Atoi` with a 64-bit `int`.
unfoldable pub atoi : Bytes → Option ℤ
atoi [] = none
atoi (b ∷ bs) =
    if b == b'-'
    then elim (parse_uint 10 9223372036854775809 bs) [
      | none ↦ none
      | some zero ↦ some (pos 0)
      | some (suc n) ↦ some (negsuc n)
    ]
    else elim (parse_uint 10 9223372036854775808 (if b == b'+' then bs else b ∷ bs)) [
      | none ↦ none
      | some n ↦ some (pos n)
    ]
