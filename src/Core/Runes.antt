-- ===== src/Core/Runes.antt =====
-- Go's `string(buf)` of a slice of runes, as pkg/ptysession/session.go: `renderLocked` uses it: UTF-8,
-- with U+FFFD for what is not a code point.
use pupptyeer.Prelude.{
  ℕ, ◌+◌, ◌/◌, ◌%◌, ◌≡◌, refl, ◌&&◌, ◌||◌, Bytes, List, [], ◌∷◌, ◌++◌, ltb, leb, if◌then◌else◌,
}

abbrev replacement : Bytes
replacement = 0xef ∷ 0xbf ∷ 0xbd ∷ []

abbrev tail_byte : ℕ → ℕ
tail_byte n = 0x80 + n % 64

unfoldable pub encode_rune : ℕ → Bytes
encode_rune r =
    if ltb r 0x80
    then r ∷ []
    else (if ltb r 0x800
        then (0xc0 + r / 64) ∷ tail_byte r ∷ []
        else (if leb 0xd800 r && ltb r 0xe000 || leb 0x110000 r
            then replacement
            else (if ltb r 0x10000
                then (0xe0 + r / 4096) ∷ tail_byte (r / 64) ∷ tail_byte r ∷ []
                else (0xf0 + r / 262144)
                  ∷ tail_byte (r / 4096)
                  ∷ tail_byte (r / 64)
                  ∷ tail_byte r
                  ∷ [])))

unfoldable pub string_of : List ℕ → Bytes
string_of [] = []
string_of (r ∷ rs) = encode_rune r ++ string_of rs

-- a, é, 界, a surrogate, and a rune of four bytes.
string_of-mixed :
    string_of (0x61 ∷ 0xe9 ∷ 0x754c ∷ 0xd800 ∷ 0x1f600 ∷ [])
    ≡ 0x61 ∷ 0xc3 ∷ 0xa9 ∷ 0xe7 ∷ 0x95 ∷ 0x8c ∷ 0xef ∷ 0xbf ∷ 0xbd ∷ 0xf0 ∷ 0x9f ∷ 0x98 ∷ 0x80 ∷ []
unfolding string_of encode_rune
string_of-mixed = refl
