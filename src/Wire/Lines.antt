-- ===== src/Wire/Lines.antt =====
-- The framing of both packages: `Encode` appends a newline to each message's JSON, and `Decode` reads a
-- bufio.Scanner's lines, of which it skips the empty ones. `max_token` is the scanner's limit, which a
-- line must stay below. `read` is what a line means, `none` an error of encoding/json.
use pupptyeer.Prelude.{
  ℕ, ◌≡◌, refl, Bool, true, false, ◌&&◌, Option, none, some, Bytes, List, [], ◌∷◌, ◌++◌, map,
  length, leb, ltb, ◌==◌, append_assoc, arith, if◌then◌else◌,
}
use pupptyeer.Prelude.Strings.{split, is_nil}

-- How a stream ends: at its end, at a line that is no message, or at a line that is too long.
pub data Ending : Type 0 where
  eof bad_line too_long : Ending

abbrev pub max_token : ℕ
max_token = 1048576

-- `bufio.ScanLines` drops a carriage return before the newline.
drop_cr : Bytes → Bytes
drop_cr [] = []
drop_cr (b ∷ bs) = let rest = drop_cr bs in if is_nil bs && b == 13 then [] else b ∷ rest

-- Nothing behind the last newline is no line.
drop_end : List Bytes → List Bytes
drop_end [] = []
drop_end (l ∷ []) = if is_nil l then [] else l ∷ []
drop_end (l ∷ k ∷ ls) = l ∷ drop_end (k ∷ ls)

scan_lines : Bytes → List Bytes
scan_lines s = drop_end (split 10 s)

module _ {A : Type 0} (read : Bytes → Option A) where
  -- `Decode` until it returns an error: the messages, and the error.
  decode_lines : List Bytes → List A × Ending
  decode_lines [] = ([], eof)
  decode_lines (l ∷ ls) =
      let (more, why) = decode_lines ls in
      if leb max_token (length l)
      then ([], too_long)
      else (if is_nil (drop_cr l)
          then (more, why)
          else elim (read (drop_cr l)) [ none ↦ ([], bad_line) | some a ↦ (a ∷ more, why) ])

  pub decode_all : Bytes → List A × Ending
  decode_all s = decode_lines (scan_lines s)

-- `Encode` of one message after the other.
pub encode_all : {B : Type 0} → (B → Bytes) → List B → Bytes
encode_all write [] = []
encode_all write (b ∷ bs) = (write b ++ 10 ∷ []) ++ encode_all write bs

-- No byte is a control character.
unfoldable pub is_plain : Bytes → Bool
is_plain [] = true
is_plain (b ∷ bs) = leb 0x20 b && is_plain bs

-- A text that makes one line.
abbrev pub IsLine : Bytes → Type 0
IsLine l = (is_plain l ≡ true) × (is_nil l ≡ false) × (ltb (length l) max_token ≡ true)

abbrev pub All : {A : Type 0} → (A → Type 0) → List A → Type 0
All P [] = Unit {0}
All P (a ∷ xs) = P a × All P xs

pub All-map :
    {A : Type 0} {P Q : A → Type 0} → ((a : A) → P a → Q a) → (xs : List A) → All P xs → All Q xs
All-map f [] h = h
All-map f (a ∷ xs) (h, rest) = (f a h, All-map f xs rest)

split-plain : (l s : Bytes) → is_plain l ≡ true → split 10 (l ++ 10 ∷ s) ≡ l ∷ split 10 s
unfolding split is_plain
split-plain [] s h = refl
split-plain (b ∷ l) s h = ground (arith, split-plain l s)

drop_cr-plain : (l : Bytes) → is_plain l ≡ true → drop_cr l ≡ l
unfolding drop_cr is_plain
drop_cr-plain [] h = refl
drop_cr-plain (b ∷ l) h = ground (arith, drop_cr-plain l)

is_cons : List Bytes → Bool
is_cons [] = false
is_cons (l ∷ ls) = true

split-IsCons : (s : Bytes) → is_cons (split 10 s) ≡ true
unfolding split is_cons
split-IsCons [] = refl
split-IsCons (b ∷ s) = ground (arith, split-IsCons s)

drop_end-cons :
    (l : Bytes) (ls : List Bytes) → is_cons ls ≡ true → drop_end (l ∷ ls) ≡ l ∷ drop_end ls
unfolding drop_end is_cons
drop_end-cons l [] h = cc
drop_end-cons l (k ∷ ls) h = refl

scan_lines-line :
    (l s : Bytes) → is_plain l ≡ true → scan_lines ((l ++ 10 ∷ []) ++ s) ≡ l ∷ scan_lines s
unfolding scan_lines
scan_lines-line l s h =
    rw (append_assoc l (10 ∷ []) s, split-plain l s h)
      (drop_end-cons l (split 10 s) (split-IsCons s))

module _ {A B : Type 0} (read : Bytes → Option A) (write : B → Bytes) (meaning : B → A) where
  -- A written value makes one line, which is read as its meaning.
  abbrev pub IsRead : B → Type 0
  IsRead b = IsLine (write b) × (read (write b) ≡ some (meaning b))

  decode_lines-line :
      (b : B) (ls : List Bytes)
      → IsRead b
      → decode_lines read (write b ∷ ls)
        ≡ (meaning b ∷ (decode_lines read ls).0, (decode_lines read ls).1)
  unfolding decode_lines
  decode_lines-line b ls ((plain, full, short), e) =
      rw (drop_cr-plain (write b) plain, full, e) (ground (arith))

  pub decode_all-encode_all :
      (bs : List B) → All IsRead bs → decode_all read (encode_all write bs) ≡ (map meaning bs, eof)
  unfolding decode_all encode_all decode_lines scan_lines split drop_end
  decode_all-encode_all [] h = refl
  decode_all-encode_all (b ∷ bs) (h, rest) = ground (
    arith,
    scan_lines-line (write b) (encode_all write bs) h.0.0,
    decode_lines-line b (scan_lines (encode_all write bs)) h,
    decode_all-encode_all bs rest,
  )
