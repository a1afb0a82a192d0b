-- ===== src/Wire/Json/Fields.antt =====
-- The members of an object that a struct is written as, and how its fields are found in it.
use pupptyeer.Prelude.{
  ◌≡◌, refl, Bool, true, ◌&&◌, not, Option, none, some, Bytes, List, [], ◌∷◌, text_eq,
  text_eq_sound, fun_ext, if◌then◌else◌, arith,
}
use pupptyeer.Prelude.Strings.{to_lower}
use pupptyeer.Wire.Json.{Json, Members, last, member}

abbrev pub Fields : Type 0
Fields = List (Bytes × Option Json)

-- A field that writes nothing is left out.
unfoldable pub members : Fields → Members
members [] = last
members ((k, none) ∷ fs) = members fs
members ((k, some j) ∷ fs) = member k j (members fs)

unfoldable pub find : Bytes → Members → Option Json
find k last = none
find k (member j v rest) = elim (find k rest) [
  | some later ↦ some later
  | none ↦ if text_eq (to_lower j) k then some v else none
]

-- The field of a name, straight from the list.
unfoldable pub field : Fields → Bytes → Option Json
field [] k = none
field ((j, o) ∷ fs) k = if text_eq (to_lower j) k then o else field fs k

unfoldable pub is_fresh : Bytes → Fields → Bool
is_fresh k [] = true
is_fresh k ((j, o) ∷ fs) = not (text_eq (to_lower j) k) && is_fresh k fs

-- The names differ, whatever their case.
unfoldable pub are_distinct : Fields → Bool
are_distinct [] = true
are_distinct ((j, o) ∷ fs) = is_fresh (to_lower j) fs && are_distinct fs

find-fresh : (k : Bytes) (fs : Fields) → is_fresh k fs ≡ true → find k (members fs) ≡ none
unfolding members find is_fresh
find-fresh k [] h = refl
find-fresh k ((j, none) ∷ fs) h = ground (arith, find-fresh k fs)
find-fresh k ((j, some v) ∷ fs) h = ground (arith, find-fresh k fs)

find-members : (fs : Fields) (k : Bytes) → are_distinct fs ≡ true → find k (members fs) ≡ field fs k
unfolding members find field are_distinct
find-members [] k h = refl
find-members ((j, none) ∷ fs) k h =
    ground (arith, find-members fs k, find-fresh k fs, text_eq_sound (to_lower j) k)
find-members ((j, some v) ∷ fs) k h =
    ground (arith, find-members fs k, find-fresh k fs, text_eq_sound (to_lower j) k)

-- An object with distinct members is read field by field.
pub find-all :
    (fs : Fields) → are_distinct fs ≡ true → (λ (k : Bytes). find k (members fs)) ≡ field fs
find-all fs h = fun_ext (λ k. find-members fs k h)
