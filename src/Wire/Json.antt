-- ===== src/Wire/Json.antt =====
-- JSON values as encoding/json reads and writes them for the tags of the two packages: `omitempty`
-- members are left out, `null` and a missing member give the zero value, a member's name is matched
-- without regard to its (ASCII) case, unknown members are ignored, and a value of another kind is an error.
-- Numbers are integers; a map is written in the order of its list; of an object's members with one
-- name, which neither side writes, the last is read.
pub mod Fields
use pupptyeer.Prelude.{
  ℕ, ◌≡◌, refl, sym, ap, ◌∙◌, append_assoc, append-nil, Bool, true, false, ◌&&◌, not, Option, none,
  some, Bytes, List, [], ◌∷◌, ◌++◌, text_eq, text_eq_iff, text_eq_refl, text_eq_sound,
  if◌then◌else◌, arith,
}
use pupptyeer.Prelude.Int.{ℤ, pos, eqb_ℤ, eq_of_parts}
use pupptyeer.Prelude.Assoc.{Eq, lookup, insert}
use pupptyeer.Prelude.Strings.{to_lower, is_nil}

mutual
  pub data Json : Type 0 where
    null : Json
    boolean : Bool → Json
    number : ℤ → Json
    string : Bytes → Json
    array : Items → Json
    object : Members → Json

  pub data Items : Type 0 where
    end : Items
    item : Json → Items → Items

  pub data Members : Type 0 where
    last : Members
    member : Bytes → Json → Members → Members

infixl 5 ◌>>=◌
abbrev pub ◌>>=◌ {ℓ κ} : {A : Type ℓ} {B : Type κ} → Option A → (A → Option B) → Option B
none >>= f = none
some a >>= f = f a

abbrev pub Env : Type 0
Env = List (Bytes × Bytes)

instance abbrev pub Bytes_eq : Eq Bytes
Bytes_eq = record { beq = text_eq; beq_iff = text_eq_iff }

-- What a field with `omitempty` writes.
unfoldable pub put_text : Bytes → Option Json
put_text [] = none
put_text (b ∷ bs) = some (string (b ∷ bs))

unfoldable pub put_int : ℤ → Option Json
put_int n = if eqb_ℤ n (pos 0) then none else some (number n)

unfoldable pub put_bool : Bool → Option Json
put_bool false = none
put_bool true = some (boolean true)

unfoldable pub put_pointer : Option ℤ → Option Json
put_pointer none = none
put_pointer (some n) = some (number n)

module _ {A : Type 0} (f : A → Json) where
  unfoldable pub put_items : List A → Items
  put_items [] = end
  put_items (a ∷ xs) = item (f a) (put_items xs)

  unfoldable pub put_list : List A → Option Json
  put_list [] = none
  put_list (a ∷ xs) = some (array (put_items (a ∷ xs)))

unfoldable pub put_members : Env → Members
put_members [] = last
put_members ((k, v) ∷ env) = member k (string v) (put_members env)

unfoldable pub put_map : Env → Option Json
put_map [] = none
put_map (kv ∷ env) = some (object (put_members (kv ∷ env)))

-- What a field reads; `none` is the error of a value of another kind.
unfoldable pub take_text : Option Json → Option Bytes
take_text none = some []
take_text (some null) = some []
take_text (some (string s)) = some s
take_text (some j) = none

unfoldable pub take_int : Option Json → Option ℤ
take_int none = some (pos 0)
take_int (some null) = some (pos 0)
take_int (some (number n)) = some n
take_int (some j) = none

unfoldable pub take_bool : Option Json → Option Bool
take_bool none = some false
take_bool (some null) = some false
take_bool (some (boolean b)) = some b
take_bool (some j) = none

unfoldable pub take_pointer : Option Json → Option (Option ℤ)
take_pointer none = some none
take_pointer (some null) = some none
take_pointer (some (number n)) = some (some n)
take_pointer (some j) = none

module _ {A : Type 0} (g : Json → Option A) where
  unfoldable pub take_items : Items → Option (List A)
  take_items end = some []
  take_items (item j rest) = do a ← g j; others ← take_items rest; some (a ∷ others)

  unfoldable pub take_list : Option Json → Option (List A)
  take_list none = some []
  take_list (some null) = some []
  take_list (some (array items)) = take_items items
  take_list (some j) = none

unfoldable pub take_members : Env → Members → Option Env
take_members env last = some env
take_members env (member k j rest) = elim (take_text (some j)) [
  | none ↦ none
  | some v ↦ take_members (insert k v env) rest
]

unfoldable pub take_map : Option Json → Option Env
take_map none = some []
take_map (some null) = some []
take_map (some (object members)) = take_members [] members
take_map (some j) = none

abbrev pub text_item : Json → Option Bytes
text_item j = take_text (some j)

pub take_text-put_text : (s : Bytes) → take_text (put_text s) ≡ some s
unfolding take_text put_text
take_text-put_text [] = refl
take_text-put_text (b ∷ bs) = refl

pub take_int-put_int : (n : ℤ) → take_int (put_int n) ≡ some n
unfolding take_int put_int
take_int-put_int n = ground (arith, eq_of_parts n (pos 0))

pub take_bool-put_bool : (b : Bool) → take_bool (put_bool b) ≡ some b
unfolding take_bool put_bool
take_bool-put_bool false = refl
take_bool-put_bool true = refl

pub take_pointer-put_pointer : (n : Option ℤ) → take_pointer (put_pointer n) ≡ some n
unfolding take_pointer put_pointer
take_pointer-put_pointer none = refl
take_pointer-put_pointer (some n) = refl

module _ {A : Type 0} (f : A → Json) (g : Json → Option A) (back : (a : A) → g (f a) ≡ some a) where
  take_items-put_items : (xs : List A) → take_items g (put_items f xs) ≡ some xs
  unfolding take_items put_items
  take_items-put_items [] = refl
  take_items-put_items (a ∷ xs) = rw (back a, take_items-put_items xs) refl

  pub take_list-put_list : (xs : List A) → take_list g (put_list f xs) ≡ some xs
  unfolding take_list put_list
  take_list-put_list [] = refl
  take_list-put_list (a ∷ xs) = take_items-put_items (a ∷ xs)

unfoldable pub is_absent : Bytes → Env → Bool
is_absent k [] = true
is_absent k ((j, v) ∷ env) = not (text_eq j k) && is_absent k env

-- No name stands twice.
unfoldable pub is_map : Env → Bool
is_map [] = true
is_map ((k, v) ∷ env) = is_absent k env && is_map env

-- No name of the first is in the second.
are_apart : Env → Env → Bool
are_apart seen [] = true
are_apart seen ((k, v) ∷ env) = is_absent k seen && are_apart seen env

insert-new :
    (k v : Bytes) (env : Env) → is_absent k env ≡ true → insert k v env ≡ env ++ (k, v) ∷ []
unfolding insert is_absent
insert-new k v [] h = refl
insert-new k v ((j, w) ∷ env) h = ground (arith, insert-new k v env)

is_absent-append :
    (k j v : Bytes) (env : Env)
    → is_absent k (env ++ (j, v) ∷ []) ≡ (is_absent k env && not (text_eq j k))
unfolding is_absent
is_absent-append k j v [] = ground arith
is_absent-append k j v ((i, w) ∷ env) = ground (arith, is_absent-append k j v env)

are_apart-append :
    (seen : Env) (k v : Bytes) (env : Env)
    → are_apart seen env ≡ true
    → is_absent k env ≡ true
    → are_apart (seen ++ (k, v) ∷ []) env ≡ true
unfolding are_apart is_absent
are_apart-append seen k v [] h a = refl
are_apart-append seen k v ((j, w) ∷ env) h a = ground (
  arith,
  are_apart-append seen k v env,
  is_absent-append j k v seen,
  text_eq_iff j k,
  text_eq_iff k j,
)

take_members-put_members :
    (seen env : Env)
    → is_map env ≡ true
    → are_apart seen env ≡ true
    → take_members seen (put_members env) ≡ some (seen ++ env)
unfolding take_members put_members is_map are_apart take_text
take_members-put_members seen [] h a = ap some (sym (append-nil seen))
take_members-put_members seen ((k, v) ∷ env) h a = rw (insert-new k v seen (ground arith)) (
    take_members-put_members (seen ++ (k, v) ∷ []) env (ground arith)
      (are_apart-append seen k v env (ground arith) (ground arith))
    ∙ ap some (append_assoc seen ((k, v) ∷ []) env))

all-apart : (env : Env) → are_apart [] env ≡ true
unfolding are_apart is_absent
all-apart [] = refl
all-apart ((k, v) ∷ env) = ground (arith, all-apart env)

pub take_map-put_map : (env : Env) → is_map env ≡ true → take_map (put_map env) ≡ some env
unfolding take_map put_map
take_map-put_map [] h = refl
take_map-put_map (kv ∷ env) h = take_members-put_members [] (kv ∷ env) h (all-apart (kv ∷ env))
