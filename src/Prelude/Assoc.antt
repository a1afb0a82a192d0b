-- ===== src/Prelude/Assoc.antt =====
-- Go maps as association lists, over an interface for the equality of keys.
use pupptyeer.Prelude.{
  ℕ, ◌≡◌, ◌↔◌, ◌≢◌, refl, Bool, true, Option, none, some, List, [], ◌∷◌, arith, ◌==◌, ==_iff,
  if◌then◌else◌, inl, inr, subst, Bool-cases,
}

pub record Eq (K : Type 0) : Type 0 where
  pub beq : K → K → Bool
  pub beq_iff : (j k : K) → (beq j k ≡ true) ↔ (j ≡ k)

instance abbrev pub ℕ_eq : Eq ℕ
ℕ_eq = record { beq = ◌==◌; beq_iff = ==_iff }

pub beq_refl : {K : Type 0} ⦃e : Eq K⦄ (k : K) → e.beq k k ≡ true
beq_refl ⦃e⦄ k = (e.beq_iff k k).1 refl

module _ {K V : Type 0} ⦃e : Eq K⦄ where
  -- `m[k]`, with the comma-ok of a map.
  unfoldable pub lookup : K → List (K × V) → Option V
  lookup k [] = none
  lookup k ((j, v) ∷ m) = if e.beq j k then some v else lookup k m

  -- `m[k] = v`.
  unfoldable pub insert : K → V → List (K × V) → List (K × V)
  insert k v [] = (k, v) ∷ []
  insert k v ((j, w) ∷ m) = if e.beq j k then (k, v) ∷ m else (j, w) ∷ insert k v m

  -- `delete(m, k)`.
  unfoldable pub delete : K → List (K × V) → List (K × V)
  delete k [] = []
  delete k ((j, w) ∷ m) = let rest = delete k m in if e.beq j k then rest else (j, w) ∷ rest

  pub lookup-insert :
      (k j : K) (v : V) (m : List (K × V))
      → lookup j (insert k v m) ≡ (if e.beq k j then some v else lookup j m)
  unfolding lookup insert
  lookup-insert k j v [] = refl
  lookup-insert k j v ((i, w) ∷ m) =
      ground (arith, e.beq_iff k j, e.beq_iff i k, e.beq_iff i j, lookup-insert k j v m)

  pub lookup-delete :
      (k j : K) (m : List (K × V))
      → lookup j (delete k m) ≡ (if e.beq k j then none else lookup j m)
  unfolding lookup delete
  lookup-delete k j [] = ground arith
  lookup-delete k j ((i, w) ∷ m) =
      ground (arith, e.beq_iff k j, e.beq_iff i k, e.beq_iff i j, lookup-delete k j m)

  -- No key stands twice.
  abbrev pub HasKeysOnce : List (K × V) → Type 0
  HasKeysOnce [] = Unit {0}
  HasKeysOnce ((k, v) ∷ m) = (lookup k m ≡ none) × HasKeysOnce m

  pub insert-HasKeysOnce :
      (k : K) (v : V) (m : List (K × V)) → HasKeysOnce m → HasKeysOnce (insert k v m)
  unfolding lookup insert
  insert-HasKeysOnce k v [] h = (refl, record {})
  insert-HasKeysOnce k v ((j, w) ∷ m) (new, h) = elim (Bool-cases (e.beq j k)) [
    | inl same ↦
        rw same (subst (λ i. (lookup i m ≡ none) × HasKeysOnce m) ((e.beq_iff j k).0 same) (new, h))
    | inr other ↦ rw other (
      ground (arith, lookup-insert k j v m, e.beq_iff k j, e.beq_iff j k),
      insert-HasKeysOnce k v m h,
    )
  ]

  pub delete-HasKeysOnce : (k : K) (m : List (K × V)) → HasKeysOnce m → HasKeysOnce (delete k m)
  unfolding lookup delete
  delete-HasKeysOnce k [] h = h
  delete-HasKeysOnce k ((j, w) ∷ m) (new, h) =
      ground (arith, delete-HasKeysOnce k m h, lookup-delete k j m)

-- A change of one object of a store.
abbrev pub update {ℓ} : {A : Type ℓ} → (ℕ → A) → ℕ → A → ℕ → A
update f k a j = if k == j then a else f j

pub update_same {ℓ} : {A : Type ℓ} (f : ℕ → A) (k : ℕ) (a : A) → update f k a k ≡ a
update_same f k a = ground arith

pub update_other {ℓ} : {A : Type ℓ} (f : ℕ → A) (k j : ℕ) (a : A) → k ≢ j → update f k a j ≡ f j
update_other f k j a h = ground arith
