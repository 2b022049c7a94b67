-- ===== src/Table.antt =====
-- A concurrent hash map (`DashMap`, `HashMap`) keyed by texts, as an association list. The order of
-- the list is the order of iteration, of which the program knows nothing.
use neutun.Base.{
  Text, Text-discrete, ◌==◌, if◌then◌else◌, ◌≡◌, refl, Option, none, some, List, [], ◌∷◌, arith,
  true, false, subst,
}

abbrev pub Table {ℓ} : Type ℓ → Type ℓ
Table V = List (Text × V)

module _ {ℓ} {V : Type ℓ} where
  unfoldable pub get : Text → Table V → Option V
  get k [] = none
  get k ((j, v) ∷ m) = if j == k then some v else get k m

  -- A value that is there is replaced in its place.
  unfoldable pub insert : Text → V → Table V → Table V
  insert k v [] = (k, v) ∷ []
  insert k v ((j, w) ∷ m) = if j == k then (k, v) ∷ m else (j, w) ∷ insert k v m

  unfoldable pub remove : Text → Table V → Table V
  remove k [] = []
  remove k ((j, v) ∷ m) = let rest = remove k m in if j == k then rest else (j, v) ∷ rest

  abbrev pub values : Table V → List V
  values [] = []
  values ((k, v) ∷ m) = v ∷ values m

  -- No key stands twice.
  abbrev pub IsUnique : Table V → Type ℓ
  IsUnique [] = Unit
  IsUnique ((k, v) ∷ m) = (get k m ≡ none) × IsUnique m

  -- Every entry satisfies `P`.
  abbrev pub All {κ} : (Text → V → Type κ) → Table V → Type κ
  All P [] = Unit
  All P ((k, v) ∷ m) = P k v × All P m

module _ {ℓ} {V : Type ℓ} where
  pub get-insert :
      (k j : Text) (v : V) (m : Table V)
      → get j (insert k v m) ≡ (if k == j then some v else get j m)
  unfolding get insert
  get-insert k j v [] = refl
  get-insert k j v ((i, w) ∷ m) = ground (arith, get-insert k j v m)

  pub get-remove :
      (k j : Text) (m : Table V) → get j (remove k m) ≡ (if k == j then none else get j m)
  unfolding get remove
  get-remove k j [] = ground arith
  get-remove k j ((i, w) ∷ m) = ground (arith, get-remove k j m)

  pub insert-All {κ} :
      (P : Text → V → Type κ) (k : Text) (v : V) (m : Table V)
      → P k v
      → All P m
      → All P (insert k v m)
  unfolding insert
  insert-All P k v [] p h = (p, tt)
  insert-All P k v ((j, w) ∷ m) p h =
      elim (Text-discrete j k)
        as (λ d.
          All P (
            if elim d [ yes _ ↦ true | no _ ↦ false ] then (k, v) ∷ m else (j, w) ∷ insert k v m)) [
              | yes _ ↦ (p, h.1)
              | no _ ↦ (h.0, insert-All P k v m p h.1)
            ]

  pub remove-All {κ} :
      (P : Text → V → Type κ) (k : Text) (m : Table V) → All P m → All P (remove k m)
  unfolding remove
  remove-All P k [] h = tt
  remove-All P k ((j, w) ∷ m) h =
      elim (Text-discrete j k)
        as (λ d.
          All P
            (if elim d [ yes _ ↦ true | no _ ↦ false ] then remove k m else (j, w) ∷ remove k m)) [
              | yes _ ↦ remove-All P k m h.1
              | no _ ↦ (h.0, remove-All P k m h.1)
            ]

  pub get-All {κ} :
      (P : Text → V → Type κ) (k : Text) (m : Table V) {v : V} → All P m → get k m ≡ some v → P k v
  unfolding get
  get-All P k [] h e = absurd (ground arith)
  get-All P k ((j, w) ∷ m) {v} h e =
      elim (Text-discrete j k)
          as (λ d.
            (if elim d [ yes _ ↦ true | no _ ↦ false ] then some w else get k m) ≡ some v → P k v) [
              | yes p ↦ λ f. subst (P k) (ground arith) (subst (λ i. P i w) p h.0)
              | no _ ↦ λ f. get-All P k m h.1 f
            ]
        e

  pub insert-IsUnique : (k : Text) (v : V) (m : Table V) → IsUnique m → IsUnique (insert k v m)
  unfolding insert
  insert-IsUnique k v [] h = (unfold get in refl, tt)
  insert-IsUnique k v ((j, w) ∷ m) (fresh, h) =
      elim (Text-discrete j k)
        as (λ d.
          IsUnique (
            if elim d [ yes _ ↦ true | no _ ↦ false ] then (k, v) ∷ m else (j, w) ∷ insert k v m)) [
              | yes p ↦ (subst (λ i. get i m ≡ none) p fresh, h)
              | no n ↦ (ground (arith, get-insert k j v m), insert-IsUnique k v m h)
            ]

  pub remove-IsUnique : (k : Text) (m : Table V) → IsUnique m → IsUnique (remove k m)
  unfolding remove
  remove-IsUnique k [] h = tt
  remove-IsUnique k ((j, w) ∷ m) (fresh, h) =
      elim (Text-discrete j k)
        as (λ d.
          IsUnique
            (if elim d [ yes _ ↦ true | no _ ↦ false ] then remove k m else (j, w) ∷ remove k m)) [
              | yes p ↦ remove-IsUnique k m h
              | no n ↦ (ground (arith, get-remove k j m), remove-IsUnique k m h)
            ]

pub ruleset table_laws = (get-insert, get-remove)
