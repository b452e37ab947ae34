-- ===== src/Go/Maps.antt =====
-- Go maps with string keys: nil, or entries of which the first with a key counts; and slices.
pub mod Laws
use provider_azure.Prelude.{
  ℕ, suc, String, Bool, true, ◌&&◌, ◌≢◌, Option, none, some, List, [], ◌∷◌, ◌==◌, nat_eq, ptr_eq,
  if◌then◌else◌,
}

abbrev pub GoMap : Type 0 → Type 0
GoMap V = Option (List (String × V))

-- A slice: nil, or its elements.
abbrev pub Slice : Type 0 → Type 0
Slice A = Option (List A)

abbrev pub length : {A : Type 0} → List A → ℕ
length [] = 0
length (x ∷ xs) = suc (length xs)

abbrev pub entries : {A : Type 0} → Option (List A) → List A
entries none = []
entries (some xs) = xs

-- The keys of a map are distinct.
abbrev pub Fresh : {V : Type 0} → String → List (String × V) → Type 0
Fresh k [] = Unit
Fresh k ((j, v) ∷ m) = (j ≢ k) × Fresh k m

abbrev pub Distinct : {V : Type 0} → List (String × V) → Type 0
Distinct [] = Unit
Distinct ((k, v) ∷ m) = Fresh k m × Distinct m

module _ {V : Type 0} where
  unfoldable pub lookup : String → List (String × V) → Option V
  lookup k [] = none
  lookup k ((j, v) ∷ m) = if j == k then some v else lookup k m

  -- `m[k] = v`
  unfoldable pub insert : String → V → List (String × V) → List (String × V)
  insert k v [] = (k, v) ∷ []
  insert k v ((j, w) ∷ m) = if j == k then (k, v) ∷ m else (j, w) ∷ insert k v m

  -- `delete(m, k)`
  unfoldable pub without : String → List (String × V) → List (String × V)
  without k [] = []
  without k ((j, w) ∷ m) = let rest = without k m in if j == k then rest else (j, w) ∷ rest

  -- Every entry of the first map stands in the second with an equal value.
  unfoldable pub covered : (V → V → Bool) → List (String × V) → List (String × V) → Bool
  covered eq [] n = true
  covered eq ((k, v) ∷ m) n = ptr_eq eq (some v) (lookup k n) && covered eq m n

  unfoldable pub entries_eq : (V → V → Bool) → List (String × V) → List (String × V) → Bool
  unfolding covered
  entries_eq eq m n = nat_eq (length m) (length n) && covered eq m n

-- `reflect.DeepEqual` on two maps: a nil map equals only a nil map.
unfoldable pub map_eq : {V : Type 0} → (V → V → Bool) → GoMap V → GoMap V → Bool
unfolding entries_eq
map_eq eq m n = ptr_eq (entries_eq eq) m n

abbrev pub map_values : {A B : Type 0} → (A → B) → List (String × A) → List (String × B)
map_values f [] = []
map_values f ((k, v) ∷ m) = (k, f v) ∷ map_values f m
