-- ===== src/Prelude/Map.antt =====
-- A `HashMap` or `BTreeMap` whose keys are ids: an association list. The order of the list is
-- the order in which the program iterates over the map.
use Prim.Native.Nat.{ℕ}
use mathlib.Core.Path.{◌≡◌, refl}
use mathlib.Core.Bool.{Bool, true, false, ◌||◌}
use mathlib.Core.List.{List, [], ◌∷◌}
use mathlib.Core.Option
use mathlib.Core.Option.{Option, none, some}
use native.Mathlib.Omega.{arith}
use mmat.Prelude.Tests.{◌==◌, if◌then◌else◌}
use mmat.Prelude.Lists.{contains, ◌∈◌, length}

abbrev pub Map {ℓ} : Type ℓ → Type ℓ
Map V = List (ℕ × V)

module _ {ℓ} {V : Type ℓ} where
  abbrev pub get : Map V → ℕ → Option V
  get [] k = none
  get ((j, v) ∷ m) k = if j == k then some v else get m k

  abbrev pub keys : Map V → List ℕ
  keys [] = []
  keys ((j, v) ∷ m) = j ∷ keys m

  abbrev pub values : Map V → List V
  values [] = []
  values ((j, v) ∷ m) = v ∷ values m

  abbrev pub contains_key : Map V → ℕ → Bool
  contains_key m k = elim (get m k) [ none ↦ false | some _ ↦ true ]

  -- `map.insert(k, v)`
  abbrev pub insert : ℕ → V → Map V → Map V
  insert k v [] = (k, v) ∷ []
  insert k v ((j, w) ∷ m) = if j == k then (k, v) ∷ m else (j, w) ∷ insert k v m

  -- `if let Some(v) = map.get_mut(k) { *v = f(v) }`
  abbrev pub update : ℕ → (V → V) → Map V → Map V
  update k f [] = []
  update k f ((j, w) ∷ m) = if j == k then (j, f w) ∷ m else (j, w) ∷ update k f m

  -- `map.remove(k)`
  abbrev pub remove : ℕ → Map V → Map V
  remove k [] = []
  remove k ((j, w) ∷ m) = let rest = remove k m in if j == k then rest else (j, w) ∷ rest

  pub get-insert :
      (k j : ℕ) (v : V) (m : Map V) → get (insert k v m) j ≡ (if k == j then some v else get m j)
  get-insert k j v [] = refl
  get-insert k j v ((i, w) ∷ m) = ground (arith, get-insert k j v m)

  pub get-update :
      (k j : ℕ) (f : V → V) (m : Map V)
      → get (update k f m) j ≡ (if k == j then Option.map f (get m j) else get m j)
  get-update k j f [] = ground arith
  get-update k j f ((i, w) ∷ m) = ground (arith, get-update k j f m)

  pub get-remove : (k j : ℕ) (m : Map V) → get (remove k m) j ≡ (if k == j then none else get m j)
  get-remove k j [] = ground arith
  get-remove k j ((i, w) ∷ m) = ground (arith, get-remove k j m)

  pub keys-update : (k : ℕ) (f : V → V) (m : Map V) → keys (update k f m) ≡ keys m
  keys-update k f [] = refl
  keys-update k f ((i, w) ∷ m) = ground (arith, keys-update k f m)

  pub length-keys : (m : Map V) → length (keys m) ≡ length m
  length-keys [] = refl
  length-keys ((i, w) ∷ m) = ground (arith, length-keys m)

  pub contains-keys : (m : Map V) (k : ℕ) → contains (keys m) k ≡ contains_key m k
  contains-keys [] k = refl
  contains-keys ((i, w) ∷ m) k = ground (arith, contains-keys m k)

  pub contains_of_get : (m : Map V) (k : ℕ) (v : V) → get m k ≡ some v → k ∈ keys m
  contains_of_get m k v h = ground (arith, contains-keys m k)

  pub contains-keys_remove :
      (k j : ℕ) (m : Map V)
      → contains (keys (remove k m)) j ≡ (if k == j then false else contains (keys m) j)
  contains-keys_remove k j m =
      ground (arith, contains-keys (remove k m) j, contains-keys m j, get-remove k j m)

  pub contains-keys_insert :
      (k j : ℕ) (v : V) (m : Map V)
      → contains (keys (insert k v m)) j ≡ (k == j || contains (keys m) j)
  contains-keys_insert k j v m =
      ground (arith, contains-keys (insert k v m) j, contains-keys m j, get-insert k j v m)
