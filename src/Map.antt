-- ===== src/Map.antt =====
-- The maps of src/: a BTreeMap is an association list in the order of its keys, and a HashMap,
-- whose order the code never reads, the same list. The laws hold of every list of entries.
use chrimp.Prelude.{
  ==_iff, Bool, List, Option, [], arith, if◌then◌else◌, length, ltb, none, refl, some, true, ℕ, ◌+◌,
  ◌<◌, ◌==◌, ◌↔◌, ◌∷◌, ◌≡◌, ◌≤◌,
}

-- A key's derived `Eq` and `Ord`.
pub record Key (K : Type 0) : Type 0 where
  pub same : K → K → Bool
  pub less : K → K → Bool
  pub same_iff : (j k : K) → (same j k ≡ true) ↔ (j ≡ k)

pub same_refl : {K : Type 0} (e : Key K) (k : K) → e.same k k ≡ true
same_refl e k = (e.same_iff k k).1 refl

instance abbrev pub nat_key : Key ℕ
nat_key = record { same = ◌==◌; less = ltb; same_iff = ==_iff }

abbrev pub Map : Type 0 → Type 0 → Type 0
Map K V = List (K × V)

module _ {K V : Type 0} ⦃e : Key K⦄ where
  unfoldable pub lookup : K → Map K V → Option V
  lookup k [] = none
  lookup k ((j, v) ∷ m) = if e.same j k then some v else lookup k m

  unfoldable pub insert : K → V → Map K V → Map K V
  insert k v [] = (k, v) ∷ []
  insert k v ((j, w) ∷ m) =
      if e.same j k
      then (k, v) ∷ m
      else if e.less k j
      then (k, v) ∷ (j, w) ∷ m
      else (j, w) ∷ insert k v m

  unfoldable pub remove : K → Map K V → Map K V
  remove k [] = []
  remove k ((j, w) ∷ m) = let rest = remove k m in if e.same j k then rest else (j, w) ∷ rest

  pub lookup-insert :
      (j k : K) (v : V) (m : Map K V)
      → lookup j (insert k v m) ≡ (if e.same k j then some v else lookup j m)
  unfolding lookup insert
  lookup-insert j k v [] = refl
  lookup-insert j k v ((i, w) ∷ m) =
      ground (arith, e.same_iff i k, e.same_iff i j, e.same_iff k j, lookup-insert j k v m)

  pub lookup-remove :
      (j k : K) (m : Map K V) → lookup j (remove k m) ≡ (if e.same k j then none else lookup j m)
  unfolding lookup remove
  lookup-remove j k [] = ground arith
  lookup-remove j k ((i, w) ∷ m) =
      ground (arith, e.same_iff i k, e.same_iff i j, e.same_iff k j, lookup-remove j k m)

  pub length-insert : (k : K) (v : V) (m : Map K V) → length (insert k v m) ≤ length m + 1
  unfolding insert
  length-insert k v [] = omega arith
  length-insert k v ((i, w) ∷ m) = ground (arith, length-insert k v m)

  pub length-remove-le : (k : K) (m : Map K V) → length (remove k m) ≤ length m
  unfolding remove
  length-remove-le k [] = omega arith
  length-remove-le k ((i, w) ∷ m) = ground (arith, length-remove-le k m)

  -- To remove a key that is there makes the map shorter.
  pub length-remove :
      (k : K) (v : V) (m : Map K V) → lookup k m ≡ some v → length (remove k m) < length m
  unfolding lookup remove
  length-remove k v [] h = cc
  length-remove k v ((i, w) ∷ m) h = ground (arith, length-remove k v m, length-remove-le k m)
