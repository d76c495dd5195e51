-- ===== src/Trace/Walk.antt =====
-- src/trace.rs: a walk gives each root once, in order, and then turns to the next phase.
use chrimp.Prelude.{List, Option, [], false, none, refl, some, true, ℕ, ◌∷◌, ◌≡◌}
use chrimp.Map.{Key, Map, nat_key}
use chrimp.Condition.Handle.{Condition, Pair, condition_key, pair_key}
use chrimp.Trace.Cursor.{
  Child, Cursor, Step, absent, cursor, fresh, next_entry, next_phase, pairs, pending, root,
  substitutions, values,
}

pub data Visits (step : Cursor → Step × Cursor) : Cursor → List Condition → Type 0 where
  passed : (c : Cursor) → step c ≡ (pending, next_phase c) → Visits step c []
  visited :
      (c d : Cursor) (x : Condition) (xs : List Condition)
      → step c ≡ (root x, d)
      → Visits step d xs
      → Visits step c (x ∷ xs)

module _ {K V : Type 0} ⦃e : Key K⦄ where
  abbrev pub Above : K → Map K V → Type 0
  Above k [] = Unit {0}
  Above k ((j, v) ∷ m) = (e.less k j ≡ true) × (e.less j k ≡ false) × Above k m

  -- The entries stand in the order of their keys, as in a BTreeMap.
  abbrev pub IsSorted : Map K V → Type 0
  IsSorted [] = Unit {0}
  IsSorted ((k, v) ∷ m) = (e.less k k ≡ false) × Above k m × IsSorted m

  -- From the key `k` on, the map goes through the entries of a list and no more.
  pub data Runs (m : Map K V) : Option K → Map K V → Type 0 where
    stops : (k : Option K) → next_entry k m ≡ none → Runs m k []
    runs :
        (k : Option K) (j : K) (v : V) (rest : Map K V)
        → next_entry k m ≡ some (j, v)
        → Runs m (some j) rest
        → Runs m k ((j, v) ∷ rest)

  Runs-cons :
      (j : K) (w : V) (m : Map K V) (k : K) (rest : Map K V)
      → e.less k j ≡ false
      → Above j rest
      → Runs m (some k) rest
      → Runs ((j, w) ∷ m) (some k) rest
  unfolding next_entry
  Runs-cons j w m k [] h a (stops _ g) = stops (some k) (rw h g)
  Runs-cons j w m k ((i, v) ∷ rest) h a (runs _ _ _ _ g t) =
      runs (some k) i v rest (rw h g) (Runs-cons j w m i rest a.1 a.2 t)

  Runs-tail :
      (k : K) (v : V) (m : Map K V)
      → e.less k k ≡ false
      → Above k m
      → Runs m none m
      → Runs ((k, v) ∷ m) (some k) m
  unfolding next_entry
  Runs-tail k v [] h a t = stops (some k) (rw h refl)
  Runs-tail k v ((j, w) ∷ m) h a (runs _ _ _ _ g t) =
      runs (some k) j w m (rw (h, a.0) refl) (Runs-cons k v ((j, w) ∷ m) j m a.1 a.2 t)

  -- A sorted map goes through its own entries.
  IsSorted-Runs : (m : Map K V) → IsSorted m → Runs m none m
  unfolding next_entry
  IsSorted-Runs [] h = stops none refl
  IsSorted-Runs ((k, v) ∷ m) h =
      runs none k v m refl (Runs-tail k v m h.0 h.1 (IsSorted-Runs m h.2))

-- The values of a map.
abbrev pub values_of : Map ℕ Condition → List Condition
values_of [] = []
values_of ((k, v) ∷ m) = v ∷ values_of m

Runs-values :
    (m : Map ℕ Condition) (p i s : ℕ) (k : Option ℕ) (q : Option Pair) (c : Option Condition)
    (d : Child) (rest : Map ℕ Condition)
    → Runs m k rest
    → Visits (values m) (cursor p i s k q c d) (values_of rest)
unfolding values
Runs-values m p i s k q c d [] (stops _ g) = passed _ (rw (values, g) refl)
Runs-values m p i s k q c d ((j, v) ∷ rest) (runs _ _ _ _ g t) =
    visited _ (cursor p i s (some j) q c d) v (values_of rest) (rw (values, g) refl)
      (Runs-values m p i s (some j) q c d rest t)

-- `values` gives every value of the map once, in the order of the keys, and ends the phase.
pub values-Visits : (m : Map ℕ Condition) → IsSorted m → Visits (values m) fresh (values_of m)
values-Visits m h = Runs-values m 0 0 0 none none none absent m (IsSorted-Runs m h)

-- The three conditions of each entry.
abbrev pub triples_of : Map Pair Condition → List Condition
triples_of [] = []
triples_of ((k, v) ∷ m) = k.0 ∷ k.1 ∷ v ∷ triples_of m

Runs-pairs :
    (m : Map Pair Condition) (p i : ℕ) (k : Option ℕ) (q : Option Pair) (c : Option Condition)
    (d : Child) (rest : Map Pair Condition)
    → Runs m q rest
    → Visits (pairs m) (cursor p i 0 k q c d) (triples_of rest)
unfolding pairs
Runs-pairs m p i k q c d [] (stops _ g) = passed _ (rw (pairs, g) refl)
Runs-pairs m p i k q c d (((a, b), v) ∷ rest) (runs _ _ _ _ g t) =
    visited _ (cursor p i 1 k q c d) a _ (rw (pairs, g) refl) (
      visited _ (cursor p i 2 k q c d) b _ (rw (pairs, g) refl) (
        visited _ (cursor p i 0 k (some (a, b)) c d) v _ (rw (pairs, g) refl)
          (Runs-pairs m p i k (some (a, b)) c d rest t)))

-- `pairs` gives the operands and the result of every entry once, in order, and ends the phase.
pub pairs-Visits : (m : Map Pair Condition) → IsSorted m → Visits (pairs m) fresh (triples_of m)
pairs-Visits m h = Runs-pairs m 0 0 none none none absent m (IsSorted-Runs m h)

-- The key and the value of each entry.
abbrev pub couples_of : Map Condition Condition → List Condition
couples_of [] = []
couples_of ((k, v) ∷ m) = k ∷ v ∷ couples_of m

Runs-substitutions :
    (m : Map Condition Condition) (p i : ℕ) (k : Option ℕ) (q : Option Pair) (c : Option Condition)
    (d : Child) (rest : Map Condition Condition)
    → Runs m c rest
    → Visits (substitutions m) (cursor p i 0 k q c d) (couples_of rest)
unfolding substitutions
Runs-substitutions m p i k q c d [] (stops _ g) = passed _ (rw (substitutions, g) refl)
Runs-substitutions m p i k q c d ((x, y) ∷ rest) (runs _ _ _ _ g t) =
    visited _ (cursor p i 1 k q c d) x _ (rw (substitutions, g) refl) (
      visited _ (cursor p i 0 k q (some x) d) y _ (rw (substitutions, g) refl)
        (Runs-substitutions m p i k q (some x) d rest t))

-- `substitutions` gives every key and its value once, in order, and ends the phase.
pub substitutions-Visits :
    (m : Map Condition Condition) → IsSorted m → Visits (substitutions m) fresh (couples_of m)
substitutions-Visits m h = Runs-substitutions m 0 0 none none none absent m (IsSorted-Runs m h)
