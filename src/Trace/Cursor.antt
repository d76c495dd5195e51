-- ===== src/Trace/Cursor.antt =====
-- src/trace.rs: Cursor and its walks over fields and maps.
use chrimp.Prelude.{
  List, Option, [], get_elem?, if◌then◌else◌, none, some, suc, zero, ℕ, ◌+◌, ◌==◌, ◌∷◌,
}
use chrimp.Map.{Key, Map, nat_key}
use chrimp.Condition.Handle.{Condition, Pair, condition_key, pair_key}

pub data Step : Type 0 where
  root : Condition → Step
  pending finished : Step

-- The phase, index, slot, key, pair and condition of a cursor, and the cursor of its child.
mutual
  pub data Cursor : Type 0 where
    cursor : ℕ → ℕ → ℕ → Option ℕ → Option Pair → Option Condition → Child → Cursor

  pub data Child : Type 0 where
    absent : Child
    present : Cursor → Child

-- `Cursor::default()`.
abbrev pub fresh : Cursor
fresh = cursor 0 0 0 none none none absent

abbrev pub next_phase : Cursor → Cursor
next_phase (cursor p i s k q c d) = cursor (p + 1) 0 0 none none none absent

abbrev pub advance : Cursor → Step × Cursor
advance c = (pending, next_phase c)

unfoldable pub fields : List Condition → Cursor → Step × Cursor
fields xs (cursor p i s k q c d) = elim (get_elem? xs i) [
  | some x ↦ (root x, cursor p (i + 1) s k q c d)
  | none ↦ advance (cursor p i s k q c d)
]

module _ {K V : Type 0} ⦃e : Key K⦄ where
  abbrev pub first : Map K V → Option (K × V)
  first [] = none
  first (x ∷ m) = some x

  -- The first entry of `range((Excluded(k), Unbounded))`.
  unfoldable pub first_above : K → Map K V → Option (K × V)
  first_above k [] = none
  first_above k ((j, v) ∷ m) = if e.less k j then some (j, v) else first_above k m

  unfoldable pub next_entry : Option K → Map K V → Option (K × V)
  unfolding first_above
  next_entry none m = first m
  next_entry (some k) m = first_above k m

unfoldable pub values : Map ℕ Condition → Cursor → Step × Cursor
unfolding next_entry
values m (cursor p i s k q c d) = elim (next_entry k m) [
  | some (j, x) ↦ (root x, cursor p i s (some j) q c d)
  | none ↦ advance (cursor p i s k q c d)
]

-- `[a, b, v][slot]`, which the code reads at slots below three.
abbrev pub pick : Condition → Condition → Condition → ℕ → Condition
pick a b v zero = a
pick a b v (suc zero) = b
pick a b v (suc (suc s)) = v

unfoldable pub pairs : Map Pair Condition → Cursor → Step × Cursor
unfolding next_entry
pairs m (cursor p i s k q c d) = elim (next_entry q m) [
  | some ((a, b), v) ↦ (
    root (pick a b v s),
    if s + 1 == 3 then cursor p i 0 k (some (a, b)) c d else cursor p i (s + 1) k q c d,
  )
  | none ↦ advance (cursor p i s k q c d)
]

unfoldable pub substitutions : Map Condition Condition → Cursor → Step × Cursor
unfolding next_entry
substitutions m (cursor p i s k q c d) = elim (next_entry c m) [
  | some (x, y) ↦ (
    root (if s == 0 then x else y),
    if s + 1 == 2 then cursor p i 0 k q (some x) d else cursor p i (s + 1) k q c d,
  )
  | none ↦ advance (cursor p i s k q c d)
]

abbrev pub child_or_fresh : Child → Cursor
child_or_fresh absent = fresh
child_or_fresh (present c) = c

-- `trace` is the child's own walk.
unfoldable pub optional : Option (Cursor → Step × Cursor) → Cursor → Step × Cursor
optional none x = advance x
optional (some trace) (cursor p i s k q c d) =
    let (step, child) = trace (child_or_fresh d) in
    elim step [
      | finished ↦ advance (cursor p i s k q c (present child))
      | root x ↦ (root x, cursor p i s k q c (present child))
      | pending ↦ (pending, cursor p i s k q c (present child))
    ]

unfoldable pub vector : ℕ → (ℕ → Cursor → Step × Cursor) → Cursor → Step × Cursor
vector len trace (cursor p i s k q c d) =
    if i == len
    then advance (cursor p i s k q c d)
    else let (step, child) = trace i (child_or_fresh d) in
      elim step [
        | finished ↦ (pending, cursor p (i + 1) s k q c absent)
        | root x ↦ (root x, cursor p i s k q c (present child))
        | pending ↦ (pending, cursor p i s k q c (present child))
      ]
