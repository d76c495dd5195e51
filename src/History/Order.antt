-- ===== src/History/Order.antt =====
-- src/history.rs: records in the order of their identities, and the one that a sweep meets next.
use chrimp.Trace.Cursor.{first_above, next_entry}
use chrimp.History.{HistoryRecord, condition_value, history_key}
use chrimp.Prelude.{
  ==_iff, Bool-cases, Option, [], ap, arith, false, inl, inr, ltb, ltb→lt, none, none≢some, some,
  some-injective, subst, sym, true, ℕ, ◌<◌, ◌==◌, ◌∷◌, ◌≡◌, ◌≤◌, ◌⊎◌,
}
use chrimp.Map.{Map, lookup, nat_key, remove}
use chrimp.Condition.Handle.{condition_key, pair_key}

-- The records in the order of their identities, as a BTreeMap's.
abbrev pub AllAbove : ℕ → Map ℕ HistoryRecord → Type 0
AllAbove k [] = Unit {0}
AllAbove k ((j, r) ∷ m) = (k < j) × AllAbove k m

abbrev pub IsOrdered : Map ℕ HistoryRecord → Type 0
IsOrdered [] = Unit {0}
IsOrdered ((j, r) ∷ m) = AllAbove j m × IsOrdered m

lookup-AllAbove :
    (k : ℕ) (m : Map ℕ HistoryRecord) (id : ℕ) (r : HistoryRecord)
    → AllAbove k m
    → lookup id m ≡ some r
    → k < id
unfolding lookup
lookup-AllAbove k [] id r a e = cc
lookup-AllAbove k ((j, q) ∷ m) id r (l, a) e = elim (Bool-cases (j == id)) [
  | inl x ↦ subst (λ i. k < i) ((==_iff j id).0 x) l
  | inr x ↦ lookup-AllAbove k m id r a (rw x at e)
]

remove-AllAbove : (k id : ℕ) (m : Map ℕ HistoryRecord) → AllAbove k m → AllAbove k (remove id m)
unfolding remove
remove-AllAbove k id [] a = tt
remove-AllAbove k id ((j, q) ∷ m) (l, a) = elim (Bool-cases (j == id)) [
  | inl x ↦ rw x (remove-AllAbove k id m a)
  | inr x ↦ rw x (l, remove-AllAbove k id m a)
]

pub remove-IsOrdered : (id : ℕ) (m : Map ℕ HistoryRecord) → IsOrdered m → IsOrdered (remove id m)
unfolding remove
remove-IsOrdered id [] a = tt
remove-IsOrdered id ((j, q) ∷ m) (l, a) = elim (Bool-cases (j == id)) [
  | inl x ↦ rw x (remove-IsOrdered id m a)
  | inr x ↦ rw x (remove-AllAbove j id m l, remove-IsOrdered id m a)
]

-- The identities that the sweep has passed.
abbrev pub IsPast : Option ℕ → ℕ → Type 0
IsPast none id = ⊥
IsPast (some k) id = id ≤ k

first_above-least :
    (k : ℕ) (m : Map ℕ HistoryRecord) (i : ℕ) (r : HistoryRecord) (id : ℕ) (q : HistoryRecord)
    → IsOrdered m
    → first_above k m ≡ some (i, r)
    → lookup id m ≡ some q
    → k < id
    → i ≤ id
unfolding first_above lookup
first_above-least k [] i r id q a e f l = cc
first_above-least k ((j, p) ∷ m) i r id q (b, a) e f l = elim (Bool-cases (ltb k j)) [
  | inl x ↦
      let same : j ≡ i = ap (λ p. p.0) (some-injective _ _ (rw x at e)) in
      elim (Bool-cases (j == id)) [
        | inl y ↦ omega (arith, same, (==_iff j id).0 y)
        | inr y ↦ let u : j < id = lookup-AllAbove j m id q b (rw y at f) in omega arith
      ]
  | inr x ↦ elim (Bool-cases (j == id)) [
    | inl y ↦ absurd (clash k j id x y l)
    | inr y ↦ first_above-least k m i r id q a (rw x at e) (rw y at f) l
  ]
]
  where
    clash : (k j id : ℕ) → ltb k j ≡ false → (j == id) ≡ true → k < id → ⊥
    clash k j id x y l = ground arith

-- A record that is not passed is not before the one that the sweep meets.
pub next_entry-least :
    (o : Option ℕ) (m : Map ℕ HistoryRecord) (i : ℕ) (r : HistoryRecord) (id : ℕ)
    (q : HistoryRecord)
    → IsOrdered m
    → next_entry o m ≡ some (i, r)
    → lookup id m ≡ some q
    → IsPast o id ⊎ (i ≤ id)
unfolding next_entry lookup
next_entry-least none [] i r id q a e f = cc
next_entry-least none ((j, p) ∷ m) i r id q (b, a) e f =
    let same : j ≡ i = ap (λ p. p.0) (some-injective _ _ e) in
    elim (Bool-cases (j == id)) [
      | inl y ↦ inr (omega (arith, same, (==_iff j id).0 y))
      | inr y ↦ let u : j < id = lookup-AllAbove j m id q b (rw y at f) in inr (omega arith)
    ]
next_entry-least (some k) m i r id q a e f = elim (Bool-cases (ltb k id)) [
  | inl x ↦ inr (first_above-least k m i r id q a e f (ltb→lt k id x))
  | inr x ↦ inl (not_after k id x)
]
  where
    not_after : (k id : ℕ) → ltb k id ≡ false → id ≤ k
    not_after k id x = ground arith

-- Where the sweep meets none, it has passed all.
pub next_entry-none :
    (o : Option ℕ) (m : Map ℕ HistoryRecord) (id : ℕ) (q : HistoryRecord)
    → next_entry o m ≡ none
    → lookup id m ≡ some q
    → IsPast o id
unfolding next_entry lookup first_above
next_entry-none none [] id q e f = cc
next_entry-none none ((j, p) ∷ m) id q e f = cc
next_entry-none (some k) [] id q e f = cc
next_entry-none (some k) ((j, p) ∷ m) id q e f = elim (Bool-cases (ltb k j)) [
  | inl x ↦ absurd (none≢some (j, p) (sym (rw x at e)))
  | inr x ↦ elim (Bool-cases (j == id)) [
    | inl y ↦ not_after k j id x y
    | inr y ↦ next_entry-none (some k) m id q (rw x at e) (rw y at f)
  ]
]
  where
    not_after : (k j id : ℕ) → ltb k j ≡ false → (j == id) ≡ true → id ≤ k
    not_after k j id x y = ground arith
