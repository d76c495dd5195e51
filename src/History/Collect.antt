-- ===== src/History/Collect.antt =====
-- src/history.rs: a sweep ends, and keeps the roots whose entries are all of marked records.
use chrimp.History.Laws.{IsHistory}
use chrimp.History.Sweep.{IsKept, first_above-lookup, next_entry-lookup, sweep_tick-keeps}
use chrimp.Trace.Cursor.{next_entry}
use chrimp.History.{
  History, HistoryKey, HistoryRecord, condition_value, history_key, support, sweep, sweep_on,
  sweep_tick,
}
use chrimp.Prelude.{
  Bool-cases, Option, Option-cases, [], arith, if◌then◌else◌, inl, inr, length, ltb, ltb→lt, none,
  none≢some, refl, some, some-injective, subst, suc, zero, ℕ, ◌<◌, ◌==◌, ◌∙◌, ◌∷◌, ◌≡◌, ◌≤◌,
}
use chrimp.Map.{Map, lookup, nat_key, remove}
use chrimp.Condition.Handle.{Condition, condition_key, less, pair_key}
use chrimp.Store.Trie.{Root}

-- The number of records that a sweep has still to meet.
abbrev pub count_above : Option ℕ → Map ℕ HistoryRecord → ℕ
count_above none m = length m
count_above (some k) [] = 0
count_above (some k) ((j, r) ∷ m) =
    let rest = count_above (some k) m in if ltb k j then suc rest else rest

count_above-le :
    (k id : ℕ) (m : Map ℕ HistoryRecord) → k ≤ id → count_above (some id) m ≤ count_above (some k) m
count_above-le k id [] l = omega arith
count_above-le k id ((j, r) ∷ m) l = ground (arith, count_above-le k id m l)

count_above-length : (k : ℕ) (m : Map ℕ HistoryRecord) → count_above (some k) m ≤ length m
count_above-length k [] = omega arith
count_above-length k ((j, r) ∷ m) = ground (arith, count_above-length k m)

count_above-lt :
    (k id : ℕ) (r : HistoryRecord) (m : Map ℕ HistoryRecord)
    → k < id
    → lookup id m ≡ some r
    → count_above (some id) m < count_above (some k) m
unfolding lookup
count_above-lt k id r [] l e = cc
count_above-lt k id r ((j, q) ∷ m) l e = elim (Bool-cases (j == id)) [
  | inl x ↦ ground (arith, count_above-le k id m (omega arith))
  | inr x ↦ ground (arith, count_above-lt k id r m l (rw x at e))
]

count_above-all :
    (id : ℕ) (r : HistoryRecord) (m : Map ℕ HistoryRecord)
    → lookup id m ≡ some r
    → count_above (some id) m < length m
unfolding lookup
count_above-all id r [] e = cc
count_above-all id r ((j, q) ∷ m) e = elim (Bool-cases (j == id)) [
  | inl x ↦ ground (arith, count_above-length id m)
  | inr x ↦ ground (arith, count_above-all id r m (rw x at e))
]

pub count_above-remove :
    (k id : ℕ) (m : Map ℕ HistoryRecord)
    → count_above (some k) (remove id m) ≤ count_above (some k) m
unfolding remove
count_above-remove k id [] = omega arith
count_above-remove k id ((j, q) ∷ m) = ground (arith, count_above-remove k id m)

-- A turn that meets a record leaves fewer to meet.
pub meets_less :
    (o : Option ℕ) (m : Map ℕ HistoryRecord) (id : ℕ) (r : HistoryRecord)
    → next_entry o m ≡ some (id, r)
    → count_above (some id) m < count_above o m
unfolding next_entry
meets_less none m id r e = count_above-all id r m (next_entry-lookup none m id r e)
meets_less (some k) m id r e =
    let (f, l) = first_above-lookup k m id r e in count_above-lt k id r m (ltb→lt k id l) f

sweep_tick_less :
    (h : History) (o : Option ℕ) (id : ℕ)
    → (sweep_tick h o).1 ≡ some id
    → count_above (some id) ((sweep_tick h o).0.records) < count_above o (h.records)
unfolding sweep_tick
sweep_tick_less h o id e = elim (Option-cases (next_entry o (h.records))) [
  | inl x ↦ absurd (none≢some id (rw (x, sweep_tick) at e))
  | inr ((i, r), x) ↦
      let same : i ≡ id = some-injective _ _ (rw (x, sweep_tick) at e) in
      let less : count_above (some i) (h.records) < count_above o (h.records) =
        meets_less o (h.records) i r x in
      subst (λ n. count_above (some n) ((sweep_tick h o).0.records) < count_above o (h.records))
        same
        (elim (Bool-cases (r.marked == h.epoch)) [
          | inl y ↦ rw (x, y, sweep_tick) less
          | inr y ↦ rw (x, y, sweep_tick) (omega (arith, count_above-remove i i (h.records)))
        ])
]

abbrev pub Keeps : History → Root Condition → History → Type 0
Keeps h t g = IsHistory g × IsKept g t × ((j : HistoryKey) → support g t j ≡ support h t j)

pub sweep-Keeps :
    (fuel : ℕ) (h : History) (o : Option ℕ) (t : Root Condition)
    → IsHistory h
    → IsKept h t
    → count_above o (h.records) < fuel
    → (g : History) × (sweep fuel h o ≡ some g) × Keeps h t g
unfolding sweep
sweep-Keeps zero h o t a k l = absurd (omega arith)
sweep-Keeps (suc fuel) h o t a k l =
    cases (sweep_tick h o) (sweep_tick-keeps h o t a k) (λ id e. sweep_tick_less h o id e)
      (λ g i b c m. sweep-Keeps fuel g (some i) t b c m)
  where
    cases :
        (r : History × Option ℕ)
        → IsHistory r.0 × IsKept r.0 t × ((j : HistoryKey) → support r.0 t j ≡ support h t j)
        → ((id : ℕ)
            → r.1 ≡ some id
            → count_above (some id) (r.0.records) < count_above o (h.records))
        → ((g : History) (i : ℕ)
            → IsHistory g
            → IsKept g t
            → count_above (some i) (g.records) < fuel
            → (u : History) × (sweep fuel g (some i) ≡ some u) × Keeps g t u)
        → (g : History) × (sweep_on (sweep fuel) r ≡ some g) × Keeps h t g
    cases (g, none) (b, c, s) less f = (g, refl, (b, c, s))
    cases (g, some id) (b, c, s) less f =
        let m : count_above (some id) (g.records) < count_above o (h.records) = less id refl in
        let (u, e, (d, w, v)) = f g id b c (omega arith) in (u, e, (d, w, λ j. v j ∙ s j))
