-- ===== src/History/SweepAll.antt =====
-- src/history.rs: a whole sweep removes the records that are not marked, and no others.
use chrimp.History.Collect.{Keeps, count_above, count_above-remove, meets_less, sweep-Keeps}
use chrimp.History.Order.{IsOrdered, IsPast, next_entry-least, next_entry-none, remove-IsOrdered}
use chrimp.History.Laws.{IsHistory}
use chrimp.History.Sweep.{IsKept, next_entry-lookup, swept, swept_records}
use chrimp.Trace.Cursor.{next_entry}
use chrimp.History.{
  History, HistoryRecord, condition_value, history_key, sweep, sweep_on, sweep_tick,
}
use chrimp.Prelude.{
  ==_iff, Bool-cases, Option, Option-cases, ap, arith, false, if◌then◌else◌, inl, inr, length, none,
  refl, some, some-injective, subst, suc, sym, true, zero, ℕ, ◌<◌, ◌==◌, ◌∙◌, ◌≡◌, ◌≤◌,
}
use chrimp.Map.{lookup, lookup-remove, nat_key, remove}
use chrimp.Condition.Handle.{Condition, condition_key, pair_key}
use chrimp.Store.Trie.{Root}

-- A record, if it is marked.
abbrev pub keep_marked : ℕ → Option HistoryRecord → Option HistoryRecord
keep_marked epoch none = none
keep_marked epoch (some r) = if r.marked == epoch then some r else none

-- The sweep has passed marked records only.
abbrev IsChecked : History → Option ℕ → Type 0
IsChecked h o =
    (id : ℕ) (r : HistoryRecord)
    → lookup id (h.records) ≡ some r
    → IsPast o id
    → (r.marked == h.epoch) ≡ true

abbrev pub Removes : History → History → Type 0
Removes h g =
    IsOrdered (g.records)
    × ((id : ℕ) → lookup id (g.records) ≡ keep_marked (h.epoch) (lookup id (h.records)))

tick_end :
    (h : History) (o : Option ℕ) → next_entry o (h.records) ≡ none → sweep_tick h o ≡ (h, none)
unfolding sweep_tick
tick_end h o e = rw (e, sweep_tick) refl

tick_kept :
    (h : History) (o : Option ℕ) (i : ℕ) (r : HistoryRecord)
    → next_entry o (h.records) ≡ some (i, r)
    → (r.marked == h.epoch) ≡ true
    → sweep_tick h o ≡ (h, some i)
unfolding sweep_tick
tick_kept h o i r e x = rw (e, x, sweep_tick) refl

tick_swept :
    (h : History) (o : Option ℕ) (i : ℕ) (r : HistoryRecord)
    → next_entry o (h.records) ≡ some (i, r)
    → (r.marked == h.epoch) ≡ false
    → sweep_tick h o ≡ (swept h i r, some i)
unfolding sweep_tick
tick_swept h o i r e x = rw (e, x, sweep_tick) refl

all_marked :
    (h : History) (o : Option ℕ)
    → next_entry o (h.records) ≡ none
    → IsChecked h o
    → (id : ℕ) → lookup id (h.records) ≡ keep_marked (h.epoch) (lookup id (h.records))
all_marked h o e c id = elim (Option-cases (lookup id (h.records))) [
  | inl x ↦ rw x refl
  | inr (r, x) ↦ rw (x, c id r x (next_entry-none o (h.records) id r e x)) refl
]

kept-IsChecked :
    (h : History) (o : Option ℕ) (i : ℕ) (r : HistoryRecord)
    → IsOrdered (h.records)
    → next_entry o (h.records) ≡ some (i, r)
    → (r.marked == h.epoch) ≡ true
    → IsChecked h o
    → IsChecked h (some i)
kept-IsChecked h o i r d e x c id q f l = elim (next_entry-least o (h.records) i r id q d e f) [
  | inl p ↦ c id q f p
  | inr p ↦
      let same : i ≡ id = omega arith in
      let s : r ≡ q =
        some-injective _ _
          (sym (next_entry-lookup o (h.records) i r e) ∙ ap (λ n. lookup n (h.records)) same ∙ f) in
      ap (λ z. z.marked == h.epoch) (sym s) ∙ x
]

swept-IsChecked :
    (h : History) (o : Option ℕ) (i : ℕ) (r : HistoryRecord)
    → IsOrdered (h.records)
    → next_entry o (h.records) ≡ some (i, r)
    → IsChecked h o
    → IsChecked (swept h i r) (some i)
swept-IsChecked h o i r d e c id q f l =
    let (x, g) = swept_records h i id q f in
    elim (next_entry-least o (h.records) i r id q d e g) [
      | inl p ↦ c id q g p
      | inr p ↦ absurd (clash i id x l p)
    ]
  where
    clash : (i id : ℕ) → (i == id) ≡ false → id ≤ i → i ≤ id → ⊥
    clash i id x l p = ground arith

-- What is left of the records without one that is not marked.
swept-Removes :
    (h g : History) (i : ℕ) (r : HistoryRecord)
    → lookup i (h.records) ≡ some r
    → (r.marked == h.epoch) ≡ false
    → Removes (swept h i r) g
    → Removes h g
swept-Removes h g i r e x (d, f) = (d, λ id. f id ∙ removed id)
  where
    removed :
        (id : ℕ)
        → keep_marked (h.epoch) (lookup id (remove i (h.records)))
          ≡ keep_marked (h.epoch) (lookup id (h.records))
    removed id = elim (Bool-cases (i == id)) [
      | inl y ↦
          let gone : lookup id (remove i (h.records)) ≡ none =
            lookup-remove id i (h.records) ∙ rw y refl in
          let found : lookup id (h.records) ≡ some r =
            ap (λ n. lookup n (h.records)) (sym ((==_iff i id).0 y)) ∙ e in
          rw (gone, found, x) refl
      | inr y ↦ ap (keep_marked (h.epoch)) (lookup-remove id i (h.records) ∙ rw y refl)
    ]

sweep-Removes :
    (fuel : ℕ) (h : History) (o : Option ℕ)
    → IsOrdered (h.records)
    → IsChecked h o
    → count_above o (h.records) < fuel
    → (g : History) × (sweep fuel h o ≡ some g) × Removes h g
unfolding sweep
sweep-Removes zero h o d c l = absurd (omega arith)
sweep-Removes (suc fuel) h o d c l = elim (Option-cases (next_entry o (h.records))) [
  | inl e ↦ (h, ap (sweep_on (sweep fuel)) (tick_end h o e), (d, all_marked h o e c))
  | inr ((i, r), e) ↦ elim (Bool-cases (r.marked == h.epoch)) [
    | inl x ↦
        let less : count_above (some i) (h.records) < count_above o (h.records) =
          meets_less o (h.records) i r e in
        let (g, f, m) =
          sweep-Removes fuel h (some i) d (kept-IsChecked h o i r d e x c) (omega arith) in
        (g, ap (sweep_on (sweep fuel)) (tick_kept h o i r e x) ∙ f, m)
    | inr x ↦
        let less : count_above (some i) (h.records) < count_above o (h.records) =
          meets_less o (h.records) i r e in
        let fewer : count_above (some i) (remove i (h.records)) ≤ count_above (some i) (h.records) =
          count_above-remove i i (h.records) in
        let (g, f, m) =
          sweep-Removes fuel (swept h i r) (some i) (remove-IsOrdered i (h.records) d)
            (swept-IsChecked h o i r d e c) (omega arith) in
        (
          g,
          ap (sweep_on (sweep fuel)) (tick_swept h o i r e x) ∙ f,
          swept-Removes h g i r (next_entry-lookup o (h.records) i r e) x m,
        )
  ]
]

-- The sweep of a history ends, within a turn for each record and one more, and removes every record
-- that is not marked with the epoch and no other, for records in the order of their identities. The
-- history stays well formed; a root whose entries are all of marked records stays one, and every key
-- keeps its support under it.
pub sweep_lem :
    (h : History) (t : Root Condition)
    → IsHistory h
    → IsOrdered (h.records)
    → IsKept h t
    → (g : History) × (sweep (suc (length (h.records))) h none ≡ some g)
      × (Keeps h t g × Removes h g)
sweep_lem h t a d k =
    let (g, e, m) =
      sweep-Removes (suc (length (h.records))) h none d (λ id r f p. absurd p) (omega arith) in
    let (u, f, n) = sweep-Keeps (suc (length (h.records))) h none t a k (omega arith) in
    (g, e, (subst (Keeps h t) (some-injective _ _ (sym f ∙ e)) n, m))
