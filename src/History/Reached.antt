-- ===== src/History/Reached.antt =====
-- src/history.rs: the histories that the operations reach, and a collection's first state.
use chrimp.Trace.Cursor.{next_entry}
use chrimp.History.Sweep.{sweep_tick-keeps, swept_records}
use chrimp.Store.Shape.{IsTrie, Keys}
use chrimp.History.Mark.{mark_tick-IsHistory, marked_as, marked_records}
use chrimp.Condition.Arena.{checked_add_one, ◌>>=◌}
use chrimp.History.Supports.{Supports, set_support-Supports, supported, under_collection, used_up}
use chrimp.History.Intern.{with_key}
use chrimp.Prelude.{
  ==_iff, Bool, Bool-cases, Option, Option-cases, [], ap, arith, false, if◌then◌else◌, inl, inr,
  ltb, ltb→lt, none, none≢some, refl, some, some-injective, subst, sym, true, ℕ, ◌+◌, ◌<◌, ◌==◌,
  ◌^◌, ◌∙◌, ◌∷◌, ◌≡◌, ◌≤◌, ◌⊎◌,
}
use chrimp.Map.{Map, insert, lookup, lookup-insert, nat_key}
use chrimp.Condition.Handle.{Condition, condition_key, false_condition, pair_key, same}
use chrimp.Store.Trie.{Root, empty}
use chrimp.History.{
  History, HistoryKey, HistoryRecord, collect, condition_value, end_collection, history_key,
  intern_key, mark_tick, new_history, put_support, set_support, sweep_tick,
}
use chrimp.History.Laws.{IsHistory, IsRoot}
use chrimp.History.Order.{AllAbove, IsOrdered, remove-IsOrdered}

-- An insertion into records in order keeps their order.
insert-AllAbove :
    (k id : ℕ) (r : HistoryRecord) (m : Map ℕ HistoryRecord)
    → k < id
    → AllAbove k m
    → AllAbove k (insert id r m)
unfolding insert
insert-AllAbove k id r [] l a = (l, tt)
insert-AllAbove k id r ((j, q) ∷ m) l (b, a) = elim (Bool-cases (j == id)) [
  | inl x ↦ rw x (l, a)
  | inr x ↦ elim (Bool-cases (ltb id j)) [
    | inl y ↦ rw (x, y) (l, (b, a))
    | inr y ↦ rw (x, y) (b, insert-AllAbove k id r m l a)
  ]
]

AllAbove-weaken : (i j : ℕ) (m : Map ℕ HistoryRecord) → i ≤ j → AllAbove j m → AllAbove i m
AllAbove-weaken i j [] l a = tt
AllAbove-weaken i j ((k, q) ∷ m) l (b, a) = (omega arith, AllAbove-weaken i j m l a)

insert-IsOrdered :
    (id : ℕ) (r : HistoryRecord) (m : Map ℕ HistoryRecord) → IsOrdered m → IsOrdered (insert id r m)
unfolding insert
insert-IsOrdered id r [] a = (tt, tt)
insert-IsOrdered id r ((j, q) ∷ m) (b, a) = elim (Bool-cases (j == id)) [
  | inl x ↦ rw x (subst (λ i. AllAbove i m) ((==_iff j id).0 x) b, a)
  | inr x ↦ elim (Bool-cases (ltb id j)) [
    | inl y ↦
        let l : id < j = ltb→lt id j y in
        rw (x, y) ((l, AllAbove-weaken id j m (omega arith) b), (b, a))
    | inr y ↦ rw (x, y) (insert-AllAbove j id r m (after id j x y) b, insert-IsOrdered id r m a)
  ]
]
  where
    after : (id j : ℕ) → (j == id) ≡ false → ltb id j ≡ false → j < id
    after id j x y = ground arith

-- No record has a mark of an epoch to come.
abbrev IsBehind : History → Type 0
IsBehind h = (id : ℕ) (r : HistoryRecord) → lookup id (h.records) ≡ some r → r.marked ≤ h.epoch

abbrev IsReady : History → Type 0
IsReady h = IsHistory h × (IsOrdered (h.records) × IsBehind h)

-- The histories that a new one becomes by the writes of supports under its roots, by collections
-- that begin and end, and by their marks and turns of the sweep, in any order that does not fail.
pub data Reached : History → Type 0 where
  created : Reached new_history
  support_set :
      (h g : History) (t u : Root Condition) (k : HistoryKey) (c : Condition)
      → Reached h
      → IsRoot h t
      → set_support h t k c ≡ some (g, u)
      → Reached g
  began : (h g : History) → Reached h → collect h ≡ some g → Reached g
  marked_one : (h g : History) (id : ℕ) → Reached h → mark_tick h id ≡ some g → Reached g
  swept_one : (h : History) (o : Option ℕ) → Reached h → Reached (sweep_tick h o).0
  ended : (h : History) → Reached h → Reached (end_collection h)

-- A write of a support keeps the records, or adds one with no mark under the next identity.
put_support-records :
    (h g : History) (t u : Root Condition) (k : HistoryKey) (c : Condition)
    → put_support h t k c ≡ some (g, u)
    → (h ≡ g) ⊎ ((next : ℕ) × (with_key h k next ≡ g))
unfolding put_support intern_key checked_add_one
put_support-records h g t u k c e = elim (Option-cases (lookup k (h.ids))) [
  | inr (id, x) ↦ inl (ap (λ p. p.0) (some-injective _ _ (rw (x, put_support) at e)))
  | inl x ↦ elim (Bool-cases (same c false_condition)) [
    | inl y ↦ inl (ap (λ p. p.0) (some-injective _ _ (rw (x, y, put_support) at e)))
    | inr y ↦ elim (Bool-cases (ltb (h.next_id + 1) (2 ^ 64))) [
      | inl z ↦ inr (
        h.next_id + 1,
        ap (λ p. p.0)
            (some-injective _ _ (rw (x, y, z, put_support, intern_key, checked_add_one) at e)),
      )
      | inr z ↦
          absurd (none≢some (g, u) (rw (x, y, z, put_support, intern_key, checked_add_one) at e))
    ]
  ]
]

with_key-IsBehind :
    (h : History) (k : HistoryKey) (next : ℕ) → IsBehind h → IsBehind (with_key h k next)
with_key-IsBehind h k next b id r e = elim (Bool-cases (h.next_id == id)) [
  | inl x ↦
      let s : record { owner_key = k; marked = 0 } ≡ r = some-injective _ _ (
        sym (
          lookup-insert id (h.next_id) record { owner_key = k; marked = 0 } (h.records) ∙ rw x refl)
        ∙ e) in
      subst (λ q. q.marked ≤ h.epoch) s (omega arith)
  | inr x ↦ b id r (
      sym
        (lookup-insert id (h.next_id) record { owner_key = k; marked = 0 } (h.records) ∙ rw x refl)
      ∙ e)
]

not_frozen :
    {A : Type 0} (b : Bool) (o : Option A) (p : A) → (if b then none else o) ≡ some p → o ≡ some p
not_frozen true o p e = absurd (none≢some p e)
not_frozen false o p e = e

set_support-put_support :
    (h : History) (t : Root Condition) (k : HistoryKey) (c : Condition)
    (p : History × Root Condition)
    → set_support h t k c ≡ some p
    → put_support h t k c ≡ some p
unfolding set_support
set_support-put_support h t k c p e = not_frozen (h.frozen) (put_support h t k c) p e

Supports-IsHistory :
    (h g : History) (t u : Root Condition) (k : HistoryKey) (c : Condition)
    (o : Option (History × Root Condition))
    → Supports h t k c o
    → o ≡ some (g, u)
    → IsHistory g
Supports-IsHistory h g t u k c (some (f, v)) (supported i w z a r s m n) e =
    subst IsHistory (ap (λ p. p.0) (some-injective _ _ e)) a
Supports-IsHistory h g t u k c none (under_collection z) e = absurd (none≢some (g, u) e)
Supports-IsHistory h g t u k c none (used_up z x y l) e = absurd (none≢some (g, u) e)

set_support-IsReady :
    (h g : History) (t u : Root Condition) (k : HistoryKey) (c : Condition)
    → IsReady h
    → IsRoot h t
    → set_support h t k c ≡ some (g, u)
    → IsReady g
set_support-IsReady h g t u k c (a, (o, b)) r e = (
  Supports-IsHistory h g t u k c (set_support h t k c) (set_support-Supports h t k c a r) e,
  elim (put_support-records h g t u k c (set_support-put_support h t k c (g, u) e)) [
    | inl x ↦ subst (λ f. IsOrdered (f.records) × IsBehind f) x (o, b)
    | inr (next, x) ↦
        subst (λ f. IsOrdered (f.records) × IsBehind f) x
          (
            insert-IsOrdered (h.next_id) record { owner_key = k; marked = 0 } (h.records) o,
            with_key-IsBehind h k next b,
          )
  ],
)

mark_tick-IsReady : (h g : History) (id : ℕ) → IsReady h → mark_tick h id ≡ some g → IsReady g
unfolding mark_tick
mark_tick-IsReady h g id (a, (o, b)) e = elim (Option-cases (lookup id (h.records))) [
  | inl x ↦ absurd (none≢some g (rw (x, mark_tick) at e))
  | inr (r, x) ↦
      let (f, y, (c, m, n)) = mark_tick-IsHistory h id r a x in
      let same : f ≡ g = some-injective _ _ (sym y ∙ e) in
      let records : marked_as h id r ≡ g = some-injective _ _ (rw (x, mark_tick) at e) in
      (
        subst IsHistory same c,
        subst (λ f. IsOrdered (f.records) × IsBehind f) records
            (
              insert-IsOrdered id record { owner_key = r.owner_key; marked = h.epoch } (h.records)
                  o,
              marked_as-IsBehind h id r b,
            ),
      )
]
  where
    marked_as-IsBehind :
        (h : History) (id : ℕ) (r : HistoryRecord) → IsBehind h → IsBehind (marked_as h id r)
    marked_as-IsBehind h id r b i q e = elim (Bool-cases (id == i)) [
      | inl x ↦
          let s : record { owner_key = r.owner_key; marked = h.epoch } ≡ q =
            some-injective _ _ (sym (marked_records h id r i ∙ rw x refl) ∙ e) in
          subst (λ z. z.marked ≤ h.epoch) s (omega arith)
      | inr x ↦ b i q (sym (marked_records h id r i ∙ rw x refl) ∙ e)
    ]

sweep_tick-IsReady : (h : History) (o : Option ℕ) → IsReady h → IsReady (sweep_tick h o).0
unfolding sweep_tick IsTrie Keys
sweep_tick-IsReady h o (a, (d, b)) = (
  (sweep_tick-keeps h o empty a (tt, tt)).0,
  elim (Option-cases (next_entry o (h.records))) [
    | inl x ↦ rw (x, sweep_tick) (d, b)
    | inr ((id, r), x) ↦ elim (Bool-cases (r.marked == h.epoch)) [
      | inl y ↦ rw (x, y, sweep_tick) (d, b)
      | inr y ↦
          rw (x, y, sweep_tick)
            (remove-IsOrdered id (h.records) d, λ i q e. b i q ((swept_records h id i q e).1))
    ]
  ],
)

-- A history with its collection begun, at an epoch.
abbrev begun : History → ℕ → History
begun h next = record {
  ids = h.ids;
  records = h.records;
  next_id = h.next_id;
  epoch = next;
  frozen = true;
}

collect-begun : (h g : History) → collect h ≡ some g → begun h (h.epoch + 1) ≡ g
unfolding collect checked_add_one
collect-begun h g e = elim (Bool-cases (ltb (h.epoch + 1) (2 ^ 64))) [
  | inl x ↦ some-injective _ _ (rw (x, checked_add_one) at opened)
  | inr x ↦ absurd (none≢some g (rw (x, checked_add_one) at opened))
]
  where
    opened : (checked_add_one (h.epoch) >>= λ next. some (begun h next)) ≡ some g
    opened = not_frozen (h.frozen) (checked_add_one (h.epoch) >>= λ next. some (begun h next)) g e

begun-IsReady : (h : History) (next : ℕ) → IsReady h → h.epoch ≤ next → IsReady (begun h next)
unfolding IsHistory
begun-IsReady h next (a, (o, b)) l =
    (a, (o, λ id r e. let m : r.marked ≤ h.epoch = b id r e in omega arith))

new_history-IsReady : IsReady new_history
unfolding IsHistory lookup
new_history-IsReady = (
  ((λ k id e. absurd (none≢some id e)), (λ id r e. absurd (none≢some r e)), omega arith),
  (tt, λ id r e. absurd (none≢some r e)),
)

end_collection-IsReady : (h : History) → IsReady h → IsReady (end_collection h)
unfolding IsHistory
end_collection-IsReady h a = a

Reached-IsReady : (h : History) → Reached h → IsReady h
Reached-IsReady h created = new_history-IsReady
Reached-IsReady x (support_set h g t u k c p r e) =
    set_support-IsReady h g t u k c (Reached-IsReady h p) r e
Reached-IsReady x (began h g p e) =
    subst IsReady (collect-begun h g e)
      (begun-IsReady h (h.epoch + 1) (Reached-IsReady h p) (omega arith))
Reached-IsReady x (marked_one h g id p e) = mark_tick-IsReady h g id (Reached-IsReady h p) e
Reached-IsReady x (swept_one h o p) = sweep_tick-IsReady h o (Reached-IsReady h p)
Reached-IsReady x (ended h p) = end_collection-IsReady h (Reached-IsReady h p)

-- A collection that begins at a history that a new one becomes by its operations begins at a well
-- formed one with its records in order, in which no record is marked with the epoch.
pub collect-IsHistory :
    (h g : History)
    → Reached h
    → collect h ≡ some g
    → IsHistory g
      × (IsOrdered (g.records)
          × ((id : ℕ) (r : HistoryRecord)
              → lookup id (g.records) ≡ some r
              → (r.marked == g.epoch) ≡ false))
unfolding IsHistory
collect-IsHistory h g p e =
    let (a, (o, b)) = Reached-IsReady h p in
    subst
      (λ f.
        IsHistory f
        × (IsOrdered (f.records)
            × ((id : ℕ) (r : HistoryRecord)
                → lookup id (f.records) ≡ some r
                → (r.marked == f.epoch) ≡ false)))
      (collect-begun h g e) (a, (o, λ id r f. below (r.marked) (h.epoch) (b id r f)))
  where
    below : (m n : ℕ) → m ≤ n → (m == n + 1) ≡ false
    below m n l = ground arith
