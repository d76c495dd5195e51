-- ===== src/History/Sweep.antt =====
-- src/history.rs: the sweep of records, and the entries of a root.
use chrimp.History.Laws.{IsHistory, support-none, support-some}
use chrimp.Store.Reads.{Keys-imp, get-absent}
use chrimp.Trace.Cursor.{first_above, next_entry}
use chrimp.History.{
  History, HistoryKey, HistoryRecord, condition_value, history_key, id_key, or_false,
  same_history_key, same_history_key_iff, support, sweep_tick,
}
use chrimp.Store.Shape.{IsTrie, Keys}
use chrimp.Prelude.{
  ==_iff, Bool-cases, Option, Option-cases, [], ap, false, inl, inr, ltb, none, none≢some, refl,
  some, some-injective, sym, true, true≢false, ℕ, ◌<◌, ◌==◌, ◌∙◌, ◌∷◌, ◌≡◌,
}
use chrimp.Map.{Map, lookup, lookup-remove, nat_key, remove}
use chrimp.Condition.Handle.{Condition, condition_key, pair_key}
use chrimp.Store.Key.{StoreKey, key}
use chrimp.Store.Trie.{Root}

-- A key of the index that is an identity with a marked record.
unfoldable pub IsMarked : History → StoreKey → Type 0
IsMarked h (key id b c d) =
    ((b ≡ 0) × (c ≡ 0) × (d ≡ 0))
    × ((r : HistoryRecord) × (lookup id (h.records) ≡ some r) × ((r.marked == h.epoch) ≡ true))

abbrev pub IsKept : History → Root Condition → Type 0
IsKept h t = IsTrie t × Keys (IsMarked h) t

abbrev pub swept : History → ℕ → HistoryRecord → History
swept h id r = record {
  ids = remove (r.owner_key) (h.ids);
  records = remove id (h.records);
  next_id = h.next_id;
  epoch = h.epoch;
  frozen = h.frozen;
}

swept_ids :
    (h : History) (id : ℕ) (r : HistoryRecord) (j : HistoryKey) (i : ℕ)
    → lookup j (remove (r.owner_key) (h.ids)) ≡ some i
    → (same_history_key (r.owner_key) j ≡ false) × (lookup j (h.ids) ≡ some i)
swept_ids h id r j i e = elim (Bool-cases (same_history_key (r.owner_key) j)) [
  | inl x ↦ absurd (none≢some i (sym (lookup-remove j (r.owner_key) (h.ids) ∙ rw x refl) ∙ e))
  | inr x ↦ (x, sym (lookup-remove j (r.owner_key) (h.ids) ∙ rw x refl) ∙ e)
]

pub swept_records :
    (h : History) (id : ℕ) (i : ℕ) (q : HistoryRecord)
    → lookup i (remove id (h.records)) ≡ some q
    → ((id == i) ≡ false) × (lookup i (h.records) ≡ some q)
swept_records h id i q e = elim (Bool-cases (id == i)) [
  | inl x ↦ absurd (none≢some q (sym (lookup-remove i id (h.records) ∙ rw x refl) ∙ e))
  | inr x ↦ (x, sym (lookup-remove i id (h.records) ∙ rw x refl) ∙ e)
]

-- Records of different keys have different identities, and the other way round.
other_id :
    (h : History) (id i : ℕ) (r : HistoryRecord) (j : HistoryKey)
    → IsHistory h
    → lookup id (h.records) ≡ some r
    → lookup j (h.ids) ≡ some i
    → same_history_key (r.owner_key) j ≡ false
    → (id == i) ≡ false
unfolding IsHistory
other_id h id i r j (a, b, c) e f x = elim (Bool-cases (id == i)) [
  | inr y ↦ y
  | inl y ↦
      let (q, u, v) = a j i f in
      let s : r ≡ q =
        some-injective _ _ (sym e ∙ ap (λ n. lookup n (h.records)) ((==_iff id i).0 y) ∙ u) in
      absurd (
        true≢false
          (sym ((same_history_key_iff (r.owner_key) j).1 (ap (λ z. z.owner_key) s ∙ v)) ∙ x))
]

other_key :
    (h : History) (id i : ℕ) (r q : HistoryRecord)
    → IsHistory h
    → lookup id (h.records) ≡ some r
    → lookup i (h.records) ≡ some q
    → (id == i) ≡ false
    → same_history_key (r.owner_key) (q.owner_key) ≡ false
unfolding IsHistory
other_key h id i r q (a, b, c) e f x =
    elim (Bool-cases (same_history_key (r.owner_key) (q.owner_key))) [
      | inr y ↦ y
      | inl y ↦
          let same_owner : r.owner_key ≡ q.owner_key =
            (same_history_key_iff (r.owner_key) (q.owner_key)).0 y in
          let g : id ≡ i =
            some-injective _ _
              (sym (b id r e).1 ∙ ap (λ k. lookup k (h.ids)) same_owner ∙ (b i q f).1) in
          absurd (true≢false (sym ((==_iff id i).1 g) ∙ x))
    ]

swept-IsHistory :
    (h : History) (id : ℕ) (r : HistoryRecord)
    → IsHistory h
    → lookup id (h.records) ≡ some r
    → IsHistory (swept h id r)
unfolding IsHistory
swept-IsHistory h id r (a, b, c) e = (known, recorded, c)
  where
    known :
        (j : HistoryKey) (i : ℕ)
        → lookup j (remove (r.owner_key) (h.ids)) ≡ some i
        → (q : HistoryRecord) × (lookup i (remove id (h.records)) ≡ some q) × (q.owner_key ≡ j)
    known j i f =
        let (x, g) = swept_ids h id r j i f in
        let (q, u, v) = a j i g in
        (q, lookup-remove i id (h.records) ∙ rw (other_id h id i r j (a, b, c) e g x) u, v)

    recorded :
        (i : ℕ) (q : HistoryRecord)
        → lookup i (remove id (h.records)) ≡ some q
        → (i < h.next_id) × (lookup (q.owner_key) (remove (r.owner_key) (h.ids)) ≡ some i)
    recorded i q f =
        let (x, g) = swept_records h id i q f in
        let (l, u) = b i q g in
        (
          l,
          lookup-remove (q.owner_key) (r.owner_key) (h.ids)
              ∙ rw (other_key h id i r q (a, b, c) e g x) u,
        )

swept-IsKept :
    (h : History) (id : ℕ) (r : HistoryRecord) (t : Root Condition)
    → lookup id (h.records) ≡ some r
    → (r.marked == h.epoch) ≡ false
    → IsKept h t
    → IsKept (swept h id r) t
unfolding IsMarked
swept-IsKept h id r t e x (a, b) = (a, Keys-imp (IsMarked h) (IsMarked (swept h id r)) t kept b)
  where
    kept : (k : StoreKey) → IsMarked h k → IsMarked (swept h id r) k
    kept (key i u v w) (zeros, (q, f, y)) = elim (Bool-cases (id == i)) [
      | inl z ↦
          let s : r ≡ q =
            some-injective _ _ (sym e ∙ ap (λ n. lookup n (h.records)) ((==_iff id i).0 z) ∙ f) in
          absurd (true≢false (sym y ∙ ap (λ n. n.marked == h.epoch) (sym s) ∙ x))
      | inr z ↦ (zeros, (q, lookup-remove i id (h.records) ∙ rw z f, y))
    ]

-- A record that is not marked has no entry under a root whose entries are all marked.
swept-support :
    (h : History) (id : ℕ) (r : HistoryRecord) (t : Root Condition) (j : HistoryKey)
    → IsHistory h
    → lookup id (h.records) ≡ some r
    → (r.marked == h.epoch) ≡ false
    → IsKept h t
    → support (swept h id r) t j ≡ support h t j
unfolding IsMarked IsHistory
swept-support h id r t j (a, b, c) e x (d, m) =
    elim (Bool-cases (same_history_key (r.owner_key) j)) [
      | inl y ↦
          support-none (swept h id r) t j (lookup-remove j (r.owner_key) (h.ids) ∙ rw y refl)
          ∙ sym (
              support-some h t j id (
                ap (λ k. lookup k (h.ids)) (sym ((same_history_key_iff (r.owner_key) j).0 y))
                ∙ (b id r e).1)
              ∙ ap or_false (get-absent (IsMarked h) t (id_key id) m unmarked))
      | inr y ↦ elim (Option-cases (lookup j (h.ids))) [
        | inl f ↦
            support-none (swept h id r) t j (lookup-remove j (r.owner_key) (h.ids) ∙ rw y f)
            ∙ sym (support-none h t j f)
        | inr (i, f) ↦
            support-some (swept h id r) t j i (lookup-remove j (r.owner_key) (h.ids) ∙ rw y f)
            ∙ sym (support-some h t j i f)
      ]
    ]
  where
    unmarked : IsMarked h (id_key id) → ⊥
    unmarked (zeros, (q, f, y)) =
        true≢false
          (sym y ∙ ap (λ n. n.marked == h.epoch) (sym (some-injective _ _ (sym e ∙ f))) ∙ x)

pub first_above-lookup :
    (k : ℕ) (m : Map ℕ HistoryRecord) (id : ℕ) (r : HistoryRecord)
    → first_above k m ≡ some (id, r)
    → (lookup id m ≡ some r) × (ltb k id ≡ true)
unfolding first_above lookup
first_above-lookup k [] id r e = cc
first_above-lookup k ((j, q) ∷ m) id r e = elim (Bool-cases (ltb k j)) [
  | inl x ↦
      let f : (j, q) ≡ (id, r) = some-injective _ _ (sym (rw x refl) ∙ e) in
      let y : (j == id) ≡ true = (==_iff j id).1 (ap (λ p. p.0) f) in
      (rw y (ap (λ p. some (p.1)) f), ap (ltb k) (sym (ap (λ p. p.0) f)) ∙ x)
  | inr x ↦
      let (u, v) = first_above-lookup k m id r (rw x at e) in
      (
        elim (Bool-cases (j == id)) [
          | inl y ↦ absurd (true≢false (sym v ∙ ap (ltb k) (sym ((==_iff j id).0 y)) ∙ x))
          | inr y ↦ rw y u
        ],
        v,
      )
]

-- What the sweep meets is one of the records.
pub next_entry-lookup :
    (o : Option ℕ) (m : Map ℕ HistoryRecord) (id : ℕ) (r : HistoryRecord)
    → next_entry o m ≡ some (id, r)
    → lookup id m ≡ some r
unfolding next_entry lookup
next_entry-lookup none [] id r e = cc
next_entry-lookup none ((j, q) ∷ m) id r e =
    let f : (j, q) ≡ (id, r) = some-injective _ _ e in
    let y : (j == id) ≡ true = (==_iff j id).1 (ap (λ p. p.0) f) in rw y (ap (λ p. some (p.1)) f)
next_entry-lookup (some k) m id r e = (first_above-lookup k m id r e).0

-- A turn of the sweep keeps a history well formed. A root whose entries are all of marked records
-- stays one, and every key keeps its support under it.
pub sweep_tick-keeps :
    (h : History) (o : Option ℕ) (t : Root Condition)
    → IsHistory h
    → IsKept h t
    → IsHistory (sweep_tick h o).0
      × IsKept (sweep_tick h o).0 t
      × ((j : HistoryKey) → support (sweep_tick h o).0 t j ≡ support h t j)
unfolding sweep_tick
sweep_tick-keeps h o t a k = elim (Option-cases (next_entry o (h.records))) [
  | inl x ↦ rw (x, sweep_tick) (a, k, λ j. refl)
  | inr ((id, r), x) ↦ elim (Bool-cases (r.marked == h.epoch)) [
    | inl y ↦ rw (x, y, sweep_tick) (a, k, λ j. refl)
    | inr y ↦
        let e : lookup id (h.records) ≡ some r = next_entry-lookup o (h.records) id r x in
        rw (x, y, sweep_tick)
          (
            swept-IsHistory h id r a e,
            swept-IsKept h id r t e y k,
            λ j. swept-support h id r t j a e y k,
          )
  ]
]
