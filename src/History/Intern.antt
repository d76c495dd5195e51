-- ===== src/History/Intern.antt =====
-- src/history.rs: the identity that a new key is given.
use chrimp.Store.Reads.{Keys-imp, get-absent}
use chrimp.Condition.Arena.{checked_add_one}
use chrimp.History.{
  History, HistoryKey, HistoryRecord, condition_value, history_key, id_key, or_false,
  same_history_key, same_history_key_iff, support,
}
use chrimp.Prelude.{
  ==_iff, Bool-cases, Option-cases, ap, arith, false, if◌then◌else◌, inl, inr, none, none≢some,
  refl, some, some-injective, sym, ℕ, ◌+◌, ◌<◌, ◌==◌, ◌^◌, ◌∙◌, ◌≡◌,
}
use chrimp.Map.{insert, lookup, lookup-insert, nat_key}
use chrimp.Condition.Handle.{Condition, condition_key, pair_key}
use chrimp.Store.Key.{StoreKey, key}
use chrimp.Store.Trie.{Root}
use chrimp.History.Laws.{
  IsHistory, IsRecorded, IsRoot, same_history_key_refl, support-none, support-some,
}

pub checked_some : (n m : ℕ) → checked_add_one n ≡ some m → (m ≡ n + 1) × (m < 2 ^ 64)
unfolding checked_add_one
checked_some n m h = (ground arith, ground arith)

-- What interning changes: the key has the identity, and reads of older roots stay as they are.
abbrev pub Interned : History → HistoryKey → History → Type 0
Interned h k g =
    IsHistory g
    × (lookup k (g.ids) ≡ some (h.next_id))
    × IsRecorded g (id_key (h.next_id))
    × ((t : Root Condition) → IsRoot h t → IsRoot g t)
    × ((t : Root Condition) (j : HistoryKey) → IsRoot h t → support g t j ≡ support h t j)

abbrev pub with_key : History → HistoryKey → ℕ → History
with_key h k next = record {
  ids = insert k (h.next_id) (h.ids);
  records = insert (h.next_id) record { owner_key = k; marked = 0 } (h.records);
  next_id = next;
  epoch = h.epoch;
  frozen = h.frozen;
}

with_key_ids :
    (h : History) (k : HistoryKey) (next : ℕ) (j : HistoryKey)
    → lookup j (insert k (h.next_id) (h.ids))
      ≡ (if same_history_key k j then some (h.next_id) else lookup j (h.ids))
with_key_ids h k next j = lookup-insert j k (h.next_id) (h.ids)

-- An identity below the next one keeps its record.
with_key_records :
    (h : History) (k : HistoryKey) (next id : ℕ) (r : HistoryRecord)
    → IsHistory h
    → lookup id (h.records) ≡ some r
    → lookup id (insert (h.next_id) record { owner_key = k; marked = 0 } (h.records)) ≡ some r
unfolding IsHistory
with_key_records h k next id r (a, b, c) e =
    lookup-insert id (h.next_id) record { owner_key = k; marked = 0 } (h.records)
    ∙ rw (other (h.next_id) id ((b id r e).0)) e
  where
    other : (n i : ℕ) → i < n → (n == i) ≡ false
    other n i l = ground arith

with_key-IsHistory :
    (h : History) (k : HistoryKey) (next : ℕ)
    → IsHistory h
    → lookup k (h.ids) ≡ none
    → (next ≡ h.next_id + 1) × (next < 2 ^ 64)
    → IsHistory (with_key h k next)
unfolding IsHistory
with_key-IsHistory h k next (a, b, c) new n = (known, below, n.1)
  where
    known :
        (j : HistoryKey) (id : ℕ)
        → lookup j (insert k (h.next_id) (h.ids)) ≡ some id
        → (r : HistoryRecord) × (lookup id
              (insert (h.next_id) record { owner_key = k; marked = 0 } (h.records))
            ≡ some r)
          × (r.owner_key ≡ j)
    known j id e = elim (Bool-cases (same_history_key k j)) [
      | inl x ↦
          let f : some (h.next_id) ≡ some id = sym (with_key_ids h k next j ∙ rw x refl) ∙ e in
          (
            record { owner_key = k; marked = 0 },
            lookup-insert id (h.next_id) record { owner_key = k; marked = 0 } (h.records)
                ∙ rw ((==_iff (h.next_id) id).1 (some-injective _ _ f)) refl,
            (same_history_key_iff k j).0 x,
          )
      | inr x ↦
          let (r, f, g) = a j id (sym (with_key_ids h k next j ∙ rw x refl) ∙ e) in
          (r, with_key_records h k next id r (a, b, c) f, g)
    ]

    older :
        (j : HistoryKey) (id : ℕ)
        → lookup j (h.ids) ≡ some id
        → (if same_history_key k j then some (h.next_id) else lookup j (h.ids)) ≡ some id
    older j id g = elim (Bool-cases (same_history_key k j)) [
      | inl x ↦ absurd (
          none≢some id
            (sym (ap (λ q. lookup q (h.ids)) (sym ((same_history_key_iff k j).0 x)) ∙ new) ∙ g))
      | inr x ↦ rw x g
    ]

    below :
        (id : ℕ) (r : HistoryRecord)
        → lookup id (insert (h.next_id) record { owner_key = k; marked = 0 } (h.records)) ≡ some r
        → (id < next) × (lookup (r.owner_key) (insert k (h.next_id) (h.ids)) ≡ some id)
    below id r e = elim (Bool-cases (h.next_id == id)) [
      | inl x ↦
          let f : some record { owner_key = k; marked = 0 } ≡ some r =
            sym (
              lookup-insert id (h.next_id) record { owner_key = k; marked = 0 } (h.records)
              ∙ rw x refl)
            ∙ e in
          let g : h.next_id ≡ id = (==_iff (h.next_id) id).0 x in
          (
            omega (arith, n.0),
            ap (λ q. lookup (q.owner_key) (insert k (h.next_id) (h.ids)))
                  (sym (some-injective _ _ f))
                ∙ with_key_ids h k next k
                ∙ rw (same_history_key_refl k) (ap some g),
          )
      | inr x ↦
          let f : lookup id (h.records) ≡ some r =
            sym (
              lookup-insert id (h.next_id) record { owner_key = k; marked = 0 } (h.records)
              ∙ rw x refl)
            ∙ e in
          let (l, g) = b id r f in
          (omega (arith, n.0), with_key_ids h k next (r.owner_key) ∙ older (r.owner_key) id g)
    ]

with_key-IsRoot :
    (h : History) (k : HistoryKey) (next : ℕ) (t : Root Condition)
    → IsHistory h
    → IsRoot h t
    → IsRoot (with_key h k next) t
unfolding IsRoot IsRecorded
with_key-IsRoot h k next t a (b, c) =
    (b, Keys-imp (IsRecorded h) (IsRecorded (with_key h k next)) t recorded c)
  where
    recorded : (q : StoreKey) → IsRecorded h q → IsRecorded (with_key h k next) q
    recorded (key id x y z) (zeros, (r, e)) = (zeros, (r, with_key_records h k next id r a e))

-- The new identity is under no older root.
with_key-support :
    (h : History) (k : HistoryKey) (next : ℕ) (t : Root Condition) (j : HistoryKey)
    → IsHistory h
    → lookup k (h.ids) ≡ none
    → IsRoot h t
    → support (with_key h k next) t j ≡ support h t j
unfolding IsRoot IsRecorded IsHistory
with_key-support h k next t j (a, b, c) e (d, f) = elim (Bool-cases (same_history_key k j)) [
  | inl x ↦
      support-some (with_key h k next) t j (h.next_id) (with_key_ids h k next j ∙ rw x refl)
      ∙ ap or_false (get-absent (IsRecorded h) t (id_key (h.next_id)) f absent)
      ∙ sym (
          support-none h t j
            (ap (λ q. lookup q (h.ids)) (sym ((same_history_key_iff k j).0 x)) ∙ e))
  | inr x ↦ elim (Option-cases (lookup j (h.ids))) [
    | inl g ↦
        support-none (with_key h k next) t j (with_key_ids h k next j ∙ rw x g)
        ∙ sym (support-none h t j g)
    | inr (i, g) ↦
        support-some (with_key h k next) t j i (with_key_ids h k next j ∙ rw x g)
        ∙ sym (support-some h t j i g)
  ]
]
  where
    absent : IsRecorded h (id_key (h.next_id)) → ⊥
    absent (zeros, (r, g)) = let l : h.next_id < h.next_id = (b (h.next_id) r g).0 in omega arith

pub with_key-Interned :
    (h : History) (k : HistoryKey) (next : ℕ)
    → IsHistory h
    → lookup k (h.ids) ≡ none
    → (next ≡ h.next_id + 1) × (next < 2 ^ 64)
    → Interned h k (with_key h k next)
unfolding IsRecorded
with_key-Interned h k next a e n = (
  with_key-IsHistory h k next a e n,
  with_key_ids h k next k ∙ rw (same_history_key_refl k) refl,
  (
    (refl, refl, refl),
    (
      record { owner_key = k; marked = 0 },
      lookup-insert (h.next_id) (h.next_id) record { owner_key = k; marked = 0 } (h.records)
          ∙ rw ((==_iff (h.next_id) (h.next_id)).1 refl) refl,
    ),
  ),
  (λ t r. with_key-IsRoot h k next t a r),
  (λ t j r. with_key-support h k next t j a e r),
)
