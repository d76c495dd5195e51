-- ===== src/History/Laws.antt =====
-- src/history.rs: what set_support does to the supports of all keys under all roots.
use chrimp.History.{
  History, HistoryKey, HistoryRecord, condition_value, history_key, id_key, or_false,
  same_history_key, same_history_key_iff, support, write_support,
}
use chrimp.Store.InsertReads.{get-store_insert, store_insert-IsTrie, store_insert-Keys}
use chrimp.Store.Remove.{get-store_remove, store_remove-IsTrie, store_remove-Keys}
use chrimp.Store.Shape.{IsTrie, Keys}
use chrimp.Prelude.{
  ==_iff, Bool, Bool-cases, Option, Option-cases, ap, arith, false, if◌then◌else◌, inl, inr, none,
  refl, some, some-injective, sym, true, true≢false, ℕ, ◌<◌, ◌==◌, ◌^◌, ◌∙◌, ◌≡◌,
}
use chrimp.Map.{lookup, nat_key}
use chrimp.Condition.Handle.{Condition, condition_key, false_condition, pair_key, same, same_iff}
use chrimp.Store.Key.{IsKey, StoreKey, key}
use chrimp.Store.Trie.{Root, get, same_key}

-- A known key's identity has a record of the key, and the key of a record has the record's identity,
-- which is less than the next one.
unfoldable pub IsHistory : History → Type 0
IsHistory h =
    ((k : HistoryKey) (id : ℕ)
      → lookup k (h.ids) ≡ some id
      → (r : HistoryRecord) × (lookup id (h.records) ≡ some r) × (r.owner_key ≡ k))
    × ((id : ℕ) (r : HistoryRecord)
        → lookup id (h.records) ≡ some r
        → (id < h.next_id) × (lookup (r.owner_key) (h.ids) ≡ some id))
    × (h.next_id < 2 ^ 64)

-- A key of the index that is an identity with a record.
unfoldable pub IsRecorded : History → StoreKey → Type 0
IsRecorded h (key id b c d) =
    ((b ≡ 0) × (c ≡ 0) × (d ≡ 0)) × ((r : HistoryRecord) × (lookup id (h.records) ≡ some r))

unfoldable pub IsRoot : History → Root Condition → Type 0
unfolding IsRecorded
IsRoot h t = IsTrie t × Keys (IsRecorded h) t

id_key-IsKey : (id : ℕ) → id < 2 ^ 64 → IsKey (id_key id)
id_key-IsKey id h = (h, (omega arith, (omega arith, (omega arith, tt))))

same_key-id_key : (i j : ℕ) → same_key (id_key i) (id_key j) ≡ (i == j)
same_key-id_key i j = ground arith

pub same_history_key_refl : (k : HistoryKey) → same_history_key k k ≡ true
same_history_key_refl k = (same_history_key_iff k k).1 refl

pub write_support-IsRoot :
    (h : History) (t : Root Condition) (id : ℕ) (c : Condition)
    → id < 2 ^ 64
    → IsRecorded h (id_key id)
    → IsRoot h t
    → IsRoot h (write_support t id c)
unfolding write_support IsRoot
write_support-IsRoot h t id c l r (a, b) = elim (Bool-cases (same c false_condition)) [
  | inl x ↦
      rw x (store_remove-IsTrie t (id_key id) a, store_remove-Keys (IsRecorded h) t (id_key id) b)
  | inr x ↦ rw x (
    store_insert-IsTrie t (id_key id) c a (id_key-IsKey id l),
    store_insert-Keys (IsRecorded h) t (id_key id) c a (id_key-IsKey id l) r b,
  )
]

-- The support under an identity after a write under another, or the same.
get-write_support :
    (t : Root Condition) (id j : ℕ) (c : Condition)
    → id < 2 ^ 64
    → IsTrie t
    → or_false (get (write_support t id c) (id_key j))
      ≡ (if id == j then c else or_false (get t (id_key j)))
unfolding write_support
get-write_support t id j c l a = elim (Bool-cases (same c false_condition)) [
  | inl x ↦ rw x (
      ap or_false (get-store_remove t (id_key id) (id_key j) a)
      ∙ ap (λ b. or_false (if b then none else get t (id_key j))) (same_key-id_key id j)
      ∙ removed (id == j) (get t (id_key j)) (sym ((same_iff c false_condition).0 x)))
  | inr x ↦ rw x (
      ap or_false (get-store_insert t (id_key id) c (id_key j) a (id_key-IsKey id l))
      ∙ ap (λ b. or_false (if b then some c else get t (id_key j))) (same_key-id_key id j)
      ∙ inserted (id == j) (get t (id_key j)))
]
  where
    removed :
        (b : Bool) (o : Option Condition)
        → false_condition ≡ c
        → or_false (if b then none else o) ≡ (if b then c else or_false o)
    removed true o e = e
    removed false o e = refl

    inserted :
        (b : Bool) (o : Option Condition)
        → or_false (if b then some c else o) ≡ (if b then c else or_false o)
    inserted true o = refl
    inserted false o = refl

pub support-none :
    (h : History) (t : Root Condition) (k : HistoryKey)
    → lookup k (h.ids) ≡ none
    → support h t k ≡ false_condition
unfolding support
support-none h t k e = rw (e, support) refl

pub support-some :
    (h : History) (t : Root Condition) (k : HistoryKey) (id : ℕ)
    → lookup k (h.ids) ≡ some id
    → support h t k ≡ or_false (get t (id_key id))
unfolding support
support-some h t k id e = rw (e, support) refl

-- Different known keys have different identities.
distinct :
    (h : History) (j k : HistoryKey) (i id : ℕ)
    → IsHistory h
    → lookup j (h.ids) ≡ some i
    → lookup k (h.ids) ≡ some id
    → i ≡ id
    → j ≡ k
unfolding IsHistory
distinct h j k i id (a, b, c) e f g =
    let (r, x, y) = a j i e in
    let (s, z, w) = a k id f in
    sym y
    ∙ ap (λ q. q.owner_key) (some-injective _ _ (sym x ∙ ap (λ n. lookup n (h.records)) g ∙ z))
    ∙ w

-- A write under the identity of a known key.
pub written :
    (h : History) (t : Root Condition) (k : HistoryKey) (id : ℕ) (c : Condition) (j : HistoryKey)
    → IsHistory h
    → IsTrie t
    → id < 2 ^ 64
    → lookup k (h.ids) ≡ some id
    → support h (write_support t id c) j ≡ (if same_history_key k j then c else support h t j)
written h t k id c j a b l e = elim (Bool-cases (same_history_key k j)) [
  | inl x ↦
      let f : lookup j (h.ids) ≡ some id =
        ap (λ q. lookup q (h.ids)) (sym ((same_history_key_iff k j).0 x)) ∙ e in
      support-some h (write_support t id c) j id f
      ∙ get-write_support t id id c l b
      ∙ rw ((==_iff id id).1 refl, x) refl
  | inr x ↦ elim (Option-cases (lookup j (h.ids))) [
    | inl f ↦ support-none h (write_support t id c) j f ∙ sym (support-none h t j f) ∙ rw x refl
    | inr (i, f) ↦ elim (Bool-cases (id == i)) [
      | inl y ↦ absurd (
          true≢false (
            sym ((same_history_key_iff k j).1 (distinct h k j id i a e f ((==_iff id i).0 y))) ∙ x))
      | inr y ↦
          support-some h (write_support t id c) j i f
          ∙ get-write_support t id i c l b
          ∙ rw (y, x) (sym (support-some h t j i f))
    ]
  ]
]
