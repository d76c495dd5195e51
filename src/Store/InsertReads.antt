-- ===== src/Store/InsertReads.antt =====
-- src/store.rs: a key that was inserted is found, and all others are found as before.
use chrimp.Store.Writes.{Written, left_get, lone_left, lone_right, page_get, right_get}
use chrimp.Prelude.{
  Bool-cases, Option, ap, if◌then◌else◌, inl, inr, none, not, refl, some, subst, sym, true,
  true≢false, ℕ, ◌<◌, ◌∙◌, ◌≡◌,
}
use chrimp.Map.{insert, lookup-insert, nat_key}
use chrimp.Store.Key.{IsKey, StoreKey, last_word, right}
use chrimp.Store.Trie.{
  Root, Value, empty, get, insert_node, leaf, page_bit, same_key, same_value, split, store_insert,
}
use chrimp.Store.Shape.{IsTrie, Keys, Side}
use chrimp.Store.Entries.{same_key_iff}
use chrimp.Store.Insert.{
  Inserted, insert_node-Inserted, placed, rooted, went_left, went_right, wrote,
}
use chrimp.Store.InsertLaws.{Inserted-IsTrie, Inserted-Keys, split_left, split_right}

same_key_refl : (k : StoreKey) → same_key k k ≡ true
same_key_refl k = (same_key_iff k k).1 refl

module _ {V : Type 0} where
  fresh_get : (k : StoreKey) (v : V) (j : StoreKey) → Written k (some v) empty (leaf k v) j
  unfolding get
  fresh_get k v j = refl

  placed_get :
      (s : ℕ) (t : Root V) (k : StoreKey) (v : V) (j : StoreKey)
      → s < page_bit
      → Keys (Side s k (not (right k s))) t
      → Written k (some v) t (split s t k v) j
  placed_get s t k v j l h = elim (Bool-cases (right k s)) [
    | inl y ↦
        ap (λ u. get u j) (split_right s t k v l y)
        ∙ right_get 0 _ k k s t empty (leaf k v) k (some v) j y (fresh_get k v j)
        ∙ ap (λ o. if same_key k j then some v else o)
            (lone_left 0 k s t j (subst (λ o. Keys (Side s k o) t) (ap not y) h))
    | inr y ↦
        ap (λ u. get u j) (split_left s t k v l y)
        ∙ left_get 0 _ k k s empty (leaf k v) t k (some v) j y (fresh_get k v j)
        ∙ ap (λ o. if same_key k j then some v else o)
            (lone_right 0 k s t j (subst (λ o. Keys (Side s k o) t) (ap not y) h))
  ]

  Inserted-get :
      (k : StoreKey) (v : V) (t u : Root V) (j : StoreKey)
      → Inserted k v t u
      → Written k (some v) t u j
  Inserted-get k v t u j rooted = fresh_get k v j
  Inserted-get k v t u j (wrote p es q m e) =
      page_get p k (some v) es (insert (last_word k) v es) j m.0
        (lookup-insert (last_word j) (last_word k) v es)
  Inserted-get k v t u j (placed s w l n q x) = placed_get s t k v j l x
  Inserted-get k v t u j (went_left n p b l l' r q s i) =
      left_get n _ p p b l l' r k (some v) j s.1 (Inserted-get k v l l' j i)
  Inserted-get k v t u j (went_right n p b l r r' q s i) =
      right_get n _ p p b l r r' k (some v) j s.1 (Inserted-get k v r r' j i)

  module _ ⦃e : Value V⦄ where
    same_value-some : (o : Option V) (v : V) → same_value o (some v) ≡ true → o ≡ some v
    same_value-some none v h = absurd (true≢false (sym h))
    same_value-some (some w) v h = ap some ((e.same_iff w v).0 h)

    -- After an insert of `v` at `k` a read of `k` gives `v`, and a read of any other key gives what
    -- it gave before, for a trie of the store's shape and a key of 64-bit words.
    pub get-store_insert :
        (t : Root V) (k : StoreKey) (v : V) (j : StoreKey)
        → IsTrie t
        → IsKey k
        → get (store_insert t k v) j ≡ (if same_key k j then some v else get t j)
    unfolding store_insert
    get-store_insert t k v j h m = elim (Bool-cases (same_value (get t k) (some v))) [
      | inl x ↦ rw x (unchanged (same_value-some (get t k) v x))
      | inr x ↦ rw x (Inserted-get k v t (insert_node t k v) j (insert_node-Inserted t k v h m))
    ]
      where
        unchanged : get t k ≡ some v → get t j ≡ (if same_key k j then some v else get t j)
        unchanged f = elim (Bool-cases (same_key k j)) [
          | inl y ↦ rw y (ap (get t) (sym ((same_key_iff k j).0 y)) ∙ f)
          | inr y ↦ rw y refl
        ]

    -- An insert of a key of 64-bit words keeps the shape of a trie: branches test bits before those
    -- of a page, have two children that are not empty, and cache the number of their leaves, and
    -- pages hold two entries or more, in order, of one interval of eight keys.
    pub store_insert-IsTrie :
        (t : Root V) (k : StoreKey) (v : V) → IsTrie t → IsKey k → IsTrie (store_insert t k v)
    unfolding store_insert
    store_insert-IsTrie t k v h m = elim (Bool-cases (same_value (get t k) (some v))) [
      | inl x ↦ rw x h
      | inr x ↦ rw x (Inserted-IsTrie k v t (insert_node t k v) m (insert_node-Inserted t k v h m))
    ]

    -- An insert adds no key but its own.
    pub store_insert-Keys :
        (P : StoreKey → Type 0) (t : Root V) (k : StoreKey) (v : V)
        → IsTrie t
        → IsKey k
        → P k
        → Keys P t
        → Keys P (store_insert t k v)
    unfolding store_insert
    store_insert-Keys P t k v h m a b = elim (Bool-cases (same_value (get t k) (some v))) [
      | inl x ↦ rw x b
      | inr x ↦
          rw x (Inserted-Keys P k v t (insert_node t k v) a (insert_node-Inserted t k v h m) b)
    ]
