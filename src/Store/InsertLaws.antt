-- ===== src/Store/InsertLaws.antt =====
-- src/store.rs: what insert does to the keys, the shape and the reads of a trie.
use chrimp.Prelude.{
  Bool-cases, [], ap, arith, false, inl, inr, leb, length, not, refl, subst, sym, true, ℕ, ◌/◌, ◌<◌,
  ◌==◌, ◌∙◌, ◌∷◌, ◌≡◌,
}
use chrimp.Map.{Map, insert, nat_key}
use chrimp.Store.Key.{IsKey, StoreKey, last_word, right}
use chrimp.Store.Trie.{Root, allocate_branch, is_empty, leaf, page_bit, page_node, refresh, split}
use chrimp.Store.Shape.{AllEntries, IsTrie, Keys, Side}
use chrimp.Store.Entries.{insert-AllEntries, insert-IsEntries, last_word-lt, page_key-last}
use chrimp.Store.Reads.{is_empty-page_node, page_node-IsTrie, page_node-Keys}
use chrimp.Store.Insert.{Inserted, rooted, placed, went_left, went_right, wrote}

module _ {V : Type 0} where
  page_node-AllEntries :
      (P : StoreKey → Type 0) (p : StoreKey) (es : Map ℕ V)
      → Keys P (page_node p es)
      → AllEntries P p es
  unfolding Keys page_node
  page_node-AllEntries P p [] h = tt
  page_node-AllEntries P p ((t, v) ∷ []) h = (h, tt)
  page_node-AllEntries P p (x ∷ y ∷ es) h = h

  allocate_branch_lem :
      (p : StoreKey) (s : ℕ) (l r : Root V)
      → s < page_bit
      → allocate_branch p s l r ≡ refresh p s l r
  unfolding allocate_branch
  allocate_branch_lem p s l r h = elim (Bool-cases (leb page_bit s)) [
    | inl x ↦ absurd (clash s h x)
    | inr x ↦ rw x refl
  ]
    where
      clash : (s : ℕ) → s < page_bit → leb page_bit s ≡ true → ⊥
      clash s h x = ground arith

  pub split_right :
      (s : ℕ) (t : Root V) (k : StoreKey) (v : V)
      → s < page_bit
      → right k s ≡ true
      → split s t k v ≡ refresh k s t (leaf k v)
  unfolding split
  split_right s t k v h x = rw x (allocate_branch_lem k s t (leaf k v) h)

  pub split_left :
      (s : ℕ) (t : Root V) (k : StoreKey) (v : V)
      → s < page_bit
      → right k s ≡ false
      → split s t k v ≡ refresh k s (leaf k v) t
  unfolding split
  split_left s t k v h x = rw x (allocate_branch_lem k s (leaf k v) t h)

  pub Inserted-Keys :
      (P : StoreKey → Type 0) (k : StoreKey) (v : V) (t u : Root V)
      → P k
      → Inserted k v t u
      → Keys P t
      → Keys P u
  unfolding Keys
  Inserted-Keys P k v t u a rooted h = a
  Inserted-Keys P k v t u a (wrote p es q m e) h = page_node-Keys P p (insert (last_word k) v es) (
      insert-AllEntries P p (last_word k) v es (subst P (sym (page_key-last p k m.0)) a)
        (page_node-AllEntries P p es h))
  Inserted-Keys P k v t u a (placed s w l n q x) h = elim (Bool-cases (right k s)) [
    | inl y ↦ subst (Keys P) (sym (split_right s t k v l y)) (h, a)
    | inr y ↦ subst (Keys P) (sym (split_left s t k v l y)) (a, h)
  ]
  Inserted-Keys P k v t u a (went_left n p b l l' r q s i) h =
      (Inserted-Keys P k v l l' a i h.0, h.1)
  Inserted-Keys P k v t u a (went_right n p b l r r' q s i) h =
      (h.0, Inserted-Keys P k v r r' a i h.1)

  insert_some : (i : ℕ) (v : V) (es : Map ℕ V) → (length (insert i v es) == 0) ≡ false
  unfolding insert
  insert_some i v [] = refl
  insert_some i v ((j, w) ∷ es) = ground arith

  Inserted-nonempty : (k : StoreKey) (v : V) (t u : Root V) → Inserted k v t u → is_empty u ≡ false
  Inserted-nonempty k v t u rooted = refl
  Inserted-nonempty k v t u (wrote p es q m e) =
      is_empty-page_node p (insert (last_word k) v es) ∙ insert_some (last_word k) v es
  Inserted-nonempty k v t u (placed s w l n q x) = elim (Bool-cases (right k s)) [
    | inl y ↦ ap is_empty (split_right s t k v l y)
    | inr y ↦ ap is_empty (split_left s t k v l y)
  ]
  Inserted-nonempty k v t u (went_left n p b l l' r q s i) = refl
  Inserted-nonempty k v t u (went_right n p b l r r' q s i) = refl

  pub Inserted-IsTrie :
      (k : StoreKey) (v : V) (t u : Root V) → IsKey k → Inserted k v t u → IsTrie u
  unfolding IsTrie Keys
  Inserted-IsTrie k v t u a rooted = a
  Inserted-IsTrie k v t u a (wrote p es q m e) = page_node-IsTrie p (insert (last_word k) v es) q (
      insert-IsEntries (last_word p / 8) 0 (last_word k) v es (omega arith) (sym m.1)
        (last_word-lt k a) e)
  Inserted-IsTrie k v t u a (placed s w l n q x) = elim (Bool-cases (right k s)) [
    | inl y ↦ subst IsTrie (sym (split_right s t k v l y)) (
      a,
      l,
      (n, refl),
      refl,
      (subst (λ o. Keys (Side s k o) t) (ap not y) x, ((λ i m. refl), y)),
      (q, a),
    )
    | inr y ↦ subst IsTrie (sym (split_left s t k v l y)) (
      a,
      l,
      (refl, n),
      refl,
      (((λ i m. refl), y), subst (λ o. Keys (Side s k o) t) (ap not y) x),
      (a, q),
    )
  ]
  Inserted-IsTrie k v t u a (went_left n p b l l' r q s i) = (
    q.0,
    q.1,
    (Inserted-nonempty k v l l' i, q.2.1),
    refl,
    (Inserted-Keys (Side b p false) k v l l' s i q.4.0, q.4.1),
    (Inserted-IsTrie k v l l' a i, q.5.1),
  )
  Inserted-IsTrie k v t u a (went_right n p b l r r' q s i) = (
    q.0,
    q.1,
    (q.2.0, Inserted-nonempty k v r r' i),
    refl,
    (q.4.0, Inserted-Keys (Side b p true) k v r r' s i q.4.1),
    (q.5.0, Inserted-IsTrie k v r r' a i),
  )
