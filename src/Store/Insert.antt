-- ===== src/Store/Insert.antt =====
-- src/store.rs: insert changes a trie in one of four ways.
use chrimp.Prelude.{
  ==_iff, Bool, Bool-cases, Option-cases, [], ap, arith, false, inl, inr, length, not, refl, some,
  subst, sym, true, ℕ, ◌&&◌, ◌/◌, ◌<◌, ◌∙◌, ◌∷◌, ◌≡◌, ◌≤◌,
}
use chrimp.Map.{Map, insert, nat_key}
use chrimp.Store.Key.{IsKey, StoreKey, difference, last_word, right}
use chrimp.Store.Order.{Agree, difference-some}
use chrimp.Store.Trie.{
  Root, below, branch, empty, insert_node, is_empty, leaf, page, page_batch, page_bit, page_node,
  prefix_of, refresh, same_key, split, within_page,
}
use chrimp.Store.Shape.{IsEntries, IsTrie, Keys, SamePage, Side}
use chrimp.Store.Pages.{SamePage-refl, within_page-SamePage}
use chrimp.Store.Entries.{last_word-lt, page_key-last}
use chrimp.Store.Reads.{IsTrie-prefix, Keys-Agree, Keys-imp, node_bit}
use chrimp.Store.Differences.{below-none, below-some, below_all, beyond, near, opposite}

module _ {V : Type 0} where
  module _ (k : StoreKey) (v : V) where
    pub data Inserted : Root V → Root V → Type 0 where
      rooted : Inserted empty (leaf k v)
      wrote :
          (p : StoreKey) (es : Map ℕ V)
          → IsKey p
          → SamePage p k
          → IsEntries (last_word p / 8) 0 es
          → Inserted (page_node p es) (page_node p (insert (last_word k) v es))
      placed :
          (s : ℕ) (t : Root V)
          → s < page_bit
          → is_empty t ≡ false
          → IsTrie t
          → Keys (Side s k (not (right k s))) t
          → Inserted t (split s t k v)
      went_left :
          (n : ℕ) (p : StoreKey) (b : ℕ) (l l' r : Root V)
          → IsTrie (branch n p b l r)
          → Side b p false k
          → Inserted l l'
          → Inserted (branch n p b l r) (refresh p b l' r)
      went_right :
          (n : ℕ) (p : StoreKey) (b : ℕ) (l r r' : Root V)
          → IsTrie (branch n p b l r)
          → Side b p true k
          → Inserted r r'
          → Inserted (branch n p b l r) (refresh p b l r')

  -- The keys of a node that differs from a key before its own bit lie on the other side.
  apart :
      (t : Root V) (k : StoreKey) (s : ℕ)
      → is_empty t ≡ false
      → IsTrie t
      → IsKey k
      → difference (prefix_of t) k ≡ some s
      → s < node_bit t
      → Keys (Side s k (not (right k s))) t
  apart t k s n h m e l =
      let (x, y, z) = difference-some (prefix_of t) k s (IsTrie-prefix t n h) m e in
      Keys-imp (Agree (node_bit t) (prefix_of t)) (Side s k (not (right k s))) t
        (λ j a. (
          λ i u. sym (y i u) ∙ a i (omega arith),
          sym (a s l) ∙ opposite (right (prefix_of t) s) (right k s) z,
        ))
        (Keys-Agree t h)

  pub page_node_page : (p : StoreKey) (es : Map ℕ V) → 2 ≤ length es → page_node p es ≡ page p es
  unfolding page_node
  page_node_page p [] h = absurd (omega arith)
  page_node_page p (x ∷ []) h = absurd (omega arith)
  page_node_page p (x ∷ y ∷ es) h = refl

  page_node_leaf : (p : StoreKey) (v : V) → page_node p ((last_word p, v) ∷ []) ≡ leaf p v
  unfolding page_node
  page_node_leaf p v = ap (λ q. leaf q v) (page_key-last p p (SamePage-refl p).0)

  leaf-IsEntries :
      (p : StoreKey) (v : V) → IsKey p → IsEntries (last_word p / 8) 0 ((last_word p, v) ∷ [])
  leaf-IsEntries p v h = (omega arith, refl, last_word-lt p h, tt)

  -- A leaf is written as the page of one entry.
  wrote_leaf :
      (p k : StoreKey) (w v : V) (u : Root V)
      → IsKey p
      → SamePage p k
      → page_node p (insert (last_word k) v ((last_word p, w) ∷ [])) ≡ u
      → Inserted k v (leaf p w) u
  wrote_leaf p k w v u h m e =
      subst (λ x. Inserted k v x u) (page_node_leaf p w)
        (subst (λ x. Inserted k v (page_node p ((last_word p, w) ∷ [])) x) e
          (wrote p ((last_word p, w) ∷ []) h m (leaf-IsEntries p w h)))

  replaced_leaf :
      (p k : StoreKey) (w v : V)
      → p ≡ k
      → page_node p (insert (last_word k) v ((last_word p, w) ∷ [])) ≡ leaf p v
  unfolding insert
  replaced_leaf p k w v e =
      subst (λ x. page_node p (insert (last_word x) v ((last_word p, w) ∷ [])) ≡ leaf p v) e
        (rw ((==_iff (last_word p) (last_word p)).1 refl) (page_node_leaf p v))

  insert_leaf-Inserted :
      (p k : StoreKey) (w v : V)
      → IsKey p
      → IsKey k
      → Inserted k v (leaf p w) (insert_node (leaf p w) k v)
  unfolding insert_node page_batch IsTrie
  insert_leaf-Inserted p k w v h m =
      elim (Bool-cases (not (same_key p k) && within_page (difference p k))) [
        | inl x ↦
            rw (x, insert_node)
              (wrote_leaf p k w v _ h (within_page-SamePage p k h m (and_right _ _ x)) refl)
        | inr x ↦ elim (Option-cases (below 256 (difference p k))) [
          | inl y ↦
              let same : p ≡ k = below_all p k h m y in
              rw (x, y, insert_node)
                (wrote_leaf p k w v (leaf p v) h (subst (SamePage p) same (SamePage-refl p))
                  (replaced_leaf p k w v same))
          | inr (s, y) ↦
              let (d, l) = below-some 256 s _ y in
              rw (x, y, insert_node)
                (placed s (leaf p w) (near p k s h m d x) refl h
                  (apart (leaf p w) k s refl h m d l))
        ]
      ]
    where
      and_right : (a b : Bool) → (a && b) ≡ true → b ≡ true
      and_right true b e = e
      and_right false b e = cc

  insert_page-Inserted :
      (p k : StoreKey) (es : Map ℕ V) (v : V)
      → IsTrie (page p es)
      → IsKey k
      → Inserted k v (page p es) (insert_node (page p es) k v)
  unfolding insert_node page_batch IsTrie
  insert_page-Inserted p k es v h m = elim (Bool-cases (within_page (difference p k))) [
    | inl x ↦
        rw (x, insert_node)
          (subst (λ t. Inserted k v t (page_node p (insert (last_word k) v es)))
            (page_node_page p es h.1) (wrote p es h.0 (within_page-SamePage p k h.0 m x) h.2))
    | inr x ↦ elim (Option-cases (below page_bit (difference p k))) [
      | inl y ↦ absurd (beyond p k x y)
      | inr (s, y) ↦
          let (d, l) = below-some page_bit s _ y in
          rw (x, y, insert_node)
            (placed s (page p es) l refl h (apart (page p es) k s refl h m d l))
    ]
  ]

  pub insert_node-Inserted :
      (t : Root V) (k : StoreKey) (v : V) → IsTrie t → IsKey k → Inserted k v t (insert_node t k v)
  unfolding insert_node IsTrie
  insert_node-Inserted empty k v h m = rooted
  insert_node-Inserted (leaf p w) k v h m = insert_leaf-Inserted p k w v h m
  insert_node-Inserted (page p es) k v h m = insert_page-Inserted p k es v h m
  insert_node-Inserted (branch n p b l r) k v h m = elim (Option-cases (below b (difference p k))) [
    | inr (s, y) ↦
        let (d, u) = below-some b s _ y in
        rw (y, insert_node)
          (placed s (branch n p b l r) (below_bit s b u h.1) refl h
            (apart (branch n p b l r) k s refl h m d u))
    | inl y ↦ elim (Bool-cases (right k b)) [
      | inl x ↦
          rw (y, x, insert_node)
            (went_right n p b l r (insert_node r k v) h (below-none b p k h.0 m y, x)
              (insert_node-Inserted r k v h.5.1 m))
      | inr x ↦
          rw (y, x, insert_node)
            (went_left n p b l (insert_node l k v) r h (below-none b p k h.0 m y, x)
              (insert_node-Inserted l k v h.5.0 m))
    ]
  ]
    where
      below_bit : (s b : ℕ) → s < b → b < page_bit → s < page_bit
      below_bit s b u w = omega arith
