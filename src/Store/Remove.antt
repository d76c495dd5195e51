-- ===== src/Store/Remove.antt =====
-- src/store.rs: remove takes one key of a trie away, and keeps its shape.
use chrimp.Store.Writes.{Written, left_get, lone_left, lone_right, page_get, right_get}
use chrimp.Prelude.{
  Bool, Bool-cases, Option-cases, ap, false, if◌then◌else◌, inl, inr, none, none≢some, refl, some,
  subst, sym, true, true≢false, ℕ, ◌+◌, ◌/◌, ◌∙◌, ◌≡◌,
}
use chrimp.Map.{lookup-remove, nat_key, remove}
use chrimp.Store.Key.{StoreKey, last_word, right}
use chrimp.Store.Trie.{
  Root, branch, empty, get, is_empty, leaf, leaves, page, page_batch, page_node, remove_node,
  same_key, same_prefix, store_remove,
}
use chrimp.Store.Shape.{IsTrie, Keys, Side}
use chrimp.Store.Entries.{remove-AllEntries, remove-IsEntries, same_key_iff}
use chrimp.Store.Reads.{get-branch, page_node-IsTrie, page_node-Keys}
use chrimp.Store.Insert.{page_node_page}

module _ {V : Type 0} where
  empty_lem : (t : Root V) → is_empty t ≡ true → t ≡ empty
  empty_lem empty h = refl
  empty_lem (leaf k v) h = absurd (true≢false (sym h))
  empty_lem (page p es) h = absurd (true≢false (sym h))
  empty_lem (branch n p b l r) h = absurd (true≢false (sym h))

  remove_node-Keys :
      (P : StoreKey → Type 0) (t : Root V) (k : StoreKey) → Keys P t → Keys P (remove_node t k)
  unfolding Keys remove_node page_batch
  remove_node-Keys P empty k h = tt
  remove_node-Keys P (leaf p w) k h = tt
  remove_node-Keys P (page p es) k h =
      page_node-Keys P p (remove (last_word k) es) (remove-AllEntries P p (last_word k) es h)
  remove_node-Keys P (branch n p b l r) k h = elim (Bool-cases (right k b)) [
    | inl x ↦ elim (Bool-cases (is_empty (remove_node r k))) [
      | inl y ↦ rw (x, y, remove_node) h.0
      | inr y ↦ rw (x, y, remove_node) (h.0, remove_node-Keys P r k h.1)
    ]
    | inr x ↦ elim (Bool-cases (is_empty (remove_node l k))) [
      | inl y ↦ rw (x, y, remove_node) h.1
      | inr y ↦ rw (x, y, remove_node) (remove_node-Keys P l k h.0, h.1)
    ]
  ]

  remove_node-IsTrie : (t : Root V) (k : StoreKey) → IsTrie t → IsTrie (remove_node t k)
  unfolding IsTrie remove_node page_batch
  remove_node-IsTrie empty k h = tt
  remove_node-IsTrie (leaf p w) k h = tt
  remove_node-IsTrie (page p es) k h =
      page_node-IsTrie p (remove (last_word k) es) h.0
        (remove-IsEntries (last_word p / 8) 0 (last_word k) es h.2)
  remove_node-IsTrie (branch n p b l r) k h = elim (Bool-cases (right k b)) [
    | inl x ↦ elim (Bool-cases (is_empty (remove_node r k))) [
      | inl y ↦ rw (x, y, remove_node) h.5.0
      | inr y ↦
          rw (x, y, remove_node)
            (
              h.0,
              h.1,
              (h.2.0, y),
              refl,
              (h.4.0, remove_node-Keys (Side b p true) r k h.4.1),
              (h.5.0, remove_node-IsTrie r k h.5.1),
            )
    ]
    | inr x ↦ elim (Bool-cases (is_empty (remove_node l k))) [
      | inl y ↦ rw (x, y, remove_node) h.5.1
      | inr y ↦
          rw (x, y, remove_node)
            (
              h.0,
              h.1,
              (y, h.2.1),
              refl,
              (remove_node-Keys (Side b p false) l k h.4.0, h.4.1),
              (remove_node-IsTrie l k h.5.0, h.5.1),
            )
    ]
  ]

  -- A removal from a branch's child, the child dropped or not.
  dropped_right :
      (n : ℕ) (p : StoreKey) (b : ℕ) (l r u : Root V) (k j : StoreKey)
      → Keys (Side b p false) l
      → right k b ≡ true
      → is_empty u ≡ true
      → Written k none r u j
      → Written k none (branch n p b l r) l j
  dropped_right n p b l r u k j h x y w =
      sym (lone_left n p b l j h)
      ∙ right_get n n p p b l r empty k none j x
          (subst (λ t. Written k none r t j) (empty_lem u y) w)

  dropped_left :
      (n : ℕ) (p : StoreKey) (b : ℕ) (l r u : Root V) (k j : StoreKey)
      → Keys (Side b p true) r
      → right k b ≡ false
      → is_empty u ≡ true
      → Written k none l u j
      → Written k none (branch n p b l r) r j
  dropped_left n p b l r u k j h x y w =
      sym (lone_right n p b r j h)
      ∙ left_get n n p p b l empty r k none j x
          (subst (λ t. Written k none l t j) (empty_lem u y) w)

  remove_node-get :
      (t : Root V) (k : StoreKey) (v : V) (j : StoreKey)
      → IsTrie t
      → get t k ≡ some v
      → Written k none t (remove_node t k) j
  unfolding get remove_node page_batch IsTrie
  remove_node-get empty k v j h e = cc
  remove_node-get (leaf p w) k v j h e = elim (Bool-cases (same_key p k)) [
    | inl x ↦
        subst (λ q. none ≡ (if same_key k j then none else (if same_key q j then some w else none)))
          (sym ((same_key_iff p k).0 x)) (twice (same_key k j))
    | inr x ↦ absurd (none≢some v (rw x at e))
  ]
    where
      twice : (a : Bool) → none ≡ (if a then none else (if a then some w else none))
      twice true = refl
      twice false = refl
  remove_node-get (page p es) k v j h e = elim (Bool-cases (same_prefix p k)) [
    | inl x ↦
        subst (λ t. Written k none t (page_node p (remove (last_word k) es)) j)
          (page_node_page p es h.1)
          (page_get p k none es (remove (last_word k) es) j x
            (lookup-remove (last_word j) (last_word k) es))
    | inr x ↦ absurd (none≢some v (rw x at e))
  ]
  remove_node-get (branch n p b l r) k v j h e = elim (Bool-cases (right k b)) [
    | inl x ↦
        let i : Written k none r (remove_node r k) j =
          remove_node-get r k v j h.5.1 (sym (get-branch n p b l r k ∙ rw x refl) ∙ e) in
        elim (Bool-cases (is_empty (remove_node r k))) [
          | inl y ↦
              rw (x, y, remove_node) (dropped_right n p b l r (remove_node r k) k j h.4.0 x y i)
          | inr y ↦
              rw (x, y, remove_node)
                (right_get n (leaves l + leaves (remove_node r k)) p p b l r (remove_node r k) k
                  none j x i)
        ]
    | inr x ↦
        let i : Written k none l (remove_node l k) j =
          remove_node-get l k v j h.5.0 (sym (get-branch n p b l r k ∙ rw x refl) ∙ e) in
        elim (Bool-cases (is_empty (remove_node l k))) [
          | inl y ↦
              rw (x, y, remove_node) (dropped_left n p b l r (remove_node l k) k j h.4.1 x y i)
          | inr y ↦
              rw (x, y, remove_node)
                (left_get n (leaves (remove_node l k) + leaves r) p p b l (remove_node l k) r k none
                  j x i)
        ]
  ]

  -- After a removal of `k` a read of `k` finds nothing, and a read of any other key gives what it
  -- gave before, for a trie of the store's shape; `k` need not be there.
  pub get-store_remove :
      (t : Root V) (k j : StoreKey)
      → IsTrie t
      → get (store_remove t k) j ≡ (if same_key k j then none else get t j)
  unfolding store_remove
  get-store_remove t k j h = elim (Option-cases (get t k)) [
    | inl x ↦
        rw (x, store_remove)
          (elim (Bool-cases (same_key k j)) [
            | inl y ↦ rw y (ap (get t) (sym ((same_key_iff k j).0 y)) ∙ x)
            | inr y ↦ rw y refl
          ])
    | inr (v, x) ↦ rw (x, store_remove) (remove_node-get t k v j h x)
  ]

  -- A removal keeps the shape of a trie: no branch is left with an empty child, no page with fewer
  -- than two entries, and the cached numbers of leaves are right.
  pub store_remove-IsTrie : (t : Root V) (k : StoreKey) → IsTrie t → IsTrie (store_remove t k)
  unfolding store_remove
  store_remove-IsTrie t k h = elim (Option-cases (get t k)) [
    | inl x ↦ rw (x, store_remove) h
    | inr (v, x) ↦ rw (x, store_remove) (remove_node-IsTrie t k h)
  ]

  -- A removal adds no key.
  pub store_remove-Keys :
      (P : StoreKey → Type 0) (t : Root V) (k : StoreKey) → Keys P t → Keys P (store_remove t k)
  unfolding store_remove
  store_remove-Keys P t k h = elim (Option-cases (get t k)) [
    | inl x ↦ rw (x, store_remove) h
    | inr (v, x) ↦ rw (x, store_remove) (remove_node-Keys P t k h)
  ]
