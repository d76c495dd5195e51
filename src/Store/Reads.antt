-- ===== src/Store/Reads.antt =====
-- src/store.rs: what get reads of pages and branches.
use chrimp.Prelude.{
  Bool, Bool-cases, Option, Option-cases, [], arith, false, if◌then◌else◌, inl, inr, length, none,
  none≢some, refl, some, subst, sym, true, true≢false, ℕ, ◌&&◌, ◌/◌, ◌==◌, ◌∙◌, ◌∷◌, ◌≡◌,
}
use chrimp.Map.{Map, lookup, nat_key}
use chrimp.Store.Key.{IsKey, StoreKey, last_word, page_key, right}
use chrimp.Store.Order.{Agree}
use chrimp.Store.Trie.{
  Root, branch, empty, get, is_empty, leaf, leaves, page, page_bit, page_node, prefix_of, same_key,
  same_prefix,
}
use chrimp.Store.Shape.{AllEntries, IsEntries, IsTrie, Keys, Side}
use chrimp.Store.Pages.{SamePage-Agree}
use chrimp.Store.Entries.{
  IsEntries-AllEntries, lookup-AllEntries, page_key-IsKey, page_key-SamePage, page_key-last,
  same_key-page_key, same_key_iff,
}

module _ {V : Type 0} where
  pub get-branch :
      (n : ℕ) (p : StoreKey) (b : ℕ) (l r : Root V) (k : StoreKey)
      → get (branch n p b l r) k ≡ (if right k b then get r k else get l k)
  unfolding get
  get-branch n p b l r k = elim (Bool-cases (right k b)) [
    | inl x ↦ rw (x, get) refl
    | inr x ↦ rw (x, get) refl
  ]

  -- A key that is found has the property of all keys.
  pub get-Keys :
      (P : StoreKey → Type 0) (t : Root V) (k : StoreKey) (v : V)
      → Keys P t
      → get t k ≡ some v
      → P k
  unfolding get Keys
  get-Keys P empty k v h e = cc
  get-Keys P (leaf j w) k v h e = elim (Bool-cases (same_key j k)) [
    | inl x ↦ subst P ((same_key_iff j k).0 x) h
    | inr x ↦ absurd (none≢some v (rw x at e))
  ]
  get-Keys P (page p es) k v h e = elim (Bool-cases (same_prefix p k)) [
    | inl x ↦ subst P (page_key-last p k x) (lookup-AllEntries P p (last_word k) v es h (rw x at e))
    | inr x ↦ absurd (none≢some v (rw x at e))
  ]
  get-Keys P (branch n p b l r) k v h e = elim (Bool-cases (right k b)) [
    | inl x ↦ get-Keys P r k v h.1 (sym (get-branch n p b l r k ∙ rw x refl) ∙ e)
    | inr x ↦ get-Keys P l k v h.0 (sym (get-branch n p b l r k ∙ rw x refl) ∙ e)
  ]

  -- A key without the property is not found.
  pub get-absent :
      (P : StoreKey → Type 0) (t : Root V) (k : StoreKey) → Keys P t → (P k → ⊥) → get t k ≡ none
  get-absent P t k h n = elim (Option-cases (get t k)) [
    | inl e ↦ e
    | inr (v, e) ↦ absurd (n (get-Keys P t k v h e))
  ]

  pub AllEntries-imp :
      (P Q : StoreKey → Type 0) (p : StoreKey) (es : Map ℕ V)
      → ((k : StoreKey) → P k → Q k)
      → AllEntries P p es
      → AllEntries Q p es
  AllEntries-imp P Q p [] f h = tt
  AllEntries-imp P Q p ((t, v) ∷ es) f (a, h) = (f (page_key p t) a, AllEntries-imp P Q p es f h)

  pub Keys-imp :
      (P Q : StoreKey → Type 0) (t : Root V) → ((k : StoreKey) → P k → Q k) → Keys P t → Keys Q t
  unfolding Keys
  Keys-imp P Q empty f h = tt
  Keys-imp P Q (leaf k v) f h = f k h
  Keys-imp P Q (page p es) f h = AllEntries-imp P Q p es f h
  Keys-imp P Q (branch n p b l r) f h = (Keys-imp P Q l f h.0, Keys-imp P Q r f h.1)

  pub Keys-and-imp :
      (P Q R : StoreKey → Type 0) (t : Root V)
      → ((k : StoreKey) → P k → Q k → R k)
      → Keys P t
      → Keys Q t
      → Keys R t
  unfolding Keys
  Keys-and-imp P Q R empty f h g = tt
  Keys-and-imp P Q R (leaf k v) f h g = f k h g
  Keys-and-imp P Q R (page p es) f h g = pages es h g
    where
      pages : (es : Map ℕ V) → AllEntries P p es → AllEntries Q p es → AllEntries R p es
      pages [] h g = tt
      pages ((t, v) ∷ es) (a, h) (b, g) = (f (page_key p t) a b, pages es h g)
  Keys-and-imp P Q R (branch n p b l r) f h g =
      (Keys-and-imp P Q R l f h.0 g.0, Keys-and-imp P Q R r f h.1 g.1)

  pub get-page_node :
      (p : StoreKey) (es : Map ℕ V) (j : StoreKey)
      → get (page_node p es) j ≡ (if same_prefix p j then lookup (last_word j) es else none)
  unfolding get page_node lookup
  get-page_node p [] j = ground arith
  get-page_node p ((t, v) ∷ []) j =
      rw (same_key-page_key p j t) (and_then (same_prefix p j) (t == last_word j) (some v))
    where
      and_then :
          (a b : Bool) (o : Option V)
          → (if a && b then o else none) ≡ (if a then (if b then o else none) else none)
      and_then true b o = refl
      and_then false b o = refl
  get-page_node p (x ∷ y ∷ es) j = refl

  pub page_node-Keys :
      (P : StoreKey → Type 0) (p : StoreKey) (es : Map ℕ V)
      → AllEntries P p es
      → Keys P (page_node p es)
  unfolding Keys page_node
  page_node-Keys P p [] h = tt
  page_node-Keys P p ((t, v) ∷ []) h = h.0
  page_node-Keys P p (x ∷ y ∷ es) h = h

  pub page_node-IsTrie :
      (p : StoreKey) (es : Map ℕ V)
      → IsKey p
      → IsEntries (last_word p / 8) 0 es
      → IsTrie (page_node p es)
  unfolding IsTrie page_node
  page_node-IsTrie p [] h k = tt
  page_node-IsTrie p ((t, v) ∷ []) h k = page_key-IsKey p t h k.2
  page_node-IsTrie p (x ∷ y ∷ es) h k = (h, omega arith, k)

  pub leaves-page_node : (p : StoreKey) (es : Map ℕ V) → leaves (page_node p es) ≡ length es
  unfolding page_node
  leaves-page_node p [] = refl
  leaves-page_node p ((t, v) ∷ []) = refl
  leaves-page_node p (x ∷ y ∷ es) = refl

  pub is_empty-page_node :
      (p : StoreKey) (es : Map ℕ V) → is_empty (page_node p es) ≡ (length es == 0)
  unfolding page_node
  is_empty-page_node p [] = refl
  is_empty-page_node p ((t, v) ∷ []) = refl
  is_empty-page_node p (x ∷ y ∷ es) = ground arith

  -- The bits in which the keys of a node agree with its prefix.
  abbrev pub node_bit : Root V → ℕ
  node_bit (branch n p b l r) = b
  node_bit (page p es) = page_bit
  node_bit _ = 256

  pub Keys-Agree : (t : Root V) → IsTrie t → Keys (Agree (node_bit t) (prefix_of t)) t
  unfolding Keys IsTrie
  Keys-Agree empty h = tt
  Keys-Agree (leaf k v) h = λ i l. refl
  Keys-Agree (page p es) h =
      IsEntries-AllEntries (Agree page_bit p) p 0 es
        (λ t a b. SamePage-Agree p (page_key p t) (page_key-SamePage p t a)) h.2
  Keys-Agree (branch n p b l r) h = (
    Keys-imp (Side b p false) (Agree b p) l (λ k a. a.0) h.4.0,
    Keys-imp (Side b p true) (Agree b p) r (λ k a. a.0) h.4.1,
  )

  pub Keys-IsKey : (t : Root V) → IsTrie t → Keys IsKey t
  unfolding Keys IsTrie
  Keys-IsKey empty h = tt
  Keys-IsKey (leaf k v) h = h
  Keys-IsKey (page p es) h =
      IsEntries-AllEntries IsKey p 0 es (λ t a b. page_key-IsKey p t h.0 b) h.2
  Keys-IsKey (branch n p b l r) h = (Keys-IsKey l h.5.0, Keys-IsKey r h.5.1)

  pub IsTrie-prefix : (t : Root V) → is_empty t ≡ false → IsTrie t → IsKey (prefix_of t)
  unfolding IsTrie
  IsTrie-prefix empty e h = absurd (true≢false e)
  IsTrie-prefix (leaf k v) e h = h
  IsTrie-prefix (page p es) e h = h.0
  IsTrie-prefix (branch n p b l r) e h = h.0
