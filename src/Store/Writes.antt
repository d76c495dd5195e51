-- ===== src/Store/Writes.antt =====
-- src/store.rs: reads after a write of one key, in a page and below a branch.
use chrimp.Prelude.{
  Bool, Bool-cases, Option, ap, arith, false, if◌then◌else◌, inl, inr, none, refl, sym, true,
  true≢false, ℕ, ◌&&◌, ◌==◌, ◌∙◌, ◌≡◌,
}
use chrimp.Map.{Map, lookup, nat_key}
use chrimp.Store.Key.{StoreKey, last_word, right}
use chrimp.Store.Trie.{Root, branch, empty, get, page_node, same_key, same_prefix}
use chrimp.Store.Shape.{Keys, Side}
use chrimp.Store.Entries.{page_key-last, same_key-page_key, same_key_iff}
use chrimp.Store.Reads.{get-absent, get-branch, get-page_node}

module _ {V : Type 0} where
  -- What is read after a write of a key: its new value, or none if the write is a removal.
  abbrev pub Written : StoreKey → Option V → Root V → Root V → StoreKey → Type 0
  Written k o t u j = get u j ≡ (if same_key k j then o else get t j)

  -- To write an entry of a page is to write its key.
  pub page_get :
      (p k : StoreKey) (o : Option V) (es fs : Map ℕ V) (j : StoreKey)
      → same_prefix p k ≡ true
      → lookup (last_word j) fs
        ≡ (if last_word k == last_word j then o else lookup (last_word j) es)
      → Written k o (page_node p es) (page_node p fs) j
  page_get p k o es fs j m h =
      get-page_node p fs j
      ∙ ap (λ x. if same_prefix p j then x else none) h
      ∙ cases (same_prefix p j) (last_word k == last_word j) (lookup (last_word j) es)
      ∙ ap (λ b. if b then o else (if same_prefix p j then lookup (last_word j) es else none))
          (sym (same_key-page_key p j (last_word k)) ∙ ap (λ q. same_key q j) (page_key-last p k m))
      ∙ ap (λ x. if same_key k j then o else x) (sym (get-page_node p es j))
    where
      cases :
          (a b : Bool) (x : Option V)
          → (if a then (if b then o else x) else none)
            ≡ (if a && b then o else (if a then x else none))
      cases true b x = refl
      cases false b x = ground arith

  -- Of a branch whose changed child is on the side of the key.
  pub right_get :
      (n n' : ℕ) (p q : StoreKey) (b : ℕ) (l r r' : Root V) (k : StoreKey) (o : Option V)
      (j : StoreKey)
      → right k b ≡ true
      → Written k o r r' j
      → Written k o (branch n p b l r) (branch n' q b l r') j
  right_get n n' p q b l r r' k o j s i = elim (Bool-cases (same_key k j)) [
    | inl x ↦
        let e : right j b ≡ true = ap (λ w. right w b) (sym ((same_key_iff k j).0 x)) ∙ s in
        get-branch n' q b l r' j ∙ rw (e, x) (i ∙ rw x refl)
    | inr x ↦
        get-branch n' q b l r' j
        ∙ ap (λ w. if right j b then w else get l j) (i ∙ rw x refl)
        ∙ sym (get-branch n p b l r j)
        ∙ rw x refl
  ]

  pub left_get :
      (n n' : ℕ) (p q : StoreKey) (b : ℕ) (l l' r : Root V) (k : StoreKey) (o : Option V)
      (j : StoreKey)
      → right k b ≡ false
      → Written k o l l' j
      → Written k o (branch n p b l r) (branch n' q b l' r) j
  left_get n n' p q b l l' r k o j s i = elim (Bool-cases (same_key k j)) [
    | inl x ↦
        let e : right j b ≡ false = ap (λ w. right w b) (sym ((same_key_iff k j).0 x)) ∙ s in
        get-branch n' q b l' r j ∙ rw (e, x) (i ∙ rw x refl)
    | inr x ↦
        get-branch n' q b l' r j
        ∙ ap (λ w. if right j b then get r j else w) (i ∙ rw x refl)
        ∙ sym (get-branch n p b l r j)
        ∙ rw x refl
  ]

  -- A branch without keys on one side reads as the other side.
  pub lone_left :
      (n : ℕ) (p : StoreKey) (b : ℕ) (l : Root V) (j : StoreKey)
      → Keys (Side b p false) l
      → get (branch n p b l empty) j ≡ get l j
  unfolding get
  lone_left n p b l j h = elim (Bool-cases (right j b)) [
    | inl x ↦
        get-branch n p b l empty j
        ∙ rw x (sym (get-absent (Side b p false) l j h (λ s. true≢false (sym x ∙ s.1))))
    | inr x ↦ get-branch n p b l empty j ∙ rw x refl
  ]

  pub lone_right :
      (n : ℕ) (p : StoreKey) (b : ℕ) (r : Root V) (j : StoreKey)
      → Keys (Side b p true) r
      → get (branch n p b empty r) j ≡ get r j
  unfolding get
  lone_right n p b r j h = elim (Bool-cases (right j b)) [
    | inl x ↦ get-branch n p b empty r j ∙ rw x refl
    | inr x ↦
        get-branch n p b empty r j
        ∙ rw x (sym (get-absent (Side b p true) r j h (λ s. true≢false (sym s.1 ∙ x))))
  ]
