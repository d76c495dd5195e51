-- ===== src/Store/Found.antt =====
-- src/store.rs: the entries of a trie are what get finds.
use chrimp.Store.Listing.{AllKeys, Keys-entries, entries, page_list}
use chrimp.Prelude.{
  ==_iff, Bool, Bool-cases, List, Option, [], ap, arith, false, if◌then◌else◌, inl, inr, none, refl,
  some, suc, sym, true, true≢false, ℕ, ◌&&◌, ◌++◌, ◌/◌, ◌==◌, ◌∙◌, ◌∷◌, ◌≡◌, ◌≤◌,
}
use chrimp.Map.{Map, lookup, nat_key}
use chrimp.Store.Key.{StoreKey, last_word, right}
use chrimp.Store.Trie.{Root, branch, empty, get, leaf, page, same_key, same_prefix}
use chrimp.Store.Shape.{IsEntries, IsTrie, Side}
use chrimp.Store.Entries.{last_word-page_key, page_key-SamePage, same_key-page_key, same_key_iff}
use chrimp.Store.Reads.{get-absent, get-branch}

module _ {V : Type 0} where
  abbrev pub AllPairs : (StoreKey → V → Type 0) → List (StoreKey × V) → Type 0
  AllPairs R [] = Unit {0}
  AllPairs R ((k, v) ∷ xs) = R k v × AllPairs R xs

  pub AllPairs-imp :
      (P : StoreKey → Type 0) (R S : StoreKey → V → Type 0) (xs : List (StoreKey × V))
      → ((k : StoreKey) (v : V) → P k → R k v → S k v)
      → AllKeys P xs
      → AllPairs R xs
      → AllPairs S xs
  AllPairs-imp P R S [] f h r = tt
  AllPairs-imp P R S ((k, v) ∷ xs) f h r = (f k v h.0 r.0, AllPairs-imp P R S xs f h.1 r.1)

  AllPairs-append :
      (R : StoreKey → V → Type 0) (xs ys : List (StoreKey × V))
      → AllPairs R xs
      → AllPairs R ys
      → AllPairs R (xs ++ ys)
  AllPairs-append R [] ys h k = k
  AllPairs-append R (x ∷ xs) ys h k = (h.0, AllPairs-append R xs ys h.1 k)

  -- The entries of a page from a place on.
  page_found :
      (p : StoreKey) (es fs : Map ℕ V) (low : ℕ)
      → ((t : ℕ) → low ≤ t → lookup t es ≡ lookup t fs)
      → IsEntries (last_word p / 8) low fs
      → AllPairs (λ k v. get (page p es) k ≡ some v) (page_list p fs)
  unfolding get lookup
  page_found p es [] low f h = tt
  page_found p es ((t, v) ∷ fs) low f (a, b, c, h) = (
    rw ((page_key-SamePage p t b).0, last_word-page_key p t)
        (f t a ∙ rw ((==_iff t t).1 refl) refl),
    page_found p es fs (suc t) (λ s l. f s (omega arith) ∙ later s l) h,
  )
    where
      later : (s : ℕ) → suc t ≤ s → lookup s ((t, v) ∷ fs) ≡ lookup s fs
      later s l = rw (differ t s l) refl
        where
          differ : (t s : ℕ) → suc t ≤ s → (t == s) ≡ false
          differ t s l = ground arith

  -- A read of the key of each entry of a trie finds the entry's value.
  pub entries-AllPairs : (t : Root V) → IsTrie t → AllPairs (λ k v. get t k ≡ some v) (entries t)
  unfolding entries IsTrie get
  entries-AllPairs empty h = tt
  entries-AllPairs (leaf k v) h = (rw ((same_key_iff k k).1 refl) refl, tt)
  entries-AllPairs (page p es) h = page_found p es es 0 (λ t l. refl) h.2
  entries-AllPairs (branch n p b l r) h =
      AllPairs-append (λ k v. get (branch n p b l r) k ≡ some v) (entries l) (entries r)
        (AllPairs-imp (Side b p false) (λ k v. get l k ≡ some v)
          (λ k v. get (branch n p b l r) k ≡ some v) (entries l)
          (λ k v s e. get-branch n p b l r k ∙ rw (s.1) e) (Keys-entries (Side b p false) l h.4.0)
          (entries-AllPairs l h.5.0))
        (AllPairs-imp (Side b p true) (λ k v. get r k ≡ some v)
          (λ k v. get (branch n p b l r) k ≡ some v) (entries r)
          (λ k v s e. get-branch n p b l r k ∙ rw (s.1) e) (Keys-entries (Side b p true) r h.4.1)
          (entries-AllPairs r h.5.1))

  -- The first entry of a key in a list.
  abbrev pub find : StoreKey → List (StoreKey × V) → Option V
  find k [] = none
  find k ((j, v) ∷ xs) = if same_key j k then some v else find k xs

  abbrev first_of : Option V → Option V → Option V
  first_of none o = o
  first_of (some v) o = some v

  find-append :
      (k : StoreKey) (xs ys : List (StoreKey × V))
      → find k (xs ++ ys) ≡ first_of (find k xs) (find k ys)
  find-append k [] ys = refl
  find-append k ((j, v) ∷ xs) ys = elim (Bool-cases (same_key j k)) [
    | inl x ↦ rw x refl
    | inr x ↦ rw x (find-append k xs ys)
  ]

  find-page_list :
      (p k : StoreKey) (es : Map ℕ V)
      → (if same_prefix p k then lookup (last_word k) es else none) ≡ find k (page_list p es)
  unfolding lookup
  find-page_list p k [] = ground arith
  find-page_list p k ((t, v) ∷ es) =
      cases (same_prefix p k) (t == last_word k) (find-page_list p k es)
      ∙ ap (λ b. if b then some v else find k (page_list p es)) (sym (same_key-page_key p k t))
    where
      cases :
          (a b : Bool)
          → (if a then lookup (last_word k) es else none) ≡ find k (page_list p es)
          → (if a then (if b then some v else lookup (last_word k) es) else none)
            ≡ (if a && b then some v else find k (page_list p es))
      cases true true h = refl
      cases true false h = h
      cases false b h = h

  -- A read of any key finds what a search of the trie's entries for the key finds, the value of its
  -- entry or nothing, for a trie of the store's shape.
  pub get-entries : (t : Root V) (k : StoreKey) → IsTrie t → get t k ≡ find k (entries t)
  unfolding entries IsTrie get
  get-entries empty k h = refl
  get-entries (leaf j v) k h = refl
  get-entries (page p es) k h = find-page_list p k es
  get-entries (branch n p b l r) k h = elim (Bool-cases (right k b)) [
    | inl x ↦
        get-branch n p b l r k
        ∙ rw x (
            get-entries r k h.5.1
            ∙ ap (λ o. first_of o (find k (entries r)))
                (sym (get-absent (Side b p false) l k h.4.0 (λ s. true≢false (sym x ∙ s.1)))
                  ∙ get-entries l k h.5.0)
            ∙ sym (find-append k (entries l) (entries r)))
    | inr x ↦
        get-branch n p b l r k
        ∙ rw x (
            get-entries l k h.5.0
            ∙ alone (find k (entries l)) (find k (entries r)) (
                sym (get-entries r k h.5.1)
                ∙ get-absent (Side b p true) r k h.4.1 (λ s. true≢false (sym s.1 ∙ x)))
            ∙ sym (find-append k (entries l) (entries r)))
  ]
    where
      alone : (o q : Option V) → q ≡ none → o ≡ first_of o q
      alone none q e = sym e
      alone (some v) q e = refl
