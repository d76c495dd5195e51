-- ===== src/Store/Listing.antt =====
-- src/store.rs: the entries of a trie as a list in the order of its keys, and the part of the list
use chrimp.Store.Order.{key_less_cotrans}
use chrimp.Prelude.{
  Bool, Bool-cases, List, [], ap, arith, false, if◌then◌else◌, inl, inr, length, length-append, not,
  refl, suc, sym, true, zero, ℕ, ◌&&◌, ◌++◌, ◌∷◌, ◌≡◌,
}
use chrimp.Map.{Map, nat_key}
use chrimp.Store.Key.{StoreKey, key_less, page_key}
use chrimp.Store.Trie.{Root, branch, empty, in_range, leaf, leaves, page}
use chrimp.Store.Shape.{AllEntries, IsTrie, Keys}

-- that lies in a range.
module _ {V : Type 0} where
  abbrev pub page_list : StoreKey → Map ℕ V → List (StoreKey × V)
  page_list p [] = []
  page_list p ((t, v) ∷ es) = (page_key p t, v) ∷ page_list p es

  unfoldable pub entries : Root V → List (StoreKey × V)
  entries empty = []
  entries (leaf k v) = (k, v) ∷ []
  entries (page p es) = page_list p es
  entries (branch n p b l r) = entries l ++ entries r

  abbrev pub slice : StoreKey → StoreKey → List (StoreKey × V) → List (StoreKey × V)
  slice low high [] = []
  slice low high ((k, v) ∷ xs) =
      let rest = slice low high xs in if in_range low high k then (k, v) ∷ rest else rest

  abbrev pub AllKeys : (StoreKey → Type 0) → List (StoreKey × V) → Type 0
  AllKeys P [] = Unit {0}
  AllKeys P ((k, v) ∷ xs) = P k × AllKeys P xs

  -- From a place up to another.
  abbrev pub window : ℕ → ℕ → List (StoreKey × V) → List (StoreKey × V)
  window i j [] = []
  window i zero (x ∷ xs) = []
  window zero (suc j) (x ∷ xs) = x ∷ window zero j xs
  window (suc i) (suc j) (x ∷ xs) = window i j xs

  pub AllKeys-append :
      (P : StoreKey → Type 0) (xs ys : List (StoreKey × V))
      → AllKeys P xs
      → AllKeys P ys
      → AllKeys P (xs ++ ys)
  AllKeys-append P [] ys h k = k
  AllKeys-append P (x ∷ xs) ys h k = (h.0, AllKeys-append P xs ys h.1 k)

  pub AllKeys-page_list :
      (P : StoreKey → Type 0) (p : StoreKey) (es : Map ℕ V)
      → AllEntries P p es
      → AllKeys P (page_list p es)
  AllKeys-page_list P p [] h = tt
  AllKeys-page_list P p ((t, v) ∷ es) h = (h.0, AllKeys-page_list P p es h.1)

  pub Keys-entries : (P : StoreKey → Type 0) (t : Root V) → Keys P t → AllKeys P (entries t)
  unfolding Keys entries
  Keys-entries P empty h = tt
  Keys-entries P (leaf k v) h = (h, tt)
  Keys-entries P (page p es) h = AllKeys-page_list P p es h
  Keys-entries P (branch n p b l r) h =
      AllKeys-append P (entries l) (entries r) (Keys-entries P l h.0) (Keys-entries P r h.1)

  pub slice-append :
      (low high : StoreKey) (xs ys : List (StoreKey × V))
      → slice low high (xs ++ ys) ≡ slice low high xs ++ slice low high ys
  slice-append low high [] ys = refl
  slice-append low high ((k, v) ∷ xs) ys = elim (Bool-cases (in_range low high k)) [
    | inl x ↦ rw x (ap (λ zs. (k, v) ∷ zs) (slice-append low high xs ys))
    | inr x ↦ rw x (slice-append low high xs ys)
  ]

  -- A list without keys in the range.
  pub slice_none :
      (low high : StoreKey) (xs : List (StoreKey × V))
      → AllKeys (λ k. in_range low high k ≡ false) xs
      → slice low high xs ≡ []
  slice_none low high [] h = refl
  slice_none low high ((k, v) ∷ xs) h = rw h.0 (slice_none low high xs h.1)

  pub slice_all :
      (low high : StoreKey) (xs : List (StoreKey × V))
      → AllKeys (λ k. in_range low high k ≡ true) xs
      → slice low high xs ≡ xs
  slice_all low high [] h = refl
  slice_all low high ((k, v) ∷ xs) h = rw h.0 (ap (λ zs. (k, v) ∷ zs) (slice_all low high xs h.1))

  -- A range whose ends are crossed has no keys.
  pub slice_crossed :
      (low high : StoreKey) (xs : List (StoreKey × V))
      → key_less high low ≡ true
      → slice low high xs ≡ []
  slice_crossed low high [] h = refl
  slice_crossed low high ((k, v) ∷ xs) h = elim (key_less_cotrans high k low h) [
    | inl x ↦ rw (x, out (not (key_less k low))) (slice_crossed low high xs h)
    | inr x ↦ rw x (slice_crossed low high xs h)
  ]
    where
      out : (a : Bool) → (a && false) ≡ false
      out true = refl
      out false = refl

  pub length-page_list : (p : StoreKey) (es : Map ℕ V) → length (page_list p es) ≡ length es
  length-page_list p [] = refl
  length-page_list p ((t, v) ∷ es) = omega (arith, length-page_list p es)

  -- The cached number of leaves is the number of entries.
  pub leaves-entries : (t : Root V) → IsTrie t → leaves t ≡ length (entries t)
  unfolding entries IsTrie
  leaves-entries empty h = refl
  leaves-entries (leaf k v) h = refl
  leaves-entries (page p es) h = sym (length-page_list p es)
  leaves-entries (branch n p b l r) h = omega (
    arith,
    h.3,
    leaves-entries l h.5.0,
    leaves-entries r h.5.1,
    length-append (entries l) (entries r),
  )

  AllKeys-parts :
      (P : StoreKey → Type 0) (xs ys : List (StoreKey × V))
      → AllKeys P (xs ++ ys)
      → AllKeys P xs × AllKeys P ys
  AllKeys-parts P [] ys h = (tt, h)
  AllKeys-parts P (x ∷ xs) ys (a, h) = let (b, c) = AllKeys-parts P xs ys h in ((a, b), c)

  AllEntries-page_list :
      (P : StoreKey → Type 0) (p : StoreKey) (es : Map ℕ V)
      → AllKeys P (page_list p es)
      → AllEntries P p es
  AllEntries-page_list P p [] h = tt
  AllEntries-page_list P p ((t, v) ∷ es) h = (h.0, AllEntries-page_list P p es h.1)

  pub entries-Keys : (P : StoreKey → Type 0) (t : Root V) → AllKeys P (entries t) → Keys P t
  unfolding Keys entries
  entries-Keys P empty h = tt
  entries-Keys P (leaf k v) h = h.0
  entries-Keys P (page p es) h = AllEntries-page_list P p es h
  entries-Keys P (branch n p b l r) h =
      let (a, c) = AllKeys-parts P (entries l) (entries r) h in
      (entries-Keys P l a, entries-Keys P r c)
