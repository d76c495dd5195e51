-- ===== src/Store/Count.antt =====
-- src/store.rs: count is the number of entries in a range.
use chrimp.Store.Places.{count_up_to-le, length-window, slice_page}
use chrimp.Store.Order.{Agree, le_less, le_trans, less_le}
use chrimp.Store.Listing.{
  Keys-entries, entries, leaves-entries, length-page_list, page_list, slice, slice-append,
  slice_all, slice_crossed, slice_none,
}
use chrimp.Store.Interval.{high_bound, low_bound}
use chrimp.Prelude.{
  Bool, Bool-cases, [], ap, arith, false, inl, inr, length, length-append, not, refl, sym, true,
  true≢false, ℕ, ◌&&◌, ◌++◌, ◌/◌, ◌||◌, ◌∙◌, ◌≡◌, ◌⊎◌,
}
use chrimp.Map.{nat_key}
use chrimp.Store.Key.{IsKey, StoreKey, bounds, key_less, last_word}
use chrimp.Store.Trie.{
  Root, branch, count, count_below, count_node, count_up_to, empty, in_range, leaf, page,
}
use chrimp.Store.Shape.{IsTrie, Keys}
use chrimp.Store.Reads.{IsTrie-prefix, Keys-Agree, Keys-IsKey, Keys-and-imp, Keys-imp}

either : (a b : Bool) → (a || b) ≡ true → (a ≡ true) ⊎ (b ≡ true)
either true b h = inl refl
either false b h = inr h

both : (a b : Bool) → (not a && not b) ≡ true → (a ≡ false) × (b ≡ false)
both true b h = absurd (true≢false (sym h))
both false true h = absurd (true≢false (sym h))
both false false h = (refl, refl)

all_above :
    (low high k least : StoreKey)
    → key_less high least ≡ true
    → key_less k least ≡ false
    → in_range low high k ≡ false
all_above low high k least h l = rw (less_le high least k h l) (cases (not (key_less k low)))
  where
    cases : (a : Bool) → (a && false) ≡ false
    cases true = refl
    cases false = refl

all_below :
    (low high k greatest : StoreKey)
    → key_less greatest low ≡ true
    → key_less greatest k ≡ false
    → in_range low high k ≡ false
all_below low high k greatest h l = rw (le_less k greatest low l h) refl

all_inside :
    (low high k least greatest : StoreKey)
    → key_less least low ≡ false
    → key_less high greatest ≡ false
    → key_less k least ≡ false
    → key_less greatest k ≡ false
    → in_range low high k ≡ true
all_inside low high k least greatest h l a b =
    rw (le_trans low least k h a, le_trans k greatest high b l) refl

abbrev Between : StoreKey → ℕ → StoreKey → Type 0
Between p b k = (key_less k (bounds p b).0 ≡ false) × (key_less (bounds p b).1 k ≡ false)

module _ {V : Type 0} where
  -- The keys of a branch lie between its bounds.
  branch_bounds :
      (n : ℕ) (p : StoreKey) (b : ℕ) (l r : Root V)
      → IsTrie (branch n p b l r)
      → Keys (Between p b) (branch n p b l r)
  branch_bounds n p b l r h =
      Keys-and-imp (Agree b p) IsKey (Between p b) (branch n p b l r)
        (λ k a m. (
          low_bound p k b (IsTrie-prefix (branch n p b l r) refl h) m a,
          high_bound p k b (IsTrie-prefix (branch n p b l r) refl h) m a,
        ))
        (Keys-Agree (branch n p b l r) h) (Keys-IsKey (branch n p b l r) h)

  -- A branch whose interval lies outside a range has no keys in it.
  pub slice_outside :
      (n : ℕ) (p : StoreKey) (b : ℕ) (l r : Root V) (low high : StoreKey)
      → IsTrie (branch n p b l r)
      → (key_less high (bounds p b).0 || key_less (bounds p b).1 low) ≡ true
      → slice low high (entries l ++ entries r) ≡ []
  unfolding entries
  slice_outside n p b l r low high h x = slice_none low high (entries (branch n p b l r)) (
      Keys-entries (λ k. in_range low high k ≡ false) (branch n p b l r)
        (Keys-imp (Between p b) (λ k. in_range low high k ≡ false) (branch n p b l r)
          (λ k a. elim (either _ _ x) [
            | inl u ↦ all_above low high k (bounds p b).0 u a.0
            | inr u ↦ all_below low high k (bounds p b).1 u a.1
          ])
          (branch_bounds n p b l r h)))

  count_node-entries :
      (t : Root V) (low high : StoreKey)
      → IsTrie t
      → count_node t low high ≡ length (slice low high (entries t))
  unfolding count_node entries IsTrie
  count_node-entries empty low high h = refl
  count_node-entries (leaf k v) low high h = ground arith
  count_node-entries (page p es) low high h =
      sym (
        length-window (count_below p low es) (count_up_to p high es) (page_list p es)
          (omega (arith, length-page_list p es, count_up_to-le p high es)))
      ∙ ap length (sym (slice_page p low high (last_word p / 8) 0 es h.2))
  count_node-entries (branch n p b l r) low high h =
      elim (Bool-cases (key_less high (bounds p b).0 || key_less (bounds p b).1 low)) [
        | inl x ↦ rw (x, count_node) (sym (ap length (slice_outside n p b l r low high h x)))
        | inr x ↦
            elim (Bool-cases
              (not (key_less (bounds p b).0 low) && not (key_less high (bounds p b).1))) [
                | inl y ↦
                    rw (x, y, count_node)
                      (leaves-entries (branch n p b l r) h ∙ sym (ap length (inside y)))
                | inr y ↦
                    rw (x, y, count_node)
                      (omega (
                        arith,
                        count_node-entries l low high h.5.0,
                        count_node-entries r low high h.5.1,
                        length-append (slice low high (entries l)) (slice low high (entries r)),
                        ap length (slice-append low high (entries l) (entries r)),
                      ))
              ]
      ]
    where
      inside :
          (not (key_less (bounds p b).0 low) && not (key_less high (bounds p b).1)) ≡ true
          → slice low high (entries l ++ entries r) ≡ entries l ++ entries r
      inside y = slice_all low high (entries (branch n p b l r)) (
          Keys-entries (λ k. in_range low high k ≡ true) (branch n p b l r)
            (Keys-imp (Between p b) (λ k. in_range low high k ≡ true) (branch n p b l r)
              (λ k a.
                all_inside low high k (bounds p b).0 (bounds p b).1 (both _ _ y).0 (both _ _ y).1
                  a.0 a.1)
              (branch_bounds n p b l r h)))

  -- `count` is the number of entries of the trie whose keys lie from `low` to `high`, both
  -- included, for a trie of the store's shape: also where it reads a cached number of leaves.
  pub count-entries :
      (t : Root V) (low high : StoreKey)
      → IsTrie t
      → count t low high ≡ length (slice low high (entries t))
  unfolding count
  count-entries t low high h = elim (Bool-cases (key_less high low)) [
    | inl x ↦ rw x (sym (ap length (crossed x)))
    | inr x ↦ rw x (count_node-entries t low high h)
  ]
    where
      crossed : key_less high low ≡ true → slice low high (entries t) ≡ []
      crossed x = slice_crossed low high (entries t) x
