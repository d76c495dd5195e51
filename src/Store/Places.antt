-- ===== src/Store/Places.antt =====
-- src/store.rs: the two places at which a range begins and ends in a page.
use chrimp.Store.Order.{le_trans, less_le}
use chrimp.Store.Listing.{AllKeys-page_list, page_list, slice, slice_none, window}
use chrimp.Prelude.{
  Bool, Bool-cases, List, [], ap, arith, false, inl, inr, length, ltb, not, refl, suc, true, zero,
  ℕ, ◌&&◌, ◌-◌, ◌<◌, ◌∙◌, ◌∷◌, ◌≡◌, ◌≤◌,
}
use chrimp.Map.{Map, nat_key}
use chrimp.Store.Key.{StoreKey, key, key_less, page_key, words_less}
use chrimp.Store.Trie.{count_below, count_up_to, in_range}
use chrimp.Store.Shape.{AllEntries, IsEntries}
use chrimp.Store.Reads.{AllEntries-imp}

-- Keys of one prefix are in the order of their tails.
pub key_less-page_key : (p : StoreKey) (s t : ℕ) → key_less (page_key p s) (page_key p t) ≡ ltb s t
unfolding key_less words_less page_key
key_less-page_key (key a b c d) s t = ground arith

cut : (a b : Bool) → a ≡ false → (not a && not b) ≡ not b
cut a b h = ground arith

module _ {V : Type 0} where
  -- The keys of a page's later entries are not less.
  later_keys :
      (p : StoreKey) (q t low : ℕ) (es : Map ℕ V)
      → t < low
      → IsEntries q low es
      → AllEntries (λ k. key_less k (page_key p t) ≡ false) p es
  later_keys p q t low [] l h = tt
  later_keys p q t low ((s, v) ∷ es) l (a, b, c, h) = (
    key_less-page_key p s t ∙ not_less s t (omega arith),
    later_keys p q t (suc s) es (omega arith) h,
  )
    where
      not_less : (s t : ℕ) → t < s → ltb s t ≡ false
      not_less s t h = ground arith

  none_below :
      (p low : StoreKey) (es : Map ℕ V)
      → AllEntries (λ k. key_less k low ≡ false) p es
      → count_below p low es ≡ 0
  none_below p low [] h = refl
  none_below p low ((t, v) ∷ es) h = rw h.0 refl

  pub count_up_to-le : (p high : StoreKey) (es : Map ℕ V) → count_up_to p high es ≤ length es
  count_up_to-le p high [] = omega arith
  count_up_to-le p high ((t, v) ∷ es) = ground (arith, count_up_to-le p high es)

  above_keys :
      (p high : StoreKey) (t q : ℕ) (es : Map ℕ V)
      → key_less high (page_key p t) ≡ true
      → IsEntries q (suc t) es
      → AllEntries (λ k. key_less high k ≡ true) p es
  above_keys p high t q es h k =
      AllEntries-imp (λ j. key_less j (page_key p t) ≡ false) (λ j. key_less high j ≡ true) p es
        (λ j l. less_le high (page_key p t) j h l) (later_keys p q t (suc t) es (omega arith) k)

  above_slice :
      (p low high : StoreKey) (es : Map ℕ V)
      → AllEntries (λ k. key_less high k ≡ true) p es
      → slice low high (page_list p es) ≡ []
  above_slice p low high es h = slice_none low high (page_list p es) (
      AllKeys-page_list (λ k. in_range low high k ≡ false) p es
        (AllEntries-imp (λ k. key_less high k ≡ true) (λ k. in_range low high k ≡ false) p es
          (λ k l. rw l (last_false (not (key_less k low)))) h))
    where
      last_false : (a : Bool) → (a && false) ≡ false
      last_false true = refl
      last_false false = refl

  window_zero : (i : ℕ) (xs : List (StoreKey × V)) → window i 0 xs ≡ []
  window_zero i [] = refl
  window_zero i (x ∷ xs) = refl

  -- The entries of a page in a range are those from its first place to its second.
  pub slice_page :
      (p low high : StoreKey) (q least : ℕ) (es : Map ℕ V)
      → IsEntries q least es
      → slice low high (page_list p es)
        ≡ window (count_below p low es) (count_up_to p high es) (page_list p es)
  slice_page p low high q least [] h = refl
  slice_page p low high q least ((t, v) ∷ es) (a, b, c, h) =
      elim (Bool-cases (key_less (page_key p t) low)) [
        | inl x ↦ elim (Bool-cases (key_less high (page_key p t))) [
          | inl y ↦ rw (x, y) (above_slice p low high es (above_keys p high t q es y h))
          | inr y ↦ rw (x, y) (slice_page p low high q (suc t) es h)
        ]
        | inr x ↦ elim (Bool-cases (key_less high (page_key p t))) [
          | inl y ↦ rw (x, y) (above_slice p low high es (above_keys p high t q es y h))
          | inr y ↦
              rw (x, y)
                (ap (λ zs. (page_key p t, v) ∷ zs)
                  (slice_page p low high q (suc t) es h
                    ∙ ap (λ i. window i (count_up_to p high es) (page_list p es))
                        (none_below p low es (
                          AllEntries-imp (λ j. key_less j (page_key p t) ≡ false)
                            (λ j. key_less j low ≡ false) p es
                            (λ j l. le_trans low (page_key p t) j x l)
                            (later_keys p q t (suc t) es (omega arith) h)))))
        ]
      ]

  pub length-window :
      (i j : ℕ) (xs : List (StoreKey × V)) → j ≤ length xs → length (window i j xs) ≡ j - i
  length-window i zero [] h = omega arith
  length-window i (suc j) [] h = absurd (omega arith)
  length-window i zero (x ∷ xs) h = omega arith
  length-window zero (suc j) (x ∷ xs) h = omega (arith, length-window zero j xs (omega arith))
  length-window (suc i) (suc j) (x ∷ xs) h = omega (arith, length-window i j xs (omega arith))
