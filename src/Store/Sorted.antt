-- ===== src/Store/Sorted.antt =====
-- src/store.rs: the order of a trie's entries.
use chrimp.Store.Listing.{
  AllKeys, AllKeys-append, AllKeys-page_list, Keys-entries, entries, page_list,
}
use chrimp.Store.Places.{key_less-page_key}
use chrimp.Store.Interval.{sides_less}
use chrimp.Prelude.{List, [], arith, false, ltb, suc, true, ℕ, ◌++◌, ◌/◌, ◌<◌, ◌∙◌, ◌∷◌, ◌≡◌}
use chrimp.Map.{Map, nat_key}
use chrimp.Store.Key.{IsKey, StoreKey, key_less, last_word, page_key}
use chrimp.Store.Trie.{Root, branch, empty, leaf, page}
use chrimp.Store.Shape.{AllEntries, IsEntries, IsTrie, Side}
use chrimp.Store.Reads.{Keys-IsKey, Keys-and-imp}

module _ {V : Type 0} where
  -- Each key is less than all that come after it.
  abbrev pub IsAscending : List (StoreKey × V) → Type 0
  IsAscending [] = Unit {0}
  IsAscending ((k, v) ∷ xs) = AllKeys (λ j. key_less k j ≡ true) xs × IsAscending xs

  pub AllKeys-imp :
      (P Q : StoreKey → Type 0) (xs : List (StoreKey × V))
      → ((k : StoreKey) → P k → Q k)
      → AllKeys P xs
      → AllKeys Q xs
  AllKeys-imp P Q [] f h = tt
  AllKeys-imp P Q ((k, v) ∷ xs) f h = (f k h.0, AllKeys-imp P Q xs f h.1)

  append-IsAscending :
      (P Q : StoreKey → Type 0) (xs ys : List (StoreKey × V))
      → ((j k : StoreKey) → P j → Q k → key_less j k ≡ true)
      → AllKeys P xs
      → AllKeys Q ys
      → IsAscending xs
      → IsAscending ys
      → IsAscending (xs ++ ys)
  append-IsAscending P Q [] ys f h k a b = b
  append-IsAscending P Q ((j, v) ∷ xs) ys f h k a b = (
    AllKeys-append (λ i. key_less j i ≡ true) xs ys a.0
        (AllKeys-imp Q (λ i. key_less j i ≡ true) ys (λ i q. f j i h.0 q) k),
    append-IsAscending P Q xs ys f h.1 k a.1 b,
  )

  page_list-IsAscending :
      (p : StoreKey) (q low : ℕ) (es : Map ℕ V) → IsEntries q low es → IsAscending (page_list p es)
  page_list-IsAscending p q low [] h = tt
  page_list-IsAscending p q low ((t, v) ∷ es) (a, b, c, h) = (
    AllKeys-page_list (λ j. key_less (page_key p t) j ≡ true) p es
        (after (suc t) es (omega arith) h),
    page_list-IsAscending p q (suc t) es h,
  )
    where
      after :
          (low : ℕ) (es : Map ℕ V)
          → t < low
          → IsEntries q low es
          → AllEntries (λ j. key_less (page_key p t) j ≡ true) p es
      after low [] l h = tt
      after low ((s, w) ∷ es) l (a, b, c, h) =
          (key_less-page_key p t s ∙ less t s (omega arith), after (suc s) es (omega arith) h)
        where
          less : (t s : ℕ) → t < s → ltb t s ≡ true
          less t s h = ground arith

  -- The entries of a trie of the store's shape stand in strictly ascending order of their keys: a
  -- key has one entry, and a range is read in order.
  pub entries-IsAscending : (t : Root V) → IsTrie t → IsAscending (entries t)
  unfolding entries IsTrie
  entries-IsAscending empty h = tt
  entries-IsAscending (leaf k v) h = (tt, tt)
  entries-IsAscending (page p es) h = page_list-IsAscending p (last_word p / 8) 0 es h.2
  entries-IsAscending (branch n p b l r) h =
      append-IsAscending (λ k. Side b p false k × IsKey k) (λ k. Side b p true k × IsKey k)
        (entries l) (entries r)
        (λ j k x y. (sides_less p j k b x.1 y.1 x.0.0 y.0.0 x.0.1 y.0.1 (omega (arith, h.1))).0)
        (Keys-entries _ l (
          Keys-and-imp (Side b p false) IsKey (λ k. Side b p false k × IsKey k) l (λ k x y. (x, y))
            h.4.0 (Keys-IsKey l h.5.0)))
        (Keys-entries _ r (
          Keys-and-imp (Side b p true) IsKey (λ k. Side b p true k × IsKey k) r (λ k x y. (x, y))
            h.4.1 (Keys-IsKey r h.5.1)))
        (entries-IsAscending l h.5.0) (entries-IsAscending r h.5.1)
