-- ===== src/Store/Shape.antt =====
-- src/store.rs: the shape of a trie that the store builds.
-- Same first three words, and the last one in the same aligned interval of eight.
use chrimp.Prelude.{Bool, [], false, length, suc, true, ℕ, ◌+◌, ◌/◌, ◌<◌, ◌^◌, ◌∷◌, ◌≡◌, ◌≤◌}
use chrimp.Map.{Map, nat_key}
use chrimp.Store.Key.{IsKey, StoreKey, last_word, page_key, right}
use chrimp.Store.Order.{Agree}
use chrimp.Store.Trie.{Root, branch, empty, is_empty, leaf, leaves, page, page_bit, same_prefix}

abbrev pub SamePage : StoreKey → StoreKey → Type 0
SamePage p k = (same_prefix p k ≡ true) × (last_word p / 8 ≡ last_word k / 8)

-- Tails in order, from `low` on, of one page.
abbrev pub IsEntries : {V : Type 0} → ℕ → ℕ → Map ℕ V → Type 0
IsEntries q low [] = Unit {0}
IsEntries q low ((t, v) ∷ es) = (low ≤ t) × (t / 8 ≡ q) × (t < 2 ^ 64) × IsEntries q (suc t) es

abbrev pub AllEntries : {V : Type 0} → (StoreKey → Type 0) → StoreKey → Map ℕ V → Type 0
AllEntries P p [] = Unit {0}
AllEntries P p ((t, v) ∷ es) = P (page_key p t) × AllEntries P p es

abbrev pub Side : ℕ → StoreKey → Bool → StoreKey → Type 0
Side b p s k = Agree b p k × (right k b ≡ s)

module _ {V : Type 0} where
  -- All keys of a trie have a property.
  unfoldable pub Keys : (StoreKey → Type 0) → Root V → Type 0
  Keys P empty = Unit {0}
  Keys P (leaf k v) = P k
  Keys P (page p es) = AllEntries P p es
  Keys P (branch n p b l r) = Keys P l × Keys P r

  -- A page has entries of its interval in order, two at least; a branch tests a bit before those of
  -- a page, has both children, and counts their leaves, and its keys agree with its prefix before
  -- the bit and lie on the sides that the bit says.
  unfoldable pub IsTrie : Root V → Type 0
  unfolding Keys
  IsTrie empty = Unit {0}
  IsTrie (leaf k v) = IsKey k
  IsTrie (page p es) = IsKey p × (2 ≤ length es) × IsEntries (last_word p / 8) 0 es
  IsTrie (branch n p b l r) =
      IsKey p
      × (b < page_bit)
      × ((is_empty l ≡ false) × (is_empty r ≡ false))
      × (n ≡ leaves l + leaves r)
      × (Keys (Side b p false) l × Keys (Side b p true) r)
      × (IsTrie l × IsTrie r)
