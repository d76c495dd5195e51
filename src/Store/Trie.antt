-- ===== src/Store/Trie.antt =====
-- src/store.rs: the nodes of a trie, and get, insert, remove and count. A root is the tree that it
-- refers to: to copy a shared node and to change an unshared one give the same tree, and every root
-- is taken to be a current one of its store, outside a collection: the assertions of that in insert
-- and remove are left out, and so are those of a page's capacity. The counters of `Stats` are left
-- out.
-- `trait Value`, its equality.
use chrimp.Prelude.{
  Bool, List, Option, [], false, if◌then◌else◌, leb, length, ltb, none, not, some, suc, true, ℕ,
  ◌&&◌, ◌++◌, ◌+◌, ◌-◌, ◌==◌, ◌||◌, ◌↔◌, ◌∷◌, ◌≡◌,
}
use chrimp.Map.{Map, insert, lookup, nat_key, remove}
use chrimp.Store.Key.{StoreKey, bounds, difference, key, key_less, last_word, page_key, right}

pub record Value (V : Type 0) : Type 0 where
  pub same : V → V → Bool
  pub same_iff : (v w : V) → (same v w ≡ true) ↔ (v ≡ w)

-- `Root` with the `Node` it refers to; a branch has its cached number of leaves. The entries of a
-- page stand in the order of their tails, and the binary search of them is a map's lookup.
pub data Root (V : Type 0) : Type 0 where
  empty : Root V
  leaf : StoreKey → V → Root V
  page : StoreKey → Map ℕ V → Root V
  branch : ℕ → StoreKey → ℕ → Root V → Root V → Root V

abbrev pub page_bit : ℕ
page_bit = 253

abbrev pub page_capacity : ℕ
page_capacity = 8

abbrev pub same_key : StoreKey → StoreKey → Bool
same_key (key a b c d) (key a' b' c' d') = a == a' && (b == b' && (c == c' && d == d'))

-- `prefix[..3] == key[..3]`.
abbrev pub same_prefix : StoreKey → StoreKey → Bool
same_prefix (key a b c d) (key a' b' c' d') = a == a' && (b == b' && c == c')

abbrev pub within_page : Option ℕ → Bool
within_page none = true
within_page (some d) = leb page_bit d

-- `difference(..).filter(|x| x < bit)`.
abbrev pub below : ℕ → Option ℕ → Option ℕ
below bit none = none
below bit (some d) = if ltb d bit then some d else none

abbrev pub Write : Type 0 → Type 0
Write V = StoreKey × Option V

abbrev pub in_range : StoreKey → StoreKey → StoreKey → Bool
in_range low high k = not (key_less k low) && not (key_less high k)

module _ {V : Type 0} where
  abbrev pub is_empty : Root V → Bool
  is_empty empty = true
  is_empty _ = false

  -- `Record::leaves`, as `leaf_count` computes it for a new node.
  abbrev pub leaves : Root V → ℕ
  leaves empty = 0
  leaves (leaf k v) = 1
  leaves (page p es) = length es
  leaves (branch n p b l r) = n

  unfoldable pub get : Root V → StoreKey → Option V
  get empty k = none
  get (leaf j v) k = if same_key j k then some v else none
  get (page p es) k = if same_prefix p k then lookup (last_word k) es else none
  get (branch n p b l r) k = elim (right k b) [ true ↦ get r k | false ↦ get l k ]

  -- `append_page_entries`, which the code calls unreachable for a branch or an empty root: there it
  -- gives no entries.
  abbrev pub page_entries : Root V → Map ℕ V
  page_entries (leaf k v) = (last_word k, v) ∷ []
  page_entries (page p es) = es
  page_entries _ = []

  abbrev pub prefix_of : Root V → StoreKey
  prefix_of (leaf k v) = k
  prefix_of (page p es) = p
  prefix_of (branch n p b l r) = p
  prefix_of empty = key 0 0 0 0

  -- `allocate` of a branch: within a page's interval it is a page.
  unfoldable pub allocate_branch : StoreKey → ℕ → Root V → Root V → Root V
  allocate_branch p b l r =
      if leb page_bit b
      then page (prefix_of l) (page_entries l ++ page_entries r)
      else branch (leaves l + leaves r) p b l r

  -- The end of `page_batch`: a page of one entry is a leaf, and one of none is empty.
  unfoldable pub page_node : StoreKey → Map ℕ V → Root V
  page_node p [] = empty
  page_node p ((t, v) ∷ []) = leaf (page_key p t) v
  page_node p (x ∷ y ∷ es) = page p (x ∷ y ∷ es)

  abbrev pub write_entry : Write V → Map ℕ V → Map ℕ V
  write_entry (k, some v) es = insert (last_word k) v es
  write_entry (k, none) es = remove (last_word k) es

  abbrev pub write_entries : List (Write V) → Map ℕ V → Map ℕ V
  write_entries [] es = es
  write_entries (w ∷ ws) es = write_entries ws (write_entry w es)

  -- The entries of the writes that keep a value, in their order.
  abbrev pub kept_entries : List (Write V) → Map ℕ V
  kept_entries [] = []
  kept_entries ((k, some v) ∷ ws) = (last_word k, v) ∷ kept_entries ws
  kept_entries ((k, none) ∷ ws) = kept_entries ws

  abbrev pub first_key : List (Write V) → StoreKey
  first_key [] = key 0 0 0 0
  first_key ((k, o) ∷ ws) = k

  -- A branch, which the code calls unreachable here, stays as it is.
  unfoldable pub page_batch : Root V → List (Write V) → Root V
  unfolding page_node
  page_batch empty ws = page_node (first_key ws) (kept_entries ws)
  page_batch (leaf k v) ws = page_node k (write_entries ws ((last_word k, v) ∷ []))
  page_batch (page p es) ws = page_node p (write_entries ws es)
  page_batch (branch n p b l r) ws = branch n p b l r

  -- A new leaf beside a root whose keys differ from its key at the bit `s`.
  unfoldable pub split : ℕ → Root V → StoreKey → V → Root V
  unfolding allocate_branch
  split s t k v =
      if right k s then allocate_branch k s t (leaf k v) else allocate_branch k s (leaf k v) t

  -- A branch with new children, and its count refreshed.
  abbrev pub refresh : StoreKey → ℕ → Root V → Root V → Root V
  refresh p b l r = branch (leaves l + leaves r) p b l r

  -- A page that is not split, which the code calls unreachable after `page_batch`, stays.
  unfoldable pub insert_node : Root V → StoreKey → V → Root V
  unfolding page_batch split
  insert_node empty k v = leaf k v
  insert_node (leaf p w) k v =
      if not (same_key p k) && within_page (difference p k)
      then page_batch (leaf p w) ((k, some v) ∷ [])
      else elim (below 256 (difference p k)) [ some s ↦ split s (leaf p w) k v | none ↦ leaf p v ]
  insert_node (page p es) k v =
      if within_page (difference p k)
      then page_batch (page p es) ((k, some v) ∷ [])
      else elim (below page_bit (difference p k)) [
        | some s ↦ split s (page p es) k v
        | none ↦ page p es
      ]
  insert_node (branch n p b l r) k v = elim (below b (difference p k)) [
    | some s ↦ split s (branch n p b l r) k v
    | none ↦ elim (right k b) [
      | true ↦ refresh p b l (insert_node r k v)
      | false ↦ refresh p b (insert_node l k v) r
    ]
  ]

  -- An empty root, whose record the code would fail to read, stays empty: remove never comes here
  -- with one, as it has found the key.
  unfoldable pub remove_node : Root V → StoreKey → Root V
  unfolding page_batch
  remove_node empty k = empty
  remove_node (leaf p w) k = empty
  remove_node (page p es) k = page_batch (page p es) ((k, none) ∷ [])
  remove_node (branch n p b l r) k = elim (right k b) [
    | true ↦ let child = remove_node r k in if is_empty child then l else refresh p b l child
    | false ↦ let child = remove_node l k in if is_empty child then r else refresh p b child r
  ]

  unfoldable pub store_remove : Root V → StoreKey → Root V
  unfolding remove_node get
  store_remove t k = elim (get t k) [ none ↦ t | some v ↦ remove_node t k ]

  -- The number of entries before a bound: of those whose key is less, or at most the bound.
  abbrev pub count_below : StoreKey → StoreKey → Map ℕ V → ℕ
  count_below p bound [] = 0
  count_below p bound ((t, v) ∷ es) =
      if key_less (page_key p t) bound then suc (count_below p bound es) else 0

  abbrev pub count_up_to : StoreKey → StoreKey → Map ℕ V → ℕ
  count_up_to p bound [] = 0
  count_up_to p bound ((t, v) ∷ es) =
      if key_less bound (page_key p t) then 0 else suc (count_up_to p bound es)

  unfoldable pub count_node : Root V → StoreKey → StoreKey → ℕ
  unfolding bounds
  count_node empty low high = 0
  count_node (leaf k v) low high = if in_range low high k then 1 else 0
  count_node (page p es) low high = count_up_to p high es - count_below p low es
  count_node (branch n p b l r) low high =
      let inside = count_node l low high + count_node r low high in
      let (least, greatest) = bounds p b in
      if key_less high least || key_less greatest low
      then 0
      else if not (key_less least low) && not (key_less high greatest)
      then n
      else inside

  -- `count`: at each level an interval whose ends are crossed is empty.
  unfoldable pub count : Root V → StoreKey → StoreKey → ℕ
  unfolding count_node
  count t low high = if key_less high low then 0 else count_node t low high

  module _ ⦃e : Value V⦄ where
    abbrev pub same_value : Option V → Option V → Bool
    same_value none none = true
    same_value none (some w) = false
    same_value (some v) none = false
    same_value (some v) (some w) = e.same v w

    unfoldable pub store_insert : Root V → StoreKey → V → Root V
    unfolding insert_node get
    store_insert t k v = if same_value (get t k) (some v) then t else insert_node t k v
