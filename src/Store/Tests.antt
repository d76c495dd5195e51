-- ===== src/Store/Tests.antt =====
-- The theorems of the store at concrete tries.
use chrimp.Store.Shifts.{page_insert_lem, page_remove_lem}
use chrimp.Store.PageArray.{PageEntries, entry_at, page_insert, page_remove}
use chrimp.Store.Scan.{coalesce_lem}
use chrimp.Store.Pops.{queue_pop-IsQueue}
use chrimp.Store.Coalesce.{IsDistinct, changed, coalesce, first_write, last_write}
use chrimp.Store.Prefix.{IsPrefixRoot, prefix_root, prefix_root-IsPrefixRoot}
use chrimp.Store.Found.{find, get-entries}
use chrimp.Store.Queue.{Queue, empty_pairs, queue_pop, queue_push}
use chrimp.Store.Release.{IsQueue, bottom, queue_push-IsQueue}
use chrimp.Store.Listing.{entries, slice}
use chrimp.Store.Cursor.{drain, exhausted, range}
use chrimp.Store.InsertReads.{get-store_insert, store_insert-IsTrie}
use chrimp.Store.Remove.{get-store_remove, store_remove-IsTrie}
use chrimp.Store.Turns.{nodes}
use chrimp.Store.Count.{count-entries}
use chrimp.Store.Drain.{drain-range}
use chrimp.Store.Sorted.{IsAscending, entries-IsAscending}
use chrimp.Prelude.{
  ==_iff, List, [], arith, if◌then◌else◌, length, ltb, none, refl, some, suc, ℕ, ◌-◌, ◌==◌, ◌∷◌,
  ◌≡◌, ◌⊎◌,
}
use chrimp.Map.{insert, lookup, nat_key}
use chrimp.Store.Word.{agreeing}
use chrimp.Store.Key.{IsKey, StoreKey, difference, key, right}
use chrimp.Store.Trie.{Root, Value, Write, count, empty, get, store_insert, store_remove}
use chrimp.Store.Shape.{IsTrie}

instance abbrev nat_value : Value ℕ
nat_value = record { same = ◌==◌; same_iff = ==_iff }

abbrev low_key : StoreKey
low_key = key 0 0 0 0

abbrev first_key : StoreKey
first_key = key 1 2 3 16

abbrev near_key : StoreKey
near_key = key 1 2 3 21

abbrev far_key : StoreKey
far_key = key 1 2 9 4

abbrev new_key : StoreKey
new_key = key 1 2 3 17

-- A leaf beside a page of two entries.
abbrev sample : Root ℕ
unfolding store_insert
sample = store_insert (store_insert (store_insert empty first_key 10) near_key 20) far_key 30

first_key-IsKey : IsKey first_key
first_key-IsKey = (omega arith, (omega arith, (omega arith, (omega arith, tt))))

near_key-IsKey : IsKey near_key
near_key-IsKey = (omega arith, (omega arith, (omega arith, (omega arith, tt))))

far_key-IsKey : IsKey far_key
far_key-IsKey = (omega arith, (omega arith, (omega arith, (omega arith, tt))))

new_key-IsKey : IsKey new_key
new_key-IsKey = (omega arith, (omega arith, (omega arith, (omega arith, tt))))

sample-IsTrie : IsTrie sample
unfolding IsTrie sample
sample-IsTrie =
    store_insert-IsTrie {V = ℕ} (store_insert (store_insert empty first_key 10) near_key 20) far_key
      30
      (store_insert-IsTrie {V = ℕ} (store_insert empty first_key 10) near_key 20
        (store_insert-IsTrie {V = ℕ} empty first_key 10 tt first_key-IsKey) near_key-IsKey)
      far_key-IsKey

get-store_insert_example : get (store_insert sample new_key 40) near_key ≡ some 20
unfolding get store_insert difference agreeing insert right lookup
get-store_insert_example = get-store_insert sample new_key 40 near_key sample-IsTrie new_key-IsKey

store_insert-IsTrie_example : IsTrie (store_insert sample new_key 40)
store_insert-IsTrie_example = store_insert-IsTrie sample new_key 40 sample-IsTrie new_key-IsKey

get-store_remove_example : get (store_remove sample first_key) near_key ≡ some 20
unfolding get store_remove store_insert difference agreeing insert right lookup
get-store_remove_example = get-store_remove sample first_key near_key sample-IsTrie

store_remove-IsTrie_example : IsTrie (store_remove sample first_key)
store_remove-IsTrie_example = store_remove-IsTrie sample first_key sample-IsTrie

count-entries_example :
    count sample low_key near_key ≡ length (slice low_key near_key (entries sample))
count-entries_example = count-entries sample low_key near_key sample-IsTrie

drain-range_example :
    drain
      (suc (length (slice low_key near_key (entries sample))))
      (suc (nodes sample))
      (range sample low_key near_key)
    ≡ (slice low_key near_key (entries sample), exhausted)
drain-range_example = drain-range sample low_key near_key sample-IsTrie

entries-IsAscending_example : IsAscending (entries sample)
entries-IsAscending_example = entries-IsAscending sample sample-IsTrie

abbrev two_released : Queue ℕ
two_released = record {
  state = record {
    inline = record { pairs = some 5 ∷ some 6 ∷ empty_pairs 14; len = 2 };
    overflow = [];
  };
  count = 2;
}

abbrev held : List ℕ
held = 6 ∷ 5 ∷ []

two_released-IsQueue : IsQueue two_released (6 ∷ 5 ∷ [])
unfolding IsQueue
two_released-IsQueue = (bottom (6 ∷ 5 ∷ []) (refl, refl, (refl, (refl, tt))), refl)

queue_push-IsQueue_example :
    (r : Queue ℕ) × (queue_push two_released 7 ≡ some r) × IsQueue r (7 ∷ 6 ∷ 5 ∷ [])
queue_push-IsQueue_example = queue_push-IsQueue two_released 7 (6 ∷ 5 ∷ []) two_released-IsQueue

queue_pop-IsQueue_example :
    ((held ≡ []) × (queue_pop two_released ≡ some (two_released, none)))
    ⊎ ((x : ℕ) × (ys : List ℕ) × (r : Queue ℕ) × (held ≡ x ∷ ys)
        × (queue_pop two_released ≡ some (r, some x))
        × IsQueue r ys)
queue_pop-IsQueue_example = queue_pop-IsQueue two_released held two_released-IsQueue

get-entries_example : get sample near_key ≡ find near_key (entries sample)
get-entries_example = get-entries sample near_key sample-IsTrie

prefix_root-IsPrefixRoot_example :
    (u : Root ℕ) × (prefix_root sample near_key 3 ≡ some u) × IsPrefixRoot sample near_key 192 u
prefix_root-IsPrefixRoot_example =
    prefix_root-IsPrefixRoot sample near_key 3 sample-IsTrie near_key-IsKey (omega arith)

abbrev three_writes : List (Write ℕ)
three_writes = (near_key, none) ∷ (first_key, some 10) ∷ (near_key, some 25) ∷ []

coalesce_lem_example :
    IsDistinct (coalesce sample three_writes)
    × ((j : StoreKey)
        → first_write j (coalesce sample three_writes)
          ≡ changed (get sample j) (last_write j three_writes))
coalesce_lem_example = coalesce_lem sample three_writes

-- A page's array of three entries: the slots past them hold copies of the first one.
abbrev three_entries : PageEntries ℕ
three_entries = record { slots = 10 ∷ 20 ∷ 30 ∷ 10 ∷ 10 ∷ 10 ∷ 10 ∷ 10 ∷ []; len = 3 }

page_insert_lem_example :
    (d : PageEntries ℕ) × (page_insert three_entries 1 15 ≡ some d)
    × (length (d.slots) ≡ 8)
    × (d.len ≡ 4)
    × ((j : ℕ)
        → entry_at d j ≡ (
            if ltb j 1
            then entry_at three_entries j
            else if 1 == j
            then some 15
            else entry_at three_entries (j - 1)))
page_insert_lem_example = page_insert_lem three_entries 1 15 refl (omega arith) (omega arith)

page_remove_lem_example :
    (d : PageEntries ℕ) × (page_remove three_entries 1 ≡ some d)
    × (length (d.slots) ≡ 8)
    × (suc (d.len) ≡ 3)
    × ((j : ℕ)
        → entry_at d j
          ≡ (if ltb j 1 then entry_at three_entries j else entry_at three_entries (suc j)))
page_remove_lem_example = page_remove_lem three_entries 1 refl (omega arith) (omega arith)
