-- ===== src/History.antt =====
-- src/history.rs: the once-only support of rules applied to tuples of occurrences, `History` with
-- its index, a trie of the store. A panic is `none`.
pub mod Laws
pub mod Intern
pub mod Supports
pub mod Sweep
pub mod Mark
pub mod Collect
pub mod Order
pub mod SweepAll
pub mod Reached
pub mod Entries
mod Tests
use chrimp.Prelude.{
  Bool, List, Option, [], arith, false, if◌then◌else◌, ltb, none, refl, some, suc, true, zero, ℕ,
  ◌&&◌, ◌-◌, ◌==◌, ◌^◌, ◌||◌, ◌↔◌, ◌∷◌, ◌≡◌,
}
use chrimp.Map.{Key, Map, insert, lookup, nat_key, remove}
use chrimp.Condition.Handle.{
  Condition, condition_key, false_condition, less, pair_key, same, same_iff,
}
use chrimp.Condition.Arena.{checked_add_one, ◌>>=◌}
use chrimp.Store.Key.{StoreKey, key}
use chrimp.Store.Trie.{Root, Value, get, store_insert, store_remove}
use chrimp.Store.Cursor.{Cursor, next, range}
use chrimp.Trace.Cursor.{next_entry}

pub record HistoryKey : Type 0 where
  pub rule : ℕ
  pub heads : List ℕ

abbrev pub same_heads : List ℕ → List ℕ → Bool
same_heads [] [] = true
same_heads [] (y ∷ ys) = false
same_heads (x ∷ xs) [] = false
same_heads (x ∷ xs) (y ∷ ys) = x == y && same_heads xs ys

abbrev pub heads_less : List ℕ → List ℕ → Bool
heads_less xs [] = false
heads_less [] (y ∷ ys) = true
heads_less (x ∷ xs) (y ∷ ys) = ltb x y || (x == y && heads_less xs ys)

-- The derived `PartialEq` and `Ord`.
abbrev pub same_history_key : HistoryKey → HistoryKey → Bool
same_history_key j k = j.rule == k.rule && same_heads (j.heads) (k.heads)

abbrev pub history_key_less : HistoryKey → HistoryKey → Bool
history_key_less j k = ltb (j.rule) (k.rule) || (j.rule == k.rule && heads_less (j.heads) (k.heads))

same_heads_iff : (xs ys : List ℕ) → (same_heads xs ys ≡ true) ↔ (xs ≡ ys)
same_heads_iff [] [] = (λ h. refl, λ h. refl)
same_heads_iff [] (y ∷ ys) = (λ h. cc, λ h. cc)
same_heads_iff (x ∷ xs) [] = (λ h. cc, λ h. cc)
same_heads_iff (x ∷ xs) (y ∷ ys) =
    (λ h. ground (arith, same_heads_iff xs ys), λ h. ground (arith, same_heads_iff xs ys))

pub same_history_key_iff : (j k : HistoryKey) → (same_history_key j k ≡ true) ↔ (j ≡ k)
same_history_key_iff j k = (
  λ h. ground (arith, same_heads_iff (j.heads) (k.heads)),
  λ h. ground (arith, same_heads_iff (j.heads) (k.heads)),
)

instance abbrev pub history_key : Key HistoryKey
history_key = record {
  same = same_history_key;
  less = history_key_less;
  same_iff = same_history_key_iff;
}

instance abbrev pub condition_value : Value Condition
condition_value = record { same = same; same_iff = same_iff }

pub record HistoryRecord : Type 0 where
  pub owner_key : HistoryKey
  pub marked : ℕ

-- Of the index, a store, the flag is kept that a collection sets and its end clears; its roots are
-- tries, taken to be current ones of the index.
pub record History : Type 0 where
  pub ids : Map HistoryKey ℕ
  pub records : Map ℕ HistoryRecord
  pub next_id : ℕ
  pub epoch : ℕ
  pub frozen : Bool

abbrev pub id_key : ℕ → StoreKey
id_key id = key id 0 0 0

abbrev pub or_false : Option Condition → Condition
or_false none = false_condition
or_false (some c) = c

unfoldable pub support : History → Root Condition → HistoryKey → Condition
unfolding get
support h t k = elim (lookup k (h.ids)) [
  | none ↦ false_condition
  | some id ↦ or_false (get t (id_key id))
]

-- The end of `set_support`.
unfoldable pub write_support : Root Condition → ℕ → Condition → Root Condition
unfolding store_remove store_insert
write_support t id c =
    if same c false_condition then store_remove t (id_key id) else store_insert t (id_key id) c

-- A key that is not known yet: its record, under the next identity.
unfoldable pub intern_key : History → HistoryKey → Option (History × ℕ)
unfolding checked_add_one
intern_key h k = do
  next ← checked_add_one (h.next_id)
  some (
    record {
      ids = insert k (h.next_id) (h.ids);
      records = insert (h.next_id) record { owner_key = k; marked = 0 } (h.records);
      next_id = next;
      epoch = h.epoch;
      frozen = h.frozen;
    },
    h.next_id,
  )

-- `set_support` of a history that may change.
unfoldable pub put_support :
    History → Root Condition → HistoryKey → Condition → Option (History × Root Condition)
unfolding write_support intern_key
put_support h t k c = elim (lookup k (h.ids)) [
  | some id ↦ some (h, write_support t id c)
  | none ↦
      if same c false_condition
      then some (h, t)
      else (do (g, id) ← intern_key h k; some (g, write_support t id c))
]

-- It fails while a collection is on.
unfoldable pub set_support :
    History → Root Condition → HistoryKey → Condition → Option (History × Root Condition)
unfolding put_support
set_support h t k c = if h.frozen then none else put_support h t k c

pub record Entry : Type 0 where
  pub entry_key : HistoryKey
  pub support_of : Condition

-- `Entries::next`, of an entry that the cursor gave.
unfoldable pub read_entry : History → StoreKey × Condition → Option Entry
read_entry h (key id b c d, s) = elim (lookup id (h.records)) [
  | none ↦ none
  | some r ↦ some record { entry_key = r.owner_key; support_of = s }
]

unfoldable pub read_entries : History → List (StoreKey × Condition) → Option (List Entry)
unfolding read_entry
read_entries h [] = some []
read_entries h (x ∷ xs) = do e ← read_entry h x; es ← read_entries h xs; some (e ∷ es)

abbrev pub first_id : StoreKey
first_id = key 0 0 0 0

abbrev pub last_id : StoreKey
last_id = key (2 ^ 64 - 1) 0 0 0

-- `entries`: the cursor of all identities.
unfoldable pub history_entries : Root Condition → Cursor Condition
unfolding range
history_entries t = range t first_id last_id

-- `History::default`.
abbrev pub new_history : History
new_history = record { ids = []; records = []; next_id = 0; epoch = 0; frozen = false }

-- `collect`, which begins a collection: a new epoch, and the index's lease. The index's own epochs,
-- which fail too when they are used up, are left out.
unfoldable pub collect : History → Option History
unfolding checked_add_one
collect h = if h.frozen then none else (do
  next ← checked_add_one (h.epoch)
  some
      record { ids = h.ids; records = h.records; next_id = h.next_id; epoch = next; frozen = true })

-- The end of the collector, which drops its lease.
abbrev pub end_collection : History → History
end_collection h = record {
  ids = h.ids;
  records = h.records;
  next_id = h.next_id;
  epoch = h.epoch;
  frozen = false;
}

-- A turn of the sweep of `Collector::tick`, of a collector with the history's epoch, as it asserts:
-- the record after the last one swept goes, unless it is marked with the epoch. Gives the new place
-- of the sweep, or none at its end.
unfoldable pub sweep_tick : History → Option ℕ → History × Option ℕ
unfolding next_entry
sweep_tick h swept = elim (next_entry swept (h.records)) [
  | none ↦ (h, none)
  | some (id, r) ↦ (
    if r.marked == h.epoch then h else record {
      ids = remove (r.owner_key) (h.ids);
      records = remove id (h.records);
      next_id = h.next_id;
      epoch = h.epoch;
      frozen = h.frozen;
    },
    some id,
  )
]

-- The mark of the record of an entry that the index's collection gives.
unfoldable pub mark_tick : History → ℕ → Option History
mark_tick h id = elim (lookup id (h.records)) [
  | none ↦ none
  | some r ↦ some record {
    ids = h.ids;
    records = insert id record { owner_key = r.owner_key; marked = h.epoch } (h.records);
    next_id = h.next_id;
    epoch = h.epoch;
    frozen = h.frozen;
  }
]

-- The turns of the sweep to its end, as many as the fuel.
abbrev pub sweep_on : (History → Option ℕ → Option History) → History × Option ℕ → Option History
sweep_on loop (h, none) = some h
sweep_on loop (h, some id) = loop h (some id)

unfoldable pub sweep : ℕ → History → Option ℕ → Option History
unfolding sweep_tick
sweep zero h o = none
sweep (suc fuel) h o = sweep_on (sweep fuel) (sweep_tick h o)
