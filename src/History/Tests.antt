-- ===== src/History/Tests.antt =====
-- The theorems of the history at histories of one key and of two.
use chrimp.History.Order.{IsOrdered}
use chrimp.History.Reached.{Reached, collect-IsHistory, created, support_set}
use chrimp.History.Collect.{Keeps}
use chrimp.History.SweepAll.{Removes, sweep_lem}
use chrimp.History.Mark.{mark_tick-IsHistory}
use chrimp.History.Laws.{IsHistory, IsRecorded, IsRoot}
use chrimp.History.Supports.{Supports, set_support-Supports}
use chrimp.History.Sweep.{IsKept, IsMarked, sweep_tick-keeps}
use chrimp.History.Entries.{AllSupports, read_entries-history_entries}
use chrimp.Store.Listing.{entries}
use chrimp.Store.Cursor.{drain, exhausted}
use chrimp.History.{
  Entry, History, HistoryKey, HistoryRecord, collect, condition_value, history_entries, history_key,
  id_key, intern_key, mark_tick, new_history, put_support, read_entries, same_history_key,
  same_history_key_iff, set_support, support, sweep, sweep_tick, write_support,
}
use chrimp.Store.Shape.{IsTrie, Keys}
use chrimp.Prelude.{
  ==_iff, Bool-cases, List, [], ap, arith, false, if◌then◌else◌, inl, inr, none, none≢some, refl,
  some, some-injective, sym, true, ℕ, ◌<◌, ◌==◌, ◌∙◌, ◌∷◌, ◌≡◌,
}
use chrimp.Map.{insert, lookup, nat_key}
use chrimp.Condition.Handle.{Condition, condition_key, pair_key, true_condition}
use chrimp.Store.Trie.{Root, empty, leaf, store_insert}

abbrev pair_fired : HistoryKey
pair_fired = record { rule = 2; heads = 7 ∷ 9 ∷ [] }

abbrev swapped_fired : HistoryKey
swapped_fired = record { rule = 2; heads = 9 ∷ 7 ∷ [] }

abbrev one_record : HistoryRecord
one_record = record { owner_key = pair_fired; marked = 0 }

abbrev one_history : History
one_history = record {
  ids = (pair_fired, 5) ∷ [];
  records = (5, one_record) ∷ [];
  next_id = 6;
  epoch = 1;
  frozen = false;
}

abbrev one_root : Root Condition
one_root = leaf (id_key 5) true_condition

one_history-IsHistory : IsHistory one_history
unfolding IsHistory lookup
one_history-IsHistory = (known, recorded, omega arith)
  where
    known :
        (k : HistoryKey) (id : ℕ)
        → (if same_history_key pair_fired k then some 5 else none) ≡ some id
        → (r : HistoryRecord) × ((if 5 == id then some one_record else none) ≡ some r)
          × (r.owner_key ≡ k)
    known k id e = elim (Bool-cases (same_history_key pair_fired k)) [
      | inl x ↦ (
        one_record,
        rw ((==_iff 5 id).1 (some-injective _ _ (sym (rw x refl) ∙ e))) refl,
        (same_history_key_iff pair_fired k).0 x,
      )
      | inr x ↦ absurd (none≢some id (rw x at e))
    ]

    recorded :
        (id : ℕ) (r : HistoryRecord)
        → (if 5 == id then some one_record else none) ≡ some r
        → (id < 6)
          × ((if same_history_key pair_fired (r.owner_key) then some 5 else none) ≡ some id)
    recorded id r e = elim (Bool-cases (5 == id)) [
      | inl x ↦
          let f : one_record ≡ r = some-injective _ _ (rw x at e) in
          (
            ground arith,
            ap (λ q. if same_history_key pair_fired (q.owner_key) then some 5 else none) (sym f)
                ∙ ap some ((==_iff 5 id).0 x),
          )
      | inr x ↦ absurd (none≢some r (rw x at e))
    ]

one_root-IsRoot : IsRoot one_history one_root
unfolding IsRoot IsRecorded IsTrie Keys lookup
one_root-IsRoot = (
  (omega arith, (omega arith, (omega arith, (omega arith, tt)))),
  ((refl, refl, refl), (one_record, refl)),
)

set_support-Supports_example :
    Supports one_history one_root swapped_fired true_condition
      (set_support one_history one_root swapped_fired true_condition)
set_support-Supports_example =
    set_support-Supports one_history one_root swapped_fired true_condition one_history-IsHistory
      one_root-IsRoot

-- A marked record and one that is not.
abbrev marked_record : HistoryRecord
marked_record = record { owner_key = pair_fired; marked = 1 }

abbrev old_record : HistoryRecord
old_record = record { owner_key = swapped_fired; marked = 0 }

abbrev two_history : History
two_history = record {
  ids = (pair_fired, 5) ∷ (swapped_fired, 6) ∷ [];
  records = (5, marked_record) ∷ (6, old_record) ∷ [];
  next_id = 7;
  epoch = 1;
  frozen = true;
}

two_history-IsHistory : IsHistory two_history
unfolding IsHistory lookup
two_history-IsHistory = (known, recorded, omega arith)
  where
    known :
        (k : HistoryKey) (id : ℕ)
        → (if same_history_key pair_fired k
            then some 5
            else if same_history_key swapped_fired k
            then some 6
            else none)
          ≡ some id
        → (r : HistoryRecord) × ((if 5 == id
              then some marked_record
              else if 6 == id
              then some old_record
              else none)
            ≡ some r)
          × (r.owner_key ≡ k)
    known k id e = elim (Bool-cases (same_history_key pair_fired k)) [
      | inl x ↦ (
        marked_record,
        rw ((==_iff 5 id).1 (some-injective _ _ (sym (rw x refl) ∙ e))) refl,
        (same_history_key_iff pair_fired k).0 x,
      )
      | inr x ↦ elim (Bool-cases (same_history_key swapped_fired k)) [
        | inl y ↦
            let six : 6 ≡ id = some-injective _ _ (rw (x, y) at e) in
            (old_record, rw (sym six) refl, (same_history_key_iff swapped_fired k).0 y)
        | inr y ↦ absurd (none≢some id (rw (x, y) at e))
      ]
    ]

    recorded :
        (id : ℕ) (r : HistoryRecord)
        → (if 5 == id then some marked_record else if 6 == id then some old_record else none)
          ≡ some r
        → (id < 7)
          × ((if same_history_key pair_fired (r.owner_key)
                then some 5
                else if same_history_key swapped_fired (r.owner_key)
                then some 6
                else none)
              ≡ some id)
    recorded id r e = elim (Bool-cases (5 == id)) [
      | inl x ↦
          let f : marked_record ≡ r = some-injective _ _ (rw x at e) in
          (
            ground arith,
            ap
                  (λ q.
                    if same_history_key pair_fired (q.owner_key)
                    then some 5
                    else if same_history_key swapped_fired (q.owner_key)
                    then some 6
                    else none)
                  (sym f)
                ∙ ap some ((==_iff 5 id).0 x),
          )
      | inr x ↦ elim (Bool-cases (6 == id)) [
        | inl y ↦
            let f : old_record ≡ r = some-injective _ _ (rw (x, y) at e) in
            (
              ground arith,
              ap
                    (λ q.
                      if same_history_key pair_fired (q.owner_key)
                      then some 5
                      else if same_history_key swapped_fired (q.owner_key)
                      then some 6
                      else none)
                    (sym f)
                  ∙ ap some ((==_iff 6 id).0 y),
            )
        | inr y ↦ absurd (none≢some r (rw (x, y) at e))
      ]
    ]

two_history-IsKept : IsKept two_history one_root
unfolding IsMarked IsTrie Keys lookup
two_history-IsKept = (
  (omega arith, (omega arith, (omega arith, (omega arith, tt)))),
  ((refl, refl, refl), (marked_record, refl, refl)),
)

sweep_tick-keeps_example :
    IsHistory (sweep_tick two_history (some 5)).0
    × IsKept (sweep_tick two_history (some 5)).0 one_root
    × ((j : HistoryKey)
        → support (sweep_tick two_history (some 5)).0 one_root j ≡ support two_history one_root j)
sweep_tick-keeps_example =
    sweep_tick-keeps two_history (some 5) one_root two_history-IsHistory two_history-IsKept

sweep_lem_example :
    (g : History) × (sweep 3 two_history none ≡ some g)
    × (Keeps two_history one_root g × Removes two_history g)
sweep_lem_example =
    sweep_lem two_history one_root two_history-IsHistory ((omega arith, tt), (tt, tt))
      two_history-IsKept

mark_tick-IsHistory_example :
    (g : History) × (mark_tick one_history 5 ≡ some g)
    × (IsHistory g
        × ((i : ℕ)
            → lookup i (g.records) ≡ (
                if 5 == i
                then some record { owner_key = pair_fired; marked = 1 }
                else lookup i (one_history.records)))
        × ((t : Root Condition) (j : HistoryKey) → support g t j ≡ support one_history t j))
unfolding lookup
mark_tick-IsHistory_example =
    mark_tick-IsHistory one_history 5 one_record one_history-IsHistory refl

read_entries-history_entries_example :
    (drain 2 2 (history_entries one_root) ≡ ((id_key 5, true_condition) ∷ [], exhausted))
    × ((es : List Entry) × (read_entries one_history ((id_key 5, true_condition) ∷ []) ≡ some es)
        × AllSupports one_history one_root es)
unfolding entries
read_entries-history_entries_example =
    read_entries-history_entries one_history one_root one_history-IsHistory one_root-IsRoot

-- A history of one key, as a new one becomes it, and its collection.
abbrev written_history : History
written_history = record {
  ids = (pair_fired, 0) ∷ [];
  records = (0, one_record) ∷ [];
  next_id = 1;
  epoch = 0;
  frozen = false;
}

abbrev begun_history : History
begun_history = record {
  ids = (pair_fired, 0) ∷ [];
  records = (0, one_record) ∷ [];
  next_id = 1;
  epoch = 1;
  frozen = true;
}

written_history-Reached : Reached written_history
unfolding set_support put_support intern_key write_support lookup insert store_insert IsRoot IsTrie
    Keys
written_history-Reached =
    support_set new_history written_history empty (leaf (id_key 0) true_condition) pair_fired
      true_condition created (tt, tt) refl

collect-IsHistory_example :
    IsHistory begun_history
    × (IsOrdered (begun_history.records)
        × ((id : ℕ) (r : HistoryRecord)
            → lookup id (begun_history.records) ≡ some r
            → (r.marked == begun_history.epoch) ≡ false))
unfolding collect
collect-IsHistory_example =
    collect-IsHistory written_history begun_history written_history-Reached refl
