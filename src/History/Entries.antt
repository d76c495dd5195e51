-- ===== src/History/Entries.antt =====
-- src/history.rs: a read of the entries of a root.
use chrimp.History.Laws.{IsHistory, IsRecorded, IsRoot, support-some}
use chrimp.Store.Reads.{Keys-imp}
use chrimp.Store.Found.{AllPairs, AllPairs-imp, entries-AllPairs}
use chrimp.Store.Drain.{drain-range}
use chrimp.Store.Listing.{Keys-entries, entries, slice, slice_all}
use chrimp.Store.Cursor.{drain, exhausted, range}
use chrimp.Store.Turns.{nodes}
use chrimp.History.{
  Entry, History, condition_value, first_id, history_entries, history_key, id_key, last_id,
  or_false, read_entries, read_entry, support,
}
use chrimp.Prelude.{
  List, [], ap, arith, length, refl, some, subst, suc, sym, true, ℕ, ◌<◌, ◌^◌, ◌∙◌, ◌∷◌, ◌≡◌,
}
use chrimp.Map.{nat_key}
use chrimp.Condition.Handle.{Condition, condition_key, pair_key}
use chrimp.Store.Key.{StoreKey, key, key_less, words_less}
use chrimp.Store.Trie.{Root, get, in_range}

-- An entry has the support that the history gives its key.
abbrev pub AllSupports : History → Root Condition → List Entry → Type 0
AllSupports h t [] = Unit {0}
AllSupports h t (e ∷ es) = (support h t (e.entry_key) ≡ e.support_of) × AllSupports h t es

abbrev IsEntry : History → Root Condition → StoreKey → Condition → Type 0
IsEntry h t k c = IsRecorded h k × (get t k ≡ some c)

read_entry_lem :
    (h : History) (t : Root Condition) (k : StoreKey) (c : Condition)
    → IsHistory h
    → IsEntry h t k c
    → (e : Entry) × (read_entry h (k, c) ≡ some e) × (support h t (e.entry_key) ≡ e.support_of)
unfolding IsHistory IsRecorded read_entry
read_entry_lem h t (key id x y z) c (a, b, l) (((zx, zy, zz), (r, e)), f) =
    let there : get t (id_key id) ≡ some c = same_place x y z zx zy zz f in
    (
      record { entry_key = r.owner_key; support_of = c },
      rw (e, read_entry) refl,
      support-some h t (r.owner_key) id ((b id r e).1) ∙ ap or_false there,
    )
  where
    same_place :
        (x y z : ℕ)
        → x ≡ 0
        → y ≡ 0
        → z ≡ 0
        → get t (key id x y z) ≡ some c
        → get t (id_key id) ≡ some c
    same_place x y z zx zy zz f =
        subst (λ q. get t (key id q 0 0) ≡ some c) zx
          (subst (λ q. get t (key id x q 0) ≡ some c) zy
            (subst (λ q. get t (key id x y q) ≡ some c) zz f))

read_entries_lem :
    (h : History) (t : Root Condition) (xs : List (StoreKey × Condition))
    → IsHistory h
    → AllPairs (IsEntry h t) xs
    → (es : List Entry) × (read_entries h xs ≡ some es) × AllSupports h t es
unfolding read_entries
read_entries_lem h t [] a k = ([], refl, tt)
read_entries_lem h t ((q, c) ∷ xs) a (k, m) =
    let (e, f, s) = read_entry_lem h t q c a k in
    let (es, g, r) = read_entries_lem h t xs a m in (e ∷ es, rw (f, g, read_entries) refl, (s, r))

id_in_range :
    (h : History) (k : StoreKey) → IsHistory h → IsRecorded h k → in_range first_id last_id k ≡ true
unfolding IsHistory IsRecorded key_less words_less
id_in_range h (key id x y z) (a, b, l) ((zx, zy, zz), (r, e)) =
    let small : id < h.next_id = (b id r e).0 in
    subst (λ q. in_range first_id last_id (key id q y z) ≡ true) (sym zx)
      (subst (λ q. in_range first_id last_id (key id 0 q z) ≡ true) (sym zy)
        (subst (λ q. in_range first_id last_id (key id 0 0 q) ≡ true) (sym zz)
          (inside id (omega arith))))
  where
    inside : (i : ℕ) → i < 2 ^ 64 → in_range first_id last_id (id_key i) ≡ true
    inside i l = ground arith

-- A loop over `entries` of a root of the history reads every entry of the root, and then ends: each
-- has a record, so no read fails, and each comes with the support that its key has under the root.
pub read_entries-history_entries :
    (h : History) (t : Root Condition)
    → IsHistory h
    → IsRoot h t
    → (drain (suc (length (entries t))) (suc (nodes t)) (history_entries t)
        ≡ (entries t, exhausted))
      × ((es : List Entry) × (read_entries h (entries t) ≡ some es) × AllSupports h t es)
unfolding history_entries IsRoot
read_entries-history_entries h t a (b, c) =
    let all : slice first_id last_id (entries t) ≡ entries t =
      slice_all first_id last_id (entries t) (
        Keys-entries (λ k. in_range first_id last_id k ≡ true) t
          (Keys-imp (IsRecorded h) (λ k. in_range first_id last_id k ≡ true) t
            (λ k r. id_in_range h k a r) c)) in
    (
      subst
          (λ xs.
            drain (suc (length xs)) (suc (nodes t)) (range t first_id last_id) ≡ (xs, exhausted))
          all (drain-range t first_id last_id b),
      read_entries_lem h t (entries t) a (
          AllPairs-imp (IsRecorded h) (λ k c. get t k ≡ some c) (IsEntry h t) (entries t)
            (λ k c r e. (r, e)) (Keys-entries (IsRecorded h) t c) (entries-AllPairs t b)),
    )
