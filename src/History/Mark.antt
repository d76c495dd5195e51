-- ===== src/History/Mark.antt =====
-- src/history.rs: the marks of records.
use chrimp.History.Laws.{IsHistory}
use chrimp.History.{
  History, HistoryKey, HistoryRecord, condition_value, history_key, mark_tick, support,
}
use chrimp.Prelude.{
  ==_iff, Bool-cases, ap, if◌then◌else◌, inl, inr, refl, some, some-injective, subst, sym, ℕ, ◌<◌,
  ◌==◌, ◌∙◌, ◌≡◌,
}
use chrimp.Map.{insert, lookup, lookup-insert, nat_key}
use chrimp.Condition.Handle.{Condition, condition_key, pair_key}
use chrimp.Store.Trie.{Root}

abbrev pub marked_as : History → ℕ → HistoryRecord → History
marked_as h id r = record {
  ids = h.ids;
  records = insert id record { owner_key = r.owner_key; marked = h.epoch } (h.records);
  next_id = h.next_id;
  epoch = h.epoch;
  frozen = h.frozen;
}

pub marked_records :
    (h : History) (id : ℕ) (r : HistoryRecord) (i : ℕ)
    → lookup i (insert id record { owner_key = r.owner_key; marked = h.epoch } (h.records)) ≡ (
        if id == i
        then some record { owner_key = r.owner_key; marked = h.epoch }
        else lookup i (h.records))
marked_records h id r i =
    lookup-insert i id record { owner_key = r.owner_key; marked = h.epoch } (h.records)

marked_as-IsHistory :
    (h : History) (id : ℕ) (r : HistoryRecord)
    → IsHistory h
    → lookup id (h.records) ≡ some r
    → IsHistory (marked_as h id r)
unfolding IsHistory
marked_as-IsHistory h id r (a, b, l) e = (known, recorded, l)
  where
    known :
        (k : HistoryKey) (i : ℕ)
        → lookup k (h.ids) ≡ some i
        → (q : HistoryRecord) × (lookup i
              (insert id record { owner_key = r.owner_key; marked = h.epoch } (h.records))
            ≡ some q)
          × (q.owner_key ≡ k)
    known k i f =
        let (q, u, v) = a k i f in
        elim (Bool-cases (id == i)) [
          | inl x ↦
              let s : r ≡ q =
                some-injective _ _
                  (sym e ∙ ap (λ n. lookup n (h.records)) ((==_iff id i).0 x) ∙ u) in
              (
                record { owner_key = r.owner_key; marked = h.epoch },
                marked_records h id r i ∙ rw x refl,
                ap (λ z. z.owner_key) s ∙ v,
              )
          | inr x ↦ (q, marked_records h id r i ∙ rw x u, v)
        ]

    recorded :
        (i : ℕ) (q : HistoryRecord)
        → lookup i (insert id record { owner_key = r.owner_key; marked = h.epoch } (h.records))
          ≡ some q
        → (i < h.next_id) × (lookup (q.owner_key) (h.ids) ≡ some i)
    recorded i q f = elim (Bool-cases (id == i)) [
      | inl x ↦
          let s : record { owner_key = r.owner_key; marked = h.epoch } ≡ q =
            some-injective _ _ (sym (marked_records h id r i ∙ rw x refl) ∙ f) in
          let (u, v) = b id r e in
          (
            subst (λ n. n < h.next_id) ((==_iff id i).0 x) u,
            ap (λ z. lookup (z.owner_key) (h.ids)) (sym s) ∙ v ∙ ap some ((==_iff id i).0 x),
          )
      | inr x ↦ b i q (sym (marked_records h id r i ∙ rw x refl) ∙ f)
    ]

-- The mark of an identity with a record never fails. It changes the mark of that record and no other
-- record, the history stays well formed, and under every root every key keeps its support.
pub mark_tick-IsHistory :
    (h : History) (id : ℕ) (r : HistoryRecord)
    → IsHistory h
    → lookup id (h.records) ≡ some r
    → (g : History) × (mark_tick h id ≡ some g)
      × (IsHistory g
          × ((i : ℕ)
              → lookup i (g.records) ≡ (
                  if id == i
                  then some record { owner_key = r.owner_key; marked = h.epoch }
                  else lookup i (h.records)))
          × ((t : Root Condition) (j : HistoryKey) → support g t j ≡ support h t j))
unfolding mark_tick support
mark_tick-IsHistory h id r a e = (
  marked_as h id r,
  rw (e, mark_tick) refl,
  (marked_as-IsHistory h id r a e, (λ i. marked_records h id r i), λ t j. refl),
)
