-- ===== src/Store/Range.antt =====
-- src/store.rs: a range's cursor gives the entries of the range, each once and in order.
use chrimp.Store.Listing.{entries, page_list, slice, window}
use chrimp.Store.Cursor.{Cursor, after_run, exhausted, run_next, take_root, turn, yielded}
use chrimp.Store.Turns.{
  IsCursor, IsPage, Turned, Waiting, cursor_at, gives, left, nodes, remaining, spent,
  take_root-Turned, total, weight, window_none,
}
use chrimp.Prelude.{
  ==_iff, Bool-cases, List, [], ap, arith, false, get_elem?, if◌then◌else◌, inl, inr, length, ltb,
  refl, some, subst, suc, sym, true, zero, ℕ, ◌++◌, ◌+◌, ◌<◌, ◌==◌, ◌∙◌, ◌∷◌, ◌≡◌, ◌≤◌,
}
use chrimp.Map.{Map, nat_key}
use chrimp.Store.Key.{StoreKey, page_key}
use chrimp.Store.Trie.{Root, branch, empty, leaf, page}
use chrimp.Store.Shape.{IsTrie}

module _ {V : Type 0} where
  window_step :
      (i j : ℕ) (p : StoreKey) (es : Map ℕ V)
      → i < j
      → j ≤ length es
      → (t : ℕ) × (v : V) × (get_elem? es i ≡ some (t, v))
        × (window i j (page_list p es) ≡ (page_key p t, v) ∷ window (suc i) j (page_list p es))
  window_step i j p [] h l = absurd (omega arith)
  window_step i zero p (e ∷ es) h l = absurd (omega arith)
  window_step zero (suc j) p ((t, v) ∷ es) h l = (t, v, refl, refl)
  window_step (suc i) (suc j) p ((s, w) ∷ es) h l =
      let (t, v, x, y) = window_step i j p es (omega arith) (omega arith) in (t, v, x, y)

  run_next_end :
      (p : StoreKey) (es : Map ℕ V) (i j : ℕ)
      → (i == j) ≡ true
      → run_next record { root = page p es; position = i; end = j }
        ≡ (record { root = page p es; position = i; end = j }, exhausted)
  unfolding run_next
  run_next_end p es i j x = rw (x, run_next) refl

  run_next_entry :
      (p : StoreKey) (es : Map ℕ V) (i j t : ℕ) (v : V)
      → (i == j) ≡ false
      → get_elem? es i ≡ some (t, v)
      → run_next record { root = page p es; position = i; end = j }
        ≡ (record { root = page p es; position = suc i; end = j }, yielded (page_key p t, v))
  unfolding run_next
  run_next_entry p es i j t v x y = rw (x, y, run_next) refl

  run_turn :
      (p : StoreKey) (es : Map ℕ V) (i j : ℕ) (ts : List (Root V)) (low high : StoreKey) (n : ℕ)
      → (j == 0) ≡ false
      → IsTrie (page p es)
      → IsPage (page p es) i j
      → Waiting ts
      → Turned
          (window i j (page_list p es) ++ left low high ts)
          (total ts)
          (turn (cursor_at record { root = page p es; position = i; end = j } ts low high n))
  unfolding turn after_run IsCursor IsTrie remaining weight entries
  run_turn p es i j ts low high n e h k w = elim (Bool-cases (i == j)) [
    | inl x ↦
        rw (e, turn)
          (subst
            (λ q. Turned (window i j (page_list p es) ++ left low high ts) (total ts) (
              after_run (cursor_at record { root = page p es; position = i; end = j } ts low high n)
                q))
            (sym (run_next_end p es i j x))
            (subst
              (λ ys.
                Turned (ys ++ left low high ts) (total ts)
                  (take_root (cursor_at (spent i) ts low high n)))
              (sym (window_none i j (page_list p es) (same_place i j x)))
              (subst
                (λ m. Turned (left low high ts) m (take_root (cursor_at (spent i) ts low high n)))
                (omega arith) (take_root-Turned empty i ts low high n tt w))))
    | inr x ↦
        let (t, v, y, z) = window_step i j p es (before i j x k.0) k.1 in
        rw (e, turn)
          (subst
            (λ q. Turned (window i j (page_list p es) ++ left low high ts) (total ts) (
              after_run (cursor_at record { root = page p es; position = i; end = j } ts low high n)
                q))
            (sym (run_next_entry p es i j t v x y))
            (gives (page_key p t, v)
              (cursor_at record { root = page p es; position = suc i; end = j } ts low high n)
              (ap (λ ys. ys ++ left low high ts) z ∙ rw e refl) (h, rw e (before i j x k.0, k.1), w)
              (rw e (omega arith))))
  ]
    where
      same_place : (i j : ℕ) → (i == j) ≡ true → ltb i j ≡ false
      same_place i j x = ground arith

      before : (i j : ℕ) → (i == j) ≡ false → i ≤ j → i < j
      before i j x l = ground arith

  run_at :
      (t : Root V) (i j : ℕ) (ts : List (Root V)) (low high : StoreKey) (n : ℕ)
      → (j == 0) ≡ false
      → IsTrie t
      → IsPage t i j
      → Waiting ts
      → Turned
          (window i j (entries t) ++ left low high ts)
          (0 + total ts)
          (turn (cursor_at record { root = t; position = i; end = j } ts low high n))
  unfolding entries
  run_at empty i j ts low high n e h k w = absurd k
  run_at (leaf q v) i j ts low high n e h k w = absurd k
  run_at (branch m p b l r) i j ts low high n e h k w = absurd k
  run_at (page p es) i j ts low high n e h k w =
      subst
        (λ m.
          Turned (window i j (page_list p es) ++ left low high ts) m
            (turn (cursor_at record { root = page p es; position = i; end = j } ts low high n)))
        (omega arith) (run_turn p es i j ts low high n e h k w)

  idle_turn :
      (t : Root V) (i j : ℕ) (ts : List (Root V)) (low high : StoreKey) (n : ℕ)
      → (j == 0) ≡ true
      → IsTrie t
      → Waiting ts
      → Turned
          (slice low high (entries t) ++ left low high ts)
          (nodes t + total ts)
          (turn (cursor_at record { root = t; position = i; end = j } ts low high n))
  unfolding turn
  idle_turn t i j ts low high n e h w =
      subst
        (λ m.
          Turned (slice low high (entries t) ++ left low high ts) (nodes t + total ts)
            (turn (cursor_at record { root = t; position = i; end = m } ts low high n)))
        (sym ((==_iff j 0).0 e)) (take_root-Turned t i ts low high n h w)

  -- A turn gives the next entry, ends when none is left, or goes on with less to visit.
  pub turn-Turned : (c : Cursor V) → IsCursor c → Turned (remaining c) (weight c) (turn c)
  unfolding IsCursor remaining weight
  turn-Turned c h = go (c.current.root) (c.current.position) (c.current.end) (c.pending) h
    where
      go :
          (t : Root V) (i j : ℕ) (ts : List (Root V))
          → IsTrie t × (if j == 0 then Unit {0} else IsPage t i j) × Waiting ts
          → Turned
              ((if j == 0 then slice (c.low) (c.high) (entries t) else window i j (entries t))
                ++ left (c.low) (c.high) ts)
              ((if j == 0 then nodes t else 0) + total ts)
              (turn (
                cursor_at
                  record { root = t; position = i; end = j }
                  ts
                  (c.low)
                  (c.high)
                  (c.visits)))
      go t i j ts h = elim (Bool-cases (j == 0)) [
        | inl x ↦ rw x (idle_turn t i j ts (c.low) (c.high) (c.visits) x h.0 h.2)
        | inr x ↦ rw x (run_at t i j ts (c.low) (c.high) (c.visits) x h.0 (rw x at h.1) h.2)
      ]
