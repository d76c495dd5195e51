-- ===== src/Store/Cursor.antt =====
-- src/store.rs: `Cursor` and the `PageRun` that it holds. The place in a page is a byte.
use chrimp.Prelude.{
  List, [], false, get_elem?, if◌then◌else◌, ltb, none, not, some, suc, true, zero, ℕ, ◌&&◌, ◌+◌,
  ◌==◌, ◌∷◌,
}
use chrimp.Map.{nat_key}
use chrimp.Store.Key.{StoreKey, bounds, key_less, page_key}
use chrimp.Store.Trie.{
  Root, branch, count_below, count_up_to, empty, in_range, is_empty, leaf, page,
}

pub record PageRun (V : Type 0) : Type 0 where
  pub root : Root V
  pub position : ℕ
  pub end : ℕ

-- A cursor's own root, which only owns the entries, is left out.
pub record Cursor (V : Type 0) : Type 0 where
  pub current : PageRun V
  pub pending : List (Root V)
  pub low : StoreKey
  pub high : StoreKey
  pub visits : ℕ

-- What a turn of the loop in `next` does: it returns an entry, it returns that none is left, it
-- goes round again, or it fails: at a page that is none, an entry out of range or an empty root.
pub data Outcome (V : Type 0) : Type 0 where
  yielded : StoreKey × V → Outcome V
  exhausted : Outcome V
  again : Outcome V
  failed : Outcome V

module _ {V : Type 0} where
  abbrev pub idle : Root V → PageRun V
  idle t = record { root = t; position = 0; end = 0 }

  abbrev pub move_to : Cursor V → PageRun V → Cursor V
  move_to c u = record {
    current = u;
    pending = c.pending;
    low = c.low;
    high = c.high;
    visits = c.visits;
  }

  -- `PageRun::next`, with the run after it.
  unfoldable pub run_next : PageRun V → PageRun V × Outcome V
  run_next u = elim (u.root) [
    | empty ↦ (u, failed)
    | leaf k v ↦ (u, failed)
    | branch n p b l r ↦ (u, failed)
    | page p es ↦ if u.position == u.end then (u, exhausted) else elim (get_elem? es (u.position)) [
      | none ↦ (u, failed)
      | some (tail, v) ↦ (
        record { root = u.root; position = suc (u.position); end = u.end },
        yielded (page_key p tail, v),
      )
    ]
  ]

  -- A turn at a root that was taken from the cursor.
  unfoldable pub visit : Cursor V → Root V → Cursor V × Outcome V
  unfolding bounds
  visit c empty = (c, failed)
  visit c (leaf k v) = if in_range (c.low) (c.high) k then (c, yielded (k, v)) else (c, again)
  visit c (page p es) =
      let position = count_below p (c.low) es in
      let end = count_up_to p (c.high) es in
      if ltb position end
      then (move_to c record { root = page p es; position = position; end = end }, again)
      else (c, again)
  visit c (branch n p b l r) =
      let (low, high) = bounds p b in
      if not (key_less (c.high) low) && not (key_less high (c.low))
      then (
        record {
          current = record { root = l; position = c.current.position; end = c.current.end };
          pending = r ∷ c.pending;
          low = c.low;
          high = c.high;
          visits = c.visits;
        },
        again,
      )
      else (c, again)

  abbrev pub visited : Cursor V → PageRun V → List (Root V) → Cursor V
  visited c u ts = record {
    current = u;
    pending = ts;
    low = c.low;
    high = c.high;
    visits = c.visits + 1;
  }

  -- The root is the current one, or else it is popped.
  unfoldable pub take_root : Cursor V → Cursor V × Outcome V
  unfolding visit
  take_root c = elim (is_empty (c.current.root)) [
    | true ↦ elim (c.pending) [ [] ↦ (c, exhausted) | t ∷ ts ↦ visit (visited c (c.current) ts) t ]
    | false ↦
        visit
          (visited c record { root = empty; position = c.current.position; end = c.current.end }
            (c.pending))
          (c.current.root)
  ]

  -- The rest of a turn after a run: at its end the turn takes a root.
  unfoldable pub after_run : Cursor V → PageRun V × Outcome V → Cursor V × Outcome V
  unfolding take_root
  after_run c (u, yielded x) = (move_to c u, yielded x)
  after_run c (u, exhausted) =
      take_root (move_to c record { root = empty; position = u.position; end = 0 })
  after_run c (u, again) = (move_to c u, failed)
  after_run c (u, failed) = (move_to c u, failed)

  -- One turn of the loop.
  unfoldable pub turn : Cursor V → Cursor V × Outcome V
  unfolding run_next after_run
  turn c = elim (c.current.end == 0) [
    | true ↦ take_root c
    | false ↦ after_run c (run_next (c.current))
  ]

  abbrev pub next_on :
      (Cursor V → Cursor V × Outcome V) → Cursor V × Outcome V → Cursor V × Outcome V
  next_on loop (d, again) = loop d
  next_on loop (d, yielded x) = (d, yielded x)
  next_on loop (d, exhausted) = (d, exhausted)
  next_on loop (d, failed) = (d, failed)

  -- `Cursor::next`: turns of the loop, as many as the fuel.
  unfoldable pub next : ℕ → Cursor V → Cursor V × Outcome V
  unfolding turn
  next zero c = (c, again)
  next (suc fuel) c = next_on (next fuel) (turn c)

  unfoldable pub range : Root V → StoreKey → StoreKey → Cursor V
  range t low high = record { current = idle t; pending = []; low = low; high = high; visits = 0 }

  abbrev pub drain_on :
      (Cursor V → List (StoreKey × V) × Outcome V)
      → Cursor V × Outcome V
      → List (StoreKey × V) × Outcome V
  drain_on loop (d, yielded x) = let (xs, last) = loop d in (x ∷ xs, last)
  drain_on loop (d, again) = ([], again)
  drain_on loop (d, exhausted) = ([], exhausted)
  drain_on loop (d, failed) = ([], failed)

  -- A `while let Some(x) = cursor.next(..)` loop: all entries, and how the loop ended.
  unfoldable pub drain : ℕ → ℕ → Cursor V → List (StoreKey × V) × Outcome V
  unfolding next
  drain zero turns c = ([], again)
  drain (suc fuel) turns c = drain_on (drain fuel turns) (next turns c)
