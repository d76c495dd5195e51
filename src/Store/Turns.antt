-- ===== src/Store/Turns.antt =====
-- src/store.rs: what a turn of a cursor's loop leaves to be read.
use chrimp.Store.Count.{slice_outside}
use chrimp.Store.Listing.{entries, page_list, slice, slice-append, window}
use chrimp.Store.Cursor.{Cursor, Outcome, PageRun, again, exhausted, take_root, visit, yielded}
use chrimp.Store.Places.{count_up_to-le, slice_page}
use chrimp.Prelude.{
  Bool, Bool-cases, List, [], ap, append_assoc, arith, false, if◌then◌else◌, inl, inr, length, ltb,
  not, refl, subst, suc, true, true≢false, zero, ℕ, ◌&&◌, ◌++◌, ◌+◌, ◌/◌, ◌<◌, ◌==◌, ◌||◌, ◌∙◌, ◌∷◌,
  ◌≡◌, ◌≤◌,
}
use chrimp.Map.{Map, nat_key}
use chrimp.Store.Key.{StoreKey, bounds, key_less, last_word}
use chrimp.Store.Trie.{
  Root, branch, count_below, count_up_to, empty, in_range, is_empty, leaf, page,
}
use chrimp.Store.Shape.{IsTrie}

module _ {V : Type 0} where
  abbrev pub nodes : Root V → ℕ
  nodes empty = 0
  nodes (leaf k v) = 1
  nodes (page p es) = 1
  nodes (branch n p b l r) = suc (nodes l + nodes r)

  abbrev pub total : List (Root V) → ℕ
  total [] = 0
  total (t ∷ ts) = nodes t + total ts

  abbrev pub left : StoreKey → StoreKey → List (Root V) → List (StoreKey × V)
  left low high [] = []
  left low high (t ∷ ts) = slice low high (entries t) ++ left low high ts

  abbrev pub run_left : StoreKey → StoreKey → PageRun V → List (StoreKey × V)
  run_left low high u =
      if u.end == 0
      then slice low high (entries (u.root))
      else window (u.position) (u.end) (entries (u.root))

  -- The entries that a cursor has still to give, in order.
  unfoldable pub remaining : Cursor V → List (StoreKey × V)
  remaining c = run_left (c.low) (c.high) (c.current) ++ left (c.low) (c.high) (c.pending)

  unfoldable pub weight : Cursor V → ℕ
  weight c = (if c.current.end == 0 then nodes (c.current.root) else 0) + total (c.pending)

  abbrev pub Waiting : List (Root V) → Type 0
  Waiting [] = Unit {0}
  Waiting (t ∷ ts) = ((is_empty t ≡ false) × IsTrie t) × Waiting ts

  abbrev pub IsPage : Root V → ℕ → ℕ → Type 0
  IsPage (page p es) position end = (position ≤ end) × (end ≤ length es)
  IsPage _ position end = ⊥

  -- A run is of a page, within its entries; the roots that wait are not empty.
  unfoldable pub IsCursor : Cursor V → Type 0
  IsCursor c =
      IsTrie (c.current.root)
      × (if c.current.end == 0
          then Unit {0}
          else IsPage (c.current.root) (c.current.position) (c.current.end))
      × Waiting (c.pending)

  pub data Turned (xs : List (StoreKey × V)) (w : ℕ) : Cursor V × Outcome V → Type 0 where
    gives :
        (x : StoreKey × V) (d : Cursor V)
        → xs ≡ x ∷ remaining d
        → IsCursor d
        → weight d ≤ w
        → Turned xs w (d, yielded x)
    ends : (d : Cursor V) → xs ≡ [] → Turned xs w (d, exhausted)
    goes : (d : Cursor V) → xs ≡ remaining d → IsCursor d → weight d < w → Turned xs w (d, again)

  pub window_none : (i j : ℕ) (xs : List (StoreKey × V)) → ltb i j ≡ false → window i j xs ≡ []
  window_none i j [] h = refl
  window_none i zero (x ∷ xs) h = refl
  window_none zero (suc j) (x ∷ xs) h = ground arith
  window_none (suc i) (suc j) (x ∷ xs) h = window_none i j xs (ground arith)

  abbrev pub cursor_at : PageRun V → List (Root V) → StoreKey → StoreKey → ℕ → Cursor V
  cursor_at u ts low high n = record {
    current = u;
    pending = ts;
    low = low;
    high = high;
    visits = n;
  }

  abbrev pub spent : ℕ → PageRun V
  spent q = record { root = empty; position = q; end = 0 }

  visit_page :
      (q : ℕ) (ts : List (Root V)) (low high : StoreKey) (n : ℕ) (p : StoreKey) (es : Map ℕ V)
      → IsTrie (page p es)
      → Waiting ts
      → Turned
          (slice low high (page_list p es) ++ left low high ts)
          (1 + total ts)
          (visit (cursor_at (spent q) ts low high n) (page p es))
  unfolding visit IsTrie IsCursor remaining weight entries
  visit_page q ts low high n p es h w =
      elim (Bool-cases (ltb (count_below p low es) (count_up_to p high es))) [
        | inl x ↦
            rw (x, visit)
              (goes _
                (ap (λ ys. ys ++ left low high ts)
                  (slice_page p low high (last_word p / 8) 0 es h.2
                    ∙ run (count_below p low es) (count_up_to p high es) (page_list p es) x))
                (
                  h,
                  inside (count_below p low es) (count_up_to p high es) x
                      (count_up_to-le p high es),
                  w,
                )
                (light (count_below p low es) (count_up_to p high es) x))
        | inr x ↦
            rw (x, visit)
              (goes _
                (ap (λ ys. ys ++ left low high ts)
                  (slice_page p low high (last_word p / 8) 0 es h.2
                    ∙ window_none (count_below p low es) (count_up_to p high es) (page_list p es)
                        x))
                (tt, tt, w) (omega arith))
      ]
    where
      run :
          (i j : ℕ) (ys : List (StoreKey × V))
          → ltb i j ≡ true
          → window i j ys ≡ (if j == 0 then slice low high ys else window i j ys)
      run i j ys x = ground arith

      inside :
          (i j : ℕ)
          → ltb i j ≡ true
          → j ≤ length es
          → if j == 0 then Unit {0} else (i ≤ j) × (j ≤ length es)
      inside i j x l = elim (Bool-cases (j == 0)) [
        | inl e ↦ rw e tt
        | inr e ↦ rw e (ground arith, l)
      ]

      light : (i j : ℕ) → ltb i j ≡ true → (if j == 0 then 1 else 0) + total ts < 1 + total ts
      light i j x = ground arith

  visit_branch :
      (q : ℕ) (ts : List (Root V)) (low high : StoreKey) (n m : ℕ) (p : StoreKey) (b : ℕ)
      (l r : Root V)
      → IsTrie (branch m p b l r)
      → Waiting ts
      → Turned
          (slice low high (entries (branch m p b l r)) ++ left low high ts)
          (nodes (branch m p b l r) + total ts)
          (visit (cursor_at (spent q) ts low high n) (branch m p b l r))
  unfolding visit IsTrie IsCursor remaining weight entries
  visit_branch q ts low high n m p b l r h w =
      elim (Bool-cases (not (key_less high (bounds p b).0) && not (key_less (bounds p b).1 low))) [
        | inl x ↦
            rw (x, visit)
              (goes _
                (ap (λ ys. ys ++ left low high ts) (slice-append low high (entries l) (entries r))
                  ∙ append_assoc (slice low high (entries l)) (slice low high (entries r))
                      (left low high ts))
                (h.5.0, tt, ((h.2.1, h.5.1), w)) (omega arith))
        | inr x ↦
            rw (x, visit)
              (goes _
                (ap (λ ys. ys ++ left low high ts)
                  (slice_outside m p b l r low high h (crossed _ _ x)))
                (tt, tt, w) (omega arith))
      ]
    where
      crossed : (a c : Bool) → (not a && not c) ≡ false → (a || c) ≡ true
      crossed a c x = ground arith

  visit-Turned :
      (q : ℕ) (ts : List (Root V)) (low high : StoreKey) (n : ℕ) (t : Root V)
      → is_empty t ≡ false
      → IsTrie t
      → Waiting ts
      → Turned
          (slice low high (entries t) ++ left low high ts)
          (nodes t + total ts)
          (visit (cursor_at (spent q) ts low high n) t)
  unfolding visit IsCursor remaining weight entries IsTrie
  visit-Turned q ts low high n empty e h w = absurd (true≢false e)
  visit-Turned q ts low high n (leaf k v) e h w = elim (Bool-cases (in_range low high k)) [
    | inl x ↦
        rw (x, visit)
          (gives (k, v) (cursor_at (spent q) ts low high n) refl (tt, tt, w) (omega arith))
    | inr x ↦
        rw (x, visit) (goes (cursor_at (spent q) ts low high n) refl (tt, tt, w) (omega arith))
  ]
  visit-Turned q ts low high n (page p es) e h w = visit_page q ts low high n p es h w
  visit-Turned q ts low high n (branch m p b l r) e h w = visit_branch q ts low high n m p b l r h w

  pub take_root-Turned :
      (t : Root V) (q : ℕ) (ts : List (Root V)) (low high : StoreKey) (n : ℕ)
      → IsTrie t
      → Waiting ts
      → Turned
          (slice low high (entries t) ++ left low high ts)
          (nodes t + total ts)
          (take_root (cursor_at record { root = t; position = q; end = 0 } ts low high n))
  unfolding take_root entries
  take_root-Turned empty q [] low high n h w = ends _ refl
  take_root-Turned empty q (t ∷ ts) low high n h w =
      subst
        (λ m.
          Turned (slice low high (entries t) ++ left low high ts) m
            (visit (cursor_at (spent q) ts low high (n + 1)) t))
        (omega arith) (visit-Turned q ts low high (n + 1) t w.0.0 w.0.1 w.1)
  take_root-Turned (leaf k v) q ts low high n h w =
      visit-Turned q ts low high (n + 1) (leaf k v) refl h w
  take_root-Turned (page p es) q ts low high n h w =
      visit-Turned q ts low high (n + 1) (page p es) refl h w
  take_root-Turned (branch m p b l r) q ts low high n h w =
      visit-Turned q ts low high (n + 1) (branch m p b l r) refl h w
