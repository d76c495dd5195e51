-- ===== src/Store/Drain.antt =====
-- src/store.rs: a whole read of a range.
use chrimp.Store.Listing.{entries, slice}
use chrimp.Store.Cursor.{
  Cursor, Outcome, drain, drain_on, exhausted, next, next_on, range, turn, yielded,
}
use chrimp.Store.Turns.{IsCursor, Turned, ends, gives, goes, nodes, remaining, weight}
use chrimp.Store.Range.{turn-Turned}
use chrimp.Prelude.{
  List, [], ap, append-nil, arith, length, subst, suc, sym, zero, ℕ, ◌<◌, ◌∙◌, ◌∷◌, ◌≡◌, ◌≤◌,
}
use chrimp.Map.{nat_key}
use chrimp.Store.Key.{StoreKey}
use chrimp.Store.Trie.{Root}
use chrimp.Store.Shape.{IsTrie}

module _ {V : Type 0} where
  data Found (xs : List (StoreKey × V)) (w : ℕ) : Cursor V × Outcome V → Type 0 where
    first :
        (x : StoreKey × V) (d : Cursor V)
        → xs ≡ x ∷ remaining d
        → IsCursor d
        → weight d ≤ w
        → Found xs w (d, yielded x)
    nothing : (d : Cursor V) → xs ≡ [] → Found xs w (d, exhausted)

  wider :
      (xs ys : List (StoreKey × V)) (v w : ℕ) (r : Cursor V × Outcome V)
      → ys ≡ xs
      → v ≤ w
      → Found xs v r
      → Found ys w r
  wider xs ys v w r e l (first x d f h k) = first x d (e ∙ f) h (omega arith)
  wider xs ys v w r e l (nothing d f) = nothing d (e ∙ f)

  -- `next` gives the first entry that remains, or none if none remains.
  next-Found :
      (fuel : ℕ) (c : Cursor V)
      → IsCursor c
      → weight c < fuel
      → Found (remaining c) (weight c) (next fuel c)
  unfolding next
  next-Found zero c h l = absurd (omega arith)
  next-Found (suc fuel) c h l = cases (turn c) (turn-Turned c h) (λ d k m. next-Found fuel d k m)
    where
      cases :
          (r : Cursor V × Outcome V)
          → Turned (remaining c) (weight c) r
          → ((d : Cursor V)
              → IsCursor d
              → weight d < fuel
              → Found (remaining d) (weight d) (next fuel d))
          → Found (remaining c) (weight c) (next_on (next fuel) r)
      cases r (gives x d e k m) f = first x d e k m
      cases r (ends d e) f = nothing d e
      cases r (goes d e k m) f =
          wider (remaining d) (remaining c) (weight d) (weight c) (next fuel d) e (omega arith)
            (f d k (omega arith))

  -- A loop over the cursor reads all entries that remain, and ends since none is left.
  pub drain-remaining :
      (fuel turns : ℕ) (c : Cursor V)
      → IsCursor c
      → weight c < turns
      → length (remaining c) < fuel
      → drain fuel turns c ≡ (remaining c, exhausted)
  unfolding drain
  drain-remaining zero turns c h w l = absurd (omega arith)
  drain-remaining (suc fuel) turns c h w l =
      cases (next turns c) (next-Found turns c h w) (λ d k m n. drain-remaining fuel turns d k m n)
    where
      cases :
          (r : Cursor V × Outcome V)
          → Found (remaining c) (weight c) r
          → ((d : Cursor V)
              → IsCursor d
              → weight d < turns
              → length (remaining d) < fuel
              → drain fuel turns d ≡ (remaining d, exhausted))
          → drain_on (drain fuel turns) r ≡ (remaining c, exhausted)
      cases r (first x d e k m) f =
          let n : length (remaining c) ≡ suc (length (remaining d)) = ap length e in
          ap (λ q. (x ∷ q.0, q.1)) (f d k (omega arith) (omega arith))
          ∙ ap (λ ys. (ys, exhausted)) (sym e)
      cases r (nothing d e) f = ap (λ ys. (ys, exhausted)) (sym e)

  -- A loop over the cursor of a range reads the entries of the trie from `low` to `high`, all of
  -- them, each once and in the order of the trie, and then ends: no page is read out of its range
  -- and no empty root is visited. As many turns of the loop in `next` are enough as the trie has
  -- nodes and one more, and as many calls as there are entries and one more.
  pub drain-range :
      (t : Root V) (low high : StoreKey)
      → IsTrie t
      → drain (suc (length (slice low high (entries t)))) (suc (nodes t)) (range t low high)
        ≡ (slice low high (entries t), exhausted)
  unfolding range remaining weight IsCursor
  drain-range t low high h =
      drain-remaining (suc (length (slice low high (entries t)))) (suc (nodes t)) (range t low high)
        (h, tt, tt) (omega arith)
        (subst (λ ys. length ys < suc (length (slice low high (entries t))))
          (sym (append-nil (slice low high (entries t)))) (omega arith))
      ∙ ap (λ ys. (ys, exhausted)) (append-nil (slice low high (entries t)))
