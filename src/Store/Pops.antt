-- ===== src/Store/Pops.antt =====
-- src/store.rs: a pop of the release queue.
use chrimp.Store.Queue.{Block, Queue, QueueState, queue_pop, state_pop}
use chrimp.Prelude.{
  Bool-cases, List, [], arith, false, inl, inr, length, none, refl, some, subst, suc, sym, true, ℕ,
  ◌++◌, ◌-◌, ◌==◌, ◌∷◌, ◌≡◌, ◌⊎◌,
}
use chrimp.Map.{nat_key}
use chrimp.Store.Release.{IsBlock, IsQueue, Stack, above, block_pop_lem, bottom}

module _ {A : Type 0} where
  -- The stack without its top, where it has one.
  abbrev pub Pops : QueueState A → List A → Type 0
  Pops q [] = state_pop q ≡ some (q, none)
  Pops q (x ∷ xs) =
      (s : QueueState A) × (state_pop q ≡ some (s, some x)) × Stack (s.inline) (s.overflow) xs

  empty_len : (d : Block A) (xs : List A) → IsBlock d xs → (d.len == 0) ≡ true → xs ≡ []
  empty_len d [] h e = refl
  empty_len d (x ∷ xs) h e = absurd (clash (d.len) (length xs) h.1 e)
    where
      clash : (m n : ℕ) → m ≡ suc n → (m == 0) ≡ true → ⊥
      clash m n h e = ground arith

  some_len :
      (d : Block A) (xs : List A)
      → IsBlock d xs
      → (d.len == 0) ≡ false
      → (x : A) × (ys : List A) × (xs ≡ x ∷ ys)
  some_len d [] h e = absurd (clash (d.len) h.1 e)
    where
      clash : (m : ℕ) → m ≡ 0 → (m == 0) ≡ false → ⊥
      clash m h e = ground arith
  some_len d (x ∷ xs) h e = (x, xs, refl)

  inline_pop :
      (c : Block A) (xs : List A) → IsBlock c xs → Pops record { inline = c; overflow = [] } xs
  unfolding state_pop
  inline_pop c [] h = rw (len_zero (c.len) h.1, state_pop) refl
    where
      len_zero : (m : ℕ) → m ≡ 0 → (m == 0) ≡ true
      len_zero m e = ground arith
  inline_pop c (x ∷ xs) h =
      let (d, e, k) = block_pop_lem c x xs h in
      (
        record { inline = d; overflow = [] },
        rw (len_suc (c.len) (length xs) h.1, e, state_pop) refl,
        bottom xs k,
      )
    where
      len_suc : (m n : ℕ) → m ≡ suc n → (m == 0) ≡ false
      len_suc m n e = ground arith

  state_pop_lem :
      (c : Block A) (bs : List (Block A)) (xs : List A)
      → Stack c bs xs
      → Pops record { inline = c; overflow = bs } xs
  unfolding state_pop
  state_pop_lem c bs zs (bottom xs k) = inline_pop c xs k
  state_pop_lem c bs zs (above b ds y xs ys k m) =
      let (d, e, n) = block_pop_lem b y xs k in
      elim (Bool-cases (d.len == 0)) [
        | inl t ↦ (
          record { inline = c; overflow = ds },
          rw (e, t, state_pop) refl,
          subst (λ vs. Stack c ds (vs ++ ys)) (sym (empty_len d xs n t)) m,
        )
        | inr t ↦
            let (x, vs, f) = some_len d xs n t in
            (
              record { inline = c; overflow = d ∷ ds },
              rw (e, t, state_pop) refl,
              subst (λ us. Stack c (d ∷ ds) (us ++ ys)) (sym f)
                  (above d ds x vs ys (subst (IsBlock d) f n) m),
            )
      ]

  -- A pop of a queue never fails: it takes the top off the stack, or finds the queue empty.
  pub queue_pop-IsQueue :
      (q : Queue A) (xs : List A)
      → IsQueue q xs
      → ((xs ≡ []) × (queue_pop q ≡ some (q, none)))
        ⊎ ((x : A) × (ys : List A) × (r : Queue A) × (xs ≡ x ∷ ys)
            × (queue_pop q ≡ some (r, some x))
            × IsQueue r ys)
  unfolding queue_pop IsQueue
  queue_pop-IsQueue q [] (h, n) =
      inl (refl, rw (state_pop_lem (q.state.inline) (q.state.overflow) [] h, queue_pop) refl)
  queue_pop-IsQueue q (x ∷ xs) (h, n) =
      let (s, e, k) = state_pop_lem (q.state.inline) (q.state.overflow) (x ∷ xs) h in
      inr (
        x,
        xs,
        record { state = s; count = q.count - 1 },
        refl,
        rw (e, queue_pop) refl,
        (k, omega arith),
      )
