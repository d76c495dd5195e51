-- ===== src/Store/Release.antt =====
-- src/store.rs: the release queue is a stack, and no call of it fails.
use chrimp.Condition.Arena.{◌>>=◌}
use chrimp.Store.Queue.{
  Block, Queue, QueueState, block_pop, block_push, new_block, push_block, put, queue_push,
  release_capacity, state_push,
}
use chrimp.Prelude.{
  Bool-cases, List, Option, [], ap, arith, get_elem?, inl, inr, length, ltb, ltb→lt, none, refl,
  some, suc, sym, zero, ℕ, ◌++◌, ◌+◌, ◌<◌, ◌∙◌, ◌∷◌, ◌≡◌,
}
use chrimp.Map.{nat_key}

module _ {A : Type 0} where
  -- The slots hold a stack: its top in the slot of the highest index below its length.
  abbrev pub Holds : List (Option A) → List A → Type 0
  Holds ps [] = Unit {0}
  Holds ps (x ∷ xs) = (get_elem? ps (length xs) ≡ some (some x)) × Holds ps xs

  abbrev pub IsBlock : Block A → List A → Type 0
  IsBlock b xs = (length (b.pairs) ≡ release_capacity) × (b.len ≡ length xs) × Holds (b.pairs) xs

  -- The stack of a chain of blocks over the inline one: no block of the chain is empty.
  pub data Stack (inline : Block A) : List (Block A) → List A → Type 0 where
    bottom : (xs : List A) → IsBlock inline xs → Stack inline [] xs
    above :
        (b : Block A) (bs : List (Block A)) (x : A) (xs ys : List A)
        → IsBlock b (x ∷ xs)
        → Stack inline bs ys
        → Stack inline (b ∷ bs) (x ∷ (xs ++ ys))

  -- A queue holds a stack of pairs, and counts them.
  unfoldable pub IsQueue : Queue A → List A → Type 0
  IsQueue q xs = Stack (q.state.inline) (q.state.overflow) xs × (q.count ≡ length xs)

  put_lem :
      (i : ℕ) (o : Option A) (ps : List (Option A))
      → i < length ps
      → (qs : List (Option A)) × (put i o ps ≡ some qs)
        × (length qs ≡ length ps)
        × (get_elem? qs i ≡ some o)
        × ((j : ℕ) → j < i → get_elem? qs j ≡ get_elem? ps j)
  put_lem i o [] h = absurd (omega arith)
  put_lem zero o (p ∷ ps) h = (o ∷ ps, refl, refl, refl, λ j l. absurd (omega arith))
  put_lem (suc i) o (p ∷ ps) h =
      let (qs, e, n, f, g) = put_lem i o ps (omega arith) in
      (p ∷ qs, rw e refl, omega arith, f, before qs g)
    where
      before :
          (qs : List (Option A))
          → ((j : ℕ) → j < i → get_elem? qs j ≡ get_elem? ps j)
          → (j : ℕ) → j < suc i
          → get_elem? (p ∷ qs) j ≡ get_elem? (p ∷ ps) j
      before qs g zero l = refl
      before qs g (suc j) l = g j (omega arith)

  Holds-same :
      (ps qs : List (Option A)) (xs : List A)
      → ((j : ℕ) → j < length xs → get_elem? qs j ≡ get_elem? ps j)
      → Holds ps xs
      → Holds qs xs
  Holds-same ps qs [] g h = tt
  Holds-same ps qs (x ∷ xs) g h =
      (g (length xs) (omega arith) ∙ h.0, Holds-same ps qs xs (λ j l. g j (omega arith)) h.1)

  block_push_lem :
      (b : Block A) (x : A) (xs : List A)
      → IsBlock b xs
      → b.len < release_capacity
      → (d : Block A) × (block_push b x ≡ some d) × IsBlock d (x ∷ xs)
  unfolding block_push
  block_push_lem b x xs (n, l, h) m =
      let (qs, e, k, f, g) = put_lem (b.len) (some x) (b.pairs) (omega arith) in
      (
        record { pairs = qs; len = suc (b.len) },
        rw (e, block_push) refl,
        (
          k ∙ n,
          omega arith,
          (ap (get_elem? qs) (sym l) ∙ f, Holds-same (b.pairs) qs xs (λ j u. g j (omega arith)) h),
        ),
      )

  pub block_pop_lem :
      (b : Block A) (x : A) (xs : List A)
      → IsBlock b (x ∷ xs)
      → (d : Block A) × (block_pop b ≡ some (d, x)) × IsBlock d xs
  unfolding block_pop
  block_pop_lem b x xs (n, l, h) = go (b.len) l
    where
      within : (ps : List (Option A)) (i : ℕ) → get_elem? ps i ≡ some (some x) → i < length ps
      within [] i e = cc
      within (p ∷ ps) zero e = omega arith
      within (p ∷ ps) (suc i) e = omega (arith, within ps i e)

      go :
          (m : ℕ)
          → m ≡ suc (length xs)
          → (d : Block A) × (block_pop record { pairs = b.pairs; len = m } ≡ some (d, x))
            × IsBlock d xs
      go zero e = absurd (omega arith)
      go (suc m) e =
          let same : length xs ≡ m = omega arith in
          let there : get_elem? (b.pairs) m ≡ some (some x) =
            ap (get_elem? (b.pairs)) (sym same) ∙ h.0 in
          let (qs, f, k, a, g) = put_lem m none (b.pairs) (within (b.pairs) m there) in
          (
            record { pairs = qs; len = m },
            rw (there, f, block_pop) refl,
            (k ∙ n, sym same, Holds-same (b.pairs) qs xs (λ j u. g j (omega arith)) h.1),
          )

  -- A new block over the chain that a push makes.
  push_block_lem :
      (q : QueueState A) (x : A) (xs : List A)
      → Stack (q.inline) (q.overflow) xs
      → (s : QueueState A) × (push_block q x ≡ some s) × Stack (s.inline) (s.overflow) (x ∷ xs)
  unfolding push_block
  push_block_lem q x xs h =
      let (d, e, k) = block_push_lem new_block x [] (refl, refl, tt) (omega arith) in
      (
        record { inline = q.inline; overflow = d ∷ q.overflow },
        ap (λ r. r >>= λ b. some record { inline = q.inline; overflow = b ∷ q.overflow }) e,
        above d (q.overflow) x [] xs k h,
      )

  state_push_lem :
      (q : QueueState A) (x : A) (xs : List A)
      → Stack (q.inline) (q.overflow) xs
      → (s : QueueState A) × (state_push q x ≡ some s) × Stack (s.inline) (s.overflow) (x ∷ xs)
  unfolding state_push
  state_push_lem q x xs h = go (q.inline) (q.overflow) xs h
    where
      go :
          (c : Block A) (bs : List (Block A)) (xs : List A)
          → Stack c bs xs
          → (s : QueueState A) × (state_push record { inline = c; overflow = bs } x ≡ some s)
            × Stack (s.inline) (s.overflow) (x ∷ xs)
      go c bs zs (bottom xs k) = elim (Bool-cases (ltb (c.len) release_capacity)) [
        | inl t ↦
            let (d, e, m) = block_push_lem c x xs k (ltb→lt (c.len) release_capacity t) in
            (record { inline = d; overflow = [] }, rw (t, e, state_push) refl, bottom (x ∷ xs) m)
        | inr t ↦
            let (s, e, m) =
              push_block_lem record { inline = c; overflow = [] } x xs (bottom xs k) in
            (s, rw (t, state_push) e, m)
      ]
      go c bs zs (above b ds y xs ys k m) = elim (Bool-cases (ltb (b.len) release_capacity)) [
        | inl t ↦
            let (d, e, n) = block_push_lem b x (y ∷ xs) k (ltb→lt (b.len) release_capacity t) in
            (
              record { inline = c; overflow = d ∷ ds },
              rw (t, e, state_push) refl,
              above d ds x (y ∷ xs) ys n m,
            )
        | inr t ↦
            let (s, e, n) =
              push_block_lem record { inline = c; overflow = b ∷ ds } x (y ∷ (xs ++ ys))
                (above b ds y xs ys k m) in
            (s, rw (t, state_push) e, n)
      ]

  -- A push of a queue never fails, and puts the pair on top of the stack.
  pub queue_push-IsQueue :
      (q : Queue A) (x : A) (xs : List A)
      → IsQueue q xs
      → (r : Queue A) × (queue_push q x ≡ some r) × IsQueue r (x ∷ xs)
  unfolding queue_push IsQueue
  queue_push-IsQueue q x xs (h, n) =
      let (s, e, k) = state_push_lem (q.state) x xs h in
      (record { state = s; count = q.count + 1 }, rw (e, queue_push) refl, (k, omega arith))
