-- ===== src/Store/Queue.antt =====
-- src/store.rs: the queue of children to release, `Block`, `QueueState` and `Queue`. What it holds
-- is of any type. The lock of `Queue` makes each of its calls one step, and a panic is `none`.
use chrimp.Condition.Arena.{◌>>=◌}
use chrimp.Prelude.{
  List, Option, [], get_elem?, if◌then◌else◌, ltb, none, some, suc, zero, ℕ, ◌+◌, ◌-◌, ◌==◌, ◌∷◌,
}
use chrimp.Map.{nat_key}

abbrev pub release_capacity : ℕ
release_capacity = 16

pub record Block (A : Type 0) : Type 0 where
  pub pairs : List (Option A)
  pub len : ℕ

-- The chain of overflow blocks, each one's `next` the one after it.
pub record QueueState (A : Type 0) : Type 0 where
  pub inline : Block A
  pub overflow : List (Block A)

pub record Queue (A : Type 0) : Type 0 where
  pub state : QueueState A
  pub count : ℕ

module _ {A : Type 0} where
  abbrev pub empty_pairs : ℕ → List (Option A)
  empty_pairs zero = []
  empty_pairs (suc n) = none ∷ empty_pairs n

  abbrev pub new_block : Block A
  new_block = record { pairs = empty_pairs release_capacity; len = 0 }

  -- `self.pairs[i] = o`.
  abbrev pub put : ℕ → Option A → List (Option A) → Option (List (Option A))
  put i o [] = none
  put zero o (x ∷ xs) = some (o ∷ xs)
  put (suc i) o (x ∷ xs) = do ys ← put i o xs; some (x ∷ ys)

  unfoldable pub block_push : Block A → A → Option (Block A)
  block_push b x = do
    ys ← put (b.len) (some x) (b.pairs)
    some record { pairs = ys; len = suc (b.len) }

  abbrev taken : Option (Option A) → Option A
  taken none = none
  taken (some o) = o

  unfoldable pub block_pop : Block A → Option (Block A × A)
  block_pop b = elim (b.len) [
    | zero ↦ none
    | suc n ↦ do
      x ← taken (get_elem? (b.pairs) n)
      ys ← put n none (b.pairs)
      some (record { pairs = ys; len = n }, x)
  ]

  -- A new block with one pair, before the chain.
  unfoldable pub push_block : QueueState A → A → Option (QueueState A)
  unfolding block_push
  push_block q x = do
    b ← block_push new_block x
    some record { inline = q.inline; overflow = b ∷ q.overflow }

  unfoldable pub state_push : QueueState A → A → Option (QueueState A)
  unfolding block_push push_block
  state_push q x = elim (q.overflow) [
    | b ∷ bs ↦
        if ltb (b.len) release_capacity
        then (do d ← block_push b x; some record { inline = q.inline; overflow = d ∷ bs })
        else push_block q x
    | [] ↦
        if ltb (q.inline.len) release_capacity
        then (do d ← block_push (q.inline) x; some record { inline = d; overflow = [] })
        else push_block q x
  ]

  unfoldable pub state_pop : QueueState A → Option (QueueState A × Option A)
  unfolding block_pop
  state_pop q = elim (q.overflow) [
    | b ∷ bs ↦ do
      (d, x) ← block_pop b
      some (record { inline = q.inline; overflow = if d.len == 0 then bs else d ∷ bs }, some x)
    | [] ↦
        if q.inline.len == 0
        then some (q, none)
        else (do (d, x) ← block_pop (q.inline); some (record { inline = d; overflow = [] }, some x))
  ]

  unfoldable pub queue_push : Queue A → A → Option (Queue A)
  unfolding state_push
  queue_push q x = do s ← state_push (q.state) x; some record { state = s; count = q.count + 1 }

  abbrev popped : Queue A → QueueState A × Option A → Queue A × Option A
  popped q (s, none) = (record { state = s; count = q.count }, none)
  popped q (s, some x) = (record { state = s; count = q.count - 1 }, some x)

  unfoldable pub queue_pop : Queue A → Option (Queue A × Option A)
  unfolding state_pop
  queue_pop q = do r ← state_pop (q.state); some (popped q r)

  abbrev pub new_queue : Queue A
  new_queue = record { state = record { inline = new_block; overflow = [] }; count = 0 }
