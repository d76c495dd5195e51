-- ===== src/Condition/Job.antt =====
-- src/condition.rs: Boolean operations and the resumable job that evaluates one, a frame a tick,
-- while no reordering is under way. `none` is a panic of the code.
pub mod Simple
pub mod Split
pub mod Outcome
pub mod Evaluates
pub mod Frames
pub mod Complete
use chrimp.Map.{Map, insert, lookup, nat_key}
use chrimp.Condition.Handle.{Condition, Pair, condition_key, negate, ordered, pair_key, simple}
use chrimp.Prelude.{
  Bool, List, Option, [], false, if◌then◌else◌, none, not, some, true, ℕ, ◌&&◌, ◌+◌, ◌-◌, ◌==◌,
  ◌||◌, ◌∷◌,
}
use chrimp.Condition.Arena.{
  Arena, View, cached, choice, contains, edge, node, precedes, remember, terminal, view, ◌>>=◌,
}

pub data Operation : Type 0 where
  and or difference : Condition → Condition → Operation

pub data Progress : Type 0 where
  pending : Progress
  complete : Condition → Progress

pub data Frame : Type 0 where
  evaluate : Pair → Frame
  after_low : Pair → ℕ → Pair → Frame
  after_high : Pair → ℕ → Condition → Frame

-- The top of the stack of frames is the head of the list; `order_lease` tells whether the job holds
-- a lease, which counts among the arena's `order_readers`.
pub record Job : Type 0 where
  pub owner : ℕ
  pub negative : Bool
  pub input : Option Pair
  pub epoch : ℕ
  pub restarting : Bool
  pub order_lease : Bool
  pub frames : List Frame
  pub last : Option Condition
  pub memo : Map Pair Condition
  pub work : ℕ
  pub discarding : Bool

-- The operation as a conjunction, and whether its result is complemented.
unfoldable pub plan : Operation → Pair × Bool
unfolding ordered negate
plan (and a b) = (ordered a b, false)
plan (or a b) = (ordered (negate a) (negate b), true)
plan (difference a b) = (ordered a (negate b), false)

unfoldable pub operands : Arena → Operation → Option (Pair × Bool)
unfolding plan
operands a operation =
    let (pair, negative) = plan operation in
    if contains a pair.0 && contains a pair.1 then some (pair, negative) else none

-- `direct` panics on a frozen arena; its result is then an answer or nothing.
unfoldable pub direct : Arena → Operation → Option (Option Condition)
direct a operation = do
  (pair, negative) ← operands a operation
  if a.frozen
      then none
      else some (elim (simple pair) [ none ↦ none | some c ↦ some (edge negative c) ])

abbrev pub is_some : {A : Type 0} → Option A → Bool
is_some none = false
is_some (some x) = true

abbrev pub is_empty : {A : Type 0} → List A → Bool
is_empty [] = true
is_empty (x ∷ xs) = false

abbrev pub pop_first : {K V : Type 0} → Map K V → Map K V
pop_first [] = []
pop_first (entry ∷ m) = m

unfoldable pub start : Arena → Operation → Option Job
start a operation = do
  (pair, negative) ← operands a operation
  let known = cached a pair
  some (record {
    owner = a.owner;
    negative = negative;
    input = if is_some known then none else some pair;
    epoch = a.order_epoch;
    restarting = false;
    order_lease = false;
    frames = if is_some known then [] else evaluate pair ∷ [];
    last = known;
    memo = [];
    work = 0;
    discarding = false;
  })

unfoldable pub result : Job → Option Condition
result j =
    if not j.discarding && (not j.restarting && (is_empty j.frames && is_empty j.memo))
    then elim j.last [ none ↦ none | some c ↦ some (edge j.negative c) ]
    else none

-- The end of a lease.
abbrev pub drop_lease : Arena → Job → Arena
drop_lease a j = if j.order_lease then record a { order_readers = a.order_readers - 1 } else a

-- `discard_tick`, with the arena whose readers a dropped lease counts down.
unfoldable pub discard_tick : Arena → Job → Arena × Job × Bool
discard_tick a j =
    let memo = pop_first j.memo in
    (
      drop_lease a j,
      record j {
        discarding = true;
        order_lease = false;
        input = none;
        restarting = false;
        frames = [];
        last = none;
        memo = memo;
      },
      is_empty memo,
    )

-- `self.epoch != arena.order_epoch`: pending frames are dropped, and the job restarts.
unfoldable pub refresh : Arena → Job → Arena × Job
refresh a j =
    if j.epoch == a.order_epoch
    then (a, j)
    else if is_empty j.frames
    then (a, record j { epoch = a.order_epoch })
    else (
      (if j.order_lease then a else record a { order_readers = a.order_readers + 1 }),
      record j {
        epoch = a.order_epoch;
        frames = [];
        last = none;
        restarting = true;
        order_lease = true;
      },
    )

unfoldable pub restart : Arena → Job → Option (Arena × Job × Progress)
restart a j =
    if is_empty j.memo
    then (do
      pair ← j.input
      some (a, record j { frames = evaluate pair ∷ j.frames; restarting = false }, pending))
    else some (a, record j { memo = pop_first j.memo }, pending)

-- The end of a job that has its result.
abbrev pub settle : Arena → Job → Condition → Arena × Job × Progress
settle a j c =
    (drop_lease a j, record j { frames = []; input = none; order_lease = false }, complete c)

-- No frame is left: the input goes, then the memo, an entry a tick.
unfoldable pub drain : Arena → Job → Option (Arena × Job × Progress)
drain a j =
    if is_some j.input
    then some (a, record j { input = none }, pending)
    else let k : Job = record j { memo = pop_first j.memo } in
      some (elim (result k) [ none ↦ (a, k, pending) | some c ↦ settle a k c ])

unfoldable pub top_choice : Arena → View → View → Option ℕ
top_choice a (choice j _ _) (choice k _ _) = do
  first ← precedes a j k
  some (if first then j else k)
top_choice a (choice j _ _) (terminal _) = some j
top_choice a (terminal _) (choice k _ _) = some k
top_choice a (terminal _) (terminal _) = none

unfoldable pub split : ℕ → Condition → View → Pair
split k original (terminal _) = (original, original)
split k original (choice j low high) = if j == k then (low, high) else (original, original)

-- A frame `Evaluate` that is not answered at once: the cofactors are set up.
unfoldable pub expand : Arena → Job → Pair → Option (Arena × Job)
unfolding top_choice split ordered view precedes
expand a j pair = do
  x ← view a pair.0
  y ← view a pair.1
  k ← top_choice a x y
  let xs = split k pair.0 x
  let ys = split k pair.1 y
  some (
    a,
    record j {
      frames = evaluate (ordered xs.0 ys.0) ∷ after_low pair k (ordered xs.1 ys.1) ∷ j.frames;
      last = none;
    },
  )

abbrev pub or_else : Option Condition → Option Condition → Option Condition
or_else (some c) d = some c
or_else none d = d

-- The match on the popped frame; `j` has the frames below it.
unfoldable pub step : Arena → Job → Frame → Option (Arena × Job)
unfolding expand
step a j (evaluate pair) = elim (simple pair) [
  | some c ↦ some (a, record j { last = some c })
  | none ↦ elim (or_else (lookup pair j.memo) (lookup pair a.cache)) [
    | some c ↦ some (a, record j { memo = insert pair c j.memo; last = some c })
    | none ↦ expand a j pair
  ]
]
step a j (after_low pair k high) = do
  low ← j.last
  some (a, record j { frames = evaluate high ∷ after_high pair k low ∷ j.frames; last = none })
step a j (after_high pair k low) = do
  high ← j.last
  (b, c) ← node a k low high
  d ← remember b pair c
  some (d, record j { memo = insert pair c j.memo; last = some c })

-- A frame is taken from the stack and evaluated.
unfoldable pub advance : Arena → Job → List Frame → Option (Arena × Job × Progress)
advance a j [] = drain a j
advance a j (frame ∷ rest) = do
  (b, k) ← step a (record j { frames = rest; work = j.work + 1 }) frame
  some (elim (result k) [ none ↦ (b, k, pending) | some c ↦ settle b k c ])

unfoldable pub tick : Arena → Job → Option (Arena × Job × Progress)
unfolding refresh restart
tick a j =
    if j.discarding || (not (j.owner == a.owner) || a.frozen)
    then none
    else let (b, k) = refresh a j in
      if k.restarting
      then restart b k
      else elim (result k) [ some c ↦ some (b, k, complete c) | none ↦ advance b k k.frames ]
