-- ===== src/Condition/Job/Outcome.antt =====
-- src/condition.rs: what a client gets that ticks a job until it completes.
use chrimp.Prelude.{List, Option, arith, false, none, refl, some, ℕ, ◌+◌, ◌^◌, ◌∙◌, ◌∷◌, ◌≡◌, ◌≤◌}
use chrimp.Map.{Map, nat_key}
use chrimp.Condition.Handle.{Condition, Pair, condition_key, pair_key}
use chrimp.Condition.Arena.{Arena}
use chrimp.Condition.Job.{
  Frame, Job, advance, complete, drop_lease, pending, refresh, result, settle, step, tick,
}

-- Ticked until it completes, the job gives a condition with `P` in the arena of that tick, or a tick
-- panics where the arena has no identity left for a node.
pub data Outcome (P : Arena → Condition → Type 0) : Arena → Job → Type 0 where
  done :
      {a b : Arena} {j k : Job} (c : Condition)
      → tick a j ≡ some (b, k, complete c)
      → P b c
      → Outcome P a j
  exhausted : {a : Arena} {j : Job} → tick a j ≡ none → 2 ^ 64 ≤ a.next_node + 1 → Outcome P a j
  more :
      {a : Arena} {j : Job} (b : Arena) (k : Job)
      → tick a j ≡ some (b, k, pending)
      → Outcome P b k
      → Outcome P a j

-- The job has its result already, or goes on.
abbrev pub Finish : (Arena → Condition → Type 0) → Arena → Job → Option Condition → Type 0
Finish P a j none = Outcome P a j
Finish P a j (some c) = P (drop_lease a j) c

abbrev pub Proceeds : (Arena → Condition → Type 0) → Arena → Job → Type 0
Proceeds P a j = Finish P a j (result j)

-- The job may be ticked: neither side is frozen, foreign, stale, discarded or restarting.
pub record Steady (a : Arena) (j : Job) : Type 0 where
  pub running : a.frozen ≡ false
  pub owner : j.owner ≡ a.owner
  pub epoch : j.epoch ≡ a.order_epoch
  pub settled : j.restarting ≡ false
  pub kept : j.discarding ≡ false

-- The job at a point of its evaluation.
abbrev pub at : Job → List Frame → Option Condition → Map Pair Condition → ℕ → Job
at base frames last memo work = record base {
  frames = frames;
  last = last;
  memo = memo;
  work = work;
}

-- A job with a frame left has no result.
pub result-frames :
    (base : Job) (f : Frame) (rest : List Frame) (last : Option Condition)
    (memo : Map Pair Condition) (work : ℕ)
    → result (at base (f ∷ rest) last memo work) ≡ none
unfolding result
result-frames base f rest last memo work = ground arith

tick-frames :
    (a : Arena) (base : Job) (f : Frame) (rest : List Frame) (last : Option Condition)
    (memo : Map Pair Condition) (work : ℕ)
    → Steady a base
    → tick a (at base (f ∷ rest) last memo work)
      ≡ advance a (at base (f ∷ rest) last memo work) (f ∷ rest)
unfolding tick refresh
tick-frames a base f rest last memo work steady = ground (
  arith,
  steady.running,
  steady.owner,
  steady.epoch,
  steady.settled,
  steady.kept,
  result-frames base f rest last memo work,
)

module _ (P : Arena → Condition → Type 0) where
  pub frames_Proceeds :
      (a : Arena) (base : Job) (f : Frame) (rest : List Frame) (last : Option Condition)
      (memo : Map Pair Condition) (work : ℕ)
      → Outcome P a (at base (f ∷ rest) last memo work)
      → Proceeds P a (at base (f ∷ rest) last memo work)
  frames_Proceeds a base f rest last memo work h = rw (result-frames base f rest last memo work) h

  advance_lem :
      (a b : Arena) (base k : Job) (f : Frame) (rest : List Frame) (last : Option Condition)
      (memo : Map Pair Condition) (work : ℕ) (o : Option Condition)
      → step a (at base rest last memo (work + 1)) f ≡ some (b, k)
      → result k ≡ o
      → advance a (at base (f ∷ rest) last memo work) (f ∷ rest)
        ≡ some (elim o [ none ↦ (b, k, pending) | some c ↦ settle b k c ])
  unfolding advance
  advance_lem a b base k f rest last memo work none h e = rw (h, e)
  advance_lem a b base k f rest last memo work (some c) h e = rw (h, e)

  -- One step of the evaluation, seen through the tick that makes it.
  pub step-Outcome :
      (a b : Arena) (base k : Job) (f : Frame) (rest : List Frame) (last : Option Condition)
      (memo : Map Pair Condition) (work : ℕ)
      → Steady a base
      → step a (at base rest last memo (work + 1)) f ≡ some (b, k)
      → Proceeds P b k
      → Outcome P a (at base (f ∷ rest) last memo work)
  step-Outcome a b base k f rest last memo work steady h next = go (result k) refl next
    where
      go :
          (o : Option Condition)
          → result k ≡ o
          → Finish P b k o
          → Outcome P a (at base (f ∷ rest) last memo work)
      go none e h' =
          more b k
            (tick-frames a base f rest last memo work steady
              ∙ advance_lem a b base k f rest last memo work none h e)
            h'
      go (some c) e h' =
          done c
            (tick-frames a base f rest last memo work steady
              ∙ advance_lem a b base k f rest last memo work (some c) h e)
            h'

  -- A step that panics for want of an identity.
  pub step_exhausted :
      (a : Arena) (base : Job) (f : Frame) (rest : List Frame) (last : Option Condition)
      (memo : Map Pair Condition) (work : ℕ)
      → Steady a base
      → step a (at base rest last memo (work + 1)) f ≡ none
      → 2 ^ 64 ≤ a.next_node + 1
      → Outcome P a (at base (f ∷ rest) last memo work)
  step_exhausted a base f rest last memo work steady h full =
      exhausted (tick-frames a base f rest last memo work steady ∙ fails) full
    where
      fails : advance a (at base (f ∷ rest) last memo work) (f ∷ rest) ≡ none
      fails = unfold advance in rw h
