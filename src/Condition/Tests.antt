-- ===== src/Condition/Tests.antt =====
-- Runs of the arena and its jobs, and the theorems at concrete arenas.
use chrimp.Condition.Meaning.{Value, Value-unique}
use chrimp.Condition.Cache.{Remembers, remember_lem}
use chrimp.Condition.Make.{Makes, node-Makes}
use chrimp.Condition.Birth.{Births, Births-some, Born, fresh_choice-Births}
use chrimp.Condition.Canonical.{Condition_canonical}
use chrimp.Condition.Evaluate.{evaluate_lem}
use chrimp.Condition.Job.Outcome.{Outcome}
use chrimp.Condition.Job.{Job, and, direct, operands, or, plan, start}
use chrimp.Condition.Job.Complete.{IsResult, direct-IsResult, start-Outcome}
use chrimp.Prelude.{Bool, [], arith, false, none, refl, some, ℕ, ◌==◌, ◌∷◌, ◌≡◌}
use chrimp.Map.{insert, lookup, nat_key}
use chrimp.Condition.Handle.{
  Condition, condition_key, false_condition, is_terminal, negate, pair_key, simple, true_condition,
}
use chrimp.Condition.Key.{NodeKey, node_key}
use chrimp.Condition.Arena.{
  evaluate, Arena, ChoiceOrder, Node, allocate, checked_add_one, contains, fresh_choice, node,
  remember,
}
use chrimp.Condition.Slab.{NodeSlab, get, slab_allocate}
use chrimp.Condition.Blocks.{Allocates, IsSlab, slab_allocate-Allocates}
use chrimp.Condition.Valid.{Above, Above-grow, Above-negate, Above-weaken, IsValid, leaf}

abbrev empty_arena : Arena
empty_arena = record {
  owner = 1;
  nodes = [];
  unprotected = none;
  next_node = 0;
  unique = [];
  cache = [];
  cache_order = [];
  next_choice = 0;
  order = [];
  ranks = [];
  order_epoch = 0;
  order_readers = 0;
  frozen = false;
}

empty_arena-IsValid : IsValid empty_arena
unfolding lookup
empty_arena-IsValid = record {
  owned = λ e. omega arith;
  serial = λ id n h. cc;
  reduced = λ id n h. cc;
  unique_sound = λ key c h. cc;
  unique_complete = λ id n h. cc;
  rank_lt = λ k r h. cc h.1;
  choice_lt = λ k r h. cc h.1;
  rank_injective = λ j k r h h'. cc h.1;
  queue = record { listed = tt; queued = omega arith; limit = omega arith };
  cache_sound = λ p r h. cc;
}

abbrev choice_key : ℕ → NodeKey
choice_key k = record { choice = k; low = false_condition; high = true_condition }

abbrev choice_node : ℕ → Node
choice_node k = record {
  key = choice_key k;
  marked = 0;
  references = 0;
  references_epoch = 0;
  archived = 0;
  archive_references = 0;
  max_choice = k;
}

abbrev handle : ℕ → Condition
handle id = record { owner = 1; id = id; negative = false }

abbrev entry_of : ℕ → ChoiceOrder
entry_of k = record { rank = k; after = none; nodes = (k, tt) ∷ [] }

abbrev one_choice : Arena
one_choice = record empty_arena {
  nodes = (0, choice_node 0) ∷ [];
  next_node = 1;
  unique = (choice_key 0, handle 0) ∷ [];
  next_choice = 1;
  order = (0, entry_of 0) ∷ [];
  ranks = (0, 0) ∷ [];
}

abbrev two_choices : Arena
two_choices = record empty_arena {
  nodes = (0, choice_node 0) ∷ (1, choice_node 1) ∷ [];
  next_node = 2;
  unique = (choice_key 0, handle 0) ∷ (choice_key 1, handle 1) ∷ [];
  next_choice = 2;
  order = (0, entry_of 0) ∷ (1, entry_of 1) ∷ [];
  ranks = (0, 0) ∷ (1, 1) ∷ [];
}

first_birth : fresh_choice empty_arena ≡ some (one_choice, 0, handle 0)
unfolding fresh_choice checked_add_one node allocate lookup insert negate is_terminal
first_birth = refl

second_birth : fresh_choice one_choice ≡ some (two_choices, 1, handle 1)
unfolding fresh_choice checked_add_one node allocate lookup insert negate is_terminal
second_birth = refl

one_choice-Born : Born empty_arena one_choice (handle 0)
one_choice-Born =
    Births-some empty_arena one_choice 0 (handle 0) (fresh_choice empty_arena)
      (fresh_choice-Births empty_arena empty_arena-IsValid refl) first_birth

two_choices-Born : Born one_choice two_choices (handle 1)
two_choices-Born =
    Births-some one_choice two_choices 1 (handle 1) (fresh_choice one_choice)
      (fresh_choice-Births one_choice one_choice-Born.valid refl) second_birth

first-Above : Above two_choices 0 (handle 0)
first-Above = Above-grow two_choices-Born.grows one_choice-Born.above

second-Above : Above two_choices 0 (handle 1)
second-Above = Above-weaken (omega arith) two_choices-Born.above

fresh_choice-Births_example : Births one_choice (fresh_choice one_choice)
fresh_choice-Births_example = fresh_choice-Births one_choice one_choice-Born.valid refl

Condition_canonical_example : handle 0 ≡ handle 0
Condition_canonical_example =
    Condition_canonical two_choices (handle 0) (handle 0) two_choices-Born.valid first-Above
      first-Above (λ σ x y v w. Value-unique v w)

evaluate_lem_example :
    (v : Bool) × (evaluate 3 two_choices (handle 1) (λ k. k == 1) ≡ some v)
    × Value two_choices.nodes (λ k. k == 1) (handle 1) v
evaluate_lem_example =
    evaluate_lem two_choices (λ k. k == 1) (handle 1) two_choices-Born.valid second-Above

node-Makes_example :
    Makes two_choices 0 0 (handle 1) true_condition (node two_choices 0 (handle 1) true_condition)
node-Makes_example =
    node-Makes two_choices 0 0 (handle 1) true_condition two_choices-Born.valid
      (entry_of 0, unfold lookup in refl, refl) two_choices-Born.above (leaf refl refl)

remember_lem_example :
    (b : Arena) × (remember two_choices (handle 0, handle 1) false_condition ≡ some b)
    × Remembers two_choices b (handle 0, handle 1) false_condition
remember_lem_example =
    remember_lem two_choices (handle 0, handle 1) false_condition two_choices-Born.valid.queue

start-Outcome_example :
    (j : Job) × (start two_choices (or (handle 0) (handle 1)) ≡ some j)
    × Outcome (IsResult two_choices (or (handle 0) (handle 1))) two_choices j
start-Outcome_example =
    start-Outcome two_choices (or (handle 0) (handle 1)) two_choices-Born.valid refl first-Above
      second-Above

direct-IsResult_example :
    IsResult two_choices (and (handle 0) (negate (handle 0))) two_choices false_condition
direct-IsResult_example =
    direct-IsResult two_choices (and (handle 0) (negate (handle 0))) false_condition
      two_choices-Born.valid first-Above (Above-negate first-Above)
      (unfold direct operands plan contains is_terminal lookup simple in refl)

abbrev no_blocks : NodeSlab
no_blocks = record { blocks = []; first = none; last = none }

abbrev some_node : Node
some_node = record {
  key = record { choice = 0; low = false_condition; high = true_condition };
  marked = 0;
  references = 0;
  references_epoch = 0;
  archived = 0;
  archive_references = 0;
  max_choice = 0;
}

no_blocks-IsSlab : IsSlab no_blocks
unfolding IsSlab lookup
no_blocks-IsSlab = (λ k b h. cc, λ l h. cc)

slab_allocate-Allocates_example :
    Allocates no_blocks 11 some_node (slab_allocate no_blocks 11 some_node)
unfolding get lookup
slab_allocate-Allocates_example =
    slab_allocate-Allocates no_blocks 11 some_node no_blocks-IsSlab refl
