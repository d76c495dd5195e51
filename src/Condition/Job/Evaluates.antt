-- ===== src/Condition/Job/Evaluates.antt =====
-- src/condition.rs: the frames of a job evaluate a conjunction, whatever frames lie below.
use chrimp.Prelude.{
  Bool-cases, List, [], ap, arith, inl, inr, none, refl, some, subst, ℕ, ◌∙◌, ◌≡◌, ◌≢◌, ◌⊎◌,
}
use chrimp.Map.{Map, insert, lookup, lookup-insert, nat_key}
use chrimp.Condition.Handle.{
  Condition, Pair, condition_key, less, negate, ordered, pair_key, same_pair, same_pair_iff, simple,
}
use chrimp.Condition.Key.{node_key}
use chrimp.Condition.Arena.{Arena, remember}
use chrimp.Condition.Meaning.{Extends-refl, Value}
use chrimp.Condition.Cache.{IsQueue, remember_lem}
use chrimp.Condition.Valid.{
  Above, Grows, IsConjunction, IsConjunction-grow, IsReduced-grow, IsValid,
}
use chrimp.Condition.Job.{Job}
use chrimp.Condition.Job.Outcome.{Steady}

-- Every finished subproblem of the job is a conjunction of the arena.
abbrev pub IsMemo : Arena → Map Pair Condition → Type 0
IsMemo a memo = (p : Pair) (c : Condition) → lookup p memo ≡ some c → IsConjunction a p c

pub IsMemo-insert :
    (a : Arena) (memo : Map Pair Condition) (p : Pair) (c : Condition)
    → IsMemo a memo
    → IsConjunction a p c
    → IsMemo a (insert p c memo)
IsMemo-insert a memo p c h new q d e = elim (Bool-cases (same_pair p q)) [
  | inl eq ↦
      let s : c ≡ d = ground (arith, lookup-insert q p c memo) in
      subst (λ x. IsConjunction a x d) ((same_pair_iff p q).0 eq) (subst (IsConjunction a p) s new)
  | inr ne ↦ h q d (ground (arith, lookup-insert q p c memo))
]

pub IsMemo-empty : (a : Arena) → IsMemo a []
unfolding lookup
IsMemo-empty a p c f = cc

pub IsMemo-grow :
    (a b : Arena) (memo : Map Pair Condition)
    → IsValid a
    → Grows a b
    → IsMemo a memo
    → IsMemo b memo
IsMemo-grow a b memo valid g h p c e = IsConjunction-grow valid g (h p c e)

-- The state after a conjunction has been evaluated.
pub record Evaluated (a b : Arena) (base : Job) (p : Pair) (c : Condition)
    (memo : Map Pair Condition) : Type 0 where
  pub valid : IsValid b
  pub grows : Grows a b
  pub steady : Steady b base
  pub choices : b.next_choice ≡ a.next_choice
  pub remembered : IsMemo b memo
  pub conjunction : IsConjunction b p c

-- The arena with another cache.
abbrev pub recached : Arena → Map Pair Condition → List Pair → Arena
recached a cache queue = record a { cache = cache; cache_order = queue }

recached-Grows :
    (a : Arena) (cache : Map Pair Condition) (queue : List Pair) → Grows a (recached a cache queue)
recached-Grows a cache queue = record {
  owner = refl;
  nodes = Extends-refl a.nodes;
  ranks = λ k r h. h;
  choices = omega arith;
}

recached-IsValid :
    (a : Arena) (cache : Map Pair Condition) (queue : List Pair)
    → IsValid a
    → IsQueue cache queue
    → IsMemo a cache
    → IsValid (recached a cache queue)
recached-IsValid a cache queue valid q sound = record {
  owned = valid.owned;
  serial = valid.serial;
  reduced = λ id n h. IsReduced-grow (recached-Grows a cache queue) (valid.reduced id n h);
  unique_sound = valid.unique_sound;
  unique_complete = valid.unique_complete;
  rank_lt = valid.rank_lt;
  choice_lt = valid.choice_lt;
  rank_injective = valid.rank_injective;
  queue = q;
  cache_sound = λ p r h. IsConjunction-grow valid (recached-Grows a cache queue) (sound p r h);
}

-- To remember a conjunction keeps the arena valid and all but its cache.
pub remember-IsValid :
    (a : Arena) (p : Pair) (c : Condition)
    → IsValid a
    → IsConjunction a p c
    → (cache : Map Pair Condition) × (queue : List Pair) × (remember a p c
        ≡ some (recached a cache queue))
      × IsValid (recached a cache queue)
      × Grows a (recached a cache queue)
remember-IsValid a p c valid new =
    let (b, e, r) = remember_lem a p c valid.queue in
    (
      b.cache,
      b.cache_order,
      e ∙ ap some r.rest,
      recached-IsValid a b.cache b.cache_order valid r.queue
          (λ q d h. sound b q d (r.entries q d h)),
      recached-Grows a b.cache b.cache_order,
    )
  where
    sound :
        (b : Arena) (q : Pair) (d : Condition)
        → (lookup q a.cache ≡ some d) ⊎ ((p ≡ q) × (c ≡ d))
        → IsConjunction a q d
    sound b q d (inl old) = valid.cache_sound q d old
    sound b q d (inr (e, f)) = subst (λ x. IsConjunction a x d) e (subst (IsConjunction a p) f new)

-- A conjunction of the operands in either order.
pub IsConjunction-ordered :
    (a : Arena) (p q c : Condition) → IsConjunction a (ordered p q) c → IsConjunction a (p, q) c
unfolding ordered
IsConjunction-ordered a p q c h = elim (Bool-cases (less q p)) [
  | inl lt ↦
      let h' : IsConjunction a (q, p) c = rw lt at h in
      record {
        left = h'.right;
        right = h'.left;
        bound = λ m x y. h'.bound m y x;
        value = λ σ x y v w. subst (λ z. Value a.nodes σ c z) (ground arith) (h'.value σ y x w v);
      }
  | inr ge ↦ rw ge at h
]

pub ordered-Above :
    (a : Arena) (r : ℕ) (p q : Condition)
    → Above a r p
    → Above a r q
    → Above a r (ordered p q).0 × Above a r (ordered p q).1
unfolding ordered
ordered-Above a r p q h k = elim (Bool-cases (less q p)) [
  | inl lt ↦ rw lt (k, h)
  | inr ge ↦ rw ge (h, k)
]

-- Two conditions on which no tick is spent: both terminal.
pub simple_terminals :
    (p q : Condition) → p.owner ≡ 0 → p.id ≡ 0 → q.owner ≡ 0 → q.id ≡ 0 → simple (p, q) ≢ none
unfolding simple negate
simple_terminals p q o i o' i' = ground arith
