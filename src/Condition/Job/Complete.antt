-- ===== src/Condition/Job/Complete.antt =====
-- src/condition.rs: a started job completes with the condition that its operation asks for.
use chrimp.Condition.Job.Frames.{evaluate_frame}
use chrimp.Condition.Evaluate.{contains-Above}
use chrimp.Condition.Job.Evaluates.{Evaluated, IsConjunction-ordered, IsMemo-empty, ordered-Above}
use chrimp.Condition.Job.Simple.{simple_sound}
use chrimp.Prelude.{
  Bool, Bool-cases, Option, Option-cases, [], arith, false, if◌then◌else◌, inl, inr, none, not,
  refl, some, subst, true, ℕ, ◌&&◌, ◌||◌, ◌∙◌, ◌∷◌, ◌≡◌,
}
use chrimp.Map.{Map, nat_key}
use chrimp.Condition.Handle.{Condition, Pair, condition_key, negate, ordered, pair_key, simple}
use chrimp.Condition.Key.{node_key}
use chrimp.Condition.Arena.{Arena, cached, contains, edge}
use chrimp.Condition.Meaning.{Value, Value-negate}
use chrimp.Condition.Valid.{
  Above, Above-grow, Above-negate, Grows, Grows-refl, IsConjunction, IsValid,
}
use chrimp.Condition.Job.{
  Frame, Job, Operation, advance, and, complete, difference, direct, drain, drop_lease, is_some,
  operands, or, pending, plan, refresh, result, settle, start, tick,
}
use chrimp.Condition.Job.Outcome.{Finish, Outcome, Proceeds, Steady, at, done, more}

-- What an operation means.
abbrev pub left_of : Operation → Condition
left_of (and a b) = a
left_of (or a b) = a
left_of (difference a b) = a

abbrev pub right_of : Operation → Condition
right_of (and a b) = b
right_of (or a b) = b
right_of (difference a b) = b

abbrev pub op_value : Operation → Bool → Bool → Bool
op_value (and _ _) x y = x && y
op_value (or _ _) x y = x || y
op_value (difference _ _) x y = x && not y

-- The condition `c` of the arena `b`, grown from `a`, is the result of the operation.
pub record IsResult (a : Arena) (operation : Operation) (b : Arena) (c : Condition) : Type 0 where
  pub valid : IsValid b
  pub grows : Grows a b
  pub above : Above b 0 c
  pub value :
      (σ : ℕ → Bool) (x y : Bool)
      → Value b.nodes σ (left_of operation) x
      → Value b.nodes σ (right_of operation) y
      → Value b.nodes σ c (op_value operation x y)

module _ (P : Arena → Condition → Type 0) (a : Arena) (c : Condition) (work : ℕ) where
  result_last :
      (base : Job)
      → base.restarting ≡ false
      → base.discarding ≡ false
      → result (at base [] (some c) [] work) ≡ some (edge base.negative c)
  unfolding result
  result_last base e f = simp (e, f)

  result_memo :
      (base : Job) (entry : Pair × Condition) (memo : Map Pair Condition)
      → result (at base [] (some c) (entry ∷ memo) work) ≡ none
  unfolding result
  result_memo base entry memo = ground arith

  tick-drain :
      (base : Job) (entry : Pair × Condition) (memo : Map Pair Condition)
      → Steady a base
      → tick a (at base [] (some c) (entry ∷ memo) work)
        ≡ drain a (at base [] (some c) (entry ∷ memo) work)
  unfolding tick refresh advance
  tick-drain base entry memo steady = ground (
    arith,
    steady.running,
    steady.owner,
    steady.epoch,
    steady.settled,
    steady.kept,
    result_memo base entry memo,
  )

  drain_memo :
      (base : Job) (entry : Pair × Condition) (memo : Map Pair Condition) (o : Option Condition)
      → base.input ≡ none
      → result (at base [] (some c) memo work) ≡ o
      → drain a (at base [] (some c) (entry ∷ memo) work)
        ≡ some (elim o [
          | none ↦ (a, at base [] (some c) memo work, pending)
          | some d ↦ settle a (at base [] (some c) memo work) d
        ])
  unfolding drain result
  drain_memo base entry memo none e f = simp (e, f)
  drain_memo base entry memo (some d) e f = simp (e, f)

  -- With its input gone the job drops the entries of its memo one a tick, and completes.
  drained :
      (base : Job) (memo : Map Pair Condition)
      → Steady a base
      → base.input ≡ none
      → P (drop_lease a base) (edge base.negative c)
      → Proceeds P a (at base [] (some c) memo work)
  drained base [] steady gone h = rw (result_last base steady.settled steady.kept) h
  drained base (entry ∷ memo) steady gone h =
      rw (result_memo base entry memo)
        (go (result (at base [] (some c) memo work)) refl (drained base memo steady gone h))
    where
      go :
          (o : Option Condition)
          → result (at base [] (some c) memo work) ≡ o
          → Finish P a (at base [] (some c) memo work) o
          → Outcome P a (at base [] (some c) (entry ∷ memo) work)
      go none e h' =
          more a (at base [] (some c) memo work)
            (tick-drain base entry memo steady ∙ drain_memo base entry memo none gone e) h'
      go (some d) e h' =
          done d (tick-drain base entry memo steady ∙ drain_memo base entry memo (some d) gone e) h'

  drain_input :
      (base : Job) (entry : Pair × Condition) (memo : Map Pair Condition) (p : Pair)
      → base.input ≡ some p
      → drain a (at base [] (some c) (entry ∷ memo) work)
        ≡ some (a, at (record base { input = none }) [] (some c) (entry ∷ memo) work, pending)
  unfolding drain
  drain_input base entry memo p e = simp e

  -- A job whose last frame is gone completes.
  pub emptied :
      (base : Job) (memo : Map Pair Condition)
      → Steady a base
      → P (drop_lease a base) (edge base.negative c)
      → Proceeds P a (at base [] (some c) memo work)
  emptied base [] steady h = rw (result_last base steady.settled steady.kept) h
  emptied base (entry ∷ memo) steady h = elim (Option-cases base.input) [
    | inl gone ↦ drained base (entry ∷ memo) steady gone h
    | inr (p, e) ↦
        let base' : Job = record base { input = none } in
        let steady' : Steady a base' = record {
          running = steady.running;
          owner = steady.owner;
          epoch = steady.epoch;
          settled = steady.settled;
          kept = steady.kept;
        } in
        rw (result_memo base entry memo) (
          more a (at base' [] (some c) (entry ∷ memo) work)
            (tick-drain base entry memo steady ∙ drain_input base entry memo p e)
            (rw (result_memo base' entry memo) at (drained base' (entry ∷ memo) steady' refl h)))
  ]

contains_pair :
    (a : Arena) (u v : Condition)
    → Above a 0 u
    → Above a 0 v
    → (contains a (ordered u v).0 && contains a (ordered u v).1) ≡ true
contains_pair a u v h k =
    let (x, y) = ordered-Above a 0 u v h k in
    rw (contains-Above a 0 (ordered u v).0 x, contains-Above a 0 (ordered u v).1 y)

-- The conjunction that an operation plans, and its result from that.
module _ (a : Arena) where
  plan-Above :
      (operation : Operation)
      → Above a 0 (left_of operation)
      → Above a 0 (right_of operation)
      → Above a 0 (plan operation).0.0 × Above a 0 (plan operation).0.1
  unfolding plan
  plan-Above (and p q) h k = ordered-Above a 0 p q h k
  plan-Above (or p q) h k =
      ordered-Above a 0 (negate p) (negate q) (Above-negate h) (Above-negate k)
  plan-Above (difference p q) h k = ordered-Above a 0 p (negate q) h (Above-negate k)

  plan-IsResult :
      (b : Arena) (operation : Operation) (c : Condition)
      → IsValid b
      → Grows a b
      → Above b 0 (plan operation).0.0 × Above b 0 (plan operation).0.1
      → IsConjunction b (plan operation).0 c
      → IsResult a operation b (edge (plan operation).1 c)
  unfolding plan
  plan-IsResult b (and p q) c valid g (u, v) conj = record {
    valid = valid;
    grows = g;
    above = conj.bound 0 u v;
    value = λ σ x y h k. (IsConjunction-ordered b p q c conj).value σ x y h k;
  }
  plan-IsResult b (or p q) c valid g (u, v) conj = record {
    valid = valid;
    grows = g;
    above = Above-negate (conj.bound 0 u v);
    value = λ σ x y h k.
        subst (λ z. Value b.nodes σ (negate c) z) (de_morgan x y)
          (Value-negate (
            (IsConjunction-ordered b (negate p) (negate q) c conj).value σ (not x) (not y)
              (Value-negate h) (Value-negate k)));
  }
    where
      de_morgan : (x y : Bool) → not (not x && not y) ≡ (x || y)
      de_morgan x y = ground arith
  plan-IsResult b (difference p q) c valid g (u, v) conj = record {
    valid = valid;
    grows = g;
    above = conj.bound 0 u v;
    value = λ σ x y h k.
        (IsConjunction-ordered b p (negate q) c conj).value σ x (not y) h (Value-negate k);
  }

cached-IsConjunction :
    (a : Arena) (p : Pair) (c : Condition)
    → IsValid a
    → Above a 0 p.0
    → Above a 0 p.1
    → cached a p ≡ some c
    → IsConjunction a p c
unfolding cached
cached-IsConjunction a p c valid h k e = elim (Option-cases (simple p)) [
  | inl hard ↦ valid.cache_sound p c (rw (hard, cached) at e)
  | inr (d, f) ↦ simple_sound a valid p.0 p.1 c h k (f ∙ rw (f, cached) at e)
]

-- The job of a valid arena that may be ticked, for an operation on two of its conditions.
module _ (a : Arena) (operation : Operation) (valid : IsValid a) (running : a.frozen ≡ false)
    (h : Above a 0 (left_of operation)) (k : Above a 0 (right_of operation)) where
  abbrev job : Option Condition → Job
  job known = record {
    owner = a.owner;
    negative = (plan operation).1;
    input = if is_some known then none else some (plan operation).0;
    epoch = a.order_epoch;
    restarting = false;
    order_lease = false;
    frames = if is_some known then [] else Frame.evaluate (plan operation).0 ∷ [];
    last = known;
    memo = [];
    work = 0;
    discarding = false;
  }

  operands-plan : operands a operation ≡ some (plan operation)
  unfolding operands
  operands-plan =
      let (u, v) = plan-Above a operation h k in
      rw (contains-Above a 0 (plan operation).0.0 u, contains-Above a 0 (plan operation).0.1 v)

  start-job :
      (known : Option Condition)
      → cached a (plan operation).0 ≡ known
      → start a operation ≡ some (job known)
  unfolding start
  start-job known e = rw (operands-plan, e)

  direct-simple :
      (d : Condition)
      → simple (plan operation).0 ≡ some d
      → direct a operation ≡ some (some (edge (plan operation).1 d))
  unfolding direct
  direct-simple d f = rw (operands-plan, running, f)

  direct_hard : simple (plan operation).0 ≡ none → direct a operation ≡ some none
  unfolding direct
  direct_hard f = rw (operands-plan, running, f)

  steady : (known : Option Condition) → Steady a (job known)
  steady known = record {
    running = running;
    owner = refl;
    epoch = refl;
    settled = refl;
    kept = refl;
  }

  finished :
      (b : Arena) (known : Option Condition) (c : Condition) (memo : Map Pair Condition) (work : ℕ)
      → Evaluated a b (job known) (plan operation).0 c memo
      → Proceeds (IsResult a operation) b (at (job known) [] (some c) memo work)
  finished b known c memo work ev =
      let (u, v) = plan-Above a operation h k in
      emptied (IsResult a operation) b c work (job known) memo ev.steady (
        plan-IsResult a b operation c ev.valid ev.grows
          (Above-grow ev.grows u, Above-grow ev.grows v) ev.conjunction)

  started_Outcome :
      (known : Option Condition)
      → cached a (plan operation).0 ≡ known
      → Outcome (IsResult a operation) a (job known)
  started_Outcome none e =
      let (u, v) = plan-Above a operation h k in
      evaluate_frame (IsResult a operation) (job none) a.next_choice 0 a (plan operation).0 [] none
        [] 0 valid (steady none) (IsMemo-empty a) u v (omega arith)
        (λ b c memo work ev. finished b none c memo work ev)
  started_Outcome (some c) e =
      let (u, v) = plan-Above a operation h k in
      let conj = cached-IsConjunction a (plan operation).0 c valid u v e in
      done (edge (plan operation).1 c) (at_once c)
        (plan-IsResult a a operation c valid (Grows-refl a) (u, v) conj)
    where
      at_once :
          (c : Condition)
          → tick a (job (some c)) ≡ some (a, job (some c), complete (edge (plan operation).1 c))
      at_once c = unfold tick refresh result in ground (arith, running)

  -- On two conditions of a valid arena that is not frozen, `start` gives a job that, ticked until it
  -- completes, returns the condition of the operation's value in an arena that is valid still and
  -- has kept every earlier condition; a tick panics only where the node identities are used up.
  pub start-Outcome : (j : Job) × (start a operation ≡ some j) × Outcome (IsResult a operation) a j
  start-Outcome =
      let known = cached a (plan operation).0 in
      (job known, start-job known refl, started_Outcome known refl)

direct_frozen : (a : Arena) (operation : Operation) → a.frozen ≡ true → direct a operation ≡ none
unfolding direct
direct_frozen a operation frozen = elim (Option-cases (operands a operation)) [
  | inl e ↦ rw e
  | inr ((p, b), e) ↦ simp (e, frozen)
]

-- An answer that `direct` gives is the result of the operation, with the arena as it is.
pub direct-IsResult :
    (a : Arena) (operation : Operation) (c : Condition)
    → IsValid a
    → Above a 0 (left_of operation)
    → Above a 0 (right_of operation)
    → direct a operation ≡ some (some c)
    → IsResult a operation a c
direct-IsResult a operation c valid h k e = elim (Bool-cases a.frozen) [
  | inl frozen ↦ cc (direct_frozen a operation frozen)
  | inr running ↦ elim (Option-cases (simple (plan operation).0)) [
    | inl hard ↦ cc (direct_hard a operation valid running h k hard)
    | inr (d, f) ↦
        let (u, v) = plan-Above a operation h k in
        let s : edge (plan operation).1 d ≡ c =
          cc (direct-simple a operation valid running h k d f) in
        subst (IsResult a operation a) s (
          plan-IsResult a a operation d valid (Grows-refl a) (u, v)
            (simple_sound a valid (plan operation).0.0 (plan operation).0.1 d u v f))
  ]
]
