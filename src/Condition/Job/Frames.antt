-- ===== src/Condition/Job/Frames.antt =====
-- src/condition.rs: a frame `Evaluate` and those it gives rise to end in the conjunction of its pair.
use chrimp.Condition.Job.Simple.{simple_sound}
use chrimp.Prelude.{
  Bool, List, Option, Option-cases, arith, false, if◌then◌else◌, inl, inr, none, refl, some, suc,
  sym, true, zero, ℕ, ◌&&◌, ◌+◌, ◌∙◌, ◌∷◌, ◌≡◌, ◌≤◌,
}
use chrimp.Map.{Map, insert, lookup, nat_key}
use chrimp.Condition.Handle.{Condition, Pair, condition_key, ordered, pair_key, simple}
use chrimp.Condition.Key.{node_key}
use chrimp.Condition.Arena.{Arena, node, remember}
use chrimp.Condition.Meaning.{Value, Value-extend}
use chrimp.Condition.Valid.{
  Above, Above-grow, Above-shrink, Above-weaken, Grows, Grows-refl, Grows-trans, IsConjunction,
  IsConjunction-grow, IsValid, Value-shrink, inner, leaf,
}
use chrimp.Condition.Make.{Made, Makes, exhausted, made, node-Makes}
use chrimp.Condition.Job.{Frame, Job, after_high, after_low, expand, or_else, step}
use chrimp.Condition.Job.Split.{Expands, expand_lem}
use chrimp.Condition.Job.Outcome.{
  Outcome, Proceeds, Steady, at, frames_Proceeds, step-Outcome, step_exhausted,
}
use chrimp.Condition.Job.Evaluates.{
  Evaluated, IsConjunction-ordered, IsMemo, IsMemo-grow, IsMemo-insert, ordered-Above, recached,
  remember-IsValid, simple_terminals,
}

-- The two conjunctions of the cofactors, joined by `node`.
joined :
    (a d e : Arena) (j : Job) (r : ℕ) (p q low high c : Condition) (o : Option (Arena × Job))
    (valid : IsValid a) (x : Expands a valid j r p q o)
    → Above a r p
    → Above a r q
    → IsValid d
    → Grows a d
    → IsConjunction d (x.xs.0, x.ys.0) low
    → IsConjunction d (x.xs.1, x.ys.1) high
    → Made d e x.k x.s low high c
    → IsConjunction e (p, q) c
joined a d e j r p q low high c o valid x h k valid' g left right m' = record {
  left = Above-grow g' (Above-weaken (omega arith) h);
  right = Above-grow g' (Above-weaken (omega arith) k);
  bound = λ m u v. Above-weaken (x.root m (back u h) (back v k)) m'.above;
  value = λ σ y z u v. m'.value σ (y && z) (
      branch σ (σ x.k) y z
        (Value-extend g'.nodes
          (x.left.value σ y (Value-shrink valid g' (Above-weaken (omega arith) h) u)))
        (Value-extend g'.nodes
          (x.right.value σ z (Value-shrink valid g' (Above-weaken (omega arith) k) v))));
}
  where
    g' : Grows a e
    g' = Grows-trans g m'.grows

    back : {m : ℕ} {t : Condition} → Above e m t → Above a r t → Above a m t
    back u h' = Above-shrink valid g' (Above-weaken (omega arith) h') u

    low_conj : IsConjunction e (x.xs.0, x.ys.0) low
    low_conj = IsConjunction-grow valid' m'.grows left

    high_conj : IsConjunction e (x.xs.1, x.ys.1) high
    high_conj = IsConjunction-grow valid' m'.grows right

    branch :
        (σ : ℕ → Bool) (b y z : Bool)
        → Value e.nodes σ (if b then x.xs.1 else x.xs.0) y
        → Value e.nodes σ (if b then x.ys.1 else x.ys.0) z
        → Value e.nodes σ (if b then high else low) (y && z)
    branch σ true y z u v = high_conj.value σ y z u v
    branch σ false y z u v = low_conj.value σ y z u v

module _ (P : Arena → Condition → Type 0) (base : Job) where
  -- What the frames below a pair do with its conjunction.
  abbrev Next : Arena → Pair → List Frame → Type 0
  Next a p rest =
      (b : Arena) (c : Condition) (memo : Map Pair Condition) (work : ℕ)
      → Evaluated a b base p c memo
      → Proceeds P b (at base rest (some c) memo work)

  answered :
      (a : Arena) (p : Pair) (rest : List Frame) (last : Option Condition)
      (memo memo' : Map Pair Condition) (work : ℕ) (c : Condition)
      → IsValid a
      → Steady a base
      → IsMemo a memo'
      → IsConjunction a p c
      → step a (at base rest last memo (work + 1)) (Frame.evaluate p)
        ≡ some (a, at base rest (some c) memo' (work + 1))
      → Next a p rest
      → Outcome P a (at base (Frame.evaluate p ∷ rest) last memo work)
  answered a p rest last memo memo' work c valid steady sound conj e next =
      step-Outcome P a a base (at base rest (some c) memo' (work + 1)) (Frame.evaluate p) rest last
        memo work steady e
        (next a c memo' (work + 1) (record {
          valid = valid;
          grows = Grows-refl a;
          steady = steady;
          choices = refl;
          remembered = sound;
          conjunction = conj;
        }))

  step-simple :
      (a : Arena) (p : Pair) (rest : List Frame) (last : Option Condition)
      (memo : Map Pair Condition) (work : ℕ) (c : Condition)
      → simple p ≡ some c
      → step a (at base rest last memo work) (Frame.evaluate p)
        ≡ some (a, at base rest (some c) memo work)
  unfolding step
  step-simple a p rest last memo work c e = rw (e, step)

  step_known :
      (a : Arena) (p : Pair) (rest : List Frame) (last : Option Condition)
      (memo : Map Pair Condition) (work : ℕ) (c : Condition)
      → simple p ≡ none
      → or_else (lookup p memo) (lookup p a.cache) ≡ some c
      → step a (at base rest last memo work) (Frame.evaluate p)
        ≡ some (a, at base rest (some c) (insert p c memo) work)
  unfolding step
  step_known a p rest last memo work c e f = rw (e, f, step)

  step-expand :
      (a : Arena) (p : Pair) (rest : List Frame) (last : Option Condition)
      (memo : Map Pair Condition) (work : ℕ)
      → simple p ≡ none
      → or_else (lookup p memo) (lookup p a.cache) ≡ none
      → step a (at base rest last memo work) (Frame.evaluate p)
        ≡ expand a (at base rest last memo work) p
  unfolding step
  step-expand a p rest last memo work e f = rw (e, f, step)

  -- The steps are passed through the frame that waits for the low cofactor.
  after_low_Outcome :
      (a : Arena) (p high : Pair) (k : ℕ) (low : Condition) (rest : List Frame)
      (memo : Map Pair Condition) (work : ℕ)
      → Steady a base
      → Outcome P a (at base (Frame.evaluate high ∷ after_high p k low ∷ rest) none memo (work + 1))
      → Proceeds P a (at base (after_low p k high ∷ rest) (some low) memo work)
  after_low_Outcome a p high k low rest memo work steady h =
      frames_Proceeds P a base (after_low p k high) rest (some low) memo work (
        step-Outcome P a a base _ (after_low p k high) rest (some low) memo work steady low_step (
          frames_Proceeds P a base (Frame.evaluate high) (after_high p k low ∷ rest) none memo
            (work + 1) h))
    where
      low_step :
          step a (at base rest (some low) memo (work + 1)) (after_low p k high)
          ≡ some (a, at base (Frame.evaluate high ∷ after_high p k low ∷ rest) none memo (work + 1))
      low_step = unfold step in refl

  high_step_full :
      (a : Arena) (p : Pair) (k : ℕ) (low high : Condition) (rest : List Frame)
      (memo : Map Pair Condition) (work : ℕ)
      → node a k low high ≡ none
      → step a (at base rest (some high) memo work) (after_high p k low) ≡ none
  unfolding step
  high_step_full a p k low high rest memo work e = rw e

  high_step :
      (a b d : Arena) (p : Pair) (k : ℕ) (low high c : Condition) (rest : List Frame)
      (memo : Map Pair Condition) (work : ℕ)
      → node a k low high ≡ some (b, c)
      → remember b p c ≡ some d
      → step a (at base rest (some high) memo work) (after_high p k low)
        ≡ some (d, at base rest (some c) (insert p c memo) work)
  unfolding step
  high_step a b d p k low high c rest memo work e f = rw (e, f)

  -- The frame that has both conjunctions of the cofactors makes and remembers the node.
  after_high_Outcome :
      (a : Arena) (p : Pair) (k s : ℕ) (low high : Condition) (rest : List Frame)
      (memo : Map Pair Condition) (work : ℕ)
      → IsValid a
      → Steady a base
      → IsMemo a memo
      → ((b : Arena) (c : Condition) → Made a b k s low high c → IsConjunction b p c)
      → Makes a k s low high (node a k low high)
      → Next a p rest
      → Proceeds P a (at base (after_high p k low ∷ rest) (some high) memo work)
  after_high_Outcome a p k s low high rest memo work valid steady sound join made' next =
      frames_Proceeds P a base (after_high p k low) rest (some high) memo work
        (go (node a k low high) refl made')
    where
      go :
          (o : Option (Arena × Condition))
          → node a k low high ≡ o
          → Makes a k s low high o
          → Outcome P a (at base (after_high p k low ∷ rest) (some high) memo work)
      go none e (exhausted full) =
          step_exhausted P a base (after_high p k low) rest (some high) memo work steady
            (high_step_full a p k low high rest memo (work + 1) e) full
      go (some (b, c)) e (made m) =
          let conj = join b c m in
          let (cache, queue, f, valid', g) = remember-IsValid b p c m.valid conj in
          let d : Arena = recached b cache queue in
          let conj' : IsConjunction d p c = IsConjunction-grow m.valid g conj in
          let q = m.quiet in
          step-Outcome P a d base _ (after_high p k low) rest (some high) memo work steady
            (high_step a b d p k low high c rest memo (work + 1) e f)
            (next d c (insert p c memo) (work + 1) (record {
              valid = valid';
              grows = Grows-trans m.grows g;
              steady = record {
                running = q.frozen ∙ steady.running;
                owner = steady.owner ∙ sym m.grows.owner;
                epoch = steady.epoch ∙ sym q.order_epoch;
                settled = steady.settled;
                kept = steady.kept;
              };
              choices = q.next_choice;
              remembered =
                  IsMemo-insert d memo p c
                    (IsMemo-grow a d memo valid (Grows-trans m.grows g) sound) conj';
              conjunction = conj';
            }))

  abbrev Goal : ℕ → Type 0
  Goal fuel =
      (r : ℕ) (a : Arena) (p : Pair) (rest : List Frame) (last : Option Condition)
      (memo : Map Pair Condition) (work : ℕ)
      → IsValid a
      → Steady a base
      → IsMemo a memo
      → Above a r p.0
      → Above a r p.1
      → a.next_choice ≤ fuel + r
      → Next a p rest
      → Outcome P a (at base (Frame.evaluate p ∷ rest) last memo work)

  -- A conjunction evaluated after another one, seen from the first arena.
  Evaluated-trans :
      (a b d : Arena) (p q : Pair) (low c : Condition) (memo memo' : Map Pair Condition)
      → Evaluated a b base p low memo
      → Evaluated b d base q c memo'
      → Evaluated a d base q c memo'
  Evaluated-trans a b d p q low c memo memo' x y = record {
    valid = y.valid;
    grows = Grows-trans x.grows y.grows;
    steady = y.steady;
    choices = y.choices ∙ x.choices;
    remembered = y.remembered;
    conjunction = y.conjunction;
  }

  module _ (fuel : ℕ) (ih : Goal fuel) (r : ℕ) (a : Arena) (p : Pair) (j : Job)
      (o : Option (Arena × Job)) (rest : List Frame) (valid : IsValid a)
      (x : Expands a valid j r p.0 p.1 o) (h : Above a r p.0) (k : Above a r p.1)
      (enough : a.next_choice ≤ suc fuel + r) (next : Next a p rest) where
    cofactor_Above :
        (b : Arena) (u v c : Condition)
        → Grows a b
        → Above a (suc x.s) u
        → Above a (suc x.s) v
        → IsConjunction b (u, v) c
        → Above b (suc x.s) c
    cofactor_Above b u v c g hu hv conj = conj.bound (suc x.s) (Above-grow g hu) (Above-grow g hv)

    after_both :
        (b d : Arena) (low high : Condition) (memo memo' : Map Pair Condition) (work : ℕ)
        → Evaluated a b base (ordered x.xs.0 x.ys.0) low memo
        → Evaluated b d base (ordered x.xs.1 x.ys.1) high memo'
        → Proceeds P d (at base (after_high p x.k low ∷ rest) (some high) memo' work)
    after_both b d low high memo memo' work ev ev' =
        let whole = Evaluated-trans a b d _ _ low high memo memo' ev ev' in
        let left =
          IsConjunction-grow ev.valid ev'.grows (IsConjunction-ordered b _ _ low ev.conjunction) in
        let right = IsConjunction-ordered d _ _ high ev'.conjunction in
        after_high_Outcome d p x.k x.s low high rest memo' work ev'.valid ev'.steady ev'.remembered
          (λ e c m.
            joined a d e j r p.0 p.1 low high c o valid x h k ev'.valid whole.grows left right m)
          (node-Makes d x.k x.s low high ev'.valid (whole.grows.ranks x.k x.s x.rank)
            (cofactor_Above d _ _ low whole.grows x.left.low_above x.right.low_above left)
            (cofactor_Above d _ _ high whole.grows x.left.high_above x.right.high_above right))
          (λ f c memo'' work' last.
            next f c memo'' work' (Evaluated-trans a d f _ _ high c memo' memo'' whole last))

    after_first :
        (b : Arena) (low : Condition) (memo : Map Pair Condition) (work : ℕ)
        → Evaluated a b base (ordered x.xs.0 x.ys.0) low memo
        → Proceeds P b
            (at base (after_low p x.k (ordered x.xs.1 x.ys.1) ∷ rest) (some low) memo work)
    after_first b low memo work ev =
        let (u, v) = ordered-Above a (suc x.s) x.xs.1 x.ys.1 x.left.high_above x.right.high_above in
        after_low_Outcome b p (ordered x.xs.1 x.ys.1) x.k low rest memo work ev.steady (
          ih (suc x.s) b (ordered x.xs.1 x.ys.1) (after_high p x.k low ∷ rest) none memo (work + 1)
            ev.valid ev.steady ev.remembered (Above-grow ev.grows u) (Above-grow ev.grows v)
            (omega (arith, x.below, ev.choices))
            (λ d high memo' work' ev'. after_both b d low high memo memo' work' ev ev'))

    expanded_Outcome :
        (memo : Map Pair Condition) (work : ℕ)
        → Steady a base
        → IsMemo a memo
        → Outcome P a (
            at base
              (Frame.evaluate (ordered x.xs.0 x.ys.0)
                ∷ after_low p x.k (ordered x.xs.1 x.ys.1)
                ∷ rest)
              none
              memo
              work)
    expanded_Outcome memo work steady sound =
        let (u, v) = ordered-Above a (suc x.s) x.xs.0 x.ys.0 x.left.low_above x.right.low_above in
        ih (suc x.s) a (ordered x.xs.0 x.ys.0) (after_low p x.k (ordered x.xs.1 x.ys.1) ∷ rest) none
          memo work valid steady sound u v (omega (arith, x.below)) after_first

  -- The frame of a pair that no identity, memo or cache answers.
  unanswered :
      (fuel : ℕ)
      → Goal fuel
      → (r : ℕ) (a : Arena) (p : Pair) (rest : List Frame) (last : Option Condition)
        (memo : Map Pair Condition) (work : ℕ)
      → IsValid a
      → Steady a base
      → IsMemo a memo
      → Above a r p.0
      → Above a r p.1
      → a.next_choice ≤ suc fuel + r
      → Next a p rest
      → simple p ≡ none
      → or_else (lookup p memo) (lookup p a.cache) ≡ none
      → Outcome P a (at base (Frame.evaluate p ∷ rest) last memo work)
  unanswered fuel ih r a p rest last memo work valid steady sound h k enough next e f =
      let j : Job = at base rest last memo (work + 1) in
      let x = expand_lem a valid j r p.0 p.1 h k (mixed h k) in
      step-Outcome P a a base _ (Frame.evaluate p) rest last memo work steady
        (step-expand a p rest last memo (work + 1) e f ∙ x.runs)
        (frames_Proceeds P a base (Frame.evaluate (ordered x.xs.0 x.ys.0)) _ none memo (work + 1) (
          expanded_Outcome fuel ih r a p j (expand a j p) rest valid x h k enough next memo
            (work + 1) steady sound))
    where
      mixed : Above a r p.0 → Above a r p.1 → p.0.owner ≡ 0 → p.1.owner ≡ 0 → ⊥
      mixed (leaf o i) (leaf o' i') _ _ = simple_terminals p.0 p.1 o i o' i' e
      mixed (inner n m o h' rank le) _ z _ = valid.owned (sym o ∙ z)
      mixed (leaf o i) (inner n m o' h' rank le) _ z = valid.owned (sym o' ∙ z)

  known_IsConjunction :
      (a : Arena) (memo : Map Pair Condition) (p : Pair) (c : Condition)
      → IsValid a
      → IsMemo a memo
      → or_else (lookup p memo) (lookup p a.cache) ≡ some c
      → IsConjunction a p c
  known_IsConjunction a memo p c valid sound e = elim (Option-cases (lookup p memo)) [
    | inl absent ↦ valid.cache_sound p c (rw absent at e)
    | inr (d, h) ↦ sound p c (h ∙ rw h at e)
  ]

  -- A pair is answered at once by an identity, the memo or the cache, or by what follows.
  answered_or :
      (r : ℕ) (a : Arena) (p : Pair) (rest : List Frame) (last : Option Condition)
      (memo : Map Pair Condition) (work : ℕ)
      → IsValid a
      → Steady a base
      → IsMemo a memo
      → Above a r p.0
      → Above a r p.1
      → Next a p rest
      → (simple p ≡ none
          → or_else (lookup p memo) (lookup p a.cache) ≡ none
          → Outcome P a (at base (Frame.evaluate p ∷ rest) last memo work))
      → Outcome P a (at base (Frame.evaluate p ∷ rest) last memo work)
  answered_or r a p rest last memo work valid steady sound h k next otherwise =
      elim (Option-cases (simple p)) [
        | inr (c, e) ↦
            answered a p rest last memo memo work c valid steady sound
              (simple_sound a valid p.0 p.1 c (Above-weaken (omega arith) h)
                (Above-weaken (omega arith) k) e)
              (step-simple a p rest last memo (work + 1) c e) next
        | inl e ↦ elim (Option-cases (or_else (lookup p memo) (lookup p a.cache))) [
          | inr (c, f) ↦
              let conj = known_IsConjunction a memo p c valid sound f in
              answered a p rest last memo (insert p c memo) work c valid steady
                (IsMemo-insert a memo p c sound conj) conj
                (step_known a p rest last memo (work + 1) c e f) next
          | inl f ↦ otherwise e f
        ]
      ]

  no_rank_left :
      (r : ℕ) (a : Arena) (p : Pair)
      → IsValid a
      → a.next_choice ≤ r
      → Above a r p.0
      → Above a r p.1
      → simple p ≡ none
      → ⊥
  no_rank_left r a p valid enough (leaf o i) (leaf o' i') e = simple_terminals p.0 p.1 o i o' i' e
  no_rank_left r a p valid enough (inner n m o h rank le) k e =
      omega (arith, valid.rank_lt n.key.choice m rank)
  no_rank_left r a p valid enough (leaf o i) (inner n m o' h rank le) e =
      omega (arith, valid.rank_lt n.key.choice m rank)

  -- A frame `Evaluate` ends, with the conjunction of its pair passed to the frames below.
  pub evaluate_frame : (fuel : ℕ) → Goal fuel
  evaluate_frame zero r a p rest last memo work valid steady sound h k enough next =
      answered_or r a p rest last memo work valid steady sound h k next
        (λ e f. absurd (no_rank_left r a p valid (omega arith) h k e))
  evaluate_frame (suc fuel) r a p rest last memo work valid steady sound h k enough next =
      answered_or r a p rest last memo work valid steady sound h k next (
        unanswered fuel (evaluate_frame fuel) r a p rest last memo work valid steady sound h k
          enough next)
