-- ===== src/Condition/Job/Split.antt =====
-- src/condition.rs: `expand` picks the choice that comes first in the order and splits both
-- operands on it.
use chrimp.Prelude.{
  ==_iff, Bool, Bool-cases, Option, arith, false, if◌then◌else◌, inl, inr, ltb, ltb→lt, none, refl,
  some, subst, suc, sym, true, ℕ, ◌==◌, ◌∙◌, ◌∷◌, ◌≡◌, ◌≢◌, ◌≤◌,
}
use chrimp.Map.{lookup, nat_key}
use chrimp.Condition.Handle.{Condition, Pair, condition_key, ordered, pair_key}
use chrimp.Condition.Key.{node_key}
use chrimp.Condition.Arena.{Arena, Node, View, choice, edge, precedes, terminal, view}
use chrimp.Condition.Meaning.{Value, branches, ends, follow}
use chrimp.Condition.Valid.{
  Above, Above-edge, Above-weaken, HasRank, HasRank-unique, IsValid, inner, leaf, not-is_terminal,
}
use chrimp.Condition.Job.{Frame, Job, after_low, expand, split, top_choice}
use chrimp.Condition.Evaluate.{edge-if, view-inner, view-leaf}

-- The condition is the choice `k` between the two, which come after it.
pub record Splits (a : Arena) (k s : ℕ) (p low high : Condition) : Type 0 where
  pub low_above : Above a (suc s) low
  pub high_above : Above a (suc s) high
  pub value :
      (σ : ℕ → Bool) (x : Bool)
      → Value a.nodes σ p x
      → Value a.nodes σ (if σ k then high else low) x

module _ (a : Arena) (valid : IsValid a) where
  Splits-past : (k s : ℕ) (p : Condition) → Above a (suc s) p → Splits a k s p p p
  Splits-past k s p h = record {
    low_above = h;
    high_above = h;
    value = λ σ x v. subst (λ c. Value a.nodes σ c x) (sym (same_both (σ k))) v;
  }
    where
      same_both : (b : Bool) → (if b then p else p) ≡ p
      same_both true = refl
      same_both false = refl

  -- A condition that comes after the choice is left whole.
  split_past :
      (k s : ℕ) (p : Condition) (v : View)
      → HasRank a k s
      → view a p ≡ some v
      → Above a (suc s) p
      → Splits a k s p (split k p v).0 (split k p v).1
  unfolding split
  split_past k s p (terminal b) rank e h = Splits-past k s p h
  split_past k s p (choice j low high) rank e (leaf o i) = cc (view-leaf a p o)
  split_past k s p (choice j low high) rank e (inner n i o h rank' le) =
      let same : n.key.choice ≡ j = cc (view-inner a p n valid.owned o h) in
      let differ : (j == k) ≡ false = ground (arith, other same) in
      rw differ (Splits-past k s p (inner n i o h rank' le))
    where
      other : n.key.choice ≡ j → j ≢ k
      other e e' =
          let r : i ≡ s = HasRank-unique a k i s (subst (λ c. HasRank a c i) (e ∙ e') rank') rank in
          omega arith

  Value-root :
      (σ : ℕ → Bool) (p : Condition) (n : Node) (x : Bool)
      → p.owner ≡ a.owner
      → lookup p.id a.nodes ≡ some n
      → Value a.nodes σ p x
      → Value a.nodes σ (edge p.negative (follow n.key (σ n.key.choice))) x
  Value-root σ p n x o h (ends t e) = cc (not-is_terminal p (λ z. valid.owned (sym o ∙ z)))
  Value-root σ p n x o h (branches m t h' v) =
      let e : m ≡ n = cc in
      subst (λ (i : Node). Value a.nodes σ (edge p.negative (follow i.key (σ i.key.choice))) x) e v

  Splits-root :
      (s : ℕ) (p : Condition) (n : Node)
      → p.owner ≡ a.owner
      → lookup p.id a.nodes ≡ some n
      → HasRank a n.key.choice s
      → Splits a n.key.choice s p (edge p.negative n.key.low) (edge p.negative n.key.high)
  Splits-root s p n o h rank =
      let red = valid.reduced p.id n h in
      let le : suc s ≤ suc red.rank =
        omega (arith, HasRank-unique a n.key.choice red.rank s red.ranked rank) in
      record {
        low_above = Above-weaken le (Above-edge p.negative red.low_above);
        high_above = Above-weaken le (Above-edge p.negative red.high_above);
        value = λ σ x v.
            subst (λ c. Value a.nodes σ c x) (sym (edge-if p.negative (σ n.key.choice) n.key))
              (Value-root σ p n x o h v);
      }

  -- A condition that tests the choice at its root is split into its edges.
  split_at :
      (s : ℕ) (p : Condition) (n : Node)
      → HasRank a n.key.choice s
      → p.owner ≡ a.owner
      → lookup p.id a.nodes ≡ some n
      → let v = choice n.key.choice (edge p.negative n.key.low) (edge p.negative n.key.high) in
        Splits a n.key.choice s p (split n.key.choice p v).0 (split n.key.choice p v).1
  unfolding split
  split_at s p n rank o h = rw (same_choice n.key.choice) (Splits-root s p n o h rank)
    where
      same_choice : (k : ℕ) → (k == k) ≡ true
      same_choice k = (==_iff k k).1 refl

  -- What `expand` sets up: a choice that one operand at least tests at its root, and its cofactors.
  pub record Expands (j : Job) (r : ℕ) (p q : Condition) (o : Option (Arena × Job)) : Type 0 where
    pub k : ℕ
    pub s : ℕ
    pub xs : Pair
    pub ys : Pair
    pub runs :
        o
        ≡ some (
          a,
          record j {
            frames =
                Frame.evaluate (ordered xs.0 ys.0)
                ∷ after_low (p, q) k (ordered xs.1 ys.1)
                ∷ j.frames;
            last = none;
          },
        )
    pub rank : HasRank a k s
    pub below : r ≤ s
    pub left : Splits a k s p xs.0 xs.1
    pub right : Splits a k s q ys.0 ys.1
    pub root : (m : ℕ) → Above a m p → Above a m q → m ≤ s

  Above-root :
      (m k : ℕ) (p : Condition) (n : Node)
      → p.owner ≡ a.owner
      → lookup p.id a.nodes ≡ some n
      → HasRank a n.key.choice k
      → Above a m p
      → m ≤ k
  Above-root m k p n o h rank (leaf o' i) = absurd (valid.owned (sym o ∙ o'))
  Above-root m k p n o h rank (inner n' k' o' h' rank' le) =
      let e : n' ≡ n = cc in
      let f : k' ≡ k =
        HasRank-unique a n.key.choice k' k (subst (λ (i : Node). HasRank a i.key.choice k') e rank')
          rank in
      omega arith

  abbrev root_view : Condition → Node → View
  root_view p n = choice n.key.choice (edge p.negative n.key.low) (edge p.negative n.key.high)

  precedes_lem : (i j k l : ℕ) → HasRank a i k → HasRank a j l → precedes a i j ≡ some (ltb k l)
  unfolding precedes
  precedes_lem i j k l (e, h, p) (f, g, q) = rw (h, g, p, q)

  module _ (j : Job) (r : ℕ) (p q : Condition) where
    expand_left :
        (n : Node) (k : ℕ) (y : View)
        → p.owner ≡ a.owner
        → lookup p.id a.nodes ≡ some n
        → HasRank a n.key.choice k
        → r ≤ k
        → view a q ≡ some y
        → Above a (suc k) q
        → top_choice a (root_view p n) y ≡ some n.key.choice
        → Expands j r p q (expand a j (p, q))
    unfolding expand
    expand_left n k y o h rank le e above top = record {
      k = n.key.choice;
      s = k;
      xs = split n.key.choice p (root_view p n);
      ys = split n.key.choice q y;
      runs = rw (view-inner a p n valid.owned o h, e, top);
      rank = rank;
      below = le;
      left = split_at k p n rank o h;
      right = split_past n.key.choice k q y rank e above;
      root = λ m x _. Above-root m k p n o h rank x;
    }

    expand_right :
        (n : Node) (k : ℕ) (x : View)
        → q.owner ≡ a.owner
        → lookup q.id a.nodes ≡ some n
        → HasRank a n.key.choice k
        → r ≤ k
        → view a p ≡ some x
        → Above a (suc k) p
        → top_choice a x (root_view q n) ≡ some n.key.choice
        → Expands j r p q (expand a j (p, q))
    unfolding expand
    expand_right n k x o h rank le e above top = record {
      k = n.key.choice;
      s = k;
      xs = split n.key.choice p x;
      ys = split n.key.choice q (root_view q n);
      runs = rw (view-inner a q n valid.owned o h, e, top);
      rank = rank;
      below = le;
      left = split_past n.key.choice k p x rank e above;
      right = split_at k q n rank o h;
      root = λ m _ y. Above-root m k q n o h rank y;
    }

    expand_same :
        (n m : Node) (k : ℕ)
        → p.owner ≡ a.owner
        → lookup p.id a.nodes ≡ some n
        → q.owner ≡ a.owner
        → lookup q.id a.nodes ≡ some m
        → HasRank a n.key.choice k
        → HasRank a m.key.choice k
        → r ≤ k
        → Expands j r p q (expand a j (p, q))
    unfolding expand top_choice
    expand_same n m k o h o' h' rank rank' le =
        let e : n.key.choice ≡ m.key.choice =
          valid.rank_injective n.key.choice m.key.choice k rank rank' in
        let never : ltb k k ≡ false = ground arith in
        record {
          k = m.key.choice;
          s = k;
          xs = split m.key.choice p (root_view p n);
          ys = split m.key.choice q (root_view q m);
          runs = rw (
            view-inner a p n valid.owned o h,
            view-inner a q m valid.owned o' h',
            precedes_lem n.key.choice m.key.choice k k rank rank',
            never,
          );
          rank = rank';
          below = le;
          left =
              subst
                (λ i. Splits a i k p (split i p (root_view p n)).0 (split i p (root_view p n)).1) e
                (split_at k p n rank o h);
          right = split_at k q m rank' o' h';
          root = λ i x _. Above-root i k p n o h rank x;
        }

    -- On operands that are not both terminal `expand` panics nowhere.
    pub expand_lem :
        Above a r p
        → Above a r q
        → (p.owner ≡ 0 → q.owner ≡ 0 → ⊥)
        → Expands j r p q (expand a j (p, q))
    unfolding top_choice
    expand_lem (leaf o i) (leaf o' i') mixed = absurd (mixed o o')
    expand_lem (inner n k o h rank le) (leaf o' i') mixed =
        expand_left n k (terminal q.negative) o h rank le (view-leaf a q o') (leaf o' i') refl
    expand_lem (leaf o' i') (inner n k o h rank le) mixed =
        expand_right n k (terminal p.negative) o h rank le (view-leaf a p o') (leaf o' i') refl
    expand_lem (inner n k o h rank le) (inner m l o' h' rank' le') mixed =
        elim (Bool-cases (ltb k l)) [
          | inl lt ↦
              expand_left n k (root_view q m) o h rank le (view-inner a q m valid.owned o' h')
                (inner m l o' h' rank' (ltb→lt k l lt))
                (rw (precedes_lem n.key.choice m.key.choice k l rank rank', lt))
          | inr ge ↦ elim (Bool-cases (ltb l k)) [
            | inl gt ↦
                expand_right m l (root_view p n) o' h' rank' le' (view-inner a p n valid.owned o h)
                  (inner n k o h rank (ltb→lt l k gt))
                  (rw (precedes_lem n.key.choice m.key.choice k l rank rank', ge))
            | inr le'' ↦
                let e : l ≡ k = ground arith in
                expand_same n m k o h o' h' rank (subst (HasRank a m.key.choice) e rank') le
          ]
        ]
