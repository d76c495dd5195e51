-- ===== src/Condition/Valid.antt =====
-- Well-formed arenas: ordered and reduced diagrams, a complete canonical table, ranks that tell
-- choices apart, and a sound cache of conjunctions.
use chrimp.Condition.Cache.{IsQueue}
use chrimp.Prelude.{
  Bool, arith, false, refl, some, subst, suc, sym, true, zero, ℕ, ◌&&◌, ◌+◌, ◌<◌, ◌∙◌, ◌≡◌, ◌≢◌,
  ◌≤◌,
}
use chrimp.Map.{lookup, nat_key}
use chrimp.Condition.Handle.{Condition, Pair, condition_key, is_terminal, negate, pair_key}
use chrimp.Condition.Key.{NodeKey, node_key}
use chrimp.Condition.Arena.{Arena, ChoiceOrder, Node, edge}
use chrimp.Condition.Meaning.{
  Extends, Extends-refl, Extends-trans, Value, Value-extend, Value-unique, branches, ends, follow,
}

-- `r` is the rank of the choice `k`.
abbrev pub HasRank : Arena → ℕ → ℕ → Type 0
HasRank a k r = (entry : ChoiceOrder) × (lookup k a.order ≡ some entry) × (entry.rank ≡ r)

-- The condition belongs to the arena, and tests no choice ranked below `r` at its root.
pub data Above (a : Arena) (r : ℕ) (c : Condition) : Type 0 where
  leaf : c.owner ≡ 0 → c.id ≡ 0 → Above a r c
  inner :
      (n : Node) (k : ℕ)
      → c.owner ≡ a.owner
      → lookup c.id a.nodes ≡ some n
      → HasRank a n.key.choice k
      → r ≤ k
      → Above a r c

-- A stored node tests its choice before its children do, has two distinct children, and a plain
-- low edge.
pub record IsReduced (a : Arena) (n : NodeKey) : Type 0 where
  pub rank : ℕ
  pub ranked : HasRank a n.choice rank
  pub low_above : Above a (suc rank) n.low
  pub high_above : Above a (suc rank) n.high
  pub distinct : n.low ≢ n.high
  pub plain : n.low.negative ≡ false

-- `r` is the conjunction of the pair, whose members belong to the arena.
pub record IsConjunction (a : Arena) (p : Pair) (r : Condition) : Type 0 where
  pub left : Above a 0 p.0
  pub right : Above a 0 p.1
  pub bound : (m : ℕ) → Above a m p.0 → Above a m p.1 → Above a m r
  pub value :
      (σ : ℕ → Bool) (x y : Bool)
      → Value a.nodes σ p.0 x
      → Value a.nodes σ p.1 y
      → Value a.nodes σ r (x && y)

pub record IsValid (a : Arena) : Type 0 where
  pub owned : a.owner ≢ 0
  pub serial : (id : ℕ) (n : Node) → lookup id a.nodes ≡ some n → id < a.next_node
  pub reduced : (id : ℕ) (n : Node) → lookup id a.nodes ≡ some n → IsReduced a n.key
  pub unique_sound :
      (key : NodeKey) (c : Condition)
      → lookup key a.unique ≡ some c
      → (c ≡ record { owner = a.owner; id = c.id; negative = false })
        × (n : Node) × (lookup c.id a.nodes ≡ some n)
        × (n.key ≡ key)
  pub unique_complete :
      (id : ℕ) (n : Node)
      → lookup id a.nodes ≡ some n
      → lookup n.key a.unique ≡ some (record { owner = a.owner; id = id; negative = false })
  pub rank_lt : (k r : ℕ) → HasRank a k r → r < a.next_choice
  pub choice_lt : (k r : ℕ) → HasRank a k r → k < a.next_choice
  pub rank_injective : (j k r : ℕ) → HasRank a j r → HasRank a k r → j ≡ k
  pub queue : IsQueue a.cache a.cache_order
  pub cache_sound : (p : Pair) (r : Condition) → lookup p a.cache ≡ some r → IsConjunction a p r

-- `b` is a later state of the arena `a`: nothing that a handle of `a` reads has changed.
pub record Grows (a b : Arena) : Type 0 where
  pub owner : b.owner ≡ a.owner
  pub nodes : Extends a.nodes b.nodes
  pub ranks : (k r : ℕ) → HasRank a k r → HasRank b k r
  pub choices : a.next_choice ≤ b.next_choice

pub Grows-refl : (a : Arena) → Grows a a
Grows-refl a = record {
  owner = refl;
  nodes = Extends-refl a.nodes;
  ranks = λ k r h. h;
  choices = omega arith;
}

pub Grows-trans : {a b c : Arena} → Grows a b → Grows b c → Grows a c
Grows-trans f g = record {
  owner = g.owner ∙ f.owner;
  nodes = Extends-trans f.nodes g.nodes;
  ranks = λ k r h. g.ranks k r (f.ranks k r h);
  choices = omega (arith, f.choices, g.choices);
}

pub Above-grow : {a b : Arena} {r : ℕ} {c : Condition} → Grows a b → Above a r c → Above b r c
Above-grow g (leaf o i) = leaf o i
Above-grow g (inner n k o h rank le) =
    inner n k (o ∙ sym g.owner) (g.nodes.keeps _ n h) (g.ranks _ k rank) le

pub Above-weaken : {a : Arena} {r s : ℕ} {c : Condition} → s ≤ r → Above a r c → Above a s c
Above-weaken l (leaf o i) = leaf o i
Above-weaken l (inner n k o h rank le) = inner n k o h rank (omega arith)

pub Above-negate : {a : Arena} {r : ℕ} {c : Condition} → Above a r c → Above a r (negate c)
unfolding negate
Above-negate (leaf o i) = leaf o i
Above-negate (inner n k o h rank le) = inner n k o h rank le

pub Above-edge :
    {a : Arena} {r : ℕ} (negative : Bool) {c : Condition}
    → Above a r c
    → Above a r (edge negative c)
Above-edge true h = Above-negate h
Above-edge false h = h

pub HasRank-unique : (a : Arena) (k r s : ℕ) → HasRank a k r → HasRank a k s → r ≡ s
HasRank-unique a k r s (e, h, p) (f, h', q) = cc

pub is_terminal_of_owner : (c : Condition) → c.owner ≡ 0 → is_terminal c ≡ true
unfolding is_terminal
is_terminal_of_owner c h = ground arith

pub not-is_terminal : (c : Condition) → c.owner ≢ 0 → is_terminal c ≡ false
unfolding is_terminal
not-is_terminal c h = ground arith

-- Both children of a stored node stand above it.
pub Above-follow :
    {a : Arena} {n : NodeKey} (red : IsReduced a n) (b : Bool) → Above a (suc red.rank) (follow n b)
Above-follow red true = red.high_above
Above-follow red false = red.low_above

Value-below :
    (fuel : ℕ) (a : Arena) (r : ℕ) (σ : ℕ → Bool) (c : Condition)
    → IsValid a
    → a.next_choice ≤ fuel + r
    → Above a r c
    → (b : Bool) × Value a.nodes σ c b
Value-below fuel a r σ c valid enough (leaf o i) =
    (c.negative, ends (is_terminal_of_owner c o) refl)
Value-below zero a r σ c valid enough (inner n k o h rank le) =
    absurd (omega (arith, valid.rank_lt n.key.choice k rank))
Value-below (suc fuel) a r σ c valid enough (inner n k o h rank le) =
    let red = valid.reduced c.id n h in
    let same : red.rank ≡ k = HasRank-unique a n.key.choice red.rank k red.ranked rank in
    let (b, v) =
      Value-below fuel a (suc red.rank) σ (edge c.negative (follow n.key (σ n.key.choice))) valid
        (omega arith) (Above-edge c.negative (Above-follow red (σ n.key.choice))) in
    (b, branches n (not-is_terminal c (λ z. valid.owned (sym o ∙ z))) h v)

-- Every condition of a valid arena has a value under every assignment.
pub Value-total :
    (a : Arena) (σ : ℕ → Bool) (c : Condition)
    → IsValid a
    → Above a 0 c
    → (b : Bool) × Value a.nodes σ c b
Value-total a σ c valid h = Value-below a.next_choice a 0 σ c valid (omega arith) h

-- What a later arena says of a condition of an earlier one held there already.
pub Value-shrink :
    {a b : Arena} {σ : ℕ → Bool} {c : Condition} {v : Bool}
    → IsValid a
    → Grows a b
    → Above a 0 c
    → Value b.nodes σ c v
    → Value a.nodes σ c v
Value-shrink {a} {b} {σ} {c} valid g h v =
    let (w, old) = Value-total a σ c valid h in
    subst (λ x. Value a.nodes σ c x) (Value-unique (Value-extend g.nodes old) v) old

pub Above-shrink :
    {a b : Arena} {m : ℕ} {c : Condition}
    → IsValid a
    → Grows a b
    → Above a 0 c
    → Above b m c
    → Above a m c
Above-shrink valid g h (leaf o i) = leaf o i
Above-shrink valid g (leaf o i) (inner n k o' h' rank le) = leaf o i
Above-shrink {a} {b} {c} valid g (inner n' k' o h rank' le') (inner n k o' h' rank le) =
    let e : n' ≡ n = cc (g.nodes.keeps c.id n' h) in
    let f : k' ≡ k =
      HasRank-unique b n.key.choice k' k
        (subst (λ (m : Node). HasRank b m.key.choice k') e (g.ranks n'.key.choice k' rank')) rank in
    inner n' k' o h rank' (omega arith)

pub IsReduced-grow : {a b : Arena} {n : NodeKey} → Grows a b → IsReduced a n → IsReduced b n
IsReduced-grow g red = record {
  rank = red.rank;
  ranked = g.ranks _ _ red.ranked;
  low_above = Above-grow g red.low_above;
  high_above = Above-grow g red.high_above;
  distinct = red.distinct;
  plain = red.plain;
}

pub IsConjunction-grow :
    {a b : Arena} {p : Pair} {r : Condition}
    → IsValid a
    → Grows a b
    → IsConjunction a p r
    → IsConjunction b p r
IsConjunction-grow valid g c = record {
  left = Above-grow g c.left;
  right = Above-grow g c.right;
  bound = λ m h k.
      Above-grow g (c.bound m (Above-shrink valid g c.left h) (Above-shrink valid g c.right k));
  value = λ σ x y h k.
      Value-extend g.nodes
        (c.value σ x y (Value-shrink valid g c.left h) (Value-shrink valid g c.right k));
}
