-- ===== src/Condition/Meaning.antt =====
-- What a condition denotes: the value of its diagram under each assignment of the choices. The
-- relation is the independent description by which the operations are judged.
use chrimp.Prelude.{
  Bool, ap, arith, false, if◌then◌else◌, not, refl, some, subst, sym, true, ℕ, ◌∙◌, ◌≡◌,
}
use chrimp.Map.{Map, lookup, nat_key}
use chrimp.Condition.Handle.{Condition, condition_key, is_terminal, negate, negate-negate, pair_key}
use chrimp.Condition.Key.{NodeKey, node_key}
use chrimp.Condition.Arena.{Node, edge}

abbrev pub follow : NodeKey → Bool → Condition
follow key b = if b then key.high else key.low

pub data Value (nodes : Map ℕ Node) (σ : ℕ → Bool) : Condition → Bool → Type 0 where
  ends : {c : Condition} {b : Bool} → is_terminal c ≡ true → b ≡ c.negative → Value nodes σ c b
  branches :
      {c : Condition} {b : Bool} (n : Node)
      → is_terminal c ≡ false
      → lookup c.id nodes ≡ some n
      → Value nodes σ (edge c.negative (follow n.key (σ n.key.choice))) b
      → Value nodes σ c b

-- `b` has every node of `a`.
pub record Extends (a b : Map ℕ Node) : Type 0 where
  pub keeps : (id : ℕ) (n : Node) → lookup id a ≡ some n → lookup id b ≡ some n

pub Extends-refl : (a : Map ℕ Node) → Extends a a
Extends-refl a = record { keeps = λ id n h. h }

pub Extends-trans : {a b c : Map ℕ Node} → Extends a b → Extends b c → Extends a c
Extends-trans f g = record { keeps = λ id n h. g.keeps id n (f.keeps id n h) }

pub Value-extend :
    {a b : Map ℕ Node} {σ : ℕ → Bool} {c : Condition} {v : Bool}
    → Extends a b
    → Value a σ c v
    → Value b σ c v
Value-extend e (ends t h) = ends t h
Value-extend e (branches n t h v) = branches n t (e.keeps _ n h) (Value-extend e v)

pub negate-edge :
    (negative : Bool) (c : Condition) → negate (edge negative c) ≡ edge (not negative) c
unfolding negate
negate-edge true c = ground arith
negate-edge false c = refl

pub is_terminal-negate : (c : Condition) → is_terminal (negate c) ≡ is_terminal c
unfolding negate is_terminal
is_terminal-negate c = refl

-- Complementing the edge complements the value.
pub Value-negate :
    {nodes : Map ℕ Node} {σ : ℕ → Bool} {c : Condition} {v : Bool}
    → Value nodes σ c v
    → Value nodes σ (negate c) (not v)
unfolding negate
Value-negate {c} (ends t h) = ends (is_terminal-negate c ∙ t) (ap not h)
Value-negate {nodes} {σ} {c} {v} (branches n t h w) =
    branches n (is_terminal-negate c ∙ t) h
      (subst (λ d. Value nodes σ d (not v)) (negate-edge c.negative _) (Value-negate w))

-- A condition has one value.
pub Value-unique :
    {nodes : Map ℕ Node} {σ : ℕ → Bool} {c : Condition} {v w : Bool}
    → Value nodes σ c v
    → Value nodes σ c w
    → v ≡ w
Value-unique (ends t h) (ends t' h') = h ∙ sym h'
Value-unique (ends t h) (branches n t' h' w) = cc
Value-unique (branches n t h v) (ends t' h') = cc
Value-unique {nodes} {σ} {c} {w = y} (branches n t h v) (branches m t' h' w) =
    let e : m ≡ n = cc in
    Value-unique v
      (subst (λ (k : Node). Value nodes σ (edge c.negative (follow k.key (σ k.key.choice))) y) e w)

abbrev pub flip : Bool → Bool → Bool
flip negative v = if negative then not v else v

pub flip-flip : (negative v : Bool) → flip negative (flip negative v) ≡ v
flip-flip true v = ground arith
flip-flip false v = refl

pub Value-edge :
    {nodes : Map ℕ Node} {σ : ℕ → Bool} {c : Condition} {v : Bool} (negative : Bool)
    → Value nodes σ c v
    → Value nodes σ (edge negative c) (flip negative v)
Value-edge true h = Value-negate h
Value-edge false h = h

pub edge-edge : (negative : Bool) (c : Condition) → edge negative (edge negative c) ≡ c
edge-edge true c = negate-negate c
edge-edge false c = refl

pub edge-injective : (negative : Bool) (c d : Condition) → edge negative c ≡ edge negative d → c ≡ d
edge-injective negative c d h =
    sym (edge-edge negative c) ∙ ap (edge negative) h ∙ edge-edge negative d
