-- ===== src/Condition/Handle.antt =====
-- src/condition.rs: the handle `Condition`, its complement, its derived order, and the identities
-- of conjunction that need no diagram.
use chrimp.Prelude.{
  Bool, Option, arith, false, if◌then◌else◌, ltb, none, not, some, true, ℕ, ◌&&◌, ◌==◌, ◌||◌, ◌↔◌,
  ◌≡◌,
}
use chrimp.Map.{Key}

pub record Condition : Type 0 where
  pub owner : ℕ
  pub id : ℕ
  pub negative : Bool

abbrev pub false_condition : Condition
false_condition = record { owner = 0; id = 0; negative = false }

abbrev pub true_condition : Condition
true_condition = record { owner = 0; id = 0; negative = true }

unfoldable pub negate : Condition → Condition
negate c = record c { negative = not c.negative }

unfoldable pub is_terminal : Condition → Bool
is_terminal c = c.owner == 0

abbrev pub bool_same : Bool → Bool → Bool
bool_same true b = b
bool_same false b = not b

-- The derived `PartialEq`.
abbrev pub same : Condition → Condition → Bool
same a b = a.owner == b.owner && (a.id == b.id && bool_same a.negative b.negative)

-- The derived `Ord`: the fields in order, `false` before `true`.
abbrev pub less : Condition → Condition → Bool
less a b =
    ltb a.owner b.owner
    || (a.owner == b.owner && (ltb a.id b.id || (a.id == b.id && (not a.negative && b.negative))))

pub same_iff : (a b : Condition) → (same a b ≡ true) ↔ (a ≡ b)
same_iff a b = (λ h. ground arith, λ h. ground arith)

instance abbrev pub condition_key : Key Condition
condition_key = record { same = same; less = less; same_iff = same_iff }

abbrev pub Pair : Type 0
Pair = Condition × Condition

abbrev pub same_pair : Pair → Pair → Bool
same_pair p q = same p.0 q.0 && same p.1 q.1

abbrev pub less_pair : Pair → Pair → Bool
less_pair p q = less p.0 q.0 || (same p.0 q.0 && less p.1 q.1)

pub same_pair_iff : (p q : Pair) → (same_pair p q ≡ true) ↔ (p ≡ q)
same_pair_iff p q = (λ h. ground (arith, same_iff p.0 q.0, same_iff p.1 q.1), λ h. ground arith)

instance abbrev pub pair_key : Key Pair
pair_key = record { same = same_pair; less = less_pair; same_iff = same_pair_iff }

-- `a <= b` is `!(b < a)`.
unfoldable pub ordered : Condition → Condition → Pair
ordered a b = if less b a then (b, a) else (a, b)

unfoldable pub simple : Pair → Option Condition
unfolding negate
simple (a, b) =
    if same a false_condition || (same b false_condition || same a (negate b))
    then some false_condition
    else if same a true_condition
    then some b
    else if same b true_condition || same a b
    then some a
    else none

pub negate-negate : (c : Condition) → negate (negate c) ≡ c
unfolding negate
negate-negate c = ground arith
