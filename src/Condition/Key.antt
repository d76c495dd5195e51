-- ===== src/Condition/Key.antt =====
-- src/condition.rs: `NodeKey`, the key of the table of canonical nodes.
use chrimp.Prelude.{ℕ, ◌≡◌, ◌↔◌, Bool, true, ◌&&◌, ◌||◌, arith, ◌==◌, ltb}
use chrimp.Map.{Key}
use chrimp.Condition.Handle.{Condition, same, same_iff, less}

pub record NodeKey : Type 0 where
  pub choice : ℕ
  pub low : Condition
  pub high : Condition

abbrev pub same_node_key : NodeKey → NodeKey → Bool
same_node_key j k = j.choice == k.choice && (same j.low k.low && same j.high k.high)

abbrev pub less_node_key : NodeKey → NodeKey → Bool
less_node_key j k =
    ltb j.choice k.choice
    || (j.choice == k.choice && (less j.low k.low || (same j.low k.low && less j.high k.high)))

pub same_node_key_iff : (j k : NodeKey) → (same_node_key j k ≡ true) ↔ (j ≡ k)
same_node_key_iff j k = (
  λ h. ground (arith, same_iff j.low k.low, same_iff j.high k.high),
  λ h. ground (arith, same_iff j.low k.low, same_iff j.high k.high),
)

instance abbrev pub node_key : Key NodeKey
node_key = record { same = same_node_key; less = less_node_key; same_iff = same_node_key_iff }
