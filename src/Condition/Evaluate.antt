-- ===== src/Condition/Evaluate.antt =====
-- src/condition.rs: `evaluate` computes the value of a condition, and `fresh_choice` makes one that
-- stands for a new choice.
use chrimp.Condition.Meaning.{Value, branches, ends, follow}
use chrimp.Prelude.{
  ==_iff, Bool, arith, false, if◌then◌else◌, refl, some, suc, sym, true, zero, ℕ, ◌+◌, ◌<◌, ◌∙◌,
  ◌≡◌, ◌≢◌, ◌≤◌,
}
use chrimp.Map.{lookup, nat_key}
use chrimp.Condition.Handle.{Condition, condition_key, pair_key}
use chrimp.Condition.Key.{NodeKey, node_key}
use chrimp.Condition.Arena.{
  Arena, Node, choice, contains, contains_key, edge, evaluate, terminal, view,
}
use chrimp.Condition.Valid.{
  Above, Above-edge, Above-follow, HasRank-unique, IsValid, inner, is_terminal_of_owner, leaf,
  not-is_terminal,
}

-- A condition of a valid arena is contained in it.
pub contains-Above : (a : Arena) (r : ℕ) (c : Condition) → Above a r c → contains a c ≡ true
unfolding contains
contains-Above a r c (leaf o i) = rw (is_terminal_of_owner c o)
contains-Above a r c (inner n k o h rank le) =
    rw (h, contains_key, (==_iff c.owner a.owner).1 o) (ground arith)

pub view-inner :
    (a : Arena) (c : Condition) (n : Node)
    → a.owner ≢ 0
    → c.owner ≡ a.owner
    → lookup c.id a.nodes ≡ some n
    → view a c ≡ some (choice n.key.choice (edge c.negative n.key.low) (edge c.negative n.key.high))
unfolding view contains
view-inner a c n owned o h =
    rw (h, contains_key, (==_iff c.owner a.owner).1 o, not-is_terminal c (λ z. owned (sym o ∙ z)))

pub view-leaf : (a : Arena) (c : Condition) → c.owner ≡ 0 → view a c ≡ some (terminal c.negative)
unfolding view contains
view-leaf a c o = rw (is_terminal_of_owner c o)

pub edge-if :
    (negative s : Bool) (key : NodeKey)
    → (if s then edge negative key.high else edge negative key.low) ≡ edge negative (follow key s)
edge-if negative true key = refl
edge-if negative false key = refl

evaluate_below :
    (fuel r : ℕ) (a : Arena) (σ : ℕ → Bool) (c : Condition)
    → IsValid a
    → a.next_choice < fuel + r
    → r ≤ a.next_choice
    → Above a r c
    → (v : Bool) × (evaluate fuel a c σ ≡ some v) × Value a.nodes σ c v
unfolding evaluate
evaluate_below zero r a σ c valid enough within (leaf o i) = absurd (omega arith)
evaluate_below zero r a σ c valid enough within (inner n k o h rank le) =
    absurd (omega (arith, valid.rank_lt n.key.choice k rank))
evaluate_below (suc fuel) r a σ c valid enough within (leaf o i) =
    (c.negative, rw (view-leaf a c o, evaluate), ends (is_terminal_of_owner c o) refl)
evaluate_below (suc fuel) r a σ c valid enough within (inner n k o h rank le) =
    let red = valid.reduced c.id n h in
    let same : red.rank ≡ k = HasRank-unique a n.key.choice red.rank k red.ranked rank in
    let (v, e, value) =
      evaluate_below fuel (suc red.rank) a σ (edge c.negative (follow n.key (σ n.key.choice))) valid
        (omega arith) (valid.rank_lt n.key.choice red.rank red.ranked)
        (Above-edge c.negative (Above-follow red (σ n.key.choice))) in
    (
      v,
      rw (view-inner a c n valid.owned o h, evaluate, edge-if c.negative (σ n.key.choice) n.key) e,
      branches n (not-is_terminal c (λ z. valid.owned (sym o ∙ z))) h value,
    )

-- `evaluate` returns on every condition of a valid arena, and with the condition's value; a round
-- for each choice born and one more are enough.
pub evaluate_lem :
    (a : Arena) (σ : ℕ → Bool) (c : Condition)
    → IsValid a
    → Above a 0 c
    → (v : Bool) × (evaluate (a.next_choice + 1) a c σ ≡ some v) × Value a.nodes σ c v
evaluate_lem a σ c valid h =
    evaluate_below (a.next_choice + 1) 0 a σ c valid (omega arith) (omega arith) h
