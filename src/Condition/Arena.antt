-- ===== src/Condition/Arena.antt =====
-- src/condition.rs: the arena of diagram nodes while no reordering is under way (`sift` is none,
-- so `sift_tick` returns at once and `count_edges` is off). `none` is a panic of the code.
use chrimp.Prelude.{
  Bool, List, Option, [], false, if◌then◌else◌, length, ltb, max, none, some, suc, true, zero, ℕ,
  ◌&&◌, ◌++◌, ◌+◌, ◌==◌, ◌^◌, ◌||◌, ◌∷◌,
}
use chrimp.Map.{Map, insert, lookup, nat_key, remove}
use chrimp.Condition.Handle.{
  Condition, Pair, condition_key, false_condition, is_terminal, negate, pair_key, same, simple,
  true_condition,
}
use chrimp.Condition.Key.{NodeKey, node_key}

abbrev pub IdSet : Type 0
IdSet = Map ℕ (Unit {0})

pub record ChoiceOrder : Type 0 where
  pub rank : ℕ
  pub after : Option ℕ
  pub nodes : IdSet

pub record Node : Type 0 where
  pub key : NodeKey
  pub marked : ℕ
  pub references : ℕ
  pub references_epoch : ℕ
  pub archived : ℕ
  pub archive_references : ℕ
  pub max_choice : ℕ

-- `nodes` is the slab read by identity.
pub record Arena : Type 0 where
  pub owner : ℕ
  pub nodes : Map ℕ Node
  pub unprotected : Option IdSet
  pub next_node : ℕ
  pub unique : Map NodeKey Condition
  pub cache : Map Pair Condition
  pub cache_order : List Pair
  pub next_choice : ℕ
  pub order : Map ℕ ChoiceOrder
  pub ranks : Map ℕ ℕ
  pub order_epoch : ℕ
  pub order_readers : ℕ
  pub frozen : Bool

abbrev pub cache_limit : ℕ
cache_limit = 1024

infixl 5 ◌>>=◌
abbrev pub ◌>>=◌ {ℓ κ} : {A : Type ℓ} {B : Type κ} → Option A → (A → Option B) → Option B
none >>= f = none
some a >>= f = f a

-- `n.checked_add(1)` of a u64.
unfoldable pub checked_add_one : ℕ → Option ℕ
checked_add_one n = if ltb (n + 1) (2 ^ 64) then some (n + 1) else none

abbrev pub contains_key : {V : Type 0} → ℕ → Map ℕ V → Bool
contains_key k m = elim (lookup k m) [ none ↦ false | some v ↦ true ]

unfoldable pub contains : Arena → Condition → Bool
contains a c = is_terminal c || (c.owner == a.owner && contains_key c.id a.nodes)

pub data View : Type 0 where
  terminal : Bool → View
  choice : ℕ → Condition → Condition → View

abbrev pub edge : Bool → Condition → Condition
edge negative c = if negative then negate c else c

unfoldable pub view : Arena → Condition → Option View
view a c =
    if contains a c
    then (if is_terminal c then some (terminal c.negative) else do
      node ← lookup c.id a.nodes
      some (choice node.key.choice (edge c.negative node.key.low) (edge c.negative node.key.high)))
    else none

-- The `loop` of `evaluate`, on fuel.
unfoldable pub evaluate : ℕ → Arena → Condition → (ℕ → Bool) → Option Bool
evaluate zero a c assignment = none
evaluate (suc fuel) a c assignment = elim (view a c) [
  | none ↦ none
  | some v ↦ elim v [
    | terminal value ↦ some value
    | choice k low high ↦ evaluate fuel a (if assignment k then high else low) assignment
  ]
]

-- `self.nodes[&id]` panics where there is no node.
unfoldable pub support_max : Arena → Condition → Option (Option ℕ)
support_max a c =
    if is_terminal c then some none else do node ← lookup c.id a.nodes; some (some node.max_choice)

abbrev pub unwrap_or : Option ℕ → ℕ → ℕ
unwrap_or none d = d
unwrap_or (some n) d = n

-- `self.order.entry(choice).or_insert_with(..)`.
unfoldable pub or_insert_order : ℕ → Arena → Arena × ChoiceOrder
or_insert_order k a = elim (lookup k a.order) [
  | some entry ↦ (a, entry)
  | none ↦
      let entry : ChoiceOrder = record { rank = k; after = none; nodes = [] } in
      (record a { order = insert k entry a.order; ranks = insert k k a.ranks }, entry)
]

abbrev pub add_unprotected : ℕ → Option IdSet → Option IdSet
add_unprotected id none = none
add_unprotected id (some ids) = some (insert id tt ids)

-- The branch of `node` for a key that the canonical table lacks, with `NodeSlab::allocate`, which
-- panics on a serial in use.
unfoldable pub allocate : Arena → NodeKey → Option (Arena × Condition)
unfolding checked_add_one support_max or_insert_order
allocate a key = do
  let serial = a.next_node
  next ← checked_add_one serial
  low_max ← support_max a key.low
  high_max ← support_max a key.high
  if contains_key serial a.nodes then none else do
    let node : Node = record {
      key = key;
      marked = 0;
      references = 0;
      references_epoch = 0;
      archived = 0;
      archive_references = 0;
      max_choice =
          max (max key.choice (unwrap_or low_max key.choice)) (unwrap_or high_max key.choice);
    }
    let (b, entry) = or_insert_order key.choice a
    let handle : Condition = record { owner = a.owner; id = serial; negative = false }
    some (
      record b {
        next_node = next;
        nodes = insert serial node b.nodes;
        unprotected = add_unprotected serial b.unprotected;
        order = insert key.choice (record entry { nodes = insert serial tt entry.nodes }) b.order;
        unique = insert key handle b.unique;
      },
      handle,
    )

unfoldable pub node : Arena → ℕ → Condition → Condition → Option (Arena × Condition)
node a k low high =
    if same low high
    then some (a, low)
    else let negative = low.negative in
      let key : NodeKey = record {
        choice = k;
        low = edge negative low;
        high = edge negative high;
      } in
      elim (lookup key a.unique) [
        | some found ↦ some (a, edge negative found)
        | none ↦ do (b, handle) ← allocate a key; some (b, edge negative handle)
      ]

unfoldable pub fresh_choice : Arena → Option (Arena × ℕ × Condition)
fresh_choice a = if a.frozen then none else do
  next ← checked_add_one a.next_choice
  (b, c) ← node (record a { next_choice = next }) a.next_choice false_condition true_condition
  some (b, a.next_choice, c)

-- A choice born under a scope records the last choice that the scope may test.
unfoldable pub fresh_scoped_choice : Arena → Condition → Option (Arena × ℕ × Condition)
unfolding support_max
fresh_scoped_choice a scope =
    if contains a scope
    then (do
      after ← support_max a scope
      (b, k, c) ← fresh_choice a
      entry ← lookup k b.order
      some (record b { order = insert k (record entry { after = after }) b.order }, k, c))
    else none

unfoldable pub precedes : Arena → ℕ → ℕ → Option Bool
precedes a j k = do
  first ← lookup j a.order
  second ← lookup k a.order
  some (ltb first.rank second.rank)

unfoldable pub cached : Arena → Pair → Option Condition
cached a pair = elim (simple pair) [ some c ↦ some c | none ↦ lookup pair a.cache ]

abbrev pub pop_front : {A : Type 0} → List A → Option (A × List A)
pop_front [] = none
pop_front (x ∷ xs) = some (x, xs)

unfoldable pub remember : Arena → Pair → Condition → Option Arena
remember a pair result = elim (lookup pair a.cache) [
  | some known ↦ some a
  | none ↦ do
    b ←
        (if length a.cache == cache_limit
          then (do
            (oldest, rest) ← pop_front a.cache_order
            some (record a { cache = remove oldest a.cache; cache_order = rest }))
          else some a)
    some (record b { cache = insert pair result b.cache; cache_order = b.cache_order ++ pair ∷ [] })
]
