-- ===== src/Condition/Slab.antt =====
-- src/condition.rs: NodeSlab, the nodes in linked blocks of eight. `none` is a panic of the code.
use chrimp.Prelude.{
  List, Option, [], get_elem?, if◌then◌else◌, none, some, suc, zero, ℕ, ◌%◌, ◌*◌, ◌+◌, ◌-◌, ◌/◌,
  ◌==◌, ◌∷◌,
}
use chrimp.Map.{Map, insert, lookup, nat_key, remove}
use chrimp.Condition.Arena.{Node, ◌>>=◌}

abbrev pub node_block : ℕ
node_block = 8

pub record NodeBlock : Type 0 where
  pub nodes : List (Option Node)
  pub live : ℕ
  pub previous : Option ℕ
  pub next : Option ℕ

pub record NodeSlab : Type 0 where
  pub blocks : Map ℕ NodeBlock
  pub first : Option ℕ
  pub last : Option ℕ

abbrev pub flat : Option (Option Node) → Option Node
flat none = none
flat (some o) = o

abbrev pub slot_of : NodeBlock → ℕ → Option Node
slot_of b i = flat (get_elem? b.nodes i)

abbrev pub block_slot : Option NodeBlock → ℕ → Option Node
block_slot none i = none
block_slot (some b) i = slot_of b i

unfoldable pub get : NodeSlab → ℕ → Option Node
get s id = block_slot (lookup (id / node_block) s.blocks) (id % node_block)

abbrev pub set_slot : ℕ → Option Node → List (Option Node) → List (Option Node)
set_slot i o [] = []
set_slot zero o (x ∷ xs) = o ∷ xs
set_slot (suc i) o (x ∷ xs) = x ∷ set_slot i o xs

abbrev pub empty_slots : List (Option Node)
empty_slots = none ∷ none ∷ none ∷ none ∷ none ∷ none ∷ none ∷ none ∷ []

-- `self.block_mut(&epoch).unwrap().next = ..`, and of `previous`.
unfoldable pub set_next : ℕ → Option ℕ → Map ℕ NodeBlock → Option (Map ℕ NodeBlock)
set_next epoch o m = do b ← lookup epoch m; some (insert epoch (record b { next = o }) m)

unfoldable pub set_previous : ℕ → Option ℕ → Map ℕ NodeBlock → Option (Map ℕ NodeBlock)
set_previous epoch o m = do b ← lookup epoch m; some (insert epoch (record b { previous = o }) m)

-- A new block at the end of the list, after the last one or as the first.
unfoldable pub open_after : Option ℕ → ℕ → NodeBlock → NodeSlab → Option NodeSlab
unfolding set_next
open_after (some l) epoch b s = do
  m ← set_next l (some epoch) s.blocks
  some (record s { blocks = insert epoch b m; last = some epoch })
open_after none epoch b s =
    some (record { blocks = insert epoch b s.blocks; first = some epoch; last = some epoch })

unfoldable pub open_block : ℕ → NodeSlab → Option NodeSlab
unfolding open_after
open_block epoch s =
    open_after s.last epoch
      (record { nodes = empty_slots; live = 0; previous = s.last; next = none }) s

unfoldable pub fill_slot : ℕ → Node → NodeSlab → NodeBlock → Option (NodeSlab × ℕ)
fill_slot serial n s b = elim (get_elem? b.nodes (serial % node_block)) [
  | some none ↦
      let c : NodeBlock = record b {
        nodes = set_slot (serial % node_block) (some n) b.nodes;
        live = b.live + 1;
      } in
      some (record s { blocks = insert (serial / node_block) c s.blocks }, serial)
  | _ ↦ none
]

unfoldable pub slab_allocate : NodeSlab → ℕ → Node → Option (NodeSlab × ℕ)
unfolding open_block fill_slot
slab_allocate s serial n = elim (lookup (serial / node_block) s.blocks) [
  | some b ↦ fill_slot serial n s b
  | none ↦ do
    t ← open_block (serial / node_block) s
    b ← lookup (serial / node_block) t.blocks
    fill_slot serial n t b
]

-- The neighbours of a block that goes are linked to each other.
unfoldable pub unlink : ℕ → NodeBlock → NodeSlab → Option NodeSlab
unfolding set_next set_previous
unlink epoch b s = do
  m ← elim b.previous [
    | some p ↦ set_next p b.next (remove epoch s.blocks)
    | none ↦ some (remove epoch s.blocks)
  ]
  k ← elim b.next [ some n ↦ set_previous n b.previous m | none ↦ some m ]
  some (record {
    blocks = k;
    first = elim b.previous [ some p ↦ s.first | none ↦ b.next ];
    last = elim b.next [ some n ↦ s.last | none ↦ b.previous ];
  })

unfoldable pub slab_remove : NodeSlab → ℕ → Option (NodeSlab × Option Node)
unfolding unlink
slab_remove s id = elim (lookup (id / node_block) s.blocks) [
  | none ↦ some (s, none)
  | some b ↦ elim (slot_of b (id % node_block)) [
    | none ↦ some (s, none)
    | some n ↦
        let c : NodeBlock = record b {
          nodes = set_slot (id % node_block) none b.nodes;
          live = b.live - 1;
        } in
        if c.live == 0
        then (do t ← unlink (id / node_block) c s; some (t, some n))
        else some (record s { blocks = insert (id / node_block) c s.blocks }, some n)
  ]
]

-- The first node of some slots, with its position from `i` on.
unfoldable pub find_slot : ℕ → List (Option Node) → Option (ℕ × Node)
find_slot i [] = none
find_slot i (some n ∷ xs) = some (i, n)
find_slot i (none ∷ xs) = find_slot (i + 1) xs

abbrev pub drop : ℕ → List (Option Node) → List (Option Node)
drop zero xs = xs
drop (suc n) [] = []
drop (suc n) (x ∷ xs) = drop n xs

-- The node after a position, in its block or first in the next one.
unfoldable pub next_from : NodeSlab → ℕ → ℕ → Option (Option (ℕ × Node))
unfolding find_slot
next_from s epoch i = do
  b ← lookup epoch s.blocks
  elim (find_slot i (drop i b.nodes)) [
    | some (j, n) ↦ some (some (epoch * node_block + j, n))
    | none ↦ elim b.next [
      | none ↦ some none
      | some later ↦ do
        c ← lookup later s.blocks
        (j, n) ← find_slot 0 c.nodes
        some (some (later * node_block + j, n))
    ]
  ]

unfoldable pub slab_next : NodeSlab → Option ℕ → Option (Option (ℕ × Node))
unfolding next_from
slab_next s (some id) = next_from s (id / node_block) (id % node_block + 1)
slab_next s none = elim s.first [ none ↦ some none | some epoch ↦ next_from s epoch 0 ]
