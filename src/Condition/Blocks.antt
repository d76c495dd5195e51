-- ===== src/Condition/Blocks.antt =====
-- src/condition.rs: NodeSlab holds what is allocated, as a map from identities to nodes does.
-- Every block has eight slots, and the last block is there.
use chrimp.Prelude.{
  ==_iff, Bool-cases, List, Option, Option-cases, [], ap, arith, false, get_elem?, if◌then◌else◌,
  inl, inr, length, none, refl, some, some-injective, subst, suc, sym, true, zero, ℕ, ◌%◌, ◌/◌, ◌<◌,
  ◌==◌, ◌∙◌, ◌∷◌, ◌≡◌, ◌⊎◌,
}
use chrimp.Map.{insert, lookup, lookup-insert, nat_key}
use chrimp.Condition.Arena.{Node, ◌>>=◌}
use chrimp.Condition.Slab.{
  NodeBlock, NodeSlab, block_slot, empty_slots, fill_slot, flat, get, node_block, open_after,
  open_block, set_next, set_slot, slab_allocate, slot_of,
}

unfoldable pub IsSlab : NodeSlab → Type 0
IsSlab s =
    ((k : ℕ) (b : NodeBlock) → lookup k s.blocks ≡ some b → length b.nodes ≡ node_block)
    × ((l : ℕ) → s.last ≡ some l → (b : NodeBlock) × (lookup l s.blocks ≡ some b))

-- The slab with one more node, and its identity.
unfoldable pub Allocates : NodeSlab → ℕ → Node → Option (NodeSlab × ℕ) → Type 0
Allocates s serial n none = ⊥
Allocates s serial n (some (t, id)) =
    (id ≡ serial) × IsSlab t × ((j : ℕ) → get t j ≡ (if serial == j then some n else get s j))

get_elem?-set_slot :
    (i k : ℕ) (o : Option Node) (xs : List (Option Node))
    → i < length xs
    → get_elem? (set_slot i o xs) k ≡ (if i == k then some o else get_elem? xs k)
get_elem?-set_slot i k o [] h = absurd (omega arith)
get_elem?-set_slot zero zero o (x ∷ xs) h = refl
get_elem?-set_slot zero (suc k) o (x ∷ xs) h = ground arith
get_elem?-set_slot (suc i) zero o (x ∷ xs) h = ground arith
get_elem?-set_slot (suc i) (suc k) o (x ∷ xs) h =
    get_elem?-set_slot i k o xs (omega arith) ∙ ground arith

length-set_slot :
    (i : ℕ) (o : Option Node) (xs : List (Option Node)) → length (set_slot i o xs) ≡ length xs
length-set_slot i o [] = refl
length-set_slot zero o (x ∷ xs) = refl
length-set_slot (suc i) o (x ∷ xs) = omega (arith, length-set_slot i o xs)

get_elem?-in_range :
    (xs : List (Option Node)) (i : ℕ)
    → i < length xs
    → flat (get_elem? xs i) ≡ none
    → get_elem? xs i ≡ some none
get_elem?-in_range [] i h e = absurd (omega arith)
get_elem?-in_range (none ∷ xs) zero h e = refl
get_elem?-in_range (some n ∷ xs) zero h e = cc
get_elem?-in_range (x ∷ xs) (suc i) h e = get_elem?-in_range xs i (omega arith) e

-- A block that replaces another keeps the slab's shape.
IsSlab-insert :
    (s : NodeSlab) (k : ℕ) (b : NodeBlock) (first last : Option ℕ)
    → IsSlab s
    → length b.nodes ≡ node_block
    → ((l : ℕ) → last ≡ some l → (l ≡ k) ⊎ (s.last ≡ some l))
    → IsSlab (record { blocks = insert k b s.blocks; first = first; last = last })
unfolding IsSlab
IsSlab-insert s k b first last (p, q) e h = (sizes, ends)
  where
    sizes :
        (j : ℕ) (c : NodeBlock)
        → lookup j (insert k b s.blocks) ≡ some c
        → length c.nodes ≡ node_block
    sizes j c g = elim (Bool-cases (k == j)) [
      | inl t ↦
          let same : b ≡ c =
            some-injective _ _ (sym (rw t at (lookup-insert j k b s.blocks)) ∙ g) in
          sym (ap (λ d. length (NodeBlock.nodes d)) same) ∙ e
      | inr t ↦ p j c (sym (rw t at (lookup-insert j k b s.blocks)) ∙ g)
    ]

    ends : (l : ℕ) → last ≡ some l → (c : NodeBlock) × (lookup l (insert k b s.blocks) ≡ some c)
    ends l g = elim (Bool-cases (k == l)) [
      | inl t ↦ (b, lookup-insert l k b s.blocks ∙ rw t refl)
      | inr t ↦ elim (h l g) [
        | inl same ↦ absurd (ground arith)
        | inr old ↦ let (c, r) = q l old in (c, lookup-insert l k b s.blocks ∙ rw t r)
      ]
    ]

same_place : (i j : ℕ) → i / node_block ≡ j / node_block → i % node_block ≡ j % node_block → i ≡ j
same_place i j h e = omega arith

-- What is read after a node is put in a slot of the block `b`.
get-filled :
    (s : NodeSlab) (serial : ℕ) (n : Node) (b c : NodeBlock) (j : ℕ)
    → lookup (serial / node_block) s.blocks ≡ some b
    → c.nodes ≡ set_slot (serial % node_block) (some n) b.nodes
    → length b.nodes ≡ node_block
    → get (record s { blocks = insert (serial / node_block) c s.blocks }) j
      ≡ (if serial == j then some n else get s j)
unfolding get
get-filled s serial n b c j e k w =
    rw (lookup-insert (j / node_block) (serial / node_block) c s.blocks)
      (elim (Bool-cases (serial / node_block == j / node_block)) [
        | inr t ↦ rw t (rw (apart (λ h. absurd (other h t))) refl)
        | inl t ↦
            rw
              (
                t,
                k,
                get_elem?-set_slot (serial % node_block) (j % node_block) (some n) b.nodes
                    (omega arith),
              )
              (within t)
      ])
  where
    other : serial ≡ j → (serial / node_block == j / node_block) ≡ false → ⊥
    other h t = ground arith

    apart : (serial ≡ j → ⊥) → (serial == j) ≡ false
    apart h = ground arith

    within :
        (serial / node_block == j / node_block) ≡ true
        → flat (
            if serial % node_block == j % node_block
            then some (some n)
            else get_elem? b.nodes (j % node_block))
          ≡ (if serial == j
              then some n
              else block_slot (lookup (j / node_block) s.blocks) (j % node_block))
    within t =
        let here : serial / node_block ≡ j / node_block =
          (==_iff (serial / node_block) (j / node_block)).0 t in
        let known : lookup (j / node_block) s.blocks ≡ some b =
          subst (λ i. lookup i s.blocks ≡ some b) here e in
        elim (Bool-cases (serial % node_block == j % node_block)) [
          | inl u ↦
              let same : serial ≡ j =
                same_place serial j here ((==_iff (serial % node_block) (j % node_block)).0 u) in
              rw (u, (==_iff serial j).1 same) refl
          | inr u ↦ rw (u, apart (λ h. absurd (differ h u)), known) refl
        ]
      where
        differ : serial ≡ j → (serial % node_block == j % node_block) ≡ false → ⊥
        differ h u = ground arith

fill_slot-Allocates :
    (s : NodeSlab) (serial : ℕ) (n : Node) (b : NodeBlock)
    → IsSlab s
    → lookup (serial / node_block) s.blocks ≡ some b
    → get s serial ≡ none
    → Allocates s serial n (fill_slot serial n s b)
unfolding fill_slot Allocates get IsSlab
fill_slot-Allocates s serial n b h e g =
    let size : length b.nodes ≡ node_block = h.0 (serial / node_block) b e in
    let free : get_elem? b.nodes (serial % node_block) ≡ some none =
      get_elem?-in_range b.nodes (serial % node_block) (omega arith) (rw e at g) in
    rw (free, fill_slot)
      (
        refl,
        IsSlab-insert s (serial / node_block) _ s.first s.last h
            (length-set_slot (serial % node_block) (some n) b.nodes ∙ size) (λ l k. inr k),
        λ j. get-filled s serial n b _ j e refl size,
      )

-- The slab with a block for the epoch, and the same nodes.
unfoldable Opens : NodeSlab → ℕ → Option NodeSlab → Type 0
Opens s epoch none = ⊥
Opens s epoch (some t) =
    IsSlab t × ((b : NodeBlock) × (lookup epoch t.blocks ≡ some b)) × ((j : ℕ) → get t j ≡ get s j)

empty_slots-none : (i : ℕ) → flat (get_elem? empty_slots i) ≡ none
empty_slots-none zero = refl
empty_slots-none (suc zero) = refl
empty_slots-none (suc (suc zero)) = refl
empty_slots-none (suc (suc (suc zero))) = refl
empty_slots-none (suc (suc (suc (suc zero)))) = refl
empty_slots-none (suc (suc (suc (suc (suc zero))))) = refl
empty_slots-none (suc (suc (suc (suc (suc (suc zero)))))) = refl
empty_slots-none (suc (suc (suc (suc (suc (suc (suc zero))))))) = refl
empty_slots-none (suc (suc (suc (suc (suc (suc (suc (suc i)))))))) = refl

-- A block that reads as the one it replaces, or as none, changes no node.
get-replaced :
    (s : NodeSlab) (k : ℕ) (b : NodeBlock) (first last : Option ℕ) (j : ℕ)
    → ((i : ℕ) → slot_of b i ≡ block_slot (lookup k s.blocks) i)
    → get (record { blocks = insert k b s.blocks; first = first; last = last }) j ≡ get s j
unfolding get
get-replaced s k b first last j h =
    rw (lookup-insert (j / node_block) k b s.blocks) (elim (Bool-cases (k == j / node_block)) [
      | inl t ↦ rw t (
          h (j % node_block)
          ∙ ap (λ i. block_slot (lookup i s.blocks) (j % node_block))
              ((==_iff k (j / node_block)).0 t))
      | inr t ↦ rw t refl
    ])

add_block :
    (s : NodeSlab) (epoch : ℕ) (first previous : Option ℕ)
    → IsSlab s
    → lookup epoch s.blocks ≡ none
    → Opens s epoch (
        some (record {
          blocks =
              insert epoch
                (record { nodes = empty_slots; live = 0; previous = previous; next = none })
                s.blocks;
          first = first;
          last = some epoch;
        }))
unfolding Opens
add_block s epoch first previous h e =
    let b : NodeBlock = record {
      nodes = empty_slots;
      live = 0;
      previous = previous;
      next = none;
    } in
    (
      IsSlab-insert s epoch b first (some epoch) h refl (λ l g. inl (sym (some-injective _ _ g))),
      (b, lookup-insert epoch epoch b s.blocks ∙ rw ((==_iff epoch epoch).1 refl) refl),
      λ j. get-replaced s epoch b first (some epoch) j (λ i. rw e (empty_slots-none i)),
    )

last_block :
    (s : NodeSlab) (l : ℕ)
    → IsSlab s
    → s.last ≡ some l
    → (b : NodeBlock) × (lookup l s.blocks ≡ some b)
unfolding IsSlab
last_block s l h g = h.1 l g

block_size :
    (s : NodeSlab) (k : ℕ) (b : NodeBlock)
    → IsSlab s
    → lookup k s.blocks ≡ some b
    → length b.nodes ≡ node_block
unfolding IsSlab
block_size s k b h e = h.0 k b e

Opens-trans :
    (s t : NodeSlab) (epoch : ℕ) (o : Option NodeSlab)
    → ((j : ℕ) → get t j ≡ get s j)
    → Opens t epoch o
    → Opens s epoch o
unfolding Opens
Opens-trans s t epoch none h k = k
Opens-trans s t epoch (some u) h (k, b, g) = (k, b, λ j. g j ∙ h j)

some≢none : (b : NodeBlock) → some b ≡ none → ⊥
some≢none b p = cc

open_after-Opens :
    (o previous : Option ℕ) (s : NodeSlab) (epoch : ℕ)
    → s.last ≡ o
    → IsSlab s
    → lookup epoch s.blocks ≡ none
    → Opens s epoch (
        open_after o epoch
          (record { nodes = empty_slots; live = 0; previous = previous; next = none })
          s)
unfolding open_after set_next
open_after-Opens none previous s epoch g h e = add_block s epoch (some epoch) previous h e
open_after-Opens (some l) previous s epoch g h e =
    let (b, r) = last_block s l h g in
    let c : NodeBlock = record b { next = some epoch } in
    let t : NodeSlab = record s { blocks = insert l c s.blocks } in
    let k : IsSlab t = IsSlab-insert s l c s.first s.last h (block_size s l b h r) (λ j u. inr u) in
    let u : lookup epoch t.blocks ≡ none =
      lookup-insert epoch l c s.blocks ∙ rw (distinct l epoch b r e) e in
    rw (r, set_next)
      (Opens-trans s t epoch _ (λ j. get-replaced s l c s.first s.last j (λ i. rw r refl))
        (add_block t epoch s.first previous k u))
  where
    distinct :
        (j i : ℕ) (b : NodeBlock)
        → lookup j s.blocks ≡ some b
        → lookup i s.blocks ≡ none
        → (j == i) ≡ false
    distinct j i b r n = elim (Bool-cases (j == i)) [
      | inl t ↦
          absurd
            (some≢none _ (sym (subst (λ x. lookup x s.blocks ≡ some b) ((==_iff j i).0 t) r) ∙ n))
      | inr t ↦ t
    ]

open_block-Opens :
    (s : NodeSlab) (epoch : ℕ)
    → IsSlab s
    → lookup epoch s.blocks ≡ none
    → Opens s epoch (open_block epoch s)
unfolding open_block
open_block-Opens s epoch h e = open_after-Opens s.last s.last s epoch refl h e

Allocates-trans :
    (s t : NodeSlab) (serial : ℕ) (n : Node) (o : Option (NodeSlab × ℕ))
    → ((j : ℕ) → get t j ≡ get s j)
    → Allocates t serial n o
    → Allocates s serial n o
unfolding Allocates
Allocates-trans s t serial n none h k = k
Allocates-trans s t serial n (some (u, id)) h (k, b, g) = (k, b, λ j. rw (g j, h j) refl)

-- After the block is opened, the slot is filled.
fill_opened :
    (s : NodeSlab) (serial : ℕ) (n : Node) (o : Option NodeSlab)
    → get s serial ≡ none
    → Opens s (serial / node_block) o
    → Allocates s serial n
        (do t ← o; b ← lookup (serial / node_block) t.blocks; fill_slot serial n t b)
unfolding Opens
fill_opened s serial n none g k = absurd k
fill_opened s serial n (some t) g (k, (b, e), h) =
    rw e (Allocates-trans s t serial n _ h (fill_slot-Allocates t serial n b k e (h serial ∙ g)))

-- allocate puts the node where the slab reads its identity, changes no other node, and keeps the
-- shape of the slab, which holds no node of that identity before.
pub slab_allocate-Allocates :
    (s : NodeSlab) (serial : ℕ) (n : Node)
    → IsSlab s
    → get s serial ≡ none
    → Allocates s serial n (slab_allocate s serial n)
unfolding slab_allocate
slab_allocate-Allocates s serial n h g =
    elim (Option-cases (lookup (serial / node_block) s.blocks)) [
      | inr (b, e) ↦ rw (e, slab_allocate) (fill_slot-Allocates s serial n b h e g)
      | inl e ↦
          rw (e, slab_allocate)
            (fill_opened s serial n (open_block (serial / node_block) s) g
              (open_block-Opens s (serial / node_block) h e))
    ]
