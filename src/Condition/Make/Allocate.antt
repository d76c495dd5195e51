-- ===== src/Condition/Make/Allocate.antt =====
-- src/condition.rs: the branch of `node` that allocates, on an arena where the choice has its rank.
use chrimp.Prelude.{
  Bool-cases, arith, false, if◌then◌else◌, inl, inr, none, refl, some, subst, suc, ℕ, ◌+◌, ◌==◌,
  ◌≡◌, ◌≢◌,
}
use chrimp.Map.{insert, lookup, lookup-insert, nat_key}
use chrimp.Condition.Handle.{Condition, condition_key, pair_key}
use chrimp.Condition.Key.{NodeKey, node_key, same_node_key, same_node_key_iff}
use chrimp.Condition.Arena.{Arena, ChoiceOrder, Node, add_unprotected}
use chrimp.Condition.Meaning.{Extends}
use chrimp.Condition.Valid.{
  Above, Grows, HasRank, IsConjunction-grow, IsReduced, IsReduced-grow, IsValid,
}

abbrev pub handle_at : Arena → ℕ → Condition
handle_at a id = record { owner = a.owner; id = id; negative = false }

-- The arena after the allocation of `n` under a choice with the entry `entry`.
abbrev pub allocated : Arena → ChoiceOrder → Node → Arena
allocated a entry n = record a {
  next_node = a.next_node + 1;
  nodes = insert a.next_node n a.nodes;
  unprotected = add_unprotected a.next_node a.unprotected;
  order = insert n.key.choice (record entry { nodes = insert a.next_node tt entry.nodes }) a.order;
  unique = insert n.key (handle_at a a.next_node) a.unique;
}

-- What the allocation of `n` needs.
pub record IsReady (a : Arena) (entry : ChoiceOrder) (n : Node) : Type 0 where
  pub valid : IsValid a
  pub entered : lookup n.key.choice a.order ≡ some entry
  pub low_above : Above a (suc entry.rank) n.key.low
  pub high_above : Above a (suc entry.rank) n.key.high
  pub distinct : n.key.low ≢ n.key.high
  pub plain : n.key.low.negative ≡ false
  pub absent : lookup n.key a.unique ≡ none

module _ (a : Arena) (entry : ChoiceOrder) (n : Node) (ready : IsReady a entry n) where
  open ready use {valid, entered}

  pub lookup-allocated :
      (id : ℕ)
      → lookup id (allocated a entry n).nodes
        ≡ (if a.next_node == id then some n else lookup id a.nodes)
  lookup-allocated id = lookup-insert id a.next_node n a.nodes

  allocated-Extends : Extends a.nodes (allocated a entry n).nodes
  allocated-Extends = record {
    keeps = λ id m h. rw lookup-allocated (ground (arith, valid.serial id m h));
  }

  abbrev entry' : ChoiceOrder
  entry' = record entry { nodes = insert a.next_node tt entry.nodes }

  HasRank-allocated : (k r : ℕ) → HasRank a k r → HasRank (allocated a entry n) k r
  HasRank-allocated k r (e, h, p) = elim (Bool-cases (n.key.choice == k)) [
    | inl eq ↦ (entry', rw (lookup-insert, eq), ground (arith, entered))
    | inr ne ↦ (e, rw (lookup-insert, ne) h, p)
  ]

  allocated-HasRank : (k r : ℕ) → HasRank (allocated a entry n) k r → HasRank a k r
  allocated-HasRank k r (e, h, p) = elim (Bool-cases (n.key.choice == k)) [
    | inl eq ↦ (
      entry,
      ground (arith, entered),
      ground (arith, lookup-insert k n.key.choice entry' a.order),
    )
    | inr ne ↦ (e, ground (arith, lookup-insert k n.key.choice entry' a.order), p)
  ]

  pub allocated-Grows : Grows a (allocated a entry n)
  allocated-Grows = record {
    owner = refl;
    nodes = allocated-Extends;
    ranks = HasRank-allocated;
    choices = omega arith;
  }

  new-IsReduced : IsReduced (allocated a entry n) n.key
  new-IsReduced = IsReduced-grow allocated-Grows (record {
    rank = entry.rank;
    ranked = (entry, entered, refl);
    low_above = ready.low_above;
    high_above = ready.high_above;
    distinct = ready.distinct;
    plain = ready.plain;
  })

  reduced :
      (id : ℕ) (m : Node)
      → lookup id (allocated a entry n).nodes ≡ some m
      → IsReduced (allocated a entry n) m.key
  reduced id m h = elim (Bool-cases (a.next_node == id)) [
    | inl eq ↦
        let e : n ≡ m = ground (arith, lookup-allocated id) in
        subst (λ (x : Node). IsReduced (allocated a entry n) x.key) e new-IsReduced
    | inr ne ↦
        IsReduced-grow allocated-Grows (valid.reduced id m (ground (arith, lookup-allocated id)))
  ]

  unique_sound :
      (key : NodeKey) (c : Condition)
      → lookup key (allocated a entry n).unique ≡ some c
      → (c ≡ handle_at a c.id)
        × (m : Node) × (lookup c.id (allocated a entry n).nodes ≡ some m)
        × (m.key ≡ key)
  unique_sound key c h = elim (Bool-cases (same_node_key n.key key)) [
    | inl eq ↦
        let e : c ≡ handle_at a a.next_node =
          ground (arith, lookup-insert key n.key (handle_at a a.next_node) a.unique) in
        (ground arith, n, ground (arith, lookup-allocated c.id), (same_node_key_iff n.key key).0 eq)
    | inr ne ↦
        let (e, m, f, g) =
          valid.unique_sound key c
            (ground (arith, lookup-insert key n.key (handle_at a a.next_node) a.unique)) in
        (e, m, allocated-Extends.keeps c.id m f, g)
  ]

  unique_complete :
      (id : ℕ) (m : Node)
      → lookup id (allocated a entry n).nodes ≡ some m
      → lookup m.key (allocated a entry n).unique ≡ some (handle_at a id)
  unique_complete id m h = rw lookup-insert (
      ground (
        arith,
        lookup-allocated id,
        same_node_key_iff n.key m.key,
        ready.absent,
        valid.unique_complete id m,
      ))

  pub allocated-IsValid : IsValid (allocated a entry n)
  allocated-IsValid = record {
    owned = valid.owned;
    serial = λ id m h. ground (arith, lookup-allocated id, valid.serial id m);
    reduced = reduced;
    unique_sound = unique_sound;
    unique_complete = unique_complete;
    rank_lt = λ k r h. valid.rank_lt k r (allocated-HasRank k r h);
    choice_lt = λ k r h. valid.choice_lt k r (allocated-HasRank k r h);
    rank_injective = λ j k r h h'.
        valid.rank_injective j k r (allocated-HasRank j r h) (allocated-HasRank k r h');
    queue = valid.queue;
    cache_sound = λ p r h. IsConjunction-grow valid allocated-Grows (valid.cache_sound p r h);
  }
