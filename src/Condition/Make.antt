-- ===== src/Condition/Make.antt =====
-- src/condition.rs: `Arena::node`, which keeps an arena valid and makes the diagram asked for.
mod Allocate
use chrimp.Prelude.{
  Bool, Bool-cases, Option, Option-cases, ap, arith, false, if◌then◌else◌, inl, inr, ltb, ltb→lt,
  lt→ltb, max, none, refl, some, subst, suc, sym, true, ℕ, ◌+◌, ◌<◌, ◌^◌, ◌∙◌, ◌≡◌, ◌≢◌, ◌≤◌,
}
use chrimp.Map.{lookup, nat_key}
use chrimp.Condition.Handle.{Condition, condition_key, negate, pair_key, same, same_iff}
use chrimp.Condition.Key.{NodeKey, node_key}
use chrimp.Condition.Arena.{
  Arena, Node, allocate, choice, contains_key, edge, node, or_insert_order, support_max, unwrap_or,
}
use chrimp.Condition.Meaning.{Value, Value-edge, branches, edge-injective, flip, flip-flip, follow}
use chrimp.Condition.Valid.{
  Above, Above-edge, Above-weaken, Grows, Grows-refl, HasRank, IsValid, inner, is_terminal_of_owner,
  leaf, not-is_terminal,
}
use Allocate.{allocated, handle_at, IsReady, allocated-IsValid, allocated-Grows, lookup-allocated}

-- The fields that the making of a node leaves alone.
pub record Quiet (a b : Arena) : Type 0 where
  pub cache : b.cache ≡ a.cache
  pub cache_order : b.cache_order ≡ a.cache_order
  pub next_choice : b.next_choice ≡ a.next_choice
  pub order_epoch : b.order_epoch ≡ a.order_epoch
  pub order_readers : b.order_readers ≡ a.order_readers
  pub frozen : b.frozen ≡ a.frozen

Quiet-refl : (a : Arena) → Quiet a a
Quiet-refl a = record {
  cache = refl;
  cache_order = refl;
  next_choice = refl;
  order_epoch = refl;
  order_readers = refl;
  frozen = refl;
}

-- The choice between two conditions, as a condition of the arena `b` grown from `a`.
pub record Made (a b : Arena) (k r : ℕ) (low high c : Condition) : Type 0 where
  pub valid : IsValid b
  pub grows : Grows a b
  pub quiet : Quiet a b
  pub serials : b.next_node ≤ a.next_node + 1
  pub above : Above b r c
  pub value :
      (σ : ℕ → Bool) (x : Bool)
      → Value b.nodes σ (if σ k then high else low) x
      → Value b.nodes σ c x

-- `node` makes the choice, or the 2^64 identities are used up.
pub data Makes (a : Arena) (k r : ℕ) (low high : Condition)
    : Option (Arena × Condition) → Type 0 where
  exhausted : 2 ^ 64 ≤ a.next_node + 1 → Makes a k r low high none
  made : {b : Arena} {c : Condition} → Made a b k r low high c → Makes a k r low high (some (b, c))

-- A stored node whose key is the choice with both edges complemented alike.
key_Value :
    (b : Arena) (σ : ℕ → Bool) (k id : ℕ) (low high : Condition) (negative : Bool) (n : Node)
    (x : Bool)
    → b.owner ≢ 0
    → lookup id b.nodes ≡ some n
    → n.key ≡ record { choice = k; low = edge negative low; high = edge negative high }
    → Value b.nodes σ (if σ k then high else low) x
    → Value b.nodes σ (edge negative (handle_at b id)) x
key_Value b σ k id low high negative n x owned h e v =
    subst (Value b.nodes σ (edge negative (handle_at b id))) (flip-flip negative x) (
      Value-edge negative (
        branches n (not-is_terminal (handle_at b id) owned) h (
          subst (λ (key : NodeKey). Value b.nodes σ (follow key (σ key.choice)) (flip negative x))
            (sym e)
            (subst (λ c. Value b.nodes σ c (flip negative x)) (edge-follow (σ k))
              (Value-edge negative v)))))
  where
    edge-follow :
        (s : Bool)
        → edge negative (if s then high else low)
          ≡ (if s then edge negative high else edge negative low)
    edge-follow true = refl
    edge-follow false = refl

support_max-Above :
    (a : Arena) (r : ℕ) (c : Condition)
    → IsValid a
    → Above a r c
    → (m : Option ℕ) × (support_max a c ≡ some m)
unfolding support_max
support_max-Above a r c valid (leaf o i) = (none, rw (is_terminal_of_owner c o))
support_max-Above a r c valid (inner n k o h rank le) =
    (some n.max_choice, rw (not-is_terminal c (λ z. valid.owned (sym o ∙ z)), h))

module _ (a : Arena) (k r : ℕ) (low high : Condition) (valid : IsValid a) (ranked : HasRank a k r)
    (low_above : Above a (suc r) low) (high_above : Above a (suc r) high) where
  abbrev key_of : NodeKey
  key_of = record { choice = k; low = edge low.negative low; high = edge low.negative high }

  abbrev node_of : Option ℕ → Option ℕ → Node
  node_of low_max high_max = record {
    key = key_of;
    marked = 0;
    references = 0;
    references_epoch = 0;
    archived = 0;
    archive_references = 0;
    max_choice = max (max k (unwrap_or low_max k)) (unwrap_or high_max k);
  }

  plain_low : (edge low.negative low).negative ≡ false
  unfolding negate
  plain_low = ground arith

  node_same : low ≡ high → Makes a k r low high (node a k low high)
  unfolding node
  node_same e = rw ((same_iff low high).1 e) (
      made (record {
        valid = valid;
        grows = Grows-refl a;
        quiet = Quiet-refl a;
        serials = omega arith;
        above = Above-weaken (omega arith) low_above;
        value = λ σ x v. subst (λ c. Value a.nodes σ c x) (same_branch (σ k)) v;
      }))
    where
      same_branch : (s : Bool) → (if s then high else low) ≡ low
      same_branch true = sym e
      same_branch false = refl

  fresh_slot : lookup a.next_node a.nodes ≡ none
  fresh_slot = elim (Option-cases (lookup a.next_node a.nodes)) [
    | inl free ↦ free
    | inr (n, taken) ↦ absurd (omega (arith, valid.serial a.next_node n taken))
  ]

  -- Where the identities suffice, the branch allocates one node and panics nowhere.
  allocate_lem :
      a.next_node + 1 < 2 ^ 64
      → (low_max high_max : Option ℕ) × (allocate a key_of
          ≡ some (allocated a ranked.0 (node_of low_max high_max), handle_at a a.next_node))
  unfolding allocate
  allocate_lem room =
      let (low_max, f) =
        support_max-Above a (suc r) (edge low.negative low) valid
          (Above-edge low.negative low_above) in
      let (high_max, g) =
        support_max-Above a (suc r) (edge low.negative high) valid
          (Above-edge low.negative high_above) in
      (
        low_max,
        high_max,
        rw (lt→ltb _ _ room, f, g, fresh_slot, ranked.1, contains_key, or_insert_order),
      )

  new_node_Makes :
      (low_max high_max : Option ℕ)
      → low ≢ high
      → lookup key_of a.unique ≡ none
      → Made a
          (allocated a ranked.0 (node_of low_max high_max))
          k
          r
          low
          high
          (edge low.negative (handle_at a a.next_node))
  new_node_Makes low_max high_max ne absent =
      let n : Node = node_of low_max high_max in
      let ready : IsReady a ranked.0 n = record {
        valid = valid;
        entered = ranked.1;
        low_above = rw ranked.2 (Above-edge low.negative low_above);
        high_above = rw ranked.2 (Above-edge low.negative high_above);
        distinct = λ e. ne (edge-injective low.negative low high e);
        plain = plain_low;
        absent = absent;
      } in
      let b : Arena = allocated a ranked.0 n in
      let grows = allocated-Grows a ranked.0 n ready in
      let stored : lookup a.next_node b.nodes ≡ some n =
        ground (arith, lookup-allocated a ranked.0 n ready a.next_node) in
      record {
        valid = allocated-IsValid a ranked.0 n ready;
        grows = grows;
        quiet = record {
          cache = refl;
          cache_order = refl;
          next_choice = refl;
          order_epoch = refl;
          order_readers = refl;
          frozen = refl;
        };
        serials = omega arith;
        above =
            Above-edge low.negative (inner n r refl stored (grows.ranks k r ranked) (omega arith));
        value = λ σ x v.
            key_Value b σ k a.next_node low high low.negative n x valid.owned stored refl v;
      }

  found_Makes :
      (found : Condition)
      → lookup key_of a.unique ≡ some found
      → Made a a k r low high (edge low.negative found)
  found_Makes found h =
      let (plain, n, stored, e) = valid.unique_sound key_of found h in
      let e' : n.key.choice ≡ k = ap (λ (x : NodeKey). x.choice) e in
      record {
        valid = valid;
        grows = Grows-refl a;
        quiet = Quiet-refl a;
        serials = omega arith;
        above = Above-edge low.negative (
            inner n r (ap (λ (x : Condition). x.owner) plain) stored
              (subst (λ j. HasRank a j r) (sym e') ranked) (omega arith));
        value = λ σ x v.
            rw plain (key_Value a σ k found.id low high low.negative n x valid.owned stored e v);
      }

  allocate_full : ltb (a.next_node + 1) (2 ^ 64) ≡ false → allocate a key_of ≡ none
  unfolding allocate
  allocate_full full = rw full

  node_distinct : low ≢ high → Makes a k r low high (node a k low high)
  unfolding node
  node_distinct ne =
      let differ : same low high ≡ false = ground (arith, same_iff low high) in
      elim (Option-cases (lookup key_of a.unique)) [
        | inr (found, h) ↦ rw (differ, h) (made (found_Makes found h))
        | inl absent ↦ elim (Bool-cases (ltb (a.next_node + 1) (2 ^ 64))) [
          | inl room ↦
              let (low_max, high_max, e) = allocate_lem (ltb→lt _ _ room) in
              rw (differ, absent, e) (made (new_node_Makes low_max high_max ne absent))
          | inr full ↦ rw (differ, absent, allocate_full full) (exhausted (ground arith))
        ]
      ]

  -- `node` makes the choice between its two arguments, or runs out of identities.
  pub node-Makes : Makes a k r low high (node a k low high)
  node-Makes = elim (Bool-cases (same low high)) [
    | inl eq ↦ node_same ((same_iff low high).0 eq)
    | inr ne ↦ node_distinct (λ e. cc ((same_iff low high).1 e))
  ]
