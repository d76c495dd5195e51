-- ===== src/Condition/Birth.antt =====
-- src/condition.rs: `fresh_choice` and `fresh_scoped_choice`, which make the condition that stands
-- for a choice never born before.
use chrimp.Condition.Make.{Makes, exhausted, made, node-Makes}
use chrimp.Condition.Key.{NodeKey, node_key}
use chrimp.Map.{insert, lookup, lookup-insert, nat_key}
use chrimp.Prelude.{
  ==_iff, Bool, Bool-cases, Option, Option-cases, [], ap, arith, false, if◌then◌else◌, inl, inr,
  ltb, none, refl, some, subst, sym, true, ℕ, ◌+◌, ◌<◌, ◌==◌, ◌^◌, ◌∙◌, ◌≡◌, ◌≤◌, ◌⊎◌,
}
use chrimp.Condition.Handle.{Condition, condition_key, false_condition, pair_key, true_condition}
use chrimp.Condition.Meaning.{Extends-refl, Value, ends}
use chrimp.Condition.Valid.{
  Above, Grows, Grows-trans, HasRank, IsConjunction-grow, IsReduced-grow, IsValid,
  is_terminal_of_owner, leaf,
}
use chrimp.Condition.Arena.{
  Arena, allocate, checked_add_one, fresh_choice, node, or_insert_order, ◌>>=◌,
}

-- The arena once the entry of the choice `k` is there, the choice counted.
abbrev entered : Arena → ℕ → Arena
entered a k = record a {
  next_choice = k + 1;
  order = insert k (record { rank = k; after = none; nodes = [] }) a.order;
  ranks = insert k k a.ranks;
}

module _ (a : Arena) (valid : IsValid a) where
  abbrev k : ℕ
  k = a.next_choice

  unranked : (r : ℕ) → HasRank a k r → ⊥
  unranked r h = omega (arith, valid.choice_lt k r h)

  HasRank-entered : (j r : ℕ) → HasRank a j r → HasRank (entered a k) j r
  HasRank-entered j r (e, h, p) = elim (Bool-cases (k == j)) [
    | inl eq ↦
        absurd
          (unranked r (e, subst (λ i. lookup i a.order ≡ some e) (sym ((==_iff k j).0 eq)) h, p))
    | inr ne ↦ (e, rw (lookup-insert, ne) h, p)
  ]

  new_HasRank : HasRank (entered a k) k k
  new_HasRank =
      (record { rank = k; after = none; nodes = [] }, rw (lookup-insert, (==_iff k k).1 refl), refl)

  -- A rank of the arena with the new entry is the new one, or an old one.
  entered-HasRank : (j r : ℕ) → HasRank (entered a k) j r → ((j ≡ k) × (r ≡ k)) ⊎ HasRank a j r
  entered-HasRank j r (e, h, p) = elim (Bool-cases (k == j)) [
    | inl eq ↦ inl (
      sym ((==_iff k j).0 eq),
      ground (arith, lookup-insert j k (record { rank = k; after = none; nodes = [] }) a.order),
    )
    | inr ne ↦ inr (
      e,
      ground (arith, lookup-insert j k (record { rank = k; after = none; nodes = [] }) a.order),
      p,
    )
  ]

  entered-Grows : Grows a (entered a k)
  entered-Grows = record {
    owner = refl;
    nodes = Extends-refl a.nodes;
    ranks = HasRank-entered;
    choices = omega arith;
  }

  old_rank_lt : (j r : ℕ) → HasRank a j r → r < k
  old_rank_lt = valid.rank_lt

  rank_injective : (i j r : ℕ) → HasRank (entered a k) i r → HasRank (entered a k) j r → i ≡ j
  rank_injective i j r h h' = elim (entered-HasRank i r h) [
    | inl (p, q) ↦ elim (entered-HasRank j r h') [
      | inl (p', q') ↦ p ∙ sym p'
      | inr old ↦ absurd (omega (arith, valid.rank_lt j r old))
    ]
    | inr old ↦ elim (entered-HasRank j r h') [
      | inl (p', q') ↦ absurd (omega (arith, valid.rank_lt i r old))
      | inr old' ↦ valid.rank_injective i j r old old'
    ]
  ]

  entered-IsValid : IsValid (entered a k)
  entered-IsValid = record {
    owned = valid.owned;
    serial = valid.serial;
    reduced = λ id n h. IsReduced-grow entered-Grows (valid.reduced id n h);
    unique_sound = valid.unique_sound;
    unique_complete = valid.unique_complete;
    rank_lt = λ j r h. elim (entered-HasRank j r h) [
      | inl (p, q) ↦ omega arith
      | inr old ↦ omega (arith, valid.rank_lt j r old)
    ];
    choice_lt = λ j r h. elim (entered-HasRank j r h) [
      | inl (p, q) ↦ omega arith
      | inr old ↦ omega (arith, valid.choice_lt j r old)
    ];
    rank_injective = rank_injective;
    queue = valid.queue;
    cache_sound = λ p r h. IsConjunction-grow valid entered-Grows (valid.cache_sound p r h);
  }

  -- No stored key tests a choice that is not born.
  unborn_key :
      (low high : Condition)
      → lookup (record { choice = k; low = low; high = high }) a.unique ≡ none
  unborn_key low high =
      elim (Option-cases (
        lookup (let key : NodeKey = record { choice = k; low = low; high = high } in key)
          a.unique)) [
            | inl free ↦ free
            | inr (c, h) ↦
                let (e, n, stored, eq) = valid.unique_sound _ c h in
                let red = valid.reduced c.id n stored in
                let same : n.key.choice ≡ k = ap (λ (x : NodeKey). x.choice) eq in
                absurd (unranked red.rank (subst (λ i. HasRank a i red.rank) same red.ranked))
          ]

  unborn_entry : lookup k a.order ≡ none
  unborn_entry = elim (Option-cases (lookup k a.order)) [
    | inl free ↦ free
    | inr (e, h) ↦ absurd (unranked e.rank (e, h, refl))
  ]

  -- The node made for the choice is the one made once the entry is there.
  node-entered :
      node (record a { next_choice = k + 1 }) k false_condition true_condition
      ≡ node (entered a k) k false_condition true_condition
  unfolding node allocate
  node-entered =
      rw
        (
          unborn_key false_condition true_condition,
          or_insert_order,
          unborn_entry,
          lookup-insert,
          same_choice,
        )
        refl
    where
      same_choice : (k == k) ≡ true
      same_choice = (==_iff k k).1 refl

-- The state and the condition after the birth of a choice.
pub record Born (a b : Arena) (c : Condition) : Type 0 where
  pub valid : IsValid b
  pub grows : Grows a b
  pub counted : b.next_choice ≡ a.next_choice + 1
  pub ranked : HasRank b a.next_choice a.next_choice
  pub above : Above b a.next_choice c
  pub value : (σ : ℕ → Bool) → Value b.nodes σ c (σ a.next_choice)

-- A birth panics only where the identities of choices or of nodes are used up.
pub data Births (a : Arena) : Option (Arena × ℕ × Condition) → Type 0 where
  no_choice : 2 ^ 64 ≤ a.next_choice + 1 → Births a none
  no_node : 2 ^ 64 ≤ a.next_node + 1 → Births a none
  born : {b : Arena} {c : Condition} → Born a b c → Births a (some (b, a.next_choice, c))

module _ (a : Arena) (valid : IsValid a) where
  made-Births :
      (o : Option (Arena × Condition))
      → Makes (entered a a.next_choice) a.next_choice a.next_choice false_condition true_condition o
      → Births a (o >>= λ (b, c). some (b, a.next_choice, c))
  made-Births none (exhausted h) = no_node h
  made-Births (some (b, c)) (made m) = born (record {
    valid = m.valid;
    grows = Grows-trans (entered-Grows a valid) m.grows;
    counted = m.quiet.next_choice;
    ranked = m.grows.ranks a.next_choice a.next_choice (new_HasRank a valid);
    above = m.above;
    value = λ σ. m.value σ (σ a.next_choice) (chosen b (σ a.next_choice));
  })
    where
      chosen :
          (b : Arena) {σ : ℕ → Bool} (s : Bool)
          → Value b.nodes σ (if s then true_condition else false_condition) s
      chosen b true = ends (is_terminal_of_owner true_condition refl) refl
      chosen b false = ends (is_terminal_of_owner false_condition refl) refl

  fresh_choice_room :
      a.frozen ≡ false
      → ltb (a.next_choice + 1) (2 ^ 64) ≡ true
      → fresh_choice a ≡ (
          node (entered a a.next_choice) a.next_choice false_condition true_condition >>= λ (b, c).
          some (b, a.next_choice, c))
  unfolding fresh_choice checked_add_one node
  fresh_choice_room running room = simp (running, room) (rw (node-entered a valid))

  fresh_choice_full :
      a.frozen ≡ false → ltb (a.next_choice + 1) (2 ^ 64) ≡ false → fresh_choice a ≡ none
  unfolding fresh_choice checked_add_one node
  fresh_choice_full running full = simp (running, full)

  -- On a valid arena that is not frozen for collection, `fresh_choice` gives the next choice and a
  -- condition whose value is that choice, and keeps the arena valid; it panics only where the 2^64
  -- identities of choices or of nodes are used up.
  pub fresh_choice-Births : a.frozen ≡ false → Births a (fresh_choice a)
  fresh_choice-Births running = elim (Bool-cases (ltb (a.next_choice + 1) (2 ^ 64))) [
    | inl room ↦ rw (fresh_choice_room running room) (
        made-Births _ (
          node-Makes (entered a a.next_choice) a.next_choice a.next_choice false_condition
            true_condition (entered-IsValid a valid) (new_HasRank a valid) (leaf refl refl)
            (leaf refl refl)))
    | inr full ↦ rw (fresh_choice_full running full) (no_choice (ground arith))
  ]

-- What a birth that did not panic gave.
pub Births-some :
    (a b : Arena) (k : ℕ) (c : Condition) (o : Option (Arena × ℕ × Condition))
    → Births a o
    → o ≡ some (b, k, c)
    → Born a b c
Births-some a b k c none (no_choice h) e = cc
Births-some a b k c none (no_node h) e = cc
Births-some a b k c (some _) (born {b = b'} {c = c'} x) e =
    let p : b' ≡ b = cc in let q : c' ≡ c = cc in subst (λ z. Born a z c) p (subst (Born a b') q x)
