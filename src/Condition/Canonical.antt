-- ===== src/Condition/Canonical.antt =====
-- src/condition.rs: in a valid arena two conditions with the same values are one handle, which is
-- what lets the code compare conditions by `==`.
use chrimp.Prelude.{
  ==_iff, Bool, Bool-cases, ap, arith, false, if◌then◌else◌, inl, inr, ltb, ltb→lt, refl, some,
  subst, suc, sym, true, zero, ℕ, ◌+◌, ◌==◌, ◌∙◌, ◌≡◌, ◌≤◌, ◌⊎◌,
}
use chrimp.Map.{lookup, nat_key}
use chrimp.Condition.Handle.{Condition, condition_key, negate, pair_key}
use chrimp.Condition.Key.{node_key}
use chrimp.Condition.Arena.{Arena, Node, edge}
use chrimp.Condition.Meaning.{Value, branches, edge-injective, ends, follow}
use chrimp.Condition.Valid.{
  Above, Above-edge, Above-follow, Above-weaken, HasRank, HasRank-unique, IsValid, inner,
  is_terminal_of_owner, leaf, not-is_terminal, Value-total,
}

abbrev pub update : (ℕ → Bool) → ℕ → Bool → ℕ → Bool
update σ k b j = if k == j then b else σ j

sign :
    (s t : Bool) (x y : Condition)
    → x.negative ≡ false
    → y.negative ≡ false
    → edge s x ≡ edge t y
    → s ≡ t
unfolding negate
sign s t x y p q e = ground (arith, ap (λ (c : Condition). c.negative) e)

-- The values of `c` and `d` agree under every assignment.
abbrev pub Agree : Arena → Condition → Condition → Type 0
Agree a c d = (σ : ℕ → Bool) (x y : Bool) → Value a.nodes σ c x → Value a.nodes σ d y → x ≡ y

module _ (a : Arena) (valid : IsValid a) where
  -- A condition above a rank has the same value where the choices from that rank on agree.
  independent :
      (r : ℕ) (σ τ : ℕ → Bool) (c : Condition) (v : Bool)
      → ((k s : ℕ) → HasRank a k s → r ≤ s → σ k ≡ τ k)
      → Above a r c
      → Value a.nodes σ c v
      → Value a.nodes τ c v
  independent r σ τ c v agree h (ends t e) = ends t e
  independent r σ τ c v agree (leaf o i) (branches n t h w) =
      absurd (ground (arith, is_terminal_of_owner c o))
  independent r σ τ c v agree (inner m k o h' rank le) (branches n t h w) =
      let e : m ≡ n = cc in
      let rank' : HasRank a n.key.choice k =
        subst (λ (x : Node). HasRank a x.key.choice k) e rank in
      let red = valid.reduced c.id n h in
      let same : red.rank ≡ k = HasRank-unique a n.key.choice red.rank k red.ranked rank' in
      branches n t h (
        subst (λ b. Value a.nodes τ (edge c.negative (follow n.key b)) v)
          (agree n.key.choice k rank' le)
          (independent r σ τ (edge c.negative (follow n.key (σ n.key.choice))) v agree
            (Above-weaken (omega arith) (Above-edge c.negative (Above-follow red (σ n.key.choice))))
            w))

  -- Whatever is ranked above `k` does not see a change of `k`.
  update_unseen :
      (k r : ℕ) (b : Bool) (σ : ℕ → Bool) (c : Condition) (v : Bool)
      → HasRank a k r
      → Above a (suc r) c
      → Value a.nodes σ c v
      → Value a.nodes (update σ k b) c v
  update_unseen k r b σ c v ranked h =
      independent (suc r) σ (update σ k b) c v
        (λ j s rank le. unseen j s rank le (Bool-cases (k == j))) h
    where
      unseen :
          (j s : ℕ)
          → HasRank a j s
          → suc r ≤ s
          → ((k == j) ≡ true) ⊎ ((k == j) ≡ false)
          → σ j ≡ update σ k b j
      unseen j s rank le (inl e) =
          let p : k ≡ j = (==_iff k j).0 e in
          let q : r ≡ s = HasRank-unique a j r s (subst (λ i. HasRank a i r) p ranked) rank in
          absurd (omega arith)
      unseen j s rank le (inr e) = rw e

  -- `d` with the choice `k` fixed to `b` is `e`.
  abbrev Cofactor : Condition → ℕ → Bool → Condition → Type 0
  Cofactor d k b e =
      (σ : ℕ → Bool) (y : Bool) → Value a.nodes σ e y → Value a.nodes (update σ k b) d y

  same_choice : (k : ℕ) → (k == k) ≡ true
  same_choice k = (==_iff k k).1 refl

  branch_Cofactor :
      (c : Condition) (n : Node) (b : Bool)
      → c.owner ≡ a.owner
      → lookup c.id a.nodes ≡ some n
      → Cofactor c n.key.choice b (edge c.negative (follow n.key b))
  branch_Cofactor c n b o h σ y v =
      let red = valid.reduced c.id n h in
      branches n (not-is_terminal c (λ z. valid.owned (sym o ∙ z))) h (
        rw (same_choice n.key.choice) (
          update_unseen n.key.choice red.rank b σ _ y red.ranked
            (Above-edge c.negative (Above-follow red b)) v))

  Cofactor-Agree :
      (c d e f : Condition) (k : ℕ) (b : Bool)
      → Agree a c d
      → Cofactor c k b e
      → Cofactor d k b f
      → Agree a e f
  Cofactor-Agree c d e f k b agree p q σ x y v w = agree (update σ k b) x y (p σ x v) (q σ y w)

  -- Where one condition tests a choice that the other does not see, its children agree.
  skip_Agree :
      (c d : Condition) (n : Node) (r : ℕ)
      → c.owner ≡ a.owner
      → lookup c.id a.nodes ≡ some n
      → HasRank a n.key.choice r
      → Above a (suc r) d
      → Agree a c d
      → Agree a (edge c.negative n.key.low) (edge c.negative n.key.high)
  skip_Agree c d n r o h ranked below agree σ x y v w =
      let (z, value) = Value-total a σ d valid (Above-weaken (omega arith) below) in
      let seen = λ (b : Bool) (u : Bool). update_unseen n.key.choice r b σ d u ranked below in
      let at = λ (b : Bool).
        Cofactor-Agree c d (edge c.negative (follow n.key b)) d n.key.choice b agree
          (branch_Cofactor c n b o h) (λ τ u. update_unseen n.key.choice r b τ d u ranked below) in
      at false σ x z v value ∙ sym (at true σ y z w value)

  child_Above :
      (c : Condition) (n : Node) (k : ℕ) (b : Bool)
      → lookup c.id a.nodes ≡ some n
      → HasRank a n.key.choice k
      → Above a (suc k) (edge c.negative (follow n.key b))
  child_Above c n k b h rank =
      let red = valid.reduced c.id n h in
      Above-weaken (omega (arith, HasRank-unique a n.key.choice red.rank k red.ranked rank))
        (Above-edge c.negative (Above-follow red b))

  same_branches :
      (c d : Condition) (n m : Node)
      → c.owner ≡ a.owner
      → d.owner ≡ a.owner
      → lookup c.id a.nodes ≡ some n
      → lookup d.id a.nodes ≡ some m
      → n.key.choice ≡ m.key.choice
      → edge c.negative n.key.low ≡ edge d.negative m.key.low
      → edge c.negative n.key.high ≡ edge d.negative m.key.high
      → c ≡ d
  same_branches c d n m o o' h h' e low high =
      let s : c.negative ≡ d.negative =
        sign c.negative d.negative n.key.low m.key.low (valid.reduced c.id n h).plain
          (valid.reduced d.id m h').plain low in
      let p : n.key.low ≡ m.key.low =
        edge-injective d.negative _ _
          (subst (λ t. edge t n.key.low ≡ edge d.negative m.key.low) s low) in
      let q : n.key.high ≡ m.key.high =
        edge-injective d.negative _ _
          (subst (λ t. edge t n.key.high ≡ edge d.negative m.key.high) s high) in
      let keys : n.key ≡ m.key = λ i. record { choice = e i; low = p i; high = q i } in
      let ids : c.id ≡ d.id =
        cc (keys, valid.unique_complete c.id n h, valid.unique_complete d.id m h') in
      λ i. record { owner = (o ∙ sym o') i; id = ids i; negative = s i }

  module _ (fuel : ℕ)
      (ih : (r : ℕ) (c d : Condition)
        → a.next_choice ≤ fuel + r
        → Above a r c
        → Above a r d
        → Agree a c d
        → c ≡ d) where
    -- A condition does not agree with one that is blind to the choice at its root.
    not_blind :
        (c d : Condition) (n : Node) (k : ℕ)
        → a.next_choice ≤ suc fuel + k
        → c.owner ≡ a.owner
        → lookup c.id a.nodes ≡ some n
        → HasRank a n.key.choice k
        → Above a (suc k) d
        → Agree a c d
        → c ≡ d
    not_blind c d n k enough o h rank below agree = absurd (
        (valid.reduced c.id n h).distinct (
          edge-injective c.negative _ _ (
            ih (suc k) _ _ (omega arith) (child_Above c n k false h rank)
              (child_Above c n k true h rank) (skip_Agree c d n k o h rank below agree))))

    same_root :
        (c d : Condition) (n m : Node) (k : ℕ)
        → a.next_choice ≤ suc fuel + k
        → c.owner ≡ a.owner
        → d.owner ≡ a.owner
        → lookup c.id a.nodes ≡ some n
        → lookup d.id a.nodes ≡ some m
        → HasRank a n.key.choice k
        → HasRank a m.key.choice k
        → Agree a c d
        → c ≡ d
    same_root c d n m k enough o o' h h' rank rank' agree =
        let e : n.key.choice ≡ m.key.choice =
          valid.rank_injective n.key.choice m.key.choice k rank rank' in
        let at = λ (b : Bool).
          ih (suc k) (edge c.negative (follow n.key b)) (edge d.negative (follow m.key b))
            (omega arith) (child_Above c n k b h rank) (child_Above d m k b h' rank')
            (Cofactor-Agree c d _ _ n.key.choice b agree (branch_Cofactor c n b o h) (
              subst (λ j. Cofactor d j b (edge d.negative (follow m.key b))) (sym e)
                (branch_Cofactor d m b o' h'))) in
        same_branches c d n m o o' h h' e (at false) (at true)

  terminal-Value : (c : Condition) → c.owner ≡ 0 → Value a.nodes (λ _. false) c c.negative
  terminal-Value c o = ends (is_terminal_of_owner c o) refl

  Agree-below :
      (fuel r : ℕ) (c d : Condition)
      → a.next_choice ≤ fuel + r
      → Above a r c
      → Above a r d
      → Agree a c d
      → c ≡ d
  Agree-below fuel r c d enough (leaf o i) (leaf o' i') agree =
      let s : c.negative ≡ d.negative =
        agree (λ _. false) _ _ (terminal-Value c o) (terminal-Value d o') in
      λ j. record { owner = (o ∙ sym o') j; id = (i ∙ sym i') j; negative = s j }
  Agree-below zero r c d enough (inner n k o h rank le) below agree =
      absurd (omega (arith, valid.rank_lt n.key.choice k rank))
  Agree-below zero r c d enough (leaf o' i') (inner n k o h rank le) agree =
      absurd (omega (arith, valid.rank_lt n.key.choice k rank))
  Agree-below (suc fuel) r c d enough (inner n k o h rank le) (leaf o' i') agree =
      not_blind fuel (Agree-below fuel) c d n k (omega arith) o h rank (leaf o' i') agree
  Agree-below (suc fuel) r c d enough (leaf o' i') (inner n k o h rank le) agree = sym (
      not_blind fuel (Agree-below fuel) d c n k (omega arith) o h rank (leaf o' i')
        (λ σ x y v w. sym (agree σ y x w v)))
  Agree-below (suc fuel) r c d enough (inner n k o h rank le) (inner m j o' h' rank' le') agree =
      elim (Bool-cases (ltb k j)) [
        | inl lt ↦
            not_blind fuel (Agree-below fuel) c d n k (omega arith) o h rank
              (inner m j o' h' rank' (ltb→lt k j lt)) agree
        | inr ge ↦ elim (Bool-cases (ltb j k)) [
          | inl gt ↦ sym (
              not_blind fuel (Agree-below fuel) d c m j (omega arith) o' h' rank'
                (inner n k o h rank (ltb→lt j k gt)) (λ σ x y v w. sym (agree σ y x w v)))
          | inr le ↦
              let e : j ≡ k = ground arith in
              same_root fuel (Agree-below fuel) c d n m k (omega arith) o o' h h' rank
                (subst (λ i. HasRank a m.key.choice i) e rank') agree
        ]
      ]

-- In a valid arena two of its conditions that have the same value under every assignment are the
-- same handle.
pub Condition_canonical :
    (a : Arena) (c d : Condition) → IsValid a → Above a 0 c → Above a 0 d → Agree a c d → c ≡ d
Condition_canonical a c d valid h k agree =
    Agree-below a valid a.next_choice 0 c d (omega arith) h k agree
