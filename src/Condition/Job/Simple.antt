-- ===== src/Condition/Job/Simple.antt =====
-- src/condition.rs: the identities of `simple` give conjunctions, on operands in either order.
use chrimp.Condition.Meaning.{Value, Value-negate, Value-unique, ends}
use chrimp.Prelude.{
  Bool, Bool-cases, arith, false, inl, inr, not, refl, some, subst, sym, ℕ, ◌&&◌, ◌≡◌,
}
use chrimp.Condition.Handle.{
  Condition, condition_key, false_condition, negate, pair_key, same, same_iff, simple,
  true_condition,
}
use chrimp.Condition.Valid.{Above, IsConjunction, IsValid, is_terminal_of_owner, leaf}
use chrimp.Condition.Arena.{Arena}

module _ (a : Arena) (valid : IsValid a) where
  terminal-Value :
      (σ : ℕ → Bool) (c : Condition) (x : Bool) → c.owner ≡ 0 → Value a.nodes σ c x → x ≡ c.negative
  terminal-Value σ c x o v = Value-unique v (ends (is_terminal_of_owner c o) refl)

  -- Operands that are never true together.
  IsConjunction-false :
      (p q : Condition)
      → Above a 0 p
      → Above a 0 q
      → ((σ : ℕ → Bool) (x y : Bool) → Value a.nodes σ p x → Value a.nodes σ q y → (x && y) ≡ false)
      → IsConjunction a (p, q) false_condition
  IsConjunction-false p q h k never = record {
    left = h;
    right = k;
    bound = λ m _ _. leaf refl refl;
    value = λ σ x y v w. ends (is_terminal_of_owner false_condition refl) (never σ x y v w);
  }

  IsConjunction-right :
      (p q : Condition)
      → Above a 0 p
      → Above a 0 q
      → ((σ : ℕ → Bool) (x y : Bool) → Value a.nodes σ p x → Value a.nodes σ q y → (x && y) ≡ y)
      → IsConjunction a (p, q) q
  IsConjunction-right p q h k whole = record {
    left = h;
    right = k;
    bound = λ m _ l. l;
    value = λ σ x y v w. subst (λ z. Value a.nodes σ q z) (sym (whole σ x y v w)) w;
  }

  IsConjunction-left :
      (p q : Condition)
      → Above a 0 p
      → Above a 0 q
      → ((σ : ℕ → Bool) (x y : Bool) → Value a.nodes σ p x → Value a.nodes σ q y → (x && y) ≡ x)
      → IsConjunction a (p, q) p
  IsConjunction-left p q h k whole = record {
    left = h;
    right = k;
    bound = λ m l _. l;
    value = λ σ x y v w. subst (λ z. Value a.nodes σ p z) (sym (whole σ x y v w)) v;
  }

  Value-at :
      (σ : ℕ → Bool) (p t : Condition) (x : Bool)
      → p ≡ t
      → t.owner ≡ 0
      → Value a.nodes σ p x
      → x ≡ t.negative
  Value-at σ p t x e o v = terminal-Value σ t x o (subst (λ c. Value a.nodes σ c x) e v)

  opposite :
      (σ : ℕ → Bool) (p q : Condition) (x y : Bool)
      → p ≡ negate q
      → Value a.nodes σ p x
      → Value a.nodes σ q y
      → x ≡ not y
  opposite σ p q x y e v w =
      Value-unique v (subst (λ c. Value a.nodes σ c (not y)) (sym e) (Value-negate w))

  pub simple_sound :
      (p q c : Condition)
      → Above a 0 p
      → Above a 0 q
      → simple (p, q) ≡ some c
      → IsConjunction a (p, q) c
  unfolding simple negate
  simple_sound p q c h k e = elim (Bool-cases (same p false_condition)) [
    | inl f ↦ answer (ground arith) (
        IsConjunction-false p q h k λ σ x y v w.
          ground (arith, Value-at σ p false_condition x ((same_iff p false_condition).0 f) refl v))
    | inr f ↦ elim (Bool-cases (same q false_condition)) [
      | inl g ↦ answer (ground arith) (
          IsConjunction-false p q h k λ σ x y v w.
            ground
              (arith, Value-at σ q false_condition y ((same_iff q false_condition).0 g) refl w))
      | inr g ↦ elim (Bool-cases (same p (negate q))) [
        | inl n ↦ answer (ground arith) (
            IsConjunction-false p q h k
              λ σ x y v w. ground (arith, opposite σ p q x y ((same_iff p (negate q)).0 n) v w))
        | inr n ↦ elim (Bool-cases (same p true_condition)) [
          | inl t ↦ answer (ground arith) (
              IsConjunction-right p q h k λ σ x y v w.
                ground
                  (arith, Value-at σ p true_condition x ((same_iff p true_condition).0 t) refl v))
          | inr t ↦ elim (Bool-cases (same q true_condition)) [
            | inl u ↦ answer (ground arith) (
                IsConjunction-left p q h k λ σ x y v w.
                  ground
                    (arith, Value-at σ q true_condition y ((same_iff q true_condition).0 u) refl w))
            | inr u ↦ elim (Bool-cases (same p q)) [
              | inl s ↦ answer (ground arith) (
                  IsConjunction-left p q h k λ σ x y v w. ground (
                    arith,
                    Value-unique v (subst (λ c. Value a.nodes σ c y) (sym ((same_iff p q).0 s)) w),
                  ))
              | inr s ↦ cc
            ]
          ]
        ]
      ]
    ]
  ]
    where
      answer : {d : Condition} → d ≡ c → IsConjunction a (p, q) d → IsConjunction a (p, q) c
      answer {d} e' h' = subst (IsConjunction a (p, q)) e' h'
