-- ===== src/Syntax/WellFormed.antt =====
-- src/syntax.rs: what validate_query demands of a body, without its list of pending bodies.
use chrimp.Prelude.{
  Bool, Bool-cases, List, Option, [], ap, arith, false, inl, inr, none, refl, some, suc, sym, true,
  zero, ℕ, ◌&&◌, ◌+◌, ◌<◌, ◌↔◌, ◌∙◌, ◌∷◌, ◌≡◌, ◌≤◌,
}
use chrimp.Syntax.Text.{Text, codes, relation, variable}
use chrimp.Syntax.Ast.{
  Atom, Bodies, Body, ParseError, Place, and, atom, end, equal, fail, field, index, item,
  max_nesting, or, root, truth,
}
use chrimp.Syntax.Validate.{
  Visit, check_container, check_variable, is_end, or_else, push_items, size, size_items,
  validate_args, validate_atom, validate_body, validate_pending, validate_query, visit,
}

unfoldable mutual
  unfolding validate_atom

  -- The checks of a body and those within it, in the order of the text.
  pub check : Body → Place → ℕ → Option ParseError
  check (atom a) p d = validate_atom a (field p (codes "atom"))
  check (equal l r) p d =
      or_else (check_variable l (field p (codes "left")))
        (check_variable r (field p (codes "right")))
  check (and xs) p d =
      or_else (check_container false xs p d) (check_items xs (field p (codes "items")) 0 (d + 1))
  check (or xs) p d =
      or_else (check_container true xs p d) (check_items xs (field p (codes "items")) 0 (d + 1))
  check truth p d = none
  check fail p d = none

  pub check_items : Bodies → Place → ℕ → ℕ → Option ParseError
  check_items end p i d = none
  check_items (item x xs) p i d = or_else (check x (index p i) d) (check_items xs p (i + 1) d)

unfoldable check_pending : List Visit → Option ParseError
unfolding check
check_pending [] = none
check_pending (v ∷ vs) = or_else (check v.body v.path v.depth) (check_pending vs)

unfoldable weight : List Visit → ℕ
unfolding size
weight [] = 0
weight (v ∷ vs) = size v.body + weight vs

or_else_assoc : (a b c : Option ParseError) → or_else (or_else a b) c ≡ or_else a (or_else b c)
or_else_assoc none b c = refl
or_else_assoc (some e) b c = refl

check_pending-push_items :
    (xs : Bodies) (p : Place) (i d : ℕ) (vs : List Visit)
    → check_pending (push_items xs p i d vs) ≡ or_else (check_items xs p i d) (check_pending vs)
unfolding check_pending push_items
check_pending-push_items end p i d vs = refl
check_pending-push_items (item x xs) p i d vs =
    simp (check_pending-push_items xs p (i + 1) d vs, or_else_assoc)

weight-push_items :
    (xs : Bodies) (p : Place) (i d : ℕ) (vs : List Visit)
    → weight (push_items xs p i d vs) ≡ size_items xs + weight vs
unfolding weight push_items
weight-push_items end p i d vs = omega arith
weight-push_items (item x xs) p i d vs = omega (arith, weight-push_items xs p (i + 1) d vs)

-- One turn of the loop.
check-visit :
    (b : Body) (p : Place) (d : ℕ) (vs : List Visit)
    → or_else (visit b p d vs).0 (check_pending (visit b p d vs).1)
      ≡ or_else (check b p d) (check_pending vs)
unfolding visit check
check-visit (atom a) p d vs = refl
check-visit (equal l r) p d vs = refl
check-visit (and xs) p d vs =
    simp (check_pending-push_items xs (field p (codes "items")) 0 (d + 1) vs, or_else_assoc)
check-visit (or xs) p d vs =
    simp (check_pending-push_items xs (field p (codes "items")) 0 (d + 1) vs, or_else_assoc)
check-visit truth p d vs = refl
check-visit fail p d vs = refl

weight-visit :
    (b : Body) (p : Place) (d : ℕ) (vs : List Visit)
    → weight (visit b p d vs).1 < size b + weight vs
unfolding visit size
weight-visit (atom a) p d vs = omega arith
weight-visit (equal l r) p d vs = omega arith
weight-visit (and xs) p d vs =
    omega (arith, weight-push_items xs (field p (codes "items")) 0 (d + 1) vs)
weight-visit (or xs) p d vs =
    omega (arith, weight-push_items xs (field p (codes "items")) 0 (d + 1) vs)
weight-visit truth p d vs = omega arith
weight-visit fail p d vs = omega arith

validate_pending_lem :
    (f : ℕ) (vs : List Visit) → weight vs ≤ f → validate_pending f vs ≡ check_pending vs
unfolding validate_pending check_pending weight
validate_pending_lem zero [] h = refl
validate_pending_lem (suc f) [] h = refl
validate_pending_lem zero (v ∷ vs) h = absurd (omega (arith, weight-visit v.body v.path v.depth vs))
validate_pending_lem (suc f) (v ∷ vs) h =
    ap (or_else (visit v.body v.path v.depth vs).0) (
      validate_pending_lem f (visit v.body v.path v.depth vs).1
        (omega (arith, weight-visit v.body v.path v.depth vs)))
    ∙ check-visit v.body v.path v.depth vs

or_else-none : (e : Option ParseError) → or_else e none ≡ e
or_else-none none = refl
or_else-none (some e) = refl

-- The list of pending bodies finds the error that the recursive checks find first.
pub validate_body_lem : (b : Body) (p : Place) → validate_body b p ≡ check b p 0
unfolding validate_body check_pending weight
validate_body_lem b p =
    validate_pending_lem (size b) (record { body = b; path = p; depth = 0 } ∷ []) (omega arith)
    ∙ or_else-none (check b p 0)

abbrev pub AllVariables : List Text → Type 0
AllVariables [] = Unit {0}
AllVariables (v ∷ vs) = (variable v ≡ true) × AllVariables vs

abbrev pub IsAtom : Atom → Type 0
IsAtom a = (relation a.relation ≡ true) × AllVariables a.args

-- A body that the grammar can write at nesting depth `d`.
unfoldable mutual
  pub IsWellFormed : ℕ → Body → Type 0
  IsWellFormed d (atom a) = IsAtom a
  IsWellFormed d (equal l r) = (variable l ≡ true) × (variable r ≡ true)
  IsWellFormed d (and xs) = (d < max_nesting) × AllWellFormed (d + 1) xs
  IsWellFormed d (or xs) = (d < max_nesting) × (is_end xs ≡ false) × AllWellFormed (d + 1) xs
  IsWellFormed d truth = Unit {0}
  IsWellFormed d fail = Unit {0}

  pub AllWellFormed : ℕ → Bodies → Type 0
  AllWellFormed d end = Unit {0}
  AllWellFormed d (item x xs) = IsWellFormed d x × AllWellFormed d xs

or_else-none-inv : (a b : Option ParseError) → or_else a b ≡ none → (a ≡ none) × (b ≡ none)
or_else-none-inv none b h = (refl, h)
or_else-none-inv (some e) b h = cc

check_variable-none-inv : (v : Text) (p : Place) → check_variable v p ≡ none → variable v ≡ true
check_variable-none-inv v p h = ground arith

validate_args-AllVariables :
    (vs : List Text) (p : Place) (i : ℕ) → validate_args vs p i ≡ none → AllVariables vs
unfolding validate_args
validate_args-AllVariables [] p i h = tt
validate_args-AllVariables (v ∷ vs) p i h =
    let (a, b) = or_else-none-inv _ _ h in
    (check_variable-none-inv v (index p i) a, validate_args-AllVariables vs p (i + 1) b)

pub validate_atom-IsAtom : (a : Atom) (p : Place) → validate_atom a p ≡ none → IsAtom a
unfolding validate_atom
validate_atom-IsAtom a p h = elim (Bool-cases (relation a.relation)) [
  | inl e ↦ (e, validate_args-AllVariables a.args (field p (codes "args")) 0 (rw e at h))
  | inr e ↦ absurd (ground arith)
]

check_container-none-inv :
    (o : Bool) (xs : Bodies) (p : Place) (d : ℕ)
    → check_container o xs p d ≡ none
    → (d < max_nesting) × ((o && is_end xs) ≡ false)
check_container-none-inv o xs p d h = ground arith

mutual
  unfolding check IsWellFormed

  check-IsWellFormed : (b : Body) (p : Place) (d : ℕ) → check b p d ≡ none → IsWellFormed d b
  check-IsWellFormed (atom a) p d h = validate_atom-IsAtom a (field p (codes "atom")) h
  check-IsWellFormed (equal l r) p d h =
      let (a, b) = or_else-none-inv _ _ h in
      (check_variable-none-inv l _ a, check_variable-none-inv r _ b)
  check-IsWellFormed (and xs) p d h =
      let (a, b) = or_else-none-inv _ _ h in
      ((check_container-none-inv false xs p d a).0, check_items-AllWellFormed xs _ 0 (d + 1) b)
  check-IsWellFormed (or xs) p d h =
      let (a, b) = or_else-none-inv _ _ h in
      let (c, e) = check_container-none-inv true xs p d a in
      (c, e, check_items-AllWellFormed xs _ 0 (d + 1) b)
  check-IsWellFormed truth p d h = tt
  check-IsWellFormed fail p d h = tt

  check_items-AllWellFormed :
      (xs : Bodies) (p : Place) (i d : ℕ) → check_items xs p i d ≡ none → AllWellFormed d xs
  check_items-AllWellFormed end p i d h = tt
  check_items-AllWellFormed (item x xs) p i d h =
      let (a, b) = or_else-none-inv _ _ h in
      (check-IsWellFormed x _ d a, check_items-AllWellFormed xs _ (i + 1) d b)

container :
    (d : ℕ) (o : Bool) (xs : Bodies) (p : Place)
    → d < max_nesting
    → (o && is_end xs) ≡ false
    → or_else (check_container o xs p d) none ≡ none
container d o xs p h e = ground arith

AllVariables-validate_args :
    (vs : List Text) (p : Place) (i : ℕ) → AllVariables vs → validate_args vs p i ≡ none
unfolding validate_args
AllVariables-validate_args [] p i h = refl
AllVariables-validate_args (v ∷ vs) p i (a, b) =
    rw (a, AllVariables-validate_args vs p (i + 1) b) refl

mutual
  unfolding check IsWellFormed

  IsWellFormed-check : (b : Body) (p : Place) (d : ℕ) → IsWellFormed d b → check b p d ≡ none
  IsWellFormed-check (atom a) p d (h, k) =
      rw (h, validate_atom) (AllVariables-validate_args a.args _ 0 k)
  IsWellFormed-check (equal l r) p d (h, k) = rw (h, k) refl
  IsWellFormed-check (and xs) p d (h, k) =
      rw (AllWellFormed-check_items xs (field p (codes "items")) 0 (d + 1) k)
        (container d false xs p h refl)
  IsWellFormed-check (or xs) p d (h, e, k) =
      rw (AllWellFormed-check_items xs (field p (codes "items")) 0 (d + 1) k)
        (container d true xs p h e)
  IsWellFormed-check truth p d h = refl
  IsWellFormed-check fail p d h = refl

  AllWellFormed-check_items :
      (xs : Bodies) (p : Place) (i d : ℕ) → AllWellFormed d xs → check_items xs p i d ≡ none
  AllWellFormed-check_items end p i d h = refl
  AllWellFormed-check_items (item x xs) p i d (h, k) =
      rw (IsWellFormed-check x (index p i) d h, AllWellFormed-check_items xs p (i + 1) d k) refl

-- validate_query accepts a query exactly when the grammar can write it: its names are of their
-- kind, no disjunction is empty, and no container lies deeper than 128.
pub validate_query_iff : (b : Body) → (validate_query b ≡ none) ↔ IsWellFormed 0 b
unfolding validate_query
validate_query_iff b = (
  λ h. check-IsWellFormed b root 0 (sym (validate_body_lem b root) ∙ h),
  λ h. validate_body_lem b root ∙ IsWellFormed-check b root 0 h,
)
