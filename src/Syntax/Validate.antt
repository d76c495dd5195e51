-- ===== src/Syntax/Validate.antt =====
-- src/syntax.rs: validate_query and validate_program. `none` is `Ok(())`, `some` an error.
use chrimp.Prelude.{
  Bool, List, Option, [], false, if◌then◌else◌, leb, none, some, suc, true, zero, ℕ, ◌&&◌, ◌+◌,
  ◌||◌, ◌∷◌,
}
use chrimp.Syntax.Text.{Text, codes, name, relation, same_text, variable}
use chrimp.Syntax.Ast.{
  Atom, Bodies, Body, Message, ParseError, Place, Program, Rule, and, atom, duplicate_rule_name,
  empty_disjunction, end, equal, expected_relation, expected_rule_name, expected_variable, fail,
  field, index, item, max_nesting, nested_containers, no_head, or, root, truth,
}

abbrev pub invalid : Place → Message → Option ParseError
invalid p m =
    some (record { message = m; offset = none; line = none; column = none; path = some p })

-- `first?; second`.
abbrev pub or_else : Option ParseError → Option ParseError → Option ParseError
or_else none second = second
or_else (some e) second = some e

abbrev pub check_variable : Text → Place → Option ParseError
check_variable v p = if variable v then none else invalid p expected_variable

unfoldable pub validate_args : List Text → Place → ℕ → Option ParseError
validate_args [] p i = none
validate_args (v ∷ vs) p i = or_else (check_variable v (index p i)) (validate_args vs p (i + 1))

unfoldable pub validate_atom : Atom → Place → Option ParseError
unfolding validate_args
validate_atom a p =
    if relation a.relation
    then validate_args a.args (field p (codes "args")) 0
    else invalid (field p (codes "relation")) expected_relation

pub record Visit : Type 0 where
  pub body : Body
  pub path : Place
  pub depth : ℕ

abbrev pub is_end : Bodies → Bool
is_end end = true
is_end (item x xs) = false

-- The items with their paths, the first on top.
unfoldable pub push_items : Bodies → Place → ℕ → ℕ → List Visit → List Visit
push_items end p i d pending = pending
push_items (item x xs) p i d pending =
    record { body = x; path = index p i; depth = d } ∷ push_items xs p (i + 1) d pending

abbrev pub check_container : Bool → Bodies → Place → ℕ → Option ParseError
check_container disjunction xs p d =
    if leb max_nesting d
    then invalid p nested_containers
    else if disjunction && is_end xs
    then invalid p empty_disjunction
    else none

-- One turn of the loop: an error, or the bodies that are left.
unfoldable pub visit : Body → Place → ℕ → List Visit → Option ParseError × List Visit
unfolding validate_atom push_items
visit (atom a) p d pending = (validate_atom a (field p (codes "atom")), pending)
visit (equal l r) p d pending = (
  or_else (check_variable l (field p (codes "left"))) (check_variable r (field p (codes "right"))),
  pending,
)
visit (and xs) p d pending =
    (check_container false xs p d, push_items xs (field p (codes "items")) 0 (d + 1) pending)
visit (or xs) p d pending =
    (check_container true xs p d, push_items xs (field p (codes "items")) 0 (d + 1) pending)
visit truth p d pending = (none, pending)
visit fail p d pending = (none, pending)

unfoldable mutual
  pub size : Body → ℕ
  size (atom a) = 1
  size (equal l r) = 1
  size (and xs) = suc (size_items xs)
  size (or xs) = suc (size_items xs)
  size truth = 1
  size fail = 1

  pub size_items : Bodies → ℕ
  size_items end = 0
  size_items (item x xs) = size x + size_items xs

-- The loop of `validate_body`, a unit of fuel for each body.
unfoldable pub validate_pending : ℕ → List Visit → Option ParseError
unfolding visit
validate_pending fuel [] = none
validate_pending zero (v ∷ pending) = none
validate_pending (suc f) (v ∷ pending) =
    let (e, rest) = visit v.body v.path v.depth pending in or_else e (validate_pending f rest)

unfoldable pub validate_body : Body → Place → Option ParseError
unfolding validate_pending size
validate_body b p = validate_pending (size b) (record { body = b; path = p; depth = 0 } ∷ [])

unfoldable pub validate_query : Body → Option ParseError
unfolding validate_body
validate_query b = validate_body b root

unfoldable pub validate_atoms : List Atom → Place → ℕ → Option ParseError
unfolding validate_atom
validate_atoms [] p i = none
validate_atoms (a ∷ xs) p i = or_else (validate_atom a (index p i)) (validate_atoms xs p (i + 1))

abbrev pub is_member : Text → List Text → Bool
is_member n [] = false
is_member n (m ∷ ms) = same_text n m || is_member n ms

abbrev pub is_nil : {A : Type 0} → List A → Bool
is_nil [] = true
is_nil (a ∷ xs) = false

abbrev pub check_name : Option Text → List Text → Place → Option ParseError
check_name none names p = none
check_name (some n) names p =
    if name n
    then if is_member n names then invalid (field p (codes "name")) duplicate_rule_name else none
    else invalid (field p (codes "name")) expected_rule_name

abbrev pub add_name : Option Text → List Text → List Text
add_name none names = names
add_name (some n) names = n ∷ names

unfoldable pub validate_rule : Rule → List Text → Place → Option ParseError
unfolding validate_atoms validate_body
validate_rule r names p = or_else (check_name r.name names p) (
    or_else (if is_nil r.kept && is_nil r.removed then invalid p no_head else none) (
      or_else (validate_atoms r.kept (field p (codes "kept")) 0) (
        or_else (validate_atoms r.removed (field p (codes "removed")) 0)
          (validate_body r.body (field p (codes "body"))))))

unfoldable pub validate_rules : Program → List Text → ℕ → Option ParseError
unfolding validate_rule
validate_rules [] names i = none
validate_rules (r ∷ rs) names i =
    or_else (validate_rule r names (index (field root (codes "rules")) i))
      (validate_rules rs (add_name r.name names) (i + 1))

unfoldable pub validate_program : Program → Option ParseError
unfolding validate_rules
validate_program rules = validate_rules rules [] 0
