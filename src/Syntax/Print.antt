-- ===== src/Syntax/Print.antt =====
-- src/syntax.rs: format_query and format_program.
use chrimp.Prelude.{
  Bool, List, Option, [], false, if◌then◌else◌, none, some, suc, true, zero, ℕ, ◌+◌, ◌∷◌,
}
use chrimp.Syntax.Text.{Text, codes, ◌<>◌}
use chrimp.Syntax.Ast.{
  Atom, Bodies, Body, Program, Rule, and, atom, end, equal, fail, item, or, truth,
}
use chrimp.Syntax.Validate.{is_nil}

abbrev pub join : Text → List Text → Text
join separator [] = []
join separator (t ∷ []) = t
join separator (t ∷ u ∷ ts) = t <> separator <> join separator (u ∷ ts)

unfoldable pub format_atom : Atom → Text
format_atom a = a.relation <> codes "(" <> join (codes ", ") a.args <> codes ")"

pub data Part : Type 0 where
  body : Body → Part
  text : Text → Part

abbrev pub is_single : Bodies → Bool
is_single (item x end) = true
is_single _ = false

-- The items with their separators, `later` for those after the first.
unfoldable pub push_parts : Text → Bool → Bodies → List Part → List Part
push_parts s later end pending = pending
push_parts s later (item x xs) pending =
    let more = push_parts s true xs pending in
    if later then text s ∷ text (codes " ") ∷ body x ∷ more else body x ∷ more

abbrev pub push_container : Text → Bodies → List Part → List Part
push_container s xs pending =
    push_parts s false xs
      (if is_single xs then text s ∷ text (codes ")") ∷ pending else text (codes ")") ∷ pending)

-- One turn of the loop: what it adds to the output, and the parts that are left.
unfoldable pub print_part : Part → List Part → Text × List Part
unfolding format_atom push_parts
print_part (text t) pending = (t, pending)
print_part (body (atom a)) pending = (format_atom a, pending)
print_part (body (equal l r)) pending = (l <> codes " = " <> r, pending)
print_part (body truth) pending = (codes "true", pending)
print_part (body fail) pending = (codes "fail", pending)
print_part (body (and xs)) pending = (codes "(", push_container (codes ",") xs pending)
print_part (body (or xs)) pending = (codes "(", push_container (codes ";") xs pending)

unfoldable pub print_pending : ℕ → Text → List Part → Text
unfolding print_part
print_pending fuel output [] = output
print_pending zero output (part ∷ pending) = output
print_pending (suc f) output (part ∷ pending) =
    let (t, rest) = print_part part pending in print_pending f (output <> t) rest

-- Turns for a body: its own, and at most two for a separator after each item and two at the end.
unfoldable mutual
  pub turns : Body → ℕ
  turns (atom a) = 1
  turns (equal l r) = 1
  turns (and xs) = 3 + turns_items xs
  turns (or xs) = 3 + turns_items xs
  turns truth = 1
  turns fail = 1

  pub turns_items : Bodies → ℕ
  turns_items end = 0
  turns_items (item x xs) = 2 + turns x + turns_items xs

unfoldable pub format_query : Body → Text
unfolding print_pending turns
format_query b = print_pending (turns b) [] (body b ∷ [])

abbrev pub map_texts : {A : Type 0} → (A → Text) → List A → List Text
map_texts f [] = []
map_texts f (a ∷ xs) = f a ∷ map_texts f xs

unfoldable pub format_heads : List Atom → Text
unfolding format_atom
format_heads xs = join (codes ", ") (map_texts format_atom xs)

abbrev pub format_name : Option Text → Text
format_name none = []
format_name (some n) = n <> codes " @ "

unfoldable pub format_head : Rule → Text
unfolding format_heads
format_head r =
    if is_nil r.removed
    then format_heads r.kept <> codes " ==>"
    else if is_nil r.kept
    then format_heads r.removed <> codes " <=>"
    else format_heads r.kept <> codes " \\ " <> format_heads r.removed <> codes " <=>"

unfoldable pub format_rule : Rule → Text
unfolding format_head format_query
format_rule r = format_name r.name <> format_head r <> codes " " <> format_query r.body <> codes "."

unfoldable pub format_program : Program → Text
unfolding format_rule
format_program rules = join (codes "\n") (map_texts format_rule rules)
