-- ===== src/Syntax/Layout.antt =====
-- src/syntax.rs: what format_query writes, without its list of pending parts.
use chrimp.Prelude.{
  Bool, Bool-cases, List, [], ap, arith, false, if◌then◌else◌, inl, inr, refl, suc, sym, true, zero,
  ℕ, ◌+◌, ◌<◌, ◌∙◌, ◌∷◌, ◌≡◌, ◌≤◌,
}
use chrimp.Syntax.Text.{<>_assoc, <>_nil, Text, codes, ◌<>◌}
use chrimp.Syntax.Ast.{Bodies, Body, and, atom, end, equal, fail, item, or, truth}
use chrimp.Syntax.Print.{
  Part, body, format_atom, format_query, is_single, print_part, print_pending, push_container,
  push_parts, text, turns, turns_items,
}

abbrev pub separate : Text → Bool → Text
separate s later = if later then s <> codes " " else []

abbrev pub close : Text → Bodies → Text
close s xs = if is_single xs then s <> codes ")" else codes ")"

unfoldable mutual
  unfolding format_atom

  pub print : Body → Text
  print (atom a) = format_atom a
  print (equal l r) = l <> codes " = " <> r
  print (and xs) = codes "(" <> print_items (codes ",") false xs <> close (codes ",") xs
  print (or xs) = codes "(" <> print_items (codes ";") false xs <> close (codes ";") xs
  print truth = codes "true"
  print fail = codes "fail"

  pub print_items : Text → Bool → Bodies → Text
  print_items s later end = []
  print_items s later (item x xs) = separate s later <> print x <> print_items s true xs

unfoldable print_all : List Part → Text
unfolding print
print_all [] = []
print_all (text t ∷ parts) = t <> print_all parts
print_all (body b ∷ parts) = print b <> print_all parts

unfoldable left : List Part → ℕ
unfolding turns
left [] = 0
left (text t ∷ parts) = suc (left parts)
left (body b ∷ parts) = turns b + left parts

print_all-push_parts :
    (s : Text) (later : Bool) (xs : Bodies) (parts : List Part)
    → print_all (push_parts s later xs parts) ≡ print_items s later xs <> print_all parts
unfolding print_all push_parts
print_all-push_parts s later end parts = refl
print_all-push_parts s true (item x xs) parts =
    simp (print_all-push_parts s true xs parts, <>_assoc)
print_all-push_parts s false (item x xs) parts =
    simp (print_all-push_parts s true xs parts, <>_assoc)

left-push_parts :
    (s : Text) (later : Bool) (xs : Bodies) (parts : List Part)
    → left (push_parts s later xs parts) ≤ turns_items xs + left parts
unfolding left push_parts
left-push_parts s later end parts = omega arith
left-push_parts s true (item x xs) parts = omega (arith, left-push_parts s true xs parts)
left-push_parts s false (item x xs) parts = omega (arith, left-push_parts s true xs parts)

print_all-push_container :
    (s : Text) (xs : Bodies) (parts : List Part)
    → print_all (push_container s xs parts)
      ≡ (print_items s false xs <> close s xs) <> print_all parts
unfolding print_all
print_all-push_container s xs parts = elim (Bool-cases (is_single xs)) [
  | inl e ↦
      rw e (simp (print_all-push_parts s false xs (text s ∷ text (codes ")") ∷ parts), <>_assoc))
  | inr e ↦ rw e (simp (print_all-push_parts s false xs (text (codes ")") ∷ parts), <>_assoc))
]

left-push_container :
    (s : Text) (xs : Bodies) (parts : List Part)
    → left (push_container s xs parts) ≤ 2 + turns_items xs + left parts
unfolding left
left-push_container s xs parts = elim (Bool-cases (is_single xs)) [
  | inl e ↦ rw e (omega (arith, left-push_parts s false xs (text s ∷ text (codes ")") ∷ parts)))
  | inr e ↦ rw e (omega (arith, left-push_parts s false xs (text (codes ")") ∷ parts)))
]

-- One turn of the loop.
print-print_part :
    (part : Part) (parts : List Part)
    → (print_part part parts).0 <> print_all (print_part part parts).1 ≡ print_all (part ∷ parts)
unfolding print_part print_all
print-print_part (text t) parts = refl
print-print_part (body (atom a)) parts = refl
print-print_part (body (equal l r)) parts = refl
print-print_part (body (and xs)) parts =
    ap (λ t. codes "(" <> t) (print_all-push_container (codes ",") xs parts)
print-print_part (body (or xs)) parts =
    ap (λ t. codes "(" <> t) (print_all-push_container (codes ";") xs parts)
print-print_part (body truth) parts = refl
print-print_part (body fail) parts = refl

left-print_part :
    (part : Part) (parts : List Part) → left (print_part part parts).1 < left (part ∷ parts)
unfolding print_part left
left-print_part (text t) parts = omega arith
left-print_part (body (atom a)) parts = omega arith
left-print_part (body (equal l r)) parts = omega arith
left-print_part (body (and xs)) parts = omega (arith, left-push_container (codes ",") xs parts)
left-print_part (body (or xs)) parts = omega (arith, left-push_container (codes ";") xs parts)
left-print_part (body truth) parts = omega arith
left-print_part (body fail) parts = omega arith

print_pending_lem :
    (f : ℕ) (output : Text) (parts : List Part)
    → left parts ≤ f
    → print_pending f output parts ≡ output <> print_all parts
unfolding print_pending print_all
print_pending_lem zero output [] h = sym (<>_nil output)
print_pending_lem (suc f) output [] h = sym (<>_nil output)
print_pending_lem zero output (part ∷ parts) h = absurd (omega (arith, left-print_part part parts))
print_pending_lem (suc f) output (part ∷ parts) h =
    let t : Text = (print_part part parts).0 in
    let rest : List Part = (print_part part parts).1 in
    print_pending_lem f (output <> t) rest (omega (arith, left-print_part part parts))
    ∙ <>_assoc output t (print_all rest)
    ∙ ap (λ u. output <> u) (print-print_part part parts)

-- The loop over pending parts writes the body's own text.
pub format_query_lem : (b : Body) → format_query b ≡ print b
unfolding format_query print_all left
format_query_lem b = print_pending_lem (turns b) [] (body b ∷ []) (omega arith) ∙ <>_nil (print b)
