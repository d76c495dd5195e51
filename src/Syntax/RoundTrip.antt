-- ===== src/Syntax/RoundTrip.antt =====
-- src/syntax.rs: the parser reads back what the formatter writes.
use chrimp.Syntax.Tokens.{IsStop, at_end, bind_lem, comma, on_miss, parenthesis, period, semicolon}
use chrimp.Syntax.WellFormed.{AllWellFormed, IsWellFormed, validate_query_iff}
use chrimp.Syntax.Validate.{is_end, validate_query}
use chrimp.Syntax.Parser.{
  and_items, at, done, eat, finish, fuel, located, or_items, parse_and, parse_body, parse_query,
  primary, validated,
}
use chrimp.Syntax.ReadBack.{
  and_items-blank, leb-nesting, or_items-blank, primary-atom, primary-equal, primary-word,
}
use chrimp.Syntax.Containers.{
  primary-and_more, primary-and_single, primary-or_more, primary-or_single,
}
use chrimp.Prelude.{
  Bool, Bool-cases, [], arith, false, inl, inr, length, none, refl, suc, true, true≢false, zero, ℕ,
  ◌*◌, ◌+◌, ◌<◌, ◌∙◌, ◌≡◌, ◌≤◌,
}
use chrimp.Syntax.Text.{<>_assoc, <>_nil, Text, codes, length-<>, ◌<>◌}
use chrimp.Syntax.Ast.{
  Atom, Bodies, Body, and, atom, end, equal, fail, item, max_nesting, or, truth,
}
use chrimp.Syntax.Print.{format_atom, format_query, is_single, join, turns, turns_items}
use chrimp.Syntax.Layout.{close, format_query_lem, print, print_items}

-- The fuel for a body, counted as the turns of the formatter, is covered by its text.
length-format_atom : (a : Atom) → 1 ≤ length (format_atom a)
unfolding format_atom
length-format_atom a =
    omega (arith, length-<> a.relation (codes "(" <> join (codes ", ") a.args <> codes ")"))

length-close : (s : Text) (xs : Bodies) → 1 ≤ length (close s xs)
length-close s xs = elim (Bool-cases (is_single xs)) [
  | inl e ↦ rw e (omega (arith, length-<> s (codes ")")))
  | inr e ↦ rw e (omega arith)
]

mutual
  unfolding turns print

  turns-print : (b : Body) → turns b ≤ 4 * length (print b)
  turns-print (atom a) = omega (arith, length-format_atom a)
  turns-print (equal l r) = omega (arith, length-<> l (codes " = " <> r))
  turns-print (and xs) = omega (
    arith,
    turns_items-print_items (codes ",") false xs,
    length-<> (print_items (codes ",") false xs) (close (codes ",") xs),
    length-close (codes ",") xs,
  )
  turns-print (or xs) = omega (
    arith,
    turns_items-print_items (codes ";") false xs,
    length-<> (print_items (codes ";") false xs) (close (codes ";") xs),
    length-close (codes ";") xs,
  )
  turns-print truth = omega arith
  turns-print fail = omega arith

  turns_items-print_items :
      (s : Text) (later : Bool) (xs : Bodies)
      → turns_items xs ≤ 4 * length (print_items s later xs) + 2
  turns_items-print_items s later end = omega arith
  turns_items-print_items s true (item x xs) = omega (
    arith,
    turns-print x,
    turns_items-print_later s xs,
    length-<> (s <> codes " ") (print x <> print_items s true xs),
    length-<> s (codes " "),
    length-<> (print x) (print_items s true xs),
  )
  turns_items-print_items s false (item x xs) = omega (
    arith,
    turns-print x,
    turns_items-print_later s xs,
    length-<> (print x) (print_items s true xs),
  )

  turns_items-print_later :
      (s : Text) (xs : Bodies) → turns_items xs ≤ 4 * length (print_items s true xs)
  turns_items-print_later s end = omega arith
  turns_items-print_later s (item x xs) = omega (
    arith,
    turns-print x,
    turns_items-print_later s xs,
    length-<> (s <> codes " ") (print x <> print_items s true xs),
    length-<> s (codes " "),
    length-<> (print x) (print_items s true xs),
  )

turns-positive : (b : Body) → 1 ≤ turns b
unfolding turns
turns-positive (atom a) = omega arith
turns-positive (equal v w) = omega arith
turns-positive (and xs) = omega arith
turns-positive (or xs) = omega arith
turns-positive truth = omega arith
turns-positive fail = omega arith

-- What follows the body of a query or of a rule.
pub data IsLast : Text → Type 0 where
  finished : IsLast []
  dot : (r : Text) → IsLast (codes "." <> r)

IsLast-IsStop : (r : Text) → IsLast r → IsStop r
IsLast-IsStop r finished = at_end
IsLast-IsStop r (dot s) = period s

no_separator :
    (r : Text) → IsLast r → (eat (codes ",") r ≡ (false, r)) × (eat (codes ";") r ≡ (false, r))
unfolding eat
no_separator r finished = (refl, refl)
no_separator r (dot s) = (refl, refl)

module _ (source : Text) where
  mutual
    unfolding primary turns print IsWellFormed eat at

    primary-print :
        (b : Body) (f d : ℕ) (r : Text)
        → IsWellFormed d b
        → turns b ≤ f
        → IsStop r
        → primary source f d (print b <> r) ≡ done b r
    primary-print b zero d r h n s = absurd (omega (arith, turns-positive b))
    primary-print (atom a) (suc f) d r h n s = primary-atom source a f d r h
    primary-print (equal v w) (suc f) d r h n s = primary-equal source v w f d r h s
    primary-print truth (suc f) d r h n s =
        primary-word source truth (codes "true") f d r s refl λ t. refl
    primary-print fail (suc f) d r h n s =
        primary-word source fail (codes "fail") f d r s refl λ t. refl
    primary-print (and xs) (suc f) d r (h, k) n s = and-print xs (suc f) d r h k n
    primary-print (or xs) (suc f) d r (h, e, k) n s = or-print xs (suc f) d r h e k n

    and-print :
        (xs : Bodies) (f d : ℕ) (r : Text)
        → d < max_nesting
        → AllWellFormed (d + 1) xs
        → 3 + turns_items xs ≤ f
        → primary source f d (print (and xs) <> r) ≡ done (and xs) r
    and-print xs zero d r h k n = absurd (omega arith)
    and-print xs (suc zero) d r h k n = absurd (omega arith)
    and-print xs (suc (suc zero)) d r h k n = absurd (omega arith)
    and-print end (suc (suc (suc f))) d r h k n = rw (leb-nesting d h) refl
    and-print (item x end) (suc (suc (suc f))) d r h (w, k) n =
        primary-and_single source x f d r h w
          (primary-print x f (d + 1) (codes ",)" <> r) w (omega arith) (comma _))
    and-print (item x (item y ys)) (suc (suc (suc f))) d r h (w, (v, k)) n =
        primary-and_more source x y ys f d r h w v
          (primary-print x f (d + 1) _ w (omega arith) (comma _))
          (and_items-print (item y ys) f (d + 1) r refl (v, k) (omega arith))

    and_items-print :
        (xs : Bodies) (f d : ℕ) (r : Text)
        → is_end xs ≡ false
        → AllWellFormed d xs
        → turns_items xs ≤ f
        → and_items source f d (print_items (codes ",") false xs <> codes ")" <> r)
          ≡ done xs (codes ")" <> r)
    and_items-print end f d r e k n = absurd (true≢false e)
    and_items-print (item x xs) zero d r e k n = absurd (omega arith)
    and_items-print (item x end) (suc f) d r e (w, k) n = rw (<>_nil (print x)) (
        bind_lem (primary source f d (print x <> codes ")" <> r)) _ _ _ _
          (primary-print x f d (codes ")" <> r) w (omega arith) (parenthesis r)) refl)
    and_items-print (item x (item y ys)) (suc f) d r e (w, k) n =
        let t : Text = print_items (codes ",") true (item y ys) in
        let u : Text = print_items (codes ",") false (item y ys) <> codes ")" <> r in
        rw (<>_assoc (print x) t (codes ")" <> r)) (
          bind_lem (primary source f d (print x <> t <> codes ")" <> r)) _ _ _ _
            (primary-print x f d (t <> codes ")" <> r) w (omega arith) (comma _))
            (bind_lem (and_items source f d (codes " " <> u)) _ _ _ _
              (and_items-blank source f d u
                ∙ and_items-print (item y ys) f d r refl k (omega arith))
              refl))

    or-print :
        (xs : Bodies) (f d : ℕ) (r : Text)
        → d < max_nesting
        → is_end xs ≡ false
        → AllWellFormed (d + 1) xs
        → 3 + turns_items xs ≤ f
        → primary source f d (print (or xs) <> r) ≡ done (or xs) r
    or-print xs zero d r h e k n = absurd (omega arith)
    or-print xs (suc zero) d r h e k n = absurd (omega arith)
    or-print xs (suc (suc zero)) d r h e k n = absurd (omega arith)
    or-print end (suc (suc (suc f))) d r h e k n = absurd (true≢false e)
    or-print (item x end) (suc (suc (suc f))) d r h e (w, k) n =
        primary-or_single source x f d r h w
          (primary-print x f (d + 1) (codes ";)" <> r) w (omega arith) (semicolon _))
    or-print (item x (item y ys)) (suc (suc (suc f))) d r h e (w, (v, k)) n =
        primary-or_more source x y ys f d r h w v
          (primary-print x f (d + 1) _ w (omega arith) (semicolon _))
          (or_items-print (item y ys) (suc f) (d + 1) r refl (v, k) (omega arith))

    or_items-print :
        (xs : Bodies) (f d : ℕ) (r : Text)
        → is_end xs ≡ false
        → AllWellFormed d xs
        → turns_items xs ≤ f
        → or_items source f d (print_items (codes ";") false xs <> codes ")" <> r)
          ≡ done xs (codes ")" <> r)
    or_items-print end f d r e k n = absurd (true≢false e)
    or_items-print (item x xs) zero d r e k n = absurd (omega arith)
    or_items-print (item x xs) (suc zero) d r e k n = absurd (omega (arith, turns-positive x))
    or_items-print (item x end) (suc (suc f)) d r e (w, k) n = rw (<>_nil (print x)) (
        bind_lem (parse_and source (suc f) d (print x <> codes ")" <> r)) _ _ _ _
          (bind_lem (primary source f d (print x <> codes ")" <> r)) _ _ _ _
            (primary-print x f d (codes ")" <> r) w (omega arith) (parenthesis r)) refl)
          refl)
    or_items-print (item x (item y ys)) (suc (suc f)) d r e (w, k) n =
        let t : Text = print_items (codes ";") true (item y ys) in
        let u : Text = print_items (codes ";") false (item y ys) <> codes ")" <> r in
        rw (<>_assoc (print x) t (codes ")" <> r)) (
          bind_lem (parse_and source (suc f) d (print x <> t <> codes ")" <> r)) _ _ _ _
            (bind_lem (primary source f d (print x <> t <> codes ")" <> r)) _ _ _ _
              (primary-print x f d (t <> codes ")" <> r) w (omega arith) (semicolon _)) refl)
            (bind_lem (or_items source (suc f) d (codes " " <> u)) _ _ _ _
              (or_items-blank source (suc f) d u
                ∙ or_items-print (item y ys) (suc f) d r refl k (omega arith))
              refl))

  -- A printed body is read back with the fuel that the text gives.
  pub parse_body-print :
      (b : Body) (f : ℕ) (r : Text)
      → IsWellFormed 0 b
      → 4 * length (print b <> r) + 4 ≤ f
      → IsLast r
      → parse_body source f 0 (print b <> r) ≡ done b r
  unfolding parse_body eat
  parse_body-print b zero r h n e = absurd (omega arith)
  parse_body-print b (suc zero) r h n e = absurd (omega arith)
  parse_body-print b (suc (suc f)) r h n e =
      bind_lem (parse_and source (suc f) 0 (print b <> r)) _ _ _ _
        (bind_lem (primary source f 0 (print b <> r)) _ _ _ _
          (primary-print b f 0 r h (omega (arith, turns-print b, length-<> (print b) r))
            (IsLast-IsStop r e))
          (on_miss (eat (codes ",") r) _ _ _ _ (no_separator r e).0 refl))
        (on_miss (eat (codes ";") r) _ _ _ _ (no_separator r e).1 refl)

-- parse_query reads what format_query writes for a query that validation accepts.
pub parse_query-format_query :
    (b : Body) → validate_query b ≡ none → parse_query (format_query b) ≡ done b []
unfolding parse_query validated located finish eat
parse_query-format_query b h =
    let t : Text = print b <> [] in
    rw (format_query_lem b, ← <>_nil (print b))
      (bind_lem (parse_body t (fuel t t) 0 t) _ b [] _
        (parse_body-print t b (fuel t t) [] ((validate_query_iff b).0 h) (omega arith) finished)
        (rw h refl))
