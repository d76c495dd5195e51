-- ===== src/Syntax/ReadBack.antt =====
-- src/syntax.rs: the parser reads a printed body back.
use chrimp.Prelude.{
  [], arith, false, if◌then◌else◌, leb, refl, suc, true, zero, ℕ, ◌+◌, ◌<◌, ◌∷◌, ◌≡◌,
}
use chrimp.Syntax.Text.{
  <>_assoc, Text, codes, identifier, is_lower, is_upper, relation, same_text, variable, ◌<>◌,
}
use chrimp.Syntax.Ast.{
  Atom, Bodies, Body, and, atom, end, equal, expected_body, fail, item, max_nesting, or, truth,
}
use chrimp.Syntax.Print.{format_atom, join}
use chrimp.Syntax.Layout.{print, print_items}
use chrimp.Syntax.Parser.{
  and_items, at, atom_args, done, eat, expect, id, or_items, parse_body, parse_simple, primary,
  starts_variable, var, ◌>>=◌,
}
use chrimp.Syntax.WellFormed.{IsAtom, IsWellFormed}
use chrimp.Syntax.Tokens.{
  IsStop, IsStop-ends_word, Starts, at-IsStop, atom_args_lem, bind_lem, close-Starts, comma,
  eat-Starts, ends_word, id_lem, on_miss, open-Starts, parenthesis, relation-Starts, semicolon,
  skip-Starts, var_lem, variable-Starts,
}

pub IsStop-later_and :
    (xs : Bodies) (r : Text) → IsStop (print_items (codes ",") true xs <> codes ")" <> r)
unfolding print
IsStop-later_and end r = parenthesis r
IsStop-later_and (item x xs) r = comma _

pub IsStop-later_or :
    (xs : Bodies) (r : Text) → IsStop (print_items (codes ";") true xs <> codes ")" <> r)
unfolding print
IsStop-later_or end r = parenthesis r
IsStop-later_or (item x xs) r = semicolon _

-- No printed body begins with a closing parenthesis.
pub close-print :
    (b : Body) (d : ℕ) (r : Text)
    → IsWellFormed d b
    → (at (codes ")") (print b <> r) ≡ (false, print b <> r))
      × (eat (codes ")") (print b <> r) ≡ (false, print b <> r))
unfolding print format_atom IsWellFormed at eat
close-print (atom a) d r (h, k) =
    rw (<>_assoc a.relation (codes "(" <> join (codes ", ") a.args <> codes ")") r) (
      close-Starts a.relation _ (relation-Starts a.relation h),
      eat-Starts a.relation _ (relation-Starts a.relation h),
    )
close-print (equal v w) d r (h, k) =
    rw (<>_assoc v (codes " = " <> w) r)
      (close-Starts v _ (variable-Starts v h), eat-Starts v _ (variable-Starts v h))
close-print (and xs) d r h = (refl, refl)
close-print (or xs) d r h = (refl, refl)
close-print truth d r h = (refl, refl)
close-print fail d r h = (refl, refl)

starts_variable-variable :
    (source v r : Text) → variable v ≡ true → starts_variable source (v <> r) ≡ true
unfolding starts_variable variable identifier
starts_variable-variable source [] r h = cc
starts_variable-variable source (c ∷ v) r h = ground arith

starts_variable-relation :
    (source v r : Text) → relation v ≡ true → starts_variable source (v <> r) ≡ false
unfolding starts_variable relation identifier is_lower is_upper
starts_variable-relation source [] r h = cc
starts_variable-relation source (c ∷ v) r h = ground arith

pub leb-nesting : (d : ℕ) → d < max_nesting → leb max_nesting d ≡ false
leb-nesting d h = ground arith

module _ (source : Text) where
  pub primary-atom :
      (a : Atom) (f d : ℕ) (r : Text)
      → IsAtom a
      → primary source (suc f) d (format_atom a <> r) ≡ done (atom a) r
  unfolding primary parse_simple format_atom at ends_word
  primary-atom a f d r (h, k) =
      let t : Text = codes "(" <> join (codes ", ") a.args <> codes ")" <> r in
      let s : Starts a.relation = relation-Starts a.relation h in
      rw
        (
          <>_assoc a.relation (codes "(" <> join (codes ", ") a.args <> codes ")") r,
          <>_assoc (join (codes ", ") a.args) (codes ")") r,
        )
        (on_miss (at (codes "(") (a.relation <> t)) _ _ _ _ (open-Starts a.relation t s) (
          rw (skip-Starts a.relation t s, starts_variable-relation source a.relation t h)
            (bind_lem (id source relation expected_body (a.relation <> t)) _ _ _ _
              (id_lem source relation expected_body a.relation t h s refl)
              (bind_lem (atom_args source a.relation t) _ _ _ _
                (atom_args_lem source a.relation r a.args k) refl))))

  pub primary-equal :
      (v w : Text) (f d : ℕ) (r : Text)
      → (variable v ≡ true) × (variable w ≡ true)
      → IsStop r
      → primary source (suc f) d ((v <> codes " = " <> w) <> r) ≡ done (equal v w) r
  unfolding primary parse_simple ends_word expect eat var id
  primary-equal v w f d r (h, k) e =
      let t : Text = codes " = " <> w <> r in
      let s : Starts v = variable-Starts v h in
      rw (<>_assoc v (codes " = " <> w) r) (
        on_miss (at (codes "(") (v <> t)) _ _ _ _ (open-Starts v t s) (
          rw (skip-Starts v t s, starts_variable-variable source v t h)
            (bind_lem (var source (v <> t)) _ _ _ _ (var_lem source v t h refl) (
              bind_lem (var source (codes " " <> w <> r)) _ _ _ _
                (var_lem source w r k (IsStop-ends_word r e)) refl))))

  pub primary-word :
      (b : Body) (w : Text) (f d : ℕ) (r : Text)
      → IsStop r
      → relation w ≡ true
      → ((t : Text)
          → (if same_text w (codes "true")
              then done truth t
              else if same_text w (codes "fail")
              then done fail t
              else atom_args source w t >>= λ a u. done (atom a) u)
            ≡ done b t)
      → primary source (suc f) d (w <> r) ≡ done b r
  unfolding primary parse_simple
  primary-word b w f d r e h g =
      let s : Starts w = relation-Starts w h in
      on_miss (at (codes "(") (w <> r)) _ _ _ _ (open-Starts w r s) (
        rw (skip-Starts w r s, starts_variable-relation source w r h)
          (bind_lem (id source relation expected_body (w <> r)) _ _ _ _
            (id_lem source relation expected_body w r h s (IsStop-ends_word r e))
            (on_miss (at (codes "(") r) _ _ _ _ (at-IsStop r e) (g r))))

  -- A group of a body is the body.
  pub primary-group :
      (f d : ℕ) (b : Body) (t r : Text)
      → d < max_nesting
      → eat (codes ")") t ≡ (false, t)
      → parse_body source f (d + 1) t ≡ done b (codes ")" <> r)
      → primary source (suc f) d (codes "(" <> t) ≡ done b r
  unfolding primary at eat expect
  primary-group f d b t r h e g = rw (leb-nesting d h) (
      on_miss (eat (codes ")") t) _ _ _ _ e
        (bind_lem (parse_body source f (d + 1) t) _ _ _ _ g refl))

  pub and_items-blank :
      (f d : ℕ) (t : Text) → and_items source f d (codes " " <> t) ≡ and_items source f d t
  unfolding and_items at parse_simple
  and_items-blank zero d t = refl
  and_items-blank (suc zero) d t = refl
  and_items-blank (suc (suc f)) d t = refl

  pub or_items-blank :
      (f d : ℕ) (t : Text) → or_items source f d (codes " " <> t) ≡ or_items source f d t
  unfolding or_items at parse_simple
  or_items-blank zero d t = refl
  or_items-blank (suc zero) d t = refl
  or_items-blank (suc (suc zero)) d t = refl
  or_items-blank (suc (suc (suc f))) d t = refl
