-- ===== src/Syntax/Containers.antt =====
-- src/syntax.rs: the parser reads a printed container back, given that it reads its items back.
use chrimp.Prelude.{[], arith, false, ltb, refl, suc, true, ℕ, ◌+◌, ◌<◌, ◌∙◌, ◌∷◌, ◌≡◌}
use chrimp.Syntax.Text.{<>_assoc, <>_nil, Text, codes, ◌<>◌}
use chrimp.Syntax.Ast.{Bodies, Body, and, end, item, max_nesting, or}
use chrimp.Syntax.Layout.{close, print, print_items}
use chrimp.Syntax.Parser.{
  and_items, at, closing, done, eat, or_items, parse_and, parse_body, primary,
}
use chrimp.Syntax.WellFormed.{IsWellFormed}
use chrimp.Syntax.Tokens.{bind_lem, on_miss}
use chrimp.Syntax.ReadBack.{close-print, primary-group}

text-single :
    (s : Text) (x : Body) (r : Text)
    → (print_items s false (item x end) <> close s (item x end)) <> r
      ≡ print x <> s <> codes ")" <> r
unfolding print
text-single s x r =
    rw (<>_nil (print x), <>_assoc (print x) (s <> codes ")") r, <>_assoc s (codes ")") r) refl

text-more :
    (s : Text) (x y : Body) (ys : Bodies) (r : Text)
    → (print_items s false (item x (item y ys)) <> close s (item x (item y ys))) <> r
      ≡ print x <> ((s <> codes " ") <> print y <> print_items s true ys) <> codes ")" <> r
unfolding print
text-more s x y ys r =
    rw
      (
        <>_assoc (print x <> (s <> codes " ") <> print y <> print_items s true ys) (codes ")") r,
        <>_assoc (print x) ((s <> codes " ") <> print y <> print_items s true ys) (codes ")" <> r),
      )
      refl

positive : (d : ℕ) → ltb 0 (d + 1) ≡ true
positive d = ground arith

at-blank : (c : ℕ) (r : Text) → at (c ∷ []) (codes " " <> r) ≡ at (c ∷ []) r
unfolding at
at-blank c r = refl

module _ (source : Text) where
  -- The first item leaves the text after it.
  abbrev Reads : ℕ → ℕ → Body → Text → Type 0
  Reads f d x t = primary source f d (print x <> t) ≡ done x t

  pub primary-and_single :
      (x : Body) (f d : ℕ) (r : Text)
      → d < max_nesting
      → IsWellFormed (d + 1) x
      → Reads f (d + 1) x (codes ",)" <> r)
      → primary source (suc (suc (suc f))) d (print (and (item x end)) <> r)
        ≡ done (and (item x end)) r
  unfolding print parse_body closing eat at
  primary-and_single x f d r h w p = rw (text-single (codes ",") x r) (
      primary-group source (suc (suc f)) d (and (item x end)) (print x <> codes ",)" <> r) r h
        (close-print x (d + 1) (codes ",)" <> r) w).1
        (bind_lem (parse_and source (suc f) (d + 1) (print x <> codes ",)" <> r)) _
          (and (item x end)) (codes ")" <> r) _
          (bind_lem (primary source f (d + 1) (print x <> codes ",)" <> r)) _ _ _ _ p
            (rw (positive d) refl))
          refl))

  pub primary-or_single :
      (x : Body) (f d : ℕ) (r : Text)
      → d < max_nesting
      → IsWellFormed (d + 1) x
      → Reads f (d + 1) x (codes ";)" <> r)
      → primary source (suc (suc (suc f))) d (print (or (item x end)) <> r)
        ≡ done (or (item x end)) r
  unfolding print parse_body closing eat at
  primary-or_single x f d r h w p = rw (text-single (codes ";") x r) (
      primary-group source (suc (suc f)) d (or (item x end)) (print x <> codes ";)" <> r) r h
        (close-print x (d + 1) (codes ";)" <> r) w).1
        (bind_lem (parse_and source (suc f) (d + 1) (print x <> codes ";)" <> r)) _ (x) _ _
          (bind_lem (primary source f (d + 1) (print x <> codes ";)" <> r)) _ _ _ _ p refl)
          (rw (positive d) refl)))

  -- `closing` finds no parenthesis before an item.
  closing-print :
      (y : Body) (d : ℕ) (t r : Text)
      → IsWellFormed (d + 1) y
      → closing source (d + 1) (codes " " <> (print y <> t) <> r) ≡ (false, (print y <> t) <> r)
  unfolding closing
  closing-print y d t r w = rw (positive d) (
      at-blank b')' ((print y <> t) <> r)
      ∙ (rw (<>_assoc (print y) t r) (close-print y (d + 1) (t <> r) w).0))

  pub primary-and_more :
      (x y : Body) (ys : Bodies) (f d : ℕ) (r : Text)
      → d < max_nesting
      → IsWellFormed (d + 1) x
      → IsWellFormed (d + 1) y
      → Reads f (d + 1) x (print_items (codes ",") true (item y ys) <> codes ")" <> r)
      → (and_items source f (d + 1) (print_items (codes ",") false (item y ys) <> codes ")" <> r)
          ≡ done (item y ys) (codes ")" <> r))
      → primary source (suc (suc (suc f))) d (print (and (item x (item y ys))) <> r)
        ≡ done (and (item x (item y ys))) r
  unfolding print parse_body eat
  primary-and_more x y ys f d r h w v p q =
      let u : Text = print_items (codes ",") true ys in
      let t : Text = print_items (codes ",") true (item y ys) <> codes ")" <> r in
      rw (text-more (codes ",") x y ys r) (
        primary-group source (suc (suc f)) d (and (item x (item y ys))) (print x <> t) r h
          (close-print x (d + 1) t w).1
          (bind_lem (parse_and source (suc f) (d + 1) (print x <> t)) _ _ _ _
            (bind_lem (primary source f (d + 1) (print x <> t)) _ _ _ _ p (
              on_miss (closing source (d + 1) (codes " " <> (print y <> u) <> codes ")" <> r)) _ _ _
                _ (closing-print y d u (codes ")" <> r) v)
                (bind_lem (and_items source f (d + 1) ((print y <> u) <> codes ")" <> r)) _ _ _ _ q
                  refl)))
            refl))

  pub primary-or_more :
      (x y : Body) (ys : Bodies) (f d : ℕ) (r : Text)
      → d < max_nesting
      → IsWellFormed (d + 1) x
      → IsWellFormed (d + 1) y
      → Reads f (d + 1) x (print_items (codes ";") true (item y ys) <> codes ")" <> r)
      → (or_items source
            (suc f)
            (d + 1)
            (print_items (codes ";") false (item y ys) <> codes ")" <> r)
          ≡ done (item y ys) (codes ")" <> r))
      → primary source (suc (suc (suc f))) d (print (or (item x (item y ys))) <> r)
        ≡ done (or (item x (item y ys))) r
  unfolding print parse_body eat
  primary-or_more x y ys f d r h w v p q =
      let u : Text = print_items (codes ";") true ys in
      let t : Text = print_items (codes ";") true (item y ys) <> codes ")" <> r in
      rw (text-more (codes ";") x y ys r) (
        primary-group source (suc (suc f)) d (or (item x (item y ys))) (print x <> t) r h
          (close-print x (d + 1) t w).1
          (bind_lem (parse_and source (suc f) (d + 1) (print x <> t)) _ _ _ _
            (bind_lem (primary source f (d + 1) (print x <> t)) _ _ _ _ p refl)
            (on_miss (closing source (d + 1) (codes " " <> (print y <> u) <> codes ")" <> r)) _ _ _
              _ (closing-print y d u (codes ")" <> r) v)
              (bind_lem (or_items source (suc f) (d + 1) ((print y <> u) <> codes ")" <> r)) _ _ _ _
                q refl))))
