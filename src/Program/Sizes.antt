-- ===== src/Program/Sizes.antt =====
-- src/program.rs: the arenas grow to the sizes that prepare reserves.
-- The builder's arenas have the lengths of the layout, but for `k` instructions still to come.
use chrimp.Syntax.Text.{Text}
use chrimp.Map.{lookup, nat_key}
use chrimp.Program.Variables.{Variables, no_variables, slot, text_key}
use chrimp.Prelude.{
  List, Option-cases, [], arith, inl, inr, length, length-append, refl, suc, zero, ℕ, ◌++◌, ◌+◌,
  ◌∙◌, ◌∷◌, ◌≡◌,
}
use chrimp.Program.Builder.{
  Builder, Instruction, Layout, PlanAtom, Signature, build, build_atom, build_body, build_heads,
  build_items, build_rule, build_rules, count_items, empty_builder, intern, layout, layout_body,
  layout_heads, layout_items, layout_rules, push, set_at, signature_key, slots_of, zeros,
}
use chrimp.Syntax.Ast.{Atom, Bodies, Body, Program, and, atom, end, equal, fail, item, or, truth}

abbrev pub IsSized : ℕ → Builder → Layout → Type 0
IsSized k b l =
    (length b.instructions + k ≡ l.instructions)
    × (length b.operands ≡ l.operands)
    × (length b.heads ≡ l.heads)

length-zeros : (n : ℕ) → length (zeros n) ≡ n
length-zeros zero = refl
length-zeros (suc n) = omega (arith, length-zeros n)

length-set_at : (i x : ℕ) (ys : List ℕ) → length (set_at i x ys) ≡ length ys
length-set_at i x [] = refl
length-set_at zero x (y ∷ ys) = refl
length-set_at (suc i) x (y ∷ ys) = omega (arith, length-set_at i x ys)

length-slots_of : (v : Variables) (ns : List Text) → length (slots_of v ns).1 ≡ length ns
unfolding slots_of
length-slots_of v [] = refl
length-slots_of v (n ∷ ns) = omega (arith, length-slots_of (slot v n).0 ns)

intern-IsSized :
    (k : ℕ) (b : Builder) (s : Signature) (l : Layout) → IsSized k b l → IsSized k (intern b s).0 l
unfolding intern
intern-IsSized k b s l h = elim (Option-cases (lookup s b.relations)) [
  | inr (r, e) ↦ rw (e, intern) h
  | inl e ↦ rw (e, intern) h
]

build_atom-IsSized :
    (a : Atom) (k : ℕ) (b : Builder) (v : Variables) (l : Layout)
    → IsSized k b l
    → IsSized k (build_atom a b v).0 (record l { operands = l.operands + length a.args })
unfolding build_atom
build_atom-IsSized a k b v l h =
    let s : Signature = record { name = a.relation; arity = length a.args } in
    let g : IsSized k (intern b s).0 l = intern-IsSized k b s l h in
    (
      g.0,
      omega (
        arith,
        g.1,
        length-append (intern b s).0.operands (slots_of v a.args).1,
        length-slots_of v a.args,
      ),
      g.2,
    )

push-IsSized :
    (n : Instruction) (k : ℕ) (b : Builder) (l : Layout)
    → IsSized (k + 1) b l
    → IsSized k (push n b).0 l
push-IsSized n k b l h = (omega (arith, h.0, length-append b.instructions (n ∷ [])), h.1, h.2)

-- One instruction is to come for the body itself, and a slot for each item.
reserve-IsSized :
    (n k : ℕ) (b : Builder) (l : Layout)
    → IsSized k b l
    → IsSized
        (k + 1)
        (record b { operands = b.operands ++ zeros n })
        (record l { instructions = l.instructions + 1; operands = l.operands + n })
reserve-IsSized n k b l h = (
  omega (arith, h.0),
  omega (arith, h.1, length-append b.operands (zeros n), length-zeros n),
  h.2,
)

one-IsSized :
    (n : Instruction) (k : ℕ) (b : Builder) (l : Layout)
    → IsSized k b l
    → IsSized k (push n b).0 (record l { instructions = l.instructions + 1 })
one-IsSized n k b l h = push-IsSized n k b _ (omega (arith, h.0), h.1, h.2)

abbrev reserved : Bodies → Builder → Builder
reserved xs b = record b { operands = b.operands ++ zeros (count_items xs) }

mutual
  unfolding build_body layout_body

  build_body-IsSized :
      (x : Body) (k : ℕ) (b : Builder) (v : Variables) (l : Layout)
      → IsSized k b l
      → IsSized k (build_body x b v).0 (layout_body x l)
  build_body-IsSized (atom a) k b v l h =
      one-IsSized _ k (build_atom a b v).0 _ (build_atom-IsSized a k b v l h)
  build_body-IsSized (equal x y) k b v l h = one-IsSized _ k b l h
  build_body-IsSized (and xs) k b v l h =
      push-IsSized _ k (build_items xs (length b.operands) (reserved xs b) v).0 _ (
        build_items-IsSized xs (length b.operands) (k + 1) (reserved xs b) v _
          (reserve-IsSized (count_items xs) k b l h))
  build_body-IsSized (or xs) k b v l h =
      push-IsSized _ k (build_items xs (length b.operands) (reserved xs b) v).0 _ (
        build_items-IsSized xs (length b.operands) (k + 1) (reserved xs b) v _
          (reserve-IsSized (count_items xs) k b l h))
  build_body-IsSized truth k b v l h = one-IsSized _ k b l h
  build_body-IsSized fail k b v l h = one-IsSized _ k b l h

  build_items-IsSized :
      (xs : Bodies) (place k : ℕ) (b : Builder) (v : Variables) (l : Layout)
      → IsSized k b l
      → IsSized k (build_items xs place b v).0 (layout_items xs l)
  build_items-IsSized end place k b v l h = h
  build_items-IsSized (item x xs) place k b v l h =
      let c : Builder = (build_body x b v).0 in
      let w : Variables = (build_body x b v).1 in
      let i : ℕ = (build_body x b v).2 in
      let g : IsSized k c (layout_body x l) = build_body-IsSized x k b v l h in
      build_items-IsSized xs (place + 1) k (record c { operands = set_at place i c.operands }) w
        (layout_body x l) (g.0, length-set_at place i c.operands ∙ g.1, g.2)

build_heads-IsSized :
    (atoms : List Atom) (b : Builder) (v : Variables) (l : Layout)
    → IsSized 0 b l
    → IsSized 0 (build_heads atoms b v).0 (layout_heads atoms l)
unfolding build_heads layout_heads
build_heads-IsSized [] b v l h = h
build_heads-IsSized (a ∷ more) b v l h =
    let c : Builder = (build_atom a b v).0 in
    let p : PlanAtom = (build_atom a b v).2 in
    let g : IsSized 0 c (record l { operands = l.operands + length a.args }) =
      build_atom-IsSized a 0 b v l h in
    build_heads-IsSized more (record c { heads = c.heads ++ p ∷ [] }) (build_atom a b v).1 _
      (g.0, g.1, omega (arith, g.2, length-append c.heads (p ∷ [])))

build_rules-IsSized :
    (rules : Program) (b : Builder) (l : Layout)
    → IsSized 0 b l
    → IsSized 0 (build_rules rules b).0 (layout_rules rules l)
unfolding build_rules layout_rules build_rule
build_rules-IsSized [] b l h = h
build_rules-IsSized (r ∷ rs) b l h =
    let p : Builder × Variables = build_heads (r.kept ++ r.removed) b no_variables in
    build_rules-IsSized rs (build_body r.body p.0 p.1).0 _ (
      build_body-IsSized r.body 0 p.0 p.1 _
        (build_heads-IsSized (r.kept ++ r.removed) b no_variables l h))

-- The instructions, operands and heads of every program and query are as many as the sizing walk
-- of prepare counts, so that no arena outgrows what is reserved for it.
pub build-IsSized :
    (rules : Program) (query : Body) → IsSized 0 (build rules query).0 (layout rules query)
unfolding build layout
build-IsSized rules query =
    build_body-IsSized query 0 (build_rules rules empty_builder).0 no_variables _
      (build_rules-IsSized rules empty_builder _ (refl, refl, refl))
