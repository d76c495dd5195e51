-- ===== src/Program/Builder.antt =====
-- src/program.rs: Builder and Layout, and what prepare builds from the rules and the query.
use chrimp.Prelude.{
  Bool, List, Option, [], arith, false, length, none, some, suc, true, zero, ℕ, ◌&&◌, ◌++◌, ◌+◌,
  ◌==◌, ◌↔◌, ◌∷◌, ◌≡◌,
}
use chrimp.Map.{Key, Map, insert, lookup, nat_key}
use chrimp.Syntax.Text.{Text, same_text}
use chrimp.Syntax.Ast.{
  Atom, Bodies, Body, Program, Rule, and, atom, end, equal, fail, item, or, truth,
}
use chrimp.Program.Variables.{Variables, no_variables, same_text_iff, slot, text_key}

pub record Span : Type 0 where
  pub start : ℕ
  pub len : ℕ

pub record Signature : Type 0 where
  pub name : Text
  pub arity : ℕ

abbrev pub same_signature : Signature → Signature → Bool
same_signature s t = same_text s.name t.name && s.arity == t.arity

pub same_signature_iff : (s t : Signature) → (same_signature s t ≡ true) ↔ (s ≡ t)
same_signature_iff s t = (
  λ h. ground (arith, same_text_iff s.name t.name),
  λ h. ground (arith, same_text_iff s.name t.name),
)

instance abbrev pub signature_key : Key Signature
signature_key = record { same = same_signature; less = λ s t. false; same_iff = same_signature_iff }

-- `program::Atom`.
pub record PlanAtom : Type 0 where
  pub relation : ℕ
  pub args : Span

pub data Instruction : Type 0 where
  post : PlanAtom → Instruction
  equate : ℕ → ℕ → Instruction
  conjunction disjunction : Span → Instruction
  succeed abandon : Instruction

pub record Builder : Type 0 where
  pub signatures : List Signature
  pub relations : Map Signature ℕ
  pub instructions : List Instruction
  pub operands : List ℕ
  pub heads : List PlanAtom

-- The number of entries of each arena.
pub record Layout : Type 0 where
  pub instructions : ℕ
  pub operands : ℕ
  pub heads : ℕ

abbrev pub count_items : Bodies → ℕ
count_items end = 0
count_items (item x xs) = suc (count_items xs)

unfoldable mutual
  pub layout_body : Body → Layout → Layout
  layout_body (atom a) l = record {
    instructions = l.instructions + 1;
    operands = l.operands + length a.args;
    heads = l.heads;
  }
  layout_body (and xs) l =
      layout_items xs
        (record l { instructions = l.instructions + 1; operands = l.operands + count_items xs })
  layout_body (or xs) l =
      layout_items xs
        (record l { instructions = l.instructions + 1; operands = l.operands + count_items xs })
  layout_body (equal x y) l = record l { instructions = l.instructions + 1 }
  layout_body truth l = record l { instructions = l.instructions + 1 }
  layout_body fail l = record l { instructions = l.instructions + 1 }

  pub layout_items : Bodies → Layout → Layout
  layout_items end l = l
  layout_items (item x xs) l = layout_items xs (layout_body x l)

unfoldable pub layout_heads : List Atom → Layout → Layout
layout_heads [] l = l
layout_heads (a ∷ more) l =
    layout_heads more (record l { heads = l.heads + 1; operands = l.operands + length a.args })

unfoldable pub layout_rules : Program → Layout → Layout
unfolding layout_heads layout_body
layout_rules [] l = l
layout_rules (r ∷ rs) l =
    layout_rules rs (layout_body r.body (layout_heads (r.kept ++ r.removed) l))

-- The sizing walk of `prepare`.
unfoldable pub layout : Program → Body → Layout
unfolding layout_rules layout_body
layout rules query =
    layout_body query (layout_rules rules (record { instructions = 0; operands = 0; heads = 0 }))

unfoldable pub slots_of : Variables → List Text → Variables × List ℕ
unfolding slot
slots_of v [] = (v, [])
slots_of v (n ∷ ns) = let (w, k) = slot v n in let (u, ks) = slots_of w ns in (u, k ∷ ks)

-- `relations.entry(signature).or_insert_with(..)`.
unfoldable pub intern : Builder → Signature → Builder × ℕ
intern b s = elim (lookup s b.relations) [
  | some r ↦ (b, r)
  | none ↦ (
    record b {
      signatures = b.signatures ++ s ∷ [];
      relations = insert s (length b.signatures) b.relations;
    },
    length b.signatures,
  )
]

unfoldable pub build_atom : Atom → Builder → Variables → Builder × Variables × PlanAtom
unfolding intern slots_of
build_atom a b v =
    let (c, r) = intern b (record { name = a.relation; arity = length a.args }) in
    let (w, ks) = slots_of v a.args in
    (
      record c { operands = c.operands ++ ks },
      w,
      record { relation = r; args = record { start = length c.operands; len = length a.args } },
    )

abbrev pub zeros : ℕ → List ℕ
zeros zero = []
zeros (suc n) = 0 ∷ zeros n

-- `operands[i] = x`; the code's index is always in range.
abbrev pub set_at : ℕ → ℕ → List ℕ → List ℕ
set_at i x [] = []
set_at zero x (y ∷ ys) = x ∷ ys
set_at (suc i) x (y ∷ ys) = y ∷ set_at i x ys

abbrev pub push : Instruction → Builder → Builder × ℕ
push n b = (record b { instructions = b.instructions ++ n ∷ [] }, length b.instructions)

unfoldable mutual
  unfolding build_atom slot

  pub build_body : Body → Builder → Variables → Builder × Variables × ℕ
  build_body (atom a) b v =
      let (c, w, p) = build_atom a b v in let (d, i) = push (post p) c in (d, w, i)
  build_body (equal x y) b v =
      let (w, j) = slot v x in
      let (u, k) = slot w y in let (d, i) = push (equate j k) b in (d, u, i)
  build_body (and xs) b v =
      let n : ℕ = length b.operands in
      let (c, w) =
        build_items xs n (record b { operands = b.operands ++ zeros (count_items xs) }) v in
      let (d, i) = push (conjunction (record { start = n; len = count_items xs })) c in (d, w, i)
  build_body (or xs) b v =
      let n : ℕ = length b.operands in
      let (c, w) =
        build_items xs n (record b { operands = b.operands ++ zeros (count_items xs) }) v in
      let (d, i) = push (disjunction (record { start = n; len = count_items xs })) c in (d, w, i)
  build_body truth b v = let (d, i) = push succeed b in (d, v, i)
  build_body fail b v = let (d, i) = push abandon b in (d, v, i)

  -- The items, the instruction of each written at its place among the operands.
  pub build_items : Bodies → ℕ → Builder → Variables → Builder × Variables
  build_items end place b v = (b, v)
  build_items (item x xs) place b v =
      let (c, w, i) = build_body x b v in
      build_items xs (place + 1) (record c { operands = set_at place i c.operands }) w

unfoldable pub build_heads : List Atom → Builder → Variables → Builder × Variables
unfolding build_atom
build_heads [] b v = (b, v)
build_heads (a ∷ more) b v =
    let (c, w, p) = build_atom a b v in build_heads more (record c { heads = c.heads ++ p ∷ [] }) w

pub record RulePlan : Type 0 where
  pub name : Option Text
  pub heads : Span
  pub kept : ℕ
  pub head_variables : ℕ
  pub variables : List Text
  pub body : ℕ

unfoldable pub build_rule : Rule → Builder → Builder × RulePlan
unfolding build_heads build_body
build_rule r b =
    let (c, v) = build_heads (r.kept ++ r.removed) b no_variables in
    let (d, w, i) = build_body r.body c v in
    (
      d,
      record {
        name = r.name;
        heads = record { start = length b.heads; len = length r.kept + length r.removed };
        kept = length r.kept;
        head_variables = length v.names;
        variables = w.names;
        body = i;
      },
    )

unfoldable pub build_rules : Program → Builder → Builder × List RulePlan
unfolding build_rule
build_rules [] b = (b, [])
build_rules (r ∷ rs) b =
    let (c, p) = build_rule r b in let (d, ps) = build_rules rs c in (d, p ∷ ps)

abbrev pub empty_builder : Builder
empty_builder = record {
  signatures = [];
  relations = [];
  instructions = [];
  operands = [];
  heads = [];
}

-- The builder when `prepare` has read the rules and the query, with the rules' plans, the query's
-- variables and its instruction.
unfoldable pub build : Program → Body → Builder × List RulePlan × Variables × ℕ
unfolding build_rules build_body
build rules query =
    let (b, plans) = build_rules rules empty_builder in
    let (c, v, i) = build_body query b no_variables in (c, plans, v, i)
