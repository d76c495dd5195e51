-- ===== src/Syntax/Total.antt =====
-- src/syntax.rs: the parser's fuel is enough for every text.
-- The parser ends with at most `n` code points left, or with an error.
use chrimp.Syntax.Validate.{is_member, is_nil, validate_query}
use chrimp.Prelude.{
  Bool, Bool-cases, List, Option, Option-cases, [], arith, false, if◌then◌else◌, inl, inr, leb,
  length, ltb, none, not, refl, some, suc, true, zero, ℕ, ◌*◌, ◌+◌, ◌<◌, ◌==◌, ◌||◌, ◌∷◌, ◌≡◌, ◌≤◌,
  ◌⊎◌,
}
use chrimp.Syntax.Text.{
  Text, codes, is_whitespace, is_word, name, relation, same_text, strip_prefix, variable,
}
use chrimp.Syntax.Ast.{
  Body, Message, ParseError, and, atom, end, expected_body, expected_head, expected_relation,
  expected_variable, fail, max_nesting, nested_groups, truth,
}
use chrimp.Syntax.Parser.{
  Parse, and_items, arguments, at, atom_args, closing, done, drop_word, eat, error, expect, failed,
  finish, fuel, heads, id, located, more_heads, on, or_items, out_of_fuel, parse_and, parse_atom,
  parse_body, parse_program, parse_query, parse_rule, parse_rules, parse_simple, primary,
  rule_heads, rule_name, skip, skip_from, starts_comment, starts_variable, starts_with, take_word,
  validated, var, ◌>>=◌,
}

abbrev pub Within : {A : Type 0} → ℕ → Parse A → Type 0
Within n (done a r) = length r ≤ n
Within n (failed e) = Unit {0}
Within n out_of_fuel = ⊥

bind-Within :
    {A B : Type 0} (n m : ℕ) (p : Parse A) (k : A → Text → Parse B)
    → Within n p
    → ((a : A) (r : Text) → length r ≤ n → Within m (k a r))
    → Within m (p >>= k)
bind-Within n m (done a r) k h f = f a r h
bind-Within n m (failed e) k h f = tt
bind-Within n m out_of_fuel k h f = absurd h

le-Within : {A : Type 0} (n m : ℕ) → n ≤ m → (p : Parse A) → Within n p → Within m p
le-Within n m b (done a r) h = omega arith
le-Within n m b (failed e) h = tt
le-Within n m b out_of_fuel h = absurd h

length-skip_from : (c : Bool) (r : Text) → length (skip_from c r) ≤ length r
unfolding skip_from
length-skip_from c [] = omega arith
length-skip_from c (x ∷ r) =
    let inside : Bool = if c then not (x == 10) else starts_comment (x ∷ r) in
    elim (Bool-cases (c || is_whitespace x || inside)) [
      | inl e ↦ rw e (omega (arith, length-skip_from inside r))
      | inr e ↦ rw e (omega arith)
    ]

length-skip : (r : Text) → length (skip r) ≤ length r
unfolding skip
length-skip r = length-skip_from false r

length-strip_prefix : (t r s : Text) → strip_prefix t r ≡ some s → length s + length t ≡ length r
length-strip_prefix [] r s h = ground arith
length-strip_prefix (d ∷ t) [] s h = cc
length-strip_prefix (d ∷ t) (c ∷ r) s h = ground (arith, length-strip_prefix t r s)

length-drop_word : (r : Text) → length (drop_word r) ≤ length r
unfolding drop_word
length-drop_word [] = omega arith
length-drop_word (c ∷ r) = elim (Bool-cases (is_word c)) [
  | inl e ↦ rw e (omega (arith, length-drop_word r))
  | inr e ↦ rw e (omega arith)
]

-- `eat` finds the token, or leaves the blanks out.
eat_cases :
    (t r : Text)
    → (eat t r ≡ (false, skip r))
      ⊎ ((s : Text) × (eat t r ≡ (true, s)) × (length s + length t ≤ length r))
unfolding eat
eat_cases t r = elim (Option-cases (strip_prefix t (skip r))) [
  | inl e ↦ inl (rw (e, eat) refl)
  | inr (s, e) ↦
      inr (s, rw (e, eat) refl, omega (arith, length-skip r, length-strip_prefix t (skip r) s e))
]

length-eat : (t r : Text) → length (eat t r).1 ≤ length r
length-eat t r = elim (eat_cases t r) [
  | inl e ↦ rw e (length-skip r)
  | inr (s, e, b) ↦ rw e (omega arith)
]

eat-Within :
    {A : Type 0} (m : ℕ) (t r : Text) (hit miss : Text → Parse A)
    → ((s : Text) → length s + length t ≤ length r → Within m (hit s))
    → ((s : Text) → length s ≤ length r → Within m (miss s))
    → Within m (on (eat t r) hit miss)
eat-Within m t r hit miss f g = elim (eat_cases t r) [
  | inl e ↦ rw e (g (skip r) (length-skip r))
  | inr (s, e, b) ↦ rw e (f s b)
]

at-Within :
    {A : Type 0} (m : ℕ) (t r : Text) (hit miss : Text → Parse A)
    → ((s : Text) → length s ≤ length r → Within m (hit s))
    → ((s : Text) → length s ≤ length r → Within m (miss s))
    → Within m (on (at t r) hit miss)
unfolding at
at-Within m t r hit miss f g = elim (Bool-cases (starts_with t (skip r))) [
  | inl e ↦ rw e (f (skip r) (length-skip r))
  | inr e ↦ rw e (g (skip r) (length-skip r))
]

module _ (source : Text) where
  expect-Within : (t r : Text) (n : ℕ) → length r ≤ n + length t → Within n (expect source t r)
  unfolding expect error
  expect-Within t r n h = eat-Within _ t r _ _ (λ s b. omega arith) (λ s b. tt)

  id-Within :
      (valid : Text → Bool) (m : Message) (r : Text) → Within (length r) (id source valid m r)
  unfolding id error
  id-Within valid m r = elim (Bool-cases (valid (take_word (skip r)))) [
    | inl e ↦ rw e (omega (arith, length-skip r, length-drop_word (skip r)))
    | inr e ↦ rw e tt
  ]

  var-Within : (r : Text) → Within (length r) (var source r)
  unfolding var
  var-Within r = id-Within variable expected_variable r

  arguments-Within : (f : ℕ) (r : Text) → length r < f → Within (length r) (arguments source f r)
  unfolding arguments
  arguments-Within zero r h = absurd (omega arith)
  arguments-Within (suc f) r h = bind-Within _ _ (var source r) _ (var-Within r) λ v s b.
      eat-Within _ (codes ",") s _ _
        (λ t c.
          bind-Within _ _ (arguments source f t) _ (arguments-Within f t (omega arith))
            λ vs u d. omega arith)
        (λ t c. omega arith)

  atom_args-Within : (n r : Text) → Within (length r) (atom_args source n r)
  unfolding atom_args
  atom_args-Within n r =
      eat-Within _ (codes "(") r _ _
        (λ s b.
          eat-Within _ (codes ")") s _ _ (λ t c. omega arith)
            (λ t c.
              bind-Within _ _ (arguments source (suc (length t)) t) _
                (arguments-Within (suc (length t)) t (omega arith))
                λ vs u d.
                  bind-Within _ _ (expect source (codes ")") u) _
                    (expect-Within (codes ")") u (length u) (omega arith)) λ _ w e. omega arith))
        (λ s b. omega arith)

  parse_atom-Within : (r : Text) → Within (length r) (parse_atom source r)
  unfolding parse_atom
  parse_atom-Within r =
      bind-Within _ _ (id source relation expected_relation r) _
        (id-Within relation expected_relation r)
        λ n s b. le-Within _ _ b (atom_args source n s) (atom_args-Within n s)

  more_heads-Within : (f : ℕ) (r : Text) → length r < f → Within (length r) (more_heads source f r)
  unfolding more_heads
  more_heads-Within zero r h = absurd (omega arith)
  more_heads-Within (suc f) r h =
      bind-Within _ _ (parse_atom source r) _ (parse_atom-Within r) λ a s b.
        eat-Within _ (codes ",") s _ _
          (λ t c.
            bind-Within _ _ (more_heads source f t) _ (more_heads-Within f t (omega arith))
              λ vs u d. omega arith)
          (λ t c. omega arith)

  heads-Within : (r : Text) → Within (length r) (heads source r)
  unfolding heads
  heads-Within r = more_heads-Within (suc (length r)) r (omega arith)

  parse_simple-Within : (r : Text) → Within (length r) (parse_simple source r)
  unfolding parse_simple
  parse_simple-Within r = elim (Bool-cases (starts_variable source (skip r))) [
    | inl e ↦ rw e (
        bind-Within _ _ (var source (skip r)) _ (var-Within (skip r)) λ x s b.
          bind-Within _ _ (expect source (codes "=") s) _
            (expect-Within (codes "=") s (length s) (omega arith))
            λ _ t c.
              bind-Within _ _ (var source t) _ (var-Within t) λ y u d. omega (arith, length-skip r))
    | inr e ↦ rw e (
        bind-Within _ _ (id source relation expected_body (skip r)) _
          (id-Within relation expected_body (skip r))
          λ n s b.
            at-Within _ (codes "(") s _ _
              (λ t c.
                bind-Within _ _ (atom_args source n t) _ (atom_args-Within n t)
                  λ a u d. omega (arith, length-skip r))
              (λ t c. word n t (omega (arith, length-skip r))))
  ]
    where
      word :
          (n t : Text)
          → length t ≤ length r
          → Within (length r) (
              if same_text n (codes "true")
              then done truth t
              else if same_text n (codes "fail")
              then done fail t
              else atom_args source n t >>= λ a u. done (atom a) u)
      word n t c = elim (Bool-cases (same_text n (codes "true"))) [
        | inl e ↦ rw e c
        | inr e ↦ elim (Bool-cases (same_text n (codes "fail"))) [
          | inl e' ↦ rw (e, e') c
          | inr e' ↦
              rw (e, e')
                (bind-Within _ _ (atom_args source n t) _ (atom_args-Within n t)
                  λ a u d. omega arith)
        ]
      ]

  closing-Within :
      {A : Type 0} (m d : ℕ) (r : Text) (hit miss : Text → Parse A)
      → ((s : Text) → length s ≤ length r → Within m (hit s))
      → ((s : Text) → length s ≤ length r → Within m (miss s))
      → Within m (on (closing source d r) hit miss)
  unfolding closing
  closing-Within m d r hit miss f g = elim (Bool-cases (ltb 0 d)) [
    | inl e ↦ rw e (at-Within m (codes ")") r hit miss f g)
    | inr e ↦ rw e (g r (omega arith))
  ]

  nested :
      (f d : ℕ) (r s : Text)
      → length s ≤ length r
      → ((u : Text) → length u < length r → Within (length u) (parse_body source f (d + 1) u))
      → Within (length r) (
          if leb max_nesting d
          then error source s nested_groups
          else on
              (eat (codes "(") s)
              (λ t.
                on
                  (eat (codes ")") t)
                  (λ u. done (and end) u)
                  (λ u. parse_body source f (d + 1) u >>= λ b w.
                    expect source (codes ")") w >>= λ _ z. done b z))
              (λ t. error source t nested_groups))
  unfolding error
  nested f d r s b h = elim (Bool-cases (leb max_nesting d)) [
    | inl e ↦ rw e tt
    | inr e ↦ rw e (
        eat-Within _ (codes "(") s _ _
          (λ t c.
            eat-Within _ (codes ")") t _ _ (λ u g. omega arith)
              (λ u g. bind-Within _ _ (parse_body source f (d + 1) u) _ (h u (omega arith)) λ x w i.
                bind-Within _ _ (expect source (codes ")") w) _
                  (expect-Within (codes ")") w (length w) (omega arith)) λ _ z j. omega arith))
          (λ t c. tt))
  ]

  mutual
    unfolding parse_body

    parse_body-Within :
        (f d : ℕ) (r : Text) → 4 * length r + 3 ≤ f → Within (length r) (parse_body source f d r)
    parse_body-Within zero d r h = absurd (omega arith)
    parse_body-Within (suc f) d r h =
        bind-Within _ _ (parse_and source f d r) _ (parse_and-Within f d r (omega arith)) λ x s b.
          eat-Within _ (codes ";") s _ _
            (λ t c.
              closing-Within _ d t _ _ (λ u e. omega arith)
                (λ u e.
                  bind-Within _ _ (or_items source f d u) _ (or_items-Within f d u (omega arith))
                    λ xs w g. omega arith))
            (λ t c. omega arith)

    or_items-Within :
        (f d : ℕ) (r : Text) → 4 * length r + 3 ≤ f → Within (length r) (or_items source f d r)
    or_items-Within zero d r h = absurd (omega arith)
    or_items-Within (suc f) d r h =
        bind-Within _ _ (parse_and source f d r) _ (parse_and-Within f d r (omega arith)) λ x s b.
          eat-Within _ (codes ";") s _ _
            (λ t c.
              bind-Within _ _ (or_items source f d t) _ (or_items-Within f d t (omega arith))
                λ xs w g. omega arith)
            (λ t c. omega arith)

    parse_and-Within :
        (f d : ℕ) (r : Text) → 4 * length r + 2 ≤ f → Within (length r) (parse_and source f d r)
    parse_and-Within zero d r h = absurd (omega arith)
    parse_and-Within (suc f) d r h =
        bind-Within _ _ (primary source f d r) _ (primary-Within f d r (omega arith)) λ x s b.
          eat-Within _ (codes ",") s _ _
            (λ t c.
              closing-Within _ d t _ _ (λ u e. omega arith)
                (λ u e.
                  bind-Within _ _ (and_items source f d u) _ (and_items-Within f d u (omega arith))
                    λ xs w g. omega arith))
            (λ t c. omega arith)

    and_items-Within :
        (f d : ℕ) (r : Text) → 4 * length r + 2 ≤ f → Within (length r) (and_items source f d r)
    and_items-Within zero d r h = absurd (omega arith)
    and_items-Within (suc f) d r h =
        bind-Within _ _ (primary source f d r) _ (primary-Within f d r (omega arith)) λ x s b.
          eat-Within _ (codes ",") s _ _
            (λ t c.
              bind-Within _ _ (and_items source f d t) _ (and_items-Within f d t (omega arith))
                λ xs w g. omega arith)
            (λ t c. omega arith)

    primary-Within :
        (f d : ℕ) (r : Text) → 4 * length r + 1 ≤ f → Within (length r) (primary source f d r)
    primary-Within zero d r h = absurd (omega arith)
    primary-Within (suc f) d r h =
        at-Within _ (codes "(") r _ _
          (λ s b. nested f d r s b λ u c. parse_body-Within f (d + 1) u (omega arith))
          (λ s b. le-Within _ _ b (parse_simple source s) (parse_simple-Within s))

  -- A body is read, or refused with an error, within four units of fuel for each code point.
  pub parse_body_lem : (r : Text) → Within (length r) (parse_body source (fuel source r) 0 r)
  parse_body_lem r = parse_body-Within (fuel source r) 0 r (omega arith)

  located-Within :
      (e : Option ParseError) (b : Body) (r : Text) → Within (length r) (located source e b r)
  unfolding located error
  located-Within none b r = omega arith
  located-Within (some e) b r = tt

  validated-Within : (b : Body) (r : Text) → Within (length r) (validated source b r)
  unfolding validated
  validated-Within b r = located-Within (validate_query b) b r

  finish-Within : (r : Text) → Within (length r) (finish source r)
  unfolding finish error
  finish-Within r = elim (Bool-cases (is_nil (skip r))) [
    | inl e ↦ rw e (length-skip r)
    | inr e ↦ rw e tt
  ]

  rule_name-Within : (names : List Text) (r : Text) → Within (length r) (rule_name source names r)
  unfolding rule_name error
  rule_name-Within names r =
      bind-Within _ _ (id source name expected_head r) _ (id-Within name expected_head r) λ n s b.
        eat-Within _ (codes "@") s _ _
          (λ t c. elim (Bool-cases (is_member n names)) [
            | inl e ↦ rw e tt
            | inr e ↦ rw e (omega arith)
          ])
          (λ t c. omega arith)

  rule_heads-Within : (r : Text) → Within (length r) (rule_heads source r)
  unfolding rule_heads
  rule_heads-Within r = bind-Within _ _ (heads source r) _ (heads-Within r) λ xs s b.
      eat-Within _ (codes "\\") s _ _
        (λ t c. bind-Within _ _ (heads source t) _ (heads-Within t) λ ys u d.
          bind-Within _ _ (expect source (codes "<=>") u) _
            (expect-Within (codes "<=>") u (length u) (omega arith)) λ _ w e. omega arith)
        (λ t c.
          eat-Within _ (codes "==>") t _ _ (λ u d. omega arith)
            (λ u d.
              bind-Within _ _ (expect source (codes "<=>") u) _
                (expect-Within (codes "<=>") u (length u) (omega arith)) λ _ w e. omega arith))

  -- A rule takes at least its period.
  parse_rule-Within :
      (names : List Text) (r : Text) (n : ℕ)
      → length r ≤ n + 1
      → Within n (parse_rule source names r)
  unfolding parse_rule
  parse_rule-Within names r n h =
      bind-Within _ _ (rule_name source names r) _ (rule_name-Within names r) λ (m, used) s b.
        bind-Within _ _ (rule_heads source s) _ (rule_heads-Within s) λ (ks, ds) t c.
          bind-Within _ _ (parse_body source (fuel source t) 0 t) _ (parse_body_lem t) λ x u d.
            bind-Within _ _ (validated source x u) _ (validated-Within x u) λ _ w e.
              bind-Within _ _ (expect source (codes ".") w) _
                (expect-Within (codes ".") w n (omega arith)) λ _ z g. g

  parse_rules-Within :
      (f : ℕ) (names : List Text) (r : Text)
      → length r < f
      → Within (length r) (parse_rules source f names r)
  unfolding parse_rules
  parse_rules-Within zero names r h = absurd (omega arith)
  parse_rules-Within (suc f) names [] h = omega arith
  parse_rules-Within (suc f) names (c ∷ r) h =
      bind-Within _ _ (parse_rule source names (c ∷ r)) _
        (parse_rule-Within names (c ∷ r) (length r) (omega arith))
        λ (x, used) s b.
          bind-Within _ _ (parse_rules source f used (skip s)) _
            (parse_rules-Within f used (skip s) (omega (arith, length-skip s)))
            λ xs t e. omega (arith, length-skip s)

-- parse_query ends for every text: with a body and no more text left than it began with, or with
-- an error, and never for want of fuel.
pub parse_query-Within : (source : Text) → Within (length source) (parse_query source)
unfolding parse_query
parse_query-Within source =
    bind-Within _ _ (parse_body source (fuel source source) 0 source) _
      (parse_body_lem source source)
      λ b r g. bind-Within _ _ (validated source b r) _ (validated-Within source b r) λ _ s h.
        let t : Text = (eat (codes ".") s).1 in
        bind-Within _ _ (finish source t) _ (finish-Within source t)
          λ _ u i. omega (arith, length-eat (codes ".") s)

-- parse_program ends for every text, with a program or an error, and never for want of fuel.
pub parse_program-Within : (source : Text) → Within (length source) (parse_program source)
unfolding parse_program
parse_program-Within source =
    le-Within _ _ (length-skip source)
      (parse_rules source (suc (length (skip source))) [] (skip source))
      (parse_rules-Within source (suc (length (skip source))) [] (skip source) (omega arith))
