-- ===== src/Syntax/Parser.antt =====
-- src/syntax.rs: Parser, parse_query and parse_program. `pos` is held as the text from it on, and
-- the loops and calls whose end the shape of the text does not give spend fuel.
use chrimp.Prelude.{
  Bool, List, Option, [], false, if◌then◌else◌, leb, length, ltb, none, not, some, suc, true, zero,
  ℕ, ◌*◌, ◌+◌, ◌-◌, ◌==◌, ◌||◌, ◌∷◌,
}
use chrimp.Syntax.Text.{
  Text, codes, is_upper, is_whitespace, is_word, last_line, line_feeds, name, offset, relation,
  same_text, strip_prefix, take, variable,
}
use chrimp.Syntax.Ast.{
  Atom, Bodies, Body, Message, ParseError, Program, Rule, and, atom, duplicate_rule_name, end,
  equal, expected, expected_body, expected_head, expected_relation, expected_variable, fail, item,
  max_nesting, nested_groups, or, trailing_input, truth,
}
use chrimp.Syntax.Validate.{is_member, is_nil, validate_query}

pub data Parse (A : Type 0) : Type 0 where
  done : A → Text → Parse A
  failed : ParseError → Parse A
  out_of_fuel : Parse A

infixl 5 ◌>>=◌
abbrev pub ◌>>=◌ : {A B : Type 0} → Parse A → (A → Text → Parse B) → Parse B
done a r >>= k = k a r
failed e >>= k = failed e
out_of_fuel >>= k = out_of_fuel

-- A branch on what a test returns, with the text it leaves.
abbrev pub on : {A : Type 0} → Bool × Text → (Text → A) → (Text → A) → A
on (true, r) hit miss = hit r
on (false, r) hit miss = miss r

abbrev pub starts_with : Text → Text → Bool
starts_with t r = elim (strip_prefix t r) [ none ↦ false | some s ↦ true ]

abbrev pub starts_comment : Text → Bool
starts_comment r = starts_with (codes "%") r || starts_with (codes "//") r

-- `skip` inside a comment or out of one: a comment ends before the line feed.
unfoldable pub skip_from : Bool → Text → Text
unfolding is_whitespace
skip_from comment [] = []
skip_from comment (c ∷ r) =
    let inside = if comment then not (c == 10) else starts_comment (c ∷ r) in
    let rest = skip_from inside r in if comment || is_whitespace c || inside then rest else c ∷ r

unfoldable pub skip : Text → Text
unfolding skip_from
skip r = skip_from false r

unfoldable pub at : Text → Text → Bool × Text
unfolding skip
at token r = (starts_with token (skip r), skip r)

unfoldable pub eat : Text → Text → Bool × Text
unfolding skip
eat token r = elim (strip_prefix token (skip r)) [ none ↦ (false, skip r) | some s ↦ (true, s) ]

unfoldable pub take_word : Text → Text
unfolding is_word
take_word [] = []
take_word (c ∷ r) = if is_word c then c ∷ take_word r else []

unfoldable pub drop_word : Text → Text
unfolding is_word
drop_word [] = []
drop_word (c ∷ r) = if is_word c then drop_word r else c ∷ r

module _ (source : Text) where
  -- The error at the text `r` that is left.
  unfoldable pub error : {A : Type 0} → Text → Message → Parse A
  unfolding offset line_feeds last_line
  error r m =
      let prefix = take (length source - length r) source in
      failed (record {
        message = m;
        offset = some (offset prefix);
        line = some (line_feeds prefix + 1);
        column = some (last_line 0 prefix + 1);
        path = none;
      })

  unfoldable pub expect : Text → Text → Parse (Unit {0})
  unfolding eat error
  expect token r = on (eat token r) (λ s. done tt s) (λ s. error s (expected token))

  unfoldable pub id : (Text → Bool) → Message → Text → Parse Text
  unfolding skip take_word drop_word error
  id valid m r =
      if valid (take_word (skip r))
      then done (take_word (skip r)) (drop_word (skip r))
      else error (skip r) m

  unfoldable pub var : Text → Parse Text
  unfolding id variable
  var = id variable expected_variable

  -- The loop over the arguments, a unit of fuel for each.
  unfoldable pub arguments : ℕ → Text → Parse (List Text)
  unfolding var eat
  arguments zero r = out_of_fuel
  arguments (suc f) r = var r >>= λ v s.
      on (eat (codes ",") s) (λ t. arguments f t >>= λ vs u. done (v ∷ vs) u) (λ t. done (v ∷ []) t)

  unfoldable pub atom_args : Text → Text → Parse Atom
  unfolding arguments eat expect
  atom_args n r =
      on (eat (codes "(") r)
        (λ s.
          on (eat (codes ")") s) (λ t. done (record { relation = n; args = [] }) t)
            (λ t. arguments (suc (length t)) t >>= λ vs u.
              expect (codes ")") u >>= λ _ w. done (record { relation = n; args = vs }) w))
        (λ s. done (record { relation = n; args = [] }) s)

  unfoldable pub parse_atom : Text → Parse Atom
  unfolding id relation atom_args
  parse_atom r = id relation expected_relation r >>= λ n s. atom_args n s

  unfoldable pub more_heads : ℕ → Text → Parse (List Atom)
  unfolding parse_atom eat
  more_heads zero r = out_of_fuel
  more_heads (suc f) r = parse_atom r >>= λ a s.
      on (eat (codes ",") s) (λ t. more_heads f t >>= λ xs u. done (a ∷ xs) u)
        (λ t. done (a ∷ []) t)

  unfoldable pub heads : Text → Parse (List Atom)
  unfolding more_heads
  heads r = more_heads (suc (length r)) r

  -- `depth > 0 && self.at(")")`.
  unfoldable pub closing : ℕ → Text → Bool × Text
  unfolding at
  closing d r = if ltb 0 d then at (codes ")") r else (false, r)

  unfoldable pub starts_variable : Text → Bool
  unfolding is_upper
  starts_variable [] = false
  starts_variable (c ∷ r) = is_upper c || c == b'_'

  -- `primary` where no parenthesis opens.
  unfoldable pub parse_simple : Text → Parse Body
  unfolding skip starts_variable var expect id relation at atom_args
  parse_simple r =
      if starts_variable (skip r)
      then var (skip r)
        >>= (λ x s. expect (codes "=") s >>= λ _ t. var t >>= λ y u. done (equal x y) u)
      else id relation expected_body (skip r) >>= λ n s.
          on (at (codes "(") s) (λ t. atom_args n t >>= λ a u. done (atom a) u)
            (λ t.
              if same_text n (codes "true")
              then done truth t
              else if same_text n (codes "fail")
              then done fail t
              else atom_args n t >>= λ a u. done (atom a) u)

  unfoldable mutual
    unfolding eat closing at expect error parse_simple

    pub parse_body : ℕ → ℕ → Text → Parse Body
    parse_body zero d r = out_of_fuel
    parse_body (suc f) d r = parse_and f d r >>= λ x s.
        on (eat (codes ";") s)
          (λ t.
            on (closing d t) (λ u. done (or (item x end)) u)
              (λ u. or_items f d u >>= λ xs w. done (or (item x xs)) w))
          (λ t. done x t)

    pub or_items : ℕ → ℕ → Text → Parse Bodies
    or_items zero d r = out_of_fuel
    or_items (suc f) d r = parse_and f d r >>= λ x s.
        on (eat (codes ";") s) (λ t. or_items f d t >>= λ xs u. done (item x xs) u)
          (λ t. done (item x end) t)

    pub parse_and : ℕ → ℕ → Text → Parse Body
    parse_and zero d r = out_of_fuel
    parse_and (suc f) d r = primary f d r >>= λ x s.
        on (eat (codes ",") s)
          (λ t.
            on (closing d t) (λ u. done (and (item x end)) u)
              (λ u. and_items f d u >>= λ xs w. done (and (item x xs)) w))
          (λ t. done x t)

    pub and_items : ℕ → ℕ → Text → Parse Bodies
    and_items zero d r = out_of_fuel
    and_items (suc f) d r = primary f d r >>= λ x s.
        on (eat (codes ",") s) (λ t. and_items f d t >>= λ xs u. done (item x xs) u)
          (λ t. done (item x end) t)

    pub primary : ℕ → ℕ → Text → Parse Body
    primary zero d r = out_of_fuel
    primary (suc f) d r =
        on (at (codes "(") r)
          (λ s.
            if leb max_nesting d
            then error s nested_groups
            else on (eat (codes "(") s)
                (λ t.
                  on (eat (codes ")") t) (λ u. done (and end) u)
                    (λ u.
                      parse_body f (d + 1) u >>= λ b w. expect (codes ")") w >>= λ _ z. done b z))
                (λ t. error t nested_groups))
          (λ s. parse_simple s)

  unfoldable pub finish : Text → Parse (Unit {0})
  unfolding skip error
  finish r = if is_nil (skip r) then done tt (skip r) else error (skip r) trailing_input

  -- `Result::map_err` with the error moved to the text that is left.
  unfoldable pub located : Option ParseError → Body → Text → Parse Body
  unfolding error
  located none b r = done b r
  located (some e) b r = error r e.message

  unfoldable pub validated : Body → Text → Parse Body
  unfolding validate_query located
  validated b r = located (validate_query b) b r

  abbrev pub fuel : Text → ℕ
  fuel r = 4 * length r + 4

  -- The name of a rule and the names in use, or the text before the name again.
  unfoldable pub rule_name : List Text → Text → Parse (Option Text × List Text)
  unfolding id name eat error
  rule_name names r = id name expected_head r >>= λ n s.
      on (eat (codes "@") s)
        (λ t. if is_member n names then error r duplicate_rule_name else done (some n, n ∷ names) t)
        (λ t. done (none, names) r)

  -- The heads kept and removed.
  unfoldable pub rule_heads : Text → Parse (List Atom × List Atom)
  unfolding heads eat expect
  rule_heads r = heads r >>= λ xs s.
      on (eat (codes "\\") s)
        (λ t. heads t >>= λ bs u. expect (codes "<=>") u >>= λ _ w. done (xs, bs) w)
        (λ t.
          on (eat (codes "==>") t) (λ u. done (xs, []) u)
            (λ u. expect (codes "<=>") u >>= λ _ w. done ([], xs) w))

  unfoldable pub parse_rule : List Text → Text → Parse (Rule × List Text)
  unfolding rule_name rule_heads parse_body validated expect
  parse_rule names r = rule_name names r >>= λ (n, used) s. rule_heads s >>= λ (ks, ds) t.
      parse_body (fuel t) 0 t >>= λ b u. validated b u >>= λ _ w. expect (codes ".") w >>= λ _ z.
      done (record { name = n; kept = ks; removed = ds; body = b }, used) z

  unfoldable pub parse_rules : ℕ → List Text → Text → Parse Program
  unfolding parse_rule skip
  parse_rules zero names r = out_of_fuel
  parse_rules (suc f) names r =
      if is_nil r
      then done [] r
      else parse_rule names r >>= λ (x, used) s.
          parse_rules f used (skip s) >>= λ xs t. done (x ∷ xs) t

unfoldable pub parse_query : Text → Parse Body
unfolding parse_body validated eat finish
parse_query source = parse_body source (fuel source source) 0 source >>= λ b r.
    validated source b r >>= λ _ s. finish source (eat (codes ".") s).1 >>= λ _ t. done b t

unfoldable pub parse_program : Text → Parse Program
unfolding parse_rules skip
parse_program source = parse_rules source (suc (length (skip source))) [] (skip source)
