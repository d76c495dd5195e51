-- ===== src/Syntax/Ast.antt =====
-- src/syntax.rs: programs, rules and bodies, and the errors of the parser and of validation.
use chrimp.Prelude.{List, Option, ℕ}
use chrimp.Syntax.Text.{Text}

pub record Atom : Type 0 where
  pub relation : Text
  pub args : List Text

mutual
  -- `Body`, with `truth` for `Body::True`.
  pub data Body : Type 0 where
    atom : Atom → Body
    equal : Text → Text → Body
    and or : Bodies → Body
    truth fail : Body

  -- `Vec<Body>`.
  pub data Bodies : Type 0 where
    end : Bodies
    item : Body → Bodies → Bodies

pub record Rule : Type 0 where
  pub name : Option Text
  pub kept : List Atom
  pub removed : List Atom
  pub body : Body

abbrev pub Program : Type 0
Program = List Rule

-- The JSON path of an error, its indices as numbers.
pub data Place : Type 0 where
  root : Place
  field : Place → Text → Place
  index : Place → ℕ → Place

-- The messages of `ParseError`, one for each text.
pub data Message : Type 0 where
  expected : Text → Message
  expected_relation expected_variable expected_body expected_head expected_rule_name : Message
  nested_containers nested_groups empty_disjunction : Message
  duplicate_rule_name no_head trailing_input : Message

pub record ParseError : Type 0 where
  pub message : Message
  pub offset : Option ℕ
  pub line : Option ℕ
  pub column : Option ℕ
  pub path : Option Place

abbrev pub max_nesting : ℕ
max_nesting = 128
