-- ===== src/Syntax/Tests.antt =====
-- src/syntax.rs: the syntax on concrete texts.
use chrimp.Prelude.{[], length, none, refl, ◌↔◌, ◌∷◌, ◌≡◌}
use chrimp.Syntax.Text.{Text, codes, relation, variable}
use chrimp.Syntax.Ast.{Body, and, atom, end, equal, fail, item, or, root, truth}
use chrimp.Syntax.Validate.{validate_body, validate_query}
use chrimp.Syntax.Print.{format_query}
use chrimp.Syntax.Layout.{format_query_lem, print}
use chrimp.Syntax.Parser.{done, parse_program, parse_query}
use chrimp.Syntax.WellFormed.{IsWellFormed, check, validate_body_lem, validate_query_iff}
use chrimp.Syntax.Total.{Within, parse_program-Within, parse_query-Within}
use chrimp.Syntax.RoundTrip.{parse_query-format_query}

abbrev sample : Body
sample = and (
    item (atom (record { relation = codes "p"; args = codes "X" ∷ codes "Y" ∷ [] }))
      (item (or (item truth (item fail end))) (item (equal (codes "X") (codes "_y")) end)))

abbrev hollow : Body
hollow = and (item truth (item (or end) end))

abbrev sample_text : Text
sample_text = codes " p(X,Y), (q;), X = _Y % ends\n, true."

abbrev sample_program : Text
sample_program = codes "r @ p(X) \\ q(X) <=> true.\np(X) ==> q(X)."

sample_text_parses :
    parse_query sample_text
    ≡ done
        (and (
          item (atom (record { relation = codes "p"; args = codes "X" ∷ codes "Y" ∷ [] })) (
            item
              (or (item (atom (record { relation = codes "q"; args = [] })) end))
              (item (equal (codes "X") (codes "_Y")) (item truth end)))))
        []
unfolding parse_query
sample_text_parses = refl

parse_query-format_query_example : parse_query (format_query sample) ≡ done sample []
unfolding validate_query relation variable
parse_query-format_query_example = parse_query-format_query sample refl

parse_query-Within_example : Within (length sample_text) (parse_query sample_text)
parse_query-Within_example = parse_query-Within sample_text

parse_program-Within_example : Within (length sample_program) (parse_program sample_program)
parse_program-Within_example = parse_program-Within sample_program

validate_query_iff_example : (validate_query sample ≡ none) ↔ IsWellFormed 0 sample
validate_query_iff_example = validate_query_iff sample

validate_body_lem_example : validate_body hollow root ≡ check hollow root 0
validate_body_lem_example = validate_body_lem hollow root

format_query_lem_example : format_query sample ≡ print sample
format_query_lem_example = format_query_lem sample
