-- ===== src/Program/Tests.antt =====
-- src/program.rs: preparation of a concrete rule and query.
use chrimp.Prelude.{
  Bool-cases, String, [], ap, get_elem?, if◌then◌else◌, inl, inr, none, none≢some, refl, some,
  some-injective, subst, suc, zero, ℕ, ◌∷◌, ◌≡◌,
}
use chrimp.Map.{lookup, nat_key}
use chrimp.Syntax.Text.{Text, codes, same_text}
use chrimp.Syntax.Ast.{Atom, Program, and, atom, end, item, truth}
use chrimp.Program.Variables.{
  Interns, IsInterned, Variables, same_text_iff, slot, slot-Interns, text_key,
}
use chrimp.Program.Builder.{build, layout, signature_key}
use chrimp.Program.Sizes.{IsSized, build-IsSized}

abbrev one_variable : Variables
one_variable = record { names = codes "X" ∷ []; slots = (codes "X", 0) ∷ [] }

one_IsInterned : IsInterned one_variable
unfolding IsInterned lookup
one_IsInterned = (named, placed)
  where
    named :
        (word : Text) (k : ℕ)
        → (if same_text (codes "X") word then some 0 else none) ≡ some k
        → get_elem? (codes "X" ∷ []) k ≡ some word
    named word k e = elim (Bool-cases (same_text (codes "X") word)) [
      | inl x ↦
          subst (λ i. get_elem? (codes "X" ∷ []) i ≡ some word) (some-injective _ _ (rw x at e))
            (ap some ((same_text_iff (codes "X") word).0 x))
      | inr x ↦ absurd (none≢some k (rw x at e))
    ]

    placed :
        (word : Text) (k : ℕ)
        → get_elem? (codes "X" ∷ []) k ≡ some word
        → (if same_text (codes "X") word then some 0 else none) ≡ some k
    placed word zero e = rw ((same_text_iff (codes "X") word).1 (some-injective _ _ e)) refl
    placed word (suc k) e = cc

abbrev atom_of : String → String → Atom
atom_of p x = record { relation = codes p; args = codes x ∷ [] }

abbrev one_rule : Program
one_rule =
    record {
      name = none;
      kept = atom_of "p" "X" ∷ [];
      removed = atom_of "q" "X" ∷ [];
      body = and (item (atom (atom_of "r" "X")) (item truth end));
    }
    ∷ []

one_rule_sizes :
    layout one_rule (atom (atom_of "p" "Y")) ≡ record { instructions = 4; operands = 6; heads = 2 }
unfolding layout
one_rule_sizes = refl

slot-Interns_example : Interns one_variable (codes "Y") (slot one_variable (codes "Y"))
slot-Interns_example = slot-Interns one_variable (codes "Y") one_IsInterned

build-IsSized_example :
    IsSized 0 (build one_rule (atom (atom_of "p" "Y"))).0 (layout one_rule (atom (atom_of "p" "Y")))
build-IsSized_example = build-IsSized one_rule (atom (atom_of "p" "Y"))
