-- ===== src/Syntax/Tokens.antt =====
-- src/syntax.rs: how the parser reads back single words and atoms.
-- What may follow a printed body: the end of the text, or a mark that no body begins with.
use chrimp.Prelude.{
  Bool, List, [], ap, arith, false, length, none, not, refl, suc, true, zero, ℕ, ◌<◌, ◌∙◌, ◌∷◌, ◌≡◌,
  ◌≤◌,
}
use chrimp.Syntax.Text.{
  <>_assoc, Text, all_words, codes, identifier, is_word, length-<>, relation, strip_prefix,
  variable, ◌<>◌,
}
use chrimp.Syntax.Ast.{Message, expected_variable}
use chrimp.Syntax.Print.{join}
use chrimp.Syntax.Parser.{
  Parse, arguments, at, atom_args, done, drop_word, eat, id, on, skip, starts_with, take_word, var,
  ◌>>=◌,
}
use chrimp.Syntax.WellFormed.{AllVariables}

pub data IsStop : Text → Type 0 where
  at_end : IsStop []
  comma : (r : Text) → IsStop (b',' ∷ r)
  semicolon : (r : Text) → IsStop (b';' ∷ r)
  parenthesis : (r : Text) → IsStop (b')' ∷ r)
  period : (r : Text) → IsStop (b'.' ∷ r)

unfoldable pub ends_word : Text → Bool
unfolding is_word
ends_word [] = true
ends_word (c ∷ r) = not (is_word c)

pub IsStop-ends_word : (r : Text) → IsStop r → ends_word r ≡ true
unfolding ends_word
IsStop-ends_word r at_end = refl
IsStop-ends_word r (comma s) = refl
IsStop-ends_word r (semicolon s) = refl
IsStop-ends_word r (parenthesis s) = refl
IsStop-ends_word r (period s) = refl

pub at-IsStop : (r : Text) → IsStop r → at (codes "(") r ≡ (false, r)
unfolding at
at-IsStop r at_end = refl
at-IsStop r (comma s) = refl
at-IsStop r (semicolon s) = refl
at-IsStop r (parenthesis s) = refl
at-IsStop r (period s) = refl

take_word_lem : (w r : Text) → all_words w ≡ true → ends_word r ≡ true → take_word (w <> r) ≡ w
unfolding take_word all_words ends_word
take_word_lem [] [] h e = refl
take_word_lem [] (c ∷ r) h e = ground arith
take_word_lem (c ∷ w) r h e = ground (arith, take_word_lem w r)

drop_word_lem : (w r : Text) → all_words w ≡ true → ends_word r ≡ true → drop_word (w <> r) ≡ r
unfolding drop_word all_words ends_word
drop_word_lem [] [] h e = refl
drop_word_lem [] (c ∷ r) h e = ground arith
drop_word_lem (c ∷ w) r h e = ground (arith, drop_word_lem w r)

skip-word : (c : ℕ) (r : Text) → is_word c ≡ true → skip (c ∷ r) ≡ c ∷ r
unfolding skip is_word
skip-word c r h = ground arith

abbrev pub Starts : Text → Type 0
Starts w = (start : ℕ → Bool) × (identifier start w ≡ true)

pub skip-Starts : (w r : Text) → Starts w → skip (w <> r) ≡ w <> r
unfolding identifier all_words
skip-Starts [] r (start, h) = cc
skip-Starts (c ∷ w) r (start, h) = skip-word c (w <> r) (ground arith)

Starts-all_words : (w : Text) → Starts w → all_words w ≡ true
unfolding identifier
Starts-all_words [] (start, h) = cc
Starts-all_words (c ∷ w) (start, h) = ground arith

-- A word does not begin with a parenthesis.
strip-Starts :
    (w r : Text)
    → Starts w
    → (strip_prefix (codes "(") (w <> r) ≡ none) × (strip_prefix (codes ")") (w <> r) ≡ none)
unfolding identifier all_words is_word
strip-Starts [] r (start, h) = cc
strip-Starts (c ∷ w) r (start, h) = (ground arith, ground arith)

pub open-Starts : (w r : Text) → Starts w → at (codes "(") (w <> r) ≡ (false, w <> r)
unfolding at
open-Starts w r s = rw (skip-Starts w r s, (strip-Starts w r s).0, starts_with) refl

pub close-Starts : (w r : Text) → Starts w → at (codes ")") (w <> r) ≡ (false, w <> r)
unfolding at
close-Starts w r s = rw (skip-Starts w r s, (strip-Starts w r s).1, starts_with) refl

pub eat-Starts : (w r : Text) → Starts w → eat (codes ")") (w <> r) ≡ (false, w <> r)
unfolding eat
eat-Starts w r s =
    rw (eat, skip-Starts w r s)
      (rw ((strip-Starts w r s).1) (ap (λ t. (false, t)) (skip-Starts w r s)))

pub variable-Starts : (v : Text) → variable v ≡ true → Starts v
unfolding variable
variable-Starts v h = (_, h)

pub relation-Starts : (v : Text) → relation v ≡ true → Starts v
unfolding relation
relation-Starts v h = (_, h)

-- To read on after a step that is known.
pub bind_lem :
    {A B : Type 0} (p : Parse A) (k : A → Text → Parse B) (a : A) (r : Text) (q : Parse B)
    → p ≡ done a r
    → k a r ≡ q
    → (p >>= k) ≡ q
bind_lem p k a r q e h = rw e h

pub on_hit :
    {A : Type 0} (p : Bool × Text) (hit miss : Text → A) (s : Text) (q : A)
    → p ≡ (true, s)
    → hit s ≡ q
    → on p hit miss ≡ q
on_hit p hit miss s q e h = rw e h

pub on_miss :
    {A : Type 0} (p : Bool × Text) (hit miss : Text → A) (s : Text) (q : A)
    → p ≡ (false, s)
    → miss s ≡ q
    → on p hit miss ≡ q
on_miss p hit miss s q e h = rw e h

module _ (source : Text) where
  pub id_lem :
      (valid : Text → Bool) (m : Message) (w r : Text)
      → valid w ≡ true
      → Starts w
      → ends_word r ≡ true
      → id source valid m (w <> r) ≡ done w r
  unfolding id
  id_lem valid m w r v s e =
      rw
        (
          skip-Starts w r s,
          take_word_lem w r (Starts-all_words w s) e,
          drop_word_lem w r (Starts-all_words w s) e,
          v,
        )
        refl

  pub var_lem :
      (v r : Text) → variable v ≡ true → ends_word r ≡ true → var source (v <> r) ≡ done v r
  unfolding var
  var_lem v r h e = id_lem variable expected_variable v r h (variable-Starts v h) e

  arguments_lem :
      (f : ℕ) (v : Text) (vs : List Text) (r : Text)
      → AllVariables (v ∷ vs)
      → length vs < f
      → arguments source f (join (codes ", ") (v ∷ vs) <> codes ")" <> r)
        ≡ done (v ∷ vs) (codes ")" <> r)
  unfolding arguments ends_word eat
  arguments_lem zero v vs r a h = absurd (omega arith)
  arguments_lem (suc f) v [] r (a, b) h =
      bind_lem (var source (v <> codes ")" <> r)) _ _ _ _ (var_lem v (codes ")" <> r) a refl) refl
  arguments_lem (suc f) v (u ∷ vs) r (a, b) h =
      let t : Text = join (codes ", ") (u ∷ vs) <> codes ")" <> r in
      rw (<>_assoc v (codes ", " <> join (codes ", ") (u ∷ vs)) (codes ")" <> r)) (
        bind_lem (var source (v <> codes ", " <> t)) _ _ _ _ (var_lem v (codes ", " <> t) a refl) (
          bind_lem (arguments source f (codes " " <> t)) _ _ _ _
            (blank f t ∙ arguments_lem f u vs r b (omega arith)) refl))
    where
      blank : (g : ℕ) (t : Text) → arguments source g (codes " " <> t) ≡ arguments source g t
      blank zero t = refl
      blank (suc g) t = refl

  length-join : (vs : List Text) → length vs ≤ suc (length (join (codes ", ") vs))
  length-join [] = omega arith
  length-join (v ∷ []) = omega arith
  length-join (v ∷ u ∷ vs) =
      omega (arith, length-join (u ∷ vs), length-<> v (codes ", " <> join (codes ", ") (u ∷ vs)))

  pub atom_args_lem :
      (n r : Text) (vs : List Text)
      → AllVariables vs
      → atom_args source n (codes "(" <> join (codes ", ") vs <> codes ")" <> r)
        ≡ done (record { relation = n; args = vs }) r
  unfolding atom_args eat
  atom_args_lem n r [] h = refl
  atom_args_lem n r (v ∷ vs) h =
      let t : Text = join (codes ", ") (v ∷ vs) <> codes ")" <> r in
      on_miss (eat (codes ")") t) _ _ t _ (first v vs h.0) (
        bind_lem (arguments source (suc (length t)) t) _ _ _ _
          (arguments_lem (suc (length t)) v vs r h (
            omega (
              arith,
              length-join (v ∷ vs),
              length-<> (join (codes ", ") (v ∷ vs)) (codes ")" <> r),
            )))
          refl)
    where
      first :
          (u : Text) (us : List Text)
          → variable u ≡ true
          → eat (codes ")") (join (codes ", ") (u ∷ us) <> codes ")" <> r)
            ≡ (false, join (codes ", ") (u ∷ us) <> codes ")" <> r)
      first u [] a = eat-Starts u (codes ")" <> r) (variable-Starts u a)
      first u (w ∷ us) a =
          rw (<>_assoc u (codes ", " <> join (codes ", ") (w ∷ us)) (codes ")" <> r))
            (eat-Starts u _ (variable-Starts u a))
