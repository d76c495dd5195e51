-- ===== src/Trace/Tests.antt =====
-- src/trace.rs: walks over concrete maps.
use chrimp.Prelude.{[], false, refl, ℕ, ◌∷◌}
use chrimp.Map.{Map, nat_key}
use chrimp.Condition.Handle.{Condition, Pair, condition_key, pair_key}
use chrimp.Trace.Cursor.{fresh, pairs, substitutions, values}
use chrimp.Trace.Walk.{
  Visits, couples_of, pairs-Visits, substitutions-Visits, triples_of, values-Visits, values_of,
}

abbrev of_id : ℕ → Condition
of_id n = record { owner = 1; id = n; negative = false }

abbrev two_values : Map ℕ Condition
two_values = (3, of_id 7) ∷ (5, of_id 8) ∷ []

abbrev two_pairs : Map Pair Condition
two_pairs = ((of_id 1, of_id 2), of_id 3) ∷ ((of_id 1, of_id 4), of_id 5) ∷ []

abbrev two_substitutions : Map Condition Condition
two_substitutions = (of_id 1, of_id 2) ∷ (of_id 3, of_id 4) ∷ []

values-Visits_example : Visits (values two_values) fresh (values_of two_values)
values-Visits_example = values-Visits two_values (refl, (refl, refl, tt), (refl, tt, tt))

pairs-Visits_example : Visits (pairs two_pairs) fresh (triples_of two_pairs)
pairs-Visits_example = pairs-Visits two_pairs (refl, (refl, refl, tt), (refl, tt, tt))

substitutions-Visits_example :
    Visits (substitutions two_substitutions) fresh (couples_of two_substitutions)
substitutions-Visits_example =
    substitutions-Visits two_substitutions (refl, (refl, refl, tt), (refl, tt, tt))
