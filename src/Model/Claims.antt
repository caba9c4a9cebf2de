-- ===== src/Model/Claims.antt =====
-- model/claims.py: which claims of an object are the explicit unknown.
use data_ontology_graph.Prelude.{
  Text, List, Bool, true, false, map, select, sorted_by, nat_order, list_order,
}
use data_ontology_graph.Model.Enums.{Multiplicity, MatchExistence, EntityUniverse, Claim}

-- `is_unknown`, at each type that a claim has
abbrev pub is_unknown : Claim → Bool
is_unknown (Claim.known b) = false
is_unknown Claim.unknown = true

abbrev pub is_unknown_universe : EntityUniverse → Bool
is_unknown_universe EntityUniverse.unknown = true
is_unknown_universe _ = false

abbrev pub is_unknown_multiplicity : Multiplicity → Bool
is_unknown_multiplicity Multiplicity.unknown = true
is_unknown_multiplicity _ = false

abbrev pub is_unknown_match : MatchExistence → Bool
is_unknown_match MatchExistence.unknown = true
is_unknown_match _ = false

-- An object as its claim fields: each path, and whether the value there is unknown.
abbrev pub Claims : Type 0
Claims = List (Text × Bool)

unfoldable pub unknown_fields : Claims → List Text
unknown_fields claims = sorted_by (λ path. path) (map (λ c. c.0) (select (λ c. c.1) claims))
