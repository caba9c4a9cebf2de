-- ===== src/Model/Relationship.antt =====
-- model/relationship.py: endpoints, their canonical order, edge IDs, and relationships.
pub mod Canonical
use mathlib.Core.Option
use mathlib.Core.Option.{Option}
use data_ontology_graph.Prelude.{
  Text, text, List, [], ◌∷◌, ◌++◌, Bool, true, false, not, is_empty, join, none, some, Result, ok,
  err, guard, ◌>>=◌, ◌>>◌, if◌then◌else◌, nat_order, list_order, triple_order, ◌==◌, ◌<=◌, map,
  sorted_by,
}
use data_ontology_graph.Model.Enums.{Cardinality, Multiplicity, MatchExistence}
use data_ontology_graph.Model.Claims.{
  Claims, is_unknown_multiplicity, is_unknown_match, unknown_fields,
}
use data_ontology_graph.Model.Columns.{ColumnsProblem, check_columns}
use data_ontology_graph.Model.Definition.{DefinitionKey}

pub record JoinEndpoint : Type 0 where
  pub node_id : Text
  pub identity_id : Text
  pub dataset_columns : List Text

pub data EndpointProblem : Type 0 where
  empty_node empty_identity : EndpointProblem
  columns : ColumnsProblem → EndpointProblem

abbrev as_endpoint :
    Result ColumnsProblem (List Text) → JoinEndpoint → Result EndpointProblem JoinEndpoint
as_endpoint (ok value) e = ok e
as_endpoint (err problem) e = err (EndpointProblem.columns problem)

unfoldable pub validate_endpoint : JoinEndpoint → Result EndpointProblem JoinEndpoint
validate_endpoint e = do
  guard (not (is_empty e.node_id)) EndpointProblem.empty_node
  guard (not (is_empty e.identity_id)) EndpointProblem.empty_identity
  as_endpoint (check_columns e.dataset_columns) e

abbrev pub identity_key : JoinEndpoint → DefinitionKey
identity_key e = (e.node_id, e.identity_id, e.dataset_columns)

pub record RelationshipDirection : Type 0 where
  pub multiplicity : Multiplicity
  pub match_existence : MatchExistence

pub record JoinRelationship : Type 0 where
  pub edge_id : Text
  pub endpoint_a : JoinEndpoint
  pub endpoint_b : JoinEndpoint
  pub a_to_b : RelationshipDirection
  pub b_to_a : RelationshipDirection

unfoldable pub canonical_endpoints : JoinEndpoint → JoinEndpoint → JoinEndpoint × JoinEndpoint
canonical_endpoints a b = if identity_key a <= identity_key b then (a, b) else (b, a)

unfoldable pub side : JoinEndpoint → Text
side e =
    e.node_id ++ (text ":" ++ (e.identity_id ++ (text ":" ++ join (text "+") e.dataset_columns)))

abbrev pub join_sides : JoinEndpoint × JoinEndpoint → Text
join_sides (left, right) = side left ++ (text "__" ++ side right)

unfoldable pub edge_id_for : JoinEndpoint → JoinEndpoint → Text
edge_id_for a b = join_sides (canonical_endpoints a b)

pub data RelationshipProblem : Type 0 where
  edge_id_mismatch : Text → RelationshipProblem
  endpoint : EndpointProblem → RelationshipProblem

abbrev pub as_relationship :
    Result EndpointProblem JoinEndpoint → Result RelationshipProblem JoinEndpoint
as_relationship (ok e) = ok e
as_relationship (err problem) = err (RelationshipProblem.endpoint problem)

-- The directions follow the endpoints that they belong to.
abbrev pub orient : JoinRelationship → JoinEndpoint × JoinEndpoint → JoinRelationship
orient r (left, right) =
    if identity_key left == identity_key r.endpoint_a
    then record r { endpoint_a = left; endpoint_b = right }
    else record r { endpoint_a = left; endpoint_b = right; a_to_b = r.b_to_a; b_to_a = r.a_to_b }

unfoldable pub canonicalize : JoinRelationship → Result RelationshipProblem JoinRelationship
canonicalize r =
    let ends = canonical_endpoints r.endpoint_a r.endpoint_b in
    let expected = edge_id_for ends.0 ends.1 in
    if r.edge_id == expected
    then ok (orient r ends)
    else err (RelationshipProblem.edge_id_mismatch expected)

-- `none` where the source raises `KeyError`
module _ (r : JoinRelationship) (node_id : Text) where
  unfoldable pub endpoint_on : Option JoinEndpoint
  endpoint_on =
      if r.endpoint_a.node_id == node_id
      then some r.endpoint_a
      else if r.endpoint_b.node_id == node_id
      then some r.endpoint_b
      else none

  unfoldable pub opposite : Option JoinEndpoint
  opposite =
      if r.endpoint_a.node_id == node_id
      then some r.endpoint_b
      else if r.endpoint_b.node_id == node_id
      then some r.endpoint_a
      else none

  unfoldable pub direction_from : Option RelationshipDirection
  direction_from =
      if r.endpoint_a.node_id == node_id
      then some r.a_to_b
      else if r.endpoint_b.node_id == node_id
      then some r.b_to_a
      else none

abbrev pub claims : JoinRelationship → Claims
claims r =
    (text "a_to_b.match_existence", is_unknown_match r.a_to_b.match_existence)
    ∷ (text "a_to_b.multiplicity", is_unknown_multiplicity r.a_to_b.multiplicity)
    ∷ (text "b_to_a.match_existence", is_unknown_match r.b_to_a.match_existence)
    ∷ (text "b_to_a.multiplicity", is_unknown_multiplicity r.b_to_a.multiplicity)
    ∷ []

abbrev cardinality : Multiplicity → Cardinality
cardinality Multiplicity.one_to_one = Cardinality.one_to_one
cardinality Multiplicity.many_to_one = Cardinality.n_to_one
cardinality Multiplicity.one_to_many = Cardinality.one_to_n
cardinality Multiplicity.many_to_many = Cardinality.m_to_n
cardinality Multiplicity.unknown = Cardinality.unknown

unfoldable pub derived_cardinality : JoinRelationship → Text → Option Cardinality
unfolding direction_from
derived_cardinality r from_node_id =
    Option.map (λ d. cardinality d.multiplicity) (direction_from r from_node_id)

-- `path.split(".", 1)`
abbrev split_path : Text → Text × Text
split_path [] = ([], [])
split_path (c ∷ rest) =
    let (before, after) = split_path rest in if c == 46 then ([], rest) else (c ∷ before, after)

abbrev relative_path : Text → Text → Text
relative_path outgoing path =
    let (direction, field) = split_path path in
    (if direction == outgoing then text "direction" else text "reverse_direction")
    ++ (text "." ++ field)

abbrev relative_fields : Text → List Text → List Text
relative_fields outgoing fields = sorted_by (λ path. path) (map (relative_path outgoing) fields)

-- Unknown direction fields relative to a traversal that starts at `node_id`.
unfoldable pub unknown_fields_from : JoinRelationship → Text → Option (List Text)
unfolding unknown_fields sorted_by
unknown_fields_from r node_id =
    if r.endpoint_a.node_id == node_id
    then some (relative_fields (text "a_to_b") (unknown_fields (claims r)))
    else if r.endpoint_b.node_id == node_id
    then some (relative_fields (text "b_to_a") (unknown_fields (claims r)))
    else none
