-- ===== src/Model/Derivation.antt =====
-- model/derivation.py: the relationships that follow from the entity definitions.
pub mod Meaning
pub mod Pairs
pub mod Derived
use data_ontology_graph.Prelude.{
  Text, List, [], ◌∷◌, ◌++◌, Bool, true, false, map, Option, none, some, if◌then◌else◌, nat_order,
  list_order, triple_order, ◌==◌, sorted_by, select, to_set, contains, Result, ok, err, ◌>>=◌,
  traverse, flat_map, ◌&&◌,
}
use data_ontology_graph.Model.Enums.{Multiplicity, MatchExistence, EntityUniverse, Claim}
use data_ontology_graph.Model.Definition.{EntityDefinition, conforming, key}
use data_ontology_graph.Model.Dataset.{DatasetNode}
use data_ontology_graph.Model.Relationship.{
  JoinEndpoint, JoinRelationship, RelationshipDirection, edge_id_for, canonicalize,
  validate_endpoint, RelationshipProblem, as_relationship,
}

-- the table `_MULTIPLICITY`, and its default
unfoldable pub multiplicity_between : Claim → Claim → Multiplicity
multiplicity_between (Claim.known true) (Claim.known true) = Multiplicity.one_to_one
multiplicity_between (Claim.known false) (Claim.known true) = Multiplicity.many_to_one
multiplicity_between (Claim.known true) (Claim.known false) = Multiplicity.one_to_many
multiplicity_between (Claim.known false) (Claim.known false) = Multiplicity.many_to_many
multiplicity_between _ _ = Multiplicity.unknown

unfoldable pub derived_multiplicity : EntityDefinition → EntityDefinition → Multiplicity
unfolding multiplicity_between
derived_multiplicity source target = multiplicity_between source.unique target.unique

abbrev pub is_complete : EntityUniverse → Bool
is_complete EntityUniverse.complete = true
is_complete _ = false

abbrev pub is_partial : EntityUniverse → Bool
is_partial EntityUniverse.partial = true
is_partial _ = false

-- Python's truth of `bool | None`
abbrev pub is_truthy : Option Bool → Bool
is_truthy (some true) = true
is_truthy _ = false

unfoldable pub contained : EntityDefinition → EntityDefinition → Option Bool
unfolding conforming
contained source target =
    if is_truthy (conforming source) && is_complete target.entity_universe
    then some true
    else if is_complete source.entity_universe && is_partial target.entity_universe
    then some false
    else none

abbrev match_of : Claim → Option Bool → MatchExistence
match_of (Claim.known false) containment = MatchExistence.optional
match_of total (some false) = MatchExistence.optional
match_of (Claim.known true) (some true) = MatchExistence.always
match_of _ _ = MatchExistence.unknown

unfoldable pub derived_match_existence : EntityDefinition → EntityDefinition → MatchExistence
unfolding contained
derived_match_existence source target = match_of source.total (contained source target)

unfoldable pub derived_direction : EntityDefinition → EntityDefinition → RelationshipDirection
unfolding derived_multiplicity derived_match_existence
derived_direction source target = record {
  multiplicity = derived_multiplicity source target;
  match_existence = derived_match_existence source target;
}

-- (node_id, definition)
abbrev pub Member : Type 0
Member = Text × EntityDefinition

-- every definition with its dataset, in the order of the loops
unfoldable pub members : List DatasetNode → List Member
members [] = []
members (node ∷ nodes) = map (λ d. (node.node_id, d)) node.entity_definitions ++ members nodes

abbrev pub identity_of : Member → Text
identity_of m = m.1.identity_id

-- the keys of `by_identity`
unfoldable pub identities : List Member → List Text
unfolding to_set
identities ms = sorted_by (λ i. i) (to_set (map identity_of ms))

-- `by_identity[identity_id]`
abbrev pub members_of : Text → List Member → List Member
members_of identity_id ms = select (λ m. identity_of m == identity_id) ms

-- `combinations(xs, 2)`
unfoldable pub combinations {ℓ} : {A : Type ℓ} → List A → List (A × A)
combinations [] = []
combinations (x ∷ xs) = map (λ y. (x, y)) xs ++ combinations xs

abbrev pub endpoint_of : Member → JoinEndpoint
endpoint_of (node_id, d) = record {
  node_id = node_id;
  identity_id = d.identity_id;
  dataset_columns = d.dataset_columns;
}

-- `_endpoint`: the arguments are validated.
abbrev pub new_endpoint : Member → Result RelationshipProblem JoinEndpoint
new_endpoint m = as_relationship (validate_endpoint (endpoint_of m))

-- the keyword arguments of the call of `JoinRelationship`
unfoldable pub arguments : Member × Member → JoinRelationship
arguments (a, b) = record {
  edge_id = edge_id_for (endpoint_of a) (endpoint_of b);
  endpoint_a = endpoint_of a;
  endpoint_b = endpoint_of b;
  a_to_b = derived_direction a.1 b.1;
  b_to_a = derived_direction b.1 a.1;
}

unfoldable pub relate : Member × Member → Result RelationshipProblem JoinRelationship
unfolding arguments
relate (a, b) = do _ ← new_endpoint a; _ ← new_endpoint b; canonicalize (arguments (a, b))

-- the sorted members of one logical entity, two at a time
unfoldable pub pairs_of : List Member → Text → List (Member × Member)
unfolding combinations sorted_by
pairs_of ms identity_id = combinations (sorted_by (λ m. key m.1 m.0) (members_of identity_id ms))

unfoldable pub derive_relationships :
    List DatasetNode → Result RelationshipProblem (List JoinRelationship)
unfolding members identities pairs_of relate sorted_by
derive_relationships nodes = do
  let ms = members nodes
  relationships ← traverse relate (flat_map (pairs_of ms) (identities ms))
  ok (sorted_by (λ r. r.edge_id) relationships)
