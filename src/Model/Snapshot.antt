-- ===== src/Model/Snapshot.antt =====
-- model/snapshot.py: the published graph and the checks that span its parts.
pub mod Valid
use data_ontology_graph.Prelude.{
  Text, text, List, [], ◌∷◌, Bool, not, map, contains, has_duplicates, is_empty, Result, ok, err,
  guard, check_each, ◌>>=◌, ◌>>◌, ◌==◌, ◌||◌, if◌then◌else◌, nat_order, list_order, triple_order,
}
use data_ontology_graph.Model.Definition.{EntityDefinition, DefinitionKey, key}
use data_ontology_graph.Model.Dataset.{DatasetNode}
use data_ontology_graph.Model.Relationship.{JoinEndpoint, JoinRelationship, identity_key}
use data_ontology_graph.Model.Derivation.{members}
use data_ontology_graph.Model.Derivation.Pairs.{member_key}

-- of model/intermediary.py
pub record LogicalIdentity : Type 0 where
  pub identity_id : Text
  pub name : Text
  pub description : Text
  pub synonyms : List Text

-- of model/relationship.py
pub record JoinAnnotation : Type 0 where
  pub edge_id : Text
  pub description : Text
  pub tags : List Text

pub record GraphSnapshot : Type 0 where
  pub version : Text
  pub logical_identities : List LogicalIdentity
  pub nodes : List DatasetNode
  pub edges : List JoinRelationship
  pub annotations : List JoinAnnotation

pub data SnapshotProblem : Type 0 where
  duplicate_node duplicate_edge duplicate_identity : SnapshotProblem
  unknown_identity : Text → Text → SnapshotProblem
  unknown_dataset : Text → Text → SnapshotProblem
  unresolved_endpoint_a unresolved_endpoint_b different_identities : Text → SnapshotProblem
  unknown_edge : Text → SnapshotProblem

module _ (s : GraphSnapshot) where
  abbrev pub node_ids : List Text
  node_ids = map (λ node. node.node_id) s.nodes

  abbrev pub edge_ids : List Text
  edge_ids = map (λ edge. edge.edge_id) s.edges

  abbrev pub identity_ids : List Text
  identity_ids = map (λ identity. identity.identity_id) s.logical_identities

  -- the keys of every node's `entity_definition_map`
  abbrev pub definition_keys : List DefinitionKey
  definition_keys = map member_key (members s.nodes)

  abbrev pub check_definition : DatasetNode → EntityDefinition → Result SnapshotProblem (Unit {0})
  check_definition node d =
      guard (contains identity_ids d.identity_id)
        (SnapshotProblem.unknown_identity node.node_id d.identity_id)

  abbrev pub check_node : DatasetNode → Result SnapshotProblem (Unit {0})
  check_node node = check_each (check_definition node) node.entity_definitions

  abbrev pub check_identity : JoinRelationship → Result SnapshotProblem (Unit {0})
  check_identity edge = do
    guard (contains definition_keys (identity_key edge.endpoint_a))
        (SnapshotProblem.unresolved_endpoint_a edge.edge_id)
    guard (contains definition_keys (identity_key edge.endpoint_b))
        (SnapshotProblem.unresolved_endpoint_b edge.edge_id)
    guard (edge.endpoint_a.identity_id == edge.endpoint_b.identity_id)
        (SnapshotProblem.different_identities edge.edge_id)

  -- `if edge.endpoint_a.identity_id or edge.endpoint_b.identity_id`
  abbrev pub names_identity : JoinRelationship → Bool
  names_identity edge =
      not (is_empty edge.endpoint_a.identity_id) || not (is_empty edge.endpoint_b.identity_id)

  abbrev pub check_edge : JoinRelationship → Result SnapshotProblem (Unit {0})
  check_edge edge = do
    guard (contains node_ids edge.endpoint_a.node_id)
        (SnapshotProblem.unknown_dataset edge.edge_id edge.endpoint_a.node_id)
    guard (contains node_ids edge.endpoint_b.node_id)
        (SnapshotProblem.unknown_dataset edge.edge_id edge.endpoint_b.node_id)
    if names_identity edge then check_identity edge else ok tt

  abbrev pub check_annotation : JoinAnnotation → Result SnapshotProblem (Unit {0})
  check_annotation annotation =
      guard (contains edge_ids annotation.edge_id) (SnapshotProblem.unknown_edge annotation.edge_id)

  unfoldable pub validate_graph : Result SnapshotProblem (Unit {0})
  validate_graph = do
    guard (not (has_duplicates node_ids)) SnapshotProblem.duplicate_node
    guard (not (has_duplicates edge_ids)) SnapshotProblem.duplicate_edge
    guard (not (has_duplicates identity_ids)) SnapshotProblem.duplicate_identity
    check_each check_node s.nodes
    check_each check_edge s.edges
    check_each check_annotation s.annotations
