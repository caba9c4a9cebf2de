-- ===== src/Model/Intermediary.antt =====
-- model/intermediary.py: the definition that a collection writes, its validators, and its
-- conversion to datasets.
pub mod Runtime
use data_ontology_graph.Prelude.{
  Text, text, List, [], ◌∷◌, Bool, true, false, not, map, all, any, contains, has_duplicates,
  is_empty, strip, Option, none, some, Result, ok, err, guard, check_each, traverse, map_err, ◌>>=◌,
  ◌>>◌, if◌then◌else◌, sorted_by, nat_order, list_order, pair_order,
}
use data_ontology_graph.Prelude.Json.{Fields}
use data_ontology_graph.Model.Enums.{EntityUniverse, Claim}
use data_ontology_graph.Model.Claims.{Claims}
use data_ontology_graph.Model.Columns.{check_columns}
use data_ontology_graph.Model.Definition.{
  EntityDefinition, DefinitionProblem, identity_id_must_be_nonempty, expressions_must_be_nonempty,
  as_columns, complete_must_conform, validate_definition,
}
use data_ontology_graph.Model.Dataset.{
  DatasetNode, DatasetDescriptor, DatasetAccessor, ColumnMetadata, Grain, GrainComponent, LocalKey,
  NodeProblem, validate_invariants,
}
use data_ontology_graph.Model.Snapshot.{LogicalIdentity}

pub record LogicalIdentityDefinition : Type 0 where
  pub name : Text
  pub description : Text
  pub synonyms : List Text

pub record IntermediaryDirectoryManifest : Type 0 where
  pub logical_identities : Text
  pub nodes : List Text

pub data ManifestProblem : Type 0 where
  too_short blank_path duplicate_nodes duplicate_path : ManifestProblem

abbrev pub is_blank : Text → Bool
is_blank value = is_empty (strip value)

unfoldable pub validate_manifest : IntermediaryDirectoryManifest → Result ManifestProblem (Unit {0})
unfolding strip
validate_manifest m = do
  guard (not (is_empty m.logical_identities)) ManifestProblem.too_short
  guard (not (is_blank m.logical_identities)) ManifestProblem.blank_path
  guard (not (is_empty m.nodes)) ManifestProblem.too_short
  guard (not (any is_empty m.nodes)) ManifestProblem.too_short
  guard (not (any is_blank m.nodes)) ManifestProblem.blank_path
  guard (not (has_duplicates m.nodes)) ManifestProblem.duplicate_nodes
  guard (not (has_duplicates (m.logical_identities ∷ m.nodes))) ManifestProblem.duplicate_path

pub record IntermediaryEntityDefinition : Type 0 where
  pub identity_id : Text
  pub dataset_columns : List Text
  pub entity_universe : EntityUniverse
  pub unique : Claim
  pub total : Claim
  pub conforms : Claim
  pub entity_expression : List Text
  pub entity_metadata : Fields
  pub description : Text

-- the fields, as `model_dump` gives them and `EntityDefinition`'s validators read them
abbrev pub dump : IntermediaryEntityDefinition → EntityDefinition
dump d = record {
  identity_id = d.identity_id;
  dataset_columns = d.dataset_columns;
  entity_universe = d.entity_universe;
  unique = d.unique;
  total = d.total;
  conforms = d.conforms;
  entity_expression = d.entity_expression;
  entity_metadata = d.entity_metadata;
  description = d.description;
}

unfoldable pub validate_entity : IntermediaryEntityDefinition → Result DefinitionProblem (Unit {0})
unfolding complete_must_conform
validate_entity d = do
  guard (not (is_empty d.identity_id)) DefinitionProblem.empty_identity
  identity_id_must_be_nonempty d.identity_id
  _ ← as_columns (check_columns d.dataset_columns)
  expressions_must_be_nonempty d.entity_expression
  _ ← complete_must_conform (dump d)
  ok tt

unfoldable pub definition_to_runtime :
    IntermediaryEntityDefinition → Result DefinitionProblem EntityDefinition
unfolding validate_definition
definition_to_runtime d = validate_definition (dump d)

pub record IntermediaryNode : Type 0 where
  pub node_id : Text
  pub descriptor : DatasetDescriptor
  pub accessor : DatasetAccessor
  pub grain : Grain
  pub columns : List ColumnMetadata
  pub entity_definitions : List IntermediaryEntityDefinition

abbrev pub entity_key : IntermediaryEntityDefinition → LocalKey
entity_key d = (d.identity_id, d.dataset_columns)

-- the loop over the definitions; it returns `definition_keys`
unfoldable pub check_entities :
    List Text
    → List LocalKey
    → List IntermediaryEntityDefinition
    → Result NodeProblem (List LocalKey)
check_entities inventory definition_keys [] = ok definition_keys
check_entities inventory definition_keys (d ∷ ds) =
    let rest = check_entities inventory (entity_key d ∷ definition_keys) ds in
    do
      guard (all (contains inventory) d.dataset_columns) (NodeProblem.missing_columns d.identity_id)
      guard (not (contains definition_keys (entity_key d))) NodeProblem.duplicate_definition
      rest

abbrev pub has_key : List LocalKey → List Text → Option Text → Bool
has_key definition_keys columns none = true
has_key definition_keys columns (some identity_id) = contains definition_keys (identity_id, columns)

abbrev pub check_keyed_component :
    List Text → List LocalKey → GrainComponent → Result NodeProblem (Unit {0})
check_keyed_component inventory definition_keys c = do
  guard (all (contains inventory) c.dataset_columns) NodeProblem.missing_grain_columns
  guard (has_key definition_keys c.dataset_columns c.identity_id) NodeProblem.unresolved_grain
  ok tt

abbrev pub check_keyed_grain : List Text → List LocalKey → Grain → Result NodeProblem (Unit {0})
check_keyed_grain inventory definition_keys (Grain.known g) =
    check_each (check_keyed_component inventory definition_keys) g.components
check_keyed_grain inventory definition_keys Grain.unknown = ok tt

abbrev pub inventory_of : IntermediaryNode → List Text
inventory_of node = map (λ column. column.name) node.columns

unfoldable pub validate_intermediary_properties : IntermediaryNode → Result NodeProblem (Unit {0})
unfolding check_entities
validate_intermediary_properties node = do
  guard (not (has_duplicates (inventory_of node))) NodeProblem.duplicate_columns
  definition_keys ← check_entities (inventory_of node) [] node.entity_definitions
  check_keyed_grain (inventory_of node) definition_keys node.grain

pub data IntermediaryProblem : Type 0 where
  too_short blank_registry_key duplicate_node : IntermediaryProblem
  unknown_identity : Text → Text → IntermediaryProblem
  definition : DefinitionProblem → IntermediaryProblem
  node : NodeProblem → IntermediaryProblem

-- Construction of a node: its fields, the definitions in it, then the node's own validator.
unfoldable pub validate_node : IntermediaryNode → Result IntermediaryProblem (Unit {0})
unfolding validate_entity validate_intermediary_properties
validate_node n = do
  guard (not (is_empty n.node_id)) IntermediaryProblem.too_short
  guard (not (is_empty n.columns)) IntermediaryProblem.too_short
  map_err IntermediaryProblem.definition (check_each validate_entity n.entity_definitions)
  map_err IntermediaryProblem.node (validate_intermediary_properties n)

-- the call of `DatasetNode`; its arguments are models already and are not validated again
unfoldable pub new_node : DatasetNode → Result IntermediaryProblem DatasetNode
unfolding validate_invariants
new_node n = do
  guard (not (is_empty n.node_id)) IntermediaryProblem.too_short
  guard (not (is_empty n.columns)) IntermediaryProblem.too_short
  map_err IntermediaryProblem.node (validate_invariants n)
  ok n

unfoldable pub node_to_runtime : IntermediaryNode → Result IntermediaryProblem DatasetNode
unfolding definition_to_runtime new_node
node_to_runtime n = do
  entity_definitions ←
      map_err IntermediaryProblem.definition (traverse definition_to_runtime n.entity_definitions)
  new_node (record {
    node_id = n.node_id;
    descriptor = n.descriptor;
    accessor = n.accessor;
    grain = n.grain;
    columns = n.columns;
    entity_definitions = entity_definitions;
  })

-- `logical_identities` is a dictionary: an association list in order of insertion.
pub record IntermediaryDefinition : Type 0 where
  pub logical_identities : List (Text × LogicalIdentityDefinition)
  pub nodes : List IntermediaryNode

abbrev pub registry_keys : IntermediaryDefinition → List Text
registry_keys d = map (λ (p : Text × LogicalIdentityDefinition). p.0) d.logical_identities

abbrev pub check_reference :
    List Text
    → IntermediaryNode
    → IntermediaryEntityDefinition
    → Result IntermediaryProblem (Unit {0})
check_reference known n d =
    guard (contains known d.identity_id)
      (IntermediaryProblem.unknown_identity n.node_id d.identity_id)

abbrev pub check_references : List Text → IntermediaryNode → Result IntermediaryProblem (Unit {0})
check_references known n = check_each (check_reference known n) n.entity_definitions

unfoldable pub validate_registry_and_references :
    IntermediaryDefinition → Result IntermediaryProblem (Unit {0})
unfolding strip
validate_registry_and_references d = do
  guard (not (any is_blank (registry_keys d))) IntermediaryProblem.blank_registry_key
  guard (not (has_duplicates (map (λ (n : IntermediaryNode). n.node_id) d.nodes)))
      IntermediaryProblem.duplicate_node
  check_each (check_references (registry_keys d)) d.nodes

abbrev pub check_registered :
    Text × LogicalIdentityDefinition → Result IntermediaryProblem (Unit {0})
check_registered p = guard (not (is_empty p.1.name)) IntermediaryProblem.too_short

-- Construction of a definition: its parts, then its own validator.
unfoldable pub validate_intermediary :
    IntermediaryDefinition → Result IntermediaryProblem (Unit {0})
unfolding validate_node validate_registry_and_references
validate_intermediary d = do
  guard (not (is_empty d.logical_identities)) IntermediaryProblem.too_short
  check_each check_registered d.logical_identities
  guard (not (is_empty d.nodes)) IntermediaryProblem.too_short
  check_each validate_node d.nodes
  validate_registry_and_references d

-- the call of `LogicalIdentity`
unfoldable pub new_identity :
    Text × LogicalIdentityDefinition → Result IntermediaryProblem LogicalIdentity
new_identity (identity_id, d) = do
  guard (not (is_empty identity_id)) IntermediaryProblem.too_short
  guard (not (is_empty d.name)) IntermediaryProblem.too_short
  ok (record {
    identity_id = identity_id;
    name = d.name;
    description = d.description;
    synonyms = d.synonyms;
  })

unfoldable pub runtime_identities :
    IntermediaryDefinition → Result IntermediaryProblem (List LogicalIdentity)
unfolding new_identity sorted_by
runtime_identities d =
    traverse new_identity
      (sorted_by (λ (p : Text × LogicalIdentityDefinition). p.0) d.logical_identities)
