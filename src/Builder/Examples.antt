-- ===== src/Builder/Examples.antt =====
-- Builds of small definitions, and the theorems about the builder at concrete inputs.
use mathlib.Core.List.Memᴰ
use data_ontology_graph.Prelude.{
  ◌≢◌, Text, text, List, [], ◌∷◌, ◌++◌, true, ◌≡◌, ◌↔◌, refl, ok, err, map, Memᴰ, IsDistinct,
  has_duplicates, contains, to_set, sorted_by, strip, join, nat_order, list_order, pair_order,
  triple_order,
}
use data_ontology_graph.Prelude.Json
use data_ontology_graph.Model.Enums.{EntityUniverse, Claim}
use data_ontology_graph.Model.Columns.{check_columns}
use data_ontology_graph.Model.Definition.{complete_must_conform}
use data_ontology_graph.Model.Definition.{EntityDefinition}
use data_ontology_graph.Model.Dataset.{Grain}
use data_ontology_graph.Model.Relationship.{
  JoinRelationship, edge_id_for, canonical_endpoints, side, opposite,
}
use data_ontology_graph.Model.Derivation.{arguments, members, identities, pairs_of, combinations}
use data_ontology_graph.Model.Derivation.Derived.{derived}
use data_ontology_graph.Model.Snapshot.{edge_ids, SnapshotProblem}
use data_ontology_graph.Model.Sample.{
  column, descriptor, accessor, customer_id, buyer_id, customers, orders,
}
use data_ontology_graph.Model.Intermediary.{
  IntermediaryDefinition, IntermediaryNode, IntermediaryEntityDefinition, LogicalIdentityDefinition,
  validate_intermediary, validate_node, validate_entity, check_entities,
  validate_intermediary_properties, validate_registry_and_references, node_to_runtime,
}
use data_ontology_graph.Model.Intermediary.Runtime.{runtime_node, node_to_runtime-eq}
use data_ontology_graph.Builder.{BuildProblem, build_snapshot_from_definition}
use data_ontology_graph.Builder.Report.{
  unknown_field_locations, unknown_field_locations_iff, IsUnknownClaim,
}
use data_ontology_graph.Builder.Contradictions.{
  detect_contradictions, append_to, group_edge, finding_of, target_columns,
}
use data_ontology_graph.Builder.Build.{graph_of, IsAccepted}
use data_ontology_graph.Builder.Built.{build_snapshot_returns, build_snapshot_refuses, report_of}

abbrev entity : Text → List Text → IntermediaryEntityDefinition
entity identity_id columns = record {
  identity_id = identity_id;
  dataset_columns = columns;
  entity_universe = EntityUniverse.partial;
  unique = Claim.known true;
  total = Claim.unknown;
  conforms = Claim.known true;
  entity_expression = [];
  entity_metadata = Json.end;
  description = [];
}

abbrev node : Text → List Text → List IntermediaryEntityDefinition → IntermediaryNode
node node_id columns entities = record {
  node_id = node_id;
  descriptor = descriptor node_id;
  accessor = accessor;
  grain = Grain.unknown;
  columns = map column columns;
  entity_definitions = entities;
}

abbrev customer_definition : LogicalIdentityDefinition
customer_definition = record { name = text "Customer"; description = []; synonyms = [] }

abbrev customer_node : IntermediaryNode
customer_node =
    node (text "s:customers") (text "id" ∷ []) (entity (text "customer") (text "id" ∷ []) ∷ [])

abbrev order_node : IntermediaryNode
order_node =
    node (text "s:orders") (text "buyer" ∷ []) (entity (text "customer") (text "buyer" ∷ []) ∷ [])

abbrev shop : IntermediaryDefinition
shop = record {
  logical_identities = (text "customer", customer_definition) ∷ [];
  nodes = order_node ∷ customer_node ∷ [];
}

shop-IsAccepted : IsAccepted shop
unfolding validate_intermediary validate_node validate_entity check_columns has_duplicates sorted_by
    strip contains to_set complete_must_conform validate_intermediary_properties check_entities
    validate_registry_and_references
shop-IsAccepted = record { validated = refl; registry_distinct = (λ m. Memᴰ.not-nil m, tt) }

shop_edges : IsDistinct (edge_ids (graph_of shop (text "2026-01-01T00:00:00Z")))
unfolding derived members identities pairs_of combinations arguments sorted_by to_set contains
shop_edges = (λ m. Memᴰ.not-nil m, tt)

build_snapshot_returns_example :
    build_snapshot_from_definition (text "2026-01-01T00:00:00Z") shop
    ≡ ok (
      graph_of shop (text "2026-01-01T00:00:00Z"),
      report_of shop (text "2026-01-01T00:00:00Z"),
      [],
    )
build_snapshot_returns_example =
    build_snapshot_returns shop (text "2026-01-01T00:00:00Z") shop-IsAccepted shop_edges

-- `a+b` is the name of one column, and how two columns are joined in an edge ID
abbrev plus_node : IntermediaryNode
plus_node = node (text "s:plus") (text "a" ∷ text "a+b" ∷ text "b" ∷ []) (
    entity (text "customer") (text "a" ∷ text "b" ∷ [])
    ∷ entity (text "customer") (text "a+b" ∷ [])
    ∷ [])

abbrev plus : IntermediaryDefinition
plus = record {
  logical_identities = (text "customer", customer_definition) ∷ [];
  nodes = plus_node ∷ customer_node ∷ [];
}

plus-IsAccepted : IsAccepted plus
unfolding validate_intermediary validate_node validate_entity check_columns has_duplicates sorted_by
    strip contains to_set complete_must_conform validate_intermediary_properties check_entities
    validate_registry_and_references
plus-IsAccepted = record { validated = refl; registry_distinct = (λ m. Memᴰ.not-nil m, tt) }

plus_edges : ¬ IsDistinct (edge_ids (graph_of plus (text "2026-01-01T00:00:00Z")))
unfolding derived members identities pairs_of combinations arguments sorted_by to_set contains
    edge_id_for canonical_endpoints side join
plus_edges d = d.0 (Memᴰ.head refl)

build_snapshot_refuses_example :
    build_snapshot_from_definition (text "2026-01-01T00:00:00Z") plus
    ≡ err (BuildProblem.snapshot SnapshotProblem.duplicate_edge)
build_snapshot_refuses_example =
    build_snapshot_refuses plus (text "2026-01-01T00:00:00Z") plus-IsAccepted plus_edges

node_to_runtime-eq_example : node_to_runtime plus_node ≡ ok (runtime_node plus_node)
unfolding validate_node validate_entity check_columns has_duplicates sorted_by strip contains to_set
    complete_must_conform validate_intermediary_properties check_entities
node_to_runtime-eq_example = node_to_runtime-eq plus_node refl

unknown_field_locations_iff_example :
    Memᴰ (text "nodes[s:orders].grain") (unknown_field_locations shop []) ↔ (
      (location : Text) × (path : Text) × IsUnknownClaim shop [] location path
      × (text "nodes[s:orders].grain" ≡ location ++ text "." ++ path))
unknown_field_locations_iff_example =
    unknown_field_locations_iff shop [] (text "nodes[s:orders].grain")

abbrev link : JoinRelationship
link = arguments ((customers.node_id, customer_id), (orders.node_id, buyer_id))

no_contradiction : detect_contradictions (link ∷ []) ≡ ok []
unfolding detect_contradictions group_edge append_to finding_of target_columns opposite to_set
    contains sorted_by arguments
no_contradiction = refl

-- `c` joined to `a` and to `b`: found on two datasets, and missed where all three are on one
abbrev on : Text → Text → Text × EntityDefinition
on node_id name = (node_id, record customer_id { dataset_columns = name ∷ [] })

abbrev joined : Text → Text → List JoinRelationship
joined node_id other =
    arguments (on node_id (text "a"), on other (text "c"))
    ∷ arguments (on node_id (text "b"), on other (text "c"))
    ∷ []

two_datasets : detect_contradictions (joined (text "m") (text "n")) ≢ ok []
unfolding detect_contradictions group_edge append_to finding_of target_columns opposite to_set
    contains sorted_by arguments
two_datasets e = cc

one_dataset : detect_contradictions (joined (text "n") (text "n")) ≡ ok []
unfolding detect_contradictions group_edge append_to finding_of target_columns opposite to_set
    contains sorted_by arguments
one_dataset = refl
