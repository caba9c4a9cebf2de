-- ===== src/Builder.antt =====
-- src/data_ontology_graph/builder: from a definition to a validated snapshot.
pub mod Report
pub mod Contradictions
pub mod Build
pub mod Built
pub mod Directory
mod Examples
use data_ontology_graph.Prelude.{
  ℕ, Text, List, [], map, length, Result, ok, err, traverse, map_err, ◌>>=◌, ◌>>◌,
}
use data_ontology_graph.Model.Dataset.{DatasetNode}
use data_ontology_graph.Model.Relationship.{RelationshipProblem}
use data_ontology_graph.Model.Derivation.{derive_relationships}
use data_ontology_graph.Model.Snapshot.{
  GraphSnapshot, LogicalIdentity, SnapshotProblem, validate_graph,
}
use data_ontology_graph.Model.Intermediary.{
  IntermediaryDefinition, IntermediaryProblem, node_to_runtime, runtime_identities,
}
use data_ontology_graph.Builder.Report.{ExplicitBuildReport, unknown_field_locations}
use data_ontology_graph.Builder.Contradictions.{Contradiction}

pub data BuildProblem : Type 0 where
  intermediary : IntermediaryProblem → BuildProblem
  relationship : RelationshipProblem → BuildProblem
  snapshot : SnapshotProblem → BuildProblem

-- the call of `GraphSnapshot`
unfoldable pub new_snapshot : GraphSnapshot → Result BuildProblem GraphSnapshot
new_snapshot s = do map_err BuildProblem.snapshot (validate_graph s); ok s

-- `version` is what `snapshot_version()` returns at the call.
unfoldable pub build_snapshot_from_definition :
    Text
    → IntermediaryDefinition
    → Result BuildProblem (GraphSnapshot × ExplicitBuildReport × List Contradiction)
unfolding runtime_identities new_snapshot
build_snapshot_from_definition version definition = do
  nodes ← map_err BuildProblem.intermediary (traverse node_to_runtime definition.nodes)
  identities ← map_err BuildProblem.intermediary (runtime_identities definition)
  edges ← map_err BuildProblem.relationship (derive_relationships nodes)
  graph ← new_snapshot (record {
    version = version;
    logical_identities = identities;
    nodes = nodes;
    edges = edges;
    annotations = [];
  })
  ok (
    graph,
    record {
      node_count = length graph.nodes;
      edge_count = length graph.edges;
      unknown_fields = unknown_field_locations definition graph.edges;
    },
    [],
  )
