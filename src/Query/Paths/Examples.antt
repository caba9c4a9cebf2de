-- ===== src/Query/Paths/Examples.antt =====
-- Paths in a small catalog, and one on which the shortest search reuses definitions.
use data_ontology_graph.Prelude.{
  length, ℕ, Text, text, List, [], ◌∷◌, ◌≡◌, ◌≢◌, refl, Bool, true, false, Option, none, some, map,
  Memᴰ, ◌↔◌, join,
}
use data_ontology_graph.Prelude.Options.{◌>>=◌}
use data_ontology_graph.Prelude.Json
use data_ontology_graph.Prelude.{ok, err}
use data_ontology_graph.Model.Enums.{EntityUniverse, Claim, Multiplicity}
use data_ontology_graph.Model.Definition.{EntityDefinition}
use data_ontology_graph.Model.Dataset.{DatasetNode, Grain}
use data_ontology_graph.Model.Relationship.{
  JoinRelationship, validate_endpoint, canonicalize, edge_id_for, canonical_endpoints, side,
}
use data_ontology_graph.Model.Columns.{check_columns}
use data_ontology_graph.Model.Derivation.{derive_relationships, arguments, derived_direction}
use data_ontology_graph.Model.Sample.{
  descriptor, accessor, customers, orders, customer_id, buyer_id, catalog,
}
use data_ontology_graph.Query.Paths.{
  State, PathGraph, no_graph, path_graph, successors, edge_pairs, nothing,
}
use data_ontology_graph.Query.Paths.Nearest.{IsAnswer}
use data_ontology_graph.Query.Paths.Steps.{IsStep, IsFree, successors_iff}
use data_ontology_graph.Query.Paths.Universe.{path_graph-IsBounded, shortest_nearest}
use data_ontology_graph.Query.Paths.Complete.{IsRanking, IsLed, k_shortest_returns}
use data_ontology_graph.Query.Paths.Yen.{shortest, k_shortest}

abbrev on_column : Text → Claim → EntityDefinition
on_column name unique = record {
  identity_id = text "e";
  dataset_columns = name ∷ [];
  entity_universe = EntityUniverse.partial;
  unique = unique;
  total = Claim.known true;
  conforms = Claim.known true;
  entity_expression = [];
  entity_metadata = Json.end;
  description = [];
}

abbrev dataset : Text → List EntityDefinition → DatasetNode
dataset name definitions = record {
  node_id = name;
  descriptor = descriptor name;
  accessor = accessor;
  grain = Grain.unknown;
  columns = [];
  entity_definitions = definitions;
}

abbrev many : Claim
many = Claim.known false

abbrev one : Claim
one = Claim.known true

abbrev four_datasets : List DatasetNode
four_datasets =
    dataset (text "d") (on_column (text "d") one ∷ on_column (text "f") Claim.unknown ∷ [])
    ∷ dataset (text "s") (on_column (text "s") many ∷ [])
    ∷ dataset (text "t") (on_column (text "z") many ∷ [])
    ∷ dataset (text "x") (on_column (text "x") one ∷ on_column (text "y") one ∷ [])
    ∷ []

reused_paths : Option (List (List (ℕ × ℕ)) × Bool)
reused_paths = elim (derive_relationships four_datasets) [
  | ok relationships ↦ path_graph four_datasets relationships >>= λ g.
      k_shortest g (text "s") (text "t")
        (some (Multiplicity.one_to_one ∷ Multiplicity.unknown ∷ [])) 4 6 (λ n. false)
  | err e ↦ none
]

-- The only path within four edges leaves by `f` and `d`, and comes to both a second time.
path_reuses_definitions : reused_paths ≡ some (((2, 1) ∷ (0, 4) ∷ (5, 0) ∷ (1, 3) ∷ []) ∷ [], false)
unfolding reused_paths path_graph k_shortest derive_relationships validate_endpoint canonicalize
    edge_id_for canonical_endpoints derived_direction check_columns side join
path_reuses_definitions = refl

abbrev link : JoinRelationship
link = arguments ((customers.node_id, customer_id), (orders.node_id, buyer_id))

abbrev graph : PathGraph
graph = elim (path_graph catalog (link ∷ [])) [ some g ↦ g | none ↦ no_graph ]

built : path_graph catalog (link ∷ []) ≡ some graph
unfolding path_graph arguments
built = refl

k_shortest_returns_example :
    (paths : List (List State)) × (more : Bool) × (k_shortest graph customers.node_id orders.node_id
        none 4 6
        (λ n. false)
      ≡ some (map edge_pairs paths, more))
    × IsRanking graph
        (path_graph-IsBounded catalog (link ∷ []) built)
        customers.node_id
        orders.node_id
        none
        4
        6
        paths
    × (more ≡ true → length paths ≡ 6)
    × (◌≢◌ {A = ℕ} 6 0
        → IsLed graph
            (path_graph-IsBounded catalog (link ∷ []) built)
            customers.node_id
            orders.node_id
            none
            4
            paths)
k_shortest_returns_example =
    k_shortest_returns catalog (link ∷ []) graph built customers.node_id orders.node_id none 4 6
      (λ n. false)

one_path :
    k_shortest graph customers.node_id orders.node_id none 4 6 (λ n. false)
    ≡ some (((0, 1) ∷ []) ∷ [], false)
unfolding k_shortest path_graph arguments
one_path = refl

successors_iff_example :
    Memᴰ
      (State.ready 0, 0)
      (successors graph customers.node_id orders.node_id none nothing State.source)
    ↔ (IsStep graph customers.node_id orders.node_id none State.source (State.ready 0) 0
        × IsFree graph customers.node_id orders.node_id none nothing State.source (State.ready 0))
successors_iff_example =
    successors_iff graph customers.node_id orders.node_id none nothing State.source (State.ready 0)
      0

shortest_nearest_example :
    IsAnswer
      (successors graph customers.node_id orders.node_id none nothing)
      State.source
      4
      (shortest graph customers.node_id orders.node_id none State.source nothing (some 4))
shortest_nearest_example =
    shortest_nearest catalog (link ∷ []) graph built customers.node_id orders.node_id none
      State.source tt nothing 4
