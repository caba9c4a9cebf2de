-- ===== src/Query/Examples.antt =====
-- Expansion on the small catalog, and the theorems about it at concrete inputs.
use data_ontology_graph.Prelude.{
  ℕ, ◌≤◌, ◌<◌, Text, List, [], ◌∷◌, Memᴰ, Bool, true, false, ◌≡◌, ◌↔◌, refl, some, none, map,
  contains, sorted_by, from_keys, nat_order, pair_order, list_order, triple_order, quad_order,
}
use data_ontology_graph.Model.Relationship.{JoinRelationship}
use data_ontology_graph.Model.Derivation.{arguments}
use data_ontology_graph.Model.Sample.{customer_id, buyer_id, customers, orders}
use data_ontology_graph.Query.Neighbourhood.{
  DirectedEdge, EdgeGroup, EdgesByDataset, group_edges, distances, expand, selected_datasets,
  directed_edges_by_dataset, groups_of, place, levels, scan, visit_all, visit, from_left,
}
use data_ontology_graph.Query.Neighbourhood.Edges.{IsTraversal, directed_edges_by_dataset_iff}
use data_ontology_graph.Query.Neighbourhood.Distances.{IsShortest, distances_iff}
use data_ontology_graph.Query.Neighbourhood.Groups.{runs, summarize, group_edges-eq}
use data_ontology_graph.Query.Neighbourhood.Complete.{expand-truncated_iff}
use data_ontology_graph.Query.Neighbourhood.Listed.{expand-listed}

abbrev link : JoinRelationship
link = arguments ((customers.node_id, customer_id), (orders.node_id, buyer_id))

abbrev edges : EdgesByDataset
edges = directed_edges_by_dataset (link ∷ [])

abbrev anything : DirectedEdge → Bool
anything e = true

abbrev seeds : List Text
seeds = customers.node_id ∷ []

abbrev found : List (Text × ℕ)
found = (customers.node_id, 0) ∷ (orders.node_id, 1) ∷ []

found-eq : distances edges anything seeds 1 ≡ found
unfolding distances levels scan visit_all visit from_keys contains directed_edges_by_dataset
    sorted_by arguments
found-eq = refl

directed_edges_by_dataset_iff_example : Memᴰ (from_left link) (edges customers.node_id) ↔ (
    (r : JoinRelationship) × Memᴰ r (link ∷ [])
    × IsTraversal r (from_left link)
    × ((from_left link).source.node_id ≡ customers.node_id))
directed_edges_by_dataset_iff_example =
    directed_edges_by_dataset_iff (link ∷ []) customers.node_id (from_left link)

distances_iff_example :
    Memᴰ (orders.node_id, 1) (distances edges anything seeds 1)
    ↔ (IsShortest edges anything seeds orders.node_id 1 × (1 ≤ 1))
distances_iff_example = distances_iff edges anything seeds 1 orders.node_id 1

group_edges-eq_example :
    group_edges (some 0) anything (edges customers.node_id)
    ≡ map (summarize (some 0) anything) (runs (edges customers.node_id))
group_edges-eq_example = group_edges-eq (some 0) anything (edges customers.node_id)

-- one dataset is too few
truncated_here : (expand edges anything seeds 1 (some 1) none false).is_truncated ≡ true
unfolding expand selected_datasets groups_of group_edges place distances levels scan visit_all visit
    from_keys contains directed_edges_by_dataset sorted_by arguments
truncated_here = refl

expand-truncated_iff_example :
    (((expand edges anything seeds 1 (some 1) none false).is_truncated ≡ false) ↔ (
      (selected_datasets edges anything seeds 1 (some 1)
        ≡ selected_datasets edges anything seeds 1 none)
      × ((expand edges anything seeds 1 (some 1) none false).groups
          ≡ (expand edges anything seeds 1 none none false).groups)))
    × ((expand edges anything seeds 1 (some 1) none false).is_truncated ≡ false
        → expand edges anything seeds 1 (some 1) none false
          ≡ expand edges anything seeds 1 none none false)
expand-truncated_iff_example = expand-truncated_iff edges anything seeds 1 (some 1) none false

abbrev group : EdgeGroup
group = record { source = link.endpoint_a; edge_count = 1; edges = from_left link ∷ [] }

grouped :
    (expand edges anything seeds 1 none none false).groups ≡ (customers.node_id, group ∷ []) ∷ []
unfolding expand selected_datasets groups_of group_edges place distances levels scan visit_all visit
    from_keys contains directed_edges_by_dataset sorted_by arguments
grouped = refl

grouped_mem :
    Memᴰ (customers.node_id, group ∷ []) (expand edges anything seeds 1 none none false).groups
unfolding expand selected_datasets groups_of group_edges place distances levels scan visit_all visit
    from_keys contains directed_edges_by_dataset sorted_by arguments
grouped_mem = Memᴰ.head refl

expand-listed_example :
    Memᴰ (from_left link) (edges customers.node_id)
    × (true ≡ true)
    × ((d : ℕ) × Memᴰ (customers.node_id, d) (selected_datasets edges anything seeds 1 none)
        × (d < 1))
    × Memᴰ
        (from_left link).target.node_id
        (map (λ (p : Text × ℕ). p.0) (expand edges anything seeds 1 none none false).datasets)
expand-listed_example =
    expand-listed edges anything seeds 1 none none false customers.node_id (group ∷ []) group
      (from_left link) grouped_mem (Memᴰ.head refl) (Memᴰ.head refl)
