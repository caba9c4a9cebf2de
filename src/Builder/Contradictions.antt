-- ===== src/Builder/Contradictions.antt =====
-- builder/validate.py: one source joined to several column sets of one target.
use mathlib.Core.List.{foldl}
use data_ontology_graph.Prelude.{
  Text, List, [], ◌∷◌, ◌++◌, map, length, ltb, flat_map, to_set, sorted_by, Option, none, some,
  Result, ok, err, traverse, ◌>>=◌, if◌then◌else◌, ◌==◌, nat_order, list_order, triple_order,
}
use data_ontology_graph.Model.Relationship.{JoinEndpoint, JoinRelationship, opposite}

pub record Contradiction : Type 0 where
  pub source_node_id : Text
  pub source_columns : List Text
  pub target_node_id : Text
  pub target_column_sets : List (List Text)
  pub edge_ids : List Text

-- (source node, source columns, target node)
abbrev pub GroupKey : Type 0
GroupKey = Text × List Text × Text

abbrev pub group_key : JoinEndpoint → JoinEndpoint → GroupKey
group_key source target = (source.node_id, source.dataset_columns, target.node_id)

-- `groups[key].append(edge)` on the dictionary in order of insertion
unfoldable pub append_to :
    List (GroupKey × List JoinRelationship)
    → GroupKey
    → JoinRelationship
    → List (GroupKey × List JoinRelationship)
append_to [] k edge = (k, edge ∷ []) ∷ []
append_to ((l, group) ∷ groups) k edge =
    let rest = append_to groups k edge in
    if l == k then (l, group ++ edge ∷ []) ∷ groups else (l, group) ∷ rest

-- one round of the outer loop: both directions of the edge
unfoldable pub group_edge :
    List (GroupKey × List JoinRelationship)
    → JoinRelationship
    → List (GroupKey × List JoinRelationship)
unfolding append_to
group_edge groups edge =
    append_to (append_to groups (group_key edge.endpoint_a edge.endpoint_b) edge)
      (group_key edge.endpoint_b edge.endpoint_a) edge

-- the exception of `opposite`
pub data KeyError : Type 0 where
  missing : Text → KeyError

abbrev pub or_raise {ℓ} : {A : Type ℓ} → Text → Option A → Result KeyError A
or_raise k (some value) = ok value
or_raise k none = err (KeyError.missing k)

unfoldable pub target_columns : Text → JoinRelationship → Result KeyError (List Text)
unfolding opposite
target_columns source_id edge = do
  target ← or_raise source_id (opposite edge source_id)
  ok target.dataset_columns

-- the findings of one group: none or one
unfoldable pub finding_of : GroupKey × List JoinRelationship → Result KeyError (List Contradiction)
unfolding target_columns to_set sorted_by
finding_of ((source_id, source_columns, target_id), group) = do
  columns ← traverse (target_columns source_id) group
  let targets = to_set columns
  ok (
      if ltb 1 (length targets)
      then record {
        source_node_id = source_id;
        source_columns = source_columns;
        target_node_id = target_id;
        target_column_sets = sorted_by (λ t. t) targets;
        edge_ids = sorted_by (λ i. i) (to_set (map (λ e. e.edge_id) group));
      }
        ∷ []
      else [])

unfoldable pub detect_contradictions : List JoinRelationship → Result KeyError (List Contradiction)
unfolding group_edge finding_of
detect_contradictions edges = do
  findings ← traverse finding_of (foldl group_edge [] edges)
  ok (flat_map (λ f. f) findings)
