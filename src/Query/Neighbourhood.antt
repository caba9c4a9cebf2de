-- ===== src/Query/Neighbourhood.antt =====
-- query/neighbourhood.py: directed edges, their groups, and breadth-first expansion.
pub mod Edges
pub mod Groups
pub mod Rounds
pub mod Distances
pub mod Whole
pub mod Complete
pub mod Listed
use mathlib.Core.List.{foldl}
use data_ontology_graph.Prelude.{
  ℕ, zero, suc, ◌+◌, Text, List, [], ◌∷◌, ◌++◌, Bool, true, false, not, ◌&&◌, ◌||◌, map, length,
  ltb, leb, take, any, select, flat_map, contains, from_keys, Option, none, some, if◌then◌else◌,
  ◌==◌, sorted_by, nat_order, list_order, pair_order, triple_order, quad_order,
}
use data_ontology_graph.Model.Definition.{DefinitionKey}
use data_ontology_graph.Model.Relationship.{
  JoinEndpoint, JoinRelationship, RelationshipDirection, identity_key,
}

pub record DirectedEdge : Type 0 where
  pub relationship : JoinRelationship
  pub source : JoinEndpoint
  pub target : JoinEndpoint

-- `_from_a`
abbrev pub from_a : DirectedEdge → Bool
from_a e = identity_key e.source == identity_key e.relationship.endpoint_a

unfoldable pub outgoing : DirectedEdge → RelationshipDirection
outgoing e = if from_a e then e.relationship.a_to_b else e.relationship.b_to_a

unfoldable pub reverse_direction : DirectedEdge → RelationshipDirection
reverse_direction e = if from_a e then e.relationship.b_to_a else e.relationship.a_to_b

abbrev pub sort_key : DirectedEdge → Text × List Text × Text × List Text
sort_key e =
    (e.source.identity_id, e.source.dataset_columns, e.target.node_id, e.target.dataset_columns)

abbrev pub from_left : JoinRelationship → DirectedEdge
from_left r = record { relationship = r; source = r.endpoint_a; target = r.endpoint_b }

abbrev pub from_right : JoinRelationship → DirectedEdge
from_right r = record { relationship = r; source = r.endpoint_b; target = r.endpoint_a }

-- `none` where the source raises `KeyError`
unfoldable pub directed_edge_from : JoinRelationship → DefinitionKey → Option DirectedEdge
directed_edge_from r source_key =
    if identity_key r.endpoint_a == source_key
    then some (from_left r)
    else if identity_key r.endpoint_b == source_key
    then some (from_right r)
    else none

-- what one round of the loop appends to `listed[node_id]`
abbrev pub edges_at : Text → JoinRelationship → List DirectedEdge
edges_at node_id r =
    (if r.endpoint_a.node_id == node_id then from_left r ∷ [] else [])
    ++ (if r.endpoint_b.node_id == node_id then from_right r ∷ [] else [])

-- The dictionary as a function: a dataset that is not a key has no directed edges.
abbrev pub EdgesByDataset : Type 0
EdgesByDataset = Text → List DirectedEdge

unfoldable pub directed_edges_by_dataset : List JoinRelationship → EdgesByDataset
unfolding sorted_by
directed_edges_by_dataset relationships node_id =
    sorted_by sort_key (flat_map (edges_at node_id) relationships)

pub record EdgeGroup : Type 0 where
  pub source : JoinEndpoint
  pub edge_count : ℕ
  pub edges : List DirectedEdge

abbrev pub truncated : EdgeGroup → Bool
truncated g = ltb (length g.edges) g.edge_count

-- `limit is None or n < limit`
abbrev pub has_room : Option ℕ → ℕ → Bool
has_room none n = true
has_room (some limit) n = ltb n limit

module _ (limit : Option ℕ) (listed : DirectedEdge → Bool) where
  abbrev pub new_group : DirectedEdge → EdgeGroup
  new_group e = record { source = e.source; edge_count = 0; edges = [] }

  -- count the edge, and list it if there is room and it is wanted
  abbrev pub admit : EdgeGroup → DirectedEdge → EdgeGroup
  admit g e = record {
    source = g.source;
    edge_count = g.edge_count + 1;
    edges = if has_room limit (length g.edges) && listed e then g.edges ++ e ∷ [] else g.edges;
  }

  -- one round of the loop: only the last group is extended
  unfoldable pub place : List EdgeGroup → DirectedEdge → List EdgeGroup
  place [] e = admit (new_group e) e ∷ []
  place (g ∷ []) e =
      if identity_key g.source == identity_key e.source
      then admit g e ∷ []
      else g ∷ admit (new_group e) e ∷ []
  place (g ∷ h ∷ gs) e = g ∷ place (h ∷ gs) e

  unfoldable pub group_edges : List DirectedEdge → List EdgeGroup
  unfolding place
  group_edges edges = foldl place [] edges

pub record Frontier : Type 0 where
  pub distance : List (Text × ℕ)
  pub following : List Text

abbrev pub reached : Frontier → List Text
reached f = map (λ p. p.0) f.distance

module _ (edges : EdgesByDataset) (allowed : DirectedEdge → Bool) where
  -- the body of the loop over the edges of a frontier dataset
  unfoldable pub visit : ℕ → Frontier → DirectedEdge → Frontier
  visit level f e =
      if allowed e && not (contains (reached f) e.target.node_id)
      then record {
        distance = f.distance ++ (e.target.node_id, suc level) ∷ [];
        following = f.following ++ e.target.node_id ∷ [];
      }
      else f

  unfoldable pub visit_all : ℕ → Frontier → List DirectedEdge → Frontier
  unfolding visit
  visit_all level f [] = f
  visit_all level f (e ∷ es) = visit_all level (visit level f e) es

  unfoldable pub scan : ℕ → Frontier → List Text → Frontier
  unfolding visit_all
  scan level f [] = f
  scan level f (node_id ∷ rest) = scan level (visit_all level f (edges node_id)) rest

  -- `for level in range(depth)`, with the rounds that are left
  unfoldable pub levels : ℕ → ℕ → List (Text × ℕ) → List Text → List (Text × ℕ)
  unfolding scan
  levels zero level distance frontier = distance
  levels (suc rounds) level distance frontier =
      let f = scan level (record { distance = distance; following = [] }) frontier in
      levels rounds (suc level) f.distance f.following

  -- each dataset within `depth` of a seed, once, with the level at which it was reached
  unfoldable pub distances : List Text → ℕ → List (Text × ℕ)
  unfolding levels from_keys
  distances seeds depth =
      let frontier = from_keys seeds in levels depth 0 (map (λ seed. (seed, 0)) frontier) frontier

pub record Neighbourhood : Type 0 where
  pub datasets : List (Text × ℕ)
  pub groups : List (Text × List EdgeGroup)
  pub is_truncated : Bool

abbrev pub by_distance : Text × ℕ → ℕ × Text
by_distance p = (p.1, p.0)

-- `ordered[:max_nodes]`
abbrev pub capped : Option ℕ → List (Text × ℕ) → List (Text × ℕ)
capped none ordered = ordered
capped (some max_nodes) ordered = take max_nodes ordered

abbrev pub targets_of : List (Text × List EdgeGroup) → List Text
targets_of groups =
    flat_map (λ g. flat_map (λ group. map (λ e. e.target.node_id) group.edges) g.1) groups

module _ (edges : EdgesByDataset) (allowed : DirectedEdge → Bool) where
  unfoldable pub selected_datasets : List Text → ℕ → Option ℕ → List (Text × ℕ)
  unfolding distances sorted_by
  selected_datasets seeds depth max_nodes =
      capped max_nodes (sorted_by by_distance (distances edges allowed seeds depth))

  -- the groups of the datasets that are not at the boundary
  unfoldable pub groups_of : ℕ → Option ℕ → List (Text × ℕ) → List (Text × List EdgeGroup)
  unfolding group_edges
  groups_of depth limit selected =
      let kept = map (λ p. p.0) selected in
      map
        (λ p. (
          p.0,
          group_edges limit (λ e. contains kept e.target.node_id) (select allowed (edges p.0)),
        ))
        (select (λ p. ltb p.1 depth) selected)

  unfoldable pub expand : List Text → ℕ → Option ℕ → Option ℕ → Bool → Neighbourhood
  unfolding selected_datasets groups_of contains
  expand seeds depth max_nodes limit referenced_only =
      let selected = selected_datasets seeds depth max_nodes in
      let groups = groups_of depth limit selected in
      let referenced = seeds ++ targets_of groups in
      record {
        datasets =
            if referenced_only then select (λ p. contains referenced p.0) selected else selected;
        groups = groups;
        is_truncated =
            ltb (length selected) (length (distances edges allowed seeds depth))
            || any (λ g. any truncated g.1) groups;
      }
