-- ===== src/Query/Connecting.antt =====
-- query/connecting.py: disjoint sets, and the pass over region boundaries that spans the terminals.
pub mod Sets
pub mod Leaders
pub mod Spanning
pub mod Apart
pub mod Spans
pub mod Regions
pub mod Grown
pub mod Unowned
pub mod Levels
pub mod Reached
pub mod Trees
pub mod Complete
mod Examples
use data_ontology_graph.Prelude.{
  ℕ, zero, suc, ◌+◌, Text, List, [], ◌∷◌, ◌++◌, Bool, true, false, not, ◌&&◌, map, length, ltb,
  Option, none, some, if◌then◌else◌, ◌==◌, ◌<=◌, sorted_by, nat_order, list_order, pair_order,
  quad_order,
}
use data_ontology_graph.Prelude.Options.{◌>>=◌}
use data_ontology_graph.Model.Relationship.{JoinRelationship}

-- The dictionaries as functions, with their keys.
pub record DisjointSets : Type 0 where
  pub nodes : List Text
  pub parent : Text → Text
  pub rank : Text → ℕ

unfoldable pub new_sets : List Text → DisjointSets
new_sets nodes = record { nodes = nodes; parent = λ node. node; rank = λ node. 0 }

-- `d[key] = value`
abbrev pub assign {ℓ} : {A : Type ℓ} → (Text → A) → Text → A → Text → A
assign d key value x = if x == key then value else d x

-- `self.parent[node] = self.parent[self.parent[node]]`
abbrev pub halve : DisjointSets → Text → DisjointSets
halve s node = record s { parent = assign s.parent node (s.parent (s.parent node)) }

-- the loop of `root`, for a number of rounds
unfoldable pub root_within : ℕ → DisjointSets → Text → Option (DisjointSets × Text)
root_within zero s node = none
root_within (suc rounds) s node =
    let rest = root_within rounds (halve s node) (s.parent (s.parent node)) in
    if s.parent node == node then some (s, node) else rest

abbrev pub larger : ℕ → ℕ → ℕ
larger m n = if ltb m n then n else m

abbrev pub highest : (Text → ℕ) → List Text → ℕ
highest rank [] = 0
highest rank (node ∷ nodes) = larger (rank node) (highest rank nodes)

-- Ranks ascend along the parents, so there are at most as many rounds as ranks.
unfoldable pub root : DisjointSets → Text → Option (DisjointSets × Text)
unfolding root_within
root s node = root_within (suc (highest s.rank s.nodes)) s node

-- `right` under `left`, two roots of which `left` has no smaller rank
abbrev pub link : DisjointSets → Text → Text → DisjointSets
link s left right = record {
  nodes = s.nodes;
  parent = assign s.parent right left;
  rank = if ltb (s.rank right) (s.rank left) then s.rank else assign s.rank left (s.rank left + 1);
}

abbrev pub join_roots : DisjointSets → Text → Text → DisjointSets × Bool
join_roots s left right =
    if left == right
    then (s, false)
    else if ltb (s.rank left) (s.rank right)
    then (link s right left, true)
    else (link s left right, true)

unfoldable pub join_sets : DisjointSets → Text → Text → Option (DisjointSets × Bool)
unfolding root
join_sets s left right = do
  (s1, left_root) ← root s left
  (s2, right_root) ← root s1 right
  some (join_roots s2 left_root right_root)

-- (cost, edge ID, left, right, edge)
pub record Candidate : Type 0 where
  pub cost : ℕ
  pub edge_id : Text
  pub left : Text
  pub right : Text
  pub edge : JoinRelationship

-- An entry of the dictionary: a pair of regions and the cheapest boundary between them.
abbrev pub Entry : Type 0
Entry = (Text × Text) × Candidate

-- `item[1][:4]`
abbrev pub candidate_key : Entry → ℕ × Text × Text × Text
candidate_key item = (item.1.cost, item.1.edge_id, item.1.left, item.1.right)

abbrev pub too_dear : Option ℕ → ℕ → Bool
too_dear none cost = false
too_dear (some max_cost) cost = ltb max_cost cost

module _ (terminals : List Text) (max_cost : Option ℕ) where
  -- The loop over the sorted entries. The outer option is that of `join`; the inner one is the
  -- function's result.
  unfoldable pub span_loop :
      DisjointSets → List Candidate → List Entry → Option (Option (List Candidate))
  unfolding join_sets
  span_loop sets boundaries [] = some none
  span_loop sets boundaries ((pair, candidate) ∷ rest) =
      if too_dear max_cost candidate.cost
      then some none
      else join_sets sets pair.0 pair.1 >>= λ joined.
          if joined.1
          then if suc (length (boundaries ++ candidate ∷ [])) == length terminals
            then some (some (boundaries ++ candidate ∷ []))
            else span_loop joined.0 (boundaries ++ candidate ∷ []) rest
          else span_loop joined.0 boundaries rest

  unfoldable pub spanning_boundaries : List Entry → Option (Option (List Candidate))
  unfolding span_loop new_sets sorted_by
  spanning_boundaries candidates =
      span_loop (new_sets terminals) [] (sorted_by candidate_key candidates)
