-- ===== src/Query/Connecting/Regions.antt =====
-- `connecting_tree` of query/connecting.py: regions grown round the terminals level by level, and the
-- tree read back from the boundaries between them.
use data_ontology_graph.Prelude.{
  ℕ, zero, suc, ◌+◌, ◌*◌, Text, List, [], ◌∷◌, ◌++◌, Bool, true, false, length, contains, to_set,
  Option, none, some, if◌then◌else◌, ◌==◌, ◌<=◌, sorted_by, nat_order, list_order, pair_order,
  quad_order,
}
use data_ontology_graph.Prelude.Options.{◌>>=◌}
use data_ontology_graph.Prelude.Maps.{put}
use data_ontology_graph.Model.Relationship.{JoinRelationship, opposite}
use data_ontology_graph.Query.Connecting.{Candidate, Entry, candidate_key, spanning_boundaries}

-- the dictionary, and `adjacency.get(node_id, ())`
abbrev pub Adjacency : Type 0
Adjacency = List (Text × List JoinRelationship)

abbrev pub neighbours : Adjacency → Text → List JoinRelationship
neighbours [] node_id = []
neighbours ((key, edges) ∷ adjacency) node_id =
    if key == node_id then edges else neighbours adjacency node_id

-- `edge.opposite(node_id).node_id`: `none` where the source raises `KeyError`
unfoldable pub across : JoinRelationship → Text → Option Text
unfolding opposite
across edge node_id = opposite edge node_id >>= λ endpoint. some endpoint.node_id

pub record Regions : Type 0 where
  pub owner : Text → Option Text
  pub distance : Text → Option ℕ
  pub predecessor : Text → Option (Text × JoinRelationship)
  pub candidates : List Entry
  pub following : List Text

abbrev pub ordered : Text → Text → Text × Text
ordered a b = if a <= b then (a, b) else (b, a)

abbrev pub is_less : ℕ × Text × Text × Text → ℕ × Text × Text × Text → Bool
is_less a b = if b <= a then false else true

-- `candidates[pair] = candidate`, if there is none yet or it is less than the one there
unfoldable pub offer : List Entry → Entry → List Entry
offer [] e = e ∷ []
offer (previous ∷ entries) e =
    let rest = offer entries e in
    if previous.0 == e.0
    then (if is_less (candidate_key e) (candidate_key previous) then e else previous) ∷ entries
    else previous ∷ rest

abbrev pub boundary : Regions → JoinRelationship → Text → Text → Text → Text → ℕ → ℕ → Regions
boundary s edge current other region other_region d other_d =
    let (left, right) = ordered current other in
    record s {
      candidates = offer s.candidates (
        ordered region other_region,
        record {
          cost = d + 1 + other_d;
          edge_id = edge.edge_id;
          left = left;
          right = right;
          edge = edge;
        },
      );
    }

abbrev pub claim : Regions → JoinRelationship → Text → Text → Text → ℕ → Regions
claim s edge current other region level = record s {
  owner = put s.owner other (some region);
  distance = put s.distance other (some (level + 1));
  predecessor = put s.predecessor other (some (current, edge));
  following = s.following ++ other ∷ [];
}

-- an edge to a dataset that has an owner
unfoldable pub meet : Regions → JoinRelationship → Text → Text → Text → Text → Option Regions
unfolding offer
meet s edge current other region other_region =
    if other_region == region
    then some s
    else s.distance current >>= λ d. s.distance other >>= λ other_d.
        some (boundary s edge current other region other_region d other_d)

-- the body of the loop over the edges of `current`
unfoldable pub grow_edge : ℕ → Text → Regions → JoinRelationship → Option Regions
unfolding across meet put
grow_edge level current s edge = do
  other ← across edge current
  region ← s.owner current
  elim (s.owner other) [
    | none ↦ some (claim s edge current other region level)
    | some other_region ↦ meet s edge current other region other_region
  ]

unfoldable pub grow_edges : ℕ → Text → Regions → List JoinRelationship → Option Regions
unfolding grow_edge
grow_edges level current s [] = some s
grow_edges level current s (edge ∷ edges) =
    grow_edge level current s edge >>= λ s'. grow_edges level current s' edges

module _ (adjacency : Adjacency) (terminals : List Text) where
  unfoldable pub grow_level : ℕ → Regions → List Text → Option Regions
  unfolding grow_edges
  grow_level level s [] = some s
  grow_level level s (current ∷ frontier) =
      grow_edges level current s (neighbours adjacency current) >>= λ s'.
      grow_level level s' frontier

  -- `while frontier`, with the boundaries that span the terminals early if there are such
  unfoldable pub grow_regions :
      ℕ → ℕ → Regions → List Text → Option (Regions × Option (List Candidate))
  unfolding grow_level spanning_boundaries
  grow_regions zero level s frontier = none
  grow_regions (suc rounds) level s [] = some (s, none)
  grow_regions (suc rounds) level s (current ∷ frontier) =
      grow_level level (record s { following = [] }) (current ∷ frontier) >>= λ s'.
      spanning_boundaries terminals (some (2 * level + 2)) s'.candidates >>= λ found. elim found [
        | some boundaries ↦ some (s', some boundaries)
        | none ↦ grow_regions rounds (level + 1) s' s'.following
      ]

  abbrev pub seeded : List Text → Regions
  seeded [] = record {
    owner = λ node_id. none;
    distance = λ node_id. none;
    predecessor = λ node_id. none;
    candidates = [];
    following = [];
  }
  seeded (t ∷ ts) =
      let s = seeded ts in
      record s { owner = put s.owner t (some t); distance = put s.distance t (some 0) }

-- the ends of all edges: each level but the last reaches one that had no owner
abbrev pub found_across : Text → List JoinRelationship → List Text
found_across node_id [] = []
found_across node_id (edge ∷ edges) = elim (across edge node_id) [
  | none ↦ found_across node_id edges
  | some other ↦ other ∷ found_across node_id edges
]

abbrev pub ends : Adjacency → List Text
ends [] = []
ends ((node_id, edges) ∷ adjacency) = found_across node_id edges ++ ends adjacency

-- what is in the tree so far
pub record Tree : Type 0 where
  pub nodes : List Text
  pub edge_ids : List Text

-- `while current not in nodes`, by the predecessors
unfoldable pub climb : ℕ → (Text → Option (Text × JoinRelationship)) → Tree → Text → Option Tree
unfolding contains
climb zero predecessor t current = none
climb (suc rounds) predecessor t current = elim (contains t.nodes current) [
  | true ↦ some t
  | false ↦ predecessor current >>= λ (before, edge).
      climb rounds predecessor
        (record { nodes = current ∷ t.nodes; edge_ids = edge.edge_id ∷ t.edge_ids }) before
]

-- A way back has no more steps than the distance.
abbrev pub steps_back : Option ℕ → ℕ
steps_back none = 1
steps_back (some d) = d + 2

unfoldable pub read_boundaries : Regions → Tree → List Candidate → Option Tree
unfolding climb
read_boundaries s t [] = some t
read_boundaries s t (c ∷ boundaries) = do
  let t0 = record t { edge_ids = c.edge_id ∷ t.edge_ids }
  t1 ← climb (steps_back (s.distance c.left)) s.predecessor t0 c.left
  t2 ← climb (steps_back (s.distance c.right)) s.predecessor t1 c.right
  read_boundaries s t2 boundaries

pub data Status : Type 0 where
  completed disconnected : Status

pub record ConnectingTree : Type 0 where
  pub status : Status
  pub node_ids : List Text
  pub edge_ids : List Text

module _ (adjacency : Adjacency) (terminals : List Text) where
  abbrev pub finish : Regions → Option (List Candidate) → Option ConnectingTree
  finish s none =
      some (record { status = Status.disconnected; node_ids = terminals; edge_ids = [] })
  finish s (some boundaries) = do
    t ← read_boundaries s (record { nodes = terminals; edge_ids = [] }) boundaries
    some (record {
      status = Status.completed;
      node_ids = sorted_by (λ node_id. node_id) (to_set t.nodes);
      edge_ids = sorted_by (λ edge_id. edge_id) (to_set t.edge_ids);
    })

  -- the boundaries found early, or those that all candidates give
  abbrev pub all_boundaries : Regions → Option (List Candidate) → Option (Option (List Candidate))
  all_boundaries s (some boundaries) = some (some boundaries)
  all_boundaries s none = spanning_boundaries terminals none s.candidates

  -- `none` when rounds run out or a key is missing
  unfoldable pub connecting_tree : Option ConnectingTree
  unfolding grow_regions read_boundaries to_set put across spanning_boundaries sorted_by
  connecting_tree = do
    (s, early) ←
        grow_regions adjacency terminals (length (ends adjacency) + 2) 0
          (seeded adjacency terminals terminals) terminals
    boundaries ← all_boundaries s early
    finish s boundaries
