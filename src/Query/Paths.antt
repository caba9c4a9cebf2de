-- ===== src/Query/Paths.antt =====
-- query/paths.py: the graph that paths are searched in, and the states that follow a state.
pub mod Search
pub mod Traced
pub mod Frontier
pub mod Expanded
pub mod Nearest
pub mod Popped
pub mod Shortest
pub mod Yen
pub mod Steps
pub mod Bounds
pub mod Universe
pub mod Ranked
pub mod Found
pub mod Complete
mod Examples
use mathlib.Core.List.{foldl}
use data_ontology_graph.Prelude.{
  ℕ, zero, suc, ◌+◌, ◌*◌, Text, List, [], ◌∷◌, ◌++◌, Bool, true, false, not, ◌&&◌, ◌||◌, map,
  length, select, contains, has_duplicates, Option, none, some, if◌then◌else◌, ◌==◌, Order,
  order_by, ◌≡◌, refl, ap, ◌∙◌, sym, arith, sorted_by, nat_order, list_order, pair_order,
  triple_order,
}
use data_ontology_graph.Prelude.Options.{◌>>=◌}
use data_ontology_graph.Prelude.Maps.{put}
use data_ontology_graph.Model.Enums.{Multiplicity}
use data_ontology_graph.Model.Definition.{EntityDefinition, DefinitionKey, key}
use data_ontology_graph.Model.Dataset.{DatasetNode}
use data_ontology_graph.Model.Relationship.{JoinRelationship, identity_key}

-- The source's numbers -1, -2, 2 * d and 2 * d + 1.
pub data State : Type 0 where
  source target : State
  ready arrived : ℕ → State

-- the number of the source plus 2, so that states compare as they do there
abbrev pub number : State → ℕ
number State.target = 0
number State.source = 1
number (State.ready d) = 2 * d + 2
number (State.arrived d) = 2 * d + 3

pub number-injective : (x y : State) → number x ≡ number y → x ≡ y
number-injective x y h = ground arith

instance abbrev pub state_order : Order State
state_order = order_by number number-injective

abbrev rank_of : Multiplicity → ℕ
rank_of Multiplicity.one_to_one = 0
rank_of Multiplicity.one_to_many = 1
rank_of Multiplicity.many_to_one = 2
rank_of Multiplicity.many_to_many = 3
rank_of Multiplicity.unknown = 4

abbrev ranked : ℕ → Multiplicity
ranked n =
    if n == 0
    then Multiplicity.one_to_one
    else if n == 1
    then Multiplicity.one_to_many
    else if n == 2
    then Multiplicity.many_to_one
    else if n == 3
    then Multiplicity.many_to_many
    else Multiplicity.unknown

ranked-rank_of : (m : Multiplicity) → ranked (rank_of m) ≡ m
ranked-rank_of Multiplicity.one_to_one = refl
ranked-rank_of Multiplicity.one_to_many = refl
ranked-rank_of Multiplicity.many_to_one = refl
ranked-rank_of Multiplicity.many_to_many = refl
ranked-rank_of Multiplicity.unknown = refl

pub rank_of-injective : (x y : Multiplicity) → rank_of x ≡ rank_of y → x ≡ y
rank_of-injective x y h = sym (ranked-rank_of x) ∙ (ap ranked h ∙ ranked-rank_of y)

-- only so that sets of multiplicities can be tested for membership
instance abbrev pub multiplicity_order : Order Multiplicity
multiplicity_order = order_by rank_of rank_of-injective

-- (target definition, outgoing multiplicity, edge ID)
abbrev pub Leaving : Type 0
Leaving = ℕ × Multiplicity × Text

-- The default dictionaries as functions.
pub record PathGraph : Type 0 where
  pub keys : List DefinitionKey
  pub on_dataset : Text → List ℕ
  pub edges : ℕ → List Leaving
  pub edge_by_pair : ℕ × ℕ → Option Text

abbrev pub no_graph : PathGraph
no_graph = record {
  keys = [];
  on_dataset = λ node_id. [];
  edges = λ definition. [];
  edge_by_pair = λ pair. none;
}

unfoldable pub add_definition : Text → PathGraph → EntityDefinition → PathGraph
unfolding put
add_definition node_id g d = record g {
  on_dataset = put g.on_dataset node_id (g.on_dataset node_id ++ length g.keys ∷ []);
  keys = g.keys ++ key d node_id ∷ [];
}

unfoldable pub add_node : PathGraph → DatasetNode → PathGraph
unfolding add_definition sorted_by
add_node g node =
    foldl (add_definition node.node_id) g
      (sorted_by (λ d. key d node.node_id) node.entity_definitions)

-- `{key: position for position, key in enumerate(keys)}`: the last position of a key
unfoldable pub index_from : ℕ → List DefinitionKey → DefinitionKey → Option ℕ
index_from position [] k = none
index_from position (x ∷ keys) k = elim (index_from (suc position) keys k) [
  | some later ↦ some later
  | none ↦ if x == k then some position else none
]

abbrev pub add_edge : PathGraph → JoinRelationship → ℕ → ℕ → PathGraph
add_edge g r a b =
    let from_a = put g.edges a (g.edges a ++ (b, r.a_to_b.multiplicity, r.edge_id) ∷ []) in
    record g {
      edges = put from_a b (from_a b ++ (a, r.b_to_a.multiplicity, r.edge_id) ∷ []);
      edge_by_pair = put (put g.edge_by_pair (b, a) (some r.edge_id)) (a, b) (some r.edge_id);
    }

-- `none` where the source raises `KeyError`
unfoldable pub add_relationship : PathGraph → JoinRelationship → Option PathGraph
unfolding index_from put
add_relationship g r = do
  a ← index_from 0 g.keys (identity_key r.endpoint_a)
  b ← index_from 0 g.keys (identity_key r.endpoint_b)
  some (add_edge g r a b)

unfoldable pub add_relationships : PathGraph → List JoinRelationship → Option PathGraph
unfolding add_relationship
add_relationships g [] = some g
add_relationships g (r ∷ rs) = add_relationship g r >>= λ g'. add_relationships g' rs

unfoldable pub path_graph : List DatasetNode → List JoinRelationship → Option PathGraph
unfolding add_node add_relationships sorted_by
path_graph nodes relationships =
    add_relationships (foldl add_node no_graph (sorted_by (λ node. node.node_id) nodes))
      (sorted_by (λ r. r.edge_id) relationships)

-- A state's definition is an index of `keys`, so the default is never read.
abbrev pub key_at : List DefinitionKey → ℕ → DefinitionKey
key_at [] d = ([], [], [])
key_at (k ∷ keys) zero = k
key_at (k ∷ keys) (suc d) = key_at keys d

abbrev pub node_of : PathGraph → ℕ → Text
node_of g d = (key_at g.keys d).0

-- what one search leaves out: definitions, and steps
pub record Without : Type 0 where
  pub blocked : List ℕ
  pub removed : List (State × State)

abbrev pub nothing : Without
nothing = record { blocked = []; removed = [] }

module _ (g : PathGraph) (from to : Text) (allowed : Option (List Multiplicity)) where
  abbrev pub is_allowed : Multiplicity → Bool
  is_allowed m = elim allowed [ none ↦ true | some kinds ↦ contains kinds m ]

  module _ (w : Without) where
    abbrev pub may_pivot : State → ℕ → Bool
    may_pivot state d =
        not (contains w.blocked d) && not (contains w.removed (state, State.ready d))

    abbrev pub may_leave : State → Leaving → Bool
    may_leave state (d, multiplicity, _) =
        not (contains w.blocked d || contains w.removed (state, State.arrived d))
        && is_allowed multiplicity

    -- `_successors`
    unfoldable pub successors : State → List (State × ℕ)
    unfolding contains
    successors State.source =
        map (λ d. (State.ready d, 0)) (select (may_pivot State.source) (g.on_dataset from))
    successors State.target = []
    successors (State.arrived d) =
        if node_of g d == to
        then (if contains w.removed (State.arrived d, State.target)
            then []
            else (State.target, 0) ∷ [])
        else map (λ other. (State.ready other, 0))
            (select (λ other. not (other == d) && may_pivot (State.arrived d) other)
              (g.on_dataset (node_of g d)))
    successors (State.ready d) =
        map (λ edge. (State.arrived edge.0, 1)) (select (may_leave (State.ready d)) (g.edges d))

-- `_edge_count`
unfoldable pub edge_count : List State → ℕ
edge_count [] = 0
edge_count (State.arrived d ∷ path) = suc (edge_count path)
edge_count (_ ∷ path) = edge_count path

abbrev pub definitions_of : List State → List ℕ
definitions_of [] = []
definitions_of (State.ready d ∷ path) = d ∷ definitions_of path
definitions_of (State.arrived d ∷ path) = d ∷ definitions_of path
definitions_of (_ ∷ path) = definitions_of path

-- `_simple`
unfoldable pub is_simple : List State → Bool
unfolding has_duplicates
is_simple path = not (has_duplicates (definitions_of path))

abbrev pub edge_pair : State → State → List (ℕ × ℕ)
edge_pair (State.ready a) (State.arrived b) = (a, b) ∷ []
edge_pair _ _ = []

-- `_edge_pairs`
unfoldable pub edge_pairs : List State → List (ℕ × ℕ)
edge_pairs [] = []
edge_pairs (x ∷ []) = []
edge_pairs (x ∷ y ∷ path) = edge_pair x y ++ edge_pairs (y ∷ path)
