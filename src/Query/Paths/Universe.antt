-- ===== src/Query/Paths/Universe.antt =====
-- The graph that is built is bounded, and the searches in it return.
use mathlib.Core.List.{foldl}
use native.Mathlib.Decide.{dec_lt}
use data_ontology_graph.Prelude.{
  ℕ, zero, suc, ◌+◌, ◌*◌, ◌≤◌, ◌<◌, Text, List, [], ◌∷◌, length, ◌≡◌, refl, subst, Memᴰ, flat_map,
  Memᴰ-flat_map, Option, some, arith, nat_order, list_order, triple_order, sorted_by,
}
use data_ontology_graph.Prelude.Options.{>>=-eq-some}
use data_ontology_graph.Model.Enums.{Multiplicity}
use data_ontology_graph.Model.Dataset.{DatasetNode}
use data_ontology_graph.Model.Relationship.{JoinRelationship, identity_key}
use data_ontology_graph.Query.Paths.{
  State, PathGraph, Without, no_graph, add_node, index_from, add_relationship, add_relationships,
  path_graph, successors,
}
use data_ontology_graph.Query.Paths.Traced.{some_injective}
use data_ontology_graph.Query.Paths.Nearest.{kind, IsStepping, IsAnswer}
use data_ontology_graph.Query.Paths.Steps.{IsStep, successors_iff}
use data_ontology_graph.Query.Paths.Bounds.{
  IsBounded, no_graph-IsBounded, add_nodes-IsBounded, add_edge-IsBounded, index_from-lt,
}
use data_ontology_graph.Query.Paths.Shortest.{shortest_within_lem}
use data_ontology_graph.Query.Paths.Yen.{shortest}

add_relationships-IsBounded :
    (rs : List JoinRelationship) (g : PathGraph)
    → IsBounded g
    → {g' : PathGraph} → add_relationships g rs ≡ some g'
    → IsBounded g'
unfolding add_relationships add_relationship
add_relationships-IsBounded [] g h e = subst IsBounded (some_injective e) h
add_relationships-IsBounded (r ∷ rs) g h e =
    let (g1, added, rest) = >>=-eq-some (add_relationship g r) (λ g1. add_relationships g1 rs) e in
    let (a, at_a, e1) = >>=-eq-some (index_from 0 g.keys (identity_key r.endpoint_a)) _ added in
    let (b, at_b, e2) = >>=-eq-some (index_from 0 g.keys (identity_key r.endpoint_b)) _ e1 in
    let a_in = index_from-lt 0 g.keys (identity_key r.endpoint_a) a at_a in
    let b_in = index_from-lt 0 g.keys (identity_key r.endpoint_b) b at_b in
    add_relationships-IsBounded rs g1
      (subst IsBounded (some_injective e2)
        (add_edge-IsBounded g h r a b (omega arith) (omega arith)))
      rest

pub path_graph-IsBounded :
    (nodes : List DatasetNode) (relationships : List JoinRelationship) {g : PathGraph}
    → path_graph nodes relationships ≡ some g
    → IsBounded g
unfolding path_graph
path_graph-IsBounded nodes relationships e =
    add_relationships-IsBounded (sorted_by (λ r. r.edge_id) relationships)
      (foldl add_node no_graph (sorted_by (λ node. node.node_id) nodes))
      (add_nodes-IsBounded (sorted_by (λ node. node.node_id) nodes) no_graph no_graph-IsBounded) e

abbrev pub below : ℕ → List ℕ
below zero = []
below (suc n) = n ∷ below n

Memᴰ-below : (n d : ℕ) → d < n → Memᴰ d (below n)
Memᴰ-below zero d h = absurd (omega arith)
Memᴰ-below (suc n) d h = elim (dec_lt d n) [
  | yes less ↦ Memᴰ.tail (Memᴰ-below n d less)
  | no more ↦ Memᴰ.head (omega arith)
]

abbrev pub copies : ℕ → List State
copies d = State.ready d ∷ State.arrived d ∷ []

-- the states of a graph with `n` definitions
abbrev pub universe : ℕ → List State
universe n = State.target ∷ State.source ∷ flat_map copies (below n)

length-copies : (n : ℕ) → length (flat_map copies (below n)) ≡ 2 * n
length-copies zero = refl
length-copies (suc n) = omega (arith, length-copies n)

-- the definition of the state is one of the graph's
abbrev pub IsWithin : ℕ → State → Type 0
IsWithin n (State.ready d) = d < n
IsWithin n (State.arrived d) = d < n
IsWithin n _ = Unit {0}

pub Memᴰ-universe : (n : ℕ) (x : State) → IsWithin n x → Memᴰ x (universe n)
Memᴰ-universe n State.target h = Memᴰ.head refl
Memᴰ-universe n State.source h = Memᴰ.tail (Memᴰ.head refl)
Memᴰ-universe n (State.ready d) h = Memᴰ.tail (
    Memᴰ.tail
      ((Memᴰ-flat_map copies (State.ready d) (below n)).1 (d, Memᴰ-below n d h, Memᴰ.head refl)))
Memᴰ-universe n (State.arrived d) h = Memᴰ.tail (
    Memᴰ.tail (
      (Memᴰ-flat_map copies (State.arrived d) (below n)).1
        (d, Memᴰ-below n d h, Memᴰ.tail (Memᴰ.head refl))))

module _ (g : PathGraph) (h : IsBounded g) (from to : Text)
    (allowed : Option (List Multiplicity)) where
  pub step_facts :
      (x y : State) (c : ℕ)
      → IsStep g from to allowed x y c
      → (c ≤ 1) × (kind x < 2 * c + kind y) × IsWithin (length g.keys) y
  step_facts State.source State.source c s = absurd s
  step_facts State.source State.target c s = absurd s
  step_facts State.source (State.ready d) c (e, on) =
      (omega arith, omega arith, h.on_dataset from d on)
  step_facts State.source (State.arrived d) c s = absurd s
  step_facts State.target y c s = absurd s
  step_facts (State.ready a) State.source c s = absurd s
  step_facts (State.ready a) State.target c s = absurd s
  step_facts (State.ready a) (State.ready b) c s = absurd s
  step_facts (State.ready a) (State.arrived b) c (e, m, id, at, _) =
      (omega arith, omega arith, (h.edges a b m id at).0)
  step_facts (State.arrived a) State.source c s = absurd s
  step_facts (State.arrived a) State.target c (e, _) = (omega arith, omega arith, tt)
  step_facts (State.arrived a) (State.ready b) c (e, _, _, on) =
      (omega arith, omega arith, h.on_dataset _ b on)
  step_facts (State.arrived a) (State.arrived b) c s = absurd s

  pub successors-IsStepping :
      (w : Without) → IsStepping (successors g from to allowed w) (universe (length g.keys))
  successors-IsStepping w = record {
    costs = λ x y c m. (facts x y c m).0;
    ascends = λ x y c m. (facts x y c m).1;
    closed = λ x y c _ m. Memᴰ-universe (length g.keys) y (facts x y c m).2;
  }
    where
      facts :
          (x y : State) (c : ℕ)
          → Memᴰ (y, c) (successors g from to allowed w x)
          → (c ≤ 1) × (kind x < 2 * c + kind y) × IsWithin (length g.keys) y
      facts x y c m = step_facts x y c ((successors_iff g from to allowed w x y c).0 m).0

  pub shortest_lem :
      (start : State)
      → IsWithin (length g.keys) start
      → (w : Without) (budget : ℕ)
      → IsAnswer
          (successors g from to allowed w)
          start
          budget
          (shortest g from to allowed start w (some budget))
  unfolding shortest
  shortest_lem start inside w budget =
      shortest_within_lem (successors g from to allowed w) (universe (length g.keys))
        (successors-IsStepping w) start budget (2 * length g.keys + 2)
        (omega (arith, length-copies (length g.keys))) (Memᴰ-universe (length g.keys) start inside)

-- In a graph built from datasets and their relationships the search from a state of the graph
-- returns, within its rounds, either nothing, when no walk to the target dataset keeps within the
-- budget, or a walk that starts there, keeps within the budget and crosses no more relationships
-- than any other.
pub shortest_nearest :
    (nodes : List DatasetNode) (relationships : List JoinRelationship) (g : PathGraph)
    (built : path_graph nodes relationships ≡ some g) (from to : Text)
    (allowed : Option (List Multiplicity)) (start : State)
    → IsWithin (length g.keys) start
    → (w : Without) (budget : ℕ)
    → IsAnswer
        (successors g from to allowed w)
        start
        budget
        (shortest g from to allowed start w (some budget))
shortest_nearest nodes relationships g built from to allowed =
    shortest_lem g (path_graph-IsBounded nodes relationships built) from to allowed
