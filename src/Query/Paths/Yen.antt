-- ===== src/Query/Paths/Yen.antt =====
-- `PathGraph.k_shortest` of query/paths.py: Yen's algorithm over the shortest search.
use mathlib.Core.List.{filter_map}
use data_ontology_graph.Prelude.{
  ℕ, zero, suc, ◌+◌, ◌*◌, ◌-◌, Text, List, [], ◌∷◌, ◌++◌, Bool, true, false, not, ◌||◌, ltb, map,
  length, take, contains, Option, none, some, if◌then◌else◌, ◌==◌, sorted_by, insert_by, nat_order,
  list_order, pair_order, triple_order,
}
use data_ontology_graph.Prelude.Options.{◌>>=◌}
use data_ontology_graph.Model.Enums.{Multiplicity}
use data_ontology_graph.Model.Definition.{DefinitionKey}
use data_ontology_graph.Query.Paths.{
  State, state_order, PathGraph, Without, nothing, key_at, successors, edge_count, is_simple,
  definitions_of, edge_pairs,
}
use data_ontology_graph.Query.Paths.Search.{shortest_within, rounds_for}

-- `edge_id`: `none` where the source raises `KeyError`
abbrev pub edge_id : PathGraph → ℕ × ℕ → Option Text
edge_id g pair = g.edge_by_pair pair

abbrev pub edge_ids_of : PathGraph → List (ℕ × ℕ) → Option (List (Text × DefinitionKey))
edge_ids_of g [] = some []
edge_ids_of g (pair ∷ pairs) =
    let rest = edge_ids_of g pairs in
    do id ← edge_id g pair; ids ← rest; some ((id, key_at g.keys pair.0) ∷ ids)

-- `_edge_ids`
unfoldable pub edge_ids : PathGraph → List State → Option (List (Text × DefinitionKey))
unfolding edge_pairs
edge_ids g path = edge_ids_of g (edge_pairs path)

-- (edge count, edge IDs, path)
abbrev pub Candidate : Type 0
Candidate = ℕ × List (Text × DefinitionKey) × List State

-- `found[-1]` is held beside `found`, and the heap as the sorted list of its entries.
pub record Yen : Type 0 where
  pub found : List (List State)
  pub previous : List State
  pub candidates : List Candidate
  pub seen : List (List State)

-- `(path[j], path[j + 1])` if the path starts with the root of length `j + 1`
unfoldable pub step_after : List State → List State → Option (State × State)
step_after (x ∷ []) (p ∷ q ∷ path) = if p == x then some (p, q) else none
step_after (x ∷ y ∷ root) (p ∷ path) =
    let rest = step_after (y ∷ root) path in if p == x then rest else none
step_after _ _ = none

-- `max_edges - _edge_count(root)`, where a negative budget is `none`
abbrev pub spare : ℕ → ℕ → Option ℕ
spare max_edges used = if ltb max_edges used then none else some (max_edges - used)

module _ (g : PathGraph) (from to : Text) (allowed : Option (List Multiplicity)) where
  -- `_Search.shortest`
  unfoldable pub shortest : State → Without → Option ℕ → Option (Option (List State))
  unfolding shortest_within successors
  shortest start w none = some none
  shortest start w (some budget) =
      shortest_within (successors g from to allowed w) start budget
        (rounds_for (2 * length g.keys + 2) budget)

  module _ (max_edges : ℕ) where
    -- the steps that the found paths with this root take next, and the definitions before its end
    abbrev pub without : Yen → List State → State → Without
    without y before x = record {
      blocked = definitions_of before;
      removed = filter_map (step_after (before ++ x ∷ [])) y.found;
    }

    unfoldable pub consider : Yen → List State → Option Yen
    unfolding is_simple contains insert_by edge_ids edge_count
    consider y path =
        if contains y.seen path || not (is_simple path)
        then some y
        else edge_ids g path >>= λ ids. some (record y {
          seen = path ∷ y.seen;
          candidates = insert_by (λ c. c) (edge_count path, ids, path) y.candidates;
        })

    -- one round of the loop over `j`: the root is `before` and then `x`
    unfoldable pub branch : Yen → List State → State → Option Yen
    unfolding shortest consider step_after edge_count filter_map
    branch y before x =
        shortest x (without y before x) (spare max_edges (edge_count (before ++ x ∷ [])))
        >>= λ spur. elim spur [ none ↦ some y | some path ↦ consider y (before ++ path) ]

    -- the loop over `j`, which leaves out the last state
    unfoldable pub branches : Yen → List State → List State → Option Yen
    unfolding branch
    branches y before [] = some y
    branches y before (x ∷ []) = some y
    branches y before (x ∷ z ∷ rest) =
        branch y before x >>= λ y'. branches y' (before ++ x ∷ []) (z ∷ rest)

    -- The loop runs while at most `k` paths are found, that is for `k + 1 - len(found)` rounds;
    -- `cancelled` is what the caller answers when so many are found.
    unfoldable pub yen_loop : ℕ → (ℕ → Bool) → Yen → Option (List (List State))
    unfolding branches
    yen_loop zero cancelled y = some y.found
    yen_loop (suc rounds) cancelled y = elim (cancelled (length y.found)) [
      | true ↦ some y.found
      | false ↦ branches y [] y.previous >>= λ y'. elim y'.candidates [
        | [] ↦ some y'.found
        | c ∷ cs ↦ yen_loop rounds cancelled (record {
          found = y'.found ++ c.2 ∷ [];
          previous = c.2;
          candidates = cs;
          seen = y'.seen;
        })
      ]
    ]

    -- each path with what it is ordered by
    abbrev pub keyed : List (List State) → Option (List Candidate)
    keyed [] = some []
    keyed (path ∷ paths) =
        let rest = keyed paths in
        do ids ← edge_ids g path; entries ← rest; some ((edge_count path, ids, path) ∷ entries)

    abbrev pub by_rank : Candidate → ℕ × List (Text × DefinitionKey)
    by_rank c = (c.0, c.1)

    -- the paths found, in their order, and whether there are more
    unfoldable pub ranked_paths : ℕ → List (List State) → Option (List (List State) × Bool)
    unfolding edge_ids edge_count sorted_by
    ranked_paths k found = do
      entries ← keyed (take k found)
      some (map (λ c. c.2) (sorted_by by_rank entries), ltb k (length found))

    unfoldable pub search_paths : ℕ → (ℕ → Bool) → Option (List (List State) × Bool)
    unfolding shortest yen_loop ranked_paths
    search_paths k cancelled = do
      first ← shortest State.source nothing (some max_edges)
      elim first [
        | none ↦ some ([], false)
        | some path ↦
            yen_loop k cancelled
              (record { found = path ∷ []; previous = path; candidates = []; seen = path ∷ [] })
            >>= ranked_paths k
      ]

    -- The outer option is `none` when the rounds of a search run out or a key is missing.
    unfoldable pub k_shortest : ℕ → (ℕ → Bool) → Option (List (List (ℕ × ℕ)) × Bool)
    unfolding search_paths edge_pairs
    k_shortest k cancelled =
        search_paths k cancelled >>= λ answer. some (map edge_pairs answer.0, answer.1)
