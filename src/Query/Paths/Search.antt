-- ===== src/Query/Paths/Search.antt =====
-- `_Search.shortest` of query/paths.py: breadth first, with a double-ended queue for free steps.
use mathlib.Core.List.{foldl}
use data_ontology_graph.Prelude.{
  ℕ, zero, suc, ◌+◌, ◌*◌, List, [], ◌∷◌, ◌++◌, true, false, ◌||◌, ltb, leb, contains, Option, none,
  some, if◌then◌else◌, ◌==◌, nat_order,
}
use data_ontology_graph.Prelude.Options.{◌>>=◌}
use data_ontology_graph.Prelude.Maps.{put}
use data_ontology_graph.Query.Paths.{State, state_order}

pub record Labels : Type 0 where
  pub distance : State → Option ℕ
  pub previous : State → Option State
  pub queue : List State

-- `d.get(key, default)`
abbrev pub or_default : Option ℕ → ℕ → ℕ
or_default none n = n
or_default (some value) n = value

-- `queue.appendleft(state)` for a free step, and `queue.append(state)` for another
abbrev pub enqueue : ℕ → State → List State → List State
enqueue cost state queue = if cost == 0 then state ∷ queue else queue ++ state ∷ []

-- the body of the loop over the successors
unfoldable pub relax : State → ℕ → ℕ → Labels → State × ℕ → Labels
unfolding put
relax state cost_here budget l (following, cost) =
    if ltb budget (cost_here + cost)
      || leb (or_default (l.distance following) (suc budget)) (cost_here + cost)
    then l
    else record {
      distance = put l.distance following (some (cost_here + cost));
      previous = put l.previous following (some state);
      queue = enqueue cost following l.queue;
    }

-- `while path[-1] != start: path.append(previous[path[-1]])`, and the list reversed. `none` when
-- the rounds run out or a key is missing.
unfoldable pub trace : ℕ → (State → Option State) → State → State → List State → Option (List State)
trace zero previous start state path = none
trace (suc rounds) previous start state path =
    let rest = previous state >>= λ before. trace rounds previous start before (state ∷ path) in
    if state == start then some (state ∷ path) else rest

abbrev pub start_labels : State → Labels
start_labels start = record {
  distance = put (λ state. none) start (some 0);
  previous = λ state. none;
  queue = start ∷ [];
}

module _ (next : State → List (State × ℕ)) (start : State) (budget : ℕ) where
  -- a state that is popped and not done: its distance, and the loop over its successors
  unfoldable pub expand_state : Labels → State → List State → Option Labels
  unfolding relax
  expand_state l state rest = do
    cost_here ← l.distance state
    some (foldl (relax state cost_here budget) (record l { queue = rest }) (next state))

  -- `while queue`. The outer option is `none` when the rounds run out or a key is missing.
  unfoldable pub search_loop : ℕ → List State → Labels → Option (Option (List State))
  unfolding expand_state trace contains
  search_loop zero done l = none
  search_loop (suc rounds) done l = elim l.queue [
    | [] ↦ some none
    | state ∷ rest ↦ elim (contains done state) [
      | true ↦ search_loop rounds done (record l { queue = rest })
      | false ↦ elim (state == State.target) [
        | true ↦
            trace (2 * budget + 2) l.previous start State.target [] >>= λ path. some (some path)
        | false ↦ expand_state l state rest >>= λ l'. search_loop rounds (state ∷ done) l'
      ]
    ]
  ]

  unfoldable pub shortest_within : ℕ → Option (Option (List State))
  unfolding search_loop put
  shortest_within rounds = search_loop rounds [] (start_labels start)

-- Each entry of the queue but the first lowers a distance, so twice the number of states that can
-- be labelled, times the number of distances, bounds the rounds.
abbrev pub rounds_for : ℕ → ℕ → ℕ
rounds_for states budget = states * suc budget + 2
