-- ===== src/Query/Paths/Ranked.antt =====
-- Paths of the searched graph: their edge counts, their edge IDs, and their prefixes.
use mathlib.Core.List.Memᴰ
use data_ontology_graph.Prelude.{
  ℕ, ◌+◌, ◌≤◌, Text, List, [], ◌∷◌, ◌++◌, length, ◌≡◌, refl, sym, ◌∙◌, subst, Memᴰ, Option, some,
  arith, nat_order, append_assoc,
}
use data_ontology_graph.Model.Enums.{Multiplicity}
use data_ontology_graph.Model.Definition.{DefinitionKey}
use data_ontology_graph.Query.Paths.{
  State, PathGraph, Without, nothing, key_at, successors, edge_count, edge_pairs,
}
use data_ontology_graph.Query.Paths.Traced.{Walk}
use data_ontology_graph.Query.Paths.Steps.{IsStep, IsFree, successors_iff}
use data_ontology_graph.Query.Paths.Bounds.{IsBounded}
use data_ontology_graph.Query.Paths.Universe.{IsWithin, step_facts}
use data_ontology_graph.Query.Paths.Yen.{edge_ids}

pub edge_count-append : (xs ys : List State) → edge_count (xs ++ ys) ≡ edge_count xs + edge_count ys
unfolding edge_count
edge_count-append [] ys = omega arith
edge_count-append (State.source ∷ xs) ys = edge_count-append xs ys
edge_count-append (State.target ∷ xs) ys = edge_count-append xs ys
edge_count-append (State.ready d ∷ xs) ys = edge_count-append xs ys
edge_count-append (State.arrived d ∷ xs) ys = omega (arith, edge_count-append xs ys)

module _ (g : PathGraph) (h : IsBounded g) (from to : Text)
    (allowed : Option (List Multiplicity)) where
  -- the graph of one search, and the whole graph
  abbrev pub within : Without → State → List (State × ℕ)
  within w = successors g from to allowed w

  abbrev pub whole : State → List (State × ℕ)
  whole = successors g from to allowed nothing

  -- A step costs 1 exactly when it arrives across a relationship.
  step_cost : (x y : State) (c : ℕ) → IsStep g from to allowed x y c → c ≡ edge_count (y ∷ [])
  unfolding edge_count
  step_cost State.source State.source c s = absurd s
  step_cost State.source State.target c s = absurd s
  step_cost State.source (State.ready d) c (e, _) = e
  step_cost State.source (State.arrived d) c s = absurd s
  step_cost State.target y c s = absurd s
  step_cost (State.ready a) State.source c s = absurd s
  step_cost (State.ready a) State.target c s = absurd s
  step_cost (State.ready a) (State.ready b) c s = absurd s
  step_cost (State.ready a) (State.arrived b) c (e, _, _, _, _) = e
  step_cost (State.arrived a) State.source c s = absurd s
  step_cost (State.arrived a) State.target c (e, _) = e
  step_cost (State.arrived a) (State.ready b) c (e, _, _, _) = e
  step_cost (State.arrived a) (State.arrived b) c s = absurd s

  pub step_in :
      (w : Without) (x y : State) (c : ℕ)
      → Memᴰ (y, c) (within w x)
      → IsStep g from to allowed x y c × IsFree g from to allowed w x y
  step_in w x y c = (successors_iff g from to allowed w x y c).0

  unrestricted :
      (w : Without) (x y : State)
      → IsFree g from to allowed w x y
      → IsFree g from to allowed nothing x y
  unrestricted w x State.source f = f
  unrestricted w x State.target f = λ m. Memᴰ.not-nil m
  unrestricted w x (State.ready d) f = ((λ m. Memᴰ.not-nil m), λ m. Memᴰ.not-nil m)
  unrestricted w x (State.arrived d) f = ((λ m. Memᴰ.not-nil m), λ m. Memᴰ.not-nil m)

  -- A walk that leaves something out is a walk of the whole graph.
  pub Walk-whole :
      (w : Without) (goal x : State) (path : List State) (n : ℕ)
      → Walk (within w) goal x path n
      → Walk whole goal x path n
  Walk-whole w goal x [] n walk = walk
  Walk-whole w goal x (y ∷ path) n (c, at, m, e, walk) =
      let (step, free) = step_in w x y c at in
      (
        c,
        (successors_iff g from to allowed nothing x y c).1 (step, unrestricted w x y free),
        m,
        e,
        Walk-whole w goal y path m walk,
      )

  pub Walk-edge_count :
      (goal x : State) (path : List State) (n : ℕ) → Walk whole goal x path n → edge_count path ≡ n
  unfolding edge_count
  Walk-edge_count goal x [] n (_, e) = sym e
  Walk-edge_count goal x (y ∷ path) n (c, at, m, e, walk) =
      let one = step_cost x y c (step_in nothing x y c at).0 in
      omega (arith, edge_count-append (y ∷ []) path, Walk-edge_count goal y path m walk)

  abbrev HasIds : List State → Type 0
  HasIds path = (ids : List (Text × DefinitionKey)) × (edge_ids g path ≡ some ids)

  -- Every relationship that a walk crosses is found by its pair of definitions.
  pub Walk-ids :
      (goal x : State) (path : List State) (n : ℕ) → Walk whole goal x path n → HasIds (x ∷ path)
  unfolding edge_ids edge_pairs
  Walk-ids goal x [] n walk = ([], refl)
  Walk-ids goal x (y ∷ path) n (c, at, m, _, walk) =
      let (ids, e) = Walk-ids goal y path m walk in
      first x y c (step_in nothing x y c at).0 path ids e
    where
      first :
          (x y : State) (c : ℕ) (s : IsStep g from to allowed x y c) (path : List State)
          (ids : List (Text × DefinitionKey))
          → edge_ids g (y ∷ path) ≡ some ids
          → HasIds (x ∷ y ∷ path)
      first State.source (State.ready d) c s path ids e = (ids, e)
      first (State.ready a) (State.arrived b) c (_, k, id, on, _) path ids e =
          let (_, (id', known)) = h.edges a b k id on in
          ((id', key_at g.keys a) ∷ ids, rw (known, e))
      first (State.arrived a) State.target c s path ids e = (ids, e)
      first (State.arrived a) (State.ready b) c s path ids e = (ids, e)
      first State.source State.source c s path ids e = absurd s
      first State.source State.target c s path ids e = absurd s
      first State.source (State.arrived d) c s path ids e = absurd s
      first State.target y c s path ids e = absurd s
      first (State.ready a) State.source c s path ids e = absurd s
      first (State.ready a) State.target c s path ids e = absurd s
      first (State.ready a) (State.ready b) c s path ids e = absurd s
      first (State.arrived a) State.source c s path ids e = absurd s
      first (State.arrived a) (State.arrived b) c s path ids e = absurd s

  -- from the start to the target dataset, by at most so many relationships
  abbrev pub IsPath : ℕ → List State → Type 0
  IsPath max_edges path =
      (rest : List State) × (path ≡ State.source ∷ rest)
      × Walk whole State.target State.source rest (edge_count path)
      × (edge_count path ≤ max_edges)

  -- `before` and then `x` begin a path that any walk from `x` completes
  pub record IsRoot (before : List State) (x : State) : Type 0 where
    pub inside : IsWithin (length g.keys) x
    pub completes :
        (path : List State) (n : ℕ)
        → Walk whole State.target x path n
        → (rest : List State) × (before ++ x ∷ path ≡ State.source ∷ rest)
          × Walk whole State.target State.source rest (edge_count (before ++ x ∷ []) + n)

  pub IsRoot-source : IsRoot [] State.source
  unfolding edge_count
  IsRoot-source = record {
    inside = tt;
    completes = λ path n walk.
        (path, refl, subst (Walk whole State.target State.source path) (omega arith) walk);
  }

  pub IsRoot-longer :
      (before : List State) (x y : State) (c : ℕ)
      → IsRoot before x
      → Memᴰ (y, c) (whole x)
      → IsRoot (before ++ x ∷ []) y
  IsRoot-longer before x y c r at =
      let (step, _) = step_in nothing x y c at in
      let one = step_cost x y c step in
      record {
        inside = (step_facts g h from to allowed x y c step).2;
        completes = λ path n walk.
            let (rest, e, walk') = r.completes (y ∷ path) (c + n) (c, at, n, refl, walk) in
            (
              rest,
              append_assoc before (x ∷ []) (y ∷ path) ∙ e,
              subst (Walk whole State.target State.source rest)
                  (omega (arith, edge_count-append (before ++ x ∷ []) (y ∷ []))) walk',
            );
      }
