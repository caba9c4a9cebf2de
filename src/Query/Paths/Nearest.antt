-- ===== src/Query/Paths/Nearest.antt =====
-- A search ends, and finds a nearest walk to the target.
use data_ontology_graph.Prelude.{
  ℕ, zero, suc, ◌+◌, ◌*◌, ◌≤◌, ◌<◌, ◌≡◌, ◌⊎◌, inl, inr, ⊎_elim, refl, ap, subst, List, ◌∷◌,
  Bool-cases, both_ways, Memᴰ, Option, none, some, ◌==◌, ==→≡, ≡→==, arith, nat_order,
}
use data_ontology_graph.Query.Paths.{State, state_order}
use data_ontology_graph.Query.Paths.Search.{Labels, trace}
use data_ontology_graph.Query.Paths.Traced.{Walk, IsTraced}

-- Among steps that cost nothing this grows.
abbrev pub kind : State → ℕ
kind State.source = 0
kind State.target = 1
kind (State.ready d) = 1
kind (State.arrived d) = 0

-- What the successors of a state are like, and a finite set of states that they stay in.
pub record IsStepping (next : State → List (State × ℕ)) (states : List State) : Type 0 where
  pub costs : (x y : State) (c : ℕ) → Memᴰ (y, c) (next x) → c ≤ 1
  pub ascends : (x y : State) (c : ℕ) → Memᴰ (y, c) (next x) → kind x < 2 * c + kind y
  pub closed : (x y : State) (c : ℕ) → Memᴰ x states → Memᴰ (y, c) (next x) → Memᴰ y states

module _ (next : State → List (State × ℕ)) (start : State) (budget : ℕ) where
  abbrev pub NoWalk : Type 0
  NoWalk = (path : List State) (n : ℕ) → Walk next State.target start path n → budget < n

  abbrev pub IsNearest : List State → Type 0
  IsNearest path =
      (n : ℕ) × Walk next State.target start path n
      × (n ≤ budget)
      × ((other : List State) (m : ℕ) → Walk next State.target start other m → n ≤ m)

  -- no walk within the budget, or a nearest one
  abbrev pub IsAnswer : Option (Option (List State)) → Type 0
  IsAnswer outcome =
      ((outcome ≡ some none) × NoWalk)
      ⊎ ((path : List State) × (outcome ≡ some (some (start ∷ path))) × IsNearest path)

module _ (next : State → List (State × ℕ)) (states : List State) (ok : IsStepping next states)
    (start : State) (budget : ℕ) where
  -- Going back along the previous states ends at the start.
  pub trace_returns :
      (rounds : ℕ) (l : Labels)
      → IsTraced next start budget l
      → (x : State) (n : ℕ) → l.distance x ≡ some n
      → 2 * n + kind x < rounds
      → (path : List State) (k : ℕ) → Walk next State.target x path k
      → (rest : List State) × (m : ℕ) × (trace rounds l.previous start x path ≡ some (start ∷ rest))
        × Walk next State.target start rest m
        × (m ≤ n + k)
  unfolding trace
  trace_returns zero l t x n e h path k w = absurd (omega arith)
  trace_returns (suc rounds) l t x n e h path k w = elim (Bool-cases (x == start)) [
    | inl first ↦
        let x_start = ==→≡ x start first in
        (
          path,
          k,
          rw first (ap (λ s. some (s ∷ path)) x_start),
          subst (λ s. Walk next State.target s path k) x_start w,
          omega arith,
        )
    | inr later ↦
        let (_, how) = t.traced x n e in
        ⊎_elim (λ s. both_ways (≡→== x start s) later)
          (λ (y, m, c, p, step, at, le).
            let up = ok.ascends y x c step in
            let (rest, j, found, walk, near) =
              trace_returns rounds l t y m at (omega arith) (x ∷ path) (c + k)
                (c, step, k, refl, w) in
            (rest, j, rw (later, p) found, walk, omega arith))
          how
  ]
