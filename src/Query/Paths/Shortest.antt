-- ===== src/Query/Paths/Shortest.antt =====
-- A search returns within its rounds, and what it returns is a nearest walk to the target.
use mathlib.Core.List.{foldl}
use mathlib.Core.List.Memᴰ
use data_ontology_graph.Prelude.{
  ℕ, zero, suc, ◌+◌, ◌*◌, ◌≤◌, ◌<◌, ◌≡◌, ◌≢◌, inl, inr, ⊎_elim, refl, sym, ap, ◌∙◌, subst, List, [],
  ◌∷◌, Bool-cases, both_ways, Memᴰ, contains, contains_iff, not-contains, Option, none, some, ◌==◌,
  ==→≡, ≡→==, true, false, arith, length, nat_order,
}
use data_ontology_graph.Prelude.Options.{◌>>=◌}
use data_ontology_graph.Prelude.Maps.{put, put-same, put-other}
use data_ontology_graph.Query.Paths.{State, state_order}
use data_ontology_graph.Query.Paths.Search.{
  Labels, relax, trace, start_labels, expand_state, search_loop, shortest_within, rounds_for,
}
use data_ontology_graph.Query.Paths.Traced.{some_injective}
use data_ontology_graph.Query.Paths.Frontier.{IsRelaxed, total}
use data_ontology_graph.Query.Paths.Expanded.{Held, measure, fold-Held}
use data_ontology_graph.Query.Paths.Nearest.{IsStepping, IsAnswer, trace_returns}
use data_ontology_graph.Query.Paths.Popped.{
  IsSearching, leads_out, no_walk, popped-IsTraced, popped-inside, popped-IsOpen, skip-IsSearching,
  IsLeast, pop,
}

module _ (next : State → List (State × ℕ)) (states : List State) (ok : IsStepping next states)
    (start : State) (budget : ℕ) where
  module _ (done : List State) (k : ℕ) (l : Labels)
      (s : IsSearching next states start budget done k l) (x : State) (rest : List State)
      (e : l.queue ≡ x ∷ rest) (apart : ¬ Memᴰ x done) (k' : ℕ)
      (least : IsLeast next states start budget done k l s x rest e k') where
    abbrev pub expanded : Labels
    expanded = foldl (relax x k' budget) (record l { queue = rest }) (next x)

    -- the labels before the first successor is relaxed
    before :
        Held next start budget ok.costs states ok.closed
          (x ∷ done)
          x
          k'
          (measure budget states (record l { queue = rest }))
          (record l { queue = rest })
    before = record {
      is_traced = popped-IsTraced next states start budget done k l s x rest e;
      here = least.0;
      front = least.1;
      is_open =
          popped-IsOpen next states start budget done k l s x rest e (x ∷ done) (λ z m. Memᴰ.tail m)
            (Memᴰ.head refl);
      inside = popped-inside next states start budget done k l s x rest e;
      settled = λ z m other.
          ⊎_elim (λ same. absurd (other same)) (λ t. s.settled z t) (Memᴰ.cases_cons m);
      spent = omega arith;
    }

    pub expanded-IsSearching :
        x ≢ State.target
        → IsSearching next states start budget (x ∷ done) k' expanded
          × (measure budget states expanded ≤ measure budget states (record l { queue = rest }))
    expanded-IsSearching other =
        let known = s.inside x (subst (λ q. Memᴰ x q) (sym e) (Memᴰ.head refl)) in
        let (h, relaxed, _) =
          fold-Held next start budget ok.costs states ok.closed (x ∷ done) x k'
            (measure budget states (record l { queue = rest })) known (next x)
            (record l { queue = rest }) (λ y c m. m) before in
        (
          record {
            is_traced = h.is_traced;
            front = h.front;
            is_open = h.is_open;
            inside = h.inside;
            settled = λ z m a d y c step. elim (Bool-cases (z == x)) [
              | inl same ↦
                  let z_x = ==→≡ z x same in
                  let a_k = some_injective (sym d ∙ (ap expanded.distance z_x ∙ h.here)) in
                  subst (λ n. IsRelaxed budget expanded (n + c) y) (sym a_k)
                    (relaxed y c (subst (λ q. Memᴰ (y, c) (next q)) z_x step))
              | inr differs ↦
                  h.settled z m (λ q. both_ways {P = ⊥} (≡→== z x q) differs) a d y c step
            ];
            no_target = λ m. ⊎_elim (λ q. other (sym q)) s.no_target (Memᴰ.cases_cons m);
          },
          h.spent,
        )

  -- One round, given that the rounds left suffice for the state after it.
  module _ (rounds : ℕ)
      (again : (done : List State) (k : ℕ) (l : Labels)
        → IsSearching next states start budget done k l
        → measure budget states l < rounds
        → IsAnswer next start budget (search_loop next start budget rounds done l))
      (done : List State) (k : ℕ) (l : Labels) (s : IsSearching next states start budget done k l)
      (enough : measure budget states l < suc rounds) where
    at_target :
        (x : State) (rest : List State) (e : l.queue ≡ x ∷ rest)
        → (k' : ℕ) → IsLeast next states start budget done k l s x rest e k'
        → x ≡ State.target
        → IsAnswer next start budget
            (trace (2 * budget + 2) l.previous start State.target [] >>= λ path. some (some path))
    at_target x rest e k' least is_target =
        let here = sym (ap l.distance is_target) ∙ least.0 in
        let (within, _) = s.is_traced.traced State.target k' here in
        let (path, m, found, walk, le) =
          trace_returns next states ok start budget (2 * budget + 2) l s.is_traced State.target k'
            here (omega arith) [] 0 (refl, refl) in
        inr (
          path,
          rw found,
          (
            m,
            walk,
            omega arith,
            λ other n w.
                let far =
                  leads_out next states start budget done k l s k' (omega arith) least.2 start 0
                    s.is_traced.at_start other n w in
                omega arith,
          ),
        )

    -- what a round does with the queue
    abbrev after : List State → Option (Option (List State))
    after queue = elim queue [
      | [] ↦ some none
      | x ∷ rest ↦ elim (contains done x) [
        | true ↦ search_loop next start budget rounds done (record l { queue = rest })
        | false ↦ elim (x == State.target) [
          | true ↦
              trace (2 * budget + 2) l.previous start State.target [] >>= λ path. some (some path)
          | false ↦ expand_state next start budget l x rest >>= λ l'.
              search_loop next start budget rounds (x ∷ done) l'
        ]
      ]
    ]

    round :
        (queue : List State)
        → l.queue ≡ queue
        → IsAnswer next start budget (search_loop next start budget (suc rounds) done l)
    unfolding search_loop expand_state
    round [] e =
        subst (λ q. IsAnswer next start budget (after q)) (sym e)
          (inl (refl, no_walk next states start budget done k l s e))
    round (x ∷ rest) e =
        let shorter = ap length e in
        subst (λ q. IsAnswer next start budget (after q)) (sym e)
          (elim (Bool-cases (contains done x)) [
            | inl old ↦
                rw (after, old)
                  (again done k (record l { queue = rest })
                    (skip-IsSearching next states start budget done k l s x rest e
                      ((contains_iff done x).0 old))
                    (omega arith))
            | inr new ↦
                let (k', least) =
                  pop next states start budget done k l s x rest e (not-contains done x new) in
                elim (Bool-cases (x == State.target)) [
                  | inl found ↦
                      rw (after, new, found)
                        (at_target x rest e k' least (==→≡ x State.target found))
                  | inr other ↦
                      let (s', le) =
                        expanded-IsSearching done k l s x rest e (not-contains done x new) k' least
                          (λ q. both_ways (≡→== x State.target q) other) in
                      rw (after, new, other, least.0)
                        (again (x ∷ done) k'
                          (expanded done k l s x rest e (not-contains done x new) k' least) s'
                          (omega arith))
                ]
          ])

  search_loop_lem :
      (rounds : ℕ) (done : List State) (k : ℕ) (l : Labels)
      → IsSearching next states start budget done k l
      → measure budget states l < rounds
      → IsAnswer next start budget (search_loop next start budget rounds done l)
  search_loop_lem zero done k l s enough = absurd (omega arith)
  search_loop_lem (suc rounds) done k l s enough =
      round rounds (search_loop_lem rounds) done k l s enough l.queue refl

  total-start-le : (xs : List State) → total budget (start_labels start) xs ≤ length xs * suc budget
  unfolding put
  total-start-le [] = omega arith
  total-start-le (x ∷ xs) = elim (Bool-cases (x == start)) [
    | inl same ↦ rw same (grind (arith, total-start-le xs))
    | inr other ↦ rw other (grind (arith, total-start-le xs))
  ]

  at_first : Memᴰ start states → IsSearching next states start budget [] 0 (start_labels start)
  at_first known = record {
    is_traced = record {
      at_start = put-same (λ x. none) start (some 0);
      queued = λ x m. (
        0,
        ap (put (λ z. none) start (some 0)) (Memᴰ.eq_of_singleton m) ∙ put-same (λ z. none) start _,
      );
      traced = λ x n e. elim (Bool-cases (x == start)) [
        | inl same ↦
            let x_start = ==→≡ x start same in
            let n_0 = some_injective (
              sym (put-same (λ z. none) start (some 0))
              ∙ (sym (ap (put (λ z. none) start (some 0)) x_start) ∙ e)) in
            (omega arith, inl x_start)
        | inr other ↦ absurd (only_start x n e other)
      ];
    };
    front = (
      start ∷ [],
      [],
      record {
        split = refl;
        near_at = λ x m apart.
            ap (put (λ z. none) start (some 0)) (Memᴰ.eq_of_singleton m)
            ∙ put-same (λ z. none) start _;
        far_at = λ x m. absurd (Memᴰ.not-nil m);
        done_at = λ x m. absurd (Memᴰ.not-nil m);
      },
    );
    is_open = λ x n e apart. elim (Bool-cases (x == start)) [
      | inl same ↦ Memᴰ.head (==→≡ x start same)
      | inr other ↦ absurd (only_start x n e other)
    ];
    inside = λ x m. Memᴰ.cast (Memᴰ.eq_of_singleton m) known;
    settled = λ x m. absurd (Memᴰ.not-nil m);
    no_target = λ m. Memᴰ.not-nil m;
  }
    where
      only_start :
          (x : State) (n : ℕ) → put (λ z. none) start (some 0) x ≡ some n → (x == start) ≡ false → ⊥
      only_start x n e other =
          let unlabelled : State → Option ℕ = λ z. none in
          let apart =
            put-other unlabelled start x (some 0) (λ q. both_ways {P = ⊥} (≡→== x start q) other) in
          cc (e, apart)

  -- The rounds for as many states as can be labelled are enough.
  pub shortest_within_lem :
      (count : ℕ)
      → length states ≤ count
      → Memᴰ start states
      → IsAnswer next start budget (shortest_within next start budget (rounds_for count budget))
  unfolding shortest_within
  shortest_within_lem count le known =
      search_loop_lem (rounds_for count budget) [] 0 (start_labels start) (at_first known)
        (bounded count le (total-start-le states))
    where
      bounded :
          (n : ℕ)
          → length states ≤ n
          → total budget (start_labels start) states ≤ length states * suc budget
          → measure budget states (start_labels start) < rounds_for n budget
      bounded n small t = grind arith
