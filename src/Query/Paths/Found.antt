-- ===== src/Query/Paths/Found.antt =====
-- What Yen's algorithm has found at each point, and that it returns.
use mathlib.Core.List.Memᴰ
use data_ontology_graph.Prelude.{
  ◌⊎◌, ℕ, zero, suc, ◌+◌, ◌-◌, ◌≤◌, Text, List, [], ◌∷◌, ◌++◌, Bool, false, true, has_duplicates,
  has_duplicates_iff, not, ◌||◌, ltb, map, length, length-append, contains, not-contains,
  Bool-cases, ◌≡◌, refl, sym, ap, ◌∙◌, subst, inl, inr, ⊎_elim, Memᴰ, Memᴰ-map, Memᴰ-snoc,
  Memᴰ-insert_by, IsDistinct, IsDistinct-insert, IsDistinct-snoc, Option, none, some, arith,
  insert_by, nat_order, list_order, pair_order, triple_order,
}
use data_ontology_graph.Prelude.Options.{◌>>=◌}
use data_ontology_graph.Model.Enums.{Multiplicity}
use data_ontology_graph.Query.Paths.{
  State, state_order, PathGraph, Without, edge_count, is_simple, definitions_of,
}
use data_ontology_graph.Query.Paths.Traced.{Walk}
use data_ontology_graph.Query.Paths.Nearest.{IsAnswer}
use data_ontology_graph.Query.Paths.Bounds.{IsBounded}
use data_ontology_graph.Query.Paths.Universe.{shortest_lem}
use data_ontology_graph.Query.Paths.Ranked.{
  IsPath, IsRoot, IsRoot-source, IsRoot-longer, Walk-whole, Walk-edge_count, Walk-ids, whole,
  within, edge_count-append,
}
use data_ontology_graph.Query.Paths.Yen.{
  Yen, Candidate, shortest, without, consider, branch, branches, yen_loop, edge_ids,
}

abbrev path_of : Candidate → List State
path_of c = c.2

module _ (g : PathGraph) (h : IsBounded g) (from to : Text) (allowed : Option (List Multiplicity))
    (max_edges : ℕ) (first : List State) where
  abbrev Good : List State → Type 0
  Good path = IsPath g h from to allowed max_edges path

  -- only the first path may come to a definition twice
  abbrev IsOnce : List State → Type 0
  IsOnce path = (path ≡ first) ⊎ IsDistinct (definitions_of path)

  abbrev Leads : List (List State) → Type 0
  Leads found = (rest : List (List State)) × (found ≡ first ∷ rest)

  pub record IsYen (y : Yen) : Type 0 where
    pub found_paths : (path : List State) → Memᴰ path y.found → Good path
    pub candidate_paths : (c : Candidate) → Memᴰ c y.candidates → Good c.2
    pub previous_path : Good y.previous
    pub found_once : (path : List State) → Memᴰ path y.found → IsOnce path
    pub candidates_once : (c : Candidate) → Memᴰ c y.candidates → IsDistinct (definitions_of c.2)
    pub leads : Leads y.found
    pub found_seen : (path : List State) → Memᴰ path y.found → Memᴰ path y.seen
    pub candidates_seen : (c : Candidate) → Memᴰ c y.candidates → Memᴰ c.2 y.seen
    pub found_distinct : IsDistinct y.found
    pub candidates_distinct : IsDistinct (map (λ c. c.2) y.candidates)
    pub apart : (c : Candidate) → Memᴰ c y.candidates → ¬ Memᴰ c.2 y.found

  -- what a step on the candidates leaves as it is
  abbrev Kept : Yen → Option Yen → Type 0
  Kept y outcome = (y' : Yen) × (outcome ≡ some y') × IsYen y' × (y'.found ≡ y.found)

  simple_of :
      (path : List State) → is_simple path ≡ true → has_duplicates (definitions_of path) ≡ false
  unfolding is_simple
  simple_of path e = ground arith

  consider_lem :
      (y : Yen) (path : List State)
      → IsYen y
      → Good path
      → Kept y (consider g from to allowed max_edges y path)
  unfolding consider
  consider_lem y path k (rest, e, walk, le) =
      elim (Bool-cases (contains y.seen path || not (is_simple path))) [
        | inl skip ↦ (y, rw skip, k, refl)
        | inr new ↦
            let unseen : contains y.seen path ≡ false = ground arith in
            let once : IsDistinct (definitions_of path) =
              (has_duplicates_iff (definitions_of path)).0 (simple_of path (ground arith)) in
            let fresh = not-contains y.seen path unseen in
            let (ids, known) =
              Walk-ids g h from to allowed State.target State.source rest (edge_count path) walk in
            let known' = ap (edge_ids g) e ∙ known in
            let entry : Candidate = (edge_count path, ids, path) in
            let cases =
              λ (c : Candidate). (Memᴰ-insert_by (λ (c : Candidate). c) c entry y.candidates).0 in
            (
              record y { seen = path ∷ y.seen; candidates = insert_by (λ c. c) entry y.candidates },
              rw (new, known'),
              record {
                found_paths = k.found_paths;
                candidate_paths = λ c m.
                    ⊎_elim (λ q. subst (λ (c : Candidate). Good c.2) (sym q) (rest, e, walk, le))
                      (k.candidate_paths c) (cases c m);
                previous_path = k.previous_path;
                found_once = k.found_once;
                candidates_once = λ c m.
                    ⊎_elim
                      (λ q. subst (λ (c : Candidate). IsDistinct (definitions_of c.2)) (sym q) once)
                      (k.candidates_once c) (cases c m);
                leads = k.leads;
                found_seen = λ p m. Memᴰ.tail (k.found_seen p m);
                candidates_seen = λ c m.
                    ⊎_elim (λ q. Memᴰ.head (ap path_of q)) (λ t. Memᴰ.tail (k.candidates_seen c t))
                      (cases c m);
                found_distinct = k.found_distinct;
                candidates_distinct =
                    IsDistinct-insert (λ (c : Candidate). c) path_of entry y.candidates
                      (λ m.
                        let (c, at, q) = (Memᴰ-map path_of path y.candidates).0 m in
                        fresh (Memᴰ.cast (sym q) (k.candidates_seen c at)))
                      k.candidates_distinct;
                apart = λ c m n.
                    ⊎_elim (λ q. fresh (k.found_seen path (Memᴰ.cast (sym (ap path_of q)) n)))
                      (λ t. k.apart c t n) (cases c m);
              },
              refl,
            )
      ]

  branch_lem :
      (y : Yen) (before : List State) (x : State)
      → IsYen y
      → IsRoot g h from to allowed before x
      → Kept y (branch g from to allowed max_edges y before x)
  unfolding branch shortest
  branch_lem y before x k r = elim (Bool-cases (ltb max_edges (edge_count (before ++ x ∷ [])))) [
    | inl over ↦ (y, rw over, k, refl)
    | inr fits ↦ rw fits (
        answered (without g from to allowed max_edges y before x)
          (max_edges - edge_count (before ++ x ∷ [])) (ground arith)
          (shortest_lem g h from to allowed x r.inside
            (without g from to allowed max_edges y before x)
            (max_edges - edge_count (before ++ x ∷ []))))
  ]
    where
      answered :
          (w : Without) (budget : ℕ)
          → edge_count (before ++ x ∷ []) + budget ≤ max_edges
          → IsAnswer
              (within g h from to allowed w)
              x
              budget
              (shortest g from to allowed x w (some budget))
          → Kept y (
              shortest g from to allowed x w (some budget) >>= λ spur. elim spur [
                | none ↦ some y
                | some path ↦ consider g from to allowed max_edges y (before ++ path)
              ])
      answered w budget room (inl (e, _)) = rw e (y, refl, k, refl)
      answered w budget room (inr (path, e, (n, walk, le, _))) =
          let whole_walk = Walk-whole g h from to allowed w State.target x path n walk in
          let (rest, q, full) = r.completes path n whole_walk in
          let count = Walk-edge_count g h from to allowed State.target x path n whole_walk in
          let split : edge_count (before ++ x ∷ path) ≡ edge_count (before ++ x ∷ []) + n = omega (
            arith,
            count,
            edge_count-append before (x ∷ path),
            edge_count-append (x ∷ []) path,
            edge_count-append before (x ∷ []),
          ) in
          rw e (
            consider_lem y (before ++ x ∷ path) k (
              rest,
              q,
              subst (Walk (whole g h from to allowed) State.target State.source rest) (omega arith)
                  full,
              omega arith,
            ))

  branches_lem :
      (y : Yen) (before : List State) (rest : List State) (x : State) (n : ℕ)
      → IsYen y
      → IsRoot g h from to allowed before x
      → Walk (whole g h from to allowed) State.target x rest n
      → Kept y (branches g from to allowed max_edges y before (x ∷ rest))
  unfolding branches
  branches_lem y before [] x n k r walk = (y, refl, k, refl)
  branches_lem y before (z ∷ rest) x n k r (c, at, m, _, walk) =
      let (y1, e1, k1, f1) = branch_lem y before x k r in
      let (y2, e2, k2, f2) =
        branches_lem y1 (before ++ x ∷ []) rest z m k1
          (IsRoot-longer g h from to allowed before x z c r at) walk in
      (y2, rw e1 e2, k2, f2 ∙ f1)

  abbrev Found : ℕ → Option (List (List State)) → Type 0
  Found most outcome =
      (found : List (List State)) × (outcome ≡ some found)
      × ((path : List State) → Memᴰ path found → Good path)
      × IsDistinct found
      × Leads found
      × ((path : List State) → Memᴰ path found → IsOnce path)
      × (length found ≤ most)

  pop_candidate :
      (y : Yen) (k : IsYen y) (c : Candidate) (cs : List Candidate)
      → y.candidates ≡ c ∷ cs
      → IsYen
          (record { found = y.found ++ c.2 ∷ []; previous = c.2; candidates = cs; seen = y.seen })
  pop_candidate y k c cs e =
      let inside =
        λ (d : Candidate) (m : Memᴰ d cs). subst (λ ds. Memᴰ d ds) (sym e) (Memᴰ.tail m) in
      let here = subst (λ ds. Memᴰ c ds) (sym e) (Memᴰ.head refl) in
      let distinct =
        subst (λ (ds : List Candidate). IsDistinct (map path_of ds)) e k.candidates_distinct in
      let good = k.candidate_paths c here in
      record {
        found_paths = λ path m.
            ⊎_elim (k.found_paths path) (λ q. subst Good (sym q) good)
              ((Memᴰ-snoc path c.2 y.found).0 m);
        candidate_paths = λ d m. k.candidate_paths d (inside d m);
        previous_path = good;
        found_once = λ path m.
            ⊎_elim (k.found_once path)
              (λ q.
                inr (subst (λ p. IsDistinct (definitions_of p)) (sym q) (k.candidates_once c here)))
              ((Memᴰ-snoc path c.2 y.found).0 m);
        candidates_once = λ d m. k.candidates_once d (inside d m);
        leads = (k.leads.0 ++ c.2 ∷ [], ap (λ ps. ps ++ c.2 ∷ []) k.leads.1);
        found_seen = λ path m.
            ⊎_elim (k.found_seen path) (λ q. Memᴰ.cast q (k.candidates_seen c here))
              ((Memᴰ-snoc path c.2 y.found).0 m);
        candidates_seen = λ d m. k.candidates_seen d (inside d m);
        found_distinct = IsDistinct-snoc c.2 y.found k.found_distinct (k.apart c here);
        candidates_distinct = distinct.1;
        apart = λ d m n.
            ⊎_elim (k.apart d (inside d m))
              (λ q. distinct.0 (Memᴰ.cast (sym q) (Memᴰ.map path_of m)))
              ((Memᴰ-snoc d.2 c.2 y.found).0 n);
      }

  -- what a round does with the candidates
  abbrev next_round : ℕ → (ℕ → Bool) → Yen → List Candidate → Option (List (List State))
  next_round rounds cancelled y candidates = elim candidates [
    | [] ↦ some y.found
    | c ∷ cs ↦
        yen_loop g from to allowed max_edges rounds cancelled
          (record { found = y.found ++ c.2 ∷ []; previous = c.2; candidates = cs; seen = y.seen })
  ]

  next_round_lem :
      (rounds : ℕ) (cancelled : ℕ → Bool)
      → ((y : Yen)
          → IsYen y
          → Found
              (length y.found + rounds)
              (yen_loop g from to allowed max_edges rounds cancelled y))
      → (y : Yen) → IsYen y
      → (candidates : List Candidate) → y.candidates ≡ candidates
      → Found (length y.found + suc rounds) (next_round rounds cancelled y candidates)
  next_round_lem rounds cancelled again y k [] e =
      (y.found, refl, k.found_paths, k.found_distinct, k.leads, k.found_once, omega arith)
  next_round_lem rounds cancelled again y k (c ∷ cs) e =
      let (found, e', good, distinct, leads, once, most) =
        again
          (record { found = y.found ++ c.2 ∷ []; previous = c.2; candidates = cs; seen = y.seen })
          (pop_candidate y k c cs e) in
      (found, e', good, distinct, leads, once, omega (arith, length-append y.found (c.2 ∷ [])))

  pub yen_loop_lem :
      (rounds : ℕ) (cancelled : ℕ → Bool) (y : Yen)
      → IsYen y
      → Found (length y.found + rounds) (yen_loop g from to allowed max_edges rounds cancelled y)
  unfolding yen_loop
  yen_loop_lem zero cancelled y k =
      (y.found, refl, k.found_paths, k.found_distinct, k.leads, k.found_once, omega arith)
  yen_loop_lem (suc rounds) cancelled y k =
      let (rest, e, walk, _) = k.previous_path in
      let (y1, e1, k1, f1) =
        branches_lem y [] rest State.source (edge_count y.previous) k
          (IsRoot-source g h from to allowed) walk in
      let all = ap (branches g from to allowed max_edges y []) e ∙ e1 in
      let same = ap (λ (ps : List (List State)). length ps) f1 in
      elim (Bool-cases (cancelled (length y.found))) [
        | inl stop ↦
            rw (yen_loop, stop)
              (y.found, refl, k.found_paths, k.found_distinct, k.leads, k.found_once, omega arith)
        | inr on ↦
            rw (yen_loop, on, all)
              (subst (λ n. Found (n + suc rounds) (next_round rounds cancelled y1 y1.candidates))
                same
                (next_round_lem rounds cancelled (yen_loop_lem rounds cancelled) y1 k1 y1.candidates
                  refl))
      ]
