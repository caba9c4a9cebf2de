-- ===== src/Query/Paths/Complete.antt =====
-- What `PathGraph.k_shortest` of query/paths.py lists: paths of the graph, all different, in order,
-- a shortest one among them.
use mathlib.Core.List.Memᴰ
use data_ontology_graph.Prelude.{
  ◌⊎◌, ℕ, zero, suc, ◌≤◌, Text, List, [], ◌∷◌, Bool, map, length, take, ltb, ◌≡◌, ◌≢◌, refl, sym,
  ap, ◌∙◌, subst, false, true, ◌↔◌, ◌<◌, inl, inr, ⊎_elim, Memᴰ, Memᴰ-map, IsDistinct,
  IsDistinct-sorted, Option, some, arith, sorted_by, sorted_by-IsSortedBy, IsSortedBy,
  Memᴰ-sorted_by, length-sorted_by, length-map, nat_order, list_order, pair_order, triple_order,
}
use data_ontology_graph.Prelude.Options.{◌>>=◌}
use data_ontology_graph.Model.Enums.{Multiplicity}
use data_ontology_graph.Model.Definition.{DefinitionKey}
use data_ontology_graph.Model.Dataset.{DatasetNode}
use data_ontology_graph.Model.Relationship.{JoinRelationship}
use data_ontology_graph.Query.Paths.{
  State, PathGraph, nothing, path_graph, successors, edge_count, edge_pairs, definitions_of,
}
use data_ontology_graph.Query.Paths.Traced.{Walk}
use data_ontology_graph.Query.Paths.Nearest.{IsAnswer, NoWalk}
use data_ontology_graph.Query.Paths.Bounds.{IsBounded}
use data_ontology_graph.Query.Paths.Universe.{path_graph-IsBounded, shortest_lem}
use data_ontology_graph.Query.Paths.Ranked.{IsPath, Walk-edge_count, Walk-ids}
use data_ontology_graph.Query.Paths.Found.{IsYen, yen_loop_lem}
use data_ontology_graph.Query.Paths.Yen.{
  Candidate, edge_ids, shortest, keyed, by_rank, yen_loop, ranked_paths, search_paths, k_shortest,
}

Memᴰ-take {ℓ} : {A : Type ℓ} (n : ℕ) (xs : List A) (x : A) → Memᴰ x (take n xs) → Memᴰ x xs
Memᴰ-take zero xs x m = absurd (Memᴰ.not-nil m)
Memᴰ-take (suc n) [] x m = m
Memᴰ-take (suc n) (y ∷ xs) x m =
    ⊎_elim Memᴰ.head (λ t. Memᴰ.tail (Memᴰ-take n xs x t)) (Memᴰ.cases_cons m)

IsDistinct-take {ℓ} : {A : Type ℓ} (n : ℕ) (xs : List A) → IsDistinct xs → IsDistinct (take n xs)
IsDistinct-take zero xs d = tt
IsDistinct-take (suc n) [] d = tt
IsDistinct-take (suc n) (x ∷ xs) d = ((λ m. d.0 (Memᴰ-take n xs x m)), IsDistinct-take n xs d.1)

length-take {ℓ} : {A : Type ℓ} (n : ℕ) (xs : List A) → n < length xs → length (take n xs) ≡ n
length-take zero xs lt = refl
length-take (suc n) [] lt = omega arith
length-take (suc n) (x ∷ xs) lt = omega (arith, length-take n xs (omega arith))

length-take-le {ℓ} : {A : Type ℓ} (n : ℕ) (xs : List A) → length (take n xs) ≤ n
length-take-le zero xs = omega arith
length-take-le (suc n) [] = omega arith
length-take-le (suc n) (x ∷ xs) = omega (arith, length-take-le n xs)

abbrev path_of : Candidate → List State
path_of c = c.2

module _ (g : PathGraph) (h : IsBounded g) (from to : Text) (allowed : Option (List Multiplicity))
    (max_edges : ℕ) where
  abbrev Good : List State → Type 0
  Good path = IsPath g h from to allowed max_edges path

  -- the entry has its path's rank
  abbrev IsRanked : Candidate → Type 0
  IsRanked c = (c.0 ≡ edge_count c.2) × (edge_ids g c.2 ≡ some c.1)

  keyed_lem :
      (paths : List (List State))
      → ((path : List State) → Memᴰ path paths → Good path)
      → (entries : List Candidate) × (keyed g from to allowed max_edges paths ≡ some entries)
        × (map path_of entries ≡ paths)
        × ((c : Candidate) → Memᴰ c entries → IsRanked c)
  keyed_lem [] good = ([], refl, refl, λ c m. absurd (Memᴰ.not-nil m))
  keyed_lem (path ∷ paths) good =
      let (rest, e, walk, _) = good path (Memᴰ.head refl) in
      let (ids, known) =
        Walk-ids g h from to allowed State.target State.source rest (edge_count path) walk in
      let known' = ap (edge_ids g) e ∙ known in
      let (entries, e', same, ranked) = keyed_lem paths (λ p m. good p (Memᴰ.tail m)) in
      let entry : Candidate = (edge_count path, ids, path) in
      (
        entry ∷ entries,
        rw (known', e'),
        ap (λ ps. path ∷ ps) same,
        λ c m. ⊎_elim (λ q. subst IsRanked (sym q) (refl, known')) (ranked c) (Memᴰ.cases_cons m),
      )

  -- at most `k` different paths, by their edge counts and then their edge IDs
  abbrev pub IsRanking : ℕ → List (List State) → Type 0
  IsRanking k paths =
      ((path : List State) → Memᴰ path paths → Good path)
      × IsDistinct paths
      × (length paths ≤ k)
      × ((entries : List Candidate) × (paths ≡ map (λ c. c.2) entries)
          × ((c : Candidate) → Memᴰ c entries → IsRanked c)
          × IsSortedBy (by_rank g from to allowed max_edges) entries)

  abbrev rank : Candidate → ℕ × List (Text × DefinitionKey)
  rank = by_rank g from to allowed max_edges

  ranked_paths_lem :
      (k : ℕ) (found : List (List State))
      → ((path : List State) → Memᴰ path found → Good path)
      → IsDistinct found
      → (paths : List (List State)) × (ranked_paths g from to allowed max_edges k found
          ≡ some (paths, ltb k (length found)))
        × IsRanking k paths
        × (length paths ≡ length (take k found))
        × ((path : List State) → Memᴰ path paths ↔ Memᴰ path (take k found))
  unfolding ranked_paths
  ranked_paths_lem k found good distinct =
      let (entries, e, same, ranked) =
        keyed_lem (take k found) (λ p m. good p (Memᴰ-take k found p m)) in
      let size : length (map path_of (sorted_by rank entries)) ≡ length (take k found) =
        length-map path_of (sorted_by rank entries)
        ∙ (length-sorted_by rank entries
            ∙ (sym (length-map path_of entries)
                ∙ ap (λ (ps : List (List State)). length ps) same)) in
      (
        map path_of (sorted_by rank entries),
        rw e,
        (
          (λ path m. good path (Memᴰ-take k found path ((among entries same path).0 m))),
          IsDistinct-sorted rank path_of entries
              (subst IsDistinct (sym same) (IsDistinct-take k found distinct)),
          omega (arith, size, length-take-le k found),
          (
            sorted_by rank entries,
            refl,
            (λ c m. ranked c ((Memᴰ-sorted_by rank c entries).0 m)),
            sorted_by-IsSortedBy rank entries,
          ),
        ),
        size,
        among entries same,
      )
    where
      among :
          (entries : List Candidate)
          → map path_of entries ≡ take k found
          → (path : List State)
          → Memᴰ path (map path_of (sorted_by rank entries)) ↔ Memᴰ path (take k found)
      among entries same path = (
        (λ m.
            let (c, at, q) = (Memᴰ-map path_of path (sorted_by rank entries)).0 m in
            let inside = Memᴰ.map path_of ((Memᴰ-sorted_by rank c entries).0 at) in
            Memᴰ.cast (sym q) (subst (λ ps. Memᴰ c.2 ps) same inside)),
        (λ m.
            let (c, at, q) =
              (Memᴰ-map path_of path entries).0 (subst (λ ps. Memᴰ path ps) (sym same) m) in
            Memᴰ.cast (sym q) (Memᴰ.map path_of ((Memᴰ-sorted_by rank c entries).1 at))),
      )

  abbrev pub whole : State → List (State × ℕ)
  whole = successors g from to allowed nothing

  -- no walk is short enough, or a shortest one is listed and the others come to no definition twice
  abbrev pub IsLed : List (List State) → Type 0
  IsLed paths =
      ((paths ≡ []) × NoWalk whole State.source max_edges)
      ⊎ ((first : List State) × Memᴰ first paths
          × ((other : List State) (n : ℕ)
              → Walk whole State.target State.source other n
              → edge_count first ≤ n)
          × ((path : List State)
              → Memᴰ path paths
              → (path ≡ first) ⊎ IsDistinct (definitions_of path)))

  -- what the search returns
  abbrev pub IsListing : ℕ → Option (List (List State) × Bool) → Type 0
  IsListing k outcome =
      (paths : List (List State)) × (more : Bool) × (outcome ≡ some (paths, more))
      × IsRanking k paths
      × (more ≡ true → length paths ≡ k)
      × (k ≢ 0 → IsLed paths)

  listed :
      (k : ℕ) (cancelled : ℕ → Bool) (path : List State)
      → Good path
      → ((other : List State) (n : ℕ)
          → Walk whole State.target State.source other n
          → edge_count path ≤ n)
      → IsListing k (
          yen_loop g from to allowed max_edges k cancelled
            (record { found = path ∷ []; previous = path; candidates = []; seen = path ∷ [] })
          >>= ranked_paths g from to allowed max_edges k)
  listed k cancelled path good shortest_path =
      let (found, e, all_good, distinct, (rest, led), once, _) =
        yen_loop_lem g h from to allowed max_edges path k cancelled _ start in
      let (paths, e', ranking, size, same) = ranked_paths_lem k found all_good distinct in
      (
        paths,
        ltb k (length found),
        rw (e, e'),
        ranking,
        (λ more. size ∙ length-take k found (ground arith)),
        λ positive. inr (
          path,
          (same path).1 (subst (λ ps. Memᴰ path (take k ps)) (sym led) (taken k rest positive)),
          shortest_path,
          λ p m. once p (Memᴰ-take k found p ((same p).0 m)),
        ),
      )
    where
      start :
          IsYen g h from to allowed max_edges path
            (record { found = path ∷ []; previous = path; candidates = []; seen = path ∷ [] })
      start = record {
        found_paths = λ p m. subst Good (sym (Memᴰ.eq_of_singleton m)) good;
        candidate_paths = λ c m. absurd (Memᴰ.not-nil m);
        previous_path = good;
        found_once = λ p m. inl (Memᴰ.eq_of_singleton m);
        candidates_once = λ c m. absurd (Memᴰ.not-nil m);
        leads = ([], refl);
        found_seen = λ p m. m;
        candidates_seen = λ c m. absurd (Memᴰ.not-nil m);
        found_distinct = ((λ m. Memᴰ.not-nil m), tt);
        candidates_distinct = tt;
        apart = λ c m. absurd (Memᴰ.not-nil m);
      }

      taken : (n : ℕ) (xs : List (List State)) → n ≢ 0 → Memᴰ path (take n (path ∷ xs))
      taken zero xs n0 = absurd (n0 refl)
      taken (suc n) xs n0 = Memᴰ.head refl

  search_paths_lem :
      (k : ℕ) (cancelled : ℕ → Bool)
      → IsListing k (search_paths g from to allowed max_edges k cancelled)
  unfolding search_paths edge_count
  search_paths_lem k cancelled =
      answered (shortest_lem g h from to allowed State.source tt nothing max_edges)
    where
      answered :
          IsAnswer whole State.source max_edges
            (shortest g from to allowed State.source nothing (some max_edges))
          → IsListing k (search_paths g from to allowed max_edges k cancelled)
      answered (inl (e, no_walk)) =
          rw (search_paths, e)
            (
              [],
              false,
              refl,
              (
                (λ p m. absurd (Memᴰ.not-nil m)),
                tt,
                omega arith,
                ([], refl, (λ c m. absurd (Memᴰ.not-nil m)), tt),
              ),
              (λ e. cc),
              λ _. inl (refl, no_walk),
            )
      answered (inr (rest, e, (n, walk, le, least))) =
          let count = Walk-edge_count g h from to allowed State.target State.source rest n walk in
          rw (search_paths, e)
            (listed k cancelled (State.source ∷ rest)
              (
                rest,
                refl,
                subst (Walk whole State.target State.source rest) (sym count) walk,
                omega arith,
              )
              (λ other m w. omega (arith, count, least other m w)))

-- In a graph built from datasets and their relationships `k_shortest` returns whatever is asked
-- for. What it lists is at most `k` lists of edge pairs, read off different walks from the start
-- dataset to the target dataset, each along steps of the graph and within the number of edges,
-- ascending by edge count and then edge IDs. It says that there are more only when it lists `k`.
-- If `k` is not zero, either no walk is short enough and none is listed, or a walk with the fewest
-- edges is listed and every other one listed comes to no definition twice.
pub k_shortest_returns :
    (nodes : List DatasetNode) (relationships : List JoinRelationship) (g : PathGraph)
    (built : path_graph nodes relationships ≡ some g) (from to : Text)
    (allowed : Option (List Multiplicity)) (max_edges k : ℕ) (cancelled : ℕ → Bool)
    → (paths : List (List State)) × (more : Bool) × (k_shortest g from to allowed max_edges k
          cancelled
        ≡ some (map edge_pairs paths, more))
      × IsRanking g
          (path_graph-IsBounded nodes relationships built)
          from
          to
          allowed
          max_edges
          k
          paths
      × (more ≡ true → length paths ≡ k)
      × (k ≢ 0
          → IsLed g
              (path_graph-IsBounded nodes relationships built)
              from
              to
              allowed
              max_edges
              paths)
unfolding k_shortest
k_shortest_returns nodes relationships g built from to allowed max_edges k cancelled =
    let (paths, more, e, ranking, full, led) =
      search_paths_lem g (path_graph-IsBounded nodes relationships built) from to allowed max_edges
        k cancelled in
    (paths, more, rw e, ranking, full, led)
