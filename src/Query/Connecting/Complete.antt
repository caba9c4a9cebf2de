-- ===== src/Query/Connecting/Complete.antt =====
-- `connecting_tree` as a whole.
use mathlib.Core.List.Memᴰ
use data_ontology_graph.Prelude.{
  ◌≤◌, suc, arith, length-map, length-sorted_by, length-to_set-le, length_of_distinct,
  IsDistinct-to_set, IsDistinct-sorted_itself, ℕ, ◌<◌, Text, List, [], ◌∷◌, length, to_set,
  Memᴰ-to_set, sorted_by, Memᴰ-sorted_by, Memᴰ, IsDistinct, ◌≡◌, ◌⊎◌, refl, sym, ap, ◌∙◌, subst,
  inl, inr, ⊎_elim, Option, none, some, nat_order, list_order,
}
use data_ontology_graph.Prelude.Options.{◌>>=◌}
use data_ontology_graph.Query.Paths.Traced.{some_injective}
use data_ontology_graph.Query.Connecting.{Candidate, Entry}
use data_ontology_graph.Query.Connecting.Spanning.{Linked, IsSpanning}
use data_ontology_graph.Query.Connecting.Apart.{AreApart, affordable}
use data_ontology_graph.Query.Connecting.Spans.{spanning_boundaries_returns}
use data_ontology_graph.Query.Connecting.Regions.{
  Adjacency, Regions, ordered, Tree, read_boundaries, Status, ConnectingTree, finish,
  all_boundaries, connecting_tree,
}
use data_ontology_graph.Query.Connecting.Grown.{keys, IsGrown, IsBoundary}
use data_ontology_graph.Query.Connecting.Levels.{IsIncident}
use data_ontology_graph.Query.Connecting.Reached.{
  ordered-cases, candidates-among, AllCovered, Ended, grown,
}
use data_ontology_graph.Query.Connecting.Trees.{
  Joined, Reaches, Joined-more, IsClosed, WidensBy, IsRead, Joined-in_region, read_boundaries_lem,
}

-- without a bound on the cost no entry is left out
affordable-none : (entries : List Entry) → affordable none entries ≡ entries
affordable-none [] = refl
affordable-none (e ∷ entries) = ap (◌∷◌ e) (affordable-none entries)

module _ (adjacency : Adjacency) (terminals : List Text) (s : Regions)
    (g : IsGrown adjacency terminals s) where
  -- Regions that chosen boundaries link are joined in a tree that the boundaries were read into.
  linked-Joined :
      (t : Tree)
      → IsClosed adjacency terminals s g t
      → (chosen : List Entry) → ((e : Entry) → Memᴰ e chosen → IsBoundary adjacency s e)
      → ((e : Entry) → Memᴰ e chosen → IsRead adjacency terminals s g t e)
      → {x y : Text} → Linked chosen x y
      → Joined adjacency t.edge_ids x y
  linked-Joined t c chosen bounds read Linked.stay = Joined.stay
  linked-Joined t c chosen bounds read (Linked.back l) =
      Joined.back (linked-Joined t c chosen bounds read l)
  linked-Joined t c chosen bounds read (Linked.chain l l') =
      Joined.chain (linked-Joined t c chosen bounds read l)
        (linked-Joined t c chosen bounds read l')
  linked-Joined t c chosen bounds read (Linked.across {entry} m) =
      let (x, y, e, r, r', edge, o, o', pair, ends_, id) = bounds entry m in
      let (known, left, right) = read entry m in
      let (x_in, y_in) : Memᴰ x t.nodes × Memᴰ y t.nodes =
        ⊎_elim
          (λ same.
            let q = ends_ ∙ same in
            (
              Memᴰ.cast (sym (ap (λ (p : Text × Text). p.0) q)) left,
              Memᴰ.cast (sym (ap (λ (p : Text × Text). p.1) q)) right,
            ))
          (λ turned.
            let q = ends_ ∙ turned in
            (
              Memᴰ.cast (sym (ap (λ (p : Text × Text). p.1) q)) right,
              Memᴰ.cast (sym (ap (λ (p : Text × Text). p.0) q)) left,
            ))
          (ordered-cases x y) in
      let across_ =
        Joined.chain (Joined.back (Joined-in_region adjacency terminals s g t c x r o x_in)) (
          Joined.chain (Joined.cross edge (Memᴰ.cast (sym id) known))
            (Joined-in_region adjacency terminals s g t c y r' o' y_in)) in
      ⊎_elim
        (λ same.
          subst (λ (p : Text × Text). Joined adjacency t.edge_ids p.0 p.1) (sym (pair ∙ same))
            across_)
        (λ turned.
          subst (λ (p : Text × Text). Joined adjacency t.edge_ids p.0 p.1) (sym (pair ∙ turned))
            (Joined.back across_))
        (ordered-cases r r')

  pair_linked : (pair : Text × Text) → Memᴰ pair (keys s) → Linked s.candidates pair.0 pair.1
  pair_linked pair m =
      let (e, at, q) = Memᴰ.of_map (λ (e : Entry). e.0) s.candidates m in
      subst (λ (p : Text × Text). Linked s.candidates p.0 p.1) q (Linked.across at)

  -- Where every edge of an owned dataset is covered, what is reached from a terminal belongs to a
  -- region that the candidates link to it.
  reached_linked :
      ((x r : Text) → s.owner x ≡ some r → AllCovered adjacency terminals s x)
      → {x y : Text} → Reaches adjacency x y
      → Memᴰ x terminals
      → (r : Text) × (s.owner y ≡ some r) × Linked s.candidates x r
  reached_linked covered {x} Reaches.here m = (x, (g.rooted x m).0, Linked.stay)
  reached_linked covered {x} (Reaches.along {y} {z} {e} l edge) m =
      let (r, o, linked) = reached_linked covered l m in
      let (r1, r2, o1, o2, how) = covered y r o e z edge in
      let same = some_injective (sym o ∙ o1) in
      (
        r2,
        o2,
        ⊎_elim (λ q. subst (Linked s.candidates x) (same ∙ q) linked)
            (λ key.
              let step = pair_linked (ordered r1 r2) key in
              let forward : Linked s.candidates r1 r2 =
                ⊎_elim (λ q. subst (λ (p : Text × Text). Linked s.candidates p.0 p.1) q step)
                  (λ q.
                    Linked.back (subst (λ (p : Text × Text). Linked s.candidates p.0 p.1) q step))
                  (ordered-cases r1 r2) in
              Linked.chain (subst (Linked s.candidates x) same linked) forward)
            how,
      )

abbrev sort : List Text → List Text
sort ids = sorted_by (λ id. id) (to_set ids)

sorted_mem :
    (ids : List Text) (id : Text)
    → (Memᴰ id (sort ids) → Memᴰ id ids) × (Memᴰ id ids → Memᴰ id (sort ids))
sorted_mem ids id =
    let (down, up) = Memᴰ-sorted_by (λ (i : Text). i) id (to_set ids) in
    let (from, to) = Memᴰ-to_set id ids in ((λ m. from (down m)), λ m. up (to m))

-- Every two of the datasets are joined by the edges, of which there is at most one less than
-- datasets: none of the edges can be spared, and there is no cycle.
abbrev pub IsTree : Adjacency → ConnectingTree → Type 0
IsTree adjacency tree =
    IsDistinct tree.node_ids
    × IsDistinct tree.edge_ids
    × (suc (length tree.edge_ids) ≤ length tree.node_ids)
    × ((x y : Text)
        → Memᴰ x tree.node_ids
        → Memᴰ y tree.node_ids
        → Joined adjacency tree.edge_ids x y)

-- a tree that joins the terminals, or two terminals that no edges join
abbrev pub IsOutcome : Adjacency → List Text → ConnectingTree → Type 0
IsOutcome adjacency terminals tree =
    ((tree.status ≡ Status.completed)
      × ((t : Text) → Memᴰ t terminals → Memᴰ t tree.node_ids)
      × IsTree adjacency tree)
    ⊎ ((tree.status ≡ Status.disconnected)
        × ((one : Text) × (other : Text) × Memᴰ one terminals
            × Memᴰ other terminals
            × (¬ Reaches adjacency one other)))

sort-IsDistinct : (ids : List Text) → IsDistinct (sort ids)
sort-IsDistinct ids = IsDistinct-sorted_itself (to_set ids) (IsDistinct-to_set ids)

length-sort-le : (ids : List Text) → length (sort ids) ≤ length ids
length-sort-le ids =
    omega (arith, length-sorted_by (λ (id : Text). id) (to_set ids), length-to_set-le ids)

length-sort : (ids : List Text) → IsDistinct ids → length (sort ids) ≡ length ids
length-sort ids d =
    omega (arith, length-sorted_by (λ (id : Text). id) (to_set ids), length_of_distinct ids d)

module _ (adjacency : Adjacency) (terminals : List Text) (s : Regions)
    (g : IsGrown adjacency terminals s) where
  start-IsClosed : IsClosed adjacency terminals s g (record { nodes = terminals; edge_ids = [] })
  start-IsClosed = record {
    leads = λ x m. ((x, (g.rooted x m).0), inl m);
    has_terminals = λ x m. m;
  }

  -- A spanning tree of the regions with the ways back has one edge less than datasets, at most.
  counted :
      (t : Tree) (boundaries : List Candidate) (max_cost : Option ℕ)
      (spanning : IsSpanning terminals max_cost s.candidates boundaries)
      → IsDistinct terminals
      → WidensBy adjacency terminals s g
          (length spanning.chosen)
          (record { nodes = terminals; edge_ids = [] })
          t
      → suc (length (sort t.edge_ids)) ≤ length (sort t.nodes)
  counted t boundaries max_cost spanning d wider =
      let size =
        ap length spanning.are_boundaries ∙ length-map (λ (e : Entry). e.1) spanning.chosen in
      omega (
        arith,
        size,
        spanning.one_less,
        wider.balance,
        length-sort-le t.edge_ids,
        length-sort t.nodes (wider.distinct d),
      )

  finished :
      (boundaries : List Candidate) (max_cost : Option ℕ)
      → IsDistinct terminals
      → IsSpanning terminals max_cost s.candidates boundaries
      → (tree : ConnectingTree) × (finish adjacency terminals s (some boundaries) ≡ some tree)
        × IsOutcome adjacency terminals tree
  finished boundaries max_cost d spanning =
      let bounds =
        λ (e : Entry) (m : Memᴰ e spanning.chosen). g.bounded e (spanning.from_candidates e m).0 in
      let (t, e, closed, wider, read) =
        read_boundaries_lem adjacency terminals s g spanning.chosen
          (record { nodes = terminals; edge_ids = [] }) bounds start-IsClosed in
      let e' =
        ap (read_boundaries s (record { nodes = terminals; edge_ids = [] })) spanning.are_boundaries
        ∙ e in
      (
        record { status = Status.completed; node_ids = sort t.nodes; edge_ids = sort t.edge_ids },
        rw e' refl,
        inl (
          refl,
          (λ x m. (sorted_mem t.nodes x).1 (closed.has_terminals x m)),
          (
            sort-IsDistinct t.nodes,
            sort-IsDistinct t.edge_ids,
            counted t boundaries max_cost spanning d wider,
            λ x y mx my.
                let x_in = (sorted_mem t.nodes x).0 mx in
                let y_in = (sorted_mem t.nodes y).0 my in
                let ((r, o), _) = closed.leads x x_in in
                let ((r', o'), _) = closed.leads y y_in in
                let (known, _) = g.owned x r o in
                let (known', _) = g.owned y r' o' in
                Joined-more (λ id m. (sorted_mem t.edge_ids id).1 m)
                  (Joined.chain (Joined-in_region adjacency terminals s g t closed x r o x_in) (
                    Joined.chain
                      (linked-Joined adjacency terminals s g t closed spanning.chosen bounds read
                        (spanning.linked r r' known known'))
                      (Joined.back
                        (Joined-in_region adjacency terminals s g t closed y r' o' y_in)))),
          ),
        ),
      )

  apart :
      ((x r : Text) → s.owner x ≡ some r → AllCovered adjacency terminals s x)
      → AreApart terminals none s.candidates
      → IsOutcome adjacency terminals
          (record { status = Status.disconnected; node_ids = terminals; edge_ids = [] })
  apart covered a = inr (
    refl,
    (
      a.one,
      a.other,
      a.is_one,
      a.is_other,
      λ reaches.
          let (r, o, linked) = reached_linked adjacency terminals s g covered reaches a.is_one in
          let own = some_injective (sym o ∙ (g.rooted a.other a.is_other).0) in
          a.unlinked (
            subst (λ entries. Linked entries a.one a.other) (sym (affordable-none s.candidates))
              (subst (Linked s.candidates a.one) own linked)),
    ),
  )

  Ended-IsOutcome :
      IsDistinct terminals
      → 1 < length terminals
      → (early : Option (List Candidate)) → Ended adjacency terminals s early
      → (tree : ConnectingTree) × ((all_boundaries adjacency terminals s early >>= λ boundaries.
            finish adjacency terminals s boundaries)
          ≡ some tree)
        × IsOutcome adjacency terminals tree
  Ended-IsOutcome d several (some boundaries) ended =
      let (max_cost, spanning) = ended.spans boundaries refl in
      finished boundaries max_cost d spanning
  Ended-IsOutcome d several none ended =
      let (found, e, how) =
        spanning_boundaries_returns terminals none s.candidates d
          (candidates-among adjacency terminals s g) several in
      ⊎_elim (λ (boundaries, q, spanning). rw (e, q) (finished boundaries none d spanning))
        (λ (q, a).
          rw (e, q)
            (
              record { status = Status.disconnected; node_ids = terminals; edge_ids = [] },
              refl,
              apart (ended.all_covered refl) a,
            ))
        how

-- For two or more different terminals, and edges that touch the dataset that they are listed under,
-- the search returns. Either it completes with a set of datasets that contains every terminal and
-- with a tree on it: its edges join every two of the datasets and are fewer than these. Or it answers
-- that the terminals are disconnected, and then some terminal cannot be reached from another along any
-- edges.
pub connecting_tree_returns :
    (adjacency : Adjacency) (terminals : List Text)
    → IsIncident adjacency
    → IsDistinct terminals
    → 1 < length terminals
    → (tree : ConnectingTree) × (connecting_tree adjacency terminals ≡ some tree)
      × IsOutcome adjacency terminals tree
unfolding connecting_tree
connecting_tree_returns adjacency terminals incident d several =
    let (s, early, e, ended) = grown adjacency terminals incident d several in
    rw e (Ended-IsOutcome adjacency terminals s ended.is_grown d several early ended)
