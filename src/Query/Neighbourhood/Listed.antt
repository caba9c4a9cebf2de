-- ===== src/Query/Neighbourhood/Listed.antt =====
-- `expand`: the datasets that the cap keeps, and the directed edges that are listed.
use mathlib.Core.List.Memᴰ
use data_ontology_graph.Prelude.{
  ℕ, ◌<◌, Text, List, ◌∷◌, ◌++◌, Bool, true, false, arith, ◌≡◌, sym, ap, subst, map, select, ltb,
  Option, none, some, if◌then◌else◌, Memᴰ, Memᴰ-select, Memᴰ-take, inr, Memᴰ-map, Memᴰ-flat_map,
  Memᴰ-append, contains, contains_iff, inr, nat_order, list_order, pair_order,
}
use data_ontology_graph.Query.Neighbourhood.{
  DirectedEdge, EdgeGroup, EdgesByDataset, group_edges, selected_datasets, groups_of, expand,
  targets_of,
}
use data_ontology_graph.Query.Neighbourhood.Groups.{Run, runs, within, summarize, group_edges-eq}
use data_ontology_graph.Query.Neighbourhood.Whole.{edges_of, runs-edges}

Memᴰ-within :
    (e : DirectedEdge) (limit : Option ℕ) (es : List DirectedEdge)
    → Memᴰ e (within limit es)
    → Memᴰ e es
Memᴰ-within e none es m = m
Memᴰ-within e (some n) es m = Memᴰ-take e n es m

Memᴰ-run :
    (r : Run) (rs : List Run) (e : DirectedEdge)
    → Memᴰ r rs
    → Memᴰ e (r.0 ∷ r.1)
    → Memᴰ e (edges_of rs)
Memᴰ-run r rs e m inside = (Memᴰ-flat_map (λ (x : Run). x.0 ∷ x.1) e rs).1 (r, m, inside)

-- A listed edge is one of the edges, and is wanted.
listed_edge :
    (limit : Option ℕ) (listed : DirectedEdge → Bool) (es : List DirectedEdge) (g : EdgeGroup)
    (e : DirectedEdge)
    → Memᴰ g (group_edges limit listed es)
    → Memᴰ e g.edges
    → Memᴰ e es × (listed e ≡ true)
listed_edge limit listed es g e m inside =
    let (r, at, same) =
      (Memᴰ-map (summarize limit listed) g (runs es)).0
        (subst (Memᴰ g) (group_edges-eq limit listed es) m) in
    let kept = Memᴰ-within e limit _ (subst (λ x. Memᴰ e x.edges) (sym same) inside) in
    let (of_run, wanted) = (Memᴰ-select listed e (r.0 ∷ r.1)).0 kept in
    (subst (Memᴰ e) (runs-edges es) (Memᴰ-run r (runs es) e at of_run), wanted)

module _ (edges : EdgesByDataset) (allowed : DirectedEdge → Bool) (seeds : List Text)
    (depth : ℕ) where
  -- Every listed directed edge is an allowed one of the dataset it is listed for, that dataset is
  -- nearer than the depth, and the edge's target is one of the returned datasets.
  pub expand-listed :
      (limit max_nodes : Option ℕ) (referenced_only : Bool) (u : Text) (gs : List EdgeGroup)
      (g : EdgeGroup) (e : DirectedEdge)
      → Memᴰ (u, gs) (expand edges allowed seeds depth max_nodes limit referenced_only).groups
      → Memᴰ g gs
      → Memᴰ e g.edges
      → Memᴰ e (edges u)
        × (allowed e ≡ true)
        × ((d : ℕ) × Memᴰ (u, d) (selected_datasets edges allowed seeds depth max_nodes)
            × (d < depth))
        × Memᴰ e.target.node_id (
            map
              (λ (p : Text × ℕ). p.0)
              (expand edges allowed seeds depth max_nodes limit referenced_only).datasets)
  unfolding expand groups_of
  expand-listed limit max_nodes referenced_only u gs g e at in_gs in_g =
      let (p, chosen, same) = (Memᴰ-map _ (u, gs) _).0 at in
      let same_u : p.0 ≡ u = ap (λ (x : Text × List EdgeGroup). x.0) same in
      let same_gs = ap (λ (x : Text × List EdgeGroup). x.1) same in
      let (m, wanted) =
        listed_edge limit _ (select allowed (edges p.0)) g e (subst (Memᴰ g) (sym same_gs) in_gs)
          in_g in
      let (of_p, open_) = (Memᴰ-select allowed e (edges p.0)).0 m in
      let (selected, near) = (Memᴰ-select (λ (q : Text × ℕ). ltb q.1 depth) p _).0 chosen in
      (
        subst (λ n. Memᴰ e (edges n)) same_u of_p,
        open_,
        (p.1, subst (λ n. Memᴰ (n, p.1) chosen_datasets) same_u selected, ground arith),
        returned referenced_only
            ((contains_iff (map (λ q. q.0) chosen_datasets) e.target.node_id).0 wanted)
            ((Memᴰ-flat_map _ e.target.node_id groups).1 (
              (u, gs),
              at,
              (Memᴰ-flat_map _ e.target.node_id gs).1
                  (g, in_gs, Memᴰ.map (λ (x : DirectedEdge). x.target.node_id) in_g),
            )),
      )
    where
      chosen_datasets : List (Text × ℕ)
      chosen_datasets = selected_datasets edges allowed seeds depth max_nodes

      groups : List (Text × List EdgeGroup)
      groups = groups_of edges allowed depth limit chosen_datasets

      referenced : List Text
      referenced = seeds ++ targets_of groups

      returned :
          (only : Bool)
          → Memᴰ e.target.node_id (map (λ (q : Text × ℕ). q.0) chosen_datasets)
          → Memᴰ e.target.node_id (targets_of groups)
          → Memᴰ e.target.node_id (
              map
                (λ (q : Text × ℕ). q.0)
                (if only
                  then select (λ q. contains referenced q.0) chosen_datasets
                  else chosen_datasets))
      returned false m t = m
      returned true m t =
          let (q, at, same) =
            (Memᴰ-map (λ (q : Text × ℕ). q.0) e.target.node_id chosen_datasets).0 m in
          let named = (contains_iff referenced q.0).1 (
            subst (λ n. Memᴰ n referenced) (sym same)
              ((Memᴰ-append _ seeds (targets_of groups)).1 (inr t))) in
          Memᴰ.cast (sym same) (
            Memᴰ.map (λ (x : Text × ℕ). x.0)
              ((Memᴰ-select (λ x. contains referenced x.0) q chosen_datasets).1 (at, named)))
