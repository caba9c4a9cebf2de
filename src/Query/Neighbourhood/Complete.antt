-- ===== src/Query/Neighbourhood/Complete.antt =====
-- `expand`: what `truncated` tells, and which datasets and directed edges a neighbourhood has.
use mathlib.Core.List.Memᴰ
use data_ontology_graph.Prelude.{
  ℕ, suc, ◌<◌, Text, List, [], ◌∷◌, Bool, true, false, ◌||◌, arith, ◌≡◌, refl, ap, ◌∙◌, subst, ◌↔◌,
  map, length, select, any, ltb, Option, none, some, Memᴰ, Memᴰ-select, Memᴰ-map, Memᴰ-sorted_by,
  length-sorted_by, contains_iff, sorted_by, nat_order, list_order, pair_order,
}
use data_ontology_graph.Query.Neighbourhood.{
  DirectedEdge, EdgeGroup, EdgesByDataset, Neighbourhood, truncated, distances, by_distance, capped,
  selected_datasets, groups_of, expand,
}
use data_ontology_graph.Query.Neighbourhood.Rounds.{step}
use data_ontology_graph.Query.Neighbourhood.Distances.{distances_iff, distances_of_walk}
use data_ontology_graph.Query.Neighbourhood.Groups.{runs}
use data_ontology_graph.Query.Neighbourhood.Whole.{
  whole, take-all, group_edges-whole, group_edges-unlimited, whole-untruncated,
}

map-agree {ℓ κ} :
    {A : Type ℓ} {B : Type κ} (f g : A → B) (xs : List A)
    → ((x : A) → Memᴰ x xs → f x ≡ g x)
    → map f xs ≡ map g xs
map-agree f g [] h = refl
map-agree f g (x ∷ xs) h =
    ap (λ y. y ∷ map f xs) (h x (Memᴰ.head refl))
    ∙ ap (◌∷◌ (g x)) (map-agree f g xs (λ y m. h y (Memᴰ.tail m)))

any_at {ℓ} :
    {A : Type ℓ} (p : A → Bool) (xs : List A) {x : A} → any p xs ≡ false → Memᴰ x xs → p x ≡ false
any_at p [] h m = elim m [ ]
any_at p (y ∷ xs) h (Memᴰ.head e) = ground (arith, ap p e)
any_at p (y ∷ xs) h (Memᴰ.tail m) = any_at p xs (ground arith) m

none_of {ℓ} :
    {A : Type ℓ} (p : A → Bool) (xs : List A)
    → ((x : A) → Memᴰ x xs → p x ≡ false)
    → any p xs ≡ false
none_of p [] h = refl
none_of p (x ∷ xs) h = ground (arith, h x (Memᴰ.head refl), none_of p xs (λ y m. h y (Memᴰ.tail m)))

first_of : (a b : Bool) → (a || b) ≡ false → a ≡ false
first_of a b h = ground arith

second_of : (a b : Bool) → (a || b) ≡ false → b ≡ false
second_of a b h = ground arith

module _ (edges : EdgesByDataset) (allowed : DirectedEdge → Bool) (seeds : List Text)
    (depth : ℕ) where
  -- every dataset in reach, ordered
  abbrev ordered : List (Text × ℕ)
  ordered = sorted_by by_distance (distances edges allowed seeds depth)

  abbrev nearer : List (Text × ℕ) → List (Text × ℕ)
  nearer = select (λ p. ltb p.1 depth)

  -- the groups that leave nothing out
  abbrev all_groups : List (Text × List EdgeGroup)
  all_groups = map (λ p. (p.0, map whole (runs (select allowed (edges p.0))))) (nearer ordered)

  target_in_reach :
      (u : Text) (d : ℕ) (e : DirectedEdge)
      → Memᴰ (u, d) ordered
      → d < depth
      → Memᴰ e (edges u)
      → allowed e ≡ true
      → (k : ℕ) × Memᴰ (e.target.node_id, k) ordered
  target_in_reach u d e m less at open_ =
      let (shortest, _) =
        (distances_iff edges allowed seeds depth u d).0
          ((Memᴰ-sorted_by by_distance (u, d) _).0 m) in
      let (k, found) =
        distances_of_walk edges allowed seeds depth e.target.node_id (suc d)
          (step e shortest.walk at open_ refl) (omega arith) in
      (k, (Memᴰ-sorted_by by_distance (e.target.node_id, k) _).1 found)

  groups_of-unlimited : groups_of edges allowed depth none ordered ≡ all_groups
  unfolding groups_of
  groups_of-unlimited = map-agree _ _ (nearer ordered) (λ p m.
      ap (λ gs. (p.0, gs))
        (group_edges-unlimited _ (select allowed (edges p.0)) (λ e inside.
          let (at, open_) = (Memᴰ-select allowed e (edges p.0)).0 inside in
          let (reached, near) = (Memᴰ-select (λ q. ltb q.1 depth) p ordered).0 m in
          let (k, found) = target_in_reach p.0 p.1 e reached (ground arith) at open_ in
          (contains_iff (map (λ q. q.0) ordered) e.target.node_id).1
            (Memᴰ.map (λ (q : Text × ℕ). q.0) found))))

  all_groups-untruncated : any (λ g. any truncated g.1) all_groups ≡ false
  all_groups-untruncated = none_of _ all_groups (λ g m.
      let (p, _, e) = (Memᴰ-map _ g (nearer ordered)).0 m in
      subst (λ x. any truncated x.1 ≡ false) e
        (whole-untruncated (runs (select allowed (edges p.0)))))

  groups_of-whole :
      (limit : Option ℕ)
      → any (λ g. any truncated g.1) (groups_of edges allowed depth limit ordered) ≡ false
      → groups_of edges allowed depth limit ordered ≡ all_groups
  unfolding groups_of
  groups_of-whole limit h = map-agree _ _ (nearer ordered) (λ p m.
      ap (λ gs. (p.0, gs))
        (group_edges-whole limit _ (select allowed (edges p.0))
          (any_at (λ g. any truncated g.1) _ h (Memᴰ.map _ m))))

  capped-all :
      (max_nodes : Option ℕ)
      → ltb (length (capped max_nodes ordered)) (length (distances edges allowed seeds depth))
        ≡ false
      → capped max_nodes ordered ≡ ordered
  capped-all none h = refl
  capped-all (some n) h =
      take-all n ordered
        (ground (arith, length-sorted_by by_distance (distances edges allowed seeds depth)))

  -- Without caps nothing is left out.
  expand-unlimited :
      (referenced_only : Bool)
      → (expand edges allowed seeds depth none none referenced_only).is_truncated ≡ false
  unfolding expand selected_datasets
  expand-unlimited referenced_only =
      rw (groups_of-unlimited, all_groups-untruncated)
        (ground (arith, length-sorted_by by_distance (distances edges allowed seeds depth)))

  -- What is not truncated is the whole neighbourhood.
  expand-unchanged :
      (max_nodes limit : Option ℕ) (referenced_only : Bool)
      → (expand edges allowed seeds depth max_nodes limit referenced_only).is_truncated ≡ false
      → (selected_datasets edges allowed seeds depth max_nodes
          ≡ selected_datasets edges allowed seeds depth none)
        × (expand edges allowed seeds depth max_nodes limit referenced_only
            ≡ expand edges allowed seeds depth none none referenced_only)
  unfolding expand selected_datasets
  expand-unchanged max_nodes limit referenced_only h =
      let same = capped-all max_nodes (first_of _ _ h) in
      let listed = groups_of-whole limit (
        subst
          (λ sel. any (λ g. any truncated g.1) (groups_of edges allowed depth limit sel) ≡ false)
          same (second_of _ _ h)) in
      (same, rw (same, listed, groups_of-unlimited))

  -- A neighbourhood is not marked as truncated if and only if the cap keeps every dataset in reach and
  -- the groups are those of the same expansion without caps. Then the whole result is that of the
  -- expansion without caps.
  pub expand-truncated_iff :
      (max_nodes limit : Option ℕ) (referenced_only : Bool)
      → (((expand edges allowed seeds depth max_nodes limit referenced_only).is_truncated ≡ false)
          ↔ ((selected_datasets edges allowed seeds depth max_nodes
                ≡ selected_datasets edges allowed seeds depth none)
              × ((expand edges allowed seeds depth max_nodes limit referenced_only).groups
                  ≡ (expand edges allowed seeds depth none none referenced_only).groups)))
        × ((expand edges allowed seeds depth max_nodes limit referenced_only).is_truncated ≡ false
            → expand edges allowed seeds depth max_nodes limit referenced_only
              ≡ expand edges allowed seeds depth none none referenced_only)
  unfolding expand selected_datasets
  expand-truncated_iff max_nodes limit referenced_only = (
    (
      λ h. (
        (expand-unchanged max_nodes limit referenced_only h).0,
        ap (λ (n : Neighbourhood). n.groups) (expand-unchanged max_nodes limit referenced_only h).1,
      ),
      λ (same, groups).
          let all_kept = ap (λ (xs : List (Text × ℕ)). ltb (length xs) (length found)) same in
          let none_cut =
            ap (any (λ (g : Text × List EdgeGroup). any truncated g.1))
              (groups ∙ groups_of-unlimited) in
          neither all_kept none_cut,
    ),
    λ h. (expand-unchanged max_nodes limit referenced_only h).1,
  )
    where
      found : List (Text × ℕ)
      found = distances edges allowed seeds depth

      neither :
          {a b : Bool}
          → a ≡ ltb (length ordered) (length found)
          → b ≡ any (λ g. any truncated g.1) all_groups
          → (a || b) ≡ false
      neither {a} {b} e e' =
          ground (arith, e, e', length-sorted_by by_distance found, all_groups-untruncated)
