-- ===== src/Query/Connecting/Levels.antt =====
-- One level of the search: its edges are covered, and each dataset that it reaches is new.
use mathlib.Core.List.Memᴰ
use data_ontology_graph.Prelude.{
  ℕ, ◌+◌, ◌≤◌, Text, List, [], ◌∷◌, length, length-append, Bool-cases, both_ways, Memᴰ, Memᴰ-snoc,
  ◌≡◌, ◌⊎◌, refl, sym, ap, ◌∙◌, subst, inl, inr, ⊎_elim, Option, none, some, ◌==◌, ==→≡, ≡→==,
  arith, nat_order, list_order,
}
use data_ontology_graph.Prelude.Maps.{put, put-same, put-other}
use data_ontology_graph.Model.Relationship.{JoinRelationship}
use data_ontology_graph.Query.Paths.Traced.{some_injective}
use data_ontology_graph.Query.Connecting.Regions.{
  Adjacency, neighbours, across, Regions, ordered, meet, grow_edge, grow_edges, grow_level, ends,
}
use data_ontology_graph.Query.Connecting.Unowned.{unowned, unowned-lt, neighbour_end}
use data_ontology_graph.Query.Connecting.Grown.{
  IsEdge, keys, IsGrown, Extends, Extends-refl, Extends-trans, claimed, claimed-Extends,
  claimed-IsGrown, met, met-Extends, met_key, met-IsGrown,
}

-- Every edge that is listed under a dataset touches it.
abbrev pub IsIncident : Adjacency → Type 0
IsIncident adjacency =
    (x : Text) (e : JoinRelationship)
    → Memᴰ e (neighbours adjacency x)
    → (y : Text) × (across e x ≡ some y)

-- The edge stays in a region, or its two regions are a pair of candidates.
abbrev pub IsCovered : Regions → Text → Text → Type 0
IsCovered s x y =
    (region : Text) × (other_region : Text) × (s.owner x ≡ some region)
    × (s.owner y ≡ some other_region)
    × ((region ≡ other_region) ⊎ Memᴰ (ordered region other_region) (keys s))

pub IsCovered-kept :
    (s s' : Regions) (x y : Text) → Extends s s' → IsCovered s x y → IsCovered s' x y
IsCovered-kept s s' x y h (r, r', o, o', how) =
    (r, r', h.owner_kept x r o, h.owner_kept y r' o', ⊎_elim inl (λ m. inr (h.keys_kept _ m)) how)

module _ (adjacency : Adjacency) (terminals : List Text) where
  -- what growing from `s` at a level gives
  pub record Grows (level : ℕ) (s s' : Regions) : Type 0 where
    pub is_grown : IsGrown adjacency terminals s'
    pub extends : Extends s s'
    pub reached :
        (x region : Text)
        → s'.owner x ≡ some region
        → ((r : Text) × (s.owner x ≡ some r)) ⊎ Memᴰ x s'.following
    pub waiting :
        (x : Text)
        → Memᴰ x s'.following
        → Memᴰ x s.following
          ⊎ ((s'.distance x ≡ some (level + 1)) × ((r : Text) × (s'.owner x ≡ some r)))
    pub kept_waiting : (x : Text) → Memᴰ x s.following → Memᴰ x s'.following
    pub fewer :
        unowned s'.owner (ends adjacency) + length s'.following
        ≤ unowned s.owner (ends adjacency) + length s.following

  Grows-refl : (level : ℕ) (s : Regions) → IsGrown adjacency terminals s → Grows level s s
  Grows-refl level s g = record {
    is_grown = g;
    extends = Extends-refl s;
    reached = λ x r o. inl (r, o);
    waiting = λ x m. inl m;
    kept_waiting = λ x m. m;
    fewer = omega arith;
  }

  Grows-trans : (level : ℕ) (s t u : Regions) → Grows level s t → Grows level t u → Grows level s u
  Grows-trans level s t u a b = record {
    is_grown = b.is_grown;
    extends = Extends-trans s t u a.extends b.extends;
    reached = λ x r o.
        ⊎_elim (λ (r', o'). ⊎_elim inl (λ m. inr (b.kept_waiting x m)) (a.reached x r' o')) inr
          (b.reached x r o);
    waiting = λ x m.
        ⊎_elim
          (λ n.
            ⊎_elim inl
              (λ (d, (r, o)).
                inr (b.extends.distance_kept x r o ∙ d, (r, b.extends.owner_kept x r o)))
              (a.waiting x n))
          inr (b.waiting x m);
    kept_waiting = λ x m. b.kept_waiting x (a.kept_waiting x m);
    fewer = omega (arith, a.fewer, b.fewer);
  }

  module _ (level : ℕ) (current region : Text) (incident : IsIncident adjacency) where
    -- The edge is covered afterwards.
    grow_edge_lem :
        (s : Regions) (e : JoinRelationship)
        → IsGrown adjacency terminals s
        → Memᴰ e (neighbours adjacency current)
        → s.owner current ≡ some region
        → s.distance current ≡ some level
        → (s' : Regions) × (grow_edge level current s e ≡ some s')
          × Grows level s s'
          × ((y : Text) → across e current ≡ some y → IsCovered s' current y)
    unfolding grow_edge meet
    grow_edge_lem s e g listed here at =
        let (other, to) = incident current e listed in by_owner other to (s.owner other) refl
      where
        by_owner :
            (other : Text) (to : across e current ≡ some other) (found : Option Text)
            → s.owner other ≡ found
            → (s' : Regions) × (grow_edge level current s e ≡ some s')
              × Grows level s s'
              × ((y : Text) → across e current ≡ some y → IsCovered s' current y)
        by_owner other to none free =
            let edge : IsEdge adjacency e current other = (listed, to) in
            (
              claimed adjacency terminals s g e current other region edge here level at free,
              rw (grow_edge, to, here, free) refl,
              record {
                is_grown =
                    claimed-IsGrown adjacency terminals s g e current other region edge here level
                      at free;
                extends =
                    claimed-Extends adjacency terminals s g e current other region edge here level
                      at free;
                reached = λ x r o. elim (Bool-cases (x == other)) [
                  | inl same ↦ inr ((Memᴰ-snoc x other s.following).1 (inr (==→≡ x other same)))
                  | inr apart ↦ inl (
                    r,
                    sym (
                          put-other s.owner other x (some region)
                            (λ q. both_ways {P = ⊥} (≡→== x other q) apart))
                        ∙ o,
                  )
                ];
                waiting = λ x m.
                    ⊎_elim inl
                      (λ q. inr (
                        ap (put s.distance other (some (level + 1))) q
                            ∙ put-same s.distance other _,
                        (region, ap (put s.owner other (some region)) q ∙ put-same s.owner other _),
                      ))
                      ((Memᴰ-snoc x other s.following).0 m);
                kept_waiting = λ x m. (Memᴰ-snoc x other s.following).1 (inl m);
                fewer = omega (
                  arith,
                  length-append s.following (other ∷ []),
                  unowned-lt s.owner other region (ends adjacency) free
                      (neighbour_end adjacency current other e listed to),
                );
              },
              λ y to'.
                  let y_other = some_injective (sym to ∙ to') in
                  (
                    region,
                    region,
                    (claimed-Extends adjacency terminals s g e current other region edge here level
                          at free).owner_kept
                        current region here,
                    subst (λ z. put s.owner other (some region) z ≡ some region) y_other
                        (put-same s.owner other (some region)),
                    inl refl,
                  ),
            )
        by_owner other to (some other_region) there = elim (Bool-cases (other_region == region)) [
          | inl same ↦ (
            s,
            rw (grow_edge, to, here, there, meet, same) refl,
            Grows-refl level s g,
            λ y to'. (
              region,
              other_region,
              here,
              ap s.owner (sym (some_injective (sym to ∙ to'))) ∙ there,
              inl (sym (==→≡ other_region region same)),
            ),
          )
          | inr apart ↦
              let edge : IsEdge adjacency e current other = (listed, to) in
              let (_, (d, known, _)) = g.owned other other_region there in
              (
                met adjacency terminals s g e current other region edge here other_region there
                    level d,
                rw (grow_edge, to, here, there, meet, apart, at, known) refl,
                record {
                  is_grown =
                      met-IsGrown adjacency terminals s g e current other region edge here
                        other_region there level d;
                  extends =
                      met-Extends adjacency terminals s g e current other region edge here
                        other_region there level d;
                  reached = λ x r o. inl (r, o);
                  waiting = λ x m. inl m;
                  kept_waiting = λ x m. m;
                  fewer = omega arith;
                },
                λ y to'. (
                  region,
                  other_region,
                  here,
                  ap s.owner (sym (some_injective (sym to ∙ to'))) ∙ there,
                  inr (
                      met_key adjacency terminals s g e current other region edge here other_region
                        there level d),
                ),
              )
        ]

    grow_edges_lem :
        (edges : List JoinRelationship) (s : Regions)
        → IsGrown adjacency terminals s
        → ((e : JoinRelationship) → Memᴰ e edges → Memᴰ e (neighbours adjacency current))
        → s.owner current ≡ some region
        → s.distance current ≡ some level
        → (s' : Regions) × (grow_edges level current s edges ≡ some s')
          × Grows level s s'
          × ((e : JoinRelationship) (y : Text)
              → Memᴰ e edges
              → across e current ≡ some y
              → IsCovered s' current y)
    unfolding grow_edges
    grow_edges_lem [] s g inside here at =
        (s, refl, Grows-refl level s g, λ e y m. absurd (Memᴰ.not-nil m))
    grow_edges_lem (e ∷ edges) s g inside here at =
        let (s1, e1, g1, c1) = grow_edge_lem s e g (inside e (Memᴰ.head refl)) here at in
        let (s2, e2, g2, c2) =
          grow_edges_lem edges s1 g1.is_grown (λ f m. inside f (Memᴰ.tail m))
            (g1.extends.owner_kept current region here)
            (g1.extends.distance_kept current region here ∙ at) in
        (
          s2,
          rw e1 e2,
          Grows-trans level s s1 s2 g1 g2,
          λ f y m to.
              ⊎_elim
                (λ q.
                  IsCovered-kept s1 s2 current y g2.extends
                    (c1 y (ap (λ h. across h current) (sym q) ∙ to)))
                (λ t. c2 f y t to) (Memᴰ.cases_cons m),
        )

  -- After a level every edge of its datasets is covered.
  pub grow_level_lem :
      (level : ℕ) (incident : IsIncident adjacency) (frontier : List Text) (s : Regions)
      → IsGrown adjacency terminals s
      → ((x : Text)
          → Memᴰ x frontier
          → ((r : Text) × (s.owner x ≡ some r)) × (s.distance x ≡ some level))
      → (s' : Regions) × (grow_level adjacency terminals level s frontier ≡ some s')
        × Grows level s s'
        × ((x : Text) (e : JoinRelationship) (y : Text)
            → Memᴰ x frontier
            → IsEdge adjacency e x y
            → IsCovered s' x y)
  unfolding grow_level
  grow_level_lem level incident [] s g at =
      (s, refl, Grows-refl level s g, λ x e y m. absurd (Memᴰ.not-nil m))
  grow_level_lem level incident (current ∷ frontier) s g at =
      let ((region, here), d) = at current (Memᴰ.head refl) in
      let (s1, e1, g1, c1) =
        grow_edges_lem level current region incident (neighbours adjacency current) s g (λ e m. m)
          here d in
      let (s2, e2, g2, c2) = grow_level_lem level incident frontier s1 g1.is_grown (λ x m.
        let ((r, o), dx) = at x (Memᴰ.tail m) in
        ((r, g1.extends.owner_kept x r o), g1.extends.distance_kept x r o ∙ dx)) in
      (
        s2,
        rw e1 e2,
        Grows-trans level s s1 s2 g1 g2,
        λ x e y m edge.
            ⊎_elim
              (λ q.
                let same = subst (λ z. IsEdge adjacency e z y) q edge in
                subst (λ z. IsCovered s2 z y) (sym q)
                  (IsCovered-kept s1 s2 current y g2.extends (c1 e y same.0 same.1)))
              (λ t. c2 x e y t edge) (Memᴰ.cases_cons m),
      )
