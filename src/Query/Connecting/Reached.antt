-- ===== src/Query/Connecting/Reached.antt =====
-- The search over levels ends, and then covers every edge of the regions unless it stopped early.
use mathlib.Core.List.Memᴰ
use data_ontology_graph.Prelude.{
  ℕ, zero, suc, ◌+◌, ◌*◌, ◌≤◌, ◌<◌, Text, List, [], ◌∷◌, length, Bool-cases, both_ways, Memᴰ,
  IsDistinct, ◌≡◌, ◌⊎◌, refl, sym, ap, ◌∙◌, subst, inl, inr, ⊎_elim, Option, none, some, ◌==◌, ◌<=◌,
  ==→≡, ≡→==, arith, nat_order, list_order,
}
use data_ontology_graph.Prelude.Maps.{put, put-same, put-other}
use data_ontology_graph.Model.Relationship.{JoinRelationship}
use data_ontology_graph.Query.Paths.Traced.{some_injective}
use data_ontology_graph.Query.Connecting.{Candidate, Entry}
use data_ontology_graph.Query.Connecting.Spanning.{IsSpanning}
use data_ontology_graph.Query.Connecting.Spans.{spanning_boundaries_returns}
use data_ontology_graph.Query.Connecting.Regions.{
  Adjacency, Regions, ordered, seeded, grow_regions, ends,
}
use data_ontology_graph.Query.Connecting.Grown.{IsEdge, IsGrown}
use data_ontology_graph.Query.Connecting.Unowned.{unowned}
use data_ontology_graph.Query.Connecting.Levels.{
  IsIncident, IsCovered, IsCovered-kept, grow_level_lem,
}

pub ordered-cases : (a b : Text) → (ordered a b ≡ (a, b)) ⊎ (ordered a b ≡ (b, a))
ordered-cases a b = elim (Bool-cases (a <= b)) [
  | inl first ↦ inl (rw first refl)
  | inr later ↦ inr (rw later refl)
]

module _ (adjacency : Adjacency) (terminals : List Text) where
  -- both regions of a candidate are terminals
  pub candidates-among :
      (s : Regions)
      → IsGrown adjacency terminals s
      → (e : Entry) → Memᴰ e s.candidates
      → Memᴰ e.0.0 terminals × Memᴰ e.0.1 terminals
  candidates-among s g e m =
      let (x, y, _, r, r', _, o, o', pair, _, _) = g.bounded e m in
      let (known, _) = g.owned x r o in
      let (known', _) = g.owned y r' o' in
      ⊎_elim
        (λ same.
          subst (λ (p : Text × Text). Memᴰ p.0 terminals × Memᴰ p.1 terminals) (sym (pair ∙ same))
            (known, known'))
        (λ turned.
          subst (λ (p : Text × Text). Memᴰ p.0 terminals × Memᴰ p.1 terminals) (sym (pair ∙ turned))
            (known', known))
        (ordered-cases r r')

  -- every edge of the dataset is covered
  abbrev pub AllCovered : Regions → Text → Type 0
  AllCovered s x = (e : JoinRelationship) (y : Text) → IsEdge adjacency e x y → IsCovered s x y

  -- what the search ends with
  pub record Ended (s : Regions) (early : Option (List Candidate)) : Type 0 where
    pub is_grown : IsGrown adjacency terminals s
    pub all_covered : early ≡ none → (x region : Text) → s.owner x ≡ some region → AllCovered s x
    pub spans :
        (boundaries : List Candidate)
        → early ≡ some boundaries
        → (max_cost : Option ℕ) × IsSpanning terminals max_cost s.candidates boundaries

  abbrev Ends : Option (Regions × Option (List Candidate)) → Type 0
  Ends outcome =
      (s : Regions) × (early : Option (List Candidate)) × (outcome ≡ some (s, early))
      × Ended s early

  -- enough rounds for a frontier
  abbrev Suffices : ℕ → Regions → List Text → Type 0
  Suffices rounds s frontier =
      (unowned s.owner (ends adjacency) + 1 < rounds) ⊎ ((frontier ≡ []) × (0 < rounds))

  reset :
      (s : Regions)
      → IsGrown adjacency terminals s
      → IsGrown adjacency terminals (record s { following = [] })
  reset s g = record { rooted = g.rooted; owned = g.owned; bounded = g.bounded }

  next-Suffices :
      (rounds before after : ℕ) (s : Regions) (following : List Text)
      → before + 1 < suc rounds
      → unowned s.owner (ends adjacency) + length following ≤ before
      → Suffices rounds s following
  next-Suffices rounds before after s [] h fewer = inr (refl, omega arith)
  next-Suffices rounds before after s (x ∷ following) h fewer = inl (omega arith)

  module _ (incident : IsIncident adjacency) (d : IsDistinct terminals)
      (several : 1 < length terminals) where
    grow_regions_lem :
        (rounds level : ℕ) (s : Regions) (frontier : List Text)
        → Suffices rounds s frontier
        → IsGrown adjacency terminals s
        → ((x : Text)
            → Memᴰ x frontier
            → ((r : Text) × (s.owner x ≡ some r)) × (s.distance x ≡ some level))
        → ((x r : Text) → s.owner x ≡ some r → Memᴰ x frontier ⊎ AllCovered s x)
        → Ends (grow_regions adjacency terminals rounds level s frontier)
    unfolding grow_regions
    grow_regions_lem zero level s frontier enough g at covered =
        absurd (⊎_elim (λ h. omega arith) (λ (_, h). omega arith) enough)
    grow_regions_lem (suc rounds) level s [] enough g at covered = (
      s,
      none,
      refl,
      record {
        is_grown = g;
        all_covered = λ _ x r o. ⊎_elim (λ m. absurd (Memᴰ.not-nil m)) (λ c. c) (covered x r o);
        spans = λ boundaries e. cc;
      },
    )
    grow_regions_lem (suc rounds) level s (current ∷ frontier) enough g at covered =
        let s0 : Regions = record s { following = [] } in
        let (s1, e1, g1, c1) =
          grow_level_lem adjacency terminals level incident (current ∷ frontier) s0 (reset s g)
            at in
        let (found, e2, how) =
          spanning_boundaries_returns terminals (some (2 * level + 2)) s1.candidates d
            (candidates-among s1 g1.is_grown) several in
        ⊎_elim
          (λ (boundaries, q, spanning). (
            s1,
            some boundaries,
            rw (grow_regions, e1, e2, q) refl,
            record {
              is_grown = g1.is_grown;
              all_covered = λ e. cc;
              spans = λ bs e. (
                some (2 * level + 2),
                subst (IsSpanning terminals (some (2 * level + 2)) s1.candidates) (some_injective e)
                    spanning,
              );
            },
          ))
          (λ (q, _).
            rw (grow_regions, e1, e2, q)
              (grow_regions_lem rounds (level + 1) s1 s1.following
                (next-Suffices rounds (unowned s.owner (ends adjacency)) 0 s1 s1.following
                  (⊎_elim (λ h. h) (λ (e, _). absurd (cc (e))) enough) (omega (arith, g1.fewer)))
                g1.is_grown
                (λ x m.
                  ⊎_elim (λ n. absurd (Memᴰ.not-nil n)) (λ (dist, owned). (owned, dist))
                    (g1.waiting x m))
                (λ x r o.
                  ⊎_elim
                    (λ (r', o').
                      ⊎_elim (λ m. inr (λ e y edge. c1 x e y m edge))
                        (λ c. inr (λ e y edge. IsCovered-kept s0 s1 x y g1.extends (c e y edge)))
                        (covered x r' o'))
                    inl (g1.reached x r o))))
          how

    -- the regions of the start: each terminal alone
    seeded_owner :
        (ts : List Text) (x r : Text)
        → (seeded adjacency terminals ts).owner x ≡ some r
        → (x ≡ r) × Memᴰ x ts × ((seeded adjacency terminals ts).distance x ≡ some 0)
    seeded_owner [] x r o = cc
    seeded_owner (t ∷ ts) x r o = elim (Bool-cases (x == t)) [
      | inl same ↦
          let x_t = ==→≡ x t same in
          let s = seeded adjacency terminals ts in
          (
            x_t
                ∙ some_injective (
                    sym (put-same s.owner t (some t))
                    ∙ (sym (ap (put s.owner t (some t)) x_t) ∙ o)),
            Memᴰ.head x_t,
            ap (put s.distance t (some 0)) x_t ∙ put-same s.distance t (some 0),
          )
      | inr apart ↦
          let s = seeded adjacency terminals ts in
          let ne = λ (q : x ≡ t). both_ways {P = ⊥} (≡→== x t q) apart in
          let (e, m, dist) = seeded_owner ts x r (sym (put-other s.owner t x (some t) ne) ∙ o) in
          (e, Memᴰ.tail m, put-other s.distance t x (some 0) ne ∙ dist)
    ]

    seeded_rooted :
        (ts : List Text) (x : Text) → Memᴰ x ts → (seeded adjacency terminals ts).owner x ≡ some x
    seeded_rooted [] x m = absurd (Memᴰ.not-nil m)
    seeded_rooted (t ∷ ts) x m = elim (Bool-cases (x == t)) [
      | inl same ↦
          let x_t = ==→≡ x t same in
          let s = seeded adjacency terminals ts in
          ap (put s.owner t (some t)) x_t ∙ (put-same s.owner t (some t) ∙ ap some (sym x_t))
      | inr apart ↦
          let s = seeded adjacency terminals ts in
          let ne = λ (q : x ≡ t). both_ways {P = ⊥} (≡→== x t q) apart in
          put-other s.owner t x (some t) ne
          ∙ seeded_rooted ts x (⊎_elim (λ q. absurd (ne q)) (λ n. n) (Memᴰ.cases_cons m))
    ]

    seeded_candidates : (ts : List Text) → (seeded adjacency terminals ts).candidates ≡ []
    seeded_candidates [] = refl
    seeded_candidates (t ∷ ts) = seeded_candidates ts

    seeded-IsGrown : IsGrown adjacency terminals (seeded adjacency terminals terminals)
    seeded-IsGrown = record {
      rooted = λ t m. let o = seeded_rooted terminals t m in (o, (seeded_owner terminals t t o).2);
      owned = λ x r o.
          let (e, m, dist) = seeded_owner terminals x r o in
          (Memᴰ.cast (sym e) m, (0, dist, inl e));
      bounded =
          λ e m. absurd (Memᴰ.not-nil (subst (λ es. Memᴰ e es) (seeded_candidates terminals) m));
    }

    unowned-le-length : (owner : Text → Option Text) (xs : List Text) → unowned owner xs ≤ length xs
    unowned-le-length owner [] = omega arith
    unowned-le-length owner (x ∷ xs) = step (owner x) (unowned-le-length owner xs)
      where
        step :
            (o : Option Text)
            → unowned owner xs ≤ length xs
            → elim o [ none ↦ 1 | some r ↦ 0 ] + unowned owner xs ≤ suc (length xs)
        step none h = omega arith
        step (some r) h = omega arith

    pub grown : Ends (
        grow_regions adjacency terminals
          (length (ends adjacency) + 2)
          0
          (seeded adjacency terminals terminals)
          terminals)
    grown =
        grow_regions_lem (length (ends adjacency) + 2) 0 (seeded adjacency terminals terminals)
          terminals
          (inl (
            omega (
              arith,
              unowned-le-length (seeded adjacency terminals terminals).owner (ends adjacency),
            )))
          seeded-IsGrown
          (λ x m. let o = seeded_rooted terminals x m in ((x, o), (seeded_owner terminals x x o).2))
          (λ x r o. inl (seeded_owner terminals x r o).1)
