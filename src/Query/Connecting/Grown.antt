-- ===== src/Query/Connecting/Grown.antt =====
-- What the regions hold while they grow: every owned dataset leads back to its terminal, and every
-- boundary lies between two regions.
use mathlib.Core.List.Memᴰ
use data_ontology_graph.Prelude.{
  ℕ, ◌+◌, ◌<◌, Text, List, [], ◌∷◌, map, Bool-cases, both_ways, Memᴰ, ◌≡◌, ◌≢◌, ◌⊎◌, refl, sym, ap,
  ◌∙◌, subst, inl, inr, ⊎_elim, Option, none, some, ◌==◌, ==→≡, ≡→==, arith, nat_order, list_order,
  pair_order, quad_order,
}
use data_ontology_graph.Prelude.Maps.{put-same, put-other}
use data_ontology_graph.Model.Relationship.{JoinRelationship}
use data_ontology_graph.Query.Connecting.{Entry, candidate_key}
use data_ontology_graph.Query.Connecting.Regions.{
  Adjacency, neighbours, across, Regions, ordered, is_less, offer, boundary, claim,
}

-- The edge leads from one dataset to the other.
abbrev pub IsEdge : Adjacency → JoinRelationship → Text → Text → Type 0
IsEdge adjacency e x y = Memᴰ e (neighbours adjacency x) × (across e x ≡ some y)

abbrev pub keys : Regions → List (Text × Text)
keys s = map (λ (e : Entry). e.0) s.candidates

-- the step back from `x`, nearer to the terminal of its region
abbrev pub Back : Adjacency → Regions → Text → Text → ℕ → Type 0
Back adjacency s x region n =
    (y : Text) × (e : JoinRelationship) × (m : ℕ) × (s.predecessor x ≡ some (y, e))
    × IsEdge adjacency e y x
    × (s.owner y ≡ some region)
    × (s.distance y ≡ some m)
    × (m < n)

-- an entry of the candidates: an edge between the two regions
abbrev pub IsBoundary : Adjacency → Regions → Entry → Type 0
IsBoundary adjacency s entry =
    (x : Text) × (y : Text) × (e : JoinRelationship) × (region : Text) × (other_region : Text)
    × IsEdge adjacency e x y
    × (s.owner x ≡ some region)
    × (s.owner y ≡ some other_region)
    × (entry.0 ≡ ordered region other_region)
    × ((entry.1.left, entry.1.right) ≡ ordered x y)
    × (entry.1.edge_id ≡ e.edge_id)

pub record IsGrown (adjacency : Adjacency) (terminals : List Text) (s : Regions) : Type 0 where
  pub rooted : (t : Text) → Memᴰ t terminals → (s.owner t ≡ some t) × (s.distance t ≡ some 0)
  pub owned :
      (x region : Text)
      → s.owner x ≡ some region
      → Memᴰ region terminals
        × ((n : ℕ) × (s.distance x ≡ some n) × ((x ≡ region) ⊎ Back adjacency s x region n))
  pub bounded : (entry : Entry) → Memᴰ entry s.candidates → IsBoundary adjacency s entry

-- Owners, their distances and the pairs of regions are never given up.
pub record Extends (s s' : Regions) : Type 0 where
  pub owner_kept : (x region : Text) → s.owner x ≡ some region → s'.owner x ≡ some region
  pub distance_kept : (x region : Text) → s.owner x ≡ some region → s'.distance x ≡ s.distance x
  pub keys_kept : (pair : Text × Text) → Memᴰ pair (keys s) → Memᴰ pair (keys s')

pub Extends-refl : (s : Regions) → Extends s s
Extends-refl s = record {
  owner_kept = λ x r e. e;
  distance_kept = λ x r e. refl;
  keys_kept = λ p m. m;
}

pub Extends-trans : (s t u : Regions) → Extends s t → Extends t u → Extends s u
Extends-trans s t u a b = record {
  owner_kept = λ x r e. b.owner_kept x r (a.owner_kept x r e);
  distance_kept = λ x r e. b.distance_kept x r (a.owner_kept x r e) ∙ a.distance_kept x r e;
  keys_kept = λ p m. b.keys_kept p (a.keys_kept p m);
}

-- Offering a candidate: the entries are old ones or the new one, and no pair is lost.
Memᴰ-offer :
    (entries : List Entry) (e x : Entry) → Memᴰ x (offer entries e) → (x ≡ e) ⊎ Memᴰ x entries
unfolding offer
Memᴰ-offer [] e x = λ m. inl (Memᴰ.eq_of_singleton m)
Memᴰ-offer (p ∷ entries) e x = elim (Bool-cases (p.0 == e.0)) [
  | inl same ↦ elim (Bool-cases (is_less (candidate_key e) (candidate_key p))) [
    | inl less ↦ rw (same, less) (λ m. ⊎_elim inl (λ t. inr (Memᴰ.tail t)) (Memᴰ.cases_cons m))
    | inr more ↦ rw (same, more) (λ m. inr m)
  ]
  | inr other ↦ rw other (λ m.
      ⊎_elim (λ q. inr (Memᴰ.head q))
        (λ t. ⊎_elim inl (λ u. inr (Memᴰ.tail u)) (Memᴰ-offer entries e x t)) (Memᴰ.cases_cons m))
]

abbrev pair_of : Entry → Text × Text
pair_of e = e.0

offer-keys :
    (entries : List Entry) (e : Entry) (pair : Text × Text)
    → (pair ≡ e.0) ⊎ Memᴰ pair (map pair_of entries)
    → Memᴰ pair (map pair_of (offer entries e))
unfolding offer
offer-keys [] e pair h = ⊎_elim Memᴰ.head (λ m. absurd (Memᴰ.not-nil m)) h
offer-keys (p ∷ entries) e pair h = elim (Bool-cases (p.0 == e.0)) [
  | inl same ↦
      let p_e = ==→≡ p.0 e.0 same in
      elim (Bool-cases (is_less (candidate_key e) (candidate_key p))) [
        | inl less ↦
            rw (same, less)
              (⊎_elim Memᴰ.head
                (λ m. ⊎_elim (λ q. Memᴰ.head (q ∙ p_e)) Memᴰ.tail (Memᴰ.cases_cons m)) h)
        | inr more ↦ rw (same, more) (⊎_elim (λ q. Memᴰ.head (q ∙ sym p_e)) (λ m. m) h)
      ]
  | inr other ↦ rw other (
      ⊎_elim (λ q. Memᴰ.tail (offer-keys entries e pair (inl q)))
        (λ m.
          ⊎_elim Memᴰ.head (λ t. Memᴰ.tail (offer-keys entries e pair (inr t))) (Memᴰ.cases_cons m))
        h)
]

module _ (adjacency : Adjacency) (terminals : List Text) (s : Regions)
    (g : IsGrown adjacency terminals s) (e : JoinRelationship) (current other region : Text)
    (edge : IsEdge adjacency e current other) (here : s.owner current ≡ some region) where
  -- a dataset with no owner is claimed for the region
  module _ (level : ℕ) (at : s.distance current ≡ some level) (free : s.owner other ≡ none) where
    abbrev pub claimed : Regions
    claimed = claim s e current other region level

    not_other : (x r : Text) → s.owner x ≡ some r → x ≢ other
    not_other x r owned same = cc (owned, ap s.owner same, free)

    pub claimed-Extends : Extends s claimed
    claimed-Extends = record {
      owner_kept =
          λ x r owned. put-other s.owner other x (some region) (not_other x r owned) ∙ owned;
      distance_kept =
          λ x r owned. put-other s.distance other x (some (level + 1)) (not_other x r owned);
      keys_kept = λ p m. m;
    }

    pub claimed_owner : claimed.owner other ≡ some region
    claimed_owner = put-same s.owner other (some region)

    pub claimed_distance : claimed.distance other ≡ some (level + 1)
    claimed_distance = put-same s.distance other (some (level + 1))

    kept_distance :
        (x r : Text) (n : ℕ)
        → s.owner x ≡ some r
        → s.distance x ≡ some n
        → claimed.distance x ≡ some n
    kept_distance x r n owned d = claimed-Extends.distance_kept x r owned ∙ d

    claimed_owned :
        (x r : Text)
        → claimed.owner x ≡ some r
        → Memᴰ r terminals
          × ((n : ℕ) × (claimed.distance x ≡ some n) × ((x ≡ r) ⊎ Back adjacency claimed x r n))
    claimed_owned x r owned = elim (Bool-cases (x == other)) [
      | inl same ↦
          let x_other = ==→≡ x other same in
          let is_region : some region ≡ some r =
            sym claimed_owner ∙ (sym (ap claimed.owner x_other) ∙ owned) in
          let (known, _) = g.owned current region here in
          (
            subst (λ (o : Option Text). Known o) is_region known,
            (
              level + 1,
              ap claimed.distance x_other ∙ claimed_distance,
              inr (
                current,
                e,
                level,
                ap claimed.predecessor x_other ∙ put-same s.predecessor other (some (current, e)),
                (edge.0, edge.1 ∙ ap some (sym x_other)),
                claimed-Extends.owner_kept current region here ∙ is_region,
                kept_distance current region level here at,
                omega arith,
              ),
            ),
          )
      | inr apart ↦
          let ne = λ (q : x ≡ other). both_ways {P = ⊥} (≡→== x other q) apart in
          let before = sym (put-other s.owner other x (some region) ne) ∙ owned in
          let (known, (n, d, how)) = g.owned x r before in
          (
            known,
            (
              n,
              kept_distance x r n before d,
              ⊎_elim inl
                  (λ (y, f, m, p, back, o, d', less). inr (
                    y,
                    f,
                    m,
                    put-other s.predecessor other x (some (current, e)) ne ∙ p,
                    back,
                    claimed-Extends.owner_kept y r o,
                    kept_distance y r m o d',
                    less,
                  ))
                  how,
            ),
          )
    ]
      where
        Known : Option Text → Type 0
        Known none = ⊥
        Known (some r) = Memᴰ r terminals

    pub claimed-IsGrown : IsGrown adjacency terminals claimed
    claimed-IsGrown = record {
      rooted = λ t m.
          let (o, d) = g.rooted t m in (claimed-Extends.owner_kept t t o, kept_distance t t 0 o d);
      owned = claimed_owned;
      bounded = λ entry m.
          let (x, y, f, r, r', edge', o, o', p, ends, id) = g.bounded entry m in
          (
            x,
            y,
            f,
            r,
            r',
            edge',
            claimed-Extends.owner_kept x r o,
            claimed-Extends.owner_kept y r' o',
            p,
            ends,
            id,
          );
    }

  -- an edge into another region is offered as a boundary
  module _ (other_region : Text) (there : s.owner other ≡ some other_region) (d other_d : ℕ) where
    abbrev pub met : Regions
    met = boundary s e current other region other_region d other_d

    pub met-Extends : Extends s met
    met-Extends = record {
      owner_kept = λ x r o. o;
      distance_kept = λ x r o. refl;
      keys_kept = λ p m. offer-keys s.candidates _ p (inr m);
    }

    pub met_key : Memᴰ (ordered region other_region) (keys met)
    met_key = offer-keys s.candidates _ (ordered region other_region) (inl refl)

    pub met-IsGrown : IsGrown adjacency terminals met
    met-IsGrown = record {
      rooted = g.rooted;
      owned = g.owned;
      bounded = λ entry m.
          ⊎_elim
            (λ q.
              subst (IsBoundary adjacency met) (sym q)
                (current, other, e, region, other_region, edge, here, there, refl, refl, refl))
            (g.bounded entry) (Memᴰ-offer s.candidates _ entry m);
    }
