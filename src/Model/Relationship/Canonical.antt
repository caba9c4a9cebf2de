-- ===== src/Model/Relationship/Canonical.antt =====
-- The canonical form of a relationship: `canonical_endpoints`, `edge_id_for`, `canonicalize`.
use mathlib.Core.Path.{ap₂}
use data_ontology_graph.Prelude.{
  true, false, Bool-cases, arith, ◌≡◌, ◌≢◌, refl, sym, ap, subst, ◌∙◌, inl, inr, ◌⊎◌, ok, err,
  ok_injective, ◌==◌, ◌<=◌, ==→≡, ≡→==, ==-self, <=-total, <=-antisymm, ==-of_not_le, nat_order,
  list_order, triple_order, if◌then◌else◌,
}
use data_ontology_graph.Model.Relationship.{
  JoinEndpoint, JoinRelationship, identity_key, canonical_endpoints, join_sides, orient,
  edge_id_for, canonicalize, RelationshipProblem,
}

-- An endpoint is its key.
pub endpoint_of_key : (a b : JoinEndpoint) → identity_key a ≡ identity_key b → a ≡ b
endpoint_of_key a b e =
    λ i. record { node_id = (e i).0; identity_id = (e i).1; dataset_columns = (e i).2 }

pub canonical_endpoints_comm :
    (a b : JoinEndpoint) → canonical_endpoints a b ≡ canonical_endpoints b a
unfolding canonical_endpoints
canonical_endpoints_comm a b = elim (Bool-cases (identity_key a <= identity_key b)) [
  | inl first ↦ elim (Bool-cases (identity_key b <= identity_key a)) [
    | inl also ↦
        let same = endpoint_of_key a b (<=-antisymm (identity_key a) (identity_key b) first also) in
        rw same
    | inr not_also ↦ rw (first, not_also)
  ]
  | inr later ↦ rw (later, <=-total (identity_key a) (identity_key b) later)
]

-- The edge ID does not depend on the order in which the endpoints are given.
pub edge_id_for_comm : (a b : JoinEndpoint) → edge_id_for a b ≡ edge_id_for b a
unfolding edge_id_for
edge_id_for_comm a b = ap join_sides (canonical_endpoints_comm a b)

-- Either order of the endpoints is the canonical one.
canonical_endpoints-cases :
    (a b : JoinEndpoint)
    → (canonical_endpoints a b ≡ (a, b)) × ((identity_key a <= identity_key b) ≡ true)
      ⊎ (canonical_endpoints a b ≡ (b, a))
        × ((identity_key b <= identity_key a) ≡ true)
        × ((identity_key b == identity_key a) ≡ false)
unfolding canonical_endpoints
canonical_endpoints-cases a b = elim (Bool-cases (identity_key a <= identity_key b)) [
  | inl first ↦ inl (rw first, first)
  | inr later ↦ inr (
    rw later,
    <=-total (identity_key a) (identity_key b) later,
    ==-of_not_le (identity_key a) (identity_key b) later,
  )
]

canonical_endpoints_of :
    (a b : JoinEndpoint)
    → (identity_key a <= identity_key b) ≡ true
    → canonical_endpoints a b ≡ (a, b)
unfolding canonical_endpoints
canonical_endpoints_of a b h = rw h

edge_id_for-canonical :
    (a b : JoinEndpoint)
    → edge_id_for (canonical_endpoints a b).0 (canonical_endpoints a b).1 ≡ edge_id_for a b
edge_id_for-canonical a b = elim (canonical_endpoints-cases a b) [
  | inl (e, _) ↦ ap (λ (p : JoinEndpoint × JoinEndpoint). edge_id_for p.0 p.1) e
  | inr (e, _, _) ↦
      ap (λ (p : JoinEndpoint × JoinEndpoint). edge_id_for p.0 p.1) e ∙ edge_id_for_comm b a
]

-- `c` is `r` with its endpoints in canonical order and each direction with its endpoint.
pub record IsCanonicalForm (r c : JoinRelationship) : Type 0 where
  pub ordered : (identity_key c.endpoint_a <= identity_key c.endpoint_b) ≡ true
  pub named : c.edge_id ≡ edge_id_for r.endpoint_a r.endpoint_b
  pub kept :
      (c.endpoint_a ≡ r.endpoint_a)
        × (c.endpoint_b ≡ r.endpoint_b)
        × (c.a_to_b ≡ r.a_to_b)
        × (c.b_to_a ≡ r.b_to_a)
      ⊎ (c.endpoint_a ≡ r.endpoint_b)
        × (c.endpoint_b ≡ r.endpoint_a)
        × (c.a_to_b ≡ r.b_to_a)
        × (c.b_to_a ≡ r.a_to_b)

orient-IsCanonicalForm :
    (r : JoinRelationship)
    → r.edge_id ≡ edge_id_for r.endpoint_a r.endpoint_b
    → IsCanonicalForm r (orient r (canonical_endpoints r.endpoint_a r.endpoint_b))
orient-IsCanonicalForm r h = elim (canonical_endpoints-cases r.endpoint_a r.endpoint_b) [
  | inl (e, first) ↦
      rw (e, ==-self (identity_key r.endpoint_a))
        (record { ordered = first; named = h; kept = inl (refl, refl, refl, refl) })
  | inr (e, later, other) ↦
      rw (e, other) (record { ordered = later; named = h; kept = inr (refl, refl, refl, refl) })
]

canonicalize-eq :
    (r : JoinRelationship)
    → canonicalize r ≡ (
        if r.edge_id == edge_id_for r.endpoint_a r.endpoint_b
        then ok (orient r (canonical_endpoints r.endpoint_a r.endpoint_b))
        else err (RelationshipProblem.edge_id_mismatch (edge_id_for r.endpoint_a r.endpoint_b)))
unfolding canonicalize
canonicalize-eq r = rw (edge_id_for-canonical r.endpoint_a r.endpoint_b)

-- A relationship that carries the edge ID of its endpoints is accepted, and what is returned is
-- its canonical form.
pub canonicalize_returns :
    (r : JoinRelationship)
    → r.edge_id ≡ edge_id_for r.endpoint_a r.endpoint_b
    → (c : JoinRelationship) × (canonicalize r ≡ ok c) × IsCanonicalForm r c
canonicalize_returns r h = (
  orient r (canonical_endpoints r.endpoint_a r.endpoint_b),
  canonicalize-eq r ∙ rw (≡→== r.edge_id _ h),
  orient-IsCanonicalForm r h,
)

accepted :
    (r c : JoinRelationship)
    → canonicalize r ≡ ok c
    → IsCanonicalForm r c × (r.edge_id ≡ edge_id_for r.endpoint_a r.endpoint_b)
accepted r c h = elim (Bool-cases (r.edge_id == edge_id_for r.endpoint_a r.endpoint_b)) [
  | inl same ↦
      let id = ==→≡ r.edge_id _ same in
      let (d, returned, form) = canonicalize_returns r id in
      (subst (IsCanonicalForm r) (ok_injective (sym returned ∙ h)) form, id)
  | inr other ↦ let stated = sym (canonicalize-eq r) ∙ h in absurd (ground (arith, other, stated))
]

-- The result determines, and is, what a second call returns.
pub canonicalize_again : (r c : JoinRelationship) → canonicalize r ≡ ok c → canonicalize c ≡ ok c
canonicalize_again r c h =
    let (form, returned) = accepted r c h in
    let ends = canonical_endpoints_of c.endpoint_a c.endpoint_b form.ordered in
    canonicalize-eq c
    ∙ rw (
      ≡→== c.edge_id _ (form.named ∙ same_id form.kept),
      ends,
      ==-self (identity_key c.endpoint_a),
    )
  where
    same_id :
        (c.endpoint_a ≡ r.endpoint_a)
            × (c.endpoint_b ≡ r.endpoint_b)
            × (c.a_to_b ≡ r.a_to_b)
            × (c.b_to_a ≡ r.b_to_a)
          ⊎ (c.endpoint_a ≡ r.endpoint_b)
            × (c.endpoint_b ≡ r.endpoint_a)
            × (c.a_to_b ≡ r.b_to_a)
            × (c.b_to_a ≡ r.a_to_b)
        → edge_id_for r.endpoint_a r.endpoint_b ≡ edge_id_for c.endpoint_a c.endpoint_b
    same_id (inl (a, b, _, _)) = ap₂ edge_id_for (sym a) (sym b)
    same_id (inr (a, b, _, _)) =
        edge_id_for_comm r.endpoint_a r.endpoint_b ∙ ap₂ edge_id_for (sym a) (sym b)

-- The same relationship, written from its other end.
abbrev pub written_backwards : JoinRelationship → JoinRelationship
written_backwards r = record {
  edge_id = r.edge_id;
  endpoint_a = r.endpoint_b;
  endpoint_b = r.endpoint_a;
  a_to_b = r.b_to_a;
  b_to_a = r.a_to_b;
}

==-of_ne :
    (a b : JoinEndpoint)
    → identity_key a ≢ identity_key b
    → (identity_key a == identity_key b) ≡ false
==-of_ne a b h = elim (Bool-cases (identity_key a == identity_key b)) [
  | inl same ↦ absurd (h (==→≡ (identity_key a) (identity_key b) same))
  | inr other ↦ other
]

orient_backwards :
    (r : JoinRelationship)
    → identity_key r.endpoint_a ≢ identity_key r.endpoint_b
    → orient (written_backwards r) (canonical_endpoints r.endpoint_a r.endpoint_b)
      ≡ orient r (canonical_endpoints r.endpoint_a r.endpoint_b)
orient_backwards r h = elim (canonical_endpoints-cases r.endpoint_a r.endpoint_b) [
  | inl (e, _) ↦ rw (e, ==-self (identity_key r.endpoint_a), ==-of_ne r.endpoint_a r.endpoint_b h)
  | inr (e, _, other) ↦ rw (e, ==-self (identity_key r.endpoint_b), other)
]

-- Whichever end a relationship between two definitions is written from, it is refused, or stored,
-- in the same way.
pub canonicalize_backwards :
    (r : JoinRelationship)
    → identity_key r.endpoint_a ≢ identity_key r.endpoint_b
    → canonicalize (written_backwards r) ≡ canonicalize r
canonicalize_backwards r h =
    canonicalize-eq (written_backwards r)
    ∙ rw
        (
          edge_id_for_comm r.endpoint_b r.endpoint_a,
          canonical_endpoints_comm r.endpoint_b r.endpoint_a,
          orient_backwards r h,
        )
        (sym (canonicalize-eq r))

-- A relationship whose endpoints are in order, and that carries their edge ID, is kept as it is.
pub canonicalize_of_ordered :
    (r : JoinRelationship)
    → (identity_key r.endpoint_a <= identity_key r.endpoint_b) ≡ true
    → r.edge_id ≡ edge_id_for r.endpoint_a r.endpoint_b
    → canonicalize r ≡ ok r
canonicalize_of_ordered r ordered named =
    canonicalize-eq r
    ∙ rw (
      ≡→== r.edge_id _ named,
      canonical_endpoints_of r.endpoint_a r.endpoint_b ordered,
      ==-self (identity_key r.endpoint_a),
    )
