-- ===== src/Model/Derivation/Derived.antt =====
-- `derive_relationships`: it never raises on constructed datasets, and relates exactly the pairs.
use mathlib.Core.List.Memᴰ
use data_ontology_graph.Prelude.{
  Text, List, [], ◌∷◌, Memᴰ, true, false, arith, ◌≡◌, ◌≢◌, refl, sym, ap, subst, ◌∙◌, ⊎_elim, ◌⊎◌,
  inl, inr, ◌↔◌, map, Memᴰ-map, Memᴰ-sorted_by, traverse_of, ok, ok_injective, guard-eq-ok,
  >>=-eq-ok, not, is_empty, strip, sorted_by, IsSortedBy, sorted_by-IsSortedBy, nat_order,
  list_order, triple_order,
}
use data_ontology_graph.Model.Columns.{check_columns}
use data_ontology_graph.Model.Definition.{EntityDefinition, as_columns, validate_definition}
use data_ontology_graph.Model.Dataset.{DatasetNode}
use data_ontology_graph.Model.Relationship.{JoinRelationship, edge_id_for, validate_endpoint}
use data_ontology_graph.Model.Relationship.Canonical.{canonicalize_of_ordered}
use data_ontology_graph.Model.Derivation.{
  Member, members, identity_of, endpoint_of, new_endpoint, arguments, relate, derived_direction,
  derive_relationships,
}
use data_ontology_graph.Model.Derivation.Pairs.{
  all_pairs, IsPair, all_pairs-IsPair, all_pairs-complete,
}

-- The datasets were constructed: a node ID is not empty, and each definition passed its validators.
pub record AreConstructed (nodes : List DatasetNode) : Type 0 where
  pub node_ids : (node : DatasetNode) → Memᴰ node nodes → is_empty node.node_id ≡ false
  pub definitions :
      (node : DatasetNode) (d : EntityDefinition)
      → Memᴰ node nodes
      → Memᴰ d node.entity_definitions
      → validate_definition d ≡ ok d

-- the list that the source builds, without the validators
unfoldable pub derived : List DatasetNode → List JoinRelationship
derived nodes = sorted_by (λ r. r.edge_id) (map arguments (all_pairs (members nodes)))

-- A member is a definition of one of the datasets, with that dataset's ID.
pub members-mem :
    (nodes : List DatasetNode) (m : Member)
    → Memᴰ m (members nodes) ↔ (
        (node : DatasetNode) × Memᴰ node nodes
        × Memᴰ m.1 node.entity_definitions
        × (node.node_id ≡ m.0))
unfolding members
members-mem [] m = (λ h. absurd (Memᴰ.not-nil h), λ (node, at, _, _). absurd (Memᴰ.not-nil at))
members-mem (n ∷ nodes) m = (
  λ h.
      ⊎_elim
        (λ here.
          let (d, at, e) = (Memᴰ-map tag m n.entity_definitions).0 here in
          (
            n,
            Memᴰ.head refl,
            Memᴰ.cast (sym (ap (λ (x : Member). x.1) e)) at,
            ap (λ (x : Member). x.0) e,
          ))
        (λ there.
          let (node, at, inside, e) = (members-mem nodes m).0 there in
          (node, Memᴰ.tail at, inside, e))
        (Memᴰ.append_cases (map tag n.entity_definitions) h),
  λ (node, at, inside, e).
      ⊎_elim
        (λ same. Memᴰ.append_left (members nodes) (
          (Memᴰ-map tag m n.entity_definitions).1 (
            m.1,
            subst (λ (x : DatasetNode). Memᴰ m.1 x.entity_definitions) same inside,
            λ i. ((ap (λ (x : DatasetNode). x.node_id) (sym same) ∙ e) i, m.1),
          )))
        (λ t.
          Memᴰ.append_right (map tag n.entity_definitions)
            ((members-mem nodes m).1 (node, t, inside, e)))
        (Memᴰ.cases_cons at),
)
  where
    tag : EntityDefinition → Member
    tag d = (n.node_id, d)

definition_columns :
    (d : EntityDefinition)
    → validate_definition d ≡ ok d
    → (not (is_empty d.identity_id) ≡ true)
      × ((columns : List Text) × (check_columns d.dataset_columns ≡ ok columns))
unfolding validate_definition
definition_columns d h =
    let (named, h1) = guard-eq-ok (not (is_empty d.identity_id)) _ _ h in
    let (_, h2) = guard-eq-ok (not (is_empty (strip d.identity_id))) _ _ h1 in
    let (columns, h3, _) = >>=-eq-ok (as_columns (check_columns d.dataset_columns)) _ h2 in
    (named, (columns, ground arith))

-- The endpoint of a constructed definition passes its validators.
new_endpoint_of :
    (m : Member)
    → is_empty m.0 ≡ false
    → validate_definition m.1 ≡ ok m.1
    → new_endpoint m ≡ ok (endpoint_of m)
unfolding validate_endpoint
new_endpoint_of m named valid =
    let (identity, (columns, accepted)) = definition_columns m.1 valid in
    rw (named, identity, accepted)

member_endpoint :
    (nodes : List DatasetNode)
    → AreConstructed nodes
    → (m : Member) → Memᴰ m (members nodes)
    → new_endpoint m ≡ ok (endpoint_of m)
member_endpoint nodes c m at =
    let (node, among, inside, id) = (members-mem nodes m).0 at in
    new_endpoint_of m (subst (λ i. is_empty i ≡ false) id (c.node_ids node among))
      (c.definitions node m.1 among inside)

relate-eq :
    (nodes : List DatasetNode)
    → AreConstructed nodes
    → (p : Member × Member) → Memᴰ p (all_pairs (members nodes))
    → relate p ≡ ok (arguments p)
unfolding relate
relate-eq nodes c (a, b) at =
    let pair = all_pairs-IsPair (members nodes) a b at in
    rw (member_endpoint nodes c a pair.first, member_endpoint nodes c b pair.second)
      (canonicalize_of_ordered (arguments (a, b)) pair.ordered refl)

-- On constructed datasets no validator of an endpoint or a relationship raises: the result is the
-- list of all pairs of definitions of one logical entity, each already in canonical form.
pub derive_relationships-eq :
    (nodes : List DatasetNode)
    → AreConstructed nodes
    → derive_relationships nodes ≡ ok (derived nodes)
unfolding derive_relationships derived
derive_relationships-eq nodes c =
    rw (traverse_of relate arguments (all_pairs (members nodes)) (relate-eq nodes c))

-- `r` relates the definitions `a` and `b`, with the claims derived in either direction.
pub record Relates (r : JoinRelationship) (a b : Member) : Type 0 where
  pub edge_id : r.edge_id ≡ edge_id_for (endpoint_of a) (endpoint_of b)
  pub endpoint_a : r.endpoint_a ≡ endpoint_of a
  pub endpoint_b : r.endpoint_b ≡ endpoint_of b
  pub a_to_b : r.a_to_b ≡ derived_direction a.1 b.1
  pub b_to_a : r.b_to_a ≡ derived_direction b.1 a.1

arguments-Relates : (a b : Member) → Relates (arguments (a, b)) a b
unfolding arguments
arguments-Relates a b = record {
  edge_id = refl;
  endpoint_a = refl;
  endpoint_b = refl;
  a_to_b = refl;
  b_to_a = refl;
}

derived-mem :
    (nodes : List DatasetNode) (r : JoinRelationship)
    → Memᴰ r (derived nodes) ↔ Memᴰ r (map arguments (all_pairs (members nodes)))
unfolding derived
derived-mem nodes r = Memᴰ-sorted_by (λ x. x.edge_id) r (map arguments (all_pairs (members nodes)))

module _ (nodes : List DatasetNode) (rs : List JoinRelationship) where
  returned : AreConstructed nodes → derive_relationships nodes ≡ ok rs → derived nodes ≡ rs
  returned c h = ok_injective (sym (derive_relationships-eq nodes c) ∙ h)

  -- Every relationship returned joins two definitions of one logical entity, the smaller key first,
  -- and carries the claims derived from the two.
  pub derive_relationships_sound :
      AreConstructed nodes
      → derive_relationships nodes ≡ ok rs
      → (r : JoinRelationship) → Memᴰ r rs
      → (a : Member) × (b : Member) × IsPair (members nodes) a b × Relates r a b
  derive_relationships_sound c h r m =
      let inside = subst (Memᴰ r) (sym (returned c h)) m in
      let (p, at, e) =
        (Memᴰ-map arguments r (all_pairs (members nodes))).0 ((derived-mem nodes r).0 inside) in
      (
        p.0,
        p.1,
        all_pairs-IsPair (members nodes) p.0 p.1 at,
        subst (λ x. Relates x p.0 p.1) e (arguments-Relates p.0 p.1),
      )

  -- Any two different definitions of one logical entity are joined by a relationship returned, on
  -- one dataset or on two, in one orientation or the other.
  pub derive_relationships_complete :
      AreConstructed nodes
      → derive_relationships nodes ≡ ok rs
      → (a b : Member) → Memᴰ a (members nodes)
      → Memᴰ b (members nodes)
      → identity_of a ≡ identity_of b
      → a ≢ b
      → (r : JoinRelationship) × Memᴰ r rs × (Relates r a b ⊎ Relates r b a)
  derive_relationships_complete c h a b ma mb same ne =
      ⊎_elim (λ at. (arguments (a, b), found (a, b) at, inl (arguments-Relates a b)))
        (λ at. (arguments (b, a), found (b, a) at, inr (arguments-Relates b a)))
        (all_pairs-complete (members nodes) a b ma mb same ne)
    where
      found : (p : Member × Member) → Memᴰ p (all_pairs (members nodes)) → Memᴰ (arguments p) rs
      found p at =
          subst (Memᴰ (arguments p)) (returned c h)
            ((derived-mem nodes (arguments p)).1 (Memᴰ.map arguments at))

  -- The relationships returned ascend by edge ID.
  pub derive_relationships-IsSortedBy :
      AreConstructed nodes
      → derive_relationships nodes ≡ ok rs
      → IsSortedBy (λ (r : JoinRelationship). r.edge_id) rs
  unfolding derived
  derive_relationships-IsSortedBy c h =
      subst (IsSortedBy (λ (r : JoinRelationship). r.edge_id)) (returned c h) (
        sorted_by-IsSortedBy (λ (r : JoinRelationship). r.edge_id)
          (map arguments (all_pairs (members nodes))))
