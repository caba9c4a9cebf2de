-- ===== src/Model/Snapshot/Valid.antt =====
-- What `validate_graph` checks.
use data_ontology_graph.Prelude.{
  List, Memᴰ, true, not, Bool-cases, arith, ◌≡◌, ◌↔◌, inl, inr, contains, contains_iff,
  has_duplicates, has_duplicates_iff, IsDistinct, ok, guard-eq-ok, check_each, check_each-eq-ok,
  check_each_of, passed, >>=-eq-ok, ◌==◌, ==→≡, ≡→==, nat_order, list_order, triple_order,
}
use data_ontology_graph.Model.Definition.{EntityDefinition, DefinitionKey}
use data_ontology_graph.Model.Dataset.{DatasetNode}
use data_ontology_graph.Model.Relationship.{JoinRelationship, identity_key}
use data_ontology_graph.Model.Snapshot.{
  GraphSnapshot, JoinAnnotation, node_ids, edge_ids, identity_ids, definition_keys,
  check_definition, check_node, check_identity, names_identity, check_edge, check_annotation,
  validate_graph,
}

module _ (s : GraphSnapshot) where
  -- Both ends of a relationship are definitions of the same logical entity.
  pub record IsResolvedEdge (edge : JoinRelationship) : Type 0 where
    pub start : Memᴰ (identity_key edge.endpoint_a) (definition_keys s)
    pub end : Memᴰ (identity_key edge.endpoint_b) (definition_keys s)
    pub same_identity : edge.endpoint_a.identity_id ≡ edge.endpoint_b.identity_id

  pub record IsValidEdge (edge : JoinRelationship) : Type 0 where
    pub dataset_a : Memᴰ edge.endpoint_a.node_id (node_ids s)
    pub dataset_b : Memᴰ edge.endpoint_b.node_id (node_ids s)
    pub resolved : names_identity s edge ≡ true → IsResolvedEdge edge

  pub record IsValidGraph : Type 0 where
    pub nodes_distinct : IsDistinct (node_ids s)
    pub edges_distinct : IsDistinct (edge_ids s)
    pub identities_distinct : IsDistinct (identity_ids s)
    pub identities_known :
        (node : DatasetNode) (d : EntityDefinition)
        → Memᴰ node s.nodes
        → Memᴰ d node.entity_definitions
        → Memᴰ d.identity_id (identity_ids s)
    pub edges_valid : (edge : JoinRelationship) → Memᴰ edge s.edges → IsValidEdge edge
    pub annotations_known :
        (annotation : JoinAnnotation)
        → Memᴰ annotation s.annotations
        → Memᴰ annotation.edge_id (edge_ids s)

  check_identity_iff :
      (edge : JoinRelationship) → (check_identity s edge ≡ ok tt) ↔ IsResolvedEdge edge
  check_identity_iff edge = (
    λ h.
        let (a, h1) = guard-eq-ok (contains keys (identity_key edge.endpoint_a)) _ _ h in
        let (b, h2) = guard-eq-ok (contains keys (identity_key edge.endpoint_b)) _ _ h1 in
        let same = passed (edge.endpoint_a.identity_id == edge.endpoint_b.identity_id) _ h2 in
        record {
          start = (contains_iff keys (identity_key edge.endpoint_a)).0 a;
          end = (contains_iff keys (identity_key edge.endpoint_b)).0 b;
          same_identity = ==→≡ edge.endpoint_a.identity_id edge.endpoint_b.identity_id same;
        },
    λ r. rw (
      (contains_iff keys (identity_key edge.endpoint_a)).1 r.start,
      (contains_iff keys (identity_key edge.endpoint_b)).1 r.end,
      ≡→== edge.endpoint_a.identity_id edge.endpoint_b.identity_id r.same_identity,
    ),
  )
    where
      keys : List DefinitionKey
      keys = definition_keys s

  check_edge_iff : (edge : JoinRelationship) → (check_edge s edge ≡ ok tt) ↔ IsValidEdge edge
  check_edge_iff edge = (
    λ h.
        let (a, h1) = guard-eq-ok (contains (node_ids s) edge.endpoint_a.node_id) _ _ h in
        let (b, h2) = guard-eq-ok (contains (node_ids s) edge.endpoint_b.node_id) _ _ h1 in
        record {
          dataset_a = (contains_iff (node_ids s) edge.endpoint_a.node_id).0 a;
          dataset_b = (contains_iff (node_ids s) edge.endpoint_b.node_id).0 b;
          resolved = λ named. (check_identity_iff edge).0 (rw named at h2);
        },
    λ v.
        rw
          (
            (contains_iff (node_ids s) edge.endpoint_a.node_id).1 v.dataset_a,
            (contains_iff (node_ids s) edge.endpoint_b.node_id).1 v.dataset_b,
          )
          (elim (Bool-cases (names_identity s edge)) [
            | inl named ↦ rw named ((check_identity_iff edge).1 (v.resolved named))
            | inr unnamed ↦ rw unnamed
          ]),
  )

  check_node_iff :
      (node : DatasetNode)
      → (check_node s node ≡ ok tt) ↔ (
          (d : EntityDefinition)
          → Memᴰ d node.entity_definitions
          → Memᴰ d.identity_id (identity_ids s))
  check_node_iff node = (
    λ h d m. (contains_iff (identity_ids s) d.identity_id).0 (
        passed (contains (identity_ids s) d.identity_id) _
          (check_each-eq-ok (check_definition s node) node.entity_definitions h m)),
    λ h.
        check_each_of (check_definition s node) node.entity_definitions
          (λ d m. rw ((contains_iff (identity_ids s) d.identity_id).1 (h d m))),
  )

  -- A snapshot passes the validator exactly when dataset IDs, edge IDs and logical entity IDs are
  -- each distinct, every definition's logical entity is known, both ends of every relationship are on
  -- known datasets and, if either names a logical entity, are definitions of one logical entity, and
  -- every annotation is of a known relationship.
  pub validate_graph_iff : (validate_graph s ≡ ok tt) ↔ IsValidGraph
  unfolding validate_graph
  validate_graph_iff = (
    λ h.
        let (n, h1) = guard-eq-ok (not (has_duplicates (node_ids s))) _ _ h in
        let (e, h2) = guard-eq-ok (not (has_duplicates (edge_ids s))) _ _ h1 in
        let (i, h3) = guard-eq-ok (not (has_duplicates (identity_ids s))) _ _ h2 in
        let (_, nodes, h4) = >>=-eq-ok (check_each (check_node s) s.nodes) _ h3 in
        let (_, edges, annotations) = >>=-eq-ok (check_each (check_edge s) s.edges) _ h4 in
        record {
          nodes_distinct = (has_duplicates_iff (node_ids s)).0 (ground arith);
          edges_distinct = (has_duplicates_iff (edge_ids s)).0 (ground arith);
          identities_distinct = (has_duplicates_iff (identity_ids s)).0 (ground arith);
          identities_known = λ node d m.
              (check_node_iff node).0 (check_each-eq-ok (check_node s) s.nodes nodes m) d;
          edges_valid =
              λ edge m. (check_edge_iff edge).0 (check_each-eq-ok (check_edge s) s.edges edges m);
          annotations_known = λ annotation m. (contains_iff (edge_ids s) annotation.edge_id).0 (
              passed (contains (edge_ids s) annotation.edge_id) _
                (check_each-eq-ok (check_annotation s) s.annotations annotations m));
        },
    λ v.
        let nodes =
          check_each_of (check_node s) s.nodes
            (λ node m. (check_node_iff node).1 (λ d. v.identities_known node d m)) in
        let edges =
          check_each_of (check_edge s) s.edges
            (λ edge m. (check_edge_iff edge).1 (v.edges_valid edge m)) in
        let annotations = check_each_of (check_annotation s) s.annotations (λ annotation m.
          rw (
            (contains_iff (edge_ids s) annotation.edge_id).1 (v.annotations_known annotation m))) in
        rw
          (
            (has_duplicates_iff (node_ids s)).1 v.nodes_distinct,
            (has_duplicates_iff (edge_ids s)).1 v.edges_distinct,
            (has_duplicates_iff (identity_ids s)).1 v.identities_distinct,
            nodes,
            edges,
          )
          annotations,
  )
