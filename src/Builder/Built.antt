-- ===== src/Builder/Built.antt =====
-- The snapshot that a build returns, and the one way in which a build can fail.
use mathlib.Core.List.Memᴰ
use data_ontology_graph.Prelude.{
  Text, List, [], ◌∷◌, true, Bool-cases, ◌≡◌, refl, sym, ap, ◌∙◌, subst, inl, inr, map, length,
  Memᴰ, Memᴰ-map, Memᴰ-sorted_by, has_duplicates, has_duplicates_iff, IsDistinct, IsDistinct-sorted,
  ok, err, traverse_of, nat_order, list_order, triple_order,
}
use data_ontology_graph.Model.Dataset.{DatasetNode}
use data_ontology_graph.Model.Relationship.{JoinRelationship, JoinEndpoint, identity_key}
use data_ontology_graph.Model.Derivation.{Member, members}
use data_ontology_graph.Model.Derivation.Pairs.{member_key}
use data_ontology_graph.Model.Derivation.Derived.{
  derived, derive_relationships-eq, derive_relationships_sound, members-mem,
}
use data_ontology_graph.Model.Snapshot.{
  LogicalIdentity, SnapshotProblem, validate_graph, node_ids, edge_ids, identity_ids,
  definition_keys,
}
use data_ontology_graph.Model.Snapshot.Valid.{IsValidGraph, IsValidEdge, validate_graph_iff}
use data_ontology_graph.Model.Intermediary.{
  IntermediaryDefinition, IntermediaryNode, dump, node_to_runtime,
}
use data_ontology_graph.Model.Intermediary.Runtime.{runtime_node, node_to_runtime-eq}
use data_ontology_graph.Builder.{BuildProblem, new_snapshot, build_snapshot_from_definition}
use data_ontology_graph.Builder.Report.{ExplicitBuildReport, unknown_field_locations}
use data_ontology_graph.Builder.Build.{
  Entry, identity_of_entry, runtime_nodes, entries, graph_of, IsAccepted, parts,
  runtime_nodes-AreConstructed, runtime_identities-eq,
}

module _ (definition : IntermediaryDefinition) (version : Text) where
  -- A relationship of the graph joins two definitions that the graph has.
  derived_edge-IsValid :
      IsAccepted definition
      → (r : JoinRelationship) → Memᴰ r (derived (runtime_nodes definition))
      → IsValidEdge (graph_of definition version) r
  derived_edge-IsValid a r m =
      let constructed = runtime_nodes-AreConstructed definition a in
      let (x, y, pair, related) =
        derive_relationships_sound (runtime_nodes definition) (derived (runtime_nodes definition))
          constructed (derive_relationships-eq (runtime_nodes definition) constructed) r m in
      record {
        dataset_a =
            subst (λ (e : JoinEndpoint). Memᴰ e.node_id (node_ids (graph_of definition version)))
              (sym related.endpoint_a) (on_dataset x pair.first);
        dataset_b =
            subst (λ (e : JoinEndpoint). Memᴰ e.node_id (node_ids (graph_of definition version)))
              (sym related.endpoint_b) (on_dataset y pair.second);
        resolved = λ named. record {
          start =
              subst
                (λ (e : JoinEndpoint).
                  Memᴰ (identity_key e) (definition_keys (graph_of definition version)))
                (sym related.endpoint_a) (Memᴰ.map member_key pair.first);
          end =
              subst
                (λ (e : JoinEndpoint).
                  Memᴰ (identity_key e) (definition_keys (graph_of definition version)))
                (sym related.endpoint_b) (Memᴰ.map member_key pair.second);
          same_identity =
              ap (λ (e : JoinEndpoint). e.identity_id) related.endpoint_a
              ∙ pair.same_identity
              ∙ sym (ap (λ (e : JoinEndpoint). e.identity_id) related.endpoint_b);
        };
      }
    where
      on_dataset :
          (z : Member)
          → Memᴰ z (members (runtime_nodes definition))
          → Memᴰ z.0 (node_ids (graph_of definition version))
      on_dataset z at =
          let (node, inside, _, e) = (members-mem (runtime_nodes definition) z).0 at in
          Memᴰ.cast (sym e) (Memᴰ.map (λ (n : DatasetNode). n.node_id) inside)

  names_of :
      (ns : List IntermediaryNode)
      → map (λ (n : DatasetNode). n.node_id) (map runtime_node ns)
        ≡ map (λ (n : IntermediaryNode). n.node_id) ns
  names_of [] = refl
  names_of (n ∷ ns) = ap (◌∷◌ n.node_id) (names_of ns)

  ids_of :
      (es : List Entry)
      → map (λ (i : LogicalIdentity). i.identity_id) (map identity_of_entry es)
        ≡ map (λ (p : Entry). p.0) es
  ids_of [] = refl
  ids_of (e ∷ es) = ap (◌∷◌ e.0) (ids_of es)

  node_ids-IsDistinct : IsAccepted definition → IsDistinct (node_ids (graph_of definition version))
  node_ids-IsDistinct a =
      subst IsDistinct (sym (names_of definition.nodes)) (parts definition a).nodes_distinct

  -- The graph of an accepted definition passes the snapshot's validator unless two relationships
  -- have one edge ID.
  graph-IsValid :
      IsAccepted definition
      → IsDistinct (edge_ids (graph_of definition version))
      → IsValidGraph (graph_of definition version)
  graph-IsValid a edges = record {
    nodes_distinct = node_ids-IsDistinct a;
    edges_distinct = edges;
    identities_distinct = subst IsDistinct (sym (ids_of (entries definition))) (
        IsDistinct-sorted (λ (p : Entry). p.0) (λ (p : Entry). p.0) definition.logical_identities
          a.registry_distinct);
    identities_known = λ node d m on.
        let (n, at, e) = (Memᴰ-map runtime_node node definition.nodes).0 m in
        let (x, inside, same) =
          (Memᴰ-map dump d n.entity_definitions).0
            (subst (λ (y : DatasetNode). Memᴰ d y.entity_definitions) (sym e) on) in
        let known = (parts definition a).referenced n x at inside in
        let (p, entry, named) =
          (Memᴰ-map (λ (q : Entry). q.0) x.identity_id definition.logical_identities).0 known in
        let listed =
          Memᴰ.map (λ (q : Entry). q.0)
            ((Memᴰ-sorted_by (λ (q : Entry). q.0) p definition.logical_identities).1 entry) in
        subst (λ y. Memᴰ y.identity_id (identity_ids (graph_of definition version))) same
          (Memᴰ.cast (sym named) (subst (Memᴰ p.0) (sym (ids_of (entries definition))) listed));
    edges_valid = λ r m. derived_edge-IsValid a r m;
    annotations_known = λ annotation m. absurd (Memᴰ.not-nil m);
  }

  -- the report on the graph
  abbrev pub report_of : ExplicitBuildReport
  report_of = record {
    node_count = length (runtime_nodes definition);
    edge_count = length (derived (runtime_nodes definition));
    unknown_fields = unknown_field_locations definition (derived (runtime_nodes definition));
  }

  -- Building an accepted definition, of which no two derived relationships have the same edge ID,
  -- raises nothing: it returns the graph of the definition's datasets, its logical entities by ID
  -- and the derived relationships, with a report on them.
  pub build_snapshot_returns :
      IsAccepted definition
      → IsDistinct (edge_ids (graph_of definition version))
      → build_snapshot_from_definition version definition
        ≡ ok (graph_of definition version, report_of, [])
  unfolding build_snapshot_from_definition new_snapshot
  build_snapshot_returns a edges = rw (
    traverse_of node_to_runtime runtime_node definition.nodes
        (λ n m. node_to_runtime-eq n ((parts definition a).nodes_valid n m)),
    runtime_identities-eq definition a,
    derive_relationships-eq (runtime_nodes definition) (runtime_nodes-AreConstructed definition a),
    (validate_graph_iff (graph_of definition version)).1 (graph-IsValid a edges),
  )

  -- If two relationships of an accepted definition have the same edge ID, the build raises the
  -- snapshot's complaint about it.
  pub build_snapshot_refuses :
      IsAccepted definition
      → (¬ IsDistinct (edge_ids (graph_of definition version)))
      → build_snapshot_from_definition version definition
        ≡ err (BuildProblem.snapshot SnapshotProblem.duplicate_edge)
  unfolding build_snapshot_from_definition new_snapshot validate_graph
  build_snapshot_refuses a clash = rw (
    traverse_of node_to_runtime runtime_node definition.nodes
        (λ n m. node_to_runtime-eq n ((parts definition a).nodes_valid n m)),
    runtime_identities-eq definition a,
    derive_relationships-eq (runtime_nodes definition) (runtime_nodes-AreConstructed definition a),
    (has_duplicates_iff (node_ids (graph_of definition version))).1 (node_ids-IsDistinct a),
    duplicated,
  )
    where
      duplicated : has_duplicates (edge_ids (graph_of definition version)) ≡ true
      duplicated = elim (Bool-cases (has_duplicates (edge_ids (graph_of definition version)))) [
        | inl yes_ ↦ yes_
        | inr no_ ↦
            absurd (clash ((has_duplicates_iff (edge_ids (graph_of definition version))).0 no_))
      ]
