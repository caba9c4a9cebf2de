-- ===== src/Builder/Build.antt =====
-- `build_snapshot_from_definition` on an accepted definition.
use mathlib.Core.List.Memᴰ
use data_ontology_graph.Prelude.{
  Text, List, [], ◌∷◌, Bool, false, not, arith, ◌≡◌, refl, sym, ap, subst, map, any, Memᴰ, Memᴰ-map,
  Memᴰ-sorted_by, contains, contains_iff, has_duplicates, has_duplicates_iff, IsDistinct, is_empty,
  strip, ok, guard-eq-ok, passed, check_each, check_each-eq-ok, traverse_of, >>=-eq-ok, sorted_by,
  nat_order, list_order, triple_order,
}
use data_ontology_graph.Model.Definition.{validate_definition}
use data_ontology_graph.Model.Dataset.{DatasetNode}
use data_ontology_graph.Model.Derivation.Derived.{AreConstructed, derived}
use data_ontology_graph.Model.Snapshot.{GraphSnapshot, LogicalIdentity}
use data_ontology_graph.Model.Intermediary.{
  IntermediaryDefinition, IntermediaryNode, IntermediaryEntityDefinition, LogicalIdentityDefinition,
  dump, registry_keys, check_references, check_reference, check_registered, validate_intermediary,
  validate_node, validate_registry_and_references, new_identity, runtime_identities, is_blank,
}
use data_ontology_graph.Model.Intermediary.Runtime.{
  runtime_node, validate_definition-dump, IsAcceptedNode, validate_node-eq-ok,
}

abbrev pub Entry : Type 0
Entry = Text × LogicalIdentityDefinition

abbrev pub identity_of_entry : Entry → LogicalIdentity
identity_of_entry (identity_id, d) = record {
  identity_id = identity_id;
  name = d.name;
  description = d.description;
  synonyms = d.synonyms;
}

module _ (definition : IntermediaryDefinition) where
  abbrev pub runtime_nodes : List DatasetNode
  runtime_nodes = map runtime_node definition.nodes

  abbrev pub entries : List Entry
  entries = sorted_by (λ (p : Entry). p.0) definition.logical_identities

  -- the graph that the definition describes
  abbrev pub graph_of : Text → GraphSnapshot
  graph_of version = record {
    version = version;
    logical_identities = map identity_of_entry entries;
    nodes = runtime_nodes;
    edges = derived runtime_nodes;
    annotations = [];
  }

  -- The validators accepted the definition; the registry is a dictionary, so its keys are distinct.
  pub record IsAccepted : Type 0 where
    pub validated : validate_intermediary definition ≡ ok tt
    pub registry_distinct : IsDistinct (registry_keys definition)

  -- what the validators established
  pub record Parts : Type 0 where
    pub registered : (p : Entry) → Memᴰ p definition.logical_identities → is_empty p.1.name ≡ false
    pub keys_written : (k : Text) → Memᴰ k (registry_keys definition) → is_empty k ≡ false
    pub nodes : (n : IntermediaryNode) → Memᴰ n definition.nodes → IsAcceptedNode n
    pub nodes_valid : (n : IntermediaryNode) → Memᴰ n definition.nodes → validate_node n ≡ ok tt
    pub nodes_distinct : IsDistinct (map (λ (n : IntermediaryNode). n.node_id) definition.nodes)
    pub referenced :
        (n : IntermediaryNode) (d : IntermediaryEntityDefinition)
        → Memᴰ n definition.nodes
        → Memᴰ d n.entity_definitions
        → Memᴰ d.identity_id (registry_keys definition)

  not_any :
      (p : Text → Bool) (xs : List Text) (x : Text) → any p xs ≡ false → Memᴰ x xs → p x ≡ false
  not_any p [] x h m = elim m [ ]
  not_any p (y ∷ xs) x h (Memᴰ.head e) = ground (arith, ap p e)
  not_any p (y ∷ xs) x h (Memᴰ.tail m) = not_any p xs x (ground arith) m

  written : (k : Text) → is_blank k ≡ false → is_empty k ≡ false
  unfolding strip
  written [] h = cc
  written (c ∷ k) h = refl

  pub parts : IsAccepted → Parts
  unfolding validate_intermediary validate_registry_and_references
  parts a =
      let (_, h1) = guard-eq-ok (not (is_empty definition.logical_identities)) _ _ a.validated in
      let (_, names, h2) =
        >>=-eq-ok (check_each check_registered definition.logical_identities) _ h1 in
      let (_, h3) = guard-eq-ok (not (is_empty definition.nodes)) _ _ h2 in
      let (_, nodes, h4) = >>=-eq-ok (check_each validate_node definition.nodes) _ h3 in
      let (keys, h5) = guard-eq-ok (not (any is_blank (registry_keys definition))) _ _ h4 in
      let (distinct, references) =
        guard-eq-ok
          (not (has_duplicates (map (λ (n : IntermediaryNode). n.node_id) definition.nodes))) _ _
          h5 in
      record {
        registered = λ p m.
            let named =
              passed (not (is_empty p.1.name)) _ (check_each-eq-ok check_registered _ names m) in
            ground arith;
        keys_written =
            λ k m. written k (not_any is_blank (registry_keys definition) k (ground arith) m);
        nodes = λ n m. validate_node-eq-ok n (check_each-eq-ok validate_node _ nodes m);
        nodes_valid = λ n m. check_each-eq-ok validate_node _ nodes m;
        nodes_distinct =
            (has_duplicates_iff (map (λ (n : IntermediaryNode). n.node_id) definition.nodes)).0
              (ground arith);
        referenced = λ n d at on.
            let one =
              check_each-eq-ok (check_references (registry_keys definition)) _ references at in
            let found = passed (contains (registry_keys definition) d.identity_id) _ (
              check_each-eq-ok (check_reference (registry_keys definition) n) n.entity_definitions
                one on) in
            (contains_iff (registry_keys definition) d.identity_id).0 found;
      }

  pub runtime_nodes-AreConstructed : IsAccepted → AreConstructed runtime_nodes
  runtime_nodes-AreConstructed a = record {
    node_ids = λ node m.
        let (n, at, e) = (Memᴰ-map runtime_node node definition.nodes).0 m in
        subst (λ (x : DatasetNode). is_empty x.node_id ≡ false) e ((parts a).nodes n at).named;
    definitions = λ node d m on.
        let (n, at, e) = (Memᴰ-map runtime_node node definition.nodes).0 m in
        let (x, inside, same) =
          (Memᴰ-map dump d n.entity_definitions).0
            (subst (λ (y : DatasetNode). Memᴰ d y.entity_definitions) (sym e) on) in
        subst (λ y. validate_definition y ≡ ok y) same
          (validate_definition-dump x (((parts a).nodes n at).entities x inside));
  }

  pub runtime_identities-eq :
      IsAccepted → runtime_identities definition ≡ ok (map identity_of_entry entries)
  unfolding runtime_identities new_identity
  runtime_identities-eq a = traverse_of new_identity identity_of_entry entries (λ p m.
      let at = (Memᴰ-sorted_by (λ (q : Entry). q.0) p definition.logical_identities).0 m in
      rw ((parts a).keys_written p.0 (Memᴰ.map (λ (q : Entry). q.0) at), (parts a).registered p at))
