-- ===== src/Model/Intermediary/Runtime.antt =====
-- The conversion of an accepted definition to datasets never raises.
use mathlib.Core.List.Memᴰ
use data_ontology_graph.Prelude.{
  Text, List, [], ◌∷◌, true, false, not, arith, ◌≡◌, refl, ap, ◌∙◌, subst, ◌⊎◌, inl, inr, ⊎_elim,
  map, all, any_of, Memᴰ, Memᴰ-map, contains, contains_iff, has_duplicates, is_empty, Option, none,
  some, Result, ok, guard-eq-ok, check_each, check_each-eq-ok, check_each_of, traverse_of, map_err,
  map_err-eq-ok, >>=-eq-ok, ◌>>◌, ◌==◌, ≡→==, ◌&&◌, nat_order, list_order, pair_order,
}
use data_ontology_graph.Model.Columns.{check_columns}
use data_ontology_graph.Model.Definition.{
  EntityDefinition, identity_id_must_be_nonempty, expressions_must_be_nonempty, as_columns,
  complete_must_conform, validate_definition,
}
use data_ontology_graph.Model.Dataset.{
  DatasetNode, Grain, LocalKey, NodeProblem, check_definitions, resolves, check_component,
  check_grain, validate_invariants,
}
use data_ontology_graph.Model.Intermediary.{
  IntermediaryEntityDefinition, IntermediaryNode, dump, validate_entity, definition_to_runtime,
  entity_key, check_entities, has_key, check_keyed_component, check_keyed_grain, inventory_of,
  validate_intermediary_properties, IntermediaryProblem, validate_node, new_node, node_to_runtime,
}

-- the dataset of a node
abbrev pub runtime_node : IntermediaryNode → DatasetNode
runtime_node n = record {
  node_id = n.node_id;
  descriptor = n.descriptor;
  accessor = n.accessor;
  grain = n.grain;
  columns = n.columns;
  entity_definitions = map dump n.entity_definitions;
}

complete_must_conform-eq :
    (e d : EntityDefinition) → complete_must_conform e ≡ ok d → complete_must_conform e ≡ ok e
unfolding complete_must_conform
complete_must_conform-eq e d h = ground arith

-- A definition that the intermediary's validators accept is accepted by the runtime's.
pub validate_definition-dump :
    (d : IntermediaryEntityDefinition)
    → validate_entity d ≡ ok tt
    → validate_definition (dump d) ≡ ok (dump d)
unfolding validate_entity validate_definition
validate_definition-dump d h =
    let (named, h1) = guard-eq-ok (not (is_empty d.identity_id)) _ _ h in
    let (_, inked, h2) = >>=-eq-ok (identity_id_must_be_nonempty d.identity_id) _ h1 in
    let (_, columns, h3) = >>=-eq-ok (as_columns (check_columns d.dataset_columns)) _ h2 in
    let (_, expressions, h4) = >>=-eq-ok (expressions_must_be_nonempty d.entity_expression) _ h3 in
    let (e, conforms, _) = >>=-eq-ok (complete_must_conform (dump d)) _ h4 in
    rw (named, columns)
      (ap
          (λ x.
            x
            >> (expressions_must_be_nonempty d.entity_expression >> complete_must_conform (dump d)))
          inked
        ∙ ap (λ x. x >> complete_must_conform (dump d)) expressions
        ∙ complete_must_conform-eq (dump d) e conforms)

-- The keys that the loop returns are those it was given and those of the definitions.
pub check_entities-eq-ok :
    (inventory : List Text) (seen : List LocalKey) (ds : List IntermediaryEntityDefinition)
    (keys : List LocalKey)
    → check_entities inventory seen ds ≡ ok keys
    → (check_definitions inventory seen (map dump ds) ≡ ok tt)
      × ((k : LocalKey) → Memᴰ k keys → Memᴰ k seen ⊎ Memᴰ k (map entity_key ds))
unfolding check_entities check_definitions
check_entities-eq-ok inventory seen [] keys h = (refl, λ k m. inl (subst (Memᴰ k) (same h) m))
  where
    same :
        {xs ys : List LocalKey}
        → ◌≡◌ {A = Result NodeProblem (List LocalKey)} (ok ys) (ok xs)
        → xs ≡ ys
    same e = cc
check_entities-eq-ok inventory seen (d ∷ ds) keys h =
    let (listed, h1) = guard-eq-ok (all (contains inventory) d.dataset_columns) _ _ h in
    let (new, h2) = guard-eq-ok (not (contains seen (entity_key d))) _ _ h1 in
    let (rest, found) = check_entities-eq-ok inventory (entity_key d ∷ seen) ds keys h2 in
    (
      rw (listed, new) rest,
      λ k m.
          ⊎_elim (λ old. ⊎_elim (λ e. inr (Memᴰ.head e)) inl (Memᴰ.cases_cons old))
            (λ later. inr (Memᴰ.tail later)) (found k m),
    )

-- A key in the set is the key of a definition in the list.
resolves-of_key :
    (ds : List IntermediaryEntityDefinition) (keys : List LocalKey) (columns : List Text)
    (identity_id : Option Text)
    → ((k : LocalKey) → Memᴰ k keys → Memᴰ k (map entity_key ds))
    → has_key keys columns identity_id ≡ true
    → resolves (map dump ds) columns identity_id ≡ true
resolves-of_key ds keys columns none known h = refl
resolves-of_key ds keys columns (some i) known h =
    let (d, m, e) =
      (Memᴰ-map entity_key (i, columns) ds).0
        (known (i, columns) ((contains_iff keys (i, columns)).0 h)) in
    any_of (λ x. x.identity_id == i && x.dataset_columns == columns) (map dump ds) (Memᴰ.map dump m)
      (rw (
        ≡→== d.identity_id i (ap (λ (k : LocalKey). k.0) e),
        ≡→== d.dataset_columns columns (ap (λ (k : LocalKey). k.1) e),
      ))

check_grain-of_keyed :
    (inventory : List Text) (ds : List IntermediaryEntityDefinition) (keys : List LocalKey)
    (g : Grain)
    → ((k : LocalKey) → Memᴰ k keys → Memᴰ k (map entity_key ds))
    → check_keyed_grain inventory keys g ≡ ok tt
    → check_grain inventory (map dump ds) g ≡ ok tt
check_grain-of_keyed inventory ds keys Grain.unknown known h = refl
check_grain-of_keyed inventory ds keys (Grain.known g) known h =
    check_each_of (check_component inventory (map dump ds)) g.components (λ c m.
      let passed_c = check_each-eq-ok (check_keyed_component inventory keys) g.components h m in
      let (listed, h1) = guard-eq-ok (all (contains inventory) c.dataset_columns) _ _ passed_c in
      let (keyed, _) = guard-eq-ok (has_key keys c.dataset_columns c.identity_id) _ _ h1 in
      rw (listed, resolves-of_key ds keys c.dataset_columns c.identity_id known keyed))

-- The dataset's validator, which looks the grain up in the definitions, accepts what the
-- intermediary's does, which looks it up in a set of keys.
validate_invariants-runtime :
    (n : IntermediaryNode)
    → validate_intermediary_properties n ≡ ok tt
    → validate_invariants (runtime_node n) ≡ ok tt
unfolding validate_intermediary_properties validate_invariants
validate_invariants-runtime n h =
    let (names, h1) = guard-eq-ok (not (has_duplicates (inventory_of n))) _ _ h in
    let (keys, entities, grain) =
      >>=-eq-ok (check_entities (inventory_of n) [] n.entity_definitions) _ h1 in
    let (definitions, found) =
      check_entities-eq-ok (inventory_of n) [] n.entity_definitions keys entities in
    rw (names, definitions)
      (check_grain-of_keyed (inventory_of n) n.entity_definitions keys n.grain
        (λ k m. ⊎_elim (λ old. absurd (Memᴰ.not-nil old)) (λ own. own) (found k m)) grain)

-- What a node that was accepted passed.
pub record IsAcceptedNode (n : IntermediaryNode) : Type 0 where
  pub named : is_empty n.node_id ≡ false
  pub some_column : is_empty n.columns ≡ false
  pub entities :
      (d : IntermediaryEntityDefinition) → Memᴰ d n.entity_definitions → validate_entity d ≡ ok tt
  pub properties : validate_intermediary_properties n ≡ ok tt

pub validate_node-eq-ok : (n : IntermediaryNode) → validate_node n ≡ ok tt → IsAcceptedNode n
unfolding validate_node
validate_node-eq-ok n h =
    let (named, h1) = guard-eq-ok (not (is_empty n.node_id)) _ _ h in
    let (some_column, h2) = guard-eq-ok (not (is_empty n.columns)) _ _ h1 in
    let (_, entities, properties) =
      >>=-eq-ok
        (map_err IntermediaryProblem.definition (check_each validate_entity n.entity_definitions)) _
        h2 in
    record {
      named = ground arith;
      some_column = ground arith;
      entities = λ d m.
          check_each-eq-ok validate_entity n.entity_definitions
            (map_err-eq-ok IntermediaryProblem.definition _ entities) m;
      properties = map_err-eq-ok IntermediaryProblem.node _ properties;
    }

-- A node that the intermediary's validators accept converts to a dataset with the same fields: no
-- validator of the runtime model raises.
pub node_to_runtime-eq :
    (n : IntermediaryNode) → validate_node n ≡ ok tt → node_to_runtime n ≡ ok (runtime_node n)
unfolding node_to_runtime new_node definition_to_runtime
node_to_runtime-eq n h =
    let a = validate_node-eq-ok n h in
    rw (
      traverse_of definition_to_runtime dump n.entity_definitions
          (λ d m. validate_definition-dump d (a.entities d m)),
      a.named,
      a.some_column,
      validate_invariants-runtime n a.properties,
    )
