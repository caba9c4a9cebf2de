-- ===== src/Builder/Report.antt =====
-- builder/report.py: where a build still has unknown claims.
use mathlib.Core.List.Memᴰ
use data_ontology_graph.Prelude.{
  ℕ, Text, text, List, ◌++◌, Bool, true, ◌≡◌, refl, sym, ◌↔◌, inl, inr, ⊎_elim, ◌⊎◌, map, flat_map,
  join, sorted_by, Memᴰ, Memᴰ-map, Memᴰ-select, Memᴰ-append, Memᴰ-flat_map, Memᴰ-sorted_by,
  nat_order, list_order,
}
use data_ontology_graph.Model.Claims.{Claims, unknown_fields}
use data_ontology_graph.Model.Definition
use data_ontology_graph.Model.Dataset
use data_ontology_graph.Model.Relationship
use data_ontology_graph.Model.Relationship.{JoinRelationship}
use data_ontology_graph.Model.Intermediary.{
  IntermediaryDefinition, IntermediaryNode, IntermediaryEntityDefinition, dump,
}
use data_ontology_graph.Model.Intermediary.Runtime.{runtime_node}

pub record ExplicitBuildReport : Type 0 where
  pub node_count : ℕ
  pub edge_count : ℕ
  pub unknown_fields : List Text

-- `_locations`
unfoldable pub locations : Claims → Text → List Text
unfolding unknown_fields
locations subject location = map (λ path. location ++ text "." ++ path) (unknown_fields subject)

-- The claim fields are those of the runtime classes.
abbrev pub node_claims : IntermediaryNode → Claims
node_claims n = Dataset.claims (runtime_node n)

abbrev pub entity_claims : IntermediaryEntityDefinition → Claims
entity_claims d = Definition.claims (dump d)

abbrev pub node_location : IntermediaryNode → Text
node_location n = text "nodes[" ++ n.node_id ++ text "]"

abbrev pub entity_location : IntermediaryNode → IntermediaryEntityDefinition → Text
entity_location n d =
    node_location n
    ++ text ".entity_definitions["
    ++ d.identity_id
    ++ text ":"
    ++ join (text "+") d.dataset_columns
    ++ text "]"

abbrev pub node_locations : IntermediaryNode → List Text
node_locations n =
    locations (node_claims n) (node_location n)
    ++ flat_map (λ d. locations (entity_claims d) (entity_location n d)) n.entity_definitions

abbrev pub edge_location : JoinRelationship → Text
edge_location r = text "edges[" ++ r.edge_id ++ text "]"

abbrev pub edge_locations : JoinRelationship → List Text
edge_locations r = locations (Relationship.claims r) (edge_location r)

unfoldable pub unknown_field_locations : IntermediaryDefinition → List JoinRelationship → List Text
unfolding locations sorted_by
unknown_field_locations definition relationships =
    flat_map node_locations (sorted_by (λ n. n.node_id) definition.nodes)
    ++ flat_map edge_locations (sorted_by (λ r. r.edge_id) relationships)

-- An unknown claim of the build: of a dataset, of a definition or of a relationship, at a path.
pub data IsUnknownClaim (definition : IntermediaryDefinition)
    (relationships : List JoinRelationship) : Text → Text → Type 0 where
  of_node :
      {path : Text} (n : IntermediaryNode)
      → Memᴰ n definition.nodes
      → Memᴰ (path, true) (node_claims n)
      → IsUnknownClaim definition relationships (node_location n) path
  of_entity :
      {path : Text} (n : IntermediaryNode) (d : IntermediaryEntityDefinition)
      → Memᴰ n definition.nodes
      → Memᴰ d n.entity_definitions
      → Memᴰ (path, true) (entity_claims d)
      → IsUnknownClaim definition relationships (entity_location n d) path
  of_edge :
      {path : Text} (r : JoinRelationship)
      → Memᴰ r relationships
      → Memᴰ (path, true) (Relationship.claims r)
      → IsUnknownClaim definition relationships (edge_location r) path

locations-mem :
    (subject : Claims) (location l : Text)
    → Memᴰ l (locations subject location)
      ↔ ((path : Text) × Memᴰ (path, true) subject × (l ≡ location ++ text "." ++ path))
unfolding locations unknown_fields
locations-mem subject location l = (
  λ m.
      let (path, at, e) = (Memᴰ-map (λ p. location ++ text "." ++ p) l _).0 m in
      let (c, inside, named) =
        (Memᴰ-map (λ (x : Text × Bool). x.0) path _).0 ((Memᴰ-sorted_by (λ p. p) path _).0 at) in
      let (of_subject, unknown) = (Memᴰ-select (λ (x : Text × Bool). x.1) c subject).0 inside in
      (path, Memᴰ.cast (λ i. (sym named i, sym unknown i)) of_subject, sym e),
  λ (path, m, e). Memᴰ.cast e (
      Memᴰ.map (λ p. location ++ text "." ++ p)
        ((Memᴰ-sorted_by (λ p. p) path _).1 (
          Memᴰ.map (λ (x : Text × Bool). x.0)
            ((Memᴰ-select (λ (x : Text × Bool). x.1) (path, true) subject).1 (m, refl))))),
)

-- The report lists a location exactly when it is that of an unknown claim: a claim of a dataset, of
-- one of its definitions or of a relationship whose value is the explicit unknown.
pub unknown_field_locations_iff :
    (definition : IntermediaryDefinition) (relationships : List JoinRelationship) (l : Text)
    → Memᴰ l (unknown_field_locations definition relationships) ↔ (
        (location : Text) × (path : Text) × IsUnknownClaim definition relationships location path
        × (l ≡ location ++ text "." ++ path))
unfolding unknown_field_locations
unknown_field_locations_iff definition relationships l = (
  λ m. ⊎_elim of_nodes of_edges ((Memᴰ-append l _ _).0 m),
  λ (location, path, claim, e). (Memᴰ-append l _ _).1 (listed location path claim e),
)
  where
    sorted_nodes : List IntermediaryNode
    sorted_nodes = sorted_by (λ n. n.node_id) definition.nodes

    sorted_edges : List JoinRelationship
    sorted_edges = sorted_by (λ r. r.edge_id) relationships

    of_nodes :
        Memᴰ l (flat_map node_locations sorted_nodes)
        → (location : Text) × (path : Text) × IsUnknownClaim definition relationships location path
          × (l ≡ location ++ text "." ++ path)
    of_nodes m =
        let (n, at, inside) = (Memᴰ-flat_map node_locations l sorted_nodes).0 m in
        let known =
          (Memᴰ-sorted_by (λ (x : IntermediaryNode). x.node_id) n definition.nodes).0 at in
        ⊎_elim
          (λ own.
            let (path, c, e) = (locations-mem (node_claims n) (node_location n) l).0 own in
            (node_location n, path, of_node n known c, e))
          (λ deep.
            let (d, on, found) =
              (Memᴰ-flat_map (λ x. locations (entity_claims x) (entity_location n x)) l
                  n.entity_definitions).0
                deep in
            let (path, c, e) = (locations-mem (entity_claims d) (entity_location n d) l).0 found in
            (entity_location n d, path, of_entity n d known on c, e))
          ((Memᴰ-append l _ _).0 inside)

    of_edges :
        Memᴰ l (flat_map edge_locations sorted_edges)
        → (location : Text) × (path : Text) × IsUnknownClaim definition relationships location path
          × (l ≡ location ++ text "." ++ path)
    of_edges m =
        let (r, at, inside) = (Memᴰ-flat_map edge_locations l sorted_edges).0 m in
        let (path, c, e) = (locations-mem (Relationship.claims r) (edge_location r) l).0 inside in
        (
          edge_location r,
          path,
          of_edge r ((Memᴰ-sorted_by (λ (x : JoinRelationship). x.edge_id) r relationships).0 at) c,
          e,
        )

    listed :
        (location path : Text)
        → IsUnknownClaim definition relationships location path
        → l ≡ location ++ text "." ++ path
        → Memᴰ l (flat_map node_locations sorted_nodes)
          ⊎ Memᴰ l (flat_map edge_locations sorted_edges)
    listed location path (of_node n m c) e = inl (
        (Memᴰ-flat_map node_locations l sorted_nodes).1 (
          n,
          (Memᴰ-sorted_by (λ (x : IntermediaryNode). x.node_id) n definition.nodes).1 m,
          (Memᴰ-append l _ _).1
              (inl ((locations-mem (node_claims n) (node_location n) l).1 (path, c, e))),
        ))
    listed location path (of_entity n d m on c) e = inl (
        (Memᴰ-flat_map node_locations l sorted_nodes).1 (
          n,
          (Memᴰ-sorted_by (λ (x : IntermediaryNode). x.node_id) n definition.nodes).1 m,
          (Memᴰ-append l _ _).1 (
              inr (
                (Memᴰ-flat_map (λ x. locations (entity_claims x) (entity_location n x)) l
                    n.entity_definitions).1
                  (
                    d,
                    on,
                    (locations-mem (entity_claims d) (entity_location n d) l).1 (path, c, e),
                  ))),
        ))
    listed location path (of_edge r m c) e = inr (
        (Memᴰ-flat_map edge_locations l sorted_edges).1 (
          r,
          (Memᴰ-sorted_by (λ (x : JoinRelationship). x.edge_id) r relationships).1 m,
          (locations-mem (Relationship.claims r) (edge_location r) l).1 (path, c, e),
        ))
