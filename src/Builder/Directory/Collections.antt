-- ===== src/Builder/Directory/Collections.antt =====
-- One collection file: the checks on its keys, and what it adds to the definition.
use data_ontology_graph.Prelude.{
  ℕ, suc, Text, text, List, [], ◌∷◌, ◌++◌, Bool, false, not, ◌||◌, map, contains, select, Option,
  none, some, if◌then◌else◌, ◌==◌, sorted_by, nat_order, list_order,
}
use data_ontology_graph.Prelude.Json.{Json, Items, Fields, get}
use data_ontology_graph.Builder.Directory.Paths.{decimal}

-- What the YAML parser made of a file: a document, or a syntax error with its line and column.
pub data Document : Type 0 where
  broken : Option (ℕ × ℕ) → Document
  parsed : Json → Document

pub record ValidationFinding : Type 0 where
  pub location : Text
  pub rule : Text
  pub mark : Option (ℕ × ℕ)

abbrev pub finding : Text → Text → ValidationFinding
finding location rule = record { location = location; rule = rule; mark = none }

pub data Collection : Type 0 where
  logical_identities nodes : Collection

abbrev pub collection_name : Collection → Text
collection_name Collection.logical_identities = text "logical_identities"
collection_name Collection.nodes = text "nodes"

abbrev pub document_keys : Fields → List Text
document_keys Fields.end = []
document_keys (Fields.field k v fields) = k ∷ document_keys fields

-- The definition so far. `node_ids` are the keys of `node_sources`.
pub record Assembly : Type 0 where
  pub identities : List (Text × Json)
  pub nodes : List Json
  pub node_ids : List Text
  pub findings : List ValidationFinding

abbrev pub report : Assembly → List ValidationFinding → Assembly
report a fs = record {
  identities = a.identities;
  nodes = a.nodes;
  node_ids = a.node_ids;
  findings = a.findings ++ fs;
}

abbrev pub required_keys : Collection → List Text
required_keys c = text "schema_version" ∷ collection_name c ∷ []

abbrev pub missing_findings : Collection → Text → Fields → List ValidationFinding
missing_findings c relative fields =
    map (λ key. finding (relative ++ text ":$") (text "missing"))
      (sorted_by (λ key. key)
        (select (λ key. not (contains (document_keys fields) key)) (required_keys c)))

abbrev pub extra_rule : Text → Text
extra_rule key =
    if key == text "logical_identities" || key == text "nodes"
    then text "collection_ownership"
    else text "extra_forbidden"

abbrev pub extra_findings : Collection → Text → Fields → List ValidationFinding
extra_findings c relative fields =
    map (λ key. finding (relative ++ text ":$." ++ key) (extra_rule key))
      (sorted_by (λ key. key)
        (select (λ key. not (contains (required_keys c) key)) (document_keys fields)))

-- `document.get("schema_version") == "4"`
abbrev pub is_version : Option Json → Bool
is_version (some (Json.string version)) = version == text "4"
is_version _ = false

abbrev pub version_findings : Text → Fields → List ValidationFinding
version_findings relative fields =
    if is_version (get fields (text "schema_version"))
    then []
    else finding (relative ++ text ":$.schema_version") (text "conflicting_schema_version") ∷ []

unfoldable pub load_identities : Assembly → Text → Fields → Assembly
unfolding contains
load_identities a relative Fields.end = a
load_identities a relative (Fields.field identity_id definition fields) =
    load_identities
      (if contains (map (λ (p : Text × Json). p.0) a.identities) identity_id
        then report a (
            finding (relative ++ text ":$.logical_identities." ++ identity_id)
              (text "duplicate_definition")
            ∷ [])
        else record {
          identities = a.identities ++ (identity_id, definition) ∷ [];
          nodes = a.nodes;
          node_ids = a.node_ids;
          findings = a.findings;
        })
      relative fields

-- `node.get("node_id")` where it is a string
abbrev pub named : Option Json → Option Text
named (some (Json.string s)) = some s
named _ = none

abbrev pub node_id_of : Json → Option Text
node_id_of (Json.object fields) = named (get fields (text "node_id"))
node_id_of _ = none

abbrev pub load_node : Assembly → Text → ℕ → Json → Option Text → Assembly
load_node a relative index node none = record {
  identities = a.identities;
  nodes = a.nodes ++ node ∷ [];
  node_ids = a.node_ids;
  findings = a.findings;
}
load_node a relative index node (some node_id) =
    if contains a.node_ids node_id
    then report a (
        finding (relative ++ text ":$.nodes[" ++ decimal index ++ text "].node_id")
          (text "duplicate_definition")
        ∷ [])
    else record {
      identities = a.identities;
      nodes = a.nodes ++ node ∷ [];
      node_ids = a.node_ids ++ node_id ∷ [];
      findings = a.findings;
    }

unfoldable pub load_nodes : Assembly → Text → ℕ → Items → Assembly
unfolding contains
load_nodes a relative index Items.nil = a
load_nodes a relative index (Items.item node items) =
    load_nodes (load_node a relative index node (node_id_of node)) relative (suc index) items

abbrev pub load_collection : Assembly → Collection → Text → Option Json → Assembly
load_collection a Collection.logical_identities relative (some (Json.object fields)) =
    load_identities a relative fields
load_collection a Collection.logical_identities relative _ =
    report a (finding (relative ++ text ":$.logical_identities") (text "mapping_type") ∷ [])
load_collection a Collection.nodes relative (some (Json.array items)) =
    load_nodes a relative 0 items
load_collection a Collection.nodes relative _ =
    report a (finding (relative ++ text ":$.nodes") (text "list_type") ∷ [])

-- the body of the loop over the collection files
unfoldable pub load_document : Assembly → Collection → Text → Document → Assembly
unfolding load_identities load_nodes sorted_by
load_document a c relative (Document.broken mark) =
    report a
      (record { location = relative ++ text ":$"; rule = text "yaml_syntax"; mark = mark } ∷ [])
load_document a c relative (Document.parsed (Json.object fields)) =
    load_collection
      (report a (
        missing_findings c relative fields
        ++ (extra_findings c relative fields ++ version_findings relative fields)))
      c relative (get fields (collection_name c))
load_document a c relative (Document.parsed _) =
    report a (finding (relative ++ text ":$") (text "mapping_type") ∷ [])
