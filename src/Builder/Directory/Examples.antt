-- ===== src/Builder/Directory/Examples.antt =====
-- A directory with one file of identities and one of nodes, and the theorem on loading it.
use data_ontology_graph.Prelude.{
  Text, text, List, [], ◌∷◌, true, ◌≡◌, ◌≢◌, refl, some, Option, Result, ok, err, map, contains,
  sorted_by, join, ◌==◌, nat_order, list_order, if◌then◌else◌,
}
use data_ontology_graph.Prelude.Json.{Json, Items, Fields}
use data_ontology_graph.Model.Intermediary.{IntermediaryDefinition, IntermediaryDirectoryManifest}
use data_ontology_graph.Builder.Directory.Paths.{relative_path, parts, split_slash, has_yaml_suffix}
use data_ontology_graph.Builder.Directory.Collections.{
  Document, ValidationFinding, finding, load_document, load_identities, load_nodes,
}
use data_ontology_graph.Builder.Directory.{
  Source, Payload, assemble_intermediary_directory, inventory_findings, check_entries, check_files,
  load_entries, load_intermediary_directory,
}
use data_ontology_graph.Builder.Directory.Loaded.{
  Outcome, Accepts, load_intermediary_directory_returns,
}

abbrev manifest : IntermediaryDirectoryManifest
manifest = record { logical_identities = text "ids.yaml"; nodes = text "./nodes.YML" ∷ [] }

abbrev version_field : Fields → Fields
version_field fields = Fields.field (text "schema_version") (Json.string (text "4")) fields

abbrev order_node : Json
order_node = Json.object (Fields.field (text "node_id") (Json.string (text "orders")) Fields.end)

abbrev read_file : Text → Document
read_file path =
    if path == text "ids.yaml"
    then Document.parsed (
        Json.object (
          version_field (
            Fields.field (text "logical_identities")
              (Json.object (Fields.field (text "customer") Json.null Fields.end)) Fields.end)))
    else Document.parsed (
        Json.object (
          version_field (
            Fields.field (text "nodes") (Json.array (Items.item order_node Items.nil)) Fields.end)))

abbrev listed_files : List Text
listed_files = text "nodes.YML" ∷ text "ids.yaml" ∷ []

abbrev directory : List Text → Source
directory files = record {
  is_dir = true;
  manifest = some (Document.parsed Json.null);
  files = files;
  is_file = contains files;
  resolves_inside = λ path. true;
  read = read_file;
}

abbrev parse_manifest : Json → Result (List ValidationFinding) IntermediaryDirectoryManifest
parse_manifest Json.null = ok manifest
parse_manifest _ = err (finding (text "$") (text "model_type") ∷ [])

abbrev model_validate : Payload → Result (List ValidationFinding) IntermediaryDefinition
model_validate ([], nodes) = err (finding (text "$.logical_identities") (text "too_short") ∷ [])
model_validate (i ∷ identities, nodes) = ok (record { logical_identities = []; nodes = [] })

abbrev rules : Option Payload × List ValidationFinding → List Text
rules r = map (λ f. f.rule) r.1

assembled :
    assemble_intermediary_directory (directory listed_files) parse_manifest model_validate
    ≡ (some ((text "customer", Json.null) ∷ [], order_node ∷ []), [])
unfolding assemble_intermediary_directory inventory_findings check_entries check_files load_entries
    load_document load_identities load_nodes relative_path parts split_slash has_yaml_suffix join
    contains sorted_by
assembled = refl

unlisted :
    rules (
      assemble_intermediary_directory
        (directory (text "more.yaml" ∷ listed_files))
        parse_manifest
        model_validate)
    ≡ text "unlisted_file" ∷ []
unfolding assemble_intermediary_directory inventory_findings check_entries check_files load_entries
    load_document load_identities load_nodes relative_path parts split_slash has_yaml_suffix join
    contains sorted_by
unlisted = refl

manifest_reports : (j : Json) (fs : List ValidationFinding) → parse_manifest j ≡ err fs → fs ≢ []
manifest_reports Json.null fs h e = cc
manifest_reports (Json.bool b) fs h e = cc
manifest_reports (Json.number n) fs h e = cc
manifest_reports (Json.string t) fs h e = cc
manifest_reports (Json.array items) fs h e = cc
manifest_reports (Json.object fields) fs h e = cc

model_reports : (p : Payload) (fs : List ValidationFinding) → model_validate p ≡ err fs → fs ≢ []
model_reports ([], nodes) fs h e = cc
model_reports (i ∷ identities, nodes) fs h e = cc

load_intermediary_directory_returns_example :
    Outcome
      (directory listed_files)
      parse_manifest
      model_validate
      (load_intermediary_directory (directory listed_files) parse_manifest model_validate)
    × Accepts
        (directory listed_files)
        parse_manifest
        model_validate
        (load_intermediary_directory (directory listed_files) parse_manifest model_validate)
load_intermediary_directory_returns_example =
    load_intermediary_directory_returns (directory listed_files) parse_manifest model_validate
      manifest_reports model_reports
