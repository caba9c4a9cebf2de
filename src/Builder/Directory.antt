-- ===== src/Builder/Directory.antt =====
-- builder/intermediary.py: the assembly of one definition from a directory of YAML files. The file
-- system and the YAML parser answer through `Source`; the parsing of a payload into the models is
-- an argument. A finding's message is left out: it follows from the rule and the location.
pub mod Paths
pub mod Collections
pub mod Inventory
pub mod Assembled
pub mod Loaded
mod Examples
use data_ontology_graph.Prelude.{
  ℕ, zero, suc, ◌+◌, Text, text, List, [], ◌∷◌, ◌++◌, Bool, true, false, not, ◌||◌, map, contains,
  select, any, is_empty, Option, none, some, Result, ok, err, if◌then◌else◌, ◌==◌, sorted_by,
  nat_order, list_order,
}
use data_ontology_graph.Prelude.Json.{Json}
use data_ontology_graph.Model.Intermediary.{
  IntermediaryDefinition, IntermediaryDirectoryManifest, IntermediaryNode,
  LogicalIdentityDefinition,
}
use data_ontology_graph.Builder.Directory.Paths.{
  is_absolute, parts, relative_path, has_yaml_suffix, decimal,
}
use data_ontology_graph.Builder.Directory.Collections.{
  Document, ValidationFinding, finding, Collection, collection_name, Assembly, load_document,
}

-- What the file system answers about the directory: the manifest beside it, the paths of the files
-- in it, whether a path names a file and resolves to a place inside, and the document in a file.
pub record Source : Type 0 where
  pub is_dir : Bool
  pub manifest : Option Document
  pub files : List Text
  pub is_file : Text → Bool
  pub resolves_inside : Text → Bool
  pub read : Text → Document

-- (collection, raw path, location in the manifest)
abbrev pub Entry : Type 0
Entry = Collection × Text × Text

abbrev pub manifest_filename : Text
manifest_filename = text "directory-manifest.yaml"

abbrev pub node_entries : ℕ → List Text → List Entry
node_entries index [] = []
node_entries index (path ∷ paths) =
    (Collection.nodes, path, text "$.nodes[" ++ decimal index ++ text "]")
    ∷ node_entries (suc index) paths

abbrev pub entries_of : IntermediaryDirectoryManifest → List Entry
entries_of manifest =
    (Collection.logical_identities, manifest.logical_identities, text "$.logical_identities")
    ∷ node_entries 0 manifest.nodes

module _ (source : Source) where
  -- what is wrong with a listed file
  abbrev pub file_findings : Text → Text → List ValidationFinding
  file_findings location relative =
      if not (has_yaml_suffix relative)
      then finding location (text "unsupported_file") ∷ []
      else if not (source.resolves_inside relative)
      then finding location (text "path_outside_directory") ∷ []
      else if not (source.is_file relative)
      then finding location (text "missing_file") ∷ []
      else []

  -- one round of the loop over the entries: the keys of `listed`, and the round's findings
  abbrev pub check_entry : List Text → Entry → List Text × List ValidationFinding
  check_entry listed (collection, raw_path, manifest_location) =
      let location = manifest_filename ++ text ":" ++ manifest_location in
      if is_absolute raw_path || contains (parts raw_path) (text "..")
      then (listed, finding location (text "invalid_collection_path") ∷ [])
      else if contains listed (relative_path raw_path)
      then (listed, finding location (text "duplicate_manifest_path") ∷ [])
      else (listed ++ relative_path raw_path ∷ [], file_findings location (relative_path raw_path))

  unfoldable pub check_entries : List Text → List Entry → List Text × List ValidationFinding
  unfolding contains
  check_entries listed [] = (listed, [])
  check_entries listed (entry ∷ entries) =
      let (listed1, here) = check_entry listed entry in
      let (listed2, later) = check_entries listed1 entries in (listed2, here ++ later)

  abbrev pub check_file : List Text → Text → List ValidationFinding
  check_file listed relative =
      if not (has_yaml_suffix relative)
      then finding relative (text "unsupported_file") ∷ []
      else if not (contains listed relative)
      then finding relative (text "unlisted_file") ∷ []
      else []

  unfoldable pub check_files : List Text → List Text → List ValidationFinding
  check_files listed [] = []
  check_files listed (relative ∷ files) = check_file listed relative ++ check_files listed files

  -- the findings before any collection file is read
  unfoldable pub inventory_findings : List Entry → List ValidationFinding
  unfolding check_entries check_files sorted_by
  inventory_findings entries =
      let (listed, findings) = check_entries [] entries in
      findings
      ++ (if is_empty source.files then finding (text "$") (text "missing_yaml") ∷ [] else [])
      ++ check_files listed (sorted_by (λ path. path) source.files)

  -- the loop that reads the files
  unfoldable pub load_entries : Assembly → List Entry → Assembly
  unfolding load_document
  load_entries assembly [] = assembly
  load_entries assembly ((collection, raw_path, location) ∷ entries) =
      load_entries
        (load_document assembly collection (relative_path raw_path)
          (source.read (relative_path raw_path)))
        entries

abbrev pub Payload : Type 0
Payload = List (Text × Json) × List Json

-- the copy with its collections in order
abbrev pub in_order : IntermediaryDefinition → IntermediaryDefinition
in_order d = record {
  logical_identities =
      sorted_by (λ (p : Text × LogicalIdentityDefinition). p.0) d.logical_identities;
  nodes = sorted_by (λ (n : IntermediaryNode). n.node_id) d.nodes;
}

abbrev pub findings_of :
    Result (List ValidationFinding) IntermediaryDefinition → List ValidationFinding
findings_of (ok d) = []
findings_of (err findings) = findings

-- what `load_intermediary_directory` raises: its own error, the failed assertion, or the model's
pub data LoadProblem : Type 0 where
  invalid : List ValidationFinding → LoadProblem
  assertion : LoadProblem
  validation : List ValidationFinding → LoadProblem

abbrev pub loaded_from :
    Result (List ValidationFinding) IntermediaryDefinition
    → Result LoadProblem IntermediaryDefinition
loaded_from (ok d) = ok (in_order d)
loaded_from (err findings) = err (LoadProblem.validation findings)

module _ (source : Source)
    (parse_manifest : Json → Result (List ValidationFinding) IntermediaryDirectoryManifest)
    (model_validate : Payload → Result (List ValidationFinding) IntermediaryDefinition) where
  -- `_validation_findings`
  abbrev pub validation_findings : Payload → List ValidationFinding
  validation_findings payload = findings_of (model_validate payload)

  abbrev pub validated : Payload → List ValidationFinding → Option Payload × List ValidationFinding
  validated payload [] = (some payload, [])
  validated payload (f ∷ findings) = (none, f ∷ findings)

  abbrev pub read_collections :
      List Entry → List ValidationFinding → Option Payload × List ValidationFinding
  read_collections entries (f ∷ findings) = (none, f ∷ findings)
  read_collections entries [] =
      let assembly =
        load_entries source (record { identities = []; nodes = []; node_ids = []; findings = [] })
          entries in
      elim assembly.findings [
        | [] ↦
            validated (assembly.identities, assembly.nodes)
              (validation_findings (assembly.identities, assembly.nodes))
        | f ∷ findings ↦ (none, f ∷ findings)
      ]

  abbrev pub with_manifest :
      Result (List ValidationFinding) IntermediaryDirectoryManifest
      → Option Payload × List ValidationFinding
  with_manifest (ok manifest) =
      read_collections (entries_of manifest) (inventory_findings source (entries_of manifest))
  with_manifest (err findings) = (none, findings)

  abbrev pub read_manifest : Option Document → Option Payload × List ValidationFinding
  read_manifest none = (none, finding manifest_filename (text "missing_manifest") ∷ [])
  read_manifest (some (Document.broken mark)) = (
    none,
    record { location = manifest_filename ++ text ":$"; rule = text "yaml_syntax"; mark = mark }
        ∷ [],
  )
  read_manifest (some (Document.parsed payload)) = with_manifest (parse_manifest payload)

  -- `_assemble_intermediary_directory`
  unfoldable pub assemble_intermediary_directory : Option Payload × List ValidationFinding
  unfolding inventory_findings load_entries
  assemble_intermediary_directory =
      if source.is_dir
      then read_manifest source.manifest
      else (none, finding (text "$") (text "directory_type") ∷ [])

  abbrev pub load_payload : Option Payload → Result LoadProblem IntermediaryDefinition
  load_payload none = err LoadProblem.assertion
  load_payload (some payload) = loaded_from (model_validate payload)

  abbrev pub load_assembled :
      Option Payload × List ValidationFinding → Result LoadProblem IntermediaryDefinition
  load_assembled (payload, []) = load_payload payload
  load_assembled (payload, f ∷ findings) = err (LoadProblem.invalid (f ∷ findings))

  unfoldable pub load_intermediary_directory : Result LoadProblem IntermediaryDefinition
  unfolding assemble_intermediary_directory sorted_by
  load_intermediary_directory = load_assembled assemble_intermediary_directory
