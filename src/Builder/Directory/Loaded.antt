-- ===== src/Builder/Directory/Loaded.antt =====
-- Loading a directory: either its findings are raised, or the definition of its files is returned.
use data_ontology_graph.Prelude.{
  text, List, [], ◌∷◌, Bool, true, Bool-cases, ◌≡◌, ◌≢◌, refl, sym, ap, ◌∙◌, subst, ◌⊎◌, inl, inr,
  flat_map, Option, none, some, Result, ok, err, if◌then◌else◌, nat_order, list_order,
}
use data_ontology_graph.Prelude.Json.{Json}
use data_ontology_graph.Model.Intermediary.{IntermediaryDefinition, IntermediaryDirectoryManifest}
use data_ontology_graph.Builder.Directory.Collections.{
  Document, ValidationFinding, Assembly, finding,
}
use data_ontology_graph.Builder.Directory.{
  Source, Payload, entries_of, inventory_findings, load_entries, read_collections, read_manifest,
  validated, validation_findings, findings_of, loaded_from, with_manifest,
  assemble_intermediary_directory, load_assembled, in_order, LoadProblem,
  load_intermediary_directory,
}
use data_ontology_graph.Builder.Directory.Inventory.{
  IsInventoried, inventory_findings-IsInventoried, inventory_findings_of_inventoried,
}
use data_ontology_graph.Builder.Directory.LoadProblem.{invalid}
use data_ontology_graph.Builder.Directory.Assembled.{load_entries-Adds, identities_at, nodes_at}

module _ (source : Source)
    (parse_manifest : Json → Result (List ValidationFinding) IntermediaryDirectoryManifest)
    (model_validate : Payload → Result (List ValidationFinding) IntermediaryDefinition) where
  -- what the collection files hold together
  abbrev pub payload_of : IntermediaryDirectoryManifest → Payload
  payload_of manifest = (
    flat_map (identities_at source) (entries_of manifest),
    flat_map (nodes_at source) (entries_of manifest),
  )

  -- The directory was loaded: it has a manifest, which lists exactly its YAML files, and the
  -- definition is that of what the collection files hold.
  pub record IsLoaded (d : IntermediaryDefinition) : Type 0 where
    pub document : Json
    pub manifest : IntermediaryDirectoryManifest
    pub has_manifest : source.manifest ≡ some (Document.parsed document)
    pub is_manifest : parse_manifest document ≡ ok manifest
    pub inventory : IsInventoried source (entries_of manifest)
    pub validated_as : model_validate (payload_of manifest) ≡ ok d

  abbrev pub Outcome : Result LoadProblem IntermediaryDefinition → Type 0
  Outcome loaded =
      ((findings : List ValidationFinding) × (findings ≢ []) × (loaded ≡ err (invalid findings)))
      ⊎ ((d : IntermediaryDefinition) × (loaded ≡ ok (in_order d)) × IsLoaded d)

  -- nothing read
  abbrev pub start : Assembly
  start = record { identities = []; nodes = []; node_ids = []; findings = [] }

  -- A directory of which all that holds, and whose collection files are read without a finding, is
  -- loaded.
  abbrev pub Accepts : Result LoadProblem IntermediaryDefinition → Type 0
  Accepts loaded =
      (d : IntermediaryDefinition) (k : IsLoaded d)
      → source.is_dir ≡ true
      → (load_entries source start (entries_of k.manifest)).findings ≡ []
      → loaded ≡ ok (in_order d)

  abbrev finish :
      Option Payload × List ValidationFinding → Result LoadProblem IntermediaryDefinition
  finish = load_assembled source parse_manifest model_validate

  refused :
      (f : ValidationFinding) (fs : List ValidationFinding) (p : Option Payload)
      → Outcome (finish (p, f ∷ fs))
  refused f fs p = inl (f ∷ fs, (λ e. cc), refl)

  -- A model that refuses a payload reports an error.
  module _
      (manifest_reports : (j : Json) (fs : List ValidationFinding)
        → parse_manifest j ≡ err fs
        → fs ≢ [])
      (model_reports : (p : Payload) (fs : List ValidationFinding)
        → model_validate p ≡ err fs
        → fs ≢ []) where
    checked :
        (payload : Payload)
        → ((d : IntermediaryDefinition) → model_validate payload ≡ ok d → IsLoaded d)
        → Outcome (
            finish (
              validated source parse_manifest model_validate payload
                (validation_findings source parse_manifest model_validate payload)))
    checked payload loaded = by_result (model_validate payload) refl
      where
        by_result :
            (r : Result (List ValidationFinding) IntermediaryDefinition)
            → model_validate payload ≡ r
            → Outcome (
                finish (
                  validated source parse_manifest model_validate payload
                    (validation_findings source parse_manifest model_validate payload)))
        by_result (ok d) e =
            subst
              (λ fs. Outcome (finish (validated source parse_manifest model_validate payload fs)))
              (sym (ap findings_of e))
              (subst (λ r. Outcome (loaded_from r)) (sym e) (inr (d, refl, loaded d e)))
        by_result (err []) e = absurd (model_reports payload [] e refl)
        by_result (err (f ∷ fs)) e =
            subst
              (λ gs. Outcome (finish (validated source parse_manifest model_validate payload gs)))
              (sym (ap findings_of e)) (refused f fs none)

    module _ (document : Json) (manifest : IntermediaryDirectoryManifest)
        (has_manifest : source.manifest ≡ some (Document.parsed document))
        (is_manifest : parse_manifest document ≡ ok manifest) where
      collected :
          inventory_findings source (entries_of manifest) ≡ []
          → Outcome (
              finish
                (read_collections source parse_manifest model_validate (entries_of manifest) []))
      collected inventory =
          by_findings (load_entries source start (entries_of manifest)).findings refl
        where
          payload : Payload
          payload = (
            (load_entries source start (entries_of manifest)).identities,
            (load_entries source start (entries_of manifest)).nodes,
          )

          by_findings :
              (fs : List ValidationFinding)
              → (load_entries source start (entries_of manifest)).findings ≡ fs
              → Outcome (
                  finish (elim fs as (λ x. Option Payload × List ValidationFinding) [
                    | [] ↦
                        validated source parse_manifest model_validate payload
                          (validation_findings source parse_manifest model_validate payload)
                    | f ∷ findings ↦ (none, f ∷ findings)
                  ]))
          by_findings (f ∷ fs) e = refused f fs none
          by_findings [] e = checked payload (λ d valid.
              let added = load_entries-Adds source (entries_of manifest) start e in
              record {
                document = document;
                manifest = manifest;
                has_manifest = has_manifest;
                is_manifest = is_manifest;
                inventory = inventory_findings-IsInventoried source (entries_of manifest) inventory;
                validated_as =
                    sym (ap model_validate (λ i. (added.identities i, added.nodes i))) ∙ valid;
              })

      inventoried : Outcome (
          finish (
            read_collections source parse_manifest model_validate
              (entries_of manifest)
              (inventory_findings source (entries_of manifest))))
      inventoried = by_findings (inventory_findings source (entries_of manifest)) refl
        where
          by_findings :
              (fs : List ValidationFinding)
              → inventory_findings source (entries_of manifest) ≡ fs
              → Outcome (
                  finish (
                    read_collections source parse_manifest model_validate (entries_of manifest) fs))
          by_findings (f ∷ fs) e = refused f fs none
          by_findings [] e = collected e

    parsed_manifest :
        (document : Json)
        → source.manifest ≡ some (Document.parsed document)
        → Outcome (
            finish (
              read_manifest source parse_manifest model_validate (some (Document.parsed document))))
    parsed_manifest document has = by_result (parse_manifest document) refl
      where
        by_result :
            (r : Result (List ValidationFinding) IntermediaryDirectoryManifest)
            → parse_manifest document ≡ r
            → Outcome (
                finish (
                  read_manifest source parse_manifest model_validate
                    (some (Document.parsed document))))
        by_result (ok manifest) e =
            subst (λ r. Outcome (finish (with_manifest source parse_manifest model_validate r)))
              (sym e) (inventoried document manifest has e)
        by_result (err []) e = absurd (manifest_reports document [] e refl)
        by_result (err (f ∷ fs)) e =
            subst (λ r. Outcome (finish (with_manifest source parse_manifest model_validate r)))
              (sym e) (refused f fs none)

    any_manifest :
        (m : Option Document)
        → source.manifest ≡ m
        → Outcome (finish (read_manifest source parse_manifest model_validate m))
    any_manifest none e = refused _ [] none
    any_manifest (some (Document.broken mark)) e = refused _ [] none
    any_manifest (some (Document.parsed document)) e = parsed_manifest document e

    accepted : Accepts (load_intermediary_directory source parse_manifest model_validate)
    unfolding load_intermediary_directory assemble_intermediary_directory
    accepted d k there clean =
        let added = load_entries-Adds source (entries_of k.manifest) start clean in
        let valid = ap model_validate (λ i. (added.identities i, added.nodes i)) ∙ k.validated_as in
        let entries = entries_of k.manifest in
        let read = load_entries source start entries in
        let payload : Payload = (read.identities, read.nodes) in
        ap
          (λ b. finish (
            if b
            then read_manifest source parse_manifest model_validate source.manifest
            else (none, finding (text "$") (text "directory_type") ∷ [])))
          there
        ∙ ap (λ m. finish (read_manifest source parse_manifest model_validate m)) k.has_manifest
        ∙ ap (λ r. finish (with_manifest source parse_manifest model_validate r)) k.is_manifest
        ∙ ap (λ fs. finish (read_collections source parse_manifest model_validate entries fs))
            (inventory_findings_of_inventoried source entries k.inventory)
        ∙ ap
            (λ fs. finish (elim fs as (λ x. Option Payload × List ValidationFinding) [
              | [] ↦
                  validated source parse_manifest model_validate payload
                    (validation_findings source parse_manifest model_validate payload)
              | f ∷ findings ↦ (none, f ∷ findings)
            ]))
            clean
        ∙ ap (λ r. finish (validated source parse_manifest model_validate payload (findings_of r)))
            valid
        ∙ ap loaded_from valid

    returned : Outcome (load_intermediary_directory source parse_manifest model_validate)
    unfolding load_intermediary_directory assemble_intermediary_directory
    returned = elim (Bool-cases source.is_dir) [
      | inl there ↦ subst choice (sym there) (any_manifest source.manifest refl)
      | inr absent ↦ subst choice (sym absent) (refused _ [] none)
    ]
      where
        choice : Bool → Type 0
        choice b = Outcome (
            finish (
              if b
              then read_manifest source parse_manifest model_validate source.manifest
              else (none, finding (text "$") (text "directory_type") ∷ [])))

    -- Loading a directory either raises its findings, of which there is at least one, or returns the
    -- definition that the models make of all that its collection files hold, with the identities by
    -- ID and the nodes by node ID. Then the manifest lists YAML files inside the directory, each
    -- once, and every YAML file of the directory is among them. Conversely a directory like that is
    -- loaded if its collection files are read without a finding. The assertion never fails, and the
    -- second validation never raises. The models' parsers are arguments: one that refuses its input
    -- reports some error.
    pub load_intermediary_directory_returns :
        Outcome (load_intermediary_directory source parse_manifest model_validate)
        × Accepts (load_intermediary_directory source parse_manifest model_validate)
    load_intermediary_directory_returns = (returned, accepted)
