-- ===== src/Builder/Directory/Assembled.antt =====
-- What a directory without findings assembles to, and what loading it returns.
use data_ontology_graph.Prelude.{
  ℕ, suc, Text, text, List, [], ◌∷◌, ◌++◌, append_assoc, append-nil, Bool, true, false, Bool-cases,
  ◌≡◌, ◌≢◌, refl, sym, ap, ◌∙◌, subst, inl, inr, map, flat_map, contains, Option, none, some,
  if◌then◌else◌, nat_order, list_order,
}
use data_ontology_graph.Prelude.Json.{Json, Items, Fields, get}
use data_ontology_graph.Builder.Directory.Paths.{relative_path}
use data_ontology_graph.Builder.Directory.Collections.{
  Document, ValidationFinding, finding, Collection, collection_name, Assembly, report,
  missing_findings, extra_findings, version_findings, load_identities, node_id_of, load_node,
  load_nodes, load_collection, load_document,
}
use data_ontology_graph.Builder.Directory.{Source, Entry, load_entries}

append-left-nil {ℓ} : {A : Type ℓ} (xs ys : List A) → xs ++ ys ≡ [] → xs ≡ []
append-left-nil [] ys h = refl
append-left-nil (x ∷ xs) ys h = cc

no_append {ℓ} : {A : Type ℓ} (xs : List A) (y : A) → (xs ++ y ∷ []) ≢ []
no_append [] y h = cc
no_append (x ∷ xs) y h = cc

-- the entries of a mapping and the items of a sequence
abbrev pub pairs_of : Fields → List (Text × Json)
pairs_of Fields.end = []
pairs_of (Fields.field k v fields) = (k, v) ∷ pairs_of fields

abbrev pub items_of : Items → List Json
items_of Items.nil = []
items_of (Items.item v items) = v ∷ items_of items

-- what a file of a collection holds
abbrev pub identities_in : Collection → Document → List (Text × Json)
identities_in Collection.logical_identities (Document.parsed (Json.object fields)) =
    elim (get fields (text "logical_identities")) [ some (Json.object f) ↦ pairs_of f | _ ↦ [] ]
identities_in _ _ = []

abbrev pub nodes_in : Collection → Document → List Json
nodes_in Collection.nodes (Document.parsed (Json.object fields)) =
    elim (get fields (text "nodes")) [ some (Json.array items) ↦ items_of items | _ ↦ [] ]
nodes_in _ _ = []

-- `b` was made from `a` without a finding, by adding these identities and nodes
pub record Adds (a b : Assembly) (new_identities : List (Text × Json)) (new_nodes : List Json)
    : Type 0 where
  pub clean : a.findings ≡ []
  pub identities : b.identities ≡ a.identities ++ new_identities
  pub nodes : b.nodes ≡ a.nodes ++ new_nodes

Adds-nothing : (a : Assembly) → a.findings ≡ [] → Adds a a [] []
Adds-nothing a h = record {
  clean = h;
  identities = sym (append-nil a.identities);
  nodes = sym (append-nil a.nodes);
}

Adds-both :
    (a b c : Assembly) (i j : List (Text × Json)) (m n : List Json)
    → Adds a b i m
    → Adds b c j n
    → Adds a c (i ++ j) (m ++ n)
Adds-both a b c i j m n first second = record {
  clean = first.clean;
  identities =
      second.identities ∙ ap (λ xs. xs ++ j) first.identities ∙ append_assoc a.identities i j;
  nodes = second.nodes ∙ ap (λ xs. xs ++ n) first.nodes ∙ append_assoc a.nodes m n;
}

-- A report of nothing adds nothing; a report of something leaves a finding.
report-Adds :
    (a : Assembly) (fs : List ValidationFinding)
    → (report a fs).findings ≡ []
    → Adds a (report a fs) [] []
report-Adds a fs h = record {
  clean = append-left-nil a.findings fs h;
  identities = sym (append-nil a.identities);
  nodes = sym (append-nil a.nodes);
}

load_identities-Adds :
    (fields : Fields) (a : Assembly) (relative : Text)
    → (load_identities a relative fields).findings ≡ []
    → Adds a (load_identities a relative fields) (pairs_of fields) []
unfolding load_identities
load_identities-Adds Fields.end a relative h = Adds-nothing a h
load_identities-Adds (Fields.field k v fields) a relative h =
    elim (Bool-cases (contains (map (λ (p : Text × Json). p.0) a.identities) k)) [
      | inl old ↦ absurd (
          no_append a.findings _
            (load_identities-Adds fields
              (report a (
                finding (relative ++ text ":$.logical_identities." ++ k)
                  (text "duplicate_definition")
                ∷ []))
              relative
              (subst (λ b. (load_identities b relative fields).findings ≡ []) (rw old) h)).clean)
      | inr new ↦
          let b : Assembly = record {
            identities = a.identities ++ (k, v) ∷ [];
            nodes = a.nodes;
            node_ids = a.node_ids;
            findings = a.findings;
          } in
          let rest =
            load_identities-Adds fields b relative
              (subst (λ x. (load_identities x relative fields).findings ≡ []) (rw new) h) in
          rw new (
            Adds-both a b (load_identities b relative fields) ((k, v) ∷ []) (pairs_of fields) [] []
              (record { clean = rest.clean; identities = refl; nodes = sym (append-nil a.nodes) })
              rest)
    ]

load_named-Adds :
    (duplicate : Bool) (a : Assembly) (f : ValidationFinding) (ids : List Text) (node : Json)
    → (if duplicate then report a (f ∷ []) else record {
      identities = a.identities;
      nodes = a.nodes ++ node ∷ [];
      node_ids = ids;
      findings = a.findings;
    }).findings
      ≡ []
    → Adds a
        (if duplicate then report a (f ∷ []) else record {
          identities = a.identities;
          nodes = a.nodes ++ node ∷ [];
          node_ids = ids;
          findings = a.findings;
        })
        []
        (node ∷ [])
load_named-Adds true a f ids node h = absurd (no_append a.findings f h)
load_named-Adds false a f ids node h = record {
  clean = h;
  identities = sym (append-nil a.identities);
  nodes = refl;
}

load_node-Adds :
    (a : Assembly) (relative : Text) (index : ℕ) (node : Json) (id : Option Text)
    → (load_node a relative index node id).findings ≡ []
    → Adds a (load_node a relative index node id) [] (node ∷ [])
load_node-Adds a relative index node none h = record {
  clean = h;
  identities = sym (append-nil a.identities);
  nodes = refl;
}
load_node-Adds a relative index node (some node_id) h =
    load_named-Adds (contains a.node_ids node_id) a _ (a.node_ids ++ node_id ∷ []) node h

load_nodes-Adds :
    (items : Items) (a : Assembly) (relative : Text) (index : ℕ)
    → (load_nodes a relative index items).findings ≡ []
    → Adds a (load_nodes a relative index items) [] (items_of items)
unfolding load_nodes
load_nodes-Adds Items.nil a relative index h = Adds-nothing a h
load_nodes-Adds (Items.item node items) a relative index h =
    let rest =
      load_nodes-Adds items (load_node a relative index node (node_id_of node)) relative (suc index)
        h in
    Adds-both a (load_node a relative index node (node_id_of node)) _ [] [] (node ∷ [])
      (items_of items) (load_node-Adds a relative index node (node_id_of node) rest.clean) rest

load_collection-Adds :
    (a : Assembly) (c : Collection) (relative : Text) (fields : Fields)
    → (load_collection a c relative (get fields (collection_name c))).findings ≡ []
    → Adds a
        (load_collection a c relative (get fields (collection_name c)))
        (identities_in c (Document.parsed (Json.object fields)))
        (nodes_in c (Document.parsed (Json.object fields)))
load_collection-Adds a Collection.logical_identities relative fields h =
    by_value (get fields (text "logical_identities")) h
  where
    by_value :
        (v : Option Json)
        → (load_collection a Collection.logical_identities relative v).findings ≡ []
        → Adds a
            (load_collection a Collection.logical_identities relative v)
            (elim v as (λ w. List (Text × Json)) [ some (Json.object f) ↦ pairs_of f | _ ↦ [] ])
            []
    by_value none h = absurd (no_append a.findings _ h)
    by_value (some Json.null) h = absurd (no_append a.findings _ h)
    by_value (some (Json.bool b)) h = absurd (no_append a.findings _ h)
    by_value (some (Json.number n)) h = absurd (no_append a.findings _ h)
    by_value (some (Json.string t)) h = absurd (no_append a.findings _ h)
    by_value (some (Json.array items)) h = absurd (no_append a.findings _ h)
    by_value (some (Json.object f)) h = load_identities-Adds f a relative h
load_collection-Adds a Collection.nodes relative fields h = by_value (get fields (text "nodes")) h
  where
    by_value :
        (v : Option Json)
        → (load_collection a Collection.nodes relative v).findings ≡ []
        → Adds a
            (load_collection a Collection.nodes relative v)
            []
            (elim v as (λ w. List Json) [ some (Json.array items) ↦ items_of items | _ ↦ [] ])
    by_value none h = absurd (no_append a.findings _ h)
    by_value (some Json.null) h = absurd (no_append a.findings _ h)
    by_value (some (Json.bool b)) h = absurd (no_append a.findings _ h)
    by_value (some (Json.number n)) h = absurd (no_append a.findings _ h)
    by_value (some (Json.string t)) h = absurd (no_append a.findings _ h)
    by_value (some (Json.object f)) h = absurd (no_append a.findings _ h)
    by_value (some (Json.array items)) h = load_nodes-Adds items a relative 0 h

load_document-Adds :
    (a : Assembly) (c : Collection) (relative : Text) (d : Document)
    → (load_document a c relative d).findings ≡ []
    → Adds a (load_document a c relative d) (identities_in c d) (nodes_in c d)
unfolding load_document
load_document-Adds a c relative (Document.broken mark) h = absurd (no_append a.findings _ h)
load_document-Adds a c relative (Document.parsed Json.null) h = absurd (no_append a.findings _ h)
load_document-Adds a c relative (Document.parsed (Json.bool b)) h =
    absurd (no_append a.findings _ h)
load_document-Adds a c relative (Document.parsed (Json.number n)) h =
    absurd (no_append a.findings _ h)
load_document-Adds a c relative (Document.parsed (Json.string t)) h =
    absurd (no_append a.findings _ h)
load_document-Adds a c relative (Document.parsed (Json.array items)) h =
    absurd (no_append a.findings _ h)
load_document-Adds a c relative (Document.parsed (Json.object fields)) h =
    let fs =
      missing_findings c relative fields
      ++ (extra_findings c relative fields ++ version_findings relative fields) in
    let rest = load_collection-Adds (report a fs) c relative fields h in
    Adds-both a (report a fs) _ [] (identities_in c (Document.parsed (Json.object fields))) []
      (nodes_in c (Document.parsed (Json.object fields))) (report-Adds a fs rest.clean) rest

module _ (source : Source) where
  abbrev pub identities_at : Entry → List (Text × Json)
  identities_at (collection, raw_path, location) =
      identities_in collection (source.read (relative_path raw_path))

  abbrev pub nodes_at : Entry → List Json
  nodes_at (collection, raw_path, location) =
      nodes_in collection (source.read (relative_path raw_path))

  -- If reading the collection files leaves no finding, the result is what they hold, in the order of
  -- the manifest: all identities of the identities file and all nodes of the node files, none lost
  -- and none twice.
  pub load_entries-Adds :
      (entries : List Entry) (a : Assembly)
      → (load_entries source a entries).findings ≡ []
      → Adds a
          (load_entries source a entries)
          (flat_map identities_at entries)
          (flat_map nodes_at entries)
  unfolding load_entries
  load_entries-Adds [] a h = Adds-nothing a h
  load_entries-Adds ((c, raw_path, location) ∷ entries) a h =
      let b = load_document a c (relative_path raw_path) (source.read (relative_path raw_path)) in
      let rest = load_entries-Adds entries b h in
      Adds-both a b _ (identities_at (c, raw_path, location)) (flat_map identities_at entries)
        (nodes_at (c, raw_path, location)) (flat_map nodes_at entries)
        (load_document-Adds a c (relative_path raw_path) (source.read (relative_path raw_path))
          rest.clean)
        rest
