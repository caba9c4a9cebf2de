-- ===== src/Service/Search/Index.antt =====
-- The subjects of the index, their values, and the entries of the trie.
use mathlib.Core.List.{foldl}
use data_ontology_graph.Prelude.{
  ℕ, suc, Text, text, List, [], ◌∷◌, ◌++◌, map, flat_map, length, join, is_empty, sorted_by,
  if◌then◌else◌, nat_order, list_order, triple_order,
}
use data_ontology_graph.Prelude.Json.{Json, Items, Fields}
use data_ontology_graph.Model.Claims.{unknown_fields}
use data_ontology_graph.Model.Definition
use data_ontology_graph.Model.Definition.{EntityDefinition}
use data_ontology_graph.Model.Dataset
use data_ontology_graph.Model.Dataset.{DatasetNode, ColumnMetadata}
use data_ontology_graph.Model.Snapshot.{LogicalIdentity, GraphSnapshot}
use data_ontology_graph.Service.Search.{Unicode, normalize_term, index_terms, descriptive_text}

pub data SearchKind : Type 0 where
  column dataset entity_definition identity : SearchKind

-- in the order in which equally good matches are listed
pub data SearchField : Type 0 where
  stable_id column canonical_name synonym tag qualified_name accessor dataset_columns
        entity_expression entity_metadata description value_description :
      SearchField

-- `str | list[str] | None`
pub data Cell : Type 0 where
  one : Text → Cell
  many : List Text → Cell
  null : Cell

pub record Subject : Type 0 where
  pub kind : SearchKind
  pub key : Text
  pub sort_label : Text
  pub row : List Cell
  pub values : List (SearchField × Text)

-- (term, subject, value)
abbrev pub TermEntry : Type 0
TermEntry = Text × ℕ × ℕ

-- The entries are a set in the source; the trie does not list one twice.
pub record SearchIndex : Type 0 where
  pub subjects : List Subject
  pub entries : List TermEntry

-- `_string_values`
unfoldable mutual
  pub string_values : Json → List Text
  string_values (Json.string value) = value ∷ []
  string_values (Json.object fields) = field_values fields
  string_values (Json.array items) = item_values items
  string_values _ = []

  pub item_values : Items → List Text
  item_values Items.nil = []
  item_values (Items.item v items) = string_values v ++ item_values items

  pub field_values : Fields → List Text
  field_values Fields.end = []
  field_values (Fields.field key v fields) = key ∷ (string_values v ++ field_values fields)

unfoldable pub definition_key : Text → Text → List Text → Text
definition_key node_id identity_id columns =
    node_id ++ (text "|" ++ (identity_id ++ (text "|" ++ join (text "+") columns)))

-- what `add_subject` is given
pub record Draft : Type 0 where
  pub kind : SearchKind
  pub key : Text
  pub label : Text
  pub row : List Cell
  pub fields : List (SearchField × Text)

module _ (u : Unicode) where
  -- the values that have terms
  abbrev pub kept_values : List (SearchField × Text) → List (SearchField × Text)
  kept_values [] = []
  kept_values ((field, value) ∷ fields) =
      if is_empty (index_terms u value)
      then kept_values fields
      else (field, value) ∷ kept_values fields

  abbrev pub value_entries : ℕ → ℕ → List (SearchField × Text) → List TermEntry
  value_entries ordinal index [] = []
  value_entries ordinal index ((field, value) ∷ values) =
      map (λ term. (term, ordinal, index)) (index_terms u value)
      ++ value_entries ordinal (suc index) values

  unfoldable pub add_subject : SearchIndex → Draft → SearchIndex
  unfolding index_terms normalize_term
  add_subject x d = record {
    subjects =
        x.subjects
        ++ record {
          kind = d.kind;
          key = d.key;
          sort_label = normalize_term u d.label;
          row = d.row;
          values = kept_values d.fields;
        }
          ∷ [];
    entries = x.entries ++ value_entries (length x.subjects) 0 (kept_values d.fields);
  }

  module _ (placeholders : List Text) where
    abbrev pub describe : Text → Text
    describe = descriptive_text u placeholders

    abbrev pub identity_draft : LogicalIdentity → Draft
    identity_draft i = record {
      kind = SearchKind.identity;
      key = i.identity_id;
      label = i.name;
      row = Cell.one i.identity_id ∷ Cell.one i.name ∷ [];
      fields =
          (SearchField.stable_id, i.identity_id)
          ∷ (SearchField.canonical_name, i.name)
          ∷ (SearchField.description, describe i.description)
          ∷ map (λ value. (SearchField.synonym, value)) i.synonyms;
    }

    abbrev pub node_draft : DatasetNode → Draft
    node_draft node = record {
      kind = SearchKind.dataset;
      key = node.node_id;
      label = node.descriptor.display_name;
      row =
          Cell.one node.node_id
          ∷ Cell.one node.descriptor.qualified_name
          ∷ Cell.many (unknown_fields (Dataset.claims node))
          ∷ [];
      fields =
          (SearchField.stable_id, node.node_id)
          ∷ (SearchField.canonical_name, node.descriptor.display_name)
          ∷ (SearchField.qualified_name, node.descriptor.qualified_name)
          ∷ (SearchField.description, describe node.descriptor.description)
          ∷ (SearchField.accessor, node.accessor.schema_id)
          ∷ (map (λ value. (SearchField.synonym, value)) node.descriptor.synonyms
              ++ (map (λ value. (SearchField.tag, value)) node.descriptor.tags
                  ++ map (λ value. (SearchField.accessor, value))
                      (field_values node.accessor.properties)));
    }

    -- the first expression, if there is one
    abbrev pub first_cell : List Text → Cell
    first_cell [] = Cell.null
    first_cell (expression ∷ _) = Cell.one expression

    -- `expression or definition.identity_id`
    abbrev pub definition_name : EntityDefinition → List Text → Text
    definition_name d [] = d.identity_id
    definition_name d (expression ∷ _) = if is_empty expression then d.identity_id else expression

    abbrev pub definition_draft : Text → EntityDefinition → Draft
    definition_draft node_id d =
        let key = definition_key node_id d.identity_id d.dataset_columns in
        record {
          kind = SearchKind.entity_definition;
          key = key;
          label = definition_name d d.entity_expression;
          row =
              Cell.one key
              ∷ first_cell d.entity_expression
              ∷ Cell.one node_id
              ∷ Cell.one d.identity_id
              ∷ Cell.many d.dataset_columns
              ∷ Cell.many (unknown_fields (Definition.claims d))
              ∷ [];
          fields =
              (SearchField.stable_id, d.identity_id)
              ∷ (map (λ value. (SearchField.dataset_columns, value)) d.dataset_columns
                  ++ (map (λ expression. (SearchField.entity_expression, expression))
                        d.entity_expression
                      ++ map (λ value. (SearchField.entity_metadata, value))
                          (field_values d.entity_metadata)));
        }

    abbrev pub column_draft : Text → ColumnMetadata → Draft
    column_draft node_id c =
        let key = node_id ++ (text "|column|" ++ c.name) in
        record {
          kind = SearchKind.column;
          key = key;
          label = c.name;
          row = Cell.one key ∷ Cell.one node_id ∷ Cell.one c.name ∷ [];
          fields =
              (SearchField.column, c.name)
              ∷ (SearchField.description, describe c.description)
              ∷ (SearchField.value_description, describe c.value_description)
              ∷ map (λ value. (SearchField.synonym, value)) c.synonyms;
        }

    -- a dataset, its definitions and its columns
    abbrev pub node_drafts : DatasetNode → List Draft
    node_drafts node =
        node_draft node
        ∷ (map (definition_draft node.node_id) node.entity_definitions
            ++ map (column_draft node.node_id) node.columns)

    abbrev pub drafts : GraphSnapshot → List Draft
    drafts s =
        map identity_draft (sorted_by (λ i. i.identity_id) s.logical_identities)
        ++ flat_map node_drafts (sorted_by (λ node. node.node_id) s.nodes)

    -- `LexicalSearchIndex.__init__`
    unfoldable pub search_index : GraphSnapshot → SearchIndex
    unfolding add_subject sorted_by field_values definition_key descriptive_text unknown_fields
    search_index s = foldl add_subject (record { subjects = []; entries = [] }) (drafts s)
