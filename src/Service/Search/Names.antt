-- ===== src/Service/Search/Names.antt =====
-- The tables of service/search.py: kinds, match types, names of fields, and headers.
use data_ontology_graph.Prelude.{
  ℕ, Text, text, List, [], ◌∷◌, Option, none, some, nat_order, list_order, pair_order, triple_order,
}
use data_ontology_graph.Service.Search.Index.{SearchKind, SearchField}

abbrev pub search_kinds : List SearchKind
search_kinds =
    SearchKind.column ∷ SearchKind.dataset ∷ SearchKind.entity_definition ∷ SearchKind.identity ∷ []

abbrev pub match_types : List Text
match_types = text "exact" ∷ text "prefix" ∷ text "phrase" ∷ text "all_words" ∷ []

-- `_KIND_FIELD_NAMES`
abbrev pub kind_field_name : SearchKind → SearchField → Option Text
kind_field_name SearchKind.dataset SearchField.stable_id = some (text "node_id")
kind_field_name SearchKind.dataset SearchField.canonical_name = some (text "display_name")
kind_field_name SearchKind.entity_definition SearchField.stable_id = some (text "identity_id")
kind_field_name SearchKind.identity SearchField.stable_id = some (text "identity_id")
kind_field_name SearchKind.identity SearchField.canonical_name = some (text "name")
kind_field_name _ _ = none

-- `_FIELD_NAMES`
abbrev pub general_field_name : SearchField → Option Text
general_field_name SearchField.stable_id = none
general_field_name SearchField.canonical_name = none
general_field_name SearchField.synonym = some (text "synonym")
general_field_name SearchField.tag = some (text "tag")
general_field_name SearchField.qualified_name = some (text "qualified_name")
general_field_name SearchField.accessor = some (text "accessor")
general_field_name SearchField.dataset_columns = some (text "dataset_columns")
general_field_name SearchField.entity_expression = some (text "entity_expression")
general_field_name SearchField.entity_metadata = some (text "entity_metadata")
general_field_name SearchField.description = some (text "description")
general_field_name SearchField.value_description = some (text "value_description")
general_field_name SearchField.column = some (text "column_name")

-- `none` where the source raises `KeyError`
abbrev pub field_name : SearchKind → SearchField → Option Text
field_name kind field = elim (kind_field_name kind field) [
  | some name ↦ some name
  | none ↦ general_field_name field
]

-- The values of `SearchField`.
abbrev pub field_number : SearchField → ℕ
field_number SearchField.stable_id = 1
field_number SearchField.column = 2
field_number SearchField.canonical_name = 3
field_number SearchField.synonym = 4
field_number SearchField.tag = 5
field_number SearchField.qualified_name = 6
field_number SearchField.accessor = 7
field_number SearchField.dataset_columns = 8
field_number SearchField.entity_expression = 9
field_number SearchField.entity_metadata = 10
field_number SearchField.description = 11
field_number SearchField.value_description = 12

-- `SUBJECT_ROW_HEADERS` and `MATCH_ROW_HEADER`
abbrev pub subject_row_header : SearchKind → List Text
subject_row_header SearchKind.column = text "key" ∷ text "node_id" ∷ text "column_name" ∷ []
subject_row_header SearchKind.dataset =
    text "key" ∷ text "qualified_name" ∷ text "unknown_fields" ∷ []
subject_row_header SearchKind.entity_definition =
    text "key"
    ∷ text "entity_expression"
    ∷ text "node_id"
    ∷ text "identity_id"
    ∷ text "dataset_columns"
    ∷ text "unknown_fields"
    ∷ []
subject_row_header SearchKind.identity = text "key" ∷ text "name" ∷ []

abbrev pub match_row_header : List Text
match_row_header =
    text "key"
    ∷ text "match_type"
    ∷ text "match_field"
    ∷ text "matched_term"
    ∷ text "matched_value"
    ∷ []
