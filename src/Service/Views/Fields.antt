-- ===== src/Service/Views/Fields.antt =====
-- The names of the fields, and the detail level that each one comes with.
use data_ontology_graph.Prelude.{Text, text, List, [], ◌∷◌}

pub data Detail : Type 0 where
  essential standard full : Detail

pub data FieldObject : Type 0 where
  dataset edge entity_definition : FieldObject

abbrev pub dataset_fields : List Text
dataset_fields =
    text "node_id"
    ∷ text "qualified_name"
    ∷ text "distance"
    ∷ text "edge_count"
    ∷ text "accessor.schema_id"
    ∷ text "grain"
    ∷ text "descriptor.description"
    ∷ text "unknown_fields"
    ∷ text "descriptor.display_name"
    ∷ text "descriptor.synonyms"
    ∷ text "descriptor.tags"
    ∷ text "accessor.properties"
    ∷ text "columns"
    ∷ text "entity_definitions"
    ∷ []

abbrev pub edge_fields : List Text
edge_fields =
    text "edge"
    ∷ text "identity_id"
    ∷ text "multiplicity"
    ∷ text "match_existence"
    ∷ text "reverse_multiplicity"
    ∷ text "reverse_match_existence"
    ∷ text "from_description"
    ∷ text "to_description"
    ∷ text "annotation"
    ∷ text "edge_id"
    ∷ []

abbrev pub response_only : List Text
response_only = text "distance" ∷ text "edge_count" ∷ []

abbrev pub definition_fields : List Text
definition_fields =
    text "identity_id"
    ∷ text "dataset_columns"
    ∷ text "entity_universe"
    ∷ text "unique"
    ∷ text "total"
    ∷ text "conforms"
    ∷ text "entity_expression"
    ∷ text "entity_metadata"
    ∷ text "description"
    ∷ text "effective_description"
    ∷ text "description_source"
    ∷ text "unknown_fields"
    ∷ []

abbrev pub catalog : FieldObject → List Text
catalog FieldObject.dataset = dataset_fields
catalog FieldObject.edge = edge_fields
catalog FieldObject.entity_definition = definition_fields

abbrev pub basic : FieldObject → List Text
basic FieldObject.dataset = text "node_id" ∷ text "qualified_name" ∷ []
basic FieldObject.edge = text "edge" ∷ text "edge_id" ∷ []
basic FieldObject.entity_definition = text "identity_id" ∷ text "dataset_columns" ∷ []

-- the fields that a level adds
abbrev pub level_fields : FieldObject → Detail → List Text
level_fields FieldObject.dataset Detail.essential =
    text "distance" ∷ text "edge_count" ∷ text "accessor.schema_id" ∷ []
level_fields FieldObject.dataset Detail.standard =
    text "grain" ∷ text "descriptor.description" ∷ text "unknown_fields" ∷ []
level_fields FieldObject.dataset Detail.full =
    text "descriptor.display_name"
    ∷ text "descriptor.synonyms"
    ∷ text "descriptor.tags"
    ∷ text "accessor.properties"
    ∷ text "columns"
    ∷ text "entity_definitions"
    ∷ []
level_fields FieldObject.edge Detail.essential = text "multiplicity" ∷ text "match_existence" ∷ []
level_fields FieldObject.edge Detail.standard =
    text "reverse_multiplicity"
    ∷ text "reverse_match_existence"
    ∷ text "from_description"
    ∷ text "to_description"
    ∷ []
level_fields FieldObject.edge Detail.full = text "annotation" ∷ []
level_fields FieldObject.entity_definition Detail.full = definition_fields
level_fields FieldObject.entity_definition _ = []
