-- ===== src/Service/Views.antt =====
-- service/views.py: detail levels, and the fields that a caller adds.
pub mod Fields
pub mod Selected
mod Examples
use data_ontology_graph.Prelude.{
  Text, text, List, [], ◌∷◌, ◌++◌, Bool, true, false, not, all, select, contains, from_keys,
  is_empty, Result, ok, err, guard, ◌>>=◌, ◌>>◌, if◌then◌else◌, nat_order, list_order,
}
use data_ontology_graph.Service.Views.Fields.{
  Detail, FieldObject, catalog, basic, level_fields, response_only,
}

-- `fields.get(name, [])`
abbrev pub Added : Type 0
Added = FieldObject → List Text

pub record View : Type 0 where
  pub detail : Detail
  pub added : Added
  pub dataset : List Text
  pub edge : List Text
  pub entity_definition : List Text

pub data ViewProblem : Type 0 where
  unknown_fields : FieldObject → ViewProblem

-- the levels up to a detail
abbrev pub up_to : Detail → List Detail
up_to Detail.essential = Detail.essential ∷ []
up_to Detail.standard = Detail.essential ∷ Detail.standard ∷ []
up_to Detail.full = Detail.essential ∷ Detail.standard ∷ Detail.full ∷ []

abbrev pub fields_of : FieldObject → List Detail → List Text
fields_of name [] = []
fields_of name (level ∷ levels) = level_fields name level ++ fields_of name levels

-- `chosen`
abbrev pub chosen : Detail → Added → FieldObject → List Text
chosen detail added name = basic name ++ (fields_of name (up_to detail) ++ added name)

-- the two fields that are selected besides
abbrev pub besides : Added → Bool → FieldObject → List Text
besides added paths FieldObject.dataset =
    if is_empty (added FieldObject.entity_definition) then [] else text "entity_definitions" ∷ []
besides added paths FieldObject.edge = if paths then text "identity_id" ∷ [] else []
besides added paths FieldObject.entity_definition = []

abbrev pub check_added : Added → FieldObject → Result ViewProblem (Unit {0})
check_added added name =
    guard (all (contains (catalog name)) (added name)) (ViewProblem.unknown_fields name)

-- the fields of the catalog that are selected, in its order
unfoldable pub fields_in : Detail → Added → Bool → FieldObject → List Text
unfolding contains
fields_in detail added paths name =
    select (λ field. contains (chosen detail added name ++ besides added paths name) field)
      (catalog name)

-- `{name: list(dict.fromkeys(values)) ...}`
unfoldable pub once_each : Added → Added
unfolding from_keys
once_each fields name = from_keys (fields name)

unfoldable pub resolve : Detail → Added → Bool → Result ViewProblem View
unfolding fields_in once_each
resolve detail fields paths = do
  let added = once_each fields
  check_added added FieldObject.dataset
  check_added added FieldObject.edge
  check_added added FieldObject.entity_definition
  ok (record {
    detail = detail;
    added = added;
    dataset = fields_in detail added paths FieldObject.dataset;
    edge = fields_in detail added paths FieldObject.edge;
    entity_definition = fields_in detail added paths FieldObject.entity_definition;
  })

-- outside navigation
unfoldable pub record_fields : View → List Text
unfolding contains
record_fields view = select (λ field. not (contains response_only field)) view.dataset
