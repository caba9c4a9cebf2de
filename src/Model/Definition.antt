-- ===== src/Model/Definition.antt =====
-- EntityDefinition of model/dataset.py: one realization of a logical entity in a dataset.
pub mod Description
pub use Description.*
unfoldable pub use Description.{effective_description, description_of}
use data_ontology_graph.Prelude.{
  Text, text, List, [], ◌∷◌, Bool, true, false, not, any, map, is_empty, strip, Option, none, some,
  Result, ok, err, guard, ◌>>=◌, ◌>>◌, if◌then◌else◌, nat_order, list_order, triple_order,
}
use data_ontology_graph.Prelude.Json.{Fields}
use data_ontology_graph.Model.Enums.{EntityUniverse, Claim}
use data_ontology_graph.Model.Claims.{Claims, is_unknown, is_unknown_universe}
use data_ontology_graph.Model.Columns.{ColumnsProblem, check_columns}

pub record EntityDefinition : Type 0 where
  pub identity_id : Text
  pub dataset_columns : List Text
  pub entity_universe : EntityUniverse
  pub unique : Claim
  pub total : Claim
  pub conforms : Claim
  pub entity_expression : List Text
  pub entity_metadata : Fields
  pub description : Text

pub data DefinitionProblem : Type 0 where
  empty_identity blank_identity blank_expression nonconforming_complete : DefinitionProblem
  columns : ColumnsProblem → DefinitionProblem

-- (node_id, identity_id, dataset_columns)
abbrev pub DefinitionKey : Type 0
DefinitionKey = Text × Text × List Text

abbrev pub key : EntityDefinition → Text → DefinitionKey
key d node_id = (node_id, d.identity_id, d.dataset_columns)

abbrev pub claims : EntityDefinition → Claims
claims d =
    (text "conforms", is_unknown d.conforms)
    ∷ (text "entity_universe", is_unknown_universe d.entity_universe)
    ∷ (text "total", is_unknown d.total)
    ∷ (text "unique", is_unknown d.unique)
    ∷ []

abbrev pub identity_id_must_be_nonempty : Text → Result DefinitionProblem (Unit {0})
identity_id_must_be_nonempty value =
    guard (not (is_empty (strip value))) DefinitionProblem.blank_identity

abbrev pub expressions_must_be_nonempty : List Text → Result DefinitionProblem (Unit {0})
expressions_must_be_nonempty value =
    guard (not (any (λ expression. is_empty (strip expression)) value))
      DefinitionProblem.blank_expression

-- `self.conforms is False` holds of neither `True` nor the unknown
abbrev is_false : Claim → Bool
is_false (Claim.known false) = true
is_false _ = false

abbrev is_true : Claim → Bool
is_true (Claim.known true) = true
is_true _ = false

abbrev is_complete : EntityUniverse → Bool
is_complete EntityUniverse.complete = true
is_complete _ = false

unfoldable pub complete_must_conform : EntityDefinition → Result DefinitionProblem EntityDefinition
complete_must_conform d =
    if is_complete d.entity_universe
    then (if is_false d.conforms then err DefinitionProblem.nonconforming_complete else ok d)
    else ok d

abbrev pub as_columns : Result ColumnsProblem (List Text) → Result DefinitionProblem (List Text)
as_columns (ok value) = ok value
as_columns (err problem) = err (DefinitionProblem.columns problem)

-- Construction: the field validators, then the model's. pydantic collects the problems of all
-- fields; this is the first of them.
unfoldable pub validate_definition : EntityDefinition → Result DefinitionProblem EntityDefinition
unfolding complete_must_conform
validate_definition d = do
  guard (not (is_empty d.identity_id)) DefinitionProblem.empty_identity
  identity_id_must_be_nonempty d.identity_id
  _ ← as_columns (check_columns d.dataset_columns)
  expressions_must_be_nonempty d.entity_expression
  complete_must_conform d

-- Whether every non-null key value belongs to the Population; `none` when unknown.
unfoldable pub conforming : EntityDefinition → Option Bool
conforming d =
    if is_complete d.entity_universe
    then some true
    else if is_true d.conforms
    then some true
    else if is_false d.conforms
    then some false
    else none
