-- ===== src/Model/Dataset.antt =====
-- DatasetNode of model/dataset.py, and the records that it is made of.
pub mod Valid
use data_ontology_graph.Prelude.{
  Text, text, List, [], ◌∷◌, Bool, true, false, not, map, all, any, contains, has_duplicates,
  Option, none, some, Result, ok, err, guard, check_each, ◌>>=◌, ◌>>◌, ◌==◌, ◌&&◌, nat_order,
  list_order, pair_order,
}
use data_ontology_graph.Prelude.Json.{Fields}
use data_ontology_graph.Model.Claims.{Claims}
use data_ontology_graph.Model.Columns.{ColumnsProblem, check_columns}
use data_ontology_graph.Model.Definition.{EntityDefinition}

pub record DatasetDescriptor : Type 0 where
  pub qualified_name : Text
  pub display_name : Text
  pub description : Text
  pub synonyms : List Text
  pub tags : List Text

pub record DatasetAccessor : Type 0 where
  pub schema_id : Text
  pub properties : Fields

pub record ColumnMetadata : Type 0 where
  pub name : Text
  pub description : Text
  pub value_description : Text
  pub synonyms : List Text

pub record GrainComponent : Type 0 where
  pub dataset_columns : List Text
  pub identity_id : Option Text
  pub description : Text

-- The columns' validator has the same three tests as an endpoint's.
unfoldable pub validate_component : GrainComponent → Result ColumnsProblem (List Text)
unfolding check_columns
validate_component c = check_columns c.dataset_columns

pub record DatasetGrain : Type 0 where
  pub components : List GrainComponent
  pub description : Text

-- `DatasetGrain | Unknown`
pub data Grain : Type 0 where
  known : DatasetGrain → Grain
  unknown : Grain

pub record DatasetNode : Type 0 where
  pub node_id : Text
  pub descriptor : DatasetDescriptor
  pub accessor : DatasetAccessor
  pub grain : Grain
  pub columns : List ColumnMetadata
  pub entity_definitions : List EntityDefinition

pub data NodeProblem : Type 0 where
  duplicate_columns duplicate_definition missing_grain_columns unresolved_grain : NodeProblem
  missing_columns : Text → NodeProblem

abbrev pub column_names : DatasetNode → List Text
column_names node = map (λ column. column.name) node.columns

-- (identity_id, dataset_columns)
abbrev pub LocalKey : Type 0
LocalKey = Text × List Text

abbrev pub local_key : EntityDefinition → LocalKey
local_key d = (d.identity_id, d.dataset_columns)

-- the loop over the definitions, with the keys seen so far
unfoldable pub check_definitions :
    List Text → List LocalKey → List EntityDefinition → Result NodeProblem (Unit {0})
check_definitions inventory seen [] = ok tt
check_definitions inventory seen (d ∷ ds) =
    let rest = check_definitions inventory (local_key d ∷ seen) ds in
    do
      guard (all (contains inventory) d.dataset_columns) (NodeProblem.missing_columns d.identity_id)
      guard (not (contains seen (local_key d))) NodeProblem.duplicate_definition
      rest

-- a definition of the component's logical entity on the component's columns
abbrev pub resolves : List EntityDefinition → List Text → Option Text → Bool
resolves ds columns none = true
resolves ds columns (some identity_id) =
    any (λ d. d.identity_id == identity_id && d.dataset_columns == columns) ds

abbrev pub check_component :
    List Text → List EntityDefinition → GrainComponent → Result NodeProblem (Unit {0})
check_component inventory ds c = do
  guard (all (contains inventory) c.dataset_columns) NodeProblem.missing_grain_columns
  guard (resolves ds c.dataset_columns c.identity_id) NodeProblem.unresolved_grain
  ok tt

abbrev pub check_grain : List Text → List EntityDefinition → Grain → Result NodeProblem (Unit {0})
check_grain inventory ds (Grain.known g) = check_each (check_component inventory ds) g.components
check_grain inventory ds Grain.unknown = ok tt

unfoldable pub validate_invariants : DatasetNode → Result NodeProblem (Unit {0})
unfolding check_definitions
validate_invariants node = do
  guard (not (has_duplicates (column_names node))) NodeProblem.duplicate_columns
  check_definitions (column_names node) [] node.entity_definitions
  check_grain (column_names node) node.entity_definitions node.grain

abbrev is_unknown_grain : Grain → Bool
is_unknown_grain (Grain.known g) = false
is_unknown_grain Grain.unknown = true

abbrev pub claims : DatasetNode → Claims
claims node = (text "grain", is_unknown_grain node.grain) ∷ []
