-- ===== src/Service/Views/Examples.antt =====
-- Views at concrete requests.
use data_ontology_graph.Prelude.{
  Text, text, [], ◌∷◌, Memᴰ, true, false, ◌≡◌, ◌↔◌, refl, ok, err, contains, from_keys, nat_order,
  list_order,
}
use data_ontology_graph.Service.Views.Fields.{Detail, FieldObject, catalog}
use data_ontology_graph.Service.Views.{Added, View, ViewProblem, resolve, fields_in, once_each}
use data_ontology_graph.Service.Views.Selected.{
  IsWanted, view_fields, resolve_returns_iff, resolve-fields,
}

abbrev asked : Added
asked FieldObject.edge = text "annotation" ∷ text "annotation" ∷ []
asked _ = []

abbrev unknown_asked : Added
unknown_asked FieldObject.dataset = text "size" ∷ []
unknown_asked _ = []

abbrev found : View
found = record {
  detail = Detail.essential;
  added = once_each asked;
  dataset = fields_in Detail.essential (once_each asked) true FieldObject.dataset;
  edge = fields_in Detail.essential (once_each asked) true FieldObject.edge;
  entity_definition =
      fields_in Detail.essential (once_each asked) true FieldObject.entity_definition;
}

resolved : resolve Detail.essential asked true ≡ ok found
unfolding resolve once_each from_keys contains
resolved = refl

edge_positions :
    found.edge
    ≡ text "edge"
      ∷ text "identity_id"
      ∷ text "multiplicity"
      ∷ text "match_existence"
      ∷ text "annotation"
      ∷ text "edge_id"
      ∷ []
unfolding fields_in once_each from_keys contains
edge_positions = refl

refused :
    resolve Detail.full unknown_asked false ≡ err (ViewProblem.unknown_fields FieldObject.dataset)
unfolding resolve once_each from_keys contains
refused = refl

resolve_returns_iff_example :
    ((view : View) × (resolve Detail.full unknown_asked false ≡ ok view)) ↔ (
      (name : FieldObject) (field : Text)
      → Memᴰ field (unknown_asked name)
      → Memᴰ field (catalog name))
resolve_returns_iff_example = resolve_returns_iff Detail.full unknown_asked false

resolve-fields_example : Memᴰ (text "identity_id") (view_fields found FieldObject.edge) ↔ (
    Memᴰ (text "identity_id") (catalog FieldObject.edge)
    × IsWanted Detail.essential asked true FieldObject.edge (text "identity_id"))
resolve-fields_example =
    resolve-fields Detail.essential asked true found resolved FieldObject.edge (text "identity_id")
