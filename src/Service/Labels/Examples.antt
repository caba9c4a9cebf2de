-- ===== src/Service/Labels/Examples.antt =====
-- Labels with quoted names, and the theorems about them at concrete inputs.
use data_ontology_graph.Prelude.{
  Text, text, List, [], ◌∷◌, ◌≡◌, ◌≢◌, refl, ok, err, contains, not-contains, nat_order,
}
use data_ontology_graph.Service.Labels.{
  LabelProblem, definition_label, edge_label, split_edge_label, read_side,
}
use data_ontology_graph.Service.Labels.Quoted.{short_escape, hex_digit, code_unit}
use data_ontology_graph.Service.Labels.Reading.{split_edge_label-Ends}
use data_ontology_graph.Service.Labels.RoundTrip.{split_edge_label-edge_label}

-- a comma is quoted
quoted_comma : definition_label (text "t") (text "a,b" ∷ text "c" ∷ []) ≡ text "t[\"a,b\",c]"
unfolding definition_label short_escape
quoted_comma = refl

-- a quote in a quoted name is escaped
quoted_quote : definition_label (text "t") (text "a\"b" ∷ []) ≡ text "t[\"a\\\"b\"]"
unfolding definition_label short_escape
quoted_quote = refl

-- an escaped pair of surrogates is one character
surrogates : read_side (text "t[\"\\uD83D\\uDE00\"]") ≡ ok ((text "t", (128512 ∷ []) ∷ []), [])
unfolding read_side hex_digit code_unit
surrogates = refl

no_arrow : split_edge_label (text "a[x]") ≡ err LabelProblem.not_an_edge
unfolding split_edge_label
no_arrow = refl

abbrev start_columns : List Text
start_columns = text "a,b" ∷ text "]" ∷ []

split_edge_label-edge_label_example :
    split_edge_label (edge_label (text "s", start_columns) (text "t", text "->" ∷ []))
    ≡ ok ((text "s", start_columns), (text "t", text "->" ∷ []))
split_edge_label-edge_label_example =
    split_edge_label-edge_label (text "s") (text "t") start_columns (text "->" ∷ [])
      (not-contains (text "s") 91 (unfold contains in refl))
      (not-contains (text "t") 91 (unfold contains in refl)) (λ q. cc) (λ q. cc)

split_edge_label-Ends_example : split_edge_label (text "a[x,\"y") ≢ err LabelProblem.out_of_rounds
split_edge_label-Ends_example = split_edge_label-Ends (text "a[x,\"y")
