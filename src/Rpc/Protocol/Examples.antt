-- ===== src/Rpc/Protocol/Examples.antt =====
-- Messages and their responses.
use data_ontology_graph.Prelude.{
  true, Text, text, ◌≡◌, ◌↔◌, refl, none, some, Result, ok, err, nat_order, list_order,
}
use data_ontology_graph.Prelude.Json.{Json, Fields}
use data_ontology_graph.Rpc.Protocol.{
  Method, Raised, Code, error_response, result_response, call, dispatch, strip_quotes,
}
use data_ontology_graph.Rpc.Protocol.Answers.{IsRequest, result_in, dispatch-result_iff}
use data_ontology_graph.Rpc.Protocol.Responses.{IsResponse, id_sent, dispatch-IsResponse}

-- a service that knows no dataset
abbrev handle : Method → Fields → Result Raised Json
handle Method.snapshot_info params = ok (Json.bool true)
handle method params = err (Raised.key_error (text "'no such dataset'"))

abbrev request : Text → Json
request name = Json.object (
    Fields.field (text "jsonrpc") (Json.string (text "2.0")) (
      Fields.field (text "id") (Json.number (text "7"))
        (Fields.field (text "method") (Json.string name) Fields.end)))

answered_request :
    dispatch handle (request (text "graph.snapshot_info"))
    ≡ result_response (Json.number (text "7")) (Json.bool true)
unfolding dispatch
answered_request = refl

not_found :
    dispatch handle (request (text "graph.get_dataset"))
    ≡ error_response (Json.number (text "7")) Code.resource_not_found (text "no such dataset") none
unfolding dispatch strip_quotes
not_found = refl

dispatch-result_iff_example :
    (result_in (dispatch handle (request (text "graph.snapshot_info"))) ≡ some (Json.bool true)) ↔ (
      (request_id : Json) × (method : Method) × (params : Fields) × IsRequest
        (request (text "graph.snapshot_info"))
        request_id
        method
        params
      × (call handle method params ≡ ok (Json.bool true)))
dispatch-result_iff_example =
    dispatch-result_iff handle (request (text "graph.snapshot_info")) (Json.bool true)

dispatch-IsResponse_example :
    IsResponse
      (id_sent (request (text "graph.search")))
      (dispatch handle (request (text "graph.search")))
dispatch-IsResponse_example = dispatch-IsResponse handle (request (text "graph.search"))
