-- ===== src/Rpc/Protocol.antt =====
-- rpc/protocol.py: from a JSON-RPC message to its response. The handlers' calls of the service, with
-- the parsing of their parameters, are an argument.
pub mod Answers
pub mod Responses
mod Examples
use mathlib.Core.List.{reverse}
use data_ontology_graph.Prelude.{
  Text, text, List, [], ◌∷◌, Bool, true, false, Option, none, some, Result, ok, err, if◌then◌else◌,
  ◌==◌, ◌&&◌, nat_order, list_order,
}
use data_ontology_graph.Prelude.Json.{Json, Fields, get}

pub data Method : Type 0 where
  snapshot_info search get_identity get_dataset get_relationship get_edges expand_subgraph
        find_paths find_connecting_subgraph :
      Method

-- `self._methods.get(name)`
abbrev pub methods : List (Text × Method)
methods =
    (text "graph.snapshot_info", Method.snapshot_info)
    ∷ (text "graph.search", Method.search)
    ∷ (text "graph.get_identity", Method.get_identity)
    ∷ (text "graph.get_dataset", Method.get_dataset)
    ∷ (text "graph.get_relationship", Method.get_relationship)
    ∷ (text "graph.get_edges", Method.get_edges)
    ∷ (text "graph.expand_subgraph", Method.expand_subgraph)
    ∷ (text "graph.find_paths", Method.find_paths)
    ∷ (text "graph.find_connecting_subgraph", Method.find_connecting_subgraph)
    ∷ []

abbrev pub lookup : List (Text × Method) → Text → Option Method
lookup [] name = none
lookup ((n, m) ∷ rest) name = if n == name then some m else lookup rest name

-- The exceptions that `dispatch` tells apart: a validation error with its errors as data, a
-- KeyError and a ValueError with their texts, and any other.
pub data Raised : Type 0 where
  validation_error : Json → Raised
  key_error value_error : Text → Raised
  other : Raised

pub data Code : Type 0 where
  invalid_request method_not_found invalid_params internal_error resource_not_found : Code

abbrev pub code_number : Code → Text
code_number Code.invalid_request = text "-32600"
code_number Code.method_not_found = text "-32601"
code_number Code.invalid_params = text "-32602"
code_number Code.internal_error = text "-32603"
code_number Code.resource_not_found = text "-32004"

abbrev with_data : Option Json → Fields
with_data none = Fields.end
with_data (some value) = Fields.field (text "data") value Fields.end

abbrev pub error_response : Json → Code → Text → Option Json → Fields
error_response request_id code message value =
    Fields.field (text "jsonrpc") (Json.string (text "2.0")) (
      Fields.field (text "id") request_id (
        Fields.field (text "error")
          (Json.object (
            Fields.field (text "code") (Json.number (code_number code))
              (Fields.field (text "message") (Json.string message) (with_data value))))
          Fields.end))

abbrev pub result_response : Json → Json → Fields
result_response request_id result =
    Fields.field (text "jsonrpc") (Json.string (text "2.0"))
      (Fields.field (text "id") request_id (Fields.field (text "result") result Fields.end))

abbrev left_quotes : Text → Text
left_quotes [] = []
left_quotes (c ∷ cs) = if c == 39 then left_quotes cs else c ∷ cs

-- `str(error).strip("'")`
unfoldable pub strip_quotes : Text → Text
strip_quotes cs = reverse (left_quotes (reverse (left_quotes cs)))

abbrev pub is_version_2 : Option Json → Bool
is_version_2 (some (Json.string version)) = version == text "2.0"
is_version_2 _ = false

-- `message.get("params", {})`
abbrev pub params_of : Option Json → Json
params_of none = Json.object Fields.end
params_of (some params) = params

module _ (handle : Method → Fields → Result Raised Json) where
  -- `_require_empty` before the service's call
  abbrev pub call : Method → Fields → Result Raised Json
  call Method.snapshot_info (Fields.field key value params) =
      err (Raised.value_error (text "graph.snapshot_info accepts no parameters"))
  call method params = handle method params

  abbrev pub respond : Json → Result Raised Json → Fields
  respond request_id (ok result) = result_response request_id result
  respond request_id (err (Raised.validation_error errors)) =
      error_response request_id Code.invalid_params (text "Invalid params") (some errors)
  respond request_id (err (Raised.key_error message)) =
      error_response request_id Code.resource_not_found (strip_quotes message) none
  respond request_id (err (Raised.value_error message)) =
      error_response request_id Code.invalid_params message none
  respond request_id (err Raised.other) =
      error_response request_id Code.internal_error (text "Internal error") none

  abbrev pub run : Json → Option Method → Fields → Fields
  run request_id none params =
      error_response request_id Code.method_not_found (text "Method not found") none
  run request_id (some method) params = respond request_id (call method params)

  abbrev pub with_params : Json → Text → Json → Fields
  with_params request_id name (Json.object params) = run request_id (lookup methods name) params
  with_params request_id name _ =
      error_response request_id Code.invalid_params (text "Invalid params") none

  abbrev pub with_method : Json → Bool → Option Json → Json → Fields
  with_method request_id true (some (Json.string name)) params = with_params request_id name params
  with_method request_id _ _ params =
      error_response request_id Code.invalid_request (text "Invalid Request") none

  abbrev pub with_id : Option Json → Fields → Fields
  with_id none message =
      error_response Json.null Code.invalid_request (text "Request id is required") none
  with_id (some request_id) message =
      with_method request_id (is_version_2 (get message (text "jsonrpc")))
        (get message (text "method")) (params_of (get message (text "params")))

  unfoldable pub dispatch : Json → Fields
  unfolding strip_quotes
  dispatch (Json.object message) = with_id (get message (text "id")) message
  dispatch _ = error_response Json.null Code.invalid_request (text "Invalid Request") none
