-- ===== src/Rpc/Protocol/Responses.antt =====
-- The form of a response, whatever the message.
use data_ontology_graph.Prelude.{
  Text, text, Bool, true, false, ◌≡◌, ◌≢◌, refl, ◌⊎◌, inl, inr, Option, none, some, Result, ok, err,
  nat_order, list_order,
}
use data_ontology_graph.Prelude.Json.{Json, Fields, get}
use data_ontology_graph.Rpc.Protocol.{
  Method, methods, lookup, Raised, Code, error_response, is_version_2, params_of, call, respond,
  run, with_params, with_method, with_id, dispatch, strip_quotes,
}

-- the ID of the message, or null where there is none
abbrev pub id_sent : Json → Json
id_sent (Json.object fields) = elim (get fields (text "id")) [
  | some request_id ↦ request_id
  | none ↦ Json.null
]
id_sent _ = Json.null

-- A response with this ID, and with either a result or an error.
pub record IsResponse (request_id : Json) (response : Fields) : Type 0 where
  pub version : get response (text "jsonrpc") ≡ some (Json.string (text "2.0"))
  pub same_id : get response (text "id") ≡ some request_id
  pub result_or_error :
      ((get response (text "result") ≢ none) × (get response (text "error") ≡ none))
      ⊎ ((get response (text "result") ≡ none) × (get response (text "error") ≢ none))

error-IsResponse :
    (request_id : Json) (code : Code) (message : Text) (value : Option Json)
    → IsResponse request_id (error_response request_id code message value)
error-IsResponse request_id code message value = record {
  version = refl;
  same_id = refl;
  result_or_error = inr (refl, λ e. cc);
}

module _ (handle : Method → Fields → Result Raised Json) (request_id : Json) where
  respond-IsResponse :
      (outcome : Result Raised Json) → IsResponse request_id (respond handle request_id outcome)
  respond-IsResponse (ok value) = record {
    version = refl;
    same_id = refl;
    result_or_error = inl ((λ e. cc), refl);
  }
  respond-IsResponse (err (Raised.validation_error errors)) =
      error-IsResponse request_id Code.invalid_params (text "Invalid params") (some errors)
  respond-IsResponse (err (Raised.key_error message)) =
      error-IsResponse request_id Code.resource_not_found (strip_quotes message) none
  respond-IsResponse (err (Raised.value_error message)) =
      error-IsResponse request_id Code.invalid_params message none
  respond-IsResponse (err Raised.other) =
      error-IsResponse request_id Code.internal_error (text "Internal error") none

  run-IsResponse :
      (method : Option Method) (params : Fields)
      → IsResponse request_id (run handle request_id method params)
  run-IsResponse none params =
      error-IsResponse request_id Code.method_not_found (text "Method not found") none
  run-IsResponse (some method) params = respond-IsResponse (call handle method params)

  params-IsResponse :
      (name : Text) (params : Json)
      → IsResponse request_id (with_params handle request_id name params)
  params-IsResponse name (Json.object params) = run-IsResponse (lookup methods name) params
  params-IsResponse name Json.null =
      error-IsResponse request_id Code.invalid_params (text "Invalid params") none
  params-IsResponse name (Json.bool b) =
      error-IsResponse request_id Code.invalid_params (text "Invalid params") none
  params-IsResponse name (Json.number n) =
      error-IsResponse request_id Code.invalid_params (text "Invalid params") none
  params-IsResponse name (Json.string t) =
      error-IsResponse request_id Code.invalid_params (text "Invalid params") none
  params-IsResponse name (Json.array items) =
      error-IsResponse request_id Code.invalid_params (text "Invalid params") none

  method-IsResponse :
      (version : Bool) (method : Option Json) (params : Json)
      → IsResponse request_id (with_method handle request_id version method params)
  method-IsResponse true (some (Json.string name)) params = params-IsResponse name params
  method-IsResponse true (some Json.null) params =
      error-IsResponse request_id Code.invalid_request (text "Invalid Request") none
  method-IsResponse true (some (Json.bool b)) params =
      error-IsResponse request_id Code.invalid_request (text "Invalid Request") none
  method-IsResponse true (some (Json.number n)) params =
      error-IsResponse request_id Code.invalid_request (text "Invalid Request") none
  method-IsResponse true (some (Json.array items)) params =
      error-IsResponse request_id Code.invalid_request (text "Invalid Request") none
  method-IsResponse true (some (Json.object fields)) params =
      error-IsResponse request_id Code.invalid_request (text "Invalid Request") none
  method-IsResponse true none params =
      error-IsResponse request_id Code.invalid_request (text "Invalid Request") none
  method-IsResponse false none params =
      error-IsResponse request_id Code.invalid_request (text "Invalid Request") none
  method-IsResponse false (some method) params =
      error-IsResponse request_id Code.invalid_request (text "Invalid Request") none

-- Every message is answered, and every answer has the message's ID, or null where the message has
-- none, and either a result or an error and not both.
pub dispatch-IsResponse :
    (handle : Method → Fields → Result Raised Json) (message : Json)
    → IsResponse (id_sent message) (dispatch handle message)
unfolding dispatch
dispatch-IsResponse handle Json.null =
    error-IsResponse Json.null Code.invalid_request (text "Invalid Request") none
dispatch-IsResponse handle (Json.bool b) =
    error-IsResponse Json.null Code.invalid_request (text "Invalid Request") none
dispatch-IsResponse handle (Json.number n) =
    error-IsResponse Json.null Code.invalid_request (text "Invalid Request") none
dispatch-IsResponse handle (Json.string t) =
    error-IsResponse Json.null Code.invalid_request (text "Invalid Request") none
dispatch-IsResponse handle (Json.array items) =
    error-IsResponse Json.null Code.invalid_request (text "Invalid Request") none
dispatch-IsResponse handle (Json.object fields) = by_id (get fields (text "id"))
  where
    by_id :
        (id : Option Json)
        → IsResponse
            (elim id as (λ x. Json) [ some request_id ↦ request_id | none ↦ Json.null ])
            (with_id handle id fields)
    by_id none =
        error-IsResponse Json.null Code.invalid_request (text "Request id is required") none
    by_id (some request_id) =
        method-IsResponse handle request_id (is_version_2 (get fields (text "jsonrpc")))
          (get fields (text "method")) (params_of (get fields (text "params")))
