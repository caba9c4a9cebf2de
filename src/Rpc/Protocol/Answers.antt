-- ===== src/Rpc/Protocol/Answers.antt =====
-- What a response says of the request.
use data_ontology_graph.Prelude.{
  Text, text, Bool, true, false, ◌≡◌, refl, ap, ◌∙◌, ◌↔◌, Option, none, some, Result, ok, err,
  nat_order, list_order,
}
use data_ontology_graph.Prelude.Json.{Json, Fields, get}
use data_ontology_graph.Rpc.Protocol.{
  Method, methods, lookup, Raised, result_response, is_version_2, params_of, call, respond, run,
  with_params, with_method, with_id, dispatch,
}

-- A message is a request: an object with an ID, the version, the name of a method and, if any,
-- parameters by name.
pub record IsRequest (message : Json) (request_id : Json) (method : Method) (params : Fields)
    : Type 0 where
  pub fields : Fields
  pub name : Text
  pub is_object : message ≡ Json.object fields
  pub has_id : get fields (text "id") ≡ some request_id
  pub has_version : is_version_2 (get fields (text "jsonrpc")) ≡ true
  pub has_method : get fields (text "method") ≡ some (Json.string name)
  pub is_known : lookup methods name ≡ some method
  pub has_params : params_of (get fields (text "params")) ≡ Json.object params

abbrev pub result_in : Fields → Option Json
result_in response = get response (text "result")

module _ (handle : Method → Fields → Result Raised Json) where
  -- A request whose call returns is answered with the result, and with its ID.
  request-result :
      (message request_id result : Json) (method : Method) (params : Fields)
      → IsRequest message request_id method params
      → call handle method params ≡ ok result
      → dispatch handle message ≡ result_response request_id result
  unfolding dispatch
  request-result message request_id result method params r returned =
      ap (dispatch handle) r.is_object
      ∙ ap (λ id. with_id handle id r.fields) r.has_id
      ∙ ap
          (λ v.
            with_method handle request_id v (get r.fields (text "method"))
              (params_of (get r.fields (text "params"))))
          r.has_version
      ∙ ap (λ m. with_method handle request_id true m (params_of (get r.fields (text "params"))))
          r.has_method
      ∙ ap (with_params handle request_id r.name) r.has_params
      ∙ ap (λ m. run handle request_id m params) r.is_known
      ∙ ap (respond handle request_id) returned

  abbrev Answered : Json → Json → Type 0
  Answered message result =
      (request_id : Json) × (method : Method) × (params : Fields) × IsRequest message request_id
        method params
      × (call handle method params ≡ ok result)

  respond-result :
      (request_id result : Json) (outcome : Result Raised Json)
      → result_in (respond handle request_id outcome) ≡ some result
      → outcome ≡ ok result
  respond-result request_id result (ok value) h = cc
  respond-result request_id result (err (Raised.validation_error errors)) h = absurd cc
  respond-result request_id result (err (Raised.key_error message)) h = absurd cc
  respond-result request_id result (err (Raised.value_error message)) h = absurd cc
  respond-result request_id result (err Raised.other) h = absurd cc

  module _ (fields : Fields) (request_id result : Json)
      (has_id : get fields (text "id") ≡ some request_id) where
    known_method :
        (name : Text) (params : Fields) (method : Option Method)
        → is_version_2 (get fields (text "jsonrpc")) ≡ true
        → get fields (text "method") ≡ some (Json.string name)
        → params_of (get fields (text "params")) ≡ Json.object params
        → lookup methods name ≡ method
        → result_in (run handle request_id method params) ≡ some result
        → Answered (Json.object fields) result
    known_method name params none v m p found h = absurd cc
    known_method name params (some method) v m p found h = (
      request_id,
      method,
      params,
      record {
        fields = fields;
        name = name;
        is_object = refl;
        has_id = has_id;
        has_version = v;
        has_method = m;
        is_known = found;
        has_params = p;
      },
      respond-result request_id result (call handle method params) h,
    )

    named_params :
        (name : Text) (params : Json)
        → is_version_2 (get fields (text "jsonrpc")) ≡ true
        → get fields (text "method") ≡ some (Json.string name)
        → params_of (get fields (text "params")) ≡ params
        → result_in (with_params handle request_id name params) ≡ some result
        → Answered (Json.object fields) result
    named_params name Json.null v m p h = absurd cc
    named_params name (Json.bool b) v m p h = absurd cc
    named_params name (Json.number n) v m p h = absurd cc
    named_params name (Json.string t) v m p h = absurd cc
    named_params name (Json.array items) v m p h = absurd cc
    named_params name (Json.object params) v m p h =
        known_method name params (lookup methods name) v m p refl h

    named_method :
        (version : Bool) (method : Option Json)
        → is_version_2 (get fields (text "jsonrpc")) ≡ version
        → get fields (text "method") ≡ method
        → result_in
            (with_method handle request_id version method (params_of (get fields (text "params"))))
          ≡ some result
        → Answered (Json.object fields) result
    named_method false none v m h = absurd cc
    named_method false (some method) v m h = absurd cc
    named_method true none v m h = absurd cc
    named_method true (some Json.null) v m h = absurd cc
    named_method true (some (Json.bool b)) v m h = absurd cc
    named_method true (some (Json.number n)) v m h = absurd cc
    named_method true (some (Json.array items)) v m h = absurd cc
    named_method true (some (Json.object fs)) v m h = absurd cc
    named_method true (some (Json.string name)) v m h =
        named_params name (params_of (get fields (text "params"))) v m refl h

  identified :
      (fields : Fields) (result : Json) (id : Option Json)
      → get fields (text "id") ≡ id
      → result_in (with_id handle id fields) ≡ some result
      → Answered (Json.object fields) result
  identified fields result none e h = absurd cc
  identified fields result (some request_id) e h =
      named_method fields request_id result e (is_version_2 (get fields (text "jsonrpc")))
        (get fields (text "method")) refl refl h

  answered :
      (message result : Json)
      → result_in (dispatch handle message) ≡ some result
      → Answered message result
  unfolding dispatch
  answered Json.null result h = absurd cc
  answered (Json.bool b) result h = absurd cc
  answered (Json.number n) result h = absurd cc
  answered (Json.string t) result h = absurd cc
  answered (Json.array items) result h = absurd cc
  answered (Json.object fields) result h = identified fields result (get fields (text "id")) refl h

  -- A response holds a result exactly when the message is a request for a known method and the call
  -- returns that result; every other message is answered without one.
  pub dispatch-result_iff :
      (message result : Json)
      → (result_in (dispatch handle message) ≡ some result) ↔ (
          (request_id : Json) × (method : Method) × (params : Fields) × IsRequest message request_id
            method params
          × (call handle method params ≡ ok result))
  dispatch-result_iff message result = (
    answered message result,
    λ (request_id, method, params, request, returned).
        ap result_in (request-result message request_id result method params request returned),
  )
