-- ===== src/Service/Handle.antt =====
-- `handle_message`, `handle_message_inner` and the handlers of the payloads, of
-- src/tasks/service.rs.
pub mod Cases
pub mod Answers
pub mod Replies
use fpd.Base.{ℕ, String, Bool, true, false, not, Option, none, some, List, [], ◌∷◌, string_eq}
use fpd.Base.{Outcome, ok, err, panicked, eqb, if◌then◌else◌}
use fpd.Base.Dict
use fpd.Service.{
  Error, deserialization, invocation, not_found, missing_op_id, unsupported_version,
  unsupported_payload, Blob, Host, ProxyDataSource, Loaded, runtime, load_failed, ProxyService,
  ServerMessagePayload, ServerMessage, invoke, create_cells, extract_data, get_config_schema,
  get_supported_query_types, ProxyMessagePayload, invoke_proxy_response, create_cells_response,
  extract_data_response, config_schema_response, supported_query_types_response, error_response,
  ProxyMessage,
}
use fpd.Service.Bindings
use fpd.Service.Metrics.{Labels, Log, query_counted, query_started, query_ended, duration_observed}

-- anyhow's error of `handle_message`
pub data HandleError : Type 0 where
  handling : Error → HandleError
  sending_response : HandleError

abbrev pub supported_version : ℕ
supported_version = 2

module _ {H : Host} where
  abbrev pub reply : ℕ → ProxyMessagePayload H → ProxyMessage H
  reply op_id payload = record { op_id = some op_id; payload = payload }

  -- `Ok` makes a response of its kind, and `Err` an error response.
  abbrev pub respond :
      {A : Type 0}
      → ℕ
      → (A → ProxyMessagePayload H)
      → Outcome Error A
      → Outcome Error (ProxyMessage H)
  respond op_id wrap (ok a) = ok (reply op_id (wrap a))
  respond op_id wrap (err e) = ok (reply op_id (error_response e))
  respond op_id wrap panicked = panicked

  -- `handle_invoke_proxy_message`, `handle_create_cells_proxy_message`,
  -- `handle_extract_data_proxy_message`, `handle_config_schema_proxy_message`,
  -- `handle_supported_query_types`, and the answer to any other payload
  unfoldable pub call_provider :
      (now : ℕ)
      → H.Runtime
      → ProxyDataSource
      → ℕ
      → ServerMessagePayload
      → Outcome Error (ProxyMessage H)
  call_provider now r source op_id (invoke request) =
      respond op_id invoke_proxy_response
        (Bindings.invoke_provider_v2 H now r request source.config)
  call_provider now r source op_id (create_cells query_type response) =
      respond op_id create_cells_response (Bindings.create_cells H r query_type response)
  call_provider now r source op_id (extract_data response mime_type query) =
      respond op_id extract_data_response (Bindings.extract_data H r response mime_type query)
  call_provider now r source op_id get_config_schema =
      respond op_id config_schema_response (Bindings.get_config_schema H r)
  call_provider now r source op_id get_supported_query_types =
      respond op_id supported_query_types_response
        (Bindings.get_supported_query_types H now r source.config)
  call_provider now r source op_id (ServerMessagePayload.other tag) =
      ok (reply op_id (error_response (invocation (unsupported_payload tag))))

  -- The metrics around the call; a panic of the call drops the timer, and leaves the gauge raised.
  unfoldable pub track :
      Labels → Outcome Error (ProxyMessage H) → Log × Outcome Error (ProxyMessage H)
  track labels panicked =
      (query_counted labels ∷ query_started labels ∷ duration_observed labels ∷ [], panicked)
  track labels response = (
    query_counted labels
        ∷ query_started labels
        ∷ query_ended labels
        ∷ duration_observed labels
        ∷ [],
    response,
  )

  -- What `handle_message` does with the response.
  unfoldable pub send_response :
      Bool → Outcome Error (ProxyMessage H) → List (ProxyMessage H) × Outcome HandleError (Unit {0})
  send_response true (ok response) = (response ∷ [], ok tt)
  send_response false (ok response) = ([], err sending_response)
  send_response listening (err e) = ([], err (handling e))
  send_response listening panicked = ([], panicked)

  module _ (service : ProxyService H) (now : ℕ) (message : ServerMessage) where
    unfoldable pub with_runtime :
        ProxyDataSource → ℕ → Option (Loaded H) → Log × Outcome Error (ProxyMessage H)
    unfolding track
    with_runtime source op_id none = ([], panicked)
    with_runtime source op_id (some (load_failed e)) = ([], ok (reply op_id (error_response e)))
    with_runtime source op_id (some (runtime r)) =
        track
          (record {
            protocol_version = message.protocol_version;
            provider_type = source.provider_type;
            data_source_name = source.name;
          })
          (call_provider now r source op_id message.payload)

    unfoldable pub with_data_source :
        ℕ → Option ProxyDataSource → Log × Outcome Error (ProxyMessage H)
    unfolding with_runtime
    with_data_source op_id none = ([], ok (reply op_id (error_response not_found)))
    with_data_source op_id (some source) =
        with_runtime source op_id (Dict.get source.provider_type service.wasm_modules)

    unfoldable pub with_op_id : Option ℕ → Log × Outcome Error (ProxyMessage H)
    unfolding with_data_source
    with_op_id none = ([], err (deserialization missing_op_id))
    with_op_id (some op_id) =
        if not (eqb message.protocol_version supported_version)
        then (
          [],
          ok (
              reply op_id
                (error_response (invocation (unsupported_version message.protocol_version)))),
        )
        else with_data_source op_id (Dict.get message.data_source_name service.data_sources)

    -- The updates of the metrics, and the response.
    unfoldable pub handle_message_inner : Log × Outcome Error (ProxyMessage H)
    unfolding with_op_id
    handle_message_inner = with_op_id message.op_id

    -- `handle_message`: what is sent to the channel of outgoing messages, and how the call ends.
    -- `listening`: whether the receiver of the channel is still there.
    unfoldable pub handle_message :
        (listening : Bool) → List (ProxyMessage H) × Outcome HandleError (Unit {0})
    unfolding handle_message_inner send_response
    handle_message listening = send_response listening handle_message_inner.1
