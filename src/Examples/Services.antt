-- ===== src/Examples/Services.antt =====
-- The theorems on src/tasks/service.rs and src/tasks/service/status_check.rs at concrete inputs.
use fpd.Base.{
  true, false, ℕ, ◌≡◌, ◌≢◌, ◌⊎◌, inl, inr, refl, String, none, some, List, [], ◌∷◌, string_eq, ok,
  err, panicked,
}
use fpd.Base.Dict
use fpd.Service.{
  Error, not_found, deserialization, missing_op_id, ProxyDataSource, runtime, ProxyService,
  ServerMessage, invoke, invoke_proxy_response, error_response, ProxyMessage,
}
use fpd.Service.Metrics.{gauge}
use fpd.Service.Outgoing
use fpd.Service.Bindings
use fpd.Service.Handle.{reply, call_provider, handle_message_inner}
use fpd.Service.Handle.Answers.{handle-gauge, handle-ne-panicked, handle-answered}
use fpd.Examples.Hosts.{clock, clock-Returns, metrics_source, service, service-HasModules}
use fpd.Service.Init.{Settings, init}
use fpd.Service.Init.Modules.{init-HasModules}

abbrev message_to : String → ServerMessage
message_to name = record {
  op_id = some 9;
  protocol_version = 2;
  data_source_name = name;
  payload = invoke [];
}

abbrev answer : ProxyMessage clock
answer = reply 9 (invoke_proxy_response (4 ∷ 1 ∷ []))

answer_is : (handle_message_inner service 4 (message_to "metrics")).1 ≡ ok answer
unfolding handle_message_inner string_eq Dict.get call_provider Bindings.invoke_provider_v2
answer_is = refl

answer_is_no_error : ¬ ((e : Error) × (answer.payload ≡ error_response e))
answer_is_no_error (e, h) = cc

unknown_source :
    (handle_message_inner service 4 (message_to "logs")).1 ≡ ok (reply 9 (error_response not_found))
unfolding handle_message_inner string_eq Dict.get
unknown_source = refl

handle-answered_example :
    ((message_to "metrics").protocol_version ≡ 2)
    × (source : ProxyDataSource) × (r : Unit {0}) × (Dict.get "metrics" service.data_sources
        ≡ some source)
    × (Dict.get source.provider_type service.wasm_modules ≡ some (runtime r))
handle-answered_example =
    handle-answered service 4 (message_to "metrics") {response = answer} answer_is
      answer_is_no_error

handle-ne-panicked_example : (handle_message_inner service 4 (message_to "metrics")).1 ≢ panicked
handle-ne-panicked_example =
    handle-ne-panicked service 4 (message_to "metrics") clock-Returns service-HasModules

handle-gauge_example :
    (gauge (handle_message_inner service 4 (message_to "metrics")).0).0
    ≡ (gauge (handle_message_inner service 4 (message_to "metrics")).0).1
handle-gauge_example = handle-gauge service 4 (message_to "metrics") handle-ne-panicked_example

abbrev without_operation : ServerMessage
without_operation = record (message_to "metrics") { op_id = none }

rejection :
    (handle_message_inner service 4 without_operation).1 ≡ err (deserialization missing_op_id)
unfolding handle_message_inner
rejection = refl

abbrev pub settings : Settings
settings = record {
  endpoint = "wss://example.com";
  token = "t";
  max_retries = 3;
  listen_address = none;
  status_check_interval = 5;
}

abbrev no_file : String → String ⊎ List ℕ
no_file path = inl "no such file"

abbrev pub compile : List ℕ → String ⊎ (Unit {0})
compile bytes = inr tt

abbrev made : ProxyService clock
made = init clock no_file compile settings (metrics_source ∷ [])

made_has : Dict.get "metrics" made.data_sources ≡ some metrics_source
unfolding init string_eq Dict.get Dict.extend Dict.insert
made_has = refl

init-HasModules_example : Dict.get "prometheus" made.wasm_modules ≢ none
init-HasModules_example =
    init-HasModules clock no_file compile settings (metrics_source ∷ []) "metrics" metrics_source
      made_has

abbrev serialize : ProxyMessage clock → List ℕ
serialize message = 5 ∷ []

abbrev unsent : Outgoing.Channels serialize
unsent = record { phase = Outgoing.selecting; queue = answer ∷ []; given = [] }

-- The first send fails, and the second message is still given to the socket.
abbrev outgoing_moves : List (Outgoing.Move serialize)
outgoing_moves =
    Outgoing.take
    ∷ Outgoing.queued answer
    ∷ Outgoing.sent false
    ∷ Outgoing.take
    ∷ Outgoing.sent true
    ∷ Outgoing.shutdown
    ∷ []
