-- ===== src/Service/Update.antt =====
-- `check_provider_status_v2`, `update_data_source` and `update_all_data_sources` of
-- src/tasks/service.rs.
pub mod Laws
pub mod Each
pub mod Total
pub mod Effect
pub mod Agree
pub mod Join
pub mod Named
use fpd.Base.{
  ℕ, String, Bool, true, false, Option, none, some, inl, inr, List, [], ◌∷◌, ◌++◌, string_eq,
  Outcome, ok, err, panicked, ◌>>=◌, map_err,
}
use fpd.Base.Dict
use fpd.Base.Dict.{Dict}
use fpd.Service.{
  Error, deserialization, invocation, decoding_response, unexpected_response, null, Host,
  ProxyDataSource, DataSourceStatus, connected, failed, UpsertProxyDataSource, ProxyService,
  ServerMessage, invoke, ProxyMessagePayload, invoke_proxy_response, error_response, ProxyMessage,
}
use fpd.Service.Metrics.{Log}
use fpd.Service.Handle.{handle_message_inner}
use fpd.Service.StatusCheck.{Floats, DataSourceCheckTask, new, next}

abbrev pub status_check_version : ℕ
status_check_version = 2

-- `Duration::from_secs(10)`
abbrev pub initial_delay : ℕ
initial_delay = 10000000000

module _ (H : Host) where
  -- STATUS_REQUEST_V2, whose encoding is unwrapped
  abbrev pub status_request : Outcome Error (List ℕ)
  status_request =
      elim (H.to_vec_named (record {
        query_type = H.status_query_type;
        query_data = record { content = []; mime_type = H.status_mime_type };
        config = null;
      })) [ ok bytes ↦ ok bytes | _ ↦ panicked ]

  abbrev pub status_message : String → ℕ → List ℕ → ServerMessage
  status_message data_source_name op_id request = record {
    op_id = some op_id;
    protocol_version = 2;
    data_source_name = data_source_name;
    payload = invoke request;
  }

  unfoldable pub status_of_payload : ProxyMessagePayload H → Outcome Error (Unit {0})
  status_of_payload (invoke_proxy_response bytes) = do
    result ← map_err (λ text. deserialization (decoding_response text)) (H.result_from_slice bytes)
    elim result [ inl e ↦ err e | inr blob ↦ ok tt ]
  status_of_payload (error_response e) = err e
  status_of_payload _ = err (invocation unexpected_response)

  -- `expect` panics on an `Err` of the handler.
  unfoldable pub status_of_response : Outcome Error (ProxyMessage H) → Outcome Error (Unit {0})
  unfolding status_of_payload
  status_of_response (ok response) = status_of_payload response.payload
  status_of_response _ = panicked

  module _ (service : ProxyService H) (now op_id : ℕ) where
    unfoldable pub check_with : String → Outcome Error (List ℕ) → Log × Outcome Error (Unit {0})
    unfolding status_of_response
    check_with data_source_name (ok request) =
        let (log, response) =
          handle_message_inner service now (status_message data_source_name op_id request) in
        (log, status_of_response response)
    check_with data_source_name _ = ([], panicked)

    unfoldable pub check_provider_status_v2 : String → Log × Outcome Error (Unit {0})
    unfolding check_with
    check_provider_status_v2 data_source_name = check_with data_source_name status_request

module _ (H : Host) (F : Floats) where
  -- What an update leaves: the metrics, the retry to be queued after its delay, and the service.
  pub record Checked : Type 0 where
    pub log : Log
    pub retries : List (ℕ × DataSourceCheckTask F)
    pub service : ProxyService H

  abbrev pub upsert : String → ProxyDataSource → DataSourceStatus → UpsertProxyDataSource
  upsert name source status = record {
    name = name;
    provider_type = source.provider_type;
    protocol_version = status_check_version;
    status = status;
    description = source.description;
  }

  abbrev pub stored : ProxyService H → UpsertProxyDataSource → ProxyService H
  stored service update = record service {
    data_sources_state = Dict.insert update.name update service.data_sources_state;
  }

  abbrev pub queued : Option (ℕ × DataSourceCheckTask F) → List (ℕ × DataSourceCheckTask F)
  queued none = []
  queued (some retry) = retry ∷ []

  -- The new state of the data source `name`, from the response and from `task.next()`.
  unfoldable pub apply_response :
      ProxyService H
      → String
      → ProxyDataSource
      → Log × Outcome Error (Unit {0})
      → Option (ℕ × DataSourceCheckTask F)
      → Outcome Error Checked
  apply_response service name source (log, ok _) following =
      ok (record {
        log = log;
        retries = [];
        service = stored service (upsert name source connected);
      })
  apply_response service name source (log, err e) following = ok (record {
    log = log;
    retries = queued following;
    service = stored service (upsert name source (failed e));
  })
  apply_response service name source (log, panicked) following = panicked

  abbrev pub joined : Checked → Checked → Checked
  joined one rest = record {
    log = one.log ++ rest.log;
    retries = one.retries ++ rest.retries;
    service = rest.service;
  }

  module _ (now op_id : ℕ) where
    update_found :
        ProxyService H → DataSourceCheckTask F → Option ProxyDataSource → Outcome Error Checked
    unfolding apply_response
    update_found service task none = panicked
    update_found service task (some source) = do
      let response = check_provider_status_v2 H service now op_id task.name
      following ← next F task
      apply_response service task.name source response following

    unfoldable pub update_data_source :
        ProxyService H → DataSourceCheckTask F → Outcome Error Checked
    unfolding update_found
    update_data_source service task =
        update_found service task (Dict.get task.name service.data_sources)

    -- `DataSourceCheckTask::new(name, interval, 10s, 1.5)`
    abbrev pub task_for : ProxyService H → String → DataSourceCheckTask F
    task_for service name = new F name service.status_check_interval initial_delay F.one_and_a_half

    -- The updates that `join_all` runs, one for each of the given names, each upon the state that
    -- the others leave.
    unfoldable pub update_each : List String → ProxyService H → Outcome Error Checked
    unfolding update_data_source
    update_each [] service = ok (record { log = []; retries = []; service = service })
    update_each (name ∷ names) service = do
      one ← update_data_source service (task_for service name)
      rest ← update_each names one.service
      ok (joined one rest)

    unfoldable pub update_all_data_sources : ProxyService H → Outcome Error Checked
    unfolding update_each
    update_all_data_sources service = update_each (Dict.keys service.data_sources) service
