-- ===== src/Service/Update/Laws.antt =====
-- What an update of the data sources' states does, and that it does not panic.
use fpd.Base.{
  ◌≡◌, refl, sym, ◌∙◌, ap, ◌≢◌, arith, ℕ, String, Option, none, some, List, [], string_eq,
  bind-eq-ok, Outcome, ok, err, panicked, ◌>>=◌,
}
use mathlib.Core.Path.{subst}
use fpd.Base.Dict
use fpd.Base.Dict.{Dict}
use fpd.Service.{
  Error, Host, ProxyDataSource, DataSourceStatus, connected, failed, ProxyService, ProxyMessage,
}
use fpd.Service.Metrics.{Log}
use fpd.Service.Handle.{handle_message_inner}
use fpd.Service.Handle.Cases.{Returns, HasModules}
use fpd.Service.Handle.Answers.{handle-err, handle-ne-panicked}
use fpd.Service.StatusCheck.{Floats, DataSourceCheckTask, next}
use fpd.Service.Update.{
  status_request, status_message, status_of_response, check_provider_status_v2, Checked, upsert,
  stored, queued, apply_response, check_with, update_data_source, update_found,
}

module _ (H : Host) (t : Returns H) where
  status_of_response-ne-panicked :
      (m : Outcome Error (ProxyMessage H))
      → m ≢ panicked
      → ((e : Error) → m ≢ err e)
      → status_of_response H m ≢ panicked
  unfolding status_of_response
  status_of_response-ne-panicked (ok r) h n e = grind (arith, t.result_from_slice)
  status_of_response-ne-panicked (err x) h n e = n x refl
  status_of_response-ne-panicked panicked h n e = h refl

  -- A status check does not panic: `expect` is right to expect a response.
  pub check-ne-panicked :
      (service : ProxyService H) (now op_id : ℕ) (name : String) {request : List ℕ}
      → status_request H ≡ ok request
      → HasModules service
      → (check_provider_status_v2 H service now op_id name).1 ≢ panicked
  unfolding check_provider_status_v2
  check-ne-panicked service now op_id name {request} encoded modules =
      let message = status_message H name op_id request in
      subst (λ o. (check_with H service now op_id name o).1 ≢ panicked) (sym encoded)
        (status_of_response-ne-panicked (handle_message_inner service now message).1
          (handle-ne-panicked service now message t modules)
          (λ e h. ground (arith, handle-err service now message e h)))

-- The status that a response is reported as.
abbrev pub reported : Outcome Error (Unit {0}) → Option DataSourceStatus
reported (ok _) = some connected
reported (err e) = some (failed e)
reported panicked = none

module _ (H : Host) (F : Floats) where
  -- Only a check that failed is retried, if a retry is left.
  abbrev pub retries_after :
      DataSourceStatus → Option (ℕ × DataSourceCheckTask F) → List (ℕ × DataSourceCheckTask F)
  retries_after connected following = []
  retries_after (failed e) following = queued H F following

  -- An update of a known data source whose check does not panic.
  pub record Updated (service : ProxyService H) (now op_id : ℕ) (task : DataSourceCheckTask F)
      (c : Checked H F) : Type 0 where
    pub source : ProxyDataSource
    pub status : DataSourceStatus
    pub following : Option (ℕ × DataSourceCheckTask F)
    pub known : Dict.get task.name service.data_sources ≡ some source
    pub is_reported :
        reported (check_provider_status_v2 H service now op_id task.name).1 ≡ some status
    pub follows : next F {E = Error} task ≡ ok following
    pub is_stored : c.service ≡ stored H F service (upsert H F task.name source status)
    pub retried : c.retries ≡ retries_after status following

  apply_response_lem :
      (service : ProxyService H) (name : String) (source : ProxyDataSource)
      (response : Log × Outcome Error (Unit {0})) (following : Option (ℕ × DataSourceCheckTask F))
      {c : Checked H F}
      → apply_response H F service name source response following ≡ ok c
      → (status : DataSourceStatus) × (reported response.1 ≡ some status)
        × (c.service ≡ stored H F service (upsert H F name source status))
        × (c.retries ≡ retries_after status following)
  unfolding apply_response
  apply_response_lem service name source (log, ok _) following h =
      (connected, refl, ground arith, ground arith)
  apply_response_lem service name source (log, err e) following h =
      (failed e, refl, ground arith, ground arith)
  apply_response_lem service name source (log, panicked) following h = cc

  apply_returns :
      (service : ProxyService H) (name : String) (source : ProxyDataSource)
      (response : Log × Outcome Error (Unit {0})) (following : Option (ℕ × DataSourceCheckTask F))
      → response.1 ≢ panicked
      → (c : Checked H F) × (apply_response H F service name source response following ≡ ok c)
  unfolding apply_response
  apply_returns service name source (log, ok _) following h = (_, refl)
  apply_returns service name source (log, err e) following h = (_, refl)
  apply_returns service name source (log, panicked) following h = absurd (h refl)

  module _ (service : ProxyService H) (now op_id : ℕ) (task : DataSourceCheckTask F) where
    Updated-by :
        (o : Option ProxyDataSource)
        → Dict.get task.name service.data_sources ≡ o
        → {c : Checked H F} → update_found H F now op_id service task o ≡ ok c
        → Updated service now op_id task c
    unfolding update_found
    Updated-by none e h = cc
    Updated-by (some source) e {c} h =
        let response = check_provider_status_v2 H service now op_id task.name in
        let (following, follows, applied) =
          bind-eq-ok (next F {E = Error} task)
            (apply_response H F service task.name source response) h in
        let (status, says, leaves, retried) =
          apply_response_lem service task.name source response following {c = c} applied in
        record {
          source = source;
          status = status;
          following = following;
          known = e;
          is_reported = says;
          follows = follows;
          is_stored = leaves;
          retried = retried;
        }

    -- An update that returns stores, for the data source of the task, which the service knows, the
    -- status that its own check reports, changes nothing else of the service, and queues the next task
    -- exactly if the check failed and a retry is left.
    pub update_data_source_lem :
        {c : Checked H F}
        → update_data_source H F now op_id service task ≡ ok c
        → Updated service now op_id task c
    unfolding update_data_source
    update_data_source_lem h = Updated-by (Dict.get task.name service.data_sources) refl h

    -- An update of a data source that the service knows returns, if the provider runtime and the
    -- serializers return, each data source has an entry for its provider among the modules, the status
    -- request can be encoded and the next delay is in range.
    pub update_data_source_total :
        {source : ProxyDataSource} {request : List ℕ}
        {following : Option (ℕ × DataSourceCheckTask F)}
        → Returns H
        → HasModules service
        → status_request H ≡ ok request
        → Dict.get task.name service.data_sources ≡ some source
        → next F {E = Error} task ≡ ok following
        → (c : Checked H F) × (update_data_source H F now op_id service task ≡ ok c)
    unfolding update_data_source
    update_data_source_total {source} {request} {following} t modules encoded known follows =
        let response = check_provider_status_v2 H service now op_id task.name in
        let (c, applied) =
          apply_returns service task.name source response following
            (check-ne-panicked H t service now op_id task.name encoded modules) in
        (
          c,
          subst (λ o. update_found H F now op_id service task o ≡ ok c) (sym known)
              (ap (λ m. m >>= apply_response H F service task.name source response) follows
                ∙ applied),
        )
