-- ===== src/Examples/Checks.antt =====
-- The theorems on the status checks of src/tasks/service.rs at concrete inputs.
use fpd.Base.{◌≡◌, refl, false, none, some, List, [], ◌∷◌, string_eq, ok}
use fpd.Base.Dict
use fpd.Base.Int.{pos}
use fpd.Service.{Error, connected}
use fpd.Service.Bindings
use fpd.Service.Handle.{call_provider, handle_message_inner}
use fpd.Service.StatusCheck.{DataSourceCheckTask, new, next}
use fpd.Service.Update.{
  Checked, upsert, stored, check_provider_status_v2, update_data_source, update_all_data_sources,
}
use fpd.Service.Update.Laws.{Updated, update_data_source_lem}
use fpd.Service.Update.Each.{IsCurrent, in_state, update_all-IsCurrent, update_all-kept}
use fpd.Service.Tasks.{Loop, Event, tick, due, shutdown}
use fpd.Examples.Hosts.{clock, metrics_source, service, halves, three_left}

abbrev AnyTask : DataSourceCheckTask halves → Type 0
AnyTask task = Unit

known : Dict.get "metrics" service.data_sources ≡ some metrics_source
unfolding Dict.get string_eq
known = refl

-- The checks succeed.
abbrev updated : Checked clock halves
updated = record {
  log = (check_provider_status_v2 clock service 4 9 "metrics").0;
  retries = [];
  service = stored clock halves service (upsert clock halves "metrics" metrics_source connected);
}

updated_is : update_data_source clock halves 4 9 service three_left ≡ ok updated
unfolding update_data_source string_eq Dict.get next check_provider_status_v2 handle_message_inner
    call_provider Bindings.invoke_provider_v2
updated_is = refl

update_data_source_lem_example : Updated clock halves service 4 9 three_left updated
update_data_source_lem_example =
    update_data_source_lem clock halves service 4 9 three_left {c = updated} updated_is

after_three :
    next halves {E = Error} three_left
    ≡ ok (some (8, record three_left { retries_left = pos 2; delay_till_next = 12 }))
unfolding next
after_three = refl

all_updated_is : update_all_data_sources clock halves 4 9 service ≡ ok updated
unfolding update_all_data_sources string_eq Dict.get Dict.keys next new check_provider_status_v2
    handle_message_inner call_provider Bindings.invoke_provider_v2
all_updated_is = refl

update_all-IsCurrent_example :
    IsCurrent clock halves service 4 9 "metrics" updated.service.data_sources_state
update_all-IsCurrent_example =
    update_all-IsCurrent clock halves service 4 9 {c = updated} "metrics" metrics_source
      all_updated_is known

no_logs : Dict.get "logs" service.data_sources ≡ none
unfolding Dict.get string_eq
no_logs = refl

update_all-kept_example :
    (updated.service ≡ in_state clock halves service 4 9 updated.service.data_sources_state)
    × (Dict.get "logs" updated.service.data_sources_state
        ≡ Dict.get "logs" service.data_sources_state)
update_all-kept_example =
    update_all-kept clock halves service 4 9 {c = updated} "logs" all_updated_is no_logs

abbrev start : Loop clock halves
start = record { service = service; sleeping = []; sent = []; stopped = false }

abbrev events : List (Event clock halves)
events = tick 4 9 ∷ due 0 5 10 ∷ shutdown ∷ tick 6 11 ∷ []
