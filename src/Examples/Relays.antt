-- ===== src/Examples/Relays.antt =====
-- What a relay knows after a run of the task of the status checks.
use mathlib.Core.List.{zip}
use fpd.Base.{ℕ, String, ◌≡◌, refl, false, ◌⊎◌, inr, none, List, [], ◌∷◌, string_eq, ok}
use fpd.Base.Dict
use fpd.Service.{ProxyService, connected}
use fpd.Service.Bindings
use fpd.Service.Handle.{call_provider, handle_message_inner}
use fpd.Service.Init.{init, load_wasm_modules}
use fpd.Service.StatusCheck.{new, next}
use fpd.Service.Update.{upsert, stored, update_all_data_sources, check_provider_status_v2}
use fpd.Service.Tasks.{Loop, tick, run, to_data_sources_proxy_message}
use fpd.Service.Tasks.Relay.{Reflects, receive_all, begun, run-Reflects}
use fpd.Examples.Hosts.{clock, metrics_source, halves}
use fpd.Examples.Services.{settings, compile}

abbrev some_file : String → String ⊎ List ℕ
some_file path = inr []

abbrev made : ProxyService clock
unfolding init
made = init clock some_file compile settings (metrics_source ∷ [])

abbrev checked : ProxyService clock
unfolding init
checked = stored clock halves made (upsert clock halves "metrics" metrics_source connected)

abbrev told : Loop clock halves
unfolding init
told = record {
  service = checked;
  sleeping = [];
  sent = to_data_sources_proxy_message checked ∷ [];
  stopped = false;
}

told_is : run clock halves (tick 4 9 ∷ []) (begun clock halves made) ≡ ok told
unfolding run init load_wasm_modules to_data_sources_proxy_message update_all_data_sources string_eq
    Dict.get Dict.keys Dict.extend Dict.insert next new check_provider_status_v2
    handle_message_inner call_provider Bindings.invoke_provider_v2 zip Dict.values
told_is = refl

run-Reflects_example :
    Reflects clock halves told.stopped told.service (receive_all told.sent (λ name. none))
unfolding init
run-Reflects_example =
    run-Reflects clock halves some_file compile settings (metrics_source ∷ []) (tick 4 9 ∷ [])
      {last = told} told_is
