-- ===== src/Examples/Joins.antt =====
-- The theorem on `join_all` in src/tasks/service.rs at two data sources.
use mathlib.Core.List.{Permᴰ}
use mathlib.Core.Option
use fpd.Base.{◌≡◌, refl, Option, none, some, String, List, [], ◌∷◌, string_eq, Outcome, returned}
use fpd.Base.Dict
use fpd.Service.{Error, ProxyDataSource, ProxyService, runtime}
use fpd.Service.Bindings
use fpd.Service.Handle.{call_provider, handle_message_inner}
use fpd.Service.StatusCheck.{new, next}
use fpd.Service.Update.{Checked, check_provider_status_v2, update_each, update_all_data_sources}
use fpd.Service.Update.Agree.{Agree}
use fpd.Service.Update.Join.{update_all-perm}
use fpd.Examples.Hosts.{clock, metrics_source, service, halves}

abbrev logs_source : ProxyDataSource
logs_source = record { name = "logs"; provider_type = "loki"; config = []; description = none }

abbrev two_sources : ProxyService clock
two_sources = record service {
  wasm_modules = ("prometheus", runtime tt) ∷ ("loki", runtime tt) ∷ [];
  data_sources = ("metrics", metrics_source) ∷ ("logs", logs_source) ∷ [];
}

other_order : Permᴰ (Dict.keys two_sources.data_sources) ("logs" ∷ "metrics" ∷ [])
unfolding Dict.keys
other_order = Permᴰ.swap refl refl

abbrev names_left : Outcome Error (Checked clock halves) → Option (List String)
names_left m =
    Option.map (λ (c : Checked clock halves). Dict.keys c.service.data_sources_state) (returned m)

-- Both orders return, with the states in different orders.
both_return :
    (names_left (update_all_data_sources clock halves 4 9 two_sources)
      ≡ some ("metrics" ∷ "logs" ∷ []))
    × (names_left (update_each clock halves 4 9 ("logs" ∷ "metrics" ∷ []) two_sources)
        ≡ some ("logs" ∷ "metrics" ∷ []))
unfolding update_all_data_sources string_eq Dict.get Dict.keys Dict.insert next new
    check_provider_status_v2 handle_message_inner call_provider Bindings.invoke_provider_v2
both_return = (refl, refl)

update_all-perm_example :
    Agree clock halves two_sources
      (update_all_data_sources clock halves 4 9 two_sources)
      (update_each clock halves 4 9 ("logs" ∷ "metrics" ∷ []) two_sources)
update_all-perm_example = update_all-perm clock halves two_sources 4 9 other_order
