-- ===== src/Service/Tasks.antt =====
-- The task of `connect` in src/tasks/service.rs that keeps the relay informed of the data sources,
-- with `to_data_sources_proxy_message` and `data_source_state`.
pub mod Safety
pub mod Sent
pub mod Relay
use fpd.Base.{
  ℕ, zero, suc, String, Bool, true, false, Option, none, some, List, [], ◌∷◌, ◌++◌, map, string_eq,
  Outcome, ok, ◌>>=◌, if◌then◌else◌,
}
use mathlib.Core.Option
use fpd.Base.Dict
use fpd.Service.{
  Error, proxy_disconnected, Host, ProxyDataSource, failed, UpsertProxyDataSource, ProxyService,
  set_data_sources, ProxyMessage,
}
use fpd.Service.StatusCheck.{Floats, DataSourceCheckTask}
use fpd.Service.Update.{Checked, upsert, update_data_source, update_all_data_sources}

-- The element at an index, and the others.
abbrev pub take_at {ℓ} : {A : Type ℓ} → ℕ → List A → Option (A × List A)
take_at k [] = none
take_at zero (x ∷ xs) = some (x, xs)
take_at (suc k) (x ∷ xs) = Option.map (λ (y, ys). (y, x ∷ ys)) (take_at k xs)

module _ {H : Host} where
  abbrev pub notification : List UpsertProxyDataSource → ProxyMessage H
  notification sources = record { op_id = none; payload = set_data_sources sources }

  unfoldable pub to_data_sources_proxy_message : ProxyService H → ProxyMessage H
  to_data_sources_proxy_message service = notification (Dict.values service.data_sources_state)

  -- `none` is the error that the data source is unknown.
  unfoldable pub data_source_state : ProxyService H → String → Option UpsertProxyDataSource
  data_source_state service name = Dict.get name service.data_sources_state

module _ (H : Host) (F : Floats) where
  -- The queued checks sleep until their delay is over; `sent` goes to the outgoing messages.
  pub record Loop : Type 0 where
    pub service : ProxyService H
    pub sleeping : List (ℕ × DataSourceCheckTask F)
    pub sent : List (ProxyMessage H)
    pub stopped : Bool

  -- What `select!` gives: a tick of the interval, the sleeping check at an index, or the shutdown;
  -- with the world and the fresh operation of the checks.
  pub data Event : Type 0 where
    tick : (now op_id : ℕ) → Event
    due : (k now op_id : ℕ) → Event
    shutdown : Event

  abbrev announced : Loop → List (ℕ × DataSourceCheckTask F) → Checked H F → Loop
  announced l sleeping c = record l {
    service = c.service;
    sleeping = sleeping ++ c.retries;
    sent = l.sent ++ (to_data_sources_proxy_message c.service ∷ []);
  }

  -- All data sources go offline.
  unfoldable pub offline : ProxyService H → List UpsertProxyDataSource
  offline service =
      map (λ (source : ProxyDataSource). upsert H F source.name source (failed proxy_disconnected))
        (Dict.values service.data_sources)

  retry :
      (now op_id : ℕ)
      → Loop
      → Option ((ℕ × DataSourceCheckTask F) × List (ℕ × DataSourceCheckTask F))
      → Outcome Error Loop
  retry now op_id l none = ok l
  retry now op_id l (some ((delay, task), others)) = do
    c ← update_data_source H F now op_id l.service task
    ok (announced l others c)

  handle : Loop → Event → Outcome Error Loop
  unfolding retry offline
  handle l (tick now op_id) = do
    c ← update_all_data_sources H F now op_id l.service
    ok (announced l l.sleeping c)
  handle l (due k now op_id) = retry now op_id l (take_at k l.sleeping)
  handle l shutdown =
      ok (record l { sent = l.sent ++ (notification (offline l.service) ∷ []); stopped = true })

  unfoldable pub step : Loop → Event → Outcome Error Loop
  unfolding handle
  step l e = if l.stopped then ok l else handle l e

  unfoldable pub run : List Event → Loop → Outcome Error Loop
  unfolding step
  run [] l = ok l
  run (e ∷ events) l = do next ← step l e; run events next
