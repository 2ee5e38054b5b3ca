-- ===== src/Service/Tasks/Relay.antt =====
-- What a relay that keeps the last notification knows of the data sources.
use mathlib.Core.Option
use mathlib.Core.Path.{subst}
use fpd.Base.{
  ◌≡◌, refl, sym, ◌∙◌, ap, ℕ, String, Bool, true, false, ◌⊎◌, Option, none, some, List, [], ◌∷◌,
  ◌++◌, map, string_eq, ok, ◌==◌, if◌then◌else◌, bind-eq-ok,
}
use fpd.Base.Dict
use fpd.Base.Dict.{Dict}
use fpd.Service.{
  proxy_disconnected, Host, ProxyDataSource, failed, UpsertProxyDataSource, ProxyService,
  set_data_sources, ProxyMessage,
}
use fpd.Service.StatusCheck.{Floats, DataSourceCheckTask}
use fpd.Service.Init.{Settings, init, new}
use fpd.Service.Update.Named.{NamedBy, AreNamed, AreNamed-update, AreNamed-each, init-AreNamed}
use fpd.Service.Update.{Checked, upsert, update_data_source, update_all_data_sources}
use fpd.Service.Tasks.Sent.{ok-injective}
use fpd.Service.Tasks.{
  Loop, Event, tick, due, shutdown, take_at, announced, retry, handle, step, run,
  to_data_sources_proxy_message, notification, offline,
}

-- The relay's data sources by name.
abbrev pub Relay : Type 0
Relay = String → Option UpsertProxyDataSource

abbrev pub find : String → List UpsertProxyDataSource → Option UpsertProxyDataSource
find name [] = none
find name (source ∷ sources) = if name == source.name then some source else find name sources

-- A notification replaces what the relay knew.
abbrev pub receive : {H : Host} → ProxyMessage H → Relay → Relay
receive m r = elim m.payload [ set_data_sources sources ↦ λ name. find name sources | _ ↦ r ]

abbrev pub receive_all : {H : Host} → List (ProxyMessage H) → Relay → Relay
receive_all [] r = r
receive_all (m ∷ ms) r = receive_all ms (receive m r)

receive-notification :
    {H : Host} (ms : List (ProxyMessage H)) (sources : List UpsertProxyDataSource) (r : Relay)
    → receive_all (ms ++ (notification sources ∷ [])) r ≡ (λ name. find name sources)
receive-notification [] sources r = refl
receive-notification (m ∷ ms) sources r = receive-notification ms sources (receive m r)

find-values :
    (name : String) (d : Dict String UpsertProxyDataSource)
    → NamedBy (λ (source : UpsertProxyDataSource). source.name) d
    → find name (Dict.values d) ≡ Dict.get name d
unfolding Dict.values Dict.get
find-values name [] named = refl
find-values name ((key, source) ∷ d) (first, rest) =
    ap (λ k. if name == k then some source else find name (Dict.values d)) first
    ∙ ap (λ o. if name == key then some source else o) (find-values name d rest)

map-if :
    {A B : Type 0} (f : A → B) (b : Bool) (a : A) (o : Option A)
    → Option.map f (if b then some a else o) ≡ (if b then some (f a) else Option.map f o)
map-if f true a o = refl
map-if f false a o = refl

module _ (H : Host) (F : Floats) where
  abbrev pub went_offline : ProxyDataSource → UpsertProxyDataSource
  went_offline source = upsert H F source.name source (failed proxy_disconnected)

  find-offline :
      (name : String) (d : Dict String ProxyDataSource)
      → NamedBy (λ (source : ProxyDataSource). source.name) d
      → find name (map went_offline (Dict.values d)) ≡ Option.map went_offline (Dict.get name d)
  unfolding Dict.values Dict.get
  find-offline name [] named = refl
  find-offline name ((key, source) ∷ d) (first, rest) =
      ap
        (λ k.
          if name == k
          then some (went_offline source)
          else find name (map went_offline (Dict.values d)))
        first
      ∙ ap (λ o. if name == key then some (went_offline source) else o) (find-offline name d rest)
      ∙ sym (map-if went_offline (name == key) source (Dict.get name d))

  -- What the relay knows: until the end the states of the data sources, and after it that each data
  -- source of the service has gone offline.
  abbrev pub Reflects : Bool → ProxyService H → Relay → Type 0
  Reflects false service relay =
      (name : String) → relay name ≡ Dict.get name service.data_sources_state
  Reflects true service relay =
      (name : String) → relay name ≡ Option.map went_offline (Dict.get name service.data_sources)

  record IsTold (r : Relay) (l : Loop H F) : Type 0 where
    named : AreNamed H F l.service
    reflects : Reflects l.stopped l.service (receive_all l.sent r)

  module _ (r : Relay) where
    IsTold-announced :
        (l : Loop H F) (sleeping : List (ℕ × DataSourceCheckTask F)) (c : Checked H F)
        → l.stopped ≡ false
        → AreNamed H F c.service
        → IsTold r (announced H F l sleeping c)
    unfolding to_data_sources_proxy_message
    IsTold-announced l sleeping c runs named = record {
      named = named;
      reflects =
          subst (λ b. Reflects b c.service (receive_all (announced H F l sleeping c).sent r))
            (sym runs)
            (λ name.
              ap (λ (known : Relay). known name)
                (receive-notification l.sent (Dict.values c.service.data_sources_state) r)
              ∙ find-values name c.service.data_sources_state named.states);
    }

    IsTold-retry :
        (now op_id : ℕ) (l : Loop H F)
        (o : Option ((ℕ × DataSourceCheckTask F) × List (ℕ × DataSourceCheckTask F)))
        {next : Loop H F}
        → l.stopped ≡ false
        → IsTold r l
        → retry H F now op_id l o ≡ ok next
        → IsTold r next
    unfolding retry
    IsTold-retry now op_id l none runs told h = subst (IsTold r) (ok-injective H F h) told
    IsTold-retry now op_id l (some ((delay, task), others)) runs told h =
        let (c, updated, is) =
          bind-eq-ok (update_data_source H F now op_id l.service task)
            (λ (c : Checked H F). ok (announced H F l others c)) h in
        subst (IsTold r) (ok-injective H F is) (
          IsTold-announced l others c runs
            (AreNamed-update H F now op_id l.service task {c = c} updated told.named))

    IsTold-shutdown :
        (l : Loop H F)
        → IsTold r l
        → IsTold r (record l {
          sent = l.sent ++ (notification (offline H F l.service) ∷ []);
          stopped = true;
        })
    unfolding offline
    IsTold-shutdown l told = record {
      named = told.named;
      reflects = λ name.
          ap (λ (known : Relay). known name) (receive-notification l.sent (offline H F l.service) r)
          ∙ find-offline name l.service.data_sources told.named.sources;
    }

    IsTold-handle :
        (l : Loop H F) (e : Event H F) {next : Loop H F}
        → l.stopped ≡ false
        → IsTold r l
        → handle H F l e ≡ ok next
        → IsTold r next
    unfolding handle update_all_data_sources
    IsTold-handle l (tick now op_id) runs told h =
        let (c, updated, is) =
          bind-eq-ok (update_all_data_sources H F now op_id l.service)
            (λ (c : Checked H F). ok (announced H F l l.sleeping c)) h in
        subst (IsTold r) (ok-injective H F is) (
          IsTold-announced l l.sleeping c runs (
            AreNamed-each H F now op_id (Dict.keys l.service.data_sources) l.service {c = c} updated
              told.named))
    IsTold-handle l (due k now op_id) runs told h =
        IsTold-retry now op_id l (take_at k l.sleeping) runs told h
    IsTold-handle l shutdown runs told h =
        subst (IsTold r) (ok-injective H F h) (IsTold-shutdown l told)

    IsTold-if :
        (stopped : Bool) (l : Loop H F) (e : Event H F) {next : Loop H F}
        → l.stopped ≡ stopped
        → IsTold r l
        → (if stopped then ok l else handle H F l e) ≡ ok next
        → IsTold r next
    IsTold-if true l e runs told h = subst (IsTold r) (ok-injective H F h) told
    IsTold-if false l e {next} runs told h = IsTold-handle l e {next = next} runs told h

    IsTold-run :
        (events : List (Event H F)) (l : Loop H F) {last : Loop H F}
        → IsTold r l
        → run H F events l ≡ ok last
        → IsTold r last
    unfolding run step
    IsTold-run [] l told h = subst (IsTold r) (ok-injective H F h) told
    IsTold-run (e ∷ events) l {last} told h =
        let (next, stepped, rest) =
          bind-eq-ok (step H F l e) (λ (next : Loop H F). run H F events next) h in
        IsTold-run events next {last = last}
          (IsTold-if l.stopped l e {next = next} refl told stepped) rest

  -- The task as it begins, of a service that `init` has made.
  abbrev pub begun : ProxyService H → Loop H F
  begun service = record { service = service; sleeping = []; sent = []; stopped = false }

  begun-IsTold :
      (read : String → String ⊎ List ℕ) (compile : List ℕ → String ⊎ H.Runtime) (s : Settings)
      (sources : List ProxyDataSource)
      → IsTold (λ name. none) (begun (init H read compile s sources))
  unfolding init new Dict.get
  begun-IsTold read compile s sources = record {
    named = init-AreNamed H F read compile s sources;
    reflects = λ name. refl;
  }

  -- A relay that knows nothing at first and keeps the last notification knows, after any run of the
  -- task that returns, of a service that `init` has made: exactly the states of the data sources that
  -- the daemon holds, by their names, whatever the ticks and the retries were; and once the task has
  -- taken the shutdown, exactly that each data source of the daemon is disconnected.
  pub run-Reflects :
      (read : String → String ⊎ List ℕ) (compile : List ℕ → String ⊎ H.Runtime) (s : Settings)
      (sources : List ProxyDataSource) (events : List (Event H F)) {last : Loop H F}
      → run H F events (begun (init H read compile s sources)) ≡ ok last
      → Reflects last.stopped last.service (receive_all last.sent (λ name. none))
  run-Reflects read compile s sources events {last} h =
      (IsTold-run (λ name. none) events (begun (init H read compile s sources)) {last = last}
        (begun-IsTold read compile s sources) h).reflects
