-- ===== src/Service/Update/Effect.antt =====
-- What one update of a data source adds to the state of the service, whatever that state is.
use fpd.Base.{
  ◌≡◌, refl, sym, ap, ◌∙◌, arith, ℕ, String, Option, none, some, List, [], string_eq, Outcome, ok,
  err, panicked, bind-eq-ok, ◌>>=◌,
}
use fpd.Base.Dict
use fpd.Base.Dict.{Dict}
use fpd.Service.{
  Error, Host, ProxyDataSource, connected, failed, UpsertProxyDataSource, ProxyService,
}
use fpd.Service.Metrics.{Log}
use fpd.Service.Handle.{handle_message_inner}
use fpd.Service.StatusCheck.{Floats, DataSourceCheckTask, new, next}
use fpd.Service.Update.{
  check_provider_status_v2, Checked, upsert, queued, apply_response, update_found,
  update_data_source, task_for,
}

module _ (H : Host) (F : Floats) where
  -- What one update adds: its logged metrics, its retry, and what it stores.
  pub record Effect : Type 0 where
    pub log : Log
    pub retries : List (ℕ × DataSourceCheckTask F)
    pub stored : UpsertProxyDataSource

  effect_of :
      String
      → ProxyDataSource
      → Log × Outcome Error (Unit {0})
      → Option (ℕ × DataSourceCheckTask F)
      → Outcome Error Effect
  effect_of name source (log, ok _) following =
      ok (record { log = log; retries = []; stored = upsert H F name source connected })
  effect_of name source (log, err e) following = ok (record {
    log = log;
    retries = queued H F following;
    stored = upsert H F name source (failed e);
  })
  effect_of name source (log, panicked) following = panicked

  -- The effects of two names store under two keys, or they are the same.
  abbrev pub DoNotClash : Effect → Effect → Type 0
  DoNotClash e f = e.stored.name ≡ f.stored.name → e.stored ≡ f.stored

  module _ (service : ProxyService H) where
    abbrev pub State : Type 0
    State = Dict String UpsertProxyDataSource

    abbrev pub in_state : State → ProxyService H
    in_state state = record service { data_sources_state = state }

    abbrev pub put : Effect → State → State
    put e state = Dict.insert e.stored.name e.stored state

    abbrev pub applied : State → Effect → Checked H F
    applied state e = record { log = e.log; retries = e.retries; service = in_state (put e state) }

    abbrev pub give : State → Outcome Error Effect → Outcome Error (Checked H F)
    give state m = m >>= λ e. ok (applied state e)

    module _ (now op_id : ℕ) where
      effect_found : String → Option ProxyDataSource → Outcome Error Effect
      effect_found name none = panicked
      effect_found name (some source) = do
        let response = check_provider_status_v2 H service now op_id name
        following ← next F (task_for H F now op_id service name)
        effect_of name source response following

      pub effect : String → Outcome Error Effect
      unfolding effect_found
      effect name = effect_found name (Dict.get name service.data_sources)

      apply-eq :
          (state : State) (name : String) (source : ProxyDataSource)
          (response : Log × Outcome Error (Unit {0}))
          (following : Option (ℕ × DataSourceCheckTask F))
          → apply_response H F (in_state state) name source response following
            ≡ give state (effect_of name source response following)
      unfolding apply_response effect_of
      apply-eq state name source (log, ok _) following = refl
      apply-eq state name source (log, err e) following = refl
      apply-eq state name source (log, panicked) following = refl

      give-bind :
          {A : Type 0} (state : State) (m : Outcome Error A) {f : A → Outcome Error (Checked H F)}
          (g : A → Outcome Error Effect)
          → ((a : A) → f a ≡ give state (g a))
          → (m >>= f) ≡ give state (m >>= g)
      give-bind state (ok a) g h = h a
      give-bind state (err e) g h = refl
      give-bind state panicked g h = refl

      found-eq :
          (state : State) (name : String) (o : Option ProxyDataSource)
          → update_found H F now op_id (in_state state) (task_for H F now op_id service name) o
            ≡ give state (effect_found name o)
      unfolding update_found effect_found check_provider_status_v2 handle_message_inner new
      found-eq state name none = refl
      found-eq state name (some source) =
          give-bind state (next F (task_for H F now op_id service name))
            (effect_of name source (check_provider_status_v2 H service now op_id name))
            (apply-eq state name source (check_provider_status_v2 H service now op_id name))

      pub update-eq :
          (state : State) (name : String)
          → update_data_source H F now op_id (in_state state) (task_for H F now op_id service name)
            ≡ give state (effect name)
      unfolding update_data_source effect new
      update-eq state name = found-eq state name (Dict.get name service.data_sources)

      effect_of-name :
          (name : String) (source : ProxyDataSource) (response : Log × Outcome Error (Unit {0}))
          (following : Option (ℕ × DataSourceCheckTask F)) {e : Effect}
          → effect_of name source response following ≡ ok e
          → e.stored.name ≡ name
      unfolding effect_of
      effect_of-name name source (log, ok _) following h = ground arith
      effect_of-name name source (log, err x) following h = ground arith
      effect_of-name name source (log, panicked) following h = cc

      found-name :
          (name : String) (o : Option ProxyDataSource) {e : Effect}
          → effect_found name o ≡ ok e
          → e.stored.name ≡ name
      unfolding effect_found
      found-name name none h = cc
      found-name name (some source) {e} h =
          let response = check_provider_status_v2 H service now op_id name in
          let (following, _, made) =
            bind-eq-ok (next F (task_for H F now op_id service name))
              (effect_of name source response) h in
          effect_of-name name source response following {e = e} made

      effect-name : (name : String) {e : Effect} → effect name ≡ ok e → e.stored.name ≡ name
      unfolding effect
      effect-name name {e} h = found-name name (Dict.get name service.data_sources) {e = e} h

      pub effects-DoNotClash :
          (a b : String) (e f : Effect) → effect a ≡ ok e → effect b ≡ ok f → DoNotClash e f
      effects-DoNotClash a b e f ha hb same =
          let names : a ≡ b = sym (effect-name a {e = e} ha) ∙ same ∙ effect-name b {e = f} hb in
          ground (arith, names, sym ha ∙ ap effect names ∙ hb)
