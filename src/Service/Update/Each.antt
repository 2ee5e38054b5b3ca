-- ===== src/Service/Update/Each.antt =====
-- What `update_all_data_sources` leaves in the state of the service.
use mathlib.Core.Path.{subst}
use fpd.Base.{
  ◌≡◌, refl, sym, ap, ◌∙◌, arith, ℕ, String, true, false, none, some, List, [], ◌∷◌, string_eq,
  contains, bind-eq-ok, ok, ◌>>=◌, ◌⊎◌, Bool-cases, inl, inr,
}
use fpd.Base.Dict
use fpd.Base.Dict.{Dict}
use fpd.Service.{Host, ProxyDataSource, DataSourceStatus, UpsertProxyDataSource, ProxyService}
use fpd.Service.Handle.{handle_message_inner}
use fpd.Service.StatusCheck.{Floats, new}
use fpd.Service.Update.{
  check_provider_status_v2, Checked, upsert, joined, update_data_source, task_for, update_each,
  update_all_data_sources,
}
use fpd.Service.Update.Laws.{reported, update_data_source_lem}

module _ (H : Host) (F : Floats) (service : ProxyService H) (now op_id : ℕ) where
  abbrev State : Type 0
  State = Dict String UpsertProxyDataSource

  -- The service with other states of its data sources.
  abbrev pub in_state : Dict String UpsertProxyDataSource → ProxyService H
  in_state state = record service { data_sources_state = state }

  -- The state holds what the data source's own check reports.
  abbrev pub IsCurrent : String → Dict String UpsertProxyDataSource → Type 0
  IsCurrent name state =
      (source : ProxyDataSource) × (status : DataSourceStatus) × (Dict.get name service.data_sources
        ≡ some source)
      × (reported (check_provider_status_v2 H service now op_id name).1 ≡ some status)
      × (Dict.get name state ≡ some (upsert H F name source status))

  -- After updates of `names`, which led from one state to the other.
  pub record AreUpdated (names : List String) (before after : Dict String UpsertProxyDataSource)
      : Type 0 where
    pub updated : (name : String) → contains name names ≡ true → IsCurrent name after
    pub kept :
        (name : String) → contains name names ≡ false → Dict.get name after ≡ Dict.get name before

  -- A check does not depend on the states.
  check-in_state :
      (state : State) (name : String)
      → check_provider_status_v2 H (in_state state) now op_id name
        ≡ check_provider_status_v2 H service now op_id name
  unfolding check_provider_status_v2 handle_message_inner
  check-in_state state name = refl

  one-IsCurrent :
      (name : String) (state : State) {c : Checked H F}
      → update_data_source H F now op_id (in_state state) (task_for H F now op_id service name)
        ≡ ok c
      → (next : State) × (c.service ≡ in_state next) × AreUpdated (name ∷ []) state next
  unfolding new
  one-IsCurrent name state {c} h =
      let task = task_for H F now op_id service name in
      let u = update_data_source_lem H F (in_state state) now op_id task {c = c} h in
      let value = upsert H F name u.source u.status in
      let next : State = Dict.insert name value state in
      let says : reported (check_provider_status_v2 H service now op_id name).1 ≡ some u.status =
        subst (λ r. reported r.1 ≡ some u.status) (check-in_state state name) u.is_reported in
      let current : IsCurrent name next =
        (u.source, u.status, u.known, says, Dict.get-insert_self name value state) in
      (
        next,
        u.is_stored,
        record {
          updated = λ key listed.
              let same : name ≡ key = ground arith in subst (λ k. IsCurrent k next) same current;
          kept = λ key other. ground (arith, Dict.get-insert key name value state);
        },
      )

  IsCurrent-kept :
      (name : String) (before after : State)
      → Dict.get name after ≡ Dict.get name before
      → IsCurrent name before
      → IsCurrent name after
  IsCurrent-kept name before after same (source, status, known, says, held) =
      (source, status, known, says, same ∙ held)

  AreUpdated-cons :
      (name : String) (names : List String) (first second third : State)
      → AreUpdated (name ∷ []) first second
      → AreUpdated names second third
      → AreUpdated (name ∷ names) first third
  AreUpdated-cons name names first second third one rest = record {
    updated = λ key listed. elim (Bool-cases (contains key names)) [
      | inl later ↦ rest.updated key later
      | inr not_later ↦
          IsCurrent-kept key second third (rest.kept key not_later) (one.updated key (ground arith))
    ];
    kept = λ key other. ground (arith, rest.kept key, one.kept key);
  }

  each-AreUpdated :
      (names : List String) (state : State) {c : Checked H F}
      → update_each H F now op_id names (in_state state) ≡ ok c
      → (next : State) × (c.service ≡ in_state next) × AreUpdated names state next
  unfolding update_each
  each-AreUpdated [] state h =
      (state, ground arith, record { updated = λ key listed. cc; kept = λ key other. refl })
  each-AreUpdated (name ∷ names) state {c} h =
      let (one, first_ok, after) =
        bind-eq-ok
          (update_data_source H F now op_id (in_state state) (task_for H F now op_id service name))
          (λ (one : Checked H F). do
            rest ← update_each H F now op_id names one.service
            ok (joined H F one rest))
          h in
      let (second, second_is, one_updated) = one-IsCurrent name state {c = one} first_ok in
      let (rest, rest_ok, whole) =
        bind-eq-ok (update_each H F now op_id names one.service) (λ rest. ok (joined H F one rest))
          after in
      let (third, third_is, rest_updated) =
        each-AreUpdated names second {c = rest}
          (subst (λ s. update_each H F now op_id names s ≡ ok rest) second_is rest_ok) in
      let same : rest.service ≡ c.service = ground arith in
      (
        third,
        sym same ∙ third_is,
        AreUpdated-cons name names state second third one_updated rest_updated,
      )

  not-contains :
      (name : String)
      → Dict.get name service.data_sources ≡ none
      → (contains name (Dict.keys service.data_sources) ≡ true)
        ⊎ (contains name (Dict.keys service.data_sources) ≡ false)
      → contains name (Dict.keys service.data_sources) ≡ false
  not-contains name unknown (inl listed) =
      absurd (Dict.get-contains-keys name service.data_sources listed unknown)
  not-contains name unknown (inr other) = other

  all-AreUpdated :
      {c : Checked H F}
      → update_all_data_sources H F now op_id service ≡ ok c
      → (c.service ≡ in_state c.service.data_sources_state)
        × AreUpdated
            (Dict.keys service.data_sources)
            service.data_sources_state
            c.service.data_sources_state
  unfolding update_all_data_sources
  all-AreUpdated {c} h =
      let (next, is, all) =
        each-AreUpdated (Dict.keys service.data_sources) service.data_sources_state {c = c} h in
      let state_is : next ≡ c.service.data_sources_state =
        sym (ap (λ (s : ProxyService H). s.data_sources_state) is) in
      (
        is ∙ ap in_state state_is,
        subst (AreUpdated (Dict.keys service.data_sources) service.data_sources_state) state_is all,
      )

  -- An update of all data sources that returns leaves, for each data source of the service, the
  -- status that its own check of the service reports.
  pub update_all-IsCurrent :
      {c : Checked H F} (name : String) (source : ProxyDataSource)
      → update_all_data_sources H F now op_id service ≡ ok c
      → Dict.get name service.data_sources ≡ some source
      → IsCurrent name c.service.data_sources_state
  update_all-IsCurrent {c} name source h known =
      (all-AreUpdated {c = c} h).1.updated name
        (Dict.contains-keys name service.data_sources {v = source} known)

  -- An update of all data sources that returns changes nothing but the states of the data sources:
  -- all else in the service is as it was, and so is a state under any other name.
  pub update_all-kept :
      {c : Checked H F} (name : String)
      → update_all_data_sources H F now op_id service ≡ ok c
      → Dict.get name service.data_sources ≡ none
      → (c.service ≡ in_state c.service.data_sources_state)
        × (Dict.get name c.service.data_sources_state ≡ Dict.get name service.data_sources_state)
  update_all-kept {c} name h unknown =
      let (same, all) = all-AreUpdated {c = c} h in
      (
        same,
        all.kept name (
            not-contains name unknown
              (Bool-cases (contains name (Dict.keys service.data_sources)))),
      )
