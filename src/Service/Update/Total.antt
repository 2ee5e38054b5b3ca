-- ===== src/Service/Update/Total.antt =====
-- The updates return, and queue only checks of data sources that the service has.
use mathlib.Core.Path.{subst}
use fpd.Base.{
  ◌≡◌, refl, sym, ap, ◌∙◌, ◌≢◌, arith, ℕ, String, Option, Option-cases, none, some, inl, inr, List,
  [], ◌∷◌, string_eq, All, All-append, bind-ok, contains, true, Outcome, ok, ◌>>=◌,
}
use fpd.Base.Dict
use fpd.Base.Dict.{Dict}
use fpd.Service.{
  Error, Host, ProxyDataSource, DataSourceStatus, connected, failed, UpsertProxyDataSource,
  ProxyService,
}
use fpd.Service.Handle.Cases.{Returns, HasModules}
use fpd.Service.StatusCheck.{Floats, DataSourceCheckTask, new, next}
use fpd.Service.Update.{
  status_request, Checked, queued, joined, update_data_source, task_for, update_each, initial_delay,
  update_all_data_sources,
}
use fpd.Service.Update.Laws.{
  Updated, retries_after, update_data_source_lem, update_data_source_total,
}

-- Of the tasks of which `R` holds, the next delays stay in the range of `Duration`.
pub record InRange (F : Floats) (R : DataSourceCheckTask F → Type 0) : Type 0 where
  pub returns :
      (task : DataSourceCheckTask F)
      → R task
      → (o : Option (ℕ × DataSourceCheckTask F)) × (next F {E = Error} task ≡ ok o)
  pub keeps :
      (task : DataSourceCheckTask F) (delay : ℕ) (following : DataSourceCheckTask F)
      → R task
      → next F {E = Error} task ≡ ok (some (delay, following))
      → R following

-- `R` holds of the first task of each check.
abbrev pub Starts :
    {H : Host} (F : Floats) → ProxyService H → (DataSourceCheckTask F → Type 0) → Type 0
Starts F service R =
    (name : String) → R (new F name service.status_check_interval initial_delay F.one_and_a_half)

next-name :
    (F : Floats) (task : DataSourceCheckTask F) {delay : ℕ} {following : DataSourceCheckTask F}
    → next F {E = Error} task ≡ ok (some (delay, following))
    → following.name ≡ task.name
unfolding next
next-name F task h = ground arith

module _ (H : Host) (F : Floats) (R : DataSourceCheckTask F → Type 0) where
  -- A queued check names a data source of the service, and its delays stay in range.
  abbrev pub IsKnown : ProxyService H → ℕ × DataSourceCheckTask F → Type 0
  IsKnown service retry = (Dict.get retry.1.name service.data_sources ≢ none) × R retry.1

  queued-IsKnown :
      (service : ProxyService H) (task : DataSourceCheckTask F)
      (o : Option (ℕ × DataSourceCheckTask F))
      → InRange F R
      → R task
      → Dict.get task.name service.data_sources ≢ none
      → next F {E = Error} task ≡ ok o
      → All (IsKnown service) (queued H F o)
  queued-IsKnown service task none range r known h = tt
  queued-IsKnown service task (some (d, following)) range r known h = (
    (
      subst (λ name. Dict.get name service.data_sources ≢ none) (sym (next-name F task h)) known,
      range.keeps task d following r h,
    ),
    tt,
  )

  retries-IsKnown :
      (service : ProxyService H) (now op_id : ℕ) (task : DataSourceCheckTask F) (c : Checked H F)
      → InRange F R
      → R task
      → Updated H F service now op_id task c
      → All (IsKnown service) c.retries
  retries-IsKnown service now op_id task c range r u = by_status u.status refl
    where
      known : Dict.get task.name service.data_sources ≢ none
      known = ground (arith, u.known)

      by_status : (status : DataSourceStatus) → u.status ≡ status → All (IsKnown service) c.retries
      by_status connected e =
          subst (All (IsKnown service))
            (sym (u.retried ∙ ap (λ s. retries_after H F s u.following) e)) tt
      by_status (failed x) e =
          subst (All (IsKnown service))
            (sym (u.retried ∙ ap (λ s. retries_after H F s u.following) e))
            (queued-IsKnown service task u.following range r known u.follows)

  module _ (service : ProxyService H) (now op_id : ℕ) {request : List ℕ} (t : Returns H)
      (modules : HasModules service) (encoded : status_request H ≡ ok request) (range : InRange F R)
      (starts : Starts F service R) where
    abbrev in_state : Dict String UpsertProxyDataSource → ProxyService H
    in_state state = record service { data_sources_state = state }

    -- An update that returns from `state`, leaves some state, and queues checks of known sources.
    abbrev ReturnsFrom : Outcome Error (Checked H F) → Type 0
    ReturnsFrom m =
        (c : Checked H F) × (m ≡ ok c)
        × (next_state : Dict String UpsertProxyDataSource) × (c.service ≡ in_state next_state)
        × All (IsKnown service) c.retries

    pub update_returns :
        (task : DataSourceCheckTask F) (state : Dict String UpsertProxyDataSource)
        → R task
        → Dict.get task.name service.data_sources ≢ none
        → ReturnsFrom (update_data_source H F now op_id (in_state state) task)
    update_returns task state r known =
        elim (Option-cases (Dict.get task.name service.data_sources)) [
          | inl unknown ↦ absurd (known unknown)
          | inr (source, found) ↦
              let (following, follows) = range.returns task r in
              let (c, same) =
                update_data_source_total H F (in_state state) now op_id task t modules encoded found
                  follows in
              let u = update_data_source_lem H F (in_state state) now op_id task {c = c} same in
              (c, same, _, u.is_stored, retries-IsKnown (in_state state) now op_id task c range r u)
        ]

    each_returns :
        (names : List String) (state : Dict String UpsertProxyDataSource)
        → All (λ name. Dict.get name service.data_sources ≢ none) names
        → ReturnsFrom (update_each H F now op_id names (in_state state))
    unfolding update_each new
    each_returns [] state known = (_, refl, state, refl, tt)
    each_returns (name ∷ names) state (known, others) =
        let (one, one_ok, second, second_is, first_known) =
          update_returns (task_for H F now op_id service name) state (starts name) known in
        let (rest, rest_ok, third, third_is, rest_known) = each_returns names second others in
        (
          joined H F one rest,
          bind-ok
                (λ (one : Checked H F). do
                  rest ← update_each H F now op_id names one.service
                  ok (joined H F one rest))
                one_ok
              ∙ bind-ok (λ rest. ok (joined H F one rest))
                  (subst (λ s. update_each H F now op_id names s ≡ ok rest) (sym second_is)
                    rest_ok),
          third,
          third_is,
          All-append (IsKnown service) one.retries rest.retries first_known rest_known,
        )

    keys_known :
        (d : Dict String ProxyDataSource)
        → ((name : String)
            → contains name (Dict.keys d) ≡ true
            → Dict.get name service.data_sources ≢ none)
        → All (λ name. Dict.get name service.data_sources ≢ none) (Dict.keys d)
    unfolding Dict.keys
    keys_known [] h = tt
    keys_known ((k, v) ∷ d) h = (h k (ground arith), keys_known d (λ name l. h name (ground arith)))

    -- An update of all data sources returns.
    pub update_all_returns :
        (state : Dict String UpsertProxyDataSource)
        → ReturnsFrom (update_all_data_sources H F now op_id (in_state state))
    unfolding update_all_data_sources
    update_all_returns state =
        each_returns (Dict.keys service.data_sources) state (
          keys_known service.data_sources
            (λ name. Dict.get-contains-keys name service.data_sources))
