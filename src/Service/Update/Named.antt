-- ===== src/Service/Update/Named.antt =====
-- That the data sources and their states are kept under their names.
use mathlib.Core.Path.{subst}
use fpd.Base.{
  ◌≡◌, refl, sym, arith, ℕ, String, Bool-cases, ◌⊎◌, inl, inr, List, [], ◌∷◌, map, All, string_eq,
  ok, ◌==◌, ◌>>=◌, bind-eq-ok,
}
use fpd.Base.Dict
use fpd.Base.Dict.{Dict}
use fpd.Service.{Host, ProxyDataSource, UpsertProxyDataSource, ProxyService}
use fpd.Service.StatusCheck.{Floats, DataSourceCheckTask}
use fpd.Service.Init.{Settings, init, new}
use fpd.Service.Update.{Checked, upsert, joined, update_data_source, task_for, update_each}
use fpd.Service.Update.Laws.{update_data_source_lem}

-- Each value is kept under its name.
abbrev pub NamedBy {κ} : {V : Type κ} → (V → String) → Dict String V → Type 0
NamedBy name_of d = All (λ (key, value). name_of value ≡ key) d

NamedBy-insert {κ} :
    {V : Type κ} (name_of : V → String) (key : String) (value : V) (d : Dict String V)
    → name_of value ≡ key
    → NamedBy name_of d
    → NamedBy name_of (Dict.insert key value d)
unfolding Dict.insert
NamedBy-insert name_of key value [] e named = (e, tt)
NamedBy-insert name_of key value ((j, w) ∷ d) e (first, rest) = elim (Bool-cases (key == j)) [
  | inl same ↦ rw same (e, rest)
  | inr other ↦ rw other (first, NamedBy-insert name_of key value d e rest)
]

NamedBy-extend {κ} :
    {V : Type κ} (name_of : V → String) (values : List V) (d : Dict String V)
    → NamedBy name_of d
    → NamedBy name_of (Dict.extend (map (λ value. (name_of value, value)) values) d)
unfolding Dict.extend
NamedBy-extend name_of [] d named = named
NamedBy-extend name_of (value ∷ values) d named =
    NamedBy-extend name_of values (Dict.insert (name_of value) value d)
      (NamedBy-insert name_of (name_of value) value d refl named)

module _ (H : Host) (F : Floats) where
  -- The data sources and their states are kept under their names.
  pub record AreNamed (service : ProxyService H) : Type 0 where
    pub sources : NamedBy (λ (source : ProxyDataSource). source.name) service.data_sources
    pub states :
        NamedBy (λ (source : UpsertProxyDataSource). source.name) service.data_sources_state

  pub AreNamed-update :
      (now op_id : ℕ) (service : ProxyService H) (task : DataSourceCheckTask F) {c : Checked H F}
      → update_data_source H F now op_id service task ≡ ok c
      → AreNamed service
      → AreNamed c.service
  AreNamed-update now op_id service task {c} h named =
      let u = update_data_source_lem H F service now op_id task {c = c} h in
      subst AreNamed (sym u.is_stored) (record {
        sources = named.sources;
        states =
            NamedBy-insert (λ (source : UpsertProxyDataSource). source.name) task.name
              (upsert H F task.name u.source u.status) service.data_sources_state refl named.states;
      })

  pub AreNamed-each :
      (now op_id : ℕ) (names : List String) (service : ProxyService H) {c : Checked H F}
      → update_each H F now op_id names service ≡ ok c
      → AreNamed service
      → AreNamed c.service
  unfolding update_each
  AreNamed-each now op_id [] service h named = subst AreNamed (ground arith) named
  AreNamed-each now op_id (name ∷ names) service {c} h named =
      let (one, first_ok, after) =
        bind-eq-ok (update_data_source H F now op_id service (task_for H F now op_id service name))
          (λ (one : Checked H F). do
            rest ← update_each H F now op_id names one.service
            ok (joined H F one rest))
          h in
      let (rest, rest_ok, whole) =
        bind-eq-ok (update_each H F now op_id names one.service) (λ rest. ok (joined H F one rest))
          after in
      let last : rest.service ≡ c.service = ground arith in
      subst AreNamed last (
        AreNamed-each now op_id names one.service {c = rest} rest_ok (
          AreNamed-update now op_id service (task_for H F now op_id service name) {c = one} first_ok
            named))

  -- A service that `init` makes.
  pub init-AreNamed :
      (read : String → String ⊎ List ℕ) (compile : List ℕ → String ⊎ H.Runtime) (s : Settings)
      (sources : List ProxyDataSource)
      → AreNamed (init H read compile s sources)
  unfolding init new
  init-AreNamed read compile s sources = record {
    sources = NamedBy-extend (λ (source : ProxyDataSource). source.name) sources [] tt;
    states = tt;
  }
