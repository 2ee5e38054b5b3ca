-- ===== src/Service/Update/Join.antt =====
-- The updates that `join_all` runs come to the same in whatever order they end.
use mathlib.Core.Path.{subst}
use mathlib.Core.List.Permᴰ
use mathlib.Core.List.{Permᴰ}
use fpd.Base.{
  ◌≡◌, refl, ap, ◌∙◌, ℕ, String, List, [], ◌∷◌, string_eq, Outcome, ok, err, panicked, returned,
  ◌>>=◌,
}
use fpd.Base.Dict
use fpd.Base.Dict.{Dict}
use fpd.Service.{Error, Host, UpsertProxyDataSource, ProxyService}
use fpd.Service.StatusCheck.{Floats, new}
use fpd.Service.Update.{Checked, joined, update_each, update_all_data_sources}
use fpd.Service.Update.Effect
use fpd.Service.Update.Effect.{Effect, DoNotClash, effects-DoNotClash, update-eq}
use fpd.Service.Update.Agree
use fpd.Service.Update.Agree.{
  AreSame, Agree, AgreeIf-trans, SameStates, AgreeIf-join, SameStates-put, SameStates-swap,
  Agree-swapped,
}

module _ (H : Host) (F : Floats) (service : ProxyService H) (now op_id : ℕ) where
  abbrev State : Type 0
  State = Dict String UpsertProxyDataSource

  abbrev in_state : State → ProxyService H
  in_state = Effect.in_state H F service

  abbrev put : Effect H F → State → State
  put = Effect.put H F service

  abbrev give : State → Outcome Error (Effect H F) → Outcome Error (Checked H F)
  give = Effect.give H F service

  abbrev join : State → Effect H F → Outcome Error (Checked H F) → Outcome Error (Checked H F)
  join = Agree.join H F service

  abbrev effect : String → Outcome Error (Effect H F)
  effect = Effect.effect H F service now op_id

  abbrev after : Outcome Error (Effect H F) → List String → State → Outcome Error (Checked H F)
  after m names state =
      m >>= λ e. join state e (update_each H F now op_id names (in_state (put e state)))

  give-after :
      (m : Outcome Error (Effect H F)) (names : List String) (state : State)
      → (give state m >>= λ (one : Checked H F).
          update_each H F now op_id names one.service >>= λ rest. ok (joined H F one rest))
        ≡ after m names state
  give-after (ok e) names state = refl
  give-after (err e) names state = refl
  give-after panicked names state = refl

  each-cons :
      (name : String) (names : List String) (state : State)
      → update_each H F now op_id (name ∷ names) (in_state state) ≡ after (effect name) names state
  unfolding update_each new
  each-cons name names state =
      ap
        (λ m. m >>= λ (one : Checked H F).
          update_each H F now op_id names one.service >>= λ rest. ok (joined H F one rest))
        (update-eq H F service now op_id state name)
      ∙ give-after (effect name) names state

  -- Updates of a list of names from one state and of another list from another.
  abbrev AgreeFrom : List String → State → List String → State → Type 0
  AgreeFrom names state others other =
      Agree H F service (update_each H F now op_id names (in_state state))
        (update_each H F now op_id others (in_state other))

  Agree-after :
      (m : Outcome Error (Effect H F)) (names others : List String) (left right : State)
      → ((e : Effect H F) → AgreeFrom names (put e left) others (put e right))
      → Agree H F service (after m names left) (after m others right)
  Agree-after (ok e) names others left right h =
      AgreeIf-join H F service left right e
        (update_each H F now op_id names (in_state (put e left)))
        (update_each H F now op_id others (in_state (put e right))) (h e)
  Agree-after (err e) names others left right h = tt
  Agree-after panicked names others left right h = tt

  -- One update more at the head.
  Agree-cons :
      (name : String) (names others : List String) (left right : State)
      → ((e : Effect H F) → AgreeFrom names (put e left) others (put e right))
      → AgreeFrom (name ∷ names) left (name ∷ others) right
  Agree-cons name names others left right h =
      rw (each-cons name names left, each-cons name others right)
        (Agree-after (effect name) names others left right h)

  abbrev after_two :
      (m n : Outcome Error (Effect H F)) → List String → State → Outcome Error (Checked H F)
  after_two m n names state = m >>= λ e. join state e (after n names (put e state))

  each-cons_two :
      (a b : String) (names : List String) (state : State)
      → update_each H F now op_id (a ∷ b ∷ names) (in_state state)
        ≡ after_two (effect a) (effect b) names state
  each-cons_two a b names state = each-cons a (b ∷ names) state ∙ by_first (effect a)
    where
      by_first :
          (m : Outcome Error (Effect H F))
          → after m (b ∷ names) state ≡ after_two m (effect b) names state
      by_first (ok e) = ap (join state e) (each-cons b names (put e state))
      by_first (err x) = refl
      by_first panicked = refl

  each-congr :
      (names : List String) (left right : State)
      → SameStates H F service left right
      → AgreeFrom names left names right
  unfolding update_each
  each-congr [] left right h = record {
    same_log = Permᴰ.refl [];
    same_retries = Permᴰ.refl [];
    same_service = (refl, refl);
    same_states = h;
  }
  each-congr (name ∷ names) left right h =
      Agree-cons name names names left right (λ e.
        each-congr names (put e left) (put e right) (SameStates-put H F service e left right h))

  Agree-after_two :
      (m n : Outcome Error (Effect H F)) (names : List String) (left right : State)
      → ((e f : Effect H F) → m ≡ ok e → n ≡ ok f → DoNotClash H F e f)
      → SameStates H F service left right
      → Agree H F service (after_two m n names left) (after_two n m names right)
  Agree-after_two (ok e) (ok f) names left right clash h =
      Agree-swapped H F service e f left right
        (update_each H F now op_id names (in_state (put f (put e left))))
        (update_each H F now op_id names (in_state (put e (put f right))))
        (each-congr names (put f (put e left)) (put e (put f right))
          (SameStates-swap H F service e f left right (clash e f refl refl) h))
  Agree-after_two (ok e) (err y) names left right clash h = tt
  Agree-after_two (ok e) panicked names left right clash h = tt
  Agree-after_two (err x) (ok f) names left right clash h = tt
  Agree-after_two panicked (ok f) names left right clash h = tt
  Agree-after_two (err x) (err y) names left right clash h = tt
  Agree-after_two (err x) panicked names left right clash h = tt
  Agree-after_two panicked (err y) names left right clash h = tt
  Agree-after_two panicked panicked names left right clash h = tt

  each-perm :
      {names others : List String} (left right : State)
      → Permᴰ names others
      → SameStates H F service left right
      → AgreeFrom names left others right
  each-perm left right Permᴰ.nil h = each-congr [] left right h
  each-perm left right (Permᴰ.cons {a = a} {l₁ = names} {l₂ = others} same p) h =
      subst (λ b. AgreeFrom (a ∷ names) left (b ∷ others) right) same
        (Agree-cons a names others left right
          (λ e. each-perm (put e left) (put e right) p (SameStates-put H F service e left right h)))
  each-perm left right
        (Permᴰ.swap {a = a} {b = b} {a' = new_first} {b' = new_second} {l = names} first second) h =
      subst (λ c. AgreeFrom (a ∷ b ∷ names) left (c ∷ new_second ∷ names) right) second
        (subst (λ c. AgreeFrom (a ∷ b ∷ names) left (b ∷ c ∷ names) right) first
          (rw (each-cons_two a b names left, each-cons_two b a names right)
            (Agree-after_two (effect a) (effect b) names left right
              (effects-DoNotClash H F service now op_id a b) h)))
  each-perm {names} {others} left right (Permᴰ.trans {l₂ = between} p q) h =
      AgreeIf-trans H F service (returned (update_each H F now op_id names (in_state left)))
        (returned (update_each H F now op_id between (in_state left)))
        (returned (update_each H F now op_id others (in_state right)))
        (each-perm left left p (λ name. refl)) (each-perm left right q h)

  -- The updates of all data sources come to the same in whatever order `join_all` ends them, and in
  -- whatever order the data sources are iterated over: either no order returns, or they all return
  -- the same states, the same retries and the same updates of the metrics, up to their order. This
  -- is for providers that answer one check alike whenever it is made.
  pub update_all-perm :
      {names : List String}
      → Permᴰ (Dict.keys service.data_sources) names
      → Agree H F service
          (update_all_data_sources H F now op_id service)
          (update_each H F now op_id names service)
  unfolding update_all_data_sources
  update_all-perm p =
      each-perm service.data_sources_state service.data_sources_state p (λ name. refl)
