-- ===== src/Service/Update/Agree.antt =====
-- When two updates of the data sources come to the same.
use mathlib.Core.List.Permᴰ
use mathlib.Core.List.{Permᴰ}
use fpd.Base.{
  perm-blocks, ◌≡◌, ◌∙◌, arith, String, Option, none, some, string_eq, Outcome, ok, err, panicked,
  returned, ◌>>=◌,
}
use fpd.Base.Dict
use fpd.Base.Dict.{Dict}
use fpd.Service.{Error, Host, ProxyService}
use fpd.Service.StatusCheck.{Floats}
use fpd.Service.Update.{Checked, joined}
use fpd.Service.Update.Effect.{Effect, State, in_state, put, applied, DoNotClash}

module _ (H : Host) (F : Floats) (service : ProxyService H) where
  -- Two updates leave the same states as maps, and as many of each metric and each retry.
  pub record AreSame (left right : Checked H F) : Type 0 where
    pub same_log : Permᴰ left.log right.log
    pub same_retries : Permᴰ left.retries right.retries
    pub same_service :
        (left.service ≡ in_state H F service left.service.data_sources_state)
        × (right.service ≡ in_state H F service right.service.data_sources_state)
    pub same_states :
        (name : String)
        → Dict.get name left.service.data_sources_state
          ≡ Dict.get name right.service.data_sources_state

  abbrev pub AgreeIf : Option (Checked H F) → Option (Checked H F) → Type 0
  AgreeIf (some left) (some right) = AreSame left right
  AgreeIf none none = Unit
  AgreeIf _ _ = ⊥

  -- Both return, with the same, or neither returns.
  abbrev pub Agree : Outcome Error (Checked H F) → Outcome Error (Checked H F) → Type 0
  Agree left right = AgreeIf (returned left) (returned right)

  abbrev pub SameStates : State H F service → State H F service → Type 0
  SameStates left right = (name : String) → Dict.get name left ≡ Dict.get name right

  AreSame-trans : {a b c : Checked H F} → AreSame a b → AreSame b c → AreSame a c
  AreSame-trans x y = record {
    same_log = Permᴰ.trans x.same_log y.same_log;
    same_retries = Permᴰ.trans x.same_retries y.same_retries;
    same_service = (x.same_service.0, y.same_service.1);
    same_states = λ name. x.same_states name ∙ y.same_states name;
  }

  pub AgreeIf-trans : (a b c : Option (Checked H F)) → AgreeIf a b → AgreeIf b c → AgreeIf a c
  AgreeIf-trans (some a) (some b) (some c) x y = AreSame-trans x y
  AgreeIf-trans none none none x y = tt
  AgreeIf-trans (some a) none c x y = absurd x
  AgreeIf-trans none (some b) c x y = absurd x
  AgreeIf-trans (some a) (some b) none x y = absurd y
  AgreeIf-trans none none (some c) x y = absurd y

  -- What follows an effect: the other updates upon the state that it leaves.
  abbrev pub join :
      State H F service → Effect H F → Outcome Error (Checked H F) → Outcome Error (Checked H F)
  join state e m = m >>= λ rest. ok (joined H F (applied H F service state e) rest)

  pub AgreeIf-join :
      (left right : State H F service) (e : Effect H F) (m n : Outcome Error (Checked H F))
      → Agree m n
      → Agree (join left e m) (join right e n)
  AgreeIf-join left right e (ok a) (ok b) h = record {
    same_log = Permᴰ.append_left e.log h.same_log;
    same_retries = Permᴰ.append_left e.retries h.same_retries;
    same_service = h.same_service;
    same_states = h.same_states;
  }
  AgreeIf-join left right e (ok a) (err x) h = absurd h
  AgreeIf-join left right e (ok a) panicked h = absurd h
  AgreeIf-join left right e (err x) (ok b) h = absurd h
  AgreeIf-join left right e panicked (ok b) h = absurd h
  AgreeIf-join left right e (err x) (err y) h = tt
  AgreeIf-join left right e (err x) panicked h = tt
  AgreeIf-join left right e panicked (err y) h = tt
  AgreeIf-join left right e panicked panicked h = tt

  pub SameStates-put :
      (e : Effect H F) (left right : State H F service)
      → SameStates left right
      → SameStates (put H F service e left) (put H F service e right)
  SameStates-put e left right h name = ground (
    arith,
    Dict.get-insert name e.stored.name e.stored left,
    Dict.get-insert name e.stored.name e.stored right,
    h name,
  )

  pub SameStates-swap :
      (e f : Effect H F) (left right : State H F service)
      → DoNotClash H F e f
      → SameStates left right
      → SameStates
          (put H F service f (put H F service e left))
          (put H F service e (put H F service f right))
  SameStates-swap e f left right clash h name = ground (
    arith,
    Dict.get-insert name f.stored.name f.stored (put H F service e left),
    Dict.get-insert name e.stored.name e.stored left,
    Dict.get-insert name e.stored.name e.stored (put H F service f right),
    Dict.get-insert name f.stored.name f.stored right,
    h name,
  )

  swapped :
      (e f : Effect H F) (left right : State H F service) {c d : Checked H F}
      → AreSame c d
      → AreSame
          (joined H F
            (applied H F service left e)
            (joined H F (applied H F service (put H F service e left) f) c))
          (joined H F
            (applied H F service right f)
            (joined H F (applied H F service (put H F service f right) e) d))
  swapped e f left right {c} {d} h = record {
    same_log =
        Permᴰ.trans (perm-blocks e.log f.log c.log)
          (Permᴰ.append_left f.log (Permᴰ.append_left e.log h.same_log));
    same_retries =
        Permᴰ.trans (perm-blocks e.retries f.retries c.retries)
          (Permᴰ.append_left f.retries (Permᴰ.append_left e.retries h.same_retries));
    same_service = h.same_service;
    same_states = h.same_states;
  }

  pub Agree-swapped :
      (e f : Effect H F) (left right : State H F service) (m n : Outcome Error (Checked H F))
      → Agree m n
      → Agree
          (join left e (join (put H F service e left) f m))
          (join right f (join (put H F service f right) e n))
  Agree-swapped e f left right (ok c) (ok d) h = swapped e f left right h
  Agree-swapped e f left right (ok c) (err y) h = absurd h
  Agree-swapped e f left right (ok c) panicked h = absurd h
  Agree-swapped e f left right (err x) (ok d) h = absurd h
  Agree-swapped e f left right panicked (ok d) h = absurd h
  Agree-swapped e f left right (err x) (err y) h = tt
  Agree-swapped e f left right (err x) panicked h = tt
  Agree-swapped e f left right panicked (err y) h = tt
  Agree-swapped e f left right panicked panicked h = tt
