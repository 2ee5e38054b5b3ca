-- ===== src/Service/Tasks/Safety.antt =====
-- The task never panics, and what it tells the relay.
use mathlib.Core.Option
use mathlib.Core.Path.{subst}
use fpd.Base.{
  ◌≡◌, refl, sym, ℕ, String, true, false, Option, none, some, List, [], ◌∷◌, ◌++◌, string_eq, All,
  Outcome, ok, ◌>>=◌, if◌then◌else◌,
}
use fpd.Base.Dict.{Dict}
use fpd.Service.{Host, Error, UpsertProxyDataSource, ProxyService}
use fpd.Service.Handle.Cases.{Returns, HasModules}
use fpd.Service.StatusCheck.{Floats, DataSourceCheckTask}
use fpd.Service.Update.{status_request}
use fpd.Service.Update.Total.{InRange, Starts, IsKnown}
use fpd.Service.Tasks.{Loop, Event, shutdown, handle, run, notification, offline}

-- `P` holds of what was taken, and of the others.
abbrev AllTaken {ℓ κ} : {A : Type ℓ} → (A → Type κ) → Option (A × List A) → Type κ
AllTaken P none = Unit
AllTaken P (some (x, rest)) = P x × All P rest

module _ (H : Host) (F : Floats) (service : ProxyService H) {request : List ℕ} (t : Returns H)
    (modules : HasModules service) (encoded : status_request H ≡ ok request)
    {R : DataSourceCheckTask F → Type 0} (range : InRange F R) (starts : Starts F service R) where
  -- The loop is one of this service, in some state, and only checks of its data sources sleep.
  pub record IsSafe (l : Loop H F) : Type 0 where
    pub state : Dict String UpsertProxyDataSource
    pub same_service : l.service ≡ record service { data_sources_state = state }
    pub known : All (IsKnown H F R service) l.sleeping

  -- A step that returns, to a safe loop.
  abbrev ReturnsSafely : Outcome Error (Loop H F) → Type 0
  ReturnsSafely m = (next : Loop H F) × (m ≡ ok next) × IsSafe next

module _ (H : Host) (F : Floats) where
  run-stopped :
      (events : List (Event H F)) (l : Loop H F) → l.stopped ≡ true → run H F events l ≡ ok l
  unfolding run
  run-stopped [] l h = refl
  run-stopped (e ∷ events) l h =
      subst (λ b. ((if b then ok l else handle H F l e) >>= run H F events) ≡ ok l) (sym h)
        (run-stopped events l h)

  -- At the shutdown the relay is told that each data source is offline, and then nothing more,
  -- whatever ticks and retries follow.
  pub run-shutdown :
      (events : List (Event H F)) (l : Loop H F)
      → l.stopped ≡ false
      → run H F (shutdown ∷ events) l
        ≡ ok (record l {
          sent = l.sent ++ (notification (offline H F l.service) ∷ []);
          stopped = true;
        })
  unfolding run
  run-shutdown events l h =
      let last : Loop H F = record l {
        sent = l.sent ++ (notification (offline H F l.service) ∷ []);
        stopped = true;
      } in
      subst (λ b. ((if b then ok l else handle H F l shutdown) >>= run H F events) ≡ ok last)
        (sym h) (run-stopped events last refl)
