-- ===== src/Service/Tasks/Sent.antt =====
-- What a step of the task of the status checks sends.
use mathlib.Core.List.{append-nil}
use fpd.Base.{
  All, ◌≡◌, refl, sym, ◌∙◌, ap, arith, ℕ, Bool, true, false, Option, none, some, List, [], ◌∷◌,
  ◌++◌, Outcome, ok, if◌then◌else◌, bind-eq-ok,
}
use fpd.Service.{Error, Host, ProxyMessage}
use fpd.Service.StatusCheck.{Floats, DataSourceCheckTask}
use fpd.Service.Update.{Checked, update_data_source, update_all_data_sources}
use fpd.Service.Tasks.{
  Loop, Event, tick, due, shutdown, take_at, announced, retry, handle, step,
  to_data_sources_proxy_message, notification, offline,
}

-- The messages that answer no operation.
abbrev pub announcements : {H : Host} → List (ProxyMessage H) → List (ProxyMessage H)
announcements [] = []
announcements (m ∷ ms) = elim m.op_id [
  | none ↦ m ∷ announcements ms
  | some op_id ↦ announcements ms
]

pub announcements-append :
    {H : Host} (xs ys : List (ProxyMessage H))
    → announcements (xs ++ ys) ≡ announcements xs ++ announcements ys
announcements-append [] ys = refl
announcements-append (x ∷ xs) ys = ground (arith, announcements-append xs ys)

pub announcements-All :
    {H : Host} (ms : List (ProxyMessage H))
    → All (λ (m : ProxyMessage H). m.op_id ≡ none) ms
    → announcements ms ≡ ms
announcements-All [] none_asked = refl
announcements-All (m ∷ ms) (has_none, rest) = ground (arith, announcements-All ms rest)

module _ (H : Host) (F : Floats) where
  -- A step sends some announcements more.
  abbrev pub Extends : Loop H F → Loop H F → Type 0
  Extends l next =
      (more : List (ProxyMessage H)) × (next.sent ≡ l.sent ++ more)
      × All (λ (m : ProxyMessage H). m.op_id ≡ none) more

  Extends-none : (l : Loop H F) {next : Loop H F} → l ≡ next → Extends l next
  Extends-none l same = ([], ap (λ (k : Loop H F). k.sent) (sym same) ∙ sym (append-nil l.sent), tt)

  Extends-announced :
      (l : Loop H F) (sleeping : List (ℕ × DataSourceCheckTask F)) (c : Checked H F)
      {next : Loop H F}
      → announced H F l sleeping c ≡ next
      → Extends l next
  unfolding to_data_sources_proxy_message
  Extends-announced l sleeping c same = (
    to_data_sources_proxy_message c.service ∷ [],
    ap (λ (k : Loop H F). k.sent) (sym same),
    (refl, tt),
  )

  pub ok-injective :
      {l next : Loop H F} → ◌≡◌ {A = Outcome Error (Loop H F)} (ok l) (ok next) → l ≡ next
  ok-injective {l} h = ap (λ (m : Outcome Error (Loop H F)). elim m [ ok k ↦ k | _ ↦ l ]) h

  Extends-retry :
      (now op_id : ℕ) (l : Loop H F)
      (o : Option ((ℕ × DataSourceCheckTask F) × List (ℕ × DataSourceCheckTask F)))
      {next : Loop H F}
      → retry H F now op_id l o ≡ ok next
      → Extends l next
  unfolding retry
  Extends-retry now op_id l none h = Extends-none l (ok-injective h)
  Extends-retry now op_id l (some ((delay, task), others)) h =
      let (c, _, is) =
        bind-eq-ok (update_data_source H F now op_id l.service task)
          (λ (c : Checked H F). ok (announced H F l others c)) h in
      Extends-announced l others c (ok-injective is)

  Extends-handle :
      (l : Loop H F) (e : Event H F) {next : Loop H F} → handle H F l e ≡ ok next → Extends l next
  unfolding handle
  Extends-handle l (tick now op_id) h =
      let (c, _, is) =
        bind-eq-ok (update_all_data_sources H F now op_id l.service)
          (λ (c : Checked H F). ok (announced H F l l.sleeping c)) h in
      Extends-announced l l.sleeping c (ok-injective is)
  Extends-handle l (due k now op_id) h = Extends-retry now op_id l (take_at k l.sleeping) h
  Extends-handle l shutdown h = (
    notification (offline H F l.service) ∷ [],
    ap (λ (k : Loop H F). k.sent) (sym (ok-injective h)),
    (refl, tt),
  )

  Extends-if :
      (stopped : Bool) (l : Loop H F) (e : Event H F) {next : Loop H F}
      → (if stopped then ok l else handle H F l e) ≡ ok next
      → Extends l next
  Extends-if true l e {next} h = Extends-none l {next = next} (ok-injective h)
  Extends-if false l e {next} h = Extends-handle l e {next = next} h

  pub Extends-step :
      (l : Loop H F) (e : Event H F) {next : Loop H F} → step H F l e ≡ ok next → Extends l next
  unfolding step
  Extends-step l e {next} h = Extends-if l.stopped l e {next = next} h
