-- ===== src/Service/Handle/Answers.antt =====
-- What every answer to a server message has in common, and when there is none.
use fpd.Base.{ℕ, ◌≡◌, refl, sym, ◌≢◌, arith, none, some, string_eq, Outcome, ok, err, panicked}
use mathlib.Core.Path.{subst}
use fpd.Base.Dict
use fpd.Service.{
  Error, Host, ProxyDataSource, runtime, ProxyService, ServerMessage, error_response, ProxyMessage,
}
use fpd.Service.Metrics.{Labels, Log, gauge}
use fpd.Service.Handle.{call_provider, track, handle_message_inner}
use fpd.Service.Handle.Cases.{
  Returns, HasModules, call_provider-ne-err, call_provider-op_id, call_provider-ne-panicked,
  Handled, rejected, refused, without_module, called, handled, track-op_id,
}

abbrev Answer : Host → Type 0
Answer H = Log × Outcome Error (ProxyMessage H)

-- The gauge has lost what it gained.
abbrev IsBalanced : (H : Host) → Answer H → Type 0
IsBalanced H t = (gauge t.0).0 ≡ (gauge t.0).1

module _ {H : Host} where
  module _ (labels : Labels) (m : Outcome Error (ProxyMessage H)) where
    track-gauge : (track labels m).1 ≢ panicked → IsBalanced H (track labels m)
    unfolding track
    track-gauge h = ground arith

    track-ne-err : (x : Error) → m ≢ err x → (track labels m).1 ≢ err x
    unfolding track
    track-ne-err x h e = ground arith

    track-ne-panicked : m ≢ panicked → (track labels m).1 ≢ panicked
    unfolding track
    track-ne-panicked h e = ground arith

module _ {H : Host} (service : ProxyService H) (now : ℕ) (message : ServerMessage) where
  abbrev result : Log × Outcome Error (ProxyMessage H)
  result = handle_message_inner service now message

  op_id_by :
      Handled service now message result
      → {response : ProxyMessage H} → result.1 ≡ ok response
      → response.op_id ≡ message.op_id
  op_id_by (rejected none_given e) h = ground arith
  op_id_by (refused op_id x has e) h = ground arith
  op_id_by (without_module source s m e) h = ground arith
  op_id_by (called op_id source r labels has v s m e) {response} h = ground (
    arith,
    track-op_id service now message labels (call_provider now r source op_id message.payload)
        {response = response},
    call_provider-op_id now r source op_id message.payload {response = response},
  )

  -- Every response to a server message carries the operation of its message, also where it reports
  -- an error.
  pub handle-op_id :
      {response : ProxyMessage H} → result.1 ≡ ok response → response.op_id ≡ message.op_id
  handle-op_id = op_id_by (handled service now message)

  err_by :
      Handled service now message result → (e : Error) → result.1 ≡ err e → message.op_id ≡ none
  err_by (rejected none_given e) x h = none_given
  err_by (refused op_id y has e) x h = ground arith
  err_by (without_module source s m e) x h = ground arith
  err_by (called op_id source r labels has v s m e) x h = absurd (
      track-ne-err labels _ x (call_provider-ne-err now r source op_id message.payload x)
        (subst (λ (t : Answer H). t.1 ≡ err x) e h))

  -- The handler fails only on a message that has no operation: this is what the `expect` of the
  -- status check relies on.
  pub handle-err : (e : Error) → result.1 ≡ err e → message.op_id ≡ none
  handle-err = err_by (handled service now message)

  gauge_by :
      Handled service now message result
      → result.1 ≢ panicked
      → (gauge result.0).0 ≡ (gauge result.0).1
  gauge_by (rejected none_given e) h = subst (IsBalanced H) (sym e) refl
  gauge_by (refused op_id y has e) h = subst (IsBalanced H) (sym e) refl
  gauge_by (without_module source s m e) h = subst (IsBalanced H) (sym e) refl
  gauge_by (called op_id source r labels has v s m e) h =
      subst (IsBalanced H) (sym e)
        (track-gauge labels _ (subst (λ (t : Answer H). t.1 ≢ panicked) e h))

  -- When the handler returns, it has lowered the gauge of concurrent queries as often as it raised it.
  pub handle-gauge : result.1 ≢ panicked → (gauge result.0).0 ≡ (gauge result.0).1
  handle-gauge = gauge_by (handled service now message)

  returns_by :
      Handled service now message result → Returns H → HasModules service → result.1 ≢ panicked
  returns_by (rejected none_given e) t modules h = absurd (ground arith)
  returns_by (refused op_id y has e) t modules h = absurd (ground arith)
  returns_by (without_module source s m e) t modules h = modules message.data_source_name source s m
  returns_by (called op_id source r labels has v s m e) t modules h =
      track-ne-panicked labels _ (call_provider-ne-panicked t now r source op_id message.payload)
        (subst (λ (t : Answer H). t.1 ≡ panicked) e h)

  -- If the provider runtime and the serializers return, and each data source has an entry for its
  -- provider among the modules, then the handler does not panic.
  pub handle-ne-panicked : Returns H → HasModules service → result.1 ≢ panicked
  handle-ne-panicked = returns_by (handled service now message)

  abbrev IsError : ProxyMessage H → Type 0
  IsError response = (e : Error) × (response.payload ≡ error_response e)

  answered_by :
      Handled service now message result
      → {response : ProxyMessage H} → result.1 ≡ ok response
      → ¬ IsError response
      → (message.protocol_version ≡ 2)
        × (source : ProxyDataSource) × (r : H.Runtime) × (Dict.get message.data_source_name
              service.data_sources
            ≡ some source)
        × (Dict.get source.provider_type service.wasm_modules ≡ some (runtime r))
  answered_by (rejected none_given e) h n = absurd (ground arith)
  answered_by (refused op_id x has e) {response} h n = absurd (n (x, ground arith))
  answered_by (without_module source s m e) h n = absurd (ground arith)
  answered_by (called op_id source r labels has v s m e) h n = (v, source, r, s, m)

  -- A response that reports no error comes from a provider: the message has protocol version 2, and
  -- names a data source whose provider's module is loaded.
  pub handle-answered :
      {response : ProxyMessage H}
      → result.1 ≡ ok response
      → ¬ IsError response
      → (message.protocol_version ≡ 2)
        × (source : ProxyDataSource) × (r : H.Runtime) × (Dict.get message.data_source_name
              service.data_sources
            ≡ some source)
        × (Dict.get source.provider_type service.wasm_modules ≡ some (runtime r))
  handle-answered = answered_by (handled service now message)
