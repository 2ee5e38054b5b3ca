-- ===== src/Service/Handle/Cases.antt =====
-- The ways in which a server message may be handled.
use fpd.Base.{
  ℕ, String, ◌≡◌, refl, ◌≢◌, arith, Option, none, some, inl, inr, Bool-cases, eqb, List, [],
  string_eq, Outcome, ok, err, panicked,
}
use fpd.Base.Dict
use fpd.Service.{
  Error, Blob, ProviderRequest, Host, ProxyDataSource, Loaded, runtime, ProxyService, ServerMessage,
  ServerMessagePayload, ProxyMessagePayload, error_response, deserialization, missing_op_id,
  load_failed, not_found, ProxyMessage,
}
use fpd.Service.Bindings
use fpd.Service.Metrics.{Labels, Log}
use fpd.Service.Handle.{
  reply, respond, call_provider, track, with_runtime, with_data_source, with_op_id,
  handle_message_inner,
}

-- The provider runtime and the serializers return: they do not panic.
pub record Returns (H : Host) : Type 0 where
  pub from_slice : (b : List ℕ) → H.from_slice b ≢ panicked
  pub result_from_slice : (b : List ℕ) → H.result_from_slice b ≢ panicked
  pub to_vec_named : (r : ProviderRequest) → H.to_vec_named r ≢ panicked
  pub invoke2_raw : (now : ℕ) (r : H.Runtime) (b : List ℕ) → H.invoke2_raw now r b ≢ panicked
  pub create_cells : (r : H.Runtime) (q : String) (b : Blob) → H.create_cells r q b ≢ panicked
  pub extract_data :
      (r : H.Runtime) (b : Blob) (m : String) (q : Option String)
      → H.extract_data r b m q ≢ panicked
  pub get_config_schema : (r : H.Runtime) → H.get_config_schema r ≢ panicked
  pub get_supported_query_types_raw :
      (now : ℕ) (r : H.Runtime) (b : List ℕ) → H.get_supported_query_types_raw now r b ≢ panicked

-- Each data source has an entry for its provider among the modules.
abbrev pub HasModules : {H : Host} → ProxyService H → Type 0
HasModules service =
    (name : String) (source : ProxyDataSource)
    → Dict.get name service.data_sources ≡ some source
    → Dict.get source.provider_type service.wasm_modules ≢ none

module _ {H : Host} where
  pub call_provider-ne-err :
      (now : ℕ) (r : H.Runtime) (source : ProxyDataSource) (op_id : ℕ) (p : ServerMessagePayload)
      (e : Error)
      → call_provider {H = H} now r source op_id p ≢ err e
  unfolding call_provider
  call_provider-ne-err now r source op_id p e h = ground arith

  pub call_provider-op_id :
      (now : ℕ) (r : H.Runtime) (source : ProxyDataSource) (op_id : ℕ) (p : ServerMessagePayload)
      {response : ProxyMessage H}
      → call_provider now r source op_id p ≡ ok response
      → response.op_id ≡ some op_id
  unfolding call_provider
  call_provider-op_id now r source op_id p h = ground arith

  respond-ne-panicked :
      {A : Type 0} (op_id : ℕ) (wrap : A → ProxyMessagePayload H) (m : Outcome Error A)
      → m ≢ panicked
      → respond op_id wrap m ≢ panicked
  respond-ne-panicked op_id wrap (ok a) h e = cc
  respond-ne-panicked op_id wrap (err x) h e = cc
  respond-ne-panicked op_id wrap panicked h e = h refl

  pub call_provider-ne-panicked :
      Returns H
      → (now : ℕ) (r : H.Runtime) (source : ProxyDataSource) (op_id : ℕ) (p : ServerMessagePayload)
      → call_provider {H = H} now r source op_id p ≢ panicked
  unfolding call_provider Bindings.invoke_provider_v2 Bindings.create_cells Bindings.extract_data
      Bindings.get_config_schema Bindings.get_supported_query_types
  call_provider-ne-panicked t now r source op_id (ServerMessagePayload.invoke request) =
      respond-ne-panicked op_id _ _
        (λ e. grind (arith, t.from_slice, t.to_vec_named, t.invoke2_raw))
  call_provider-ne-panicked t now r source op_id
        (ServerMessagePayload.create_cells query response) =
      respond-ne-panicked op_id _ _ (λ e. ground (arith, t.create_cells r query response))
  call_provider-ne-panicked t now r source op_id
        (ServerMessagePayload.extract_data response mime query) =
      respond-ne-panicked op_id _ _ (λ e. ground (arith, t.extract_data r response mime query))
  call_provider-ne-panicked t now r source op_id ServerMessagePayload.get_config_schema =
      respond-ne-panicked op_id _ _ (λ e. ground (arith, t.get_config_schema r))
  call_provider-ne-panicked t now r source op_id ServerMessagePayload.get_supported_query_types =
      respond-ne-panicked op_id _ _ (λ e. grind (arith, t.get_supported_query_types_raw))
  call_provider-ne-panicked t now r source op_id (ServerMessagePayload.other tag) = λ e. cc

  module _ (service : ProxyService H) (now : ℕ) (message : ServerMessage) where
    -- How a message may be handled: not at all, by an error response, by a call of the provider,
    -- or (if a module has no entry) by a panic.
    pub data Handled (result : Log × Outcome Error (ProxyMessage H)) : Type 0 where
      rejected :
          message.op_id ≡ none → result ≡ ([], err (deserialization missing_op_id)) → Handled result
      refused :
          (op_id : ℕ) (e : Error)
          → message.op_id ≡ some op_id
          → result ≡ ([], ok (reply op_id (error_response e)))
          → Handled result
      without_module :
          (source : ProxyDataSource)
          → Dict.get message.data_source_name service.data_sources ≡ some source
          → Dict.get source.provider_type service.wasm_modules ≡ none
          → result ≡ ([], panicked)
          → Handled result
      called :
          (op_id : ℕ) (source : ProxyDataSource) (r : H.Runtime) (labels : Labels)
          → message.op_id ≡ some op_id
          → message.protocol_version ≡ 2
          → Dict.get message.data_source_name service.data_sources ≡ some source
          → Dict.get source.provider_type service.wasm_modules ≡ some (runtime r)
          → result ≡ track labels (call_provider now r source op_id message.payload)
          → Handled result

    module _ (op_id : ℕ) (has : message.op_id ≡ some op_id) (v : message.protocol_version ≡ 2) where
      Handled-with_runtime :
          (source : ProxyDataSource) (l : Option (Loaded H))
          → Dict.get message.data_source_name service.data_sources ≡ some source
          → Dict.get source.provider_type service.wasm_modules ≡ l
          → Handled (with_runtime service now message source op_id l)
      unfolding with_runtime
      Handled-with_runtime source none s e = without_module source s e refl
      Handled-with_runtime source (some (load_failed x)) s e = refused op_id x has refl
      Handled-with_runtime source (some (runtime r)) s e = called op_id source r _ has v s e refl

      Handled-with_data_source :
          (o : Option ProxyDataSource)
          → Dict.get message.data_source_name service.data_sources ≡ o
          → Handled (with_data_source service now message op_id o)
      unfolding with_data_source
      Handled-with_data_source none e = refused op_id not_found has refl
      Handled-with_data_source (some source) e =
          Handled-with_runtime source (Dict.get source.provider_type service.wasm_modules) e refl

    Handled-with_op_id :
        (o : Option ℕ) → message.op_id ≡ o → Handled (with_op_id service now message o)
    unfolding with_op_id
    Handled-with_op_id none e = rejected e refl
    Handled-with_op_id (some op_id) e = elim (Bool-cases (eqb message.protocol_version 2)) [
      | inl v ↦ rw v (
          Handled-with_data_source op_id e (ground arith)
            (Dict.get message.data_source_name service.data_sources) refl)
      | inr v ↦ rw v (refused op_id _ e refl)
    ]

    pub handled : Handled (handle_message_inner service now message)
    unfolding handle_message_inner
    handled = Handled-with_op_id message.op_id refl

    pub track-op_id :
        (labels : Labels) (m : Outcome Error (ProxyMessage H)) {response : ProxyMessage H}
        → (track labels m).1 ≡ ok response
        → m ≡ ok response
    unfolding track
    track-op_id labels m h = ground arith
