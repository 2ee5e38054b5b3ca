-- ===== src/Service/Bindings.antt =====
-- src/tasks/service/bindings.rs
use fpd.Base.{ℕ, String, Option, List, Outcome, ok, ◌>>=◌, map_err}
use fpd.Service.{
  Error, deserialization, invocation, decoding_request, encoding_request, invoking_provider, Config,
  object, Blob, Host,
}

-- `map_err` to "Error invoking provider"
abbrev pub invoking : {A : Type 0} → Outcome String A → Outcome Error A
invoking = map_err (λ text. invocation (invoking_provider text))

module _ (H : Host) where
  -- The configuration of the data source takes the place of the request's.
  unfoldable pub invoke_provider_v2 :
      (now : ℕ) → H.Runtime → List ℕ → Config → Outcome Error (List ℕ)
  invoke_provider_v2 now runtime request config = do
    decoded ← map_err (λ text. deserialization (decoding_request text)) (H.from_slice request)
    encoded ←
        map_err (λ text. deserialization (encoding_request text))
          (H.to_vec_named (record decoded { config = object config }))
    invoking (H.invoke2_raw now runtime encoded)

  unfoldable pub create_cells : H.Runtime → String → Blob → Outcome Error (Outcome Error H.Cells)
  create_cells runtime query_type response = invoking (H.create_cells runtime query_type response)

  unfoldable pub extract_data :
      H.Runtime → Blob → String → Option String → Outcome Error (Outcome Error Blob)
  extract_data runtime response mime_type query =
      invoking (H.extract_data runtime response mime_type query)

  unfoldable pub get_config_schema : H.Runtime → Outcome Error H.Schema
  get_config_schema runtime = invoking (H.get_config_schema runtime)

  unfoldable pub get_supported_query_types :
      (now : ℕ) → H.Runtime → Config → Outcome Error H.QueryTypes
  get_supported_query_types now runtime config = do
    result ←
        invoking (H.get_supported_query_types_raw now runtime (H.serialize_to_vec (object config)))
    ok (H.deserialize_from_slice result)
