-- ===== src/Service.antt =====
-- What the modules of the proxy service share: the data of src/tasks/service.rs, and of the crate
-- fiberplane as far as the code builds it or tells it apart.
pub mod Bindings
pub mod Metrics
pub mod Handle
pub mod StatusCheck
pub mod Init
pub mod Update
pub mod Tasks
pub mod Health
pub mod Connect
pub mod Outgoing
pub mod Running
use fpd.Base.{ℕ, String, Bool, Option, List, Outcome, ◌⊎◌}
use fpd.Base.Dict.{Dict}

-- The texts of `Error::Invocation` and `Error::Deserialization`, with what they quote.
pub data Detail : Type 0 where
  missing_op_id : Detail
  unsupported_version : ℕ → Detail
  unsupported_payload : ℕ → Detail
  decoding_request : String → Detail
  encoding_request : String → Detail
  invoking_provider : String → Detail
  decoding_response : String → Detail
  unexpected_response : Detail
  reading_wasm : String → Detail
  compiling_wasm : String → Detail

-- The providers' `Error`: the variants that the code names, and the rest.
pub data Error : Type 0 where
  deserialization : Detail → Error
  invocation : Detail → Error
  not_found : Error
  proxy_disconnected : Error
  other : ℕ → Error

-- serde_json's `Value`, as far as the code builds it: a configuration is the text of a `Map`.
abbrev pub Config : Type 0
Config = Dict String String

pub data Value : Type 0 where
  null : Value
  object : Config → Value

pub record Blob : Type 0 where
  pub content : List ℕ
  pub mime_type : String

pub record ProviderRequest : Type 0 where
  pub query_type : String
  pub query_data : Blob
  pub config : Value

-- What the service uses of the provider runtime and of the serializers. `now` is the state of the
-- world at the call.
pub record Host : Type 1 where
  pub Runtime : Type 0
  pub Cells : Type 0
  pub Schema : Type 0
  pub QueryTypes : Type 0
  pub status_query_type : String
  pub status_mime_type : String
  pub from_slice : List ℕ → Outcome String ProviderRequest
  pub to_vec_named : ProviderRequest → Outcome String (List ℕ)
  pub result_from_slice : List ℕ → Outcome String (Error ⊎ Blob)
  pub serialize_to_vec : Value → List ℕ
  pub deserialize_from_slice : List ℕ → QueryTypes
  pub invoke2_raw : (now : ℕ) → Runtime → List ℕ → Outcome String (List ℕ)
  pub create_cells : Runtime → String → Blob → Outcome String (Outcome Error Cells)
  pub extract_data : Runtime → Blob → String → Option String → Outcome String (Outcome Error Blob)
  pub get_config_schema : Runtime → Outcome String Schema
  pub get_supported_query_types_raw : (now : ℕ) → Runtime → List ℕ → Outcome String (List ℕ)

pub record ProxyDataSource : Type 0 where
  pub name : String
  pub provider_type : String
  pub config : Config
  pub description : Option String

pub data DataSourceStatus : Type 0 where
  connected : DataSourceStatus
  failed : Error → DataSourceStatus

pub record UpsertProxyDataSource : Type 0 where
  pub name : String
  pub provider_type : String
  pub protocol_version : ℕ
  pub status : DataSourceStatus
  pub description : Option String

-- The outcome of loading a provider's wasm module
pub data Loaded (H : Host) : Type 0 where
  runtime : H.Runtime → Loaded H
  load_failed : Error → Loaded H

-- `Inner`
pub record ProxyService (H : Host) : Type 0 where
  pub endpoint : String
  pub token : String
  pub data_sources : Dict String ProxyDataSource
  pub data_sources_state : Dict String UpsertProxyDataSource
  pub wasm_modules : Dict String (Loaded H)
  pub max_retries : ℕ
  pub listen_address : Option String
  pub status_check_interval : ℕ

-- `ServerMessagePayload`; `other` is a variant that the service does not know.
pub data ServerMessagePayload : Type 0 where
  invoke : List ℕ → ServerMessagePayload
  create_cells : String → Blob → ServerMessagePayload
  extract_data : Blob → String → Option String → ServerMessagePayload
  get_config_schema : ServerMessagePayload
  get_supported_query_types : ServerMessagePayload
  other : ℕ → ServerMessagePayload

pub record ServerMessage : Type 0 where
  pub op_id : Option ℕ
  pub protocol_version : ℕ
  pub data_source_name : String
  pub payload : ServerMessagePayload

pub data ProxyMessagePayload (H : Host) : Type 0 where
  invoke_proxy_response : List ℕ → ProxyMessagePayload H
  create_cells_response : Outcome Error H.Cells → ProxyMessagePayload H
  extract_data_response : Outcome Error Blob → ProxyMessagePayload H
  config_schema_response : H.Schema → ProxyMessagePayload H
  supported_query_types_response : H.QueryTypes → ProxyMessagePayload H
  error_response : Error → ProxyMessagePayload H
  set_data_sources : List UpsertProxyDataSource → ProxyMessagePayload H

pub record ProxyMessage (H : Host) : Type 0 where
  pub op_id : Option ℕ
  pub payload : ProxyMessagePayload H
