-- ===== src/Examples/Hosts.antt =====
-- A provider runtime and a proxy service, for runs of the model.
use fpd.Base.{ℕ, ◌+◌, ◌*◌, ◌-◌, ◌/◌, inr, arith, none, some, [], ◌∷◌, string_eq, ok}
use fpd.Base.Dict
use fpd.Base.Int.{pos}
use fpd.Service.{Blob, Host, ProxyDataSource, runtime, ProxyService, null}
use fpd.Service.Handle.Cases.{Returns, HasModules}
use fpd.Service.StatusCheck.{Floats, DataSourceCheckTask}

abbrev pub blob : Blob
blob = record { content = 7 ∷ []; mime_type = "text/plain" }

-- A host whose provider answers each request with the time.
abbrev pub clock : Host
clock = record {
  Runtime = Unit {0};
  Cells = ℕ;
  Schema = ℕ;
  QueryTypes = ℕ;
  status_query_type = "x-status";
  status_mime_type = "application/x-status";
  from_slice = λ bytes. ok (record { query_type = "q"; query_data = blob; config = null });
  to_vec_named = λ request. ok (1 ∷ []);
  result_from_slice = λ bytes. ok (inr blob);
  serialize_to_vec = λ value. 2 ∷ [];
  deserialize_from_slice = λ bytes. 0;
  invoke2_raw = λ now r bytes. ok (now ∷ bytes);
  create_cells = λ r query_type response. ok (ok 0);
  extract_data = λ r response mime_type query. ok (ok response);
  get_config_schema = λ r. ok 0;
  get_supported_query_types_raw = λ now r bytes. ok bytes;
}

pub clock-Returns : Returns clock
clock-Returns = record {
  from_slice = λ b e. cc;
  result_from_slice = λ b e. cc;
  to_vec_named = λ r e. cc;
  invoke2_raw = λ now r b e. cc;
  create_cells = λ r q b e. cc;
  extract_data = λ r b m q e. cc;
  get_config_schema = λ r e. cc;
  get_supported_query_types_raw = λ now r b e. cc;
}

abbrev pub metrics_source : ProxyDataSource
metrics_source = record {
  name = "metrics";
  provider_type = "prometheus";
  config = [];
  description = none;
}

abbrev pub service : ProxyService clock
service = record {
  endpoint = "wss://example.com";
  token = "t";
  data_sources = ("metrics", metrics_source) ∷ [];
  data_sources_state = [];
  wasm_modules = ("prometheus", runtime tt) ∷ [];
  max_retries = 3;
  listen_address = none;
  status_check_interval = 5;
}

pub service-HasModules : HasModules service
unfolding Dict.get
service-HasModules name source h = ground arith

-- `f32` as halves, with the exact product; no delay is out of range.
abbrev pub halves : Floats
halves = record {
  F32 = ℕ;
  one = 2;
  one_and_a_half = 3;
  add = λ a b. a + b;
  sub = λ a b. a - b;
  mul = λ a b. a * b / 2;
  div = λ a b. a / 2 * b;
  ln = λ a. a;
  floor = λ a. a;
  to_isize = λ a. pos (a / 2);
  as_secs_f32 = λ n. n;
  from_secs_f32 = some;
}

-- Three retries, the first after 8 nanoseconds.
abbrev pub three_left : DataSourceCheckTask halves
three_left = record {
  name = "metrics";
  retries_left = pos 3;
  delay_till_next = 8;
  backoff_factor = 3;
}
