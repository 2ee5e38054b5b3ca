-- ===== src/Service/Health.antt =====
-- The answers of `serve_health_check_endpoints` in src/tasks/service.rs.
pub mod Laws
pub mod Serve
pub mod Truth
use fpd.Base.{
  ℕ, String, Bool, true, false, Option, Outcome, ok, err, panicked, ◌==◌, string_eq, ◌⊎◌, inl, inr,
  if◌then◌else◌,
}
use fpd.Websocket.Settings.{Inner, is_connected}

pub data Method : Type 0 where
  get : Method
  other : String → Method

-- The text of a body; that of the last is the text of prometheus' error.
pub data Body : Type 0 where
  friendly connected disconnected not_found : Body
  metrics : String → Body
  export_failed : String → Body

pub record Response : Type 0 where
  pub status : ℕ
  pub body : Body

abbrev pub response : ℕ → Body → Response
response status body = record { status = status; body = body }

abbrev metrics_response : String ⊎ String → Response
metrics_response (inl e) = response 500 (export_failed e)
metrics_response (inr text) = response 200 (metrics text)

-- `metrics_export`: the error or the text of the export.
module _ {S : Type 0} (ws : Inner S) (metrics_export : String ⊎ String) where
  abbrev at_path : String → Response
  at_path path =
      if path == "/"
      then response 200 friendly
      else if path == ""
      then response 200 friendly
      else if path == "/health"
      then (if is_connected ws then response 200 connected else response 502 disconnected)
      else if path == "/metrics"
      then metrics_response metrics_export
      else response 404 not_found

  unfoldable pub respond : Method → String → Response
  respond get path = at_path path
  respond (other method) path = response 404 not_found
