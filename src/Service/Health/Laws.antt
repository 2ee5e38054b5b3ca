-- ===== src/Service/Health/Laws.antt =====
-- What each status of a health check says.
use mathlib.Core.Path.{subst}
use fpd.Base.{String, ◌≡◌, sym, ◌≢◌, ◌↔◌, ◌⊎◌, inl, inr, arith, true, string_eq}
use fpd.Websocket.Settings.{Inner, is_connected}
use fpd.Service.Health.{Method, get, other, metrics_response, respond}

module _ {S : Type 0} (ws : Inner S) (metrics_export : String ⊎ String) where
  metrics-status : (o : String ⊎ String) → (metrics_response o).status ≢ 502
  metrics-status (inl e) h = omega arith
  metrics-status (inr text) h = omega arith

  unhealthy :
      (ws.closed ≡ true) ⊎ (ws.disconnected ≡ true)
      → (respond ws metrics_export get "/health").status ≡ 502
  unfolding respond is_connected string_eq
  unhealthy h = ground arith

  -- The endpoints answer 502 exactly to `GET /health` while the socket has been closed by the user or
  -- has lost its connection.
  respond-bad_gateway :
      (method : Method) (path : String)
      → ((respond ws metrics_export method path).status ≡ 502)
        ↔ ((method ≡ get) × (path ≡ "/health") × ((ws.closed ≡ true) ⊎ (ws.disconnected ≡ true)))
  unfolding respond is_connected
  respond-bad_gateway (other method) path = (λ h. absurd (omega (arith, h)), λ h. cc)
  respond-bad_gateway get path = (
    λ h. ground arith,
    λ (same, at_health, down).
        subst (λ p. (respond ws metrics_export get p).status ≡ 502) (sym at_health)
          (unhealthy down),
  )
