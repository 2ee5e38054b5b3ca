-- ===== src/Service/Health/Truth.antt =====
-- What the answer of the health endpoint says of the loops of the socket.
use fpd.Base.{String, string_eq, ◌≡◌, refl, false, ◌⊎◌, inl, inr, List, All}
use fpd.Websocket.Settings.{Inner}
use fpd.Websocket.Status.{Move, reader_ended, run, first}
use fpd.Websocket.Status.Truth.{LeavesOpen, run-is_connected}
use fpd.Service.Health.{get, respond}

module _ {S : Type 0} (metrics_export : String ⊎ String) where
  -- From the first connection on, whatever the order of the steps of the loops: either `GET /health`
  -- is answered with 502, or the read loop of the last connection has not ended and nobody has closed
  -- the socket.
  pub healthy-reads :
      (moves : List Move) (inner : Inner S)
      → let end = run moves (first inner) in
        ((respond end.inner metrics_export get "/health").status ≡ 502)
        ⊎ ((reader_ended end.reader.phase ≡ false) × All (λ m. LeavesOpen m) moves)
  unfolding respond string_eq
  healthy-reads moves inner = elim (run-is_connected moves inner) [
    | inl down ↦ inl (rw down refl)
    | inr up ↦ inr up
  ]
