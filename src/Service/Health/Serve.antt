-- ===== src/Service/Health/Serve.antt =====
-- The loop of `serve_health_check_endpoints` in src/tasks/service.rs, and the tasks it spawns.
use fpd.Base.{ℕ, ◌+◌, ◌-◌, String, Bool, true, false, ◌⊎◌, List, [], ◌∷◌, ◌++◌, ltb, if◌then◌else◌}
use fpd.Websocket.Settings.{Inner}
use fpd.Service.Health.{Method, Response, respond}

-- Each connection has a task of its own, which a panic of the loop leaves alone.
pub record Server : Type 0 where
  pub accepting : Bool
  pub connections : ℕ
  pub answers : List Response

-- `accept` has returned, with or without an error; a request has come, with the state of the socket
-- and the export of the metrics at that time; a connection has ended.
pub data Move (S : Type 0) : Type 0 where
  accepted : Bool → Move S
  requested : Inner S → String ⊎ String → Method → String → Move S
  connection_ended : Move S

-- The loop's `expect` panics at an error.
unfoldable accept : Bool → Server → Server
accept true s = record s { connections = s.connections + 1 }
accept false s = record s { accepting = false }

module _ {S : Type 0} where
  unfoldable pub move : Move S → Server → Server
  unfolding accept respond
  move (accepted success) s = if s.accepting then accept success s else s
  move (requested ws metrics_export method path) s =
      if ltb 0 s.connections
      then record s { answers = s.answers ++ (respond ws metrics_export method path ∷ []) }
      else s
  move connection_ended s = record s { connections = s.connections - 1 }

  unfoldable pub run : List (Move S) → Server → Server
  unfolding move
  run [] s = s
  run (m ∷ moves) s = run moves (move m s)
