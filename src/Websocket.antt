-- ===== src/Websocket.antt =====
-- What the modules of src/tasks/tokio_tungstenite_reconnect/ share: tungstenite's messages and
-- errors as far as the code tells them apart, requests and responses, durations.
pub mod Connect
pub mod Intake
pub mod Status
pub mod Keepalive
pub mod Pipe
pub mod ReadLoop
pub mod Settings
pub mod Signal
pub mod WriteLoop
use fpd.Base.{ℕ, ◌*◌, String, List, Option}
use fpd.Base.Dict.{Dict}

-- tungstenite's `Message`
pub data Message : Type 0 where
  text : String → Message
  binary : List ℕ → Message
  ping : List ℕ → Message
  pong : List ℕ → Message
  close : Option ℕ → Message
  frame : List ℕ → Message

-- http's `Request<()>` and `Response`, each header name with its value
pub record Request : Type 0 where
  pub method : String
  pub uri : String
  pub headers : Dict String String

pub record Response : Type 0 where
  pub status : ℕ
  pub headers : Dict String String

-- tungstenite's `Error`: the variants that the code names, and the rest.
pub data Error : Type 0 where
  connection_closed : Error
  already_closed : Error
  http : Response → Error
  no_host_name : Error
  invalid_header_value : Error
  reset_without_closing_handshake : Error
  other : ℕ → Error

-- `Duration`, in nanoseconds
abbrev pub from_millis : ℕ → ℕ
from_millis n = n * 1000000

abbrev pub from_secs : ℕ → ℕ
from_secs n = n * 1000000000
