-- ===== src/Service/Connect.antt =====
-- `connect_websocket` of src/tasks/service.rs, and the two loops of `connect` on the socket.
pub mod Laws
pub mod Listen
use mathlib.Core.Option
use fpd.Base.{
  ℕ, String, Bool, true, false, not, Option, none, some, List, [], ◌∷◌, ◌++◌, Outcome, ok, err,
  panicked, ◌>>=◌, map_err, ◌==◌, string_eq, Profile, if◌then◌else◌,
}
use fpd.Base.Dict
use fpd.Websocket.{Message, binary, Request, Response}
use fpd.Websocket
use fpd.Websocket.Connect.{Trace}
use fpd.Websocket.Connect
use fpd.Websocket.Settings
use fpd.Websocket.Settings.{Inner, Http, initiate_connection}
use fpd.Service.{Host, ProxyService, ServerMessage, ProxyMessage}

-- anyhow's error of `connect`
pub data ConnectError : Type 0 where
  invalid_request : ConnectError
  websocket : Websocket.Error → ConnectError
  no_connection_id : ConnectError
  not_listening : ConnectError

-- The `watch` channel of the connection's id: its value, and how often it was replaced.
pub record ConnId : Type 0 where
  pub value : Option String
  pub replacements : List (Option String)

abbrev pub no_conn_id : ConnId
no_conn_id = record { value = none; replacements = [] }

abbrev option_eq : Option String → Option String → Bool
option_eq none none = true
option_eq (some a) (some b) = a == b
option_eq _ _ = false

-- The handler of the response to a handshake; `to_str` fails on bytes that are no visible ASCII.
unfoldable pub record_conn_id : (String → Option String) → Response → ConnId → ConnId
record_conn_id to_str response state =
    let conn_id = Option.bind (Dict.get "fp-conn-id" response.headers) to_str in
    if option_eq state.value conn_id
    then state
    else record { value = conn_id; replacements = conn_id ∷ state.replacements }

-- `http::Request::builder()` with a URI and the header of the token
abbrev pub token_request : String → String → Request
token_request uri token = record {
  method = "GET";
  uri = uri;
  headers = ("fp-auth-token", token) ∷ [];
}

-- `valid`: whether the builder accepts the URI and the header.
module _ (h : Http) (is_client_error : Response → Bool) (p : Profile)
    (to_str : String → Option String) (valid : Request → Bool) {H : Host}
    (service : ProxyService H) where
  unfoldable pub request : Outcome ConnectError Request
  request =
      let made = token_request service.endpoint service.token in
      if valid made then ok made else err invalid_request

  -- The socket before it is connected.
  unfoldable pub socket : Request → Outcome ConnectError (Inner ConnId)
  unfolding Settings.new Settings.build record_conn_id
  socket made = map_err websocket (do
    builder ← Settings.new (ok made)
    ok (
        Settings.build (
          Settings.connect_response_handler (record_conn_id to_str)
            (Settings.max_retries service.max_retries builder))))

  -- The check after the connection.
  abbrev checked :
      Outcome Websocket.Error (Request × ConnId) → Outcome ConnectError (Request × ConnId)
  checked (ok (sent, conn_id)) = elim conn_id.value [
    | some id ↦ ok (sent, conn_id)
    | none ↦ err no_connection_id
  ]
  checked (err e) = err (websocket e)
  checked panicked = panicked

  -- The key of each attempt, and what the network answers. `.0` is the trace of the attempts.
  unfoldable pub connected :
      (ℕ → String)
      → (ℕ → Request → Outcome Websocket.Error Response)
      → Inner ConnId
      → Option (Trace (Request × ConnId) × Outcome ConnectError (Request × ConnId))
  unfolding Connect.connect initiate_connection
  connected keys network ws =
      Option.map (λ (t : Trace (Request × ConnId)). (t, checked t.result))
        (Connect.connect is_client_error p ws.max_retries ws.max_backoff_duration
          (λ attempt. initiate_connection h ws (keys attempt) (network attempt) no_conn_id))

  unfoldable pub connect_websocket :
      (ℕ → String)
      → (ℕ → Request → Outcome Websocket.Error Response)
      → Outcome ConnectError
          (Option (Trace (Request × ConnId) × Outcome ConnectError (Request × ConnId)))
  unfolding request socket connected
  connect_websocket keys network = do
    made ← request
    ws ← socket made
    ok (connected keys network ws)

-- What the loops see: an incoming item of the socket (`none`: it is closed), or the shutdown.
pub data Incoming : Type 0 where
  received : Option (Outcome Websocket.Error Message) → Incoming
  shutdown : Incoming

-- The messages for which a task was spawned, and how the loop ended, if it has.
pub record Listening : Type 0 where
  pub spawned : List ServerMessage
  pub ended : Option (Outcome Websocket.Error (Unit {0}))

-- `none`: the bytes are no message.
module _ (deserialize_msgpack : List ℕ → Option ServerMessage) where
  abbrev spawn_for : Option ServerMessage → Listening → Listening
  spawn_for none l = l
  spawn_for (some message) l = record l { spawned = l.spawned ++ (message ∷ []) }

  abbrev on_incoming : Incoming → Listening → Listening
  on_incoming shutdown l = record l { ended = some (ok tt) }
  on_incoming (received none) l = record l { ended = some (ok tt) }
  on_incoming (received (some (ok (binary message)))) l = spawn_for (deserialize_msgpack message) l
  on_incoming (received (some (ok _))) l = l
  on_incoming (received (some (err e))) l = record l { ended = some (err e) }
  on_incoming (received (some panicked)) l = record l { ended = some panicked }

  unfoldable pub listen : List Incoming → Listening → Listening
  listen [] l = l
  listen (e ∷ events) l =
      let next = listen events (on_incoming e l) in elim l.ended [ some r ↦ l | none ↦ next ]
