-- ===== src/Websocket/Settings.antt =====
-- `Builder`, `Inner`, `clone_request` and `initiate_connection` of
-- src/tasks/tokio_tungstenite_reconnect/reconnecting_websocket.rs.
pub mod Laws
use fpd.Base.{
  ℕ, String, Bool, true, false, not, ◌&&◌, ◌||◌, Option, none, some, List, [], ◌∷◌, string_eq,
}
use fpd.Base.{Outcome, ok, err, panicked, ◌>>=◌, ok_or, Profile, if◌then◌else◌}
use fpd.Base.Dict
use fpd.Base.Dict.{Dict}
use fpd.Websocket.{
  Message, Request, Response, Error, connection_closed, already_closed, no_host_name,
  invalid_header_value, reset_without_closing_handshake, from_secs,
}
use fpd.Websocket.Connect.{Trace, connect}

abbrev pub default_max_retries : ℕ
default_max_retries = 10

abbrev pub default_max_backoff_duration : ℕ
default_max_backoff_duration = from_secs 60

abbrev pub default_ping_timeout : ℕ
default_ping_timeout = from_secs 45

-- `S` is the state that the caller's response handler writes to.
pub record Builder (S : Type 0) : Type 0 where
  pub request : Request
  pub max_retries : ℕ
  pub max_backoff_duration : ℕ
  pub ping_timeout : ℕ
  pub connect_response_handler : Option (Response → S → S)

module _ {S : Type 0} where
  unfoldable pub new : Outcome Error Request → Outcome Error (Builder S)
  new request = do
    r ← request
    ok (record {
      request = r;
      max_retries = default_max_retries;
      max_backoff_duration = default_max_backoff_duration;
      ping_timeout = default_ping_timeout;
      connect_response_handler = none;
    })

  abbrev pub max_retries : ℕ → Builder S → Builder S
  max_retries retries b = record b { max_retries = retries }

  abbrev pub max_backoff_duration : ℕ → Builder S → Builder S
  max_backoff_duration duration b = record b { max_backoff_duration = duration }

  abbrev pub ping_timeout : ℕ → Builder S → Builder S
  ping_timeout duration b = record b { ping_timeout = duration }

  abbrev pub connect_response_handler : (Response → S → S) → Builder S → Builder S
  connect_response_handler handler b = record b { connect_response_handler = some handler }

-- The parts of `Inner` that are no channel: the settings, and the values of the two `watch`es.
pub record Inner (S : Type 0) : Type 0 where
  pub settings : Builder S
  pub open settings use *
  pub closed : Bool
  pub disconnected : Bool

module _ {S : Type 0} where
  unfoldable pub build : Builder S → Inner S
  build b = record { settings = b; closed = false; disconnected = false }

  unfoldable pub is_connected : Inner S → Bool
  is_connected inner = not inner.closed && not inner.disconnected

  -- `send_replace(true)` on the close channel
  unfoldable pub close : Inner S → Inner S
  close inner = record inner { closed = true }

  -- `accepted`: whether the outgoing channel took the message, or was closed.
  unfoldable pub send : Inner S → Bool → Outcome Error (Unit {0})
  send inner accepted =
      if inner.closed then err already_closed else if accepted then ok tt else err connection_closed

-- What a wait in `recv` ends with: an item of the incoming channel (`none`: it is closed), or a
-- change of the close channel, with whether its sender lives and its value.
pub data Arrival : Type 0 where
  incoming : Option (Outcome Error Message) → Arrival
  close_changed : Bool → Bool → Arrival

-- `none`: the call still waits. Otherwise what it returns, and the arrivals that it left.
unfoldable pub recv : List Arrival → Option (Option (Outcome Error Message) × List Arrival)
recv [] = none
recv (incoming (some (err reset_without_closing_handshake)) ∷ rest) = recv rest
recv (incoming none ∷ rest) = some (some (err connection_closed), rest)
recv (incoming (some result) ∷ rest) = some (some result, rest)
recv (close_changed alive value ∷ rest) =
    let again = recv rest in if not alive || value then some (none, rest) else again

-- `HeaderMap::insert` replaces, so of a name that occurs more than once the last value stays.
unfoldable pub clone_request : Request → Request
clone_request original = record original { headers = Dict.extend original.headers [] }

-- What the code uses of the crates http and tungstenite.
pub record Http : Type 0 where
  pub uri_host : String → Option String
  pub header_value : String → Option String

-- `handler(response)`, if there is a handler
abbrev pub handle : {S : Type 0} → Option (Response → S → S) → Response → S → S
handle none response s = s
handle (some handler) response s = handler response s

-- The five headers that are set, by their names in lower case, whatever the caller's request says.
unfoldable pub handshake_headers : String → String → Dict String String → Dict String String
handshake_headers host key headers = Dict.insert "sec-websocket-key" key (
    Dict.insert "sec-websocket-version" "13" (
      Dict.insert "upgrade" "websocket"
        (Dict.insert "connection" "Upgrade" (Dict.insert "host" host headers))))

module _ (h : Http) where
  abbrev header : String → Outcome Error String
  header text = ok_or invalid_header_value (h.header_value text)

  module _ {S : Type 0} (inner : Inner S) where
    -- The request that is sent, for a host and a fresh key.
    unfoldable pub handshake_request : String → Outcome Error Request
    unfolding clone_request handshake_headers
    handshake_request key = do
      let request = clone_request inner.request
      host ← ok_or no_host_name (h.uri_host request.uri)
      host_value ← header host
      key_value ← header key
      ok (record request { headers = handshake_headers host_value key_value request.headers })

    -- The new connection: the request that was sent, and the handler's state after the response to
    -- it. The two loops of the connection are spawned.
    unfoldable pub initiate_connection :
        String → (Request → Outcome Error Response) → S → Outcome Error (Request × S)
    unfolding handshake_request
    initiate_connection key connect_async s = do
      request ← handshake_request key
      response ← connect_async request
      ok (request, handle inner.connect_response_handler response s)

-- `connect_async`: a socket with the default settings, connected. Each attempt has its key and its
-- own answer of the network.
unfoldable pub connect_async :
    Http
    → (Response → Bool)
    → Profile
    → (ℕ → String)
    → (ℕ → Request → Outcome Error Response)
    → Outcome Error Request
    → Outcome Error (Option (Trace (Request × Unit {0})))
unfolding new build connect initiate_connection
connect_async h is_client_error p keys network request = do
  builder ← new {S = Unit {0}} request
  let websocket = build builder
  ok (
      connect is_client_error p websocket.max_retries websocket.max_backoff_duration
        (λ attempt. initiate_connection h websocket (keys attempt) (network attempt) tt))
