-- ===== src/Examples/Starts.antt =====
-- The start of the daemon and its connection, and the theorems on them.
use mathlib.Core.Option
use fpd.Base.{
  ℕ, ◌≤◌, ◌≡◌, ◌≢◌, refl, arith, String, Bool, true, false, ◌&&◌, Option, none, some, List, [], ◌∷◌,
  ◌++◌, Outcome, ok, inl, inr, string_eq, debug, leb, ltb,
}
use fpd.Base.Dict
use fpd.Websocket.{Message, binary, text, Request, Response}
use fpd.Websocket
use fpd.Websocket.Connect.{Trace, connect}
use fpd.Websocket.Settings
use fpd.Websocket.Settings.{
  is_connected, Inner, Http, handshake_headers, clone_request, handshake_request,
  initiate_connection,
}
use fpd.Service.{ServerMessage, invoke}
use fpd.Service.Connect.{
  ConnId, record_conn_id, token_request, socket, connected, listen, shutdown, received,
}
use fpd.Service.Connect.Laws.{connected-IsAuthenticated}
use fpd.Service.Connect.Listen.{by_shutdown, arriving, listen_lem}
use fpd.Service.Health.{get, respond}
use fpd.Service.Health.Serve.{accepted, requested, run}
use fpd.Daemon.{World, Arguments, serves, chosen_wasm_dir, main}
use fpd.Daemon.Laws.{IsConfigured, main-serves}
use fpd.Examples.Hosts.{metrics_source, service}
use fpd.Examples.Pulls.{octocrab, w}

abbrev is_client_error : Response → Bool
is_client_error r = leb 400 r.status && ltb r.status 500

abbrev http_crate : Http
http_crate = record { uri_host = λ uri. some "example.com"; header_value = some }

abbrev keys : ℕ → String
keys attempt = "key"

abbrev answer : Response
answer = record { status = 101; headers = ("fp-conn-id", "c1") ∷ [] }

abbrev network : ℕ → Request → Outcome Websocket.Error Response
network attempt request = ok answer

abbrev token_socket : Inner ConnId
token_socket = record {
  settings = record {
    request = token_request service.endpoint service.token;
    max_retries = 3;
    max_backoff_duration = Settings.default_max_backoff_duration;
    ping_timeout = Settings.default_ping_timeout;
    connect_response_handler = some (record_conn_id some);
  };
  closed = false;
  disconnected = false;
}

token_socket_is :
    socket http_crate is_client_error debug some
      (λ r. true)
      service
      (token_request service.endpoint service.token)
    ≡ ok token_socket
unfolding socket Settings.build
token_socket_is = refl

abbrev sent : Request
sent = record (token_request service.endpoint service.token) {
  headers =
      handshake_headers "example.com" "key"
        (clone_request (token_request service.endpoint service.token)).headers;
}

abbrev conn_id : ConnId
conn_id = record { value = some "c1"; replacements = some "c1" ∷ [] }

abbrev trace : Trace (Request × ConnId)
trace = record { sleeps = []; result = ok (sent, conn_id) }

connected_is :
    connected http_crate is_client_error debug some (λ r. true) service keys network token_socket
    ≡ some (trace, ok (sent, conn_id))
unfolding connected connect initiate_connection handshake_request record_conn_id string_eq Dict.get
    Option.bind
connected_is = refl

connected-IsAuthenticated_example :
    (0 ≤ 3) × (Dict.get "fp-auth-token" sent.headers ≡ some "t") × (conn_id.value ≢ none)
connected-IsAuthenticated_example =
    connected-IsAuthenticated http_crate is_client_error debug some (λ r. true) service keys network
      {ws = token_socket} {t = trace} {sent = sent} {conn_id = conn_id} (omega arith)
      token_socket_is connected_is

abbrev server_message : ServerMessage
server_message = record {
  op_id = some 9;
  protocol_version = 2;
  data_source_name = "metrics";
  payload = invoke [];
}

-- Only the first byte is looked at.
abbrev deserialize : List ℕ → Option ServerMessage
deserialize [] = none
deserialize (b ∷ bytes) = some server_message

listen_lem_example :
    listen deserialize
      (arriving (text "x" ∷ binary (1 ∷ []) ∷ binary [] ∷ []) ++ shutdown ∷ received none ∷ [])
      (record { spawned = []; ended = none })
    ≡ record { spawned = server_message ∷ []; ended = some (ok tt) }
listen_lem_example =
    listen_lem deserialize (text "x" ∷ binary (1 ∷ []) ∷ binary [] ∷ []) shutdown
      (received none ∷ []) by_shutdown

abbrev health : String
health = "/health"

abbrev lost : Inner ConnId
lost = record token_socket { disconnected = true }

-- The answers go on after the loop of the endpoints has panicked, and new connections do not.
serves_on :
    let end =
      run
        (accepted true ∷ accepted false ∷ accepted true ∷ requested lost (inr "m") get health ∷ [])
        (record { accepting = true; connections = 0; answers = [] }) in
    (end.accepting ≡ false)
    × (end.connections ≡ 1)
    × (end.answers ≡ respond lost (inr "m") get health ∷ [])
unfolding run respond is_connected string_eq
serves_on = (refl, refl, refl)

abbrev world : World
world = record {
  disk = record {
    project_dir = none;
    exists = λ path. true;
    is_dir = λ path. true;
    fails = λ e. none;
  };
  config_dir = none;
  is_file = λ path. true;
  read_to_string = λ path. inr "[]";
  from_yaml = λ text. some (metrics_source ∷ []);
  octocrab = octocrab;
  read_dir = λ path. inl 0;
}

abbrev arguments : Arguments String
arguments = record {
  wasm_dir = some w;
  token = some "t";
  data_sources_path = none;
  subcommand = none;
}

serving : main world arguments ≡ ok (serves "t" w (metrics_source ∷ []))
unfolding main
serving = refl

main-serves_example :
    (arguments.subcommand ≡ none)
    × (arguments.token ≡ some "t")
    × (chosen_wasm_dir world arguments.wasm_dir ≡ ok w)
    × (world.disk.is_dir w ≡ true)
    × IsConfigured world none (metrics_source ∷ [])
main-serves_example =
    main-serves world arguments {token = "t"} {dir = w} {sources = metrics_source ∷ []} serving
