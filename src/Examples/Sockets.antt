-- ===== src/Examples/Sockets.antt =====
-- The theorems on src/tasks/tokio_tungstenite_reconnect/reconnecting_websocket.rs at concrete inputs.
use mathlib.Core.Option
use fpd.Base.{
  ℕ, ◌<◌, ◌≡◌, ◌≢◌, refl, arith, Bool, true, false, ◌&&◌, inl, inr, none, some, List, [], ◌∷◌, ◌++◌,
  All, Outcome, ok, err, panicked, ltb, leb, if◌then◌else◌, string_eq, debug, release,
}
use fpd.Base.Dict
use fpd.Base.Dict.{Dict}
use fpd.Websocket.{
  Message, text, close, Request, Response, Error, connection_closed,
  reset_without_closing_handshake, from_secs,
}
use fpd.Websocket.Connect.{Trace, backoff, connect}
use fpd.Websocket.Connect.Laws.{Fails, connected, connect_lem, connect_total, backoff-overflow}
use fpd.Websocket.Signal.{Signal}
use fpd.Websocket.Settings.{
  Inner, Arrival, incoming, close_changed, recv, Http, handshake_request, clone_request,
  handshake_headers,
}
use fpd.Websocket.Settings.Laws.{Answers, handshake_names, handshake_request_lem, recv_lem}
use fpd.Websocket.WriteLoop
use fpd.Websocket.WriteLoop.{Channels, Sink, room, gone}
use fpd.Websocket.WriteLoop.Flush.{idle_with, polls, run-polls}
use fpd.Websocket.ReadLoop
use fpd.Websocket.ReadLoop.Laws

abbrev is_client_error : Response → Bool
is_client_error r = leb 400 r.status && ltb r.status 500

-- Two attempts fail, and the third connects.
abbrev flaky : ℕ → Outcome Error ℕ
flaky k = if ltb k 2 then err connection_closed else ok 7

flaky-Fails : (k : ℕ) → k < 2 → Fails is_client_error 3 flaky k
flaky-Fails k h = (connection_closed, ground arith, refl)

abbrev flaky_trace : Trace ℕ
flaky_trace = record { sleeps = 64000000 ∷ 128000000 ∷ []; result = ok 7 }

connect_lem_example : connect is_client_error debug 3 (from_secs 60) flaky ≡ some flaky_trace
connect_lem_example =
    connect_lem is_client_error 3 flaky debug (from_secs 60) 2 flaky-Fails (omega arith)
      (omega arith) (connected 7 refl refl)

connect_total_example : connect is_client_error release 3 (from_secs 60) flaky ≢ none
connect_total_example = connect_total is_client_error 3 flaky release (from_secs 60) (omega arith)

backoff-overflow_example :
    (backoff debug (from_secs 60) 58 ≡ panicked) × (backoff release (from_secs 60) 58 ≡ ok 0)
backoff-overflow_example = backoff-overflow (from_secs 60) 58 (omega arith) (omega arith)

abbrev pub quiet_signal : Signal
quiet_signal = record { changed = false; alive = true; value = false }

abbrev told_signal : Signal
told_signal = record { changed = true; alive = true; value = true }

abbrev pub hello : Message
hello = text "hello"

abbrev pub bye : Message
bye = text "bye"

abbrev writing : Channels
writing = idle_with (hello ∷ []) [] quiet_signal quiet_signal

-- The sink goes away under the first message, which is put back.
abbrev sink_lost : List WriteLoop.Move
sink_lost =
    WriteLoop.task
    ∷ WriteLoop.sink_becomes gone
    ∷ WriteLoop.task
    ∷ WriteLoop.task
    ∷ WriteLoop.produced bye
    ∷ []

sink_lost_keeps :
    ((WriteLoop.run sink_lost writing).retry ≡ hello ∷ [])
    × ((WriteLoop.run sink_lost writing).outgoing ≡ bye ∷ [])
unfolding WriteLoop.run
sink_lost_keeps = (refl, refl)

run-polls_example :
    let end =
      WriteLoop.run
        (polls (hello ∷ bye ∷ []))
        (idle_with (hello ∷ bye ∷ []) [] quiet_signal told_signal) in
    (end.phase ≡ WriteLoop.finished)
    × (end.outgoing ≡ [])
    × (end.delivered ≡ hello ∷ bye ∷ [])
    × (end.disconnect.value ≡ true)
run-polls_example = run-polls (hello ∷ bye ∷ []) [] quiet_signal told_signal refl refl refl

abbrev reading : ReadLoop.Channels
reading = record {
  phase = ReadLoop.selecting;
  source = ok hello ∷ ok (close none) ∷ [];
  source_closed = false;
  sink = room;
  delivered = [];
  dropped = [];
  disconnect = quiet_signal;
  user_close = quiet_signal;
  has_handle = true;
}

abbrev reading_moves : List ReadLoop.Move
reading_moves = ReadLoop.task ∷ ReadLoop.arrived (ok bye) ∷ ReadLoop.task ∷ ReadLoop.task ∷ []

abbrev at_close_frame : ReadLoop.Channels
at_close_frame = record reading { source = ok (close none) ∷ [] }

abbrev after_close_frame : ReadLoop.Channels
after_close_frame = record at_close_frame {
  phase = ReadLoop.finished false;
  source = [];
  dropped = ok (close none) ∷ [];
  disconnect = told_signal;
}

after_close_frame_is : ReadLoop.poll at_close_frame ≡ some after_close_frame
unfolding ReadLoop.poll
after_close_frame_is = refl

poll-Reason_example :
    Laws.Reason at_close_frame false
    × (after_close_frame.disconnect.changed ≡ true)
    × (after_close_frame.disconnect.value ≡ true)
poll-Reason_example =
    Laws.poll-Reason at_close_frame {next = after_close_frame} {b = false} refl after_close_frame_is
      refl

abbrev http_crate : Http
http_crate = record { uri_host = λ uri. some "example.com"; header_value = some }

abbrev request : Request
request = record {
  method = "GET";
  uri = "wss://example.com/ws";
  headers = ("fp-auth-token", "a") ∷ ("upgrade", "none") ∷ ("fp-auth-token", "b") ∷ [];
}

abbrev pub socket : Inner (Unit {0})
socket = record {
  settings = record {
    request = request;
    max_retries = 3;
    max_backoff_duration = from_secs 60;
    ping_timeout = from_secs 45;
    connect_response_handler = none;
  };
  closed = false;
  disconnected = false;
}

abbrev handshake : Request
handshake = record request {
  headers = handshake_headers "example.com" "key" (clone_request request).headers;
}

handshake_is : handshake_request http_crate socket "key" ≡ ok handshake
unfolding handshake_request
handshake_is = refl

token_is_no_own : All (λ own. "fp-auth-token" ≢ own) handshake_names
token_is_no_own = (λ e. cc, (λ e. cc, (λ e. cc, (λ e. cc, (λ e. cc, tt)))))

handshake_request_lem_example :
    (handshake.method ≡ "GET")
    × (handshake.uri ≡ "wss://example.com/ws")
    × (Dict.get "host" handshake.headers ≡ some "example.com")
    × (Dict.get "connection" handshake.headers ≡ some "Upgrade")
    × (Dict.get "upgrade" handshake.headers ≡ some "websocket")
    × (Dict.get "sec-websocket-version" handshake.headers ≡ some "13")
    × (Dict.get "sec-websocket-key" handshake.headers ≡ some "key")
    × (Dict.get "fp-auth-token" handshake.headers ≡ some "b")
unfolding string_eq Option.bind
handshake_request_lem_example =
    handshake_request_lem http_crate socket "key" {r = handshake} "fp-auth-token" token_is_no_own
      handshake_is

-- A reset that is passed over, a change of the close channel that is passed over, and a message.
abbrev quiet_arrivals : List Arrival
quiet_arrivals =
    incoming (some (err reset_without_closing_handshake)) ∷ close_changed true false ∷ []

recv_lem_example :
    recv (quiet_arrivals ++ incoming (some (ok hello)) ∷ incoming none ∷ [])
    ≡ some (some (ok hello), incoming none ∷ [])
recv_lem_example =
    recv_lem quiet_arrivals (incoming none ∷ []) (inl refl, (inr refl, tt)) (Answers.received hello)
