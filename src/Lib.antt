-- ===== src/Lib.antt =====
-- The Fiberplane daemon `fpd`: a model of src/, and what is proved of it.
--
-- The daemon holds one WebSocket connection to the Fiberplane API and answers the messages that
-- come over it by calls of WebAssembly providers. Its parts, from the connection up:
--
-- - Websocket: src/tasks/tokio_tungstenite_reconnect/. `WebSocketKeepAlive` (Websocket/Keepalive, with
--   the children Writer and Reader for its two tasks) puts channels before a WebSocket, and pings.
--   `ReconnectingWebSocket` makes such connections one after the other: Websocket/Settings has the
--   builder, the handle (`send`, `recv`, `close`, `is_connected`) and the handshake request of
--   `initiate_connection`; Websocket/Connect the retries of `connect`; Websocket/WriteLoop and
--   Websocket/ReadLoop its two tasks. A task is a function `poll` from a state of its channels to the
--   next, one step from one await point to the next; a run is any sequence of moves, each a step of the
--   task or a change that another task makes. A `watch` channel is seen as its receiver sees it
--   (Websocket/Signal). Websocket/Pipe joins the write loops of all connections, which may overlap, with
--   the writers behind them into the way of an outgoing message; Websocket/Pipe/Pool is the pool that
--   this refines. Websocket/Intake joins the two read loops, up to what `recv` takes.
--   Websocket/Status joins the two loops of a connection by the disconnect channel between them,
--   whose value `is_connected` reads.
-- - Service: src/tasks/service.rs and src/tasks/service/. Service/Handle answers a server message
--   (`handle_message_inner`), by Service/Bindings, and logs its updates of the metrics
--   (src/tasks/metrics.rs, Service/Metrics). Service/StatusCheck has the retries of a check
--   (`DataSourceCheckTask`), Service/Update the updates of the states of the data sources, Service/Tasks
--   the task of `connect` that does these updates at each tick and tells the relay, whose view of the
--   data sources is in Service/Tasks/Relay. Service/Init makes the service, Service/Init/Endpoint its
--   URL; Service/Connect its socket, with the loop on what comes over it; Service/Outgoing has the task
--   that sends; Service/Running joins these three loops, the shutdown and Ctrl-C, as `connect` does;
--   Service/Health answers the health checks, for the connections of Service/Health/Serve.
-- - Providers: src/tasks/provider_manager.rs and src/runtime.rs. Providers/Pull downloads providers,
--   Providers/Build builds them, Providers/Archive has their loops over entries, Providers/Paths and
--   Providers/Texts the paths and texts. What they do to the disk is a list of effects.
-- - Daemon: `main` of src/main.rs, up to the call of `ProxyService::init`, and `initialize_logger`.
-- - Cli/Interval: `IntervalDuration::from_str` of src/cli.rs, on bytes.
-- - Base: the shared names, tests, lists, results, dictionaries and fixed-width numbers. Examples: runs,
--   and the theorems at concrete inputs.
--
-- A Rust call comes to `ok`, `err` or `panicked` (`Outcome`). Fixed-width arithmetic is written out
-- for both build profiles: an overflow panics in a debug build and wraps in a release build. A
-- `HashMap` is an association list, whose order stands for the iteration order. Durations are
-- nanoseconds.
--
-- What is not in the repository is a parameter: the provider runtime and the serializers (`Host`),
-- `f32` (`Floats`), the crates url (`UrlCrate`), http and tungstenite (`Http`, and the answers of the
-- network at each attempt), GitHub and the readers of archives (`Octocrab`, `Client`), and the disk
-- (`Disk`, `World`). Hypotheses on them are named: `Returns` (no panic), `InRange` with `Starts` (the delays
-- that follow from the first tasks of the status checks fit a `Duration`), `KeepsSchemes` (the crate
-- url joins paths and exchanges schemes as it documents).
--
-- Fuel: `connect` has a round for each of its `max_retries` retries and one for the first attempt,
-- which is enough. The delays of a status check have a round for each retry and one more, which is
-- enough. The numerals of Cli/Interval/Decimal have more rounds than digits. `trim_start_matches`
-- has a round for each byte, which is enough (Providers/Texts/Laws).
--
-- Websocket/WriteLoop alone is one loop on its channels; Websocket/Pipe has several. In
-- Service/Update/Join a check answers alike whenever it is made. Header names are in lower case, as the
-- crate http keeps them. A clone of a `watch` receiver has the value of the channel and what
-- its origin has not seen (Websocket/Status).
--
-- Not modelled: tracing, the registration and the export of the metrics, and what hyper, clap and
-- prometheus do themselves.
pub mod Base
pub mod Websocket
pub mod Service
pub mod Cli
pub mod Providers
pub mod Daemon
pub mod Examples
