-- ===== src/Websocket/Keepalive/Reader.antt =====
-- `spawn_read_loop` of src/tasks/tokio_tungstenite_reconnect/websocket_keepalive.rs.
pub mod Laws
pub mod Grows
use mathlib.Core.Option.{get_or}
use fpd.Base.{Bool, true, false, Option, none, some, List, [], ◌∷◌, ◌++◌, if◌then◌else◌}
use fpd.Base.{Outcome, ok, err, panicked}
use fpd.Websocket.{Message, ping, pong, Error}
use fpd.Websocket.Signal.{Signal, is_ready, seen, send_replace}
use fpd.Websocket.WriteLoop.{Sink, room, full, gone}

abbrev pub Item : Type 0
Item = Outcome Error Message

-- Where the task waits: at `select_biased!`, or in `incoming_sender.send`.
pub data Phase : Type 0 where
  selecting : Phase
  forwarding : Item → Phase
  finished : Phase

pub record Channels : Type 0 where
  pub phase : Phase
  -- What the WebSocket has still to give, and whether it ends behind that.
  pub source : List Item
  pub source_closed : Bool
  pub sink : Sink
  pub delivered : List Item
  -- The item at which forwarding failed.
  pub dropped : List Item
  pub disconnect : Signal

abbrev finish : Channels → Channels
finish c = record c { phase = finished; disconnect = send_replace true c.disconnect }

-- Pings and pongs are answered by the WebSocket, and end here.
receive : Item → Channels → Channels
receive (ok (ping payload)) c = c
receive (ok (pong payload)) c = c
receive item c = record c { phase = forwarding item }

select : List Item → Channels → Option Channels
unfolding receive
select (item ∷ rest) c = some (receive item (record c { source = rest }))
select [] c =
    if c.source_closed
    then some (finish c)
    else if is_ready c.disconnect
    then some (finish (record c { disconnect = seen c.disconnect }))
    else none

forward : Sink → Item → Channels → Option Channels
forward room item c = some (record c { delivered = c.delivered ++ (item ∷ []); phase = selecting })
forward full item c = none
forward gone item c = some (finish (record c { dropped = item ∷ [] }))

poll : Phase → Channels → Option Channels
unfolding select forward
poll selecting c = select c.source c
poll (forwarding item) c = forward c.sink item c
poll finished c = none

pub data Move : Type 0 where
  task : Move
  arrived : Item → Move
  source_ended : Move
  sink_becomes : Sink → Move
  disconnect_becomes : Signal → Move

unfoldable pub move : Move → Channels → Channels
unfolding poll
move task c = get_or (poll c.phase c) c
move (arrived item) c = record c { source = c.source ++ (item ∷ []) }
move source_ended c = record c { source_closed = true }
move (sink_becomes sink) c = record c { sink = sink }
move (disconnect_becomes signal) c = record c { disconnect = signal }

unfoldable pub run : List Move → Channels → Channels
unfolding move
run [] c = c
run (m ∷ moves) c = run moves (move m c)
