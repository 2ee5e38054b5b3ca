-- ===== src/Websocket/ReadLoop.antt =====
-- `spawn_read_loop` of src/tasks/tokio_tungstenite_reconnect/reconnecting_websocket.rs.
pub mod Laws
pub mod Grows
use mathlib.Core.Option.{get_or}
use fpd.Base.{Bool, true, false, Option, none, some, List, [], ◌∷◌, ◌++◌, if◌then◌else◌}
use fpd.Base.{Outcome, ok, err, panicked}
use fpd.Websocket.{Message, close, Error}
use fpd.Websocket.Signal.{Signal, is_ready, seen, tells_to_stop, send_replace}
use fpd.Websocket.WriteLoop.{Sink, room, full, gone}

-- What `ws.recv()` gives and `incoming_sender` takes.
abbrev pub Item : Type 0
Item = Outcome Error Message

-- Where the task waits, or whether it has ended with `should_reconnect`.
pub data Phase : Type 0 where
  selecting : Phase
  forwarding : Item → Phase
  finished : Bool → Phase

pub record Channels : Type 0 where
  pub phase : Phase
  -- The items that the connection still holds, and whether it has ended behind them.
  pub source : List Item
  pub source_closed : Bool
  pub sink : Sink
  -- What the incoming channel took, in order, and the item that ended the loop, if one did.
  pub delivered : List Item
  pub dropped : List Item
  pub disconnect : Signal
  pub user_close : Signal
  -- Whether a handle of the socket is left (`upgrade`).
  pub has_handle : Bool

-- What a sender of the disconnect channel does, if it can still be reached.
abbrev announce : Bool → Channels → Channels
announce value c = record c {
  disconnect = if c.has_handle then send_replace value c.disconnect else c.disconnect;
}

-- The task begins by announcing the connection.
unfoldable pub spawn : Channels → Channels
spawn c = announce false (record c { phase = selecting })

-- The end of the loop tells the write loop to stop.
abbrev finish : Bool → Channels → Channels
finish should_reconnect c = announce true (record c { phase = finished should_reconnect })

abbrev stop_if : Bool → Bool → Channels → Channels
stop_if stop should_reconnect c = if stop then finish should_reconnect c else c

select_signals : Channels → Option Channels
select_signals c =
    if c.source_closed
    then some (finish true c)
    else if is_ready c.disconnect
    then some
        (stop_if (tells_to_stop c.disconnect) true (record c { disconnect = seen c.disconnect }))
    else if is_ready c.user_close
    then some
        (stop_if (tells_to_stop c.user_close) false (record c { user_close = seen c.user_close }))
    else none

receive : Item → Channels → Channels
receive (ok (close frame)) c = finish false (record c { dropped = ok (close frame) ∷ [] })
receive item c = record c { phase = forwarding item }

select : List Item → Channels → Option Channels
unfolding select_signals receive
select (item ∷ rest) c = some (receive item (record c { source = rest }))
select [] c = select_signals c

forward : Sink → Item → Channels → Option Channels
forward room item c = some (record c { delivered = c.delivered ++ (item ∷ []); phase = selecting })
forward full item c = none
forward gone item c = some (finish false (record c { dropped = item ∷ [] }))

advance : Phase → Channels → Option Channels
unfolding select forward
advance selecting c = select c.source c
advance (forwarding item) c = forward c.sink item c
advance (finished should_reconnect) c = none

unfoldable pub poll : Channels → Option Channels
unfolding advance
poll c = advance c.phase c

pub data Move : Type 0 where
  task : Move
  arrived : Item → Move
  source_ended : Move
  sink_becomes : Sink → Move
  disconnect_becomes : Signal → Move
  close_becomes : Signal → Move
  handles_dropped : Move

unfoldable pub move : Move → Channels → Channels
unfolding poll
move task c = get_or (poll c) c
move (arrived item) c = record c { source = c.source ++ (item ∷ []) }
move source_ended c = record c { source_closed = true }
move (sink_becomes sink) c = record c { sink = sink }
move (disconnect_becomes signal) c = record c { disconnect = signal }
move (close_becomes signal) c = record c { user_close = signal }
move handles_dropped c = record c { has_handle = false }

unfoldable pub run : List Move → Channels → Channels
unfolding move
run [] c = c
run (m ∷ moves) c = run moves (move m c)
