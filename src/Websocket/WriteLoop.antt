-- ===== src/Websocket/WriteLoop.antt =====
-- `spawn_write_loop` of src/tasks/tokio_tungstenite_reconnect/reconnecting_websocket.rs, with the
-- channels that it shares with the other tasks.
pub mod Order
pub mod Flush
pub mod Deal
use fpd.Base.{ℕ, suc, Bool, true, false, Option, none, some, List, [], ◌∷◌, ◌++◌, length, ltb}
use fpd.Base.{if◌then◌else◌}
use mathlib.Core.Option.{get_or}
use fpd.Websocket.{Message}
use fpd.Websocket.Signal.{Signal, is_ready, seen, tells_to_stop, send_replace}

-- Where the task waits: at `select_biased!`, in `ws.outgoing_sender.send`, in `retry_sender.send`.
pub data Phase : Type 0 where
  selecting : Phase
  forwarding : Message → Phase
  requeueing : Message → Phase
  finished : Phase

-- The channel into the `WebSocketKeepAlive`: it has room, it is full, or its receiver is gone.
pub data Sink : Type 0 where
  room full gone : Sink

pub record Channels : Type 0 where
  pub phase : Phase
  pub retry : List Message
  pub outgoing : List Message
  pub outgoing_closed : Bool
  pub sink : Sink
  -- What the sink took, in order.
  pub delivered : List Message
  pub disconnect : Signal
  pub close : Signal
  -- Whether a handle of the socket is left (`upgrade`).
  pub has_handle : Bool

-- `bounded(1)`
abbrev pub retry_capacity : ℕ
retry_capacity = 1

-- The end of the task tells the read loop to stop.
abbrev finish : Channels → Channels
finish c = record c {
  phase = finished;
  disconnect = if c.has_handle then send_replace true c.disconnect else c.disconnect;
}

abbrev stop_if : Bool → Channels → Channels
stop_if stop c = if stop then finish c else c

-- The branches of `select_biased!`, the first that is ready. `none`: none is.
select_signals : Channels → Option Channels
select_signals c =
    if c.outgoing_closed
    then some (finish c)
    else if is_ready c.disconnect
    then some (stop_if (tells_to_stop c.disconnect) (record c { disconnect = seen c.disconnect }))
    else if is_ready c.close
    then some (stop_if (tells_to_stop c.close) (record c { close = seen c.close }))
    else none

select_outgoing : List Message → Channels → Option Channels
unfolding select_signals
select_outgoing (message ∷ rest) c = some (record c { outgoing = rest; phase = forwarding message })
select_outgoing [] c = select_signals c

select : List Message → Channels → Option Channels
unfolding select_outgoing
select (message ∷ rest) c = some (record c { retry = rest; phase = forwarding message })
select [] c = select_outgoing c.outgoing c

-- `bounded(1)`: a message fills the channel, until the keepalive takes it.
forward : Sink → Message → Channels → Option Channels
forward room message c =
    some (record c { delivered = c.delivered ++ (message ∷ []); phase = selecting; sink = full })
forward full message c = none
forward gone message c = some (record c { phase = requeueing message })

requeue : Message → Channels → Option Channels
requeue message c =
    if ltb (length c.retry) retry_capacity
    then some (finish (record c { retry = c.retry ++ (message ∷ []) }))
    else none

-- One step of the task; `none` if it has to wait, or has ended.
advance : Phase → Channels → Option Channels
unfolding select forward requeue
advance selecting c = select c.retry c
advance (forwarding message) c = forward c.sink message c
advance (requeueing message) c = requeue message c
advance finished c = none

unfoldable pub poll : Channels → Option Channels
unfolding advance
poll c = advance c.phase c

-- What happens to the channels: a step of the task, or what other tasks do to them.
pub data Move : Type 0 where
  task : Move
  produced : Message → Move
  producers_gone : Move
  sink_becomes : Sink → Move
  disconnect_becomes : Signal → Move
  close_becomes : Signal → Move
  handles_dropped : Move

unfoldable pub move : Move → Channels → Channels
unfolding poll
move task c = get_or (poll c) c
move (produced message) c = record c { outgoing = c.outgoing ++ (message ∷ []) }
move producers_gone c = record c { outgoing_closed = true }
move (sink_becomes sink) c = record c { sink = sink }
move (disconnect_becomes signal) c = record c { disconnect = signal }
move (close_becomes signal) c = record c { close = signal }
move handles_dropped c = record c { has_handle = false }

unfoldable pub run : List Move → Channels → Channels
unfolding move
run [] c = c
run (m ∷ moves) c = run moves (move m c)
